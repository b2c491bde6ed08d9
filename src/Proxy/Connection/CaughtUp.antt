-- ===== src/Proxy/Connection/CaughtUp.antt =====
-- src/main.rs, `handle_connection`: what the tracker was sent when the loop is at its head.
use mongoproxy.Prelude.{
  ℕ, ◌≡◌, ◌∙◌, sym, refl, ap, Bool, true, false, Option, none, some, List, [], ◌∷◌, ◌++◌,
  append-nil, if◌then◌else◌,
}
use mongoproxy.Io.{Error, Result}
use mongoproxy.Wire.OpMsg.Layout.{concat}
use mongoproxy.Proxy.Bytes.{Pipe}
use mongoproxy.Proxy.Bytes.Copies.{concat-append}
use mongoproxy.Proxy.Connection.{
  Task, reading, writing, sending, notifying, Direction, Socket, read_some, write_all, Channel,
  send, send_fails, notify, notify_fails, receive, Ends, read_end, read_fails, write_fails,
  Connection, joined, Move, by_socket, by_channel, by_receive, by_stop, by_close, by_end, Reach,
  Reach-both,
}

-- the copies that were sent, together
abbrev all_tracked : Pipe → List ℕ
all_tracked p = concat p.tracked

-- What was read, written and copied, by where the task stands.
abbrev IsAhead : Option (Result (Unit {0})) → Task → List ℕ → Pipe → Type 0
IsAhead r reading read p = (read ≡ p.written) × (p.tracker_ok ≡ true → read ≡ all_tracked p)
IsAhead r (writing buf) read p =
    r ≡ none → (read ≡ p.written ++ buf) × (p.tracker_ok ≡ true → p.written ≡ all_tracked p)
IsAhead r (sending buf) read p =
    (read ≡ p.written) × (p.tracker_ok ≡ true → read ≡ all_tracked p ++ buf)
IsAhead r notifying read p = (read ≡ p.written) × (p.tracker_ok ≡ false)

abbrev IsTracked : Option (Result (Unit {0})) → Direction → Type 0
IsTracked r d = IsAhead r d.task d.read d.pipe

IsAhead-at :
    (r : Option (Result (Unit {0}))) (d : Direction) (task : Task)
    → d.task ≡ task
    → IsTracked r d
    → IsAhead r task d.read d.pipe
IsAhead-at r d task e h = rw e at h

written-IsAhead :
    (b : Bool) (buf : List ℕ) (d : Direction)
    → d.pipe.tracker_ok ≡ b
    → d.read ≡ d.pipe.written ++ buf
    → (d.pipe.tracker_ok ≡ true → d.pipe.written ≡ all_tracked d.pipe)
    → IsAhead none
        (if b then sending buf else reading)
        d.read
        (record d.pipe { written = d.pipe.written ++ buf })
written-IsAhead true buf d e h k = (h, λ f. h ∙ ap (λ bs. bs ++ buf) (k f))
written-IsAhead false buf d e h k = (h, λ f. absurd (cc (e, f)))

Socket-IsTracked : (d d' : Direction) → Socket d d' → IsTracked none d → IsTracked none d'
Socket-IsTracked d _ (read_some buf _ e _ _) h =
    let (same, all) = IsAhead-at none d reading e h in
    λ _. (ap (λ bs. bs ++ buf) same, λ f. sym same ∙ all f)
Socket-IsTracked d _ (write_all buf _ e) h =
    let (same, all) = IsAhead-at none d (writing buf) e h refl in
    written-IsAhead d.pipe.tracker_ok buf d refl same all

Channel-IsTracked :
    (d other d' other' : Direction)
    → Channel d other d' other'
    → IsTracked none d
    → IsTracked none d'
Channel-IsTracked d _ _ _ (send buf _ _ e _ _) h =
    let (same, all) = IsAhead-at none d (sending buf) e h in
    (
      same,
      λ f.
          all f
          ∙ sym (
              concat-append d.pipe.tracked (buf ∷ [])
              ∙ ap (λ bs. all_tracked d.pipe ++ bs) (append-nil buf)),
    )
Channel-IsTracked d _ _ _ (send_fails buf _ _ e _) h =
    ((IsAhead-at none d (sending buf) e h).0, refl)
Channel-IsTracked d _ _ _ (notify _ _ e _ _) h =
    let (same, gone) = IsAhead-at none d notifying e h in (same, λ f. absurd (cc (gone, f)))
Channel-IsTracked d _ _ _ (notify_fails _ _ e _) h =
    let (same, gone) = IsAhead-at none d notifying e h in (same, λ f. absurd (cc (gone, f)))

ended_at :
    (r : Result (Unit {0})) (task : Task) (read : List ℕ) (p : Pipe)
    → IsAhead none task read p
    → IsAhead (some r) task read p
ended_at r reading read p h = h
ended_at r (writing buf) read p h = λ e. absurd (cc e)
ended_at r (sending buf) read p h = h
ended_at r notifying read p h = h

Ends-IsTracked :
    (d d' : Direction) (e : Error) → Ends d d' e → IsTracked none d → IsTracked (some (joined e)) d'
Ends-IsTracked d _ _ (read_end _ _) h = ended_at _ d.task d.read d.pipe h
Ends-IsTracked d _ _ (read_fails _ _ _) h = ended_at _ d.task d.read d.pipe h
Ends-IsTracked d _ _ (write_fails n x buf _ e) h = rw e (λ f. absurd (cc f))

acts-IsTracked :
    (r r' : Option (Result (Unit {0}))) (d other d' other' : Direction)
    → Move r d other r' d' other'
    → IsTracked r d
    → IsTracked r' d'
acts-IsTracked _ _ _ _ _ _ (by_socket d _ d' s) h = Socket-IsTracked d d' s h
acts-IsTracked _ _ _ _ _ _ (by_channel d other d' other' s) h =
    Channel-IsTracked d other d' other' s h
acts-IsTracked _ _ _ _ _ _ (by_receive _ d _ _ (receive _ _ _ _ _)) h = h
acts-IsTracked _ _ _ _ _ _ (by_stop _ d _ _) h = h
acts-IsTracked _ _ _ _ _ _ (by_close _ _ d _ _ _ _) h = h
acts-IsTracked _ _ _ _ _ _ (by_end d _ d' e s) h = Ends-IsTracked d d' e s h

watched-IsTracked :
    (d other d' other' : Direction)
    → Channel other d other' d'
    → IsTracked none d
    → IsTracked none d'
watched-IsTracked d _ _ _ (send _ _ _ _ _ _) h = h
watched-IsTracked d _ _ _ (send_fails _ _ _ _ _) h = h
watched-IsTracked d _ _ _ (notify _ _ _ _ _) h = h
watched-IsTracked d _ _ _ (notify_fails _ _ _ _) h = h

watches-IsTracked :
    (r r' : Option (Result (Unit {0}))) (d other d' other' : Direction)
    → Move r other d r' other' d'
    → IsTracked r d
    → IsTracked r' d'
watches-IsTracked _ _ _ _ _ _ (by_socket _ d _ s) h = h
watches-IsTracked _ _ _ _ _ _ (by_channel other d other' d' s) h =
    watched-IsTracked d other d' other' s h
watches-IsTracked _ _ _ _ _ _ (by_receive _ _ _ _ _) h = h
watches-IsTracked _ _ _ _ _ _ (by_stop _ _ _ _) h = h
watches-IsTracked _ _ _ _ _ _ (by_close _ _ _ _ _ _ _) h = h
watches-IsTracked _ _ _ _ _ _ (by_end _ d _ e _) h = ended_at _ d.task d.read d.pipe h

-- all that was read is written, and sent to the tracker while that is there
abbrev pub IsCaughtUp : Direction → Type 0
IsCaughtUp d =
    d.task ≡ reading
    → (d.read ≡ d.pipe.written) × (d.pipe.tracker_ok ≡ true → d.read ≡ concat d.pipe.tracked)

caught_up : (r : Option (Result (Unit {0}))) (d : Direction) → IsTracked r d → IsCaughtUp d
caught_up r d h e = IsAhead-at r d reading e h

-- At the head of its loop, live or ended there, a task has all its bytes written and tracked.
pub connection-IsCaughtUp : (c : Connection) → Reach c → IsCaughtUp c.client × IsCaughtUp c.server
connection-IsCaughtUp c h =
    let (client, server) =
      Reach-both (λ r d other. IsTracked r d) acts-IsTracked watches-IsTracked (refl, λ _. refl) c
        h in
    (caught_up c.result c.client client, caught_up c.result c.server server)
