-- ===== src/Proxy/Connection/Channels.antt =====
-- src/main.rs, `handle_connection`: what stands in the two channels and what the trackers received.
use mongoproxy.Prelude.{
  ℕ, ◌≤◌, ◌≡◌, ◌≢◌, ◌∙◌, sym, refl, ap, true, false, Option, List, [], ◌∷◌, ◌++◌, append_assoc,
  append-nil, length, length-append, All, All-append, arith,
}
use mongoproxy.Io.{Error, Result}
use mongoproxy.Io.ByteIo.{BufBytes, chunk, failure}
use mongoproxy.Proxy.Bytes.{closed_error}
use mongoproxy.Proxy.Connection.{
  channel_capacity, Direction, after_stop, Socket, read_some, write_all, Channel, send, send_fails,
  notify, notify_fails, Receive, receive, Ends, read_end, read_fails, write_fails, Connection, Move,
  by_socket, by_channel, by_receive, by_stop, by_close, by_end, Reach, Reach-both,
}

-- the buffers among the items of a channel
abbrev pub copies : List BufBytes → List (List ℕ)
copies [] = []
copies (chunk bs ∷ items) = bs ∷ copies items
copies (failure e ∷ items) = copies items

abbrev pub IsChunk : BufBytes → Type 0
IsChunk item = (e : Error) → item ≢ failure e

-- A direction beside the other one: the copies that its task sent are those that the tracker
-- received, those that still stand in the channel, and those that were lost when the tracker ended.
-- A notification stands among them only if the other task lost its tracker.
pub record IsDelivered (d other : Direction) : Type 0 where
  pub bounded : length d.channel ≤ channel_capacity
  pub lost : List (List ℕ)
  pub delivered : d.pipe.tracked ≡ copies (d.received ++ d.channel) ++ lost
  pub none_lost : d.tracker_runs ≡ true → lost ≡ []
  pub seen_gone : d.pipe.tracker_ok ≡ false → d.tracker_runs ≡ false
  pub only_copies : other.pipe.notified ≡ [] → All IsChunk d.received × All IsChunk d.channel

copies-append : (xs ys : List BufBytes) → copies (xs ++ ys) ≡ copies xs ++ copies ys
copies-append [] ys = refl
copies-append (chunk bs ∷ xs) ys = ap (◌∷◌ bs) (copies-append xs ys)
copies-append (failure e ∷ xs) ys = copies-append xs ys

chunk-IsChunk : (bs : List ℕ) → IsChunk (chunk bs)
chunk-IsChunk bs e h = cc h

append-ne-nil : {A : Type 0} (xs : List A) (x : A) → xs ++ x ∷ [] ≢ []
append-ne-nil [] x h = cc h
append-ne-nil (y ∷ xs) x h = cc h

-- a step that changes nothing of the channel and the tracker, nor what the other task told
kept-IsDelivered :
    (d other d' other' : Direction)
    → d'.pipe.tracked ≡ d.pipe.tracked
    → d'.pipe.tracker_ok ≡ d.pipe.tracker_ok
    → d'.channel ≡ d.channel
    → d'.received ≡ d.received
    → d'.tracker_runs ≡ d.tracker_runs
    → other'.pipe.notified ≡ other.pipe.notified
    → IsDelivered d other
    → IsDelivered d' other'
kept-IsDelivered d other d' other' tracked ok channel received runs notified h = record {
  bounded = omega (arith, ap length channel, h.bounded);
  lost = h.lost;
  delivered =
      tracked
      ∙ h.delivered
      ∙ ap (λ items. copies (items ++ d.channel) ++ h.lost) (sym received)
      ∙ ap (λ items. copies (d'.received ++ items) ++ h.lost) (sym channel);
  none_lost = λ e. h.none_lost (sym runs ∙ e);
  seen_gone = λ e. runs ∙ h.seen_gone (sym ok ∙ e);
  only_copies = λ e. let (a, b) = h.only_copies (sym notified ∙ e) in (rw received a, rw channel b);
}

Socket-IsDelivered :
    (d other d' : Direction) → Socket d d' → IsDelivered d other → IsDelivered d' other
Socket-IsDelivered d other _ (read_some buf _ _ _ _) h =
    kept-IsDelivered d other _ other refl refl refl refl refl refl h
Socket-IsDelivered d other _ (write_all buf _ _) h =
    kept-IsDelivered d other _ other refl refl refl refl refl refl h

Channel-IsDelivered :
    (d other d' other' : Direction)
    → Channel d other d' other'
    → IsDelivered d other
    → IsDelivered d' other'
Channel-IsDelivered d other _ _ (send buf _ _ _ runs room) h = record {
  bounded = omega (arith, room, length-append d.channel (chunk buf ∷ []));
  lost = [];
  delivered =
      ap (λ bss. bss ++ buf ∷ [])
        (h.delivered
          ∙ ap (λ l. copies (d.received ++ d.channel) ++ l) (h.none_lost runs)
          ∙ append-nil _)
      ∙ sym (copies-append (d.received ++ d.channel) (chunk buf ∷ []))
      ∙ ap copies (append_assoc d.received d.channel (chunk buf ∷ []))
      ∙ sym (append-nil _);
  none_lost = λ _. refl;
  seen_gone = h.seen_gone;
  only_copies = λ e.
      let (a, b) = h.only_copies e in
      (a, All-append IsChunk d.channel (chunk buf ∷ []) b (chunk-IsChunk buf, tt));
}
Channel-IsDelivered d other _ _ (send_fails buf _ _ _ gone) h = record {
  bounded = h.bounded;
  lost = h.lost;
  delivered = h.delivered;
  none_lost = h.none_lost;
  seen_gone = λ _. gone;
  only_copies = h.only_copies;
}
Channel-IsDelivered d other _ _ (notify _ _ _ _ _) h =
    kept-IsDelivered d other _ _ refl refl refl refl refl refl h
Channel-IsDelivered d other _ _ (notify_fails _ _ _ _) h =
    kept-IsDelivered d other _ other refl refl refl refl refl refl h

Receive-IsDelivered :
    (d other d' : Direction) → Receive d d' → IsDelivered d other → IsDelivered d' other
Receive-IsDelivered d other _ (receive item rest _ runs stands) h = record {
  bounded = omega (arith, ap length stands, h.bounded);
  lost = h.lost;
  delivered =
      h.delivered
      ∙ ap (λ items. copies (d.received ++ items) ++ h.lost) stands
      ∙ ap (λ items. copies items ++ h.lost) (sym (append_assoc d.received (item ∷ []) rest));
  none_lost = h.none_lost;
  seen_gone = h.seen_gone;
  only_copies = λ e.
      let (a, b) = h.only_copies e in
      let c : IsChunk item × All IsChunk rest = rw stands at b in
      (All-append IsChunk d.received (item ∷ []) a (c.0, tt), c.1);
}

stop-IsDelivered : (d other : Direction) → IsDelivered d other → IsDelivered (after_stop d) other
stop-IsDelivered d other h = record {
  bounded = omega arith;
  lost = copies d.channel ++ h.lost;
  delivered =
      h.delivered
      ∙ ap (λ bss. bss ++ h.lost) (copies-append d.received d.channel)
      ∙ append_assoc (copies d.received) (copies d.channel) h.lost
      ∙ ap (λ items. copies items ++ (copies d.channel ++ h.lost)) (sym (append-nil d.received));
  none_lost = λ e. absurd (cc e);
  seen_gone = λ _. refl;
  only_copies = λ e. ((h.only_copies e).0, tt);
}

Ends-IsDelivered :
    (d other d' : Direction) (e : Error) → Ends d d' e → IsDelivered d other → IsDelivered d' other
Ends-IsDelivered d other _ _ (read_end _ _) h = h
Ends-IsDelivered d other _ _ (read_fails _ _ _) h = h
Ends-IsDelivered d other _ _ (write_fails n x buf _ _) h =
    kept-IsDelivered d other _ other refl refl refl refl refl refl h

acts-IsDelivered :
    (r r' : Option (Result (Unit {0}))) (d other d' other' : Direction)
    → Move r d other r' d' other'
    → IsDelivered d other
    → IsDelivered d' other'
acts-IsDelivered _ _ _ _ _ _ (by_socket d other d' s) h = Socket-IsDelivered d other d' s h
acts-IsDelivered _ _ _ _ _ _ (by_channel d other d' other' s) h =
    Channel-IsDelivered d other d' other' s h
acts-IsDelivered _ _ _ _ _ _ (by_receive _ d other d' s) h = Receive-IsDelivered d other d' s h
acts-IsDelivered _ _ _ _ _ _ (by_stop _ d other _) h = stop-IsDelivered d other h
acts-IsDelivered _ _ _ _ _ _ (by_close _ _ d other _ _ _) h = stop-IsDelivered d other h
acts-IsDelivered _ _ _ _ _ _ (by_end d other d' e s) h = Ends-IsDelivered d other d' e s h

-- The other one's step changes this one only by a notification.
watched-IsDelivered :
    (d other d' other' : Direction)
    → Channel other d other' d'
    → IsDelivered d other
    → IsDelivered d' other'
watched-IsDelivered d other _ _ (send _ _ _ _ _ _) h =
    kept-IsDelivered d other d _ refl refl refl refl refl refl h
watched-IsDelivered d other _ _ (send_fails _ _ _ _ _) h =
    kept-IsDelivered d other d _ refl refl refl refl refl refl h
watched-IsDelivered d other _ _ (notify _ _ _ runs room) h = record {
  bounded = omega (arith, room, length-append d.channel (failure closed_error ∷ []));
  lost = h.lost;
  delivered =
      h.delivered
      ∙ ap (λ bss. bss ++ h.lost)
          (sym (append-nil _)
            ∙ sym (copies-append (d.received ++ d.channel) (failure closed_error ∷ []))
            ∙ ap copies (append_assoc d.received d.channel (failure closed_error ∷ [])));
  none_lost = h.none_lost;
  seen_gone = h.seen_gone;
  only_copies = λ e. absurd (append-ne-nil other.pipe.notified closed_error e);
}
watched-IsDelivered d other _ _ (notify_fails _ _ _ _) h =
    kept-IsDelivered d other d _ refl refl refl refl refl refl h

watches-IsDelivered :
    (r r' : Option (Result (Unit {0}))) (d other d' other' : Direction)
    → Move r other d r' other' d'
    → IsDelivered d other
    → IsDelivered d' other'
watches-IsDelivered _ _ _ _ _ _ (by_socket other d _ (read_some _ _ _ _ _)) h =
    kept-IsDelivered d other d _ refl refl refl refl refl refl h
watches-IsDelivered _ _ _ _ _ _ (by_socket other d _ (write_all _ _ _)) h =
    kept-IsDelivered d other d _ refl refl refl refl refl refl h
watches-IsDelivered _ _ _ _ _ _ (by_channel other d other' d' s) h =
    watched-IsDelivered d other d' other' s h
watches-IsDelivered _ _ _ _ _ _ (by_receive _ other d _ (receive _ _ _ _ _)) h =
    kept-IsDelivered d other d _ refl refl refl refl refl refl h
watches-IsDelivered _ _ _ _ _ _ (by_stop _ other d _) h =
    kept-IsDelivered d other d _ refl refl refl refl refl refl h
watches-IsDelivered _ _ _ _ _ _ (by_close _ _ other d _ _ _) h =
    kept-IsDelivered d other d _ refl refl refl refl refl refl h
watches-IsDelivered _ _ _ _ _ _ (by_end other d _ _ (read_end _ _)) h = h
watches-IsDelivered _ _ _ _ _ _ (by_end other d _ _ (read_fails _ _ _)) h = h
watches-IsDelivered _ _ _ _ _ _ (by_end other d _ _ (write_fails _ _ _ _ _)) h =
    kept-IsDelivered d other d _ refl refl refl refl refl refl h

-- Whatever the sockets, the trackers and the scheduler do: no channel holds more than 32 items; the
-- copies that a task sent are, in order, those that its tracker received, those in the channel, and
-- those lost because the tracker ended; a task gives its tracker up only if that has ended; and no
-- notification reaches a tracker unless the other task sent one.
pub connection-IsDelivered :
    (c : Connection) → Reach c → IsDelivered c.client c.server × IsDelivered c.server c.client
connection-IsDelivered =
    Reach-both (λ r. IsDelivered) acts-IsDelivered watches-IsDelivered
      (record {
        bounded = omega arith;
        lost = [];
        delivered = refl;
        none_lost = λ _. refl;
        seen_gone = λ e. absurd (cc e);
        only_copies = λ _. (tt, tt);
      })
