-- ===== src/Proxy/Connection/Forwarded.antt =====
-- src/main.rs, `handle_connection`: what one socket gave is what the other one got.
use mongoproxy.Prelude.{
  ℕ, zero, suc, ◌≤◌, ◌≡◌, ◌∙◌, sym, refl, ap, Bool, true, false, Option, none, some, List, [], ◌∷◌,
  ◌++◌, append_assoc, append-nil, length, take, drop, if◌then◌else◌, arith,
}
use mongoproxy.Io.{Error, Result}
use mongoproxy.Proxy.Connection.{
  buf_size, Task, reading, writing, sending, notifying, Direction, Socket, read_some, write_all,
  Channel, send, send_fails, notify, notify_fails, receive, Ends, read_end, read_fails, write_fails,
  Connection, joined, Move, by_socket, by_channel, by_receive, by_stop, by_close, by_end, Reach,
  Reach-both,
}

-- the bytes that were read and are still to be written
abbrev pub in_hand : Task → List ℕ
in_hand (writing buf) = buf
in_hand _ = []

-- The bytes written are the first of those that were read; at most one buffer is missing, and as
-- long as the connection lives the task has it in hand.
pub record IsForwarded (result : Option (Result (Unit {0}))) (d : Direction) : Type 0 where
  pub rest : List ℕ
  pub whole : d.read ≡ d.pipe.written ++ rest
  pub small : length rest ≤ buf_size
  pub missing : result ≡ none → rest ≡ in_hand d.task

take-drop : (n : ℕ) (xs : List ℕ) → take n xs ++ drop n xs ≡ xs
take-drop zero xs = refl
take-drop (suc n) [] = refl
take-drop (suc n) (x ∷ xs) = ap (◌∷◌ x) (take-drop n xs)

length-drop : (n : ℕ) (xs : List ℕ) → length (drop n xs) ≤ length xs
length-drop zero xs = omega arith
length-drop (suc n) [] = omega arith
length-drop (suc n) (x ∷ xs) = omega (arith, length-drop n xs)

nothing-in_hand : (b : Bool) (buf : List ℕ) → in_hand (if b then sending buf else reading) ≡ []
nothing-in_hand true buf = refl
nothing-in_hand false buf = refl

-- what is missing, at a task that is known
missing_at :
    (d : Direction) (task : Task) (h : IsForwarded none d) → d.task ≡ task → h.rest ≡ in_hand task
missing_at d task h e = h.missing refl ∙ ap in_hand e

-- A step that moves the task on, with nothing in hand before and after.
idle-IsForwarded :
    (d d' : Direction) (task : Task)
    → d.task ≡ task
    → in_hand task ≡ []
    → in_hand d'.task ≡ []
    → d'.read ≡ d.read
    → d'.pipe.written ≡ d.pipe.written
    → IsForwarded none d
    → IsForwarded none d'
idle-IsForwarded d d' task e before after same same' h = record {
  rest = h.rest;
  whole = same ∙ h.whole ∙ ap (λ bs. bs ++ h.rest) (sym same');
  small = h.small;
  missing = λ _. missing_at d task h e ∙ before ∙ sym after;
}

Socket-IsForwarded : (d d' : Direction) → Socket d d' → IsForwarded none d → IsForwarded none d'
Socket-IsForwarded d _ (read_some buf _ e lt le) h = record {
  rest = buf;
  whole =
      ap (λ bs. bs ++ buf)
        (h.whole ∙ ap (λ bs. d.pipe.written ++ bs) (missing_at d reading h e) ∙ append-nil _);
  small = le;
  missing = λ _. refl;
}
Socket-IsForwarded d _ (write_all buf _ e) h = record {
  rest = [];
  whole =
      h.whole
      ∙ ap (λ bs. d.pipe.written ++ bs) (missing_at d (writing buf) h e)
      ∙ sym (append-nil _);
  small = omega arith;
  missing = λ _. sym (nothing-in_hand d.pipe.tracker_ok buf);
}

Channel-IsForwarded :
    (d other d' other' : Direction)
    → Channel d other d' other'
    → IsForwarded none d
    → IsForwarded none d'
Channel-IsForwarded d other _ _ (send buf _ _ e _ _) h =
    idle-IsForwarded d _ (sending buf) e refl refl refl refl h
Channel-IsForwarded d other _ _ (send_fails buf _ _ e _) h =
    idle-IsForwarded d _ (sending buf) e refl refl refl refl h
Channel-IsForwarded d other _ _ (notify _ _ e _ _) h =
    idle-IsForwarded d _ notifying e refl refl refl refl h
Channel-IsForwarded d other _ _ (notify_fails _ _ e _) h =
    idle-IsForwarded d _ notifying e refl refl refl refl h

-- a direction that no longer moves on
ended-IsForwarded :
    (r : Result (Unit {0})) (d : Direction) → IsForwarded none d → IsForwarded (some r) d
ended-IsForwarded r d h = record {
  rest = h.rest;
  whole = h.whole;
  small = h.small;
  missing = λ e. absurd (cc e);
}

Ends-IsForwarded :
    (d d' : Direction) (e : Error)
    → Ends d d' e
    → IsForwarded none d
    → IsForwarded (some (joined e)) d'
Ends-IsForwarded d _ _ (read_end _ e) h = ended-IsForwarded _ d h
Ends-IsForwarded d _ _ (read_fails _ _ e) h = ended-IsForwarded _ d h
Ends-IsForwarded d _ _ (write_fails n x buf _ e) h =
    let hand = missing_at d (writing buf) h e in
    record {
      rest = drop n buf;
      whole =
          h.whole
          ∙ ap (λ bs. d.pipe.written ++ bs) (hand ∙ sym (take-drop n buf))
          ∙ sym (append_assoc d.pipe.written (take n buf) (drop n buf));
      small = omega (arith, length-drop n buf, ap length hand, h.small);
      missing = λ f. absurd (cc f);
    }

-- a direction whose task, bytes and result stay as they are
pub kept-IsForwarded :
    (r : Option (Result (Unit {0}))) (d d' : Direction)
    → d'.task ≡ d.task
    → d'.read ≡ d.read
    → d'.pipe ≡ d.pipe
    → IsForwarded r d
    → IsForwarded r d'
kept-IsForwarded r d d' task same pipe h = record {
  rest = h.rest;
  whole = same ∙ h.whole ∙ ap (λ p. p.written ++ h.rest) (sym pipe);
  small = h.small;
  missing = λ e. h.missing e ∙ ap in_hand (sym task);
}

acts-IsForwarded :
    (r r' : Option (Result (Unit {0}))) (d other d' other' : Direction)
    → Move r d other r' d' other'
    → IsForwarded r d
    → IsForwarded r' d'
acts-IsForwarded _ _ _ _ _ _ (by_socket d _ d' s) h = Socket-IsForwarded d d' s h
acts-IsForwarded _ _ _ _ _ _ (by_channel d other d' other' s) h =
    Channel-IsForwarded d other d' other' s h
acts-IsForwarded _ _ _ _ _ _ (by_receive r d _ _ (receive item rest _ _ _)) h =
    kept-IsForwarded r d _ refl refl refl h
acts-IsForwarded _ _ _ _ _ _ (by_stop r d _ _) h = kept-IsForwarded r d _ refl refl refl h
acts-IsForwarded _ _ _ _ _ _ (by_close r _ d _ _ _ _) h = kept-IsForwarded r d _ refl refl refl h
acts-IsForwarded _ _ _ _ _ _ (by_end d _ d' e s) h = Ends-IsForwarded d d' e s h

watched-IsForwarded :
    (d other d' other' : Direction)
    → Channel other d other' d'
    → IsForwarded none d
    → IsForwarded none d'
watched-IsForwarded d _ _ _ (send _ _ _ _ _ _) h = h
watched-IsForwarded d _ _ _ (send_fails _ _ _ _ _) h = h
watched-IsForwarded d _ _ _ (notify _ _ _ _ _) h = kept-IsForwarded none d _ refl refl refl h
watched-IsForwarded d _ _ _ (notify_fails _ _ _ _) h = h

watches-IsForwarded :
    (r r' : Option (Result (Unit {0}))) (d other d' other' : Direction)
    → Move r other d r' other' d'
    → IsForwarded r d
    → IsForwarded r' d'
watches-IsForwarded _ _ _ _ _ _ (by_socket _ d _ s) h = h
watches-IsForwarded _ _ _ _ _ _ (by_channel other d other' d' s) h =
    watched-IsForwarded d other d' other' s h
watches-IsForwarded _ _ _ _ _ _ (by_receive _ _ _ _ _) h = h
watches-IsForwarded _ _ _ _ _ _ (by_stop _ _ _ _) h = h
watches-IsForwarded _ _ _ _ _ _ (by_close _ _ _ _ _ _ _) h = h
watches-IsForwarded _ _ _ _ _ _ (by_end _ d _ e _) h = ended-IsForwarded _ d h

-- Whatever the sockets, the trackers and the scheduler do: in each direction the bytes that one
-- side was sent are the first of those that the other one's socket gave, unchanged and in order,
-- at most one buffer of 1024 bytes is missing, and as long as the connection lives it is missing
-- only while it is being written.
pub connection-IsForwarded :
    (c : Connection) → Reach c → IsForwarded c.result c.client × IsForwarded c.result c.server
connection-IsForwarded =
    Reach-both (λ r d other. IsForwarded r d) acts-IsForwarded watches-IsForwarded
      (record { rest = []; whole = refl; small = omega arith; missing = λ _. refl })
