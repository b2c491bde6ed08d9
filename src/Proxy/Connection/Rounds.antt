-- ===== src/Proxy/Connection/Rounds.antt =====
-- src/main.rs, `handle_connection`: one direction, step by step, beside `proxy_bytes` on a script.
use mongoproxy.Prelude.{
  ℕ, ◌<◌, ◌≡◌, ◌∙◌, sym, refl, ap, Bool, true, false, List, [], ◌∷◌, ◌++◌, length, take,
  if◌then◌else◌,
}
use mongoproxy.Io.{Error, Result, ok, err}
use mongoproxy.Proxy.Bytes.{
  Round, Progress, running, returned, blocked, closed_error, accepted, closed, pending, Pipe,
  pipe_start, read_eof, proxy_bytes,
}
use mongoproxy.Proxy.Bytes.Prefix.{
  proxy_bytes-append, behind_write, behind_send, behind_lost, behind_notify, one_round,
  failing_round, last_round, round_untracked, round_fails, round_ends, round_read_fails,
  round_sends, round_waits, round_notifies, round_passes_over, round_waits_to_notify,
}
use mongoproxy.Proxy.Connection.{
  Task, reading, writing, sending, notifying, Direction, Socket, read_some, write_all, Channel,
  send, send_fails, notify, notify_fails, Ends, read_end, read_fails, write_fails, joined,
}

-- What the task has done since the head of its loop, from the pipe it had there.
abbrev pub IsWithin : Task → Pipe → Pipe → Type 0
IsWithin reading head p = p ≡ head
IsWithin (writing buf) head p = (0 < length buf) × (p ≡ head)
IsWithin (sending buf) head p =
    (0 < length buf) × (head.tracker_ok ≡ true) × (p ≡ behind_write buf head)
IsWithin notifying head p =
    (buf : List ℕ) × (0 < length buf) × (head.tracker_ok ≡ true) × (p ≡ behind_lost buf head)

-- a script that takes the task to the head of its loop, and what comes behind
pub record IsAtRound (d : Direction) : Type 0 where
  pub rounds : List Round
  pub head : Pipe
  pub ran : proxy_bytes rounds pipe_start ≡ (running, head)
  pub within : IsWithin d.task head d.pipe

-- A script on which `proxy_bytes` leaves this pipe.
pub record IsScripted (p : Pipe) : Type 0 where
  pub rounds : List Round
  pub end : Progress
  pub ran : proxy_bytes rounds pipe_start ≡ (end, p)

-- A script on which `proxy_bytes` returns the failure that makes up the result of the connection.
pub record IsReturned (result : Result (Unit {0})) (p : Pipe) : Type 0 where
  pub rounds : List Round
  pub error : Error
  pub ran : proxy_bytes rounds pipe_start ≡ (returned error, p)
  pub same : result ≡ joined error

-- one more round
further :
    (rounds more : List Round) (head : Pipe) (end : Progress) (p : Pipe)
    → proxy_bytes rounds pipe_start ≡ (running, head)
    → proxy_bytes more head ≡ (end, p)
    → proxy_bytes (rounds ++ more) pipe_start ≡ (end, p)
further rounds more head end p h k = proxy_bytes-append rounds more pipe_start head h ∙ k

pub at_task :
    (d : Direction) (task : Task) (h : IsAtRound d) → d.task ≡ task → IsWithin task h.head d.pipe
at_task d task h e = rw e at h.within

-- `if tracker_ok` behind a write
written-IsAtRound :
    (b : Bool) (buf : List ℕ) (d : Direction) (h : IsAtRound d)
    → 0 < length buf
    → d.pipe ≡ h.head
    → d.pipe.tracker_ok ≡ b
    → IsAtRound
        (record d { task = if b then sending buf else reading; pipe = behind_write buf d.pipe })
written-IsAtRound true buf d h lt same e = record {
  rounds = h.rounds;
  head = h.head;
  ran = h.ran;
  within = (lt, ap (λ p. p.tracker_ok) (sym same) ∙ e, ap (behind_write buf) same);
}
written-IsAtRound false buf d h lt same e = record {
  rounds = h.rounds ++ one_round buf accepted accepted;
  head = behind_write buf h.head;
  ran =
      further h.rounds _ h.head _ _ h.ran
        (round_untracked buf h.head lt (ap (λ p. p.tracker_ok) (sym same) ∙ e));
  within = ap (behind_write buf) same;
}

pub Socket-IsAtRound : (d d' : Direction) → Socket d d' → IsAtRound d → IsAtRound d'
Socket-IsAtRound d _ (read_some buf _ e lt _) h = record {
  rounds = h.rounds;
  head = h.head;
  ran = h.ran;
  within = (lt, at_task d reading h e);
}
Socket-IsAtRound d _ (write_all buf _ e) h =
    let (lt, same) = at_task d (writing buf) h e in
    written-IsAtRound d.pipe.tracker_ok buf d h lt same refl

pub Channel-IsAtRound :
    (d other d' other' : Direction) → Channel d other d' other' → IsAtRound d → IsAtRound d'
Channel-IsAtRound d _ _ _ (send buf _ _ e _ _) h =
    let (lt, there, same) = at_task d (sending buf) h e in
    record {
      rounds = h.rounds ++ one_round buf accepted accepted;
      head = behind_send buf h.head;
      ran = further h.rounds _ h.head _ _ h.ran (round_sends buf h.head lt there);
      within = ap {A = Pipe} (λ p. record p { tracked = p.tracked ++ buf ∷ [] }) same;
    }
Channel-IsAtRound d _ _ _ (send_fails buf _ _ e _) h =
    let (lt, there, same) = at_task d (sending buf) h e in
    record {
      rounds = h.rounds;
      head = h.head;
      ran = h.ran;
      within = (buf, lt, there, ap {A = Pipe} (λ p. record p { tracker_ok = false }) same);
    }
Channel-IsAtRound d _ _ _ (notify _ _ e _ _) h =
    let (buf, lt, there, same) = at_task d notifying h e in
    record {
      rounds = h.rounds ++ one_round buf closed accepted;
      head = behind_notify buf h.head;
      ran = further h.rounds _ h.head _ _ h.ran (round_notifies buf h.head lt there);
      within = ap {A = Pipe} (λ p. record p { notified = p.notified ++ closed_error ∷ [] }) same;
    }
Channel-IsAtRound d _ _ _ (notify_fails _ _ e _) h =
    let (buf, lt, there, same) = at_task d notifying h e in
    record {
      rounds = h.rounds ++ one_round buf closed closed;
      head = behind_lost buf h.head;
      ran = further h.rounds _ h.head _ _ h.ran (round_passes_over buf h.head lt there);
      within = same;
    }

-- a direction whose task and pipe stay as they are
pub kept-IsAtRound :
    (d d' : Direction) → d'.task ≡ d.task → d'.pipe ≡ d.pipe → IsAtRound d → IsAtRound d'
kept-IsAtRound d d' task pipe h = record {
  rounds = h.rounds;
  head = h.head;
  ran = h.ran;
  within = rw (task, pipe) h.within;
}

pub Ends-IsReturned :
    (d d' : Direction) (e : Error) → Ends d d' e → IsAtRound d → IsReturned (joined e) d'.pipe
Ends-IsReturned d _ _ (read_end _ e) h = record {
  rounds = h.rounds ++ last_round (ok []);
  error = read_eof;
  ran =
      further h.rounds _ h.head _ _ h.ran (round_ends h.head)
      ∙ ap (λ p. (returned read_eof, p)) (sym (at_task d reading h e));
  same = refl;
}
Ends-IsReturned d _ _ (read_fails x _ e) h = record {
  rounds = h.rounds ++ last_round (err x);
  error = x;
  ran =
      further h.rounds _ h.head _ _ h.ran (round_read_fails h.head x)
      ∙ ap (λ p. (returned x, p)) (sym (at_task d reading h e));
  same = refl;
}
Ends-IsReturned d _ _ (write_fails n x buf _ e) h =
    let (lt, same) = at_task d (writing buf) h e in
    record {
      rounds = h.rounds ++ failing_round buf n x;
      error = x;
      ran =
          further h.rounds _ h.head _ _ h.ran (round_fails buf h.head n x lt)
          ∙ ap (λ p. (returned x, record p { written = p.written ++ take n buf })) (sym same);
      same = refl;
    }

pub task-IsScripted :
    (task : Task) (rounds : List Round) (head p : Pipe)
    → proxy_bytes rounds pipe_start ≡ (running, head)
    → IsWithin task head p
    → IsScripted p
task-IsScripted reading rounds head p ran same = record {
  rounds = rounds;
  end = running;
  ran = ran ∙ ap (λ q. (running, q)) (sym same);
}
task-IsScripted (writing buf) rounds head p ran (lt, same) = record {
  rounds = rounds;
  end = running;
  ran = ran ∙ ap (λ q. (running, q)) (sym same);
}
task-IsScripted (sending buf) rounds head p ran (lt, there, same) = record {
  rounds = rounds ++ one_round buf pending accepted;
  end = blocked;
  ran =
      further rounds _ head _ _ ran (round_waits buf head lt there)
      ∙ ap (λ q. (blocked, q)) (sym same);
}
task-IsScripted notifying rounds head p ran (buf, lt, there, same) = record {
  rounds = rounds ++ one_round buf closed pending;
  end = blocked;
  ran =
      further rounds _ head _ _ ran (round_waits_to_notify buf head lt there)
      ∙ ap (λ q. (blocked, q)) (sym same);
}
