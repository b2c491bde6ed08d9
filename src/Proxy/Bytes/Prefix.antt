-- ===== src/Proxy/Bytes/Prefix.antt =====
-- src/main.rs, `proxy_bytes`: a script run in two parts, and one round at a time.
use mongoproxy.Prelude.{
  ◌≡◌, refl, ap, Bool, length, ◌<◌, arith, true, false, List, [], ◌∷◌, ◌++◌, ℕ, if◌then◌else◌, take,
}
use mongoproxy.Io.{Error, Result, ok, err, out_of_fuel}
use mongoproxy.Proxy.Bytes.{
  Write, written_all, write_failed, Send, accepted, closed, pending, Round, Progress, running,
  blocked, returned, Pipe, closed_error, read_eof, notify_other, send_copy, copy_to_tracker,
  forward, proxy_round, proxy_bytes,
}

-- `next'` goes on as `after` does from every pipe in which `next` comes to the end of its script.
abbrev Continues : (next next' after : Pipe → Progress × Pipe) → Type 0
Continues next next' after = (p q : Pipe) → next p ≡ (running, q) → next' p ≡ after q

blocked-ne-running : (p q : Pipe) → ◌≡◌ {A = Progress × Pipe} (blocked, p) (running, q) → ⊥
blocked-ne-running p q h = cc (ap (λ t. t.0) h)

returned-ne-running :
    (e : Error) (p q : Pipe) → ◌≡◌ {A = Progress × Pipe} (returned e, p) (running, q) → ⊥
returned-ne-running e p q h = cc (ap (λ t. t.0) h)

module _ (next next' after : Pipe → Progress × Pipe) (k : Continues next next' after) where
  notify_other-Continues : (n : Send) → Continues (notify_other next n) (notify_other next' n) after
  unfolding notify_other
  notify_other-Continues accepted p q h = k _ q h
  notify_other-Continues closed p q h = k _ q h
  notify_other-Continues pending p q h = absurd (blocked-ne-running _ _ h)

  send_copy-Continues :
      (r : Round) (buf : List ℕ) (w : Send)
      → Continues (send_copy next r buf w) (send_copy next' r buf w) after
  unfolding send_copy
  send_copy-Continues r buf accepted p q h = k _ q h
  send_copy-Continues r buf closed p q h = notify_other-Continues r.notify _ q h
  send_copy-Continues r buf pending p q h = absurd (blocked-ne-running _ _ h)

  chosen-Continues :
      (b : Bool) (m m' : Pipe → Progress × Pipe) (p q : Pipe)
      → Continues m m' after
      → (if b then m p else next p) ≡ (running, q)
      → (if b then m' p else next' p) ≡ after q
  chosen-Continues true m m' p q c h = c p q h
  chosen-Continues false m m' p q c h = k p q h

  forward-Continues :
      (r : Round) (buf : List ℕ) (w : Write)
      → Continues (forward next r buf w) (forward next' r buf w) after
  unfolding forward copy_to_tracker
  forward-Continues r buf written_all p q h =
      chosen-Continues p.tracker_ok _ _ _ q (send_copy-Continues r buf r.send) h
  forward-Continues r buf (write_failed n e) p q h = absurd (returned-ne-running _ _ _ h)

  proxy_round-Continues :
      (r : Round) (read : Result (List ℕ))
      → Continues (proxy_round next r read) (proxy_round next' r read) after
  unfolding proxy_round
  proxy_round-Continues r (ok []) p q h = absurd (returned-ne-running _ _ _ h)
  proxy_round-Continues r (ok (b ∷ bs)) p q h = forward-Continues r (b ∷ bs) r.write p q h
  proxy_round-Continues r (err e) p q h = absurd (returned-ne-running _ _ _ h)
  proxy_round-Continues r out_of_fuel p q h = absurd (blocked-ne-running _ _ h)

pub proxy_bytes-nil : (p : Pipe) → proxy_bytes [] p ≡ (running, p)
unfolding proxy_bytes
proxy_bytes-nil p = refl

-- A script that the task gets through is followed by what comes behind it.
pub proxy_bytes-append :
    (rounds more : List Round) (p q : Pipe)
    → proxy_bytes rounds p ≡ (running, q)
    → proxy_bytes (rounds ++ more) p ≡ proxy_bytes more q
unfolding proxy_bytes
proxy_bytes-append [] more p q h = ap (λ t. proxy_bytes more t.1) h
proxy_bytes-append (r ∷ rounds) more p q h =
    proxy_round-Continues (proxy_bytes rounds) (proxy_bytes (rounds ++ more)) (proxy_bytes more)
      (λ p q. proxy_bytes-append rounds more p q) r r.read p q h

-- the pipe behind `write_all`
abbrev pub behind_write : List ℕ → Pipe → Pipe
behind_write buf p = record p { written = p.written ++ buf }

-- the pipe behind a copy that was sent
abbrev pub behind_send : List ℕ → Pipe → Pipe
behind_send buf p = record (behind_write buf p) { tracked = p.tracked ++ buf ∷ [] }

-- the pipe behind a copy that could not be sent
abbrev pub behind_lost : List ℕ → Pipe → Pipe
behind_lost buf p = record (behind_write buf p) { tracker_ok = false }

-- the pipe behind the notification
abbrev pub behind_notify : List ℕ → Pipe → Pipe
behind_notify buf p = record (behind_lost buf p) { notified = p.notified ++ closed_error ∷ [] }

abbrev round : List ℕ → Write → Send → Send → Round
round buf write send notify = record { read = ok buf; write = write; send = send; notify = notify }

-- One round with a buffer that is written whole.
abbrev pub one_round : List ℕ → Send → Send → List Round
one_round buf send notify = round buf written_all send notify ∷ []

abbrev pub failing_round : List ℕ → ℕ → Error → List Round
failing_round buf n e = round buf (write_failed n e) accepted accepted ∷ []

abbrev pub last_round : Result (List ℕ) → List Round
last_round read =
    record { read = read; write = written_all; send = accepted; notify = accepted } ∷ []

round_tracked :
    (buf : List ℕ) (p : Pipe) (s n : Send)
    → 0 < length buf
    → p.tracker_ok ≡ true
    → proxy_bytes (one_round buf s n) p
      ≡ send_copy (proxy_bytes []) (round buf written_all s n) buf s (behind_write buf p)
unfolding proxy_bytes proxy_round forward copy_to_tracker
round_tracked [] p s n lt e = absurd (omega (arith, lt))
round_tracked (b ∷ bs) p s n lt e = rw e refl

pub round_untracked :
    (buf : List ℕ) (p : Pipe)
    → 0 < length buf
    → p.tracker_ok ≡ false
    → proxy_bytes (one_round buf accepted accepted) p ≡ (running, behind_write buf p)
unfolding proxy_bytes proxy_round forward copy_to_tracker
round_untracked [] p lt e = absurd (omega (arith, lt))
round_untracked (b ∷ bs) p lt e = rw e refl

pub round_fails :
    (buf : List ℕ) (p : Pipe) (n : ℕ) (e : Error)
    → 0 < length buf
    → proxy_bytes (failing_round buf n e) p
      ≡ (returned e, record p { written = p.written ++ take n buf })
unfolding proxy_bytes proxy_round forward
round_fails [] p n e lt = absurd (omega (arith, lt))
round_fails (b ∷ bs) p n e lt = refl

pub round_ends : (p : Pipe) → proxy_bytes (last_round (ok [])) p ≡ (returned read_eof, p)
unfolding proxy_bytes proxy_round
round_ends p = refl

pub round_read_fails : (p : Pipe) (e : Error) → proxy_bytes (last_round (err e)) p ≡ (returned e, p)
unfolding proxy_bytes proxy_round
round_read_fails p e = refl

-- The ends of a round with a tracker, by what its channels do.
module _ (buf : List ℕ) (p : Pipe) (lt : 0 < length buf) (e : p.tracker_ok ≡ true) where
  pub round_sends : proxy_bytes (one_round buf accepted accepted) p ≡ (running, behind_send buf p)
  unfolding proxy_bytes send_copy
  round_sends = round_tracked buf p accepted accepted lt e

  pub round_waits : proxy_bytes (one_round buf pending accepted) p ≡ (blocked, behind_write buf p)
  unfolding proxy_bytes send_copy
  round_waits = round_tracked buf p pending accepted lt e

  pub round_notifies :
      proxy_bytes (one_round buf closed accepted) p ≡ (running, behind_notify buf p)
  unfolding proxy_bytes send_copy notify_other
  round_notifies = round_tracked buf p closed accepted lt e

  pub round_passes_over : proxy_bytes (one_round buf closed closed) p ≡ (running, behind_lost buf p)
  unfolding proxy_bytes send_copy notify_other
  round_passes_over = round_tracked buf p closed closed lt e

  pub round_waits_to_notify :
      proxy_bytes (one_round buf closed pending) p ≡ (blocked, behind_lost buf p)
  unfolding proxy_bytes send_copy notify_other
  round_waits_to_notify = round_tracked buf p closed pending lt e
