-- ===== src/Proxy/Bytes/Forward.antt =====
-- src/main.rs, `proxy_bytes`: all bytes are passed through unchanged, whatever becomes of the
-- tracker, as long as its channel does not stay full.
use mongoproxy.Prelude.{
  ℕ, ◌≡◌, ◌≢◌, ◌∙◌, sym, refl, Bool, true, false, List, [], ◌∷◌, ◌++◌, append_assoc, append-nil,
  All, take, if◌then◌else◌,
}
use mongoproxy.Io.{Result, ok, err, out_of_fuel}
use mongoproxy.Proxy.Bytes.{
  Write, written_all, write_failed, Send, accepted, closed, pending, Round, Progress, running,
  blocked, returned, Pipe, read_eof, notify_other, send_copy, copy_to_tracker, forward, proxy_round,
  proxy_bytes,
}

-- What the two sockets alone determine: the bytes that reach the other side, and the task's end.
abbrev pub passed_write : List ℕ → Write → List ℕ × Progress → List ℕ × Progress
passed_write buf written_all (out, end) = (buf ++ out, end)
passed_write buf (write_failed n e) (out, end) = (take n buf, returned e)

abbrev pub passed_read : Write → Result (List ℕ) → List ℕ × Progress → List ℕ × Progress
passed_read w (ok []) rest = ([], returned read_eof)
passed_read w (ok (b ∷ bs)) rest = passed_write (b ∷ bs) w rest
passed_read w (err e) rest = ([], returned e)
passed_read w out_of_fuel rest = ([], blocked)

abbrev pub passed : List Round → List ℕ × Progress
passed [] = ([], running)
passed (r ∷ rounds) = passed_read r.write r.read (passed rounds)

-- A round in which neither channel stays full.
abbrev pub IsLive : Round → Type 0
IsLive r = (r.send ≢ pending) × (r.notify ≢ pending)

-- From every pipe, `next` adds `out` to what was written, and comes to `end`.
record Passes (next : Pipe → Progress × Pipe) (out : List ℕ) (end : Progress) : Type 0 where
  writes : (p : Pipe) → (next p).1.written ≡ p.written ++ out
  ends : (p : Pipe) → (next p).0 ≡ end

module _ (next : Pipe → Progress × Pipe) (out : List ℕ) (end : Progress)
    (k : Passes next out end) where
  notify_other-Passes : (n : Send) → n ≢ pending → Passes (notify_other next n) out end
  unfolding notify_other
  notify_other-Passes accepted h = record { writes = λ p. k.writes _; ends = λ p. k.ends _ }
  notify_other-Passes closed h = k
  notify_other-Passes pending h = absurd (h refl)

  send_copy-Passes :
      (r : Round) (buf : List ℕ) (w : Send)
      → w ≢ pending
      → r.notify ≢ pending
      → Passes (send_copy next r buf w) out end
  unfolding send_copy
  send_copy-Passes r buf accepted h n = record { writes = λ p. k.writes _; ends = λ p. k.ends _ }
  send_copy-Passes r buf closed h n =
      let m = notify_other-Passes r.notify n in
      record { writes = λ p. m.writes _; ends = λ p. m.ends _ }
  send_copy-Passes r buf pending h n = absurd (h refl)

  -- whichever branch the flag takes
  chosen-Passes :
      (b : Bool) (m : Pipe → Progress × Pipe) (p : Pipe)
      → Passes m out end
      → ((if b then m p else next p).1.written ≡ p.written ++ out)
        × ((if b then m p else next p).0 ≡ end)
  chosen-Passes true m p h = (h.writes p, h.ends p)
  chosen-Passes false m p h = (k.writes p, k.ends p)

  copy_to_tracker-Passes :
      (r : Round) (buf : List ℕ) → IsLive r → Passes (copy_to_tracker next r buf) out end
  unfolding copy_to_tracker
  copy_to_tracker-Passes r buf h =
      let m = send_copy-Passes r buf r.send h.0 h.1 in
      record {
        writes = λ p. (chosen-Passes p.tracker_ok (send_copy next r buf r.send) p m).0;
        ends = λ p. (chosen-Passes p.tracker_ok (send_copy next r buf r.send) p m).1;
      }

  forward-Passes :
      (r : Round) (buf : List ℕ) (w : Write)
      → IsLive r
      → Passes
          (forward next r buf w)
          (passed_write buf w (out, end)).0
          (passed_write buf w (out, end)).1
  unfolding forward
  forward-Passes r buf written_all h =
      let m = copy_to_tracker-Passes r buf h in
      record { writes = λ p. m.writes _ ∙ append_assoc p.written buf out; ends = λ p. m.ends _ }
  forward-Passes r buf (write_failed n e) h = record { writes = λ p. refl; ends = λ p. refl }

  proxy_round-Passes :
      (r : Round) (read : Result (List ℕ))
      → IsLive r
      → Passes
          (proxy_round next r read)
          (passed_read r.write read (out, end)).0
          (passed_read r.write read (out, end)).1
  unfolding proxy_round
  proxy_round-Passes r (ok []) h = record {
    writes = λ p. sym (append-nil p.written);
    ends = λ p. refl;
  }
  proxy_round-Passes r (ok (b ∷ bs)) h = forward-Passes r (b ∷ bs) r.write h
  proxy_round-Passes r (err e) h = record {
    writes = λ p. sym (append-nil p.written);
    ends = λ p. refl;
  }
  proxy_round-Passes r out_of_fuel h = record {
    writes = λ p. sym (append-nil p.written);
    ends = λ p. refl;
  }

proxy_bytes-Passes :
    (rounds : List Round)
    → All IsLive rounds
    → Passes (proxy_bytes rounds) (passed rounds).0 (passed rounds).1
unfolding proxy_bytes
proxy_bytes-Passes [] h = record { writes = λ p. sym (append-nil p.written); ends = λ p. refl }
proxy_bytes-Passes (r ∷ rounds) h =
    proxy_round-Passes (proxy_bytes rounds) (passed rounds).0 (passed rounds).1
      (proxy_bytes-Passes rounds h.1) r r.read h.0

-- In every script in which the channels do not stay full, the bytes that reach the other side and
-- the end of the task are those that the two sockets alone determine: the bytes read, in order and
-- unchanged, up to the first end or failure, whether the tracker takes its copies or is gone.
pub proxy_bytes-passed :
    (rounds : List Round) (p : Pipe)
    → All IsLive rounds
    → ((proxy_bytes rounds p).1.written ≡ p.written ++ (passed rounds).0)
      × ((proxy_bytes rounds p).0 ≡ (passed rounds).1)
proxy_bytes-passed rounds p h = let k = proxy_bytes-Passes rounds h in (k.writes p, k.ends p)
