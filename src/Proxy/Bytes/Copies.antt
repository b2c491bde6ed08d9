-- ===== src/Proxy/Bytes/Copies.antt =====
-- src/main.rs, `proxy_bytes`: what the tracker gets of the bytes that are passed through.
use mongoproxy.Prelude.{
  ℕ, ◌≤◌, ◌≡◌, ◌∙◌, refl, ap, Bool, true, false, List, [], ◌∷◌, ◌++◌, append_assoc, append-nil,
  length, take, if◌then◌else◌, arith,
}
use mongoproxy.Io.{Result, ok, err, out_of_fuel}
use mongoproxy.Wire.OpMsg.Layout.{concat}
use mongoproxy.Proxy.Bytes.{
  Write, written_all, write_failed, Send, accepted, closed, pending, Round, Progress, running, Pipe,
  pipe_start, notify_other, send_copy, copy_to_tracker, forward, proxy_round, proxy_bytes,
}

pub concat-append : (xs ys : List (List ℕ)) → concat (xs ++ ys) ≡ concat xs ++ concat ys
concat-append [] ys = refl
concat-append (bs ∷ xs) ys = rw (concat-append xs ys, append_assoc)

-- The copies are the first part of what was written, all of it while the tracker is there and the
-- loop goes on; and the other tracker was told at most once, not while this one is there.
pub record IsCopied (end : Progress) (p : Pipe) : Type 0 where
  pub rest : List ℕ
  pub first_part : p.written ≡ concat p.tracked ++ rest
  pub all_of_it : end ≡ running → p.tracker_ok ≡ true → rest ≡ []
  pub told_once : length p.notified ≤ 1
  pub not_told : p.tracker_ok ≡ true → p.notified ≡ []

-- the pipe behind `write_all`
abbrev behind_write : List ℕ → Pipe → Pipe
behind_write buf p = record p { written = p.written ++ buf }

more_written :
    (buf : List ℕ) (p : Pipe) (h : IsCopied running p)
    → p.written ++ buf ≡ concat p.tracked ++ (h.rest ++ buf)
more_written buf p h =
    ap (λ bs. bs ++ buf) h.first_part ∙ append_assoc (concat p.tracked) h.rest buf

module _ (next : Pipe → Progress × Pipe)
    (k : (p : Pipe) → IsCopied running p → IsCopied (next p).0 (next p).1) where
  notify_other-IsCopied :
      (n : Send) (p : Pipe)
      → IsCopied running p
      → p.tracker_ok ≡ false
      → p.notified ≡ []
      → IsCopied (notify_other next n p).0 (notify_other next n p).1
  unfolding notify_other
  notify_other-IsCopied accepted p h gone none_yet = k _ (record {
    rest = h.rest;
    first_part = h.first_part;
    all_of_it = h.all_of_it;
    told_once = rw none_yet (omega arith);
    not_told = λ e. absurd (cc (e, gone));
  })
  notify_other-IsCopied closed p h gone none_yet = k p h
  notify_other-IsCopied pending p h gone none_yet = record {
    rest = h.rest;
    first_part = h.first_part;
    all_of_it = λ e. absurd (cc e);
    told_once = h.told_once;
    not_told = h.not_told;
  }

  send_copy-IsCopied :
      (r : Round) (buf : List ℕ) (w : Send) (p : Pipe)
      → IsCopied running p
      → p.tracker_ok ≡ true
      → IsCopied
          (send_copy next r buf w (behind_write buf p)).0
          (send_copy next r buf w (behind_write buf p)).1
  unfolding send_copy
  send_copy-IsCopied r buf accepted p h e = k _ (record {
    rest = [];
    first_part =
        more_written buf p h ∙ rw (h.all_of_it refl e, concat-append, append-nil, append-nil) refl;
    all_of_it = λ _ _. refl;
    told_once = h.told_once;
    not_told = h.not_told;
  })
  send_copy-IsCopied r buf closed p h e =
      notify_other-IsCopied r.notify (record (behind_write buf p) { tracker_ok = false })
        (record {
          rest = h.rest ++ buf;
          first_part = more_written buf p h;
          all_of_it = λ _ f. absurd (cc f);
          told_once = h.told_once;
          not_told = λ f. absurd (cc f);
        })
        refl (h.not_told e)
  send_copy-IsCopied r buf pending p h e = record {
    rest = h.rest ++ buf;
    first_part = more_written buf p h;
    all_of_it = λ f. absurd (cc f);
    told_once = h.told_once;
    not_told = h.not_told;
  }

  -- whichever branch the flag takes
  chosen-IsCopied :
      (r : Round) (buf : List ℕ) (p : Pipe) (b : Bool)
      → IsCopied running p
      → p.tracker_ok ≡ b
      → IsCopied
          (if b
            then send_copy next r buf r.send (behind_write buf p)
            else next (behind_write buf p)).0
          (if b
            then send_copy next r buf r.send (behind_write buf p)
            else next (behind_write buf p)).1
  chosen-IsCopied r buf p true h e = send_copy-IsCopied r buf r.send p h e
  chosen-IsCopied r buf p false h e = k _ (record {
    rest = h.rest ++ buf;
    first_part = more_written buf p h;
    all_of_it = λ _ f. absurd (cc (e, f));
    told_once = h.told_once;
    not_told = h.not_told;
  })

  forward-IsCopied :
      (r : Round) (buf : List ℕ) (w : Write) (p : Pipe)
      → IsCopied running p
      → IsCopied (forward next r buf w p).0 (forward next r buf w p).1
  unfolding forward copy_to_tracker
  forward-IsCopied r buf written_all p h = chosen-IsCopied r buf p p.tracker_ok h refl
  forward-IsCopied r buf (write_failed n e) p h = record {
    rest = h.rest ++ take n buf;
    first_part = more_written (take n buf) p h;
    all_of_it = λ f. absurd (cc f);
    told_once = h.told_once;
    not_told = h.not_told;
  }

  -- an end of the loop that changes nothing
  stopped-IsCopied :
      (end : Progress) (p : Pipe) → (end ≡ running → ⊥) → IsCopied running p → IsCopied end p
  stopped-IsCopied end p ne h = record {
    rest = h.rest;
    first_part = h.first_part;
    all_of_it = λ e. absurd (ne e);
    told_once = h.told_once;
    not_told = h.not_told;
  }

  proxy_round-IsCopied :
      (r : Round) (read : Result (List ℕ)) (p : Pipe)
      → IsCopied running p
      → IsCopied (proxy_round next r read p).0 (proxy_round next r read p).1
  unfolding proxy_round
  proxy_round-IsCopied r (ok []) p h = stopped-IsCopied _ p (λ e. cc e) h
  proxy_round-IsCopied r (ok (b ∷ bs)) p h = forward-IsCopied r (b ∷ bs) r.write p h
  proxy_round-IsCopied r (err e) p h = stopped-IsCopied _ p (λ e. cc e) h
  proxy_round-IsCopied r out_of_fuel p h = stopped-IsCopied _ p (λ e. cc e) h

-- Every round keeps `IsCopied`, whatever the sockets and the channels do.
pub proxy_bytes-IsCopied :
    (rounds : List Round) (p : Pipe)
    → IsCopied running p
    → IsCopied (proxy_bytes rounds p).0 (proxy_bytes rounds p).1
unfolding proxy_bytes
proxy_bytes-IsCopied [] p h = h
proxy_bytes-IsCopied (r ∷ rounds) p h =
    proxy_round-IsCopied (proxy_bytes rounds) (proxy_bytes-IsCopied rounds) r r.read p h

-- From the start, the buffers that the tracker gets make up a first part of the bytes that reach
-- the other side, all of them as long as the loop goes on and the tracker takes its copies; and
-- the other tracker is told of a lost one at most once.
pub proxy_bytes-copies :
    (rounds : List Round)
    → IsCopied (proxy_bytes rounds pipe_start).0 (proxy_bytes rounds pipe_start).1
proxy_bytes-copies rounds = proxy_bytes-IsCopied rounds pipe_start (record {
  rest = [];
  first_part = refl;
  all_of_it = λ _ _. refl;
  told_once = omega arith;
  not_told = λ _. refl;
})
