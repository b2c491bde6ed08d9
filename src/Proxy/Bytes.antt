-- ===== src/Proxy/Bytes.antt =====
-- src/main.rs, `proxy_bytes`: bytes from one socket to the other, with a copy for the tracker.
-- The sockets and channels are scripts: what each call of one round of the loop comes back with.
pub mod Forward
pub mod Copies
pub mod Prefix
use mongoproxy.Prelude.{
  ℕ, Bool, true, false, Option, List, [], ◌∷◌, ◌++◌, length, ◌==◌, if◌then◌else◌, take,
}
use mongoproxy.Io.{Error, Result, ok, err, out_of_fuel, unexpected_eof}

-- `write_all` fails behind some bytes of the buffer.
pub data Write : Type 0 where
  written_all : Write
  write_failed : ℕ → Error → Write

-- `Sender::send(..).await`: the value is taken, the receiver is gone, or the channel stays full and
-- the call does not come back.
pub data Send : Type 0 where
  accepted closed pending : Send

-- `read` gives the bytes that stand in the buffer, none at the end of the stream.
pub record Round : Type 0 where
  pub read : Result (List ℕ)
  pub write : Write
  pub send : Send
  pub notify : Send

-- How far the task is at the end of the script.
pub data Progress : Type 0 where
  running : Progress
  blocked : Progress
  returned : Error → Progress

pub record Pipe : Type 0 where
  pub written : List ℕ
  pub tracked : List (List ℕ)
  pub notified : List Error
  pub tracker_ok : Bool

abbrev pub pipe_start : Pipe
pipe_start = record { written = []; tracked = []; notified = []; tracker_ok = true }

abbrev pub closed_error : Error
closed_error = record { kind = unexpected_eof; message = "notify channel close" }

abbrev pub read_eof : Error
read_eof = record { kind = unexpected_eof; message = "EOF" }

-- Behind a failed `send`: the other tracker is told, and the result of that is dropped.
notify_other : (Pipe → Progress × Pipe) → Send → Pipe → Progress × Pipe
notify_other next accepted p = next (record p { notified = p.notified ++ closed_error ∷ [] })
notify_other next closed p = next p
notify_other next pending p = (blocked, p)

send_copy : (Pipe → Progress × Pipe) → Round → List ℕ → Send → Pipe → Progress × Pipe
unfolding notify_other
send_copy next r buf accepted p = next (record p { tracked = p.tracked ++ buf ∷ [] })
send_copy next r buf closed p = notify_other next r.notify (record p { tracker_ok = false })
send_copy next r buf pending p = (blocked, p)

copy_to_tracker : (Pipe → Progress × Pipe) → Round → List ℕ → Pipe → Progress × Pipe
unfolding send_copy
copy_to_tracker next r buf p = if p.tracker_ok then send_copy next r buf r.send p else next p

forward : (Pipe → Progress × Pipe) → Round → List ℕ → Write → Pipe → Progress × Pipe
unfolding copy_to_tracker
forward next r buf written_all p =
    copy_to_tracker next r buf (record p { written = p.written ++ buf })
forward next r buf (write_failed n e) p =
    (returned e, record p { written = p.written ++ take n buf })

-- one round of the loop, `next` the rounds behind it
proxy_round : (Pipe → Progress × Pipe) → Round → Result (List ℕ) → Pipe → Progress × Pipe
unfolding forward
proxy_round next r (ok []) p = (returned read_eof, p)
proxy_round next r (ok (b ∷ bs)) p = forward next r (b ∷ bs) r.write p
proxy_round next r (err e) p = (returned e, p)
proxy_round next r out_of_fuel p = (blocked, p)

pub proxy_bytes : List Round → Pipe → Progress × Pipe
unfolding proxy_round
proxy_bytes [] p = (running, p)
proxy_bytes (r ∷ rounds) p = proxy_round (proxy_bytes rounds) r r.read p
