-- ===== src/Forward.antt =====
-- The forwarding of bytes on a connection: copyBuffer and copyBufferWithTimestamp of
-- pkg/server/server.go with the idle timeout of handleClientConnection, and copyBuffer and
-- copyBufferRW of pkg/client/client.go. The two ends of a copy are what their Read and Write answer.
pub mod Channel
pub mod Order
pub mod Relay
pub mod Pool
pub mod Timeout
mod Tests
use tbore.Base.{
  ℕ, ◌+◌, ◌*◌, ◌/◌, ◌++◌, take, leb, if◌then◌else◌, Bool, true, false, not, ◌&&◌, ◌||◌, List, [],
  ◌∷◌,
}
use tbore.Base.Int.{ℤ, pos, pos_part, ltb_ℤ}
use tbore.Auth.Blocker.{second}

-- What `Read` answers, at a time: the bytes in the buffer, and whether there is an error.
pub record Read : Type 0 where
  pub now : ℕ
  pub bytes : List ℕ
  pub failed : Bool

-- What `Write` answers: it took all bytes, or some of them and there is an error.
pub data Write : Type 0 where
  wrote : Write
  failed_after : ℕ → Write

-- The bytes that the destination took, and whether the loop has returned; if not, it waits for the
-- next answer.
pub record Copied : Type 0 where
  pub sent : List ℕ
  pub returned : Bool

unfoldable pub copy_buffer : List Read → List Write → Copied
copy_buffer [] ws = record { sent = []; returned = false }
copy_buffer (r ∷ rs) [] = record { sent = []; returned = r.failed }
copy_buffer (r ∷ rs) (failed_after n ∷ ws) = record {
  sent = if r.failed then [] else take n r.bytes;
  returned = true;
}
copy_buffer (r ∷ rs) (wrote ∷ ws) =
    let rest = copy_buffer rs ws in
    if r.failed
    then record { sent = []; returned = true }
    else record { sent = r.bytes ++ rest.sent; returned = rest.returned }

-- The two loops of the client have the same text.
unfoldable pub copy_buffer_rw : List Read → List Write → Copied
copy_buffer_rw = copy_buffer

unfoldable pub client_copy_buffer : List Read → List Write → Copied
client_copy_buffer = copy_buffer

-- `t.Unix()`, but for a constant.
abbrev pub unix : ℕ → ℕ
unix now = now / second

-- `lastActivityTime` comes along, which is stored before the write.
unfoldable pub copy_buffer_with_timestamp : List Read → List Write → ℕ → Copied × ℕ
copy_buffer_with_timestamp [] ws last = (record { sent = []; returned = false }, last)
copy_buffer_with_timestamp (r ∷ rs) [] last =
    (record { sent = []; returned = r.failed }, if r.failed then last else unix r.now)
copy_buffer_with_timestamp (r ∷ rs) (failed_after n ∷ ws) last = (
  record { sent = if r.failed then [] else take n r.bytes; returned = true },
  if r.failed then last else unix r.now,
)
copy_buffer_with_timestamp (r ∷ rs) (wrote ∷ ws) last =
    let (rest, later) = copy_buffer_with_timestamp rs ws (unix r.now) in
    if r.failed
    then (record { sent = []; returned = true }, last)
    else (record { sent = r.bytes ++ rest.sent; returned = rest.returned }, later)

-- `defaultConnTimeout`
abbrev pub default_conn_timeout : ℤ
default_conn_timeout = pos (300 * second)

-- `timeout := tunnel.ConnTimeout`, with its default.
unfoldable pub conn_timeout_of : ℤ → ℤ
conn_timeout_of conn_timeout =
    if ltb_ℤ conn_timeout (pos 0) then default_conn_timeout else conn_timeout

-- What both copies and the watch on them share.
pub record Watch : Type 0 where
  pub last_activity_time : ℕ
  pub is_closed : Bool

-- A read in either direction, which ends with no error, and a tick of the watch.
pub data Activity : Type 0 where
  reads : (now : ℕ) → Activity
  ticks : (now : ℕ) → Activity

-- `int64(timeout.Seconds())`, which is exact for whole seconds.
abbrev pub timeout_seconds : ℤ → ℕ
timeout_seconds timeout = pos_part timeout / second

-- A timeout of 0 starts no watch. The watch closes both ends.
unfoldable pub watch_step : ℤ → Activity → Watch → Watch
watch_step timeout (reads now) w = record w { last_activity_time = unix now }
watch_step timeout (ticks now) w =
    if ltb_ℤ (pos 0) timeout && leb (w.last_activity_time + timeout_seconds timeout) (unix now)
    then record w { is_closed = true }
    else w

unfoldable pub watch : ℤ → List Activity → Watch → Watch
unfolding watch_step
watch timeout [] w = w
watch timeout (x ∷ l) w = watch timeout l (watch_step timeout x w)
