-- ===== src/Forward/Relay.antt =====
-- The two copies of a connection, one for each direction, which run at once: bidirectionalCopy and
-- handleClientConnection of pkg/server/server.go, handleServerChannels and handleRemoteConnection of
-- pkg/client/client.go, from the start of the copies to the end of `wg.Wait`.
pub mod Schedules
pub mod HalfClose
mod Tests
use tbore.Base.{ℕ, ◌++◌, take, if◌then◌else◌, Bool, true, false, ◌&&◌, List, [], ◌∷◌}
use tbore.Forward.{Read, Write, wrote, failed_after}

-- Where the goroutine of a copy waits: in `Read`, in `Write` with the bytes that it read, or no more.
pub data Pc : Type 0 where
  reading ended : Pc
  writing : List ℕ → Pc

-- A copy, with what its `Read` and its `Write` have yet to answer, the bytes that the destination
-- took, and whether `CloseWrite` was called on it.
pub record Copy : Type 0 where
  pub reads : List Read
  pub writes : List Write
  pub pc : Pc
  pub sent : List ℕ
  pub write_closed : Bool

abbrev pub start_copy : List Read → List Write → Copy
start_copy rs ws = record { reads = rs; writes = ws; pc = reading; sent = []; write_closed = false }

-- The copy loop has returned: the end of the destination is passed on, if it can be.
abbrev pub end_copy : Bool → Copy → Copy
end_copy has_close_write c = record c { pc = ended; write_closed = has_close_write }

abbrev pub on_read : Bool → Read → List Read → Copy → Copy
on_read has_close_write r rs c =
    if r.failed
    then end_copy has_close_write (record c { reads = rs })
    else record c { reads = rs; pc = writing r.bytes }

abbrev pub on_write : Bool → List ℕ → Write → List Write → Copy → Copy
on_write has_close_write bytes wrote ws c = record c {
  writes = ws;
  pc = reading;
  sent = c.sent ++ bytes;
}
on_write has_close_write bytes (failed_after n) ws c =
    end_copy has_close_write (record c { writes = ws; sent = c.sent ++ take n bytes })

abbrev pub turn_at : Pc → Bool → List Read → List Write → Copy → Copy
turn_at reading has_close_write [] ws c = c
turn_at reading has_close_write (r ∷ rs) ws c = on_read has_close_write r rs c
turn_at (writing bytes) has_close_write rs [] c = c
turn_at (writing bytes) has_close_write rs (w ∷ ws) c = on_write has_close_write bytes w ws c
turn_at ended has_close_write rs ws c = c

-- The goroutine of a copy goes on with the next answer, if there is one.
unfoldable pub turn : Bool → Copy → Copy
turn has_close_write c = turn_at c.pc has_close_write c.reads c.writes c

abbrev pub is_ended : Pc → Bool
is_ended reading = false
is_ended (writing bytes) = false
is_ended ended = true

-- Both goroutines. `inward` writes to the end on this side, `outward` to the other one.
pub record Relay : Type 0 where
  pub inward : Copy
  pub outward : Copy

-- Whether the destination of each copy has a `CloseWrite`.
pub record Ends : Type 0 where
  pub inward : Bool
  pub outward : Bool

pub data Side : Type 0 where
  inwards outwards : Side

unfoldable pub step : Ends → Side → Relay → Relay
unfolding turn
step ends inwards r = record r { inward = turn ends.inward r.inward }
step ends outwards r = record r { outward = turn ends.outward r.outward }

-- The goroutines go on in the order of the list.
unfoldable pub run : Ends → List Side → Relay → Relay
unfolding step
run ends [] r = r
run ends (s ∷ l) r = run ends l (step ends s r)

-- `wg.Wait` returns.
abbrev pub is_over : Relay → Bool
is_over r = is_ended r.inward.pc && is_ended r.outward.pc

-- What stands at the end: both ends are closed after `wg.Wait`.
pub record Served : Type 0 where
  pub relay : Relay
  pub closed : Bool

abbrev pub after_wait : Relay → Served
after_wait r = record { relay = r; closed = is_over r }

-- A connection of a user to the port of a tunnel: `inward` writes to the user, `outward` to the
-- channel. The channel and the user are closed by `defer`.
unfoldable pub handle_client_connection : Bool → List Side → Relay → Served
unfolding run
handle_client_connection user_is_tcp l r =
    after_wait (run (record { inward = user_is_tcp; outward = true }) l r)

-- A channel from the server: `inward` writes to the local service, `outward` to the channel.
unfoldable pub handle_server_channels : Bool → List Side → Relay → Served
unfolding run
handle_server_channels local_is_tcp l r =
    after_wait (run (record { inward = local_is_tcp; outward = true }) l r)

-- A connection that the client accepts itself.
unfoldable pub handle_remote_connection : Bool → Bool → List Side → Relay → Served
unfolding run
handle_remote_connection local_is_tcp remote_has_close_write l r =
    after_wait (run (record { inward = local_is_tcp; outward = remote_has_close_write }) l r)

-- Neither end is told of the end of the other one, and the caller closes them.
unfoldable pub bidirectional_copy : List Side → Relay → Relay
unfolding run
bidirectional_copy = run (record { inward = false; outward = false })
