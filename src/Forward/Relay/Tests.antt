-- ===== src/Forward/Relay/Tests.antt =====
-- Relays whose goroutines take turns in some order.
use tbore.Base.{◌≡◌, refl, ◌++◌, true, false, ◌&&◌, List, [], ◌∷◌, arith}
use tbore.Forward.{Read, wrote, failed_after, copy_buffer}
use tbore.Forward.Order.{bytes_of}
use tbore.Forward.Relay.{
  Copy, start_copy, Side, inwards, outwards, handle_client_connection, handle_server_channels,
  handle_remote_connection, bidirectional_copy, is_over,
}
use tbore.Forward.Relay.Schedules.{relay-copy_buffer}
use tbore.Forward.Relay.HalfClose.{copy_until, request_complete}

abbrev asked : Read
asked = record { now = 0; bytes = 1 ∷ 2 ∷ []; failed = false }

abbrev answered : Read
answered = record { now = 5; bytes = 3 ∷ []; failed = false }

abbrev end_of_file : Read
end_of_file = record { now = 9; bytes = []; failed = true }

abbrev in_turns : List Side
in_turns = outwards ∷ inwards ∷ outwards ∷ outwards ∷ inwards ∷ inwards ∷ outwards ∷ inwards ∷ []

-- The user sends two bytes and ends; the answer is one byte, and its second write fails.
relay-copy_buffer_example :
    let served = handle_client_connection true in_turns (record {
      inward = start_copy (answered ∷ answered ∷ []) (wrote ∷ failed_after 0 ∷ []);
      outward = start_copy (asked ∷ end_of_file ∷ []) (wrote ∷ []);
    }) in
    let back = copy_buffer (answered ∷ answered ∷ []) (wrote ∷ failed_after 0 ∷ []) in
    let forth = copy_buffer (asked ∷ end_of_file ∷ []) (wrote ∷ []) in
    (served.relay.inward.sent ≡ back.sent)
    × (served.relay.outward.sent ≡ forth.sent)
    × (served.relay.inward.write_closed ≡ (true && back.returned))
    × (served.relay.outward.write_closed ≡ forth.returned)
    × (served.closed ≡ (back.returned && forth.returned))
relay-copy_buffer_example =
    relay-copy_buffer true in_turns (answered ∷ answered ∷ []) (asked ∷ end_of_file ∷ [])
      (wrote ∷ failed_after 0 ∷ []) (wrote ∷ []) (omega arith) (omega arith)

abbrev idle : Copy
idle = start_copy [] []

abbrev forwards : List Side
forwards = outwards ∷ outwards ∷ outwards ∷ []

abbrev onwards : List Side
onwards = inwards ∷ inwards ∷ inwards ∷ []

-- The request is over, and the answer has not begun.
request_complete_example :
    ((handle_client_connection true forwards (record {
      inward = idle;
      outward = copy_until (asked ∷ []) end_of_file [] [];
    })).relay.outward.sent
      ≡ bytes_of (asked ∷ []))
    × ((handle_server_channels true onwards (record {
      inward = copy_until (asked ∷ []) end_of_file [] [];
      outward = idle;
    })).relay.inward.sent
        ≡ bytes_of (asked ∷ []))
unfolding handle_client_connection handle_server_channels
request_complete_example =
    request_complete true true forwards onwards (asked ∷ []) [] (asked ∷ []) [] end_of_file
      end_of_file [] [] idle idle (refl, tt) refl (refl, tt) refl refl refl refl

-- A local end that is no TCP connection is not told of the end.
untold :
    (handle_remote_connection false true onwards (record {
      inward = copy_until (asked ∷ []) end_of_file [] [];
      outward = idle;
    })).relay.inward.write_closed
    ≡ false
unfolding handle_remote_connection
untold = refl

both_ways :
    is_over (
      bidirectional_copy (onwards ++ forwards) (record {
        inward = copy_until (asked ∷ []) end_of_file [] [];
        outward = copy_until (answered ∷ []) end_of_file [] [];
      }))
    ≡ true
unfolding bidirectional_copy
both_ways = refl
