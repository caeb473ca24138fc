-- ===== src/Server/Connections/Tests.antt =====
-- The theorems about the connections of a tunnel, at concrete inputs.
use tbore.Base.{
  ℕ, ◌<◌, ◌≡◌, refl, sym, nat_eq, true, false, [], ◌∷◌, none, some, arith, ◌⊎◌, ◌+◌, Bool,
}
use mathlib.Core.Option.{some-injective}
use tbore.Base.Int.{ℤ, pos, ◌≤ℤ◌}
use tbore.Base.GoMap.{lookup, insert, delete}
use tbore.Config.{is_valid_port}
use tbore.Server.Session.{
  handle_cancel_forward_request, Session, ForwardMsg, new_session, add_tunnel, new_tunnel,
  handle_forward_request, update_tunnel, close,
}
use tbore.Server.Session.Invariant.{IsValid, IsListen, add_tunnel-IsValid}
use tbore.Server.Session.Lifetime.{new_session-IsValid}
use tbore.Server.Connections.{
  Traffic, accept_connection, start_connection, end_connection, forward, cancel,
}
use tbore.Server.Connections.Counts.{count}
use tbore.Server.Connections.Reach.{
  Reach, fresh, later, forwards, cancels, accepts, starts, connections_counted,
}
use tbore.Server.Sample.{counting, counting-IsSemaphore, config}
use tbore.Server.Connections.Race.{released_twice}

abbrev ask_2000 : ForwardMsg
ask_2000 = record { addr = "0.0.0.0"; port = 2000 }

abbrev fresh_session : Session
fresh_session = new_session "sess_1" "10.0.0.1:4000" 5

abbrev traffic : Traffic counting
traffic = record {
  session = add_tunnel config ask_2000 2000 fresh_session;
  sems = (0, (pos 100, 0)) ∷ [];
  accepted = [];
  serving = [];
}

traffic-IsValid : IsValid config traffic.session
unfolding new_session
traffic-IsValid =
    add_tunnel-IsValid config fresh_session
      (new_session-IsValid config "sess_1" "10.0.0.1:4000" 5 (omega arith)) ask_2000 2000 refl
      (omega arith)

bound : lookup 2000 traffic.session.tunnels ≡ some 0
unfolding lookup add_tunnel insert new_session nat_eq
bound = refl

guarded : lookup 0 traffic.sems ≡ some (pos 100, 0)
unfolding lookup nat_eq
guarded = refl

allowed : is_valid_port config 2000 ≡ true
unfolding is_valid_port nat_eq
allowed = refl

released_twice_example :
    ((accept_connection 2000 (pos 0) traffic).accepted ≡ 2000 ∷ [])
    × ((start_connection 2000 (
          forward config
            (λ p. some p)
            ask_2000
            (cancel ask_2000 (accept_connection 2000 (pos 0) traffic)))).serving
        ≡ traffic.session.next ∷ [])
    × (end_connection false (pos 1) traffic.session.next (
          start_connection 2000 (
            forward config
              (λ p. some p)
              ask_2000
              (cancel ask_2000 (accept_connection 2000 (pos 0) traffic))))
        ≡ none)
released_twice_example =
    released_twice counting-IsSemaphore config (λ p. some p) ask_2000 traffic 0 (pos 100, 0)
      (pos 100, 1) false (pos 0) (pos 1) traffic-IsValid allowed refl bound guarded refl

listens : IsListen (λ p. some p) fresh_session
unfolding new_session
listens = record { asked = λ p q h k. sym (some-injective p q h); free = λ p q h. refl }

abbrev start : Traffic counting
start = record { session = fresh_session; sems = []; accepted = []; serving = [] }

abbrev one_served : Traffic counting
one_served =
    start_connection 2000
      (accept_connection 2000 (pos 0) (forward config (λ p. some p) ask_2000 start))

waits :
    0
    < count 2000
        (accept_connection 2000 (pos 0) (forward config (λ p. some p) ask_2000 start)).accepted
unfolding count accept_connection forward handle_forward_request add_tunnel lookup insert
    is_valid_port update_tunnel new_session nat_eq new_tunnel
waits = omega arith

one_served-Reach : Reach config (λ ip port. ip) "sess_1" "10.0.0.1:4000" 5 one_served
one_served-Reach =
    later
      (later (later fresh (forwards (λ p. some p) ask_2000 start listens))
        (accepts 2000 (pos 0) (forward config (λ p. some p) ask_2000 start)))
      (starts 2000 (accept_connection 2000 (pos 0) (forward config (λ p. some p) ask_2000 start))
        waits)

-- The tunnel is cancelled while it serves a connection, and made again.
abbrev cancelled : Traffic counting
cancelled = cancel ask_2000 one_served

abbrev again : Traffic counting
again = forward config (λ p. some p) ask_2000 cancelled

none_waits : count 2000 one_served.accepted ≡ 0
unfolding count start_connection close accept_connection forward handle_forward_request add_tunnel
    lookup insert is_valid_port update_tunnel new_session nat_eq new_tunnel
none_waits = refl

closed : cancelled.session.listening ≡ []
unfolding cancel handle_cancel_forward_request start_connection close accept_connection forward
    handle_forward_request add_tunnel lookup insert is_valid_port update_tunnel new_session nat_eq
    new_tunnel
closed = refl

listens_again : IsListen (λ p. some p) cancelled.session
listens_again = record {
  asked = λ p q h k. sym (some-injective p q h);
  free = λ p q h. rw closed refl;
}

again-Reach : Reach config (λ ip port. ip) "sess_1" "10.0.0.1:4000" 5 again
again-Reach =
    later (later one_served-Reach (cancels ask_2000 one_served none_waits))
      (forwards (λ p. some p) ask_2000 cancelled listens_again)

bound_2000 : lookup 2000 again.session.tunnels ≡ some 1
unfolding cancel handle_cancel_forward_request start_connection close accept_connection forward
    handle_forward_request add_tunnel lookup insert delete is_valid_port update_tunnel new_session
    nat_eq new_tunnel
bound_2000 = refl

connections_counted_example :
    ((sem : counting.Sem) × (lookup 1 again.sems ≡ some sem)
      × (counting-IsSemaphore.held sem ≡ count 2000 again.accepted + count 1 again.serving)
      × (pos (counting-IsSemaphore.held sem) ≤ℤ config.max_conns_per_tunnel))
    × ((failed : Bool) (seen : ℤ) (b : ℕ)
        → (count b again.serving ≡ 0)
          ⊎ ((t' : Traffic counting) × (end_connection failed seen b again ≡ some t')))
connections_counted_example =
    connections_counted counting-IsSemaphore config (λ ip port. ip) (omega arith) "sess_1"
      "10.0.0.1:4000" 5 again 2000 1 (omega arith) again-Reach bound_2000
