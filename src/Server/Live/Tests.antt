-- ===== src/Server/Live/Tests.antt =====
-- The theorem about a running server, at a concrete input.
use tbore.Base.{ℕ, ◌*◌, ◌≤◌, ◌≡◌, String, length, if◌then◌else◌, List, [], ◌∷◌, none, some, arith}
use tbore.Base.Int.{pos, pos_part, ◌≤ℤ◌, leb_ℤ}
use tbore.Auth.Sample.{memory_bucket, record_codec}
use tbore.Auth.Sample.Blocker.{fresh_blocker, toy_crypto, server_auth}
use tbore.Client.Dial.{auth_string}
use tbore.Server.Session.Requests.{Formats}
use tbore.Server.Status.{totals}
use tbore.Server.Sample.{counting, counting-IsSemaphore, config}
use tbore.Server.Live.{Running, start_server, accept, get_status}
use tbore.Server.Live.Goroutines.{goroutines}
use tbore.Server.Live.Bounds.{
  Event, connects, checks, logs_in, is_established, requests, closes, run, server_bounded,
}

abbrev formats : Formats
formats = record {
  forward = λ bytes. record { addr = "0.0.0.0"; port = 2000 };
  client_info = λ bytes. none;
  tunnel_info = λ bytes. none;
  health_report = λ bytes. none;
  health_info = λ info. some [];
  format_addr = λ host port. host;
}

abbrev random_bytes : List ℕ
random_bytes = 0 ∷ 1 ∷ 2 ∷ 3 ∷ 4 ∷ 5 ∷ 6 ∷ 7 ∷ 8 ∷ 9 ∷ 10 ∷ 11 ∷ 12 ∷ 13 ∷ 14 ∷ 15 ∷ []

-- Two connections, of which one logs in, gets a tunnel and ends.
abbrev events : List Event
events =
    connects "10.0.0.1:4000"
    ∷ connects "10.0.0.2:4000"
    ∷ checks 0 10
    ∷ logs_in 0 11 12 (auth_string toy_crypto server_auth random_bytes)
    ∷ is_established 0 "sess_1" 13
    ∷ requests (λ p. some p) 0 (record { kind = "tcpip-forward"; payload = [] })
    ∷ closes 0
    ∷ []

server_bounded_example :
    (t : Running memory_bucket counting) × (run record_codec toy_crypto server_auth
        (λ addr. none)
        formats
        config
        events
        (start_server config (some fresh_blocker))
      ≡ some t)
    × (pos (goroutines t) ≤ℤ config.max_connections)
    × ((remote_addr : String)
        → (accept remote_addr t).opening ≡ (
            if leb_ℤ config.max_connections (pos (goroutines t))
            then t.opening
            else remote_addr ∷ t.opening))
    × (pos (length (get_status t)) ≤ℤ config.max_connections)
    × ((totals (get_status t)).active_tunnels ≤ (totals (get_status t)).total_tunnels)
    × ((totals (get_status t)).total_tunnels ≤ pos_part config.max_tunnels * length (get_status t))
server_bounded_example =
    server_bounded counting-IsSemaphore record_codec toy_crypto server_auth (λ addr. none) formats
      config (omega arith) (some fresh_blocker) events (omega arith)
