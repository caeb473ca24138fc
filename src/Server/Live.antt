-- ===== src/Server/Live.antt =====
-- pkg/server/server.go, the accept loop of `Start`, `handleConnection` from its first line to its
-- last, and `GetStatus`: the goroutines of a running server, with what they share. The key exchange
-- of SSH is not modelled, only when it asks for the password and how it may end.
pub mod Requests
pub mod Keys
pub mod Goroutines
pub mod Bounds
mod Tests
use tbore.Base.{
  ℕ, suc, ◌==◌, string_eq, nat_eq, String, get_elem?, remove_at, if◌then◌else◌, Bool, true, false,
  List, [], ◌∷◌, Option, none, some,
}
use tbore.Base.GoMap.{GoMap, lookup, insert, delete}
use tbore.Config.{ServerConfig}
use tbore.Auth.Store.{Bucket, Json}
use tbore.Auth.Blocker.{AuthBlocker}
use tbore.Auth.Authenticator.{Crypto, Authenticator}
use tbore.Server.Login.{
  Verdict, accepted, temporarily_blocked, invalid_data, authentication_failed, extract_ip,
  password_callback, pre_handshake,
}
use tbore.Server.Session.{Session, new_session, end_session}
use tbore.Server.Session.Requests.{Request, Formats, handle_request}
use tbore.Server.Connections.{Semaphore}

-- A connection in `ssh.NewServerConn`, and whether its password was accepted.
pub record Handshake : Type 0 where
  pub remote_addr : String
  pub is_accepted : Bool

abbrev pub is_accept : Verdict → Bool
is_accept accepted = true
is_accept temporarily_blocked = false
is_accept invalid_data = false
is_accept authentication_failed = false

module _ (B : Bucket) (W : Semaphore) where
  -- The goroutines of handleConnection are in `opening`, by their remote address, before the check of
  -- the address, then in `shaking`, and then in `live`, with their `sessionID` and the address of
  -- their `connInfo` in `sessions`. `active_conns` is the `sync.Map` of the server.
  pub record Running : Type 0 where
    pub blocker : Option (AuthBlocker B)
    pub sem : W.Sem
    pub opening : List String
    pub shaking : List Handshake
    pub live : List (String × ℕ)
    pub sessions : GoMap ℕ Session
    pub next : ℕ
    pub active_conns : GoMap String ℕ

-- The sessions that `activeConns.Range` visits.
unfoldable pub range_sessions : GoMap String ℕ → GoMap ℕ Session → List Session
range_sessions [] sessions = []
range_sessions ((_, a) ∷ l) sessions =
    let rest = range_sessions l sessions in
    elim (lookup a sessions) [ none ↦ rest | some s ↦ s ∷ rest ]

module _ {B : Bucket} {W : Semaphore} where
  -- `semaphore.NewWeighted(int64(cfg.MaxConnections))`, and no connection yet.
  unfoldable pub start_server : ServerConfig → Option (AuthBlocker B) → Running B W
  start_server cfg blocker = record {
    blocker = blocker;
    sem = W.new_weighted cfg.max_connections;
    opening = [];
    shaking = [];
    live = [];
    sessions = [];
    next = 0;
    active_conns = [];
  }

  -- One round of the accept loop.
  unfoldable pub accept : String → Running B W → Running B W
  accept remote_addr t = elim (W.try_acquire t.sem) [
    | none ↦ t
    | some sem ↦ record t { sem = sem; opening = remote_addr ∷ t.opening }
  ]

  -- `defer s.sem.Release(1)`, where `none` is a panic.
  unfoldable pub release_conn : Running B W → Option (Running B W)
  release_conn t = elim (W.release t.sem) [ none ↦ none | some sem ↦ some (record t { sem = sem }) ]

  -- The n-th goroutine of `opening` checks its address.
  unfoldable pub check_addr :
      Json → (String → Option String) → ℕ → ℕ → Running B W → Option (Running B W)
  unfolding release_conn
  check_addr json split n now t = elim (get_elem? t.opening n) [
    | none ↦ some t
    | some remote_addr ↦
        let (blocker, allowed) = pre_handshake json (extract_ip split remote_addr) now t.blocker in
        let t' = record t { blocker = blocker; opening = remove_at n t.opening } in
        if allowed
        then some (record t' {
          shaking = record { remote_addr = remote_addr; is_accepted = false } ∷ t.shaking;
        })
        else release_conn t'
  ]

  -- SSH asks for the password of the n-th handshake.
  unfoldable pub try_password :
      Json
      → Crypto
      → Authenticator
      → (String → Option String)
      → ℕ
      → ℕ
      → ℕ
      → List ℕ
      → Running B W
      → Running B W
  try_password json crypto a split n now later pass t = elim (get_elem? t.shaking n) [
    | none ↦ t
    | some h ↦
        let (blocker, verdict) =
          password_callback json crypto a (extract_ip split h.remote_addr) now later pass
            t.blocker in
        record t {
          blocker = blocker;
          shaking =
              record { remote_addr = h.remote_addr; is_accepted = is_accept verdict }
              ∷ remove_at n t.shaking;
        }
  ]

  -- `ssh.NewServerConn` fails on the n-th handshake.
  unfoldable pub fail_handshake : ℕ → Running B W → Option (Running B W)
  unfolding release_conn
  fail_handshake n t = elim (get_elem? t.shaking n) [
    | none ↦ some t
    | some _ ↦ release_conn (record t { shaking = remove_at n t.shaking })
  ]

  -- It succeeds, which SSH allows once the password was accepted.
  unfoldable pub establish : ℕ → String → ℕ → Running B W → Running B W
  establish n session_id now t = elim (get_elem? t.shaking n) [
    | none ↦ t
    | some h ↦
        if h.is_accepted
        then record t {
          shaking = remove_at n t.shaking;
          live = (session_id, t.next) ∷ t.live;
          sessions = insert t.next (new_session session_id h.remote_addr now) t.sessions;
          next = suc t.next;
          active_conns = insert session_id t.next t.active_conns;
        }
        else t
  ]

  -- The request goroutine of the n-th session takes a request.
  unfoldable pub serve_request :
      Formats → ServerConfig → (ℕ → Option ℕ) → ℕ → Request → Running B W → Running B W
  serve_request F cfg listen n req t = elim (get_elem? t.live n) [
    | none ↦ t
    | some (_, a) ↦ elim (lookup a t.sessions) [
      | none ↦ t
      | some s ↦ record t { sessions = insert a (handle_request F cfg listen req s).0 t.sessions }
    ]
  ]

  -- `sshConn.Wait()` of the n-th session returns.
  unfoldable pub end_live : ℕ → Running B W → Option (Running B W)
  unfolding release_conn
  end_live n t = elim (get_elem? t.live n) [
    | none ↦ some t
    | some (session_id, a) ↦ release_conn (record t {
      live = remove_at n t.live;
      sessions = elim (lookup a t.sessions) [
        | none ↦ t.sessions
        | some s ↦ insert a (end_session s) t.sessions
      ];
      active_conns = delete session_id t.active_conns;
    })
  ]

  -- The `Connections` of `GetStatus`.
  unfoldable pub get_status : Running B W → List Session
  unfolding range_sessions
  get_status t = range_sessions t.active_conns t.sessions
