-- ===== src/Server/Session.antt =====
-- pkg/server/server.go: one client's session, its tunnels, and the requests that change them. They
-- are handled one after the other by one goroutine.
pub mod Invariant
pub mod Requests
pub mod Lifetime
pub mod Ports
use tbore.Base.{
  ℕ, suc, ◌/◌, ◌%◌, ◌^◌, ◌==◌, nat_eq, string_eq, String, length, if◌then◌else◌, Bool, true, false,
  not, ◌&&◌, List, [], ◌∷◌, Option, none, some,
}
use mathlib.Core.Option
use tbore.Base.Int.{ℤ, pos, leb_ℤ, wrap64, scale_ℤ}
use tbore.Base.GoMap.{GoMap, lookup, insert, delete}
use tbore.Config.{ServerConfig, is_valid_port}
use tbore.Auth.Blocker.{second}

-- A `TunnelState` is any integer that a client reports, three of which have names.
abbrev pub TunnelState : Type 0
TunnelState = ℤ

abbrev pub tunnel_state_active : TunnelState
tunnel_state_active = pos 0

abbrev pub tunnel_state_idle : TunnelState
tunnel_state_idle = pos 1

abbrev pub tunnel_state_error : TunnelState
tunnel_state_error = pos 2

abbrev pub is_state : ℕ → TunnelState → Bool
is_state k (pos n) = n == k
is_state k _ = false

unfoldable pub state_string : TunnelState → String
state_string s =
    if is_state 0 s
    then "active"
    else if is_state 1 s
    then "idle"
    else if is_state 2 s
    then "error"
    else "unknown"

-- The listener of a tunnel is known by its port, which is the tunnel's. The semaphore is its size.
pub record TunnelInfo : Type 0 where
  pub remote_port : ℕ
  pub local_addr : String
  pub state : TunnelState
  pub active_conns : ℤ
  pub name : String
  pub conn_timeout : ℤ
  pub conn_sem : ℤ

pub record ClientInfo : Type 0 where
  pub project : String
  pub region : String

-- `ConnectionInfo`: `tunnels` maps a port to the address of its `TunnelInfo`, which lies in `heap`.
-- `listening` holds the ports of the listeners that the session has open.
pub record Session : Type 0 where
  pub id : String
  pub remote_addr : String
  pub connect_time : ℕ
  pub tunnels : GoMap ℕ ℕ
  pub client_info : ClientInfo
  pub heap : GoMap ℕ TunnelInfo
  pub next : ℕ
  pub listening : List ℕ

unfoldable pub new_session : String → String → ℕ → Session
new_session id remote_addr now = record {
  id = id;
  remote_addr = remote_addr;
  connect_time = now;
  tunnels = [];
  client_info = record { project = ""; region = "" };
  heap = [];
  next = 0;
  listening = [];
}

pub record ForwardMsg : Type 0 where
  pub addr : String
  pub port : ℕ

pub record TunnelMsg : Type 0 where
  pub port : ℕ
  pub name : String
  pub local_ip : String
  pub local_port : ℤ
  pub timeout : ℤ

pub record HealthMsg : Type 0 where
  pub port : ℕ
  pub status : ℤ

pub record Reply : Type 0 where
  pub accepted : Bool
  pub payload : List ℕ

abbrev pub reply : Bool → Reply
reply answer = record { accepted = answer; payload = [] }

-- `binary.BigEndian.PutUint32`
unfoldable pub put_uint32 : ℕ → List ℕ
put_uint32 n = n / 2 ^ 24 % 256 ∷ n / 2 ^ 16 % 256 ∷ n / 2 ^ 8 % 256 ∷ n % 256 ∷ []

-- Closing a listener. No port stands twice.
unfoldable pub close : ℕ → List ℕ → List ℕ
close p [] = []
close p (q ∷ l) = if p == q then l else q ∷ close p l

unfoldable pub new_tunnel : ServerConfig → ForwardMsg → ℕ → TunnelInfo
new_tunnel cfg msg actual_port = record {
  remote_port = actual_port;
  local_addr = msg.addr;
  state = tunnel_state_idle;
  active_conns = pos 0;
  name = "";
  conn_timeout = pos 0;
  conn_sem = cfg.max_conns_per_tunnel;
}

-- The session with a new tunnel, at a new address.
unfoldable pub add_tunnel : ServerConfig → ForwardMsg → ℕ → Session → Session
add_tunnel cfg msg actual_port s = record s {
  tunnels = insert actual_port s.next s.tunnels;
  heap = insert s.next (new_tunnel cfg msg actual_port) s.heap;
  next = suc s.next;
  listening = actual_port ∷ s.listening;
}

-- `listen` is `net.Listen` on the configured address: the port that it binds, or an error.
unfoldable pub handle_forward_request :
    ServerConfig → (ℕ → Option ℕ) → ForwardMsg → Session → Session × Reply
unfolding add_tunnel
handle_forward_request cfg listen msg s =
    if not (msg.port == 0) && not (is_valid_port cfg msg.port)
    then (s, reply false)
    else if leb_ℤ cfg.max_tunnels (pos (length s.tunnels))
    then (s, reply false)
    else elim (listen msg.port) [
      | none ↦ (s, reply false)
      | some actual_port ↦ (
        add_tunnel cfg msg actual_port s,
        record { accepted = true; payload = put_uint32 actual_port },
      )
    ]

unfoldable pub handle_cancel_forward_request : ForwardMsg → Session → Session × Reply
handle_cancel_forward_request msg s = elim (lookup msg.port s.tunnels) [
  | none ↦ (s, reply false)
  | some _ ↦ (
    record s { tunnels = delete msg.port s.tunnels; listening = close msg.port s.listening },
    reply true,
  )
]

-- `none` is a payload that is not the JSON of a `ClientInfo`.
unfoldable pub handle_client_info_request : Option ClientInfo → Session → Session × Reply
handle_client_info_request parsed s = elim parsed [
  | none ↦ (s, reply false)
  | some info ↦ (record s { client_info = info }, reply true)
]

-- A write through the pointer that the map holds for a port, if it holds one.
unfoldable pub update_tunnel : ℕ → (TunnelInfo → TunnelInfo) → Session → Session
update_tunnel port f s = elim (lookup port s.tunnels) [
  | none ↦ s
  | some a ↦ elim (lookup a s.heap) [
    | none ↦ s
    | some t ↦ record s { heap = insert a (f t) s.heap }
  ]
]

-- `format_addr` is `fmt.Sprintf("%s:%d", …)`.
unfoldable pub handle_tunnel_info_request :
    (String → ℤ → String) → Option TunnelMsg → Session → Session × Reply
unfolding update_tunnel
handle_tunnel_info_request format_addr parsed s = elim parsed [
  | none ↦ (s, reply false)
  | some info ↦ (
    update_tunnel info.port
        (λ t. record t {
          name = info.name;
          local_addr = format_addr info.local_ip info.local_port;
          conn_timeout = wrap64 (scale_ℤ second info.timeout);
        })
        s,
    reply true,
  )
]

-- A state that is already there is not written again, which makes no difference but to the log.
unfoldable pub handle_health_report_request : Option HealthMsg → Session → Session × Reply
unfolding update_tunnel
handle_health_report_request parsed s = elim parsed [
  | none ↦ (s, reply false)
  | some info ↦ (update_tunnel info.port (λ t. record t { state = info.status }) s, reply true)
]

-- The port and the state of each tunnel, in the order in which `range` visits the map.
unfoldable pub health_info : GoMap ℕ ℕ → GoMap ℕ TunnelInfo → List (ℕ × TunnelState)
health_info [] heap = []
health_info ((port, a) ∷ l) heap = elim (lookup a heap) [
  | none ↦ health_info l heap
  | some t ↦ (port, t.state) ∷ health_info l heap
]

-- `marshal` is `json.Marshal` on that list.
unfoldable pub handle_health_check_request :
    (List (ℕ × TunnelState) → Option (List ℕ)) → Session → Session × Reply
unfolding health_info
handle_health_check_request marshal s = elim (marshal (health_info s.tunnels s.heap)) [
  | none ↦ (s, reply false)
  | some bytes ↦ (s, record { accepted = true; payload = bytes })
]

-- The end of `handleConnection`: the listener of every tunnel is closed.
unfoldable pub close_all : GoMap ℕ ℕ → List ℕ → List ℕ
unfolding close
close_all [] listening = listening
close_all ((port, _) ∷ l) listening = close_all l (close port listening)

unfoldable pub end_session : Session → Session
unfolding close_all
end_session s = record s { listening = close_all s.tunnels s.listening }
