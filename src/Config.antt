-- ===== src/Config.antt =====
-- pkg/config/config.go and errors.go: the configurations of both sides. A configuration
-- is what `yaml.Unmarshal` leaves, with zero for a missing key.
pub mod Defaults
pub mod Checks
pub mod Load
mod Tests
use tbore.Base.{
  ℕ, suc, ◌==◌, nat_eq, string_eq, String, ltb, leb, if◌then◌else◌, Bool, true, false, not, ◌&&◌,
  List, [], ◌∷◌, Option, none, some,
}
use tbore.Base.Int.{ℤ, pos, negsuc, leb_ℤ}

pub record TunnelConfig : Type 0 where
  pub name : String
  pub local_ip : String
  pub local_port : ℤ
  pub remote_port : ℕ
  pub timeout : ℤ

pub record ServerConfig : Type 0 where
  pub port : ℤ
  pub token : String
  pub min_port : ℕ
  pub max_port : ℕ
  pub max_connections : ℤ
  pub max_tunnels : ℤ
  pub bind_addr : String
  pub host_key_path : String
  pub max_conns_per_tunnel : ℤ
  pub auth_disabled : Bool
  pub auth_max_failures : ℤ
  pub auth_block_duration : ℤ
  pub auth_lru_size : ℤ
  pub auth_block_db_path : String
  pub auth_clean_interval : ℤ
  pub auth_record_ttl : ℤ

pub record ClientConfig : Type 0 where
  pub server_addr : String
  pub server_port : ℤ
  pub token : String
  pub host_key : String
  pub project : String
  pub region : String
  pub tunnels : List TunnelConfig
  pub health_check_interval : ℤ

pub data ServerError : Type 0 where
  token_required invalid_port_range invalid_max_connections invalid_max_tunnels : ServerError
  invalid_auth_max_failures invalid_auth_block_duration invalid_auth_lru_size : ServerError
  invalid_auth_clean_interval invalid_auth_record_ttl : ServerError

-- The errors about a tunnel name its index, and its name where it has one.
pub data ClientError : Type 0 where
  server_addr_required server_port_required client_token_required : ClientError
  tunnel_name_required : ℕ → ClientError
  tunnel_local_ip_required tunnel_local_port_required : ℕ → String → ClientError

abbrev pub is_zero : ℤ → Bool
is_zero (pos n) = n == 0
is_zero (negsuc n) = false

-- `if v == 0 { v = default }`
abbrev pub or_else : ℤ → ℕ → ℤ
or_else v default = if is_zero v then pos default else v

-- The same for a `uint32`, for a text, and for a limit that follows another one.
abbrev pub or_port : ℕ → ℕ → ℕ
or_port v default = if v == 0 then default else v

abbrev pub or_text : String → String → String
or_text v default = if v == "" then default else v

abbrev pub or_follow : ℤ → ℤ → ℤ
or_follow v other = if is_zero v then other else v

unfoldable pub set_server_defaults : ServerConfig → ServerConfig
set_server_defaults cfg =
    let max_connections = or_else cfg.max_connections 100 in
    record cfg {
      port = or_else cfg.port 7835;
      min_port = or_port cfg.min_port 1024;
      max_port = or_port cfg.max_port 65535;
      max_connections = max_connections;
      max_tunnels = or_else cfg.max_tunnels 10;
      max_conns_per_tunnel = or_follow cfg.max_conns_per_tunnel max_connections;
      bind_addr = or_text cfg.bind_addr "0.0.0.0";
      auth_max_failures = or_else cfg.auth_max_failures 3;
      auth_block_duration = or_else cfg.auth_block_duration 600;
      auth_lru_size = or_else cfg.auth_lru_size 1000;
      auth_clean_interval = or_else cfg.auth_clean_interval 60;
      auth_record_ttl = or_else cfg.auth_record_ttl 86400;
    }

unfoldable pub set_client_defaults : ClientConfig → ClientConfig
set_client_defaults cfg = record cfg {
  health_check_interval =
      if leb_ℤ cfg.health_check_interval (pos 0) then pos 30 else cfg.health_check_interval;
}

-- The checks of `Validate` that `auth_disabled` switches off.
unfoldable pub validate_auth : ServerConfig → Option ServerError
validate_auth cfg =
    if leb_ℤ cfg.auth_max_failures (pos 0)
    then some invalid_auth_max_failures
    else if leb_ℤ cfg.auth_block_duration (pos 0)
    then some invalid_auth_block_duration
    else if leb_ℤ cfg.auth_lru_size (pos 0)
    then some invalid_auth_lru_size
    else if leb_ℤ cfg.auth_clean_interval (pos 0)
    then some invalid_auth_clean_interval
    else if leb_ℤ cfg.auth_record_ttl (pos 0)
    then some invalid_auth_record_ttl
    else none

-- `none` is the `nil` error.
unfoldable pub validate_server : ServerConfig → Option ServerError
validate_server cfg =
    if cfg.token == ""
    then some token_required
    else if ltb cfg.max_port cfg.min_port
    then some invalid_port_range
    else if leb_ℤ cfg.max_connections (pos 0)
    then some invalid_max_connections
    else if leb_ℤ cfg.max_tunnels (pos 0)
    then some invalid_max_tunnels
    else if not cfg.auth_disabled
    then validate_auth cfg
    else none

unfoldable pub is_valid_port : ServerConfig → ℕ → Bool
is_valid_port cfg port = if port == 0 then true else leb cfg.min_port port && leb port cfg.max_port

unfoldable pub validate_tunnel : ℕ → TunnelConfig → Option ClientError
validate_tunnel i t =
    if t.name == ""
    then some (tunnel_name_required i)
    else if t.local_ip == ""
    then some (tunnel_local_ip_required i t.name)
    else if is_zero t.local_port
    then some (tunnel_local_port_required i t.name)
    else none

unfoldable pub validate_tunnels : ℕ → List TunnelConfig → Option ClientError
validate_tunnels i [] = none
validate_tunnels i (t ∷ ts) = elim (validate_tunnel i t) [
  | some e ↦ some e
  | none ↦ validate_tunnels (suc i) ts
]

unfoldable pub validate_client : ClientConfig → Option ClientError
validate_client cfg =
    if cfg.server_addr == ""
    then some server_addr_required
    else if is_zero cfg.server_port
    then some server_port_required
    else if cfg.token == ""
    then some client_token_required
    else validate_tunnels 0 cfg.tunnels
