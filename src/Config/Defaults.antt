-- ===== src/Config/Defaults.antt =====
-- What `setDefaults` does to a configuration.
use tbore.Base.{
  ℕ, ◌≤◌, ◌<◌, ◌≡◌, ◌≢◌, ◌↔◌, refl, nat_eq, string_eq, String, Bool-cases, inl, inr, false, none,
  arith,
}
use tbore.Base.Int.{ℤ, pos, ◌≤ℤ◌, ◌<ℤ◌}
use tbore.Config.{
  ServerConfig, or_else, or_port, or_text, or_follow, set_server_defaults, validate_auth,
  validate_server,
}

or_else_idem : (v : ℤ) (d : ℕ) → 0 < d → or_else (or_else v d) d ≡ or_else v d
or_else_idem v d h = ground arith

or_port_idem : (v d : ℕ) → or_port (or_port v d) d ≡ or_port v d
or_port_idem v d = ground arith

or_text_idem : (v d : String) → or_text (or_text v d) d ≡ or_text v d
or_text_idem v d = ground arith

or_follow_idem :
    (v w : ℤ) (d : ℕ)
    → 0 < d
    → or_follow (or_follow v (or_else w d)) (or_else (or_else w d) d) ≡ or_follow v (or_else w d)
or_follow_idem v w d h = ground arith

-- Setting the defaults of a server a second time changes nothing.
set_server_defaults_idem :
    (cfg : ServerConfig) → set_server_defaults (set_server_defaults cfg) ≡ set_server_defaults cfg
unfolding set_server_defaults
set_server_defaults_idem cfg = λ i. record cfg {
  port = or_else_idem cfg.port 7835 (omega arith) i;
  min_port = or_port_idem cfg.min_port 1024 i;
  max_port = or_port_idem cfg.max_port 65535 i;
  max_connections = or_else_idem cfg.max_connections 100 (omega arith) i;
  max_tunnels = or_else_idem cfg.max_tunnels 10 (omega arith) i;
  max_conns_per_tunnel =
      or_follow_idem cfg.max_conns_per_tunnel cfg.max_connections 100 (omega arith) i;
  bind_addr = or_text_idem cfg.bind_addr "0.0.0.0" i;
  auth_max_failures = or_else_idem cfg.auth_max_failures 3 (omega arith) i;
  auth_block_duration = or_else_idem cfg.auth_block_duration 600 (omega arith) i;
  auth_lru_size = or_else_idem cfg.auth_lru_size 1000 (omega arith) i;
  auth_clean_interval = or_else_idem cfg.auth_clean_interval 60 (omega arith) i;
  auth_record_ttl = or_else_idem cfg.auth_record_ttl 86400 (omega arith) i;
}

-- No limit of the configuration is negative.
pub record IsNonnegative (cfg : ServerConfig) : Type 0 where
  pub connections : pos 0 ≤ℤ cfg.max_connections
  pub tunnels : pos 0 ≤ℤ cfg.max_tunnels
  pub failures : pos 0 ≤ℤ cfg.auth_max_failures
  pub block : pos 0 ≤ℤ cfg.auth_block_duration
  pub lru : pos 0 ≤ℤ cfg.auth_lru_size
  pub clean : pos 0 ≤ℤ cfg.auth_clean_interval
  pub ttl : pos 0 ≤ℤ cfg.auth_record_ttl

or_else_pos : (v : ℤ) (d : ℕ) → 0 < d → pos 0 ≤ℤ v → pos 0 <ℤ or_else v d
or_else_pos v d h k = ground arith

-- What `Validate` wants of the fields of the password protection.
pub record IsGuarded (cfg : ServerConfig) : Type 0 where
  pub failures : pos 0 <ℤ cfg.auth_max_failures
  pub block : pos 0 <ℤ cfg.auth_block_duration
  pub lru : pos 0 <ℤ cfg.auth_lru_size
  pub clean : pos 0 <ℤ cfg.auth_clean_interval
  pub ttl : pos 0 <ℤ cfg.auth_record_ttl

pub record IsAccepted (cfg : ServerConfig) : Type 0 where
  pub token : cfg.token ≢ ""
  pub ports : cfg.min_port ≤ cfg.max_port
  pub connections : pos 0 <ℤ cfg.max_connections
  pub tunnels : pos 0 <ℤ cfg.max_tunnels
  pub guarded : cfg.auth_disabled ≡ false → IsGuarded cfg

validate_auth_sound : (cfg : ServerConfig) → validate_auth cfg ≡ none → IsGuarded cfg
unfolding validate_auth
validate_auth_sound cfg h = ground arith

validate_auth_complete : (cfg : ServerConfig) → IsGuarded cfg → validate_auth cfg ≡ none
unfolding validate_auth
validate_auth_complete cfg g = ground arith

validate_server_sound : (cfg : ServerConfig) → validate_server cfg ≡ none → IsAccepted cfg
unfolding validate_server
validate_server_sound cfg h = record {
  token = λ e. absurd (ground arith);
  ports = ground arith;
  connections = ground arith;
  tunnels = ground arith;
  guarded = λ on. validate_auth_sound cfg (ground arith);
}

validate_server_complete : (cfg : ServerConfig) → IsAccepted cfg → validate_server cfg ≡ none
unfolding validate_server
validate_server_complete cfg a = elim (Bool-cases cfg.auth_disabled) [
  | inl off ↦ ground arith
  | inr on ↦ let checked = validate_auth_complete cfg (a.guarded on) in ground (arith, checked)
]

-- `Validate` accepts exactly the server configurations with a token, a port range that is not
-- empty and positive limits, those of the password protection only where it is on.
pub validate_server_iff : (cfg : ServerConfig) → (validate_server cfg ≡ none) ↔ IsAccepted cfg
validate_server_iff cfg = (validate_server_sound cfg, validate_server_complete cfg)

-- A configuration with a token, without negative limits, and whose port range is not empty once
-- the defaults are set, is accepted with the defaults, and the password protection is switched as
-- it was.
set_server_defaults-IsAccepted :
    (cfg : ServerConfig)
    → cfg.token ≢ ""
    → IsNonnegative cfg
    → (set_server_defaults cfg).min_port ≤ (set_server_defaults cfg).max_port
    → IsAccepted (set_server_defaults cfg)
      × ((set_server_defaults cfg).auth_disabled ≡ cfg.auth_disabled)
unfolding set_server_defaults
set_server_defaults-IsAccepted cfg token n ports = (
  record {
    token = token;
    ports = ports;
    connections = or_else_pos cfg.max_connections 100 (omega arith) n.connections;
    tunnels = or_else_pos cfg.max_tunnels 10 (omega arith) n.tunnels;
    guarded = λ _. record {
      failures = or_else_pos cfg.auth_max_failures 3 (omega arith) n.failures;
      block = or_else_pos cfg.auth_block_duration 600 (omega arith) n.block;
      lru = or_else_pos cfg.auth_lru_size 1000 (omega arith) n.lru;
      clean = or_else_pos cfg.auth_clean_interval 60 (omega arith) n.clean;
      ttl = or_else_pos cfg.auth_record_ttl 86400 (omega arith) n.ttl;
    };
  },
  refl,
)
