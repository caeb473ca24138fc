-- ===== src/Config/Tests.antt =====
-- The theorems about the package config, at concrete configurations.
use tbore.Base.{◌≤◌, string_eq, nat_eq, false, arith}
use tbore.Base.Int.{pos}
use tbore.Config.{TunnelConfig, ServerConfig, set_server_defaults}

abbrev bare_server : ServerConfig
bare_server = record {
  port = pos 0;
  token = "secret";
  min_port = 0;
  max_port = 0;
  max_connections = pos 0;
  max_tunnels = pos 5;
  bind_addr = "";
  host_key_path = "";
  max_conns_per_tunnel = pos 0;
  auth_disabled = false;
  auth_max_failures = pos 0;
  auth_block_duration = pos 0;
  auth_lru_size = pos 0;
  auth_block_db_path = "";
  auth_clean_interval = pos 0;
  auth_record_ttl = pos 0;
}

abbrev ssh_tunnel : TunnelConfig
ssh_tunnel = record {
  name = "ssh";
  local_ip = "127.0.0.1";
  local_port = pos 22;
  remote_port = 2222;
  timeout = pos 0;
}

default_ports :
    (set_server_defaults bare_server).min_port ≤ (set_server_defaults bare_server).max_port
unfolding set_server_defaults nat_eq
default_ports = omega arith
