-- ===== src/Client/Sample.antt =====
-- A client with two tunnels, for the concrete inputs.
use tbore.Base.{◌≡◌, refl, string_eq, nat_eq, true, [], ◌∷◌, none}
use tbore.Base.Int.{pos}
use tbore.Base.GoMap.{lookup, NodupKeys}
use tbore.Config.{TunnelConfig, ClientConfig, validate_client, validate_tunnels, validate_tunnel}
use tbore.Client.Tunnels.{Client}

abbrev pub ssh_tunnel : TunnelConfig
ssh_tunnel = record {
  name = "ssh";
  local_ip = "127.0.0.1";
  local_port = pos 22;
  remote_port = 2000;
  timeout = pos 60;
}

abbrev pub web_tunnel : TunnelConfig
web_tunnel = record {
  name = "web";
  local_ip = "127.0.0.1";
  local_port = pos 80;
  remote_port = 2001;
  timeout = pos 0;
}

abbrev pub config : ClientConfig
config = record {
  server_addr = "example.org";
  server_port = pos 7835;
  token = "secret";
  host_key = "";
  project = "";
  region = "";
  tunnels = ssh_tunnel ∷ [];
  health_check_interval = pos 30;
}

-- It drops the tunnel "web" and moves "ssh" to another local port.
abbrev pub new_config : ClientConfig
new_config = record config { tunnels = record ssh_tunnel { local_port = pos 2222 } ∷ [] }

abbrev pub client : Client
client = record {
  cfg = config;
  auth = record { secret = 7 ∷ [] };
  tunnels =
      ("ssh", record { tunnel = ssh_tunnel; actual_port = 2000; active = true })
      ∷ ("web", record { tunnel = web_tunnel; actual_port = 2001; active = true })
      ∷ [];
}

pub new_config-valid : validate_client new_config ≡ none
unfolding validate_client validate_tunnels validate_tunnel string_eq nat_eq
new_config-valid = refl

pub client-distinct : NodupKeys client.tunnels
unfolding lookup string_eq
client-distinct = (refl, (refl, tt))
