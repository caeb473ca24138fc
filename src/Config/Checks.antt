-- ===== src/Config/Checks.antt =====
-- What the `Validate` of a client's configuration finds.
use tbore.Base.{
  ℕ, suc, ◌+◌, ◌++◌, length, ◌≡◌, ◌≢◌, refl, ◌↔◌, string_eq, All, List, [], ◌∷◌, none, some, arith,
}
use tbore.Base.Int.{pos}
use tbore.Config.{
  TunnelConfig, ClientConfig, tunnel_name_required, validate_tunnel, validate_tunnels,
  validate_client,
}

pub record IsComplete (t : TunnelConfig) : Type 0 where
  pub name : t.name ≢ ""
  pub local_ip : t.local_ip ≢ ""
  pub local_port : t.local_port ≢ pos 0

validate_tunnel_sound : (i : ℕ) (t : TunnelConfig) → validate_tunnel i t ≡ none → IsComplete t
unfolding validate_tunnel
validate_tunnel_sound i t h = record {
  name = λ e. absurd (ground arith);
  local_ip = λ e. absurd (ground arith);
  local_port = λ e. absurd (ground arith);
}

validate_tunnel_complete : (i : ℕ) (t : TunnelConfig) → IsComplete t → validate_tunnel i t ≡ none
unfolding validate_tunnel
validate_tunnel_complete i t c = ground arith

validate_tunnels_sound :
    (i : ℕ) (ts : List TunnelConfig) → validate_tunnels i ts ≡ none → All IsComplete ts
unfolding validate_tunnels
validate_tunnels_sound i [] h = tt
validate_tunnels_sound i (t ∷ ts) h =
    (validate_tunnel_sound i t (ground arith), validate_tunnels_sound (suc i) ts (ground arith))

validate_tunnels_complete :
    (i : ℕ) (ts : List TunnelConfig) → All IsComplete ts → validate_tunnels i ts ≡ none
unfolding validate_tunnels
validate_tunnels_complete i [] c = refl
validate_tunnels_complete i (t ∷ ts) c =
    ground (arith, validate_tunnel_complete i t c.0, validate_tunnels_complete (suc i) ts c.1)

pub record IsUsable (cfg : ClientConfig) : Type 0 where
  pub server_addr : cfg.server_addr ≢ ""
  pub server_port : cfg.server_port ≢ pos 0
  pub token : cfg.token ≢ ""
  pub tunnels : All IsComplete cfg.tunnels

validate_client_sound : (cfg : ClientConfig) → validate_client cfg ≡ none → IsUsable cfg
unfolding validate_client
validate_client_sound cfg h = record {
  server_addr = λ e. absurd (ground arith);
  server_port = λ e. absurd (ground arith);
  token = λ e. absurd (ground arith);
  tunnels = validate_tunnels_sound 0 cfg.tunnels (ground arith);
}

validate_client_complete : (cfg : ClientConfig) → IsUsable cfg → validate_client cfg ≡ none
unfolding validate_client
validate_client_complete cfg u =
    let checked = validate_tunnels_complete 0 cfg.tunnels u.tunnels in ground (arith, checked)

-- `Validate` accepts exactly the client configurations with an address, a port and a token, all of
-- whose tunnels have a name and a local end.
validate_client_iff : (cfg : ClientConfig) → (validate_client cfg ≡ none) ↔ IsUsable cfg
validate_client_iff cfg = (validate_client_sound cfg, validate_client_complete cfg)

-- If all tunnels before one without a name are complete, the error is that its name is missing,
-- with its index.
validate_tunnels_first :
    (i : ℕ) (before after : List TunnelConfig) (t : TunnelConfig)
    → All IsComplete before
    → t.name ≡ ""
    → validate_tunnels i (before ++ t ∷ after) ≡ some (tunnel_name_required (i + length before))
unfolding validate_tunnels validate_tunnel
validate_tunnels_first i [] after t c e = ground arith
validate_tunnels_first i (u ∷ before) after t c e =
    ground (arith, validate_tunnels_first (suc i) before after t c.1, c.0)
