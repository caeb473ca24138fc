-- ===== src/Client/Tests.antt =====
-- The theorems about the package client, at concrete inputs.
use tbore.Base.{◌↔◌, ◌++◌, ◌∷◌, ◌≡◌, refl, string_eq, nat_eq, true, false, [], some, arith}
use tbore.Base.GoMap.{lookup, insert}
use tbore.Client.Tunnels.Same.{IsWanted, Serves}
use tbore.Client.Tunnels.{TunnelHandle, by_name, reload_tunnels, create_all}
use tbore.Client.Tunnels.Reload.{reload_tunnels-create_all}
use tbore.Client.Sample.{
  web_tunnel, ssh_tunnel, new_config, client, new_config-valid, client-distinct,
}
use tbore.Client.Messages.{health_round}
use tbore.Client.Messages.Round.{serve_reports, round_served}
use tbore.Server.Sample.{config as server_config}
use tbore.Server.Session.{Session, TunnelInfo, tunnel_state_error, new_session, add_tunnel}
use tbore.Server.Session.Invariant.{IsValid, add_tunnel-IsValid}
use tbore.Server.Session.Lifetime.{new_session-IsValid}

abbrev web_handle : TunnelHandle
web_handle = record { tunnel = web_tunnel; actual_port = 2001; active = true }

reload_tunnels-create_all_example :
    ((lookup "web" (reload_tunnels (some new_config) client).client.tunnels ≡ some web_handle) ↔ (
      (lookup "web" client.tunnels ≡ some web_handle)
      × IsWanted web_handle (lookup "web" (by_name new_config.tunnels []))))
    × Serves
        (lookup "web"
          (create_all
            (λ t. some 2002)
            (reload_tunnels (some new_config) client).to_create
            (reload_tunnels (some new_config) client).client).tunnels)
        (lookup "web" (by_name new_config.tunnels []))
reload_tunnels-create_all_example =
    reload_tunnels-create_all client new_config (λ t. some 2002) "web" web_handle client-distinct
      new_config-valid (λ t. (2002, refl))

abbrev fresh_session : Session
fresh_session = new_session "sess_1" "10.0.0.1:4000" 5

abbrev session : Session
session = add_tunnel server_config (record { addr = "0.0.0.0"; port = 2000 }) 2000 fresh_session

session-IsValid : IsValid server_config session
unfolding new_session
session-IsValid =
    add_tunnel-IsValid server_config fresh_session
      (new_session-IsValid server_config "sess_1" "10.0.0.1:4000" 5 (omega arith))
      (record { addr = "0.0.0.0"; port = 2000 }) 2000 refl (omega arith)

bound : lookup 2000 session.tunnels ≡ some 0
unfolding lookup add_tunnel insert new_session nat_eq
bound = refl

round_served_example :
    (y : TunnelInfo) × (lookup 0
        (serve_reports
          (health_round (λ t. false) ((ssh_tunnel ∷ []) ++ (ssh_tunnel ∷ web_tunnel ∷ [])))
          session).heap
      ≡ some y)
    × (y.remote_port ≡ 2000)
    × (y.state ≡ tunnel_state_error)
    × ((serve_reports
          (health_round (λ t. false) ((ssh_tunnel ∷ []) ++ (ssh_tunnel ∷ web_tunnel ∷ [])))
          session).tunnels
        ≡ session.tunnels)
    × ((serve_reports
          (health_round (λ t. false) ((ssh_tunnel ∷ []) ++ (ssh_tunnel ∷ web_tunnel ∷ [])))
          session).listening
        ≡ session.listening)
round_served_example =
    round_served server_config session (λ t. false) (ssh_tunnel ∷ []) (web_tunnel ∷ []) ssh_tunnel 0
      session-IsValid bound ((λ e. absurd (omega (arith, e))), tt)
