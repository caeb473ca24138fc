-- ===== src/Client/Reloads/Tests.antt =====
-- The theorems about reloads, at concrete inputs.
use tbore.Base.{List, inl, inr, ◌≡◌, refl, string_eq, nat_eq, true, false, [], ◌∷◌, none, some}
use tbore.Base.GoMap.{lookup, insert}
use tbore.Config.{validate_client, validate_tunnels, validate_tunnel}
use tbore.Client.Sample.{ssh_tunnel, config, client, client-distinct}
use tbore.Client.Tunnels.{TunnelHandle, by_name}
use tbore.Client.Tunnels.Same.{IsSame}
use tbore.Client.Reloads.{Running, Event, triggers, loses, connects, turns, run}
use tbore.Client.Reloads.Stale.{lost_tunnel_kept}

abbrev running : Running
running = record { client = client; reload_chan = false }

config-valid : validate_client config ≡ none
unfolding validate_client validate_tunnels validate_tunnel string_eq nat_eq
config-valid = refl

abbrev ssh_handle : TunnelHandle
ssh_handle = record { tunnel = ssh_tunnel; actual_port = 2000; active = true }

held : lookup "ssh" client.tunnels ≡ some ssh_handle
unfolding lookup string_eq
held = refl

wanted : lookup "ssh" (by_name config.tunnels []) ≡ some ssh_tunnel
unfolding lookup by_name insert string_eq
wanted = refl

unchanged : IsSame ssh_tunnel ssh_tunnel
unchanged = record { local_ip = refl; local_port = refl; remote_port = refl; timeout = refl }

-- The new connection is refused every tunnel, and a reload would be granted all.
abbrev refused : List Event
refused =
    connects (λ u. none)
    ∷ triggers
    ∷ turns (some config) (λ u. some 2002)
    ∷ triggers
    ∷ turns none (λ u. none)
    ∷ []

lost_tunnel_kept_example :
    lookup "ssh" (run (loses ∷ refused) running).client.tunnels ≡ some ssh_handle
lost_tunnel_kept_example =
    lost_tunnel_kept running "ssh" ssh_handle ssh_tunnel refused client-distinct config-valid held
      wanted unchanged (λ t. inr refl, (tt, (inr refl, (tt, (inl refl, tt)))))
