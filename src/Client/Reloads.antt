-- ===== src/Client/Reloads.antt =====
-- pkg/client/client.go, TriggerReload, handleSignals and reloadLoop, with the turns of the loop of
-- `Start` that connect and lose the connection: when a client loads its configuration again. A reload
-- and the tunnels that it creates are one step; the key exchange and the waits are not modelled.
pub mod Names
pub mod Triggers
pub mod Served
pub mod Stale
mod Tests
use tbore.Base.{if◌then◌else◌, Bool, true, false, List, [], ◌∷◌, Option, ℕ}
use tbore.Config.{TunnelConfig, ClientConfig}
use tbore.Client.Tunnels.{Client, reload_tunnels, create_all}

-- `reload_chan` says whether the channel, of capacity 1, holds a signal.
pub record Running : Type 0 where
  pub client : Client
  pub reload_chan : Bool

-- A send that the channel has no room for is left out.
unfoldable pub trigger_reload : Running → Running
trigger_reload r = if r.reload_chan then r else record r { reload_chan = true }

-- One turn of a loop, that of this connection or of one that was just lost: `loaded` is what
-- `LoadClientConfig` gives at that time, and `listen` what the server answers to the tunnels that the
-- reload creates.
unfoldable pub reload_loop : Option ClientConfig → (TunnelConfig → Option ℕ) → Running → Running
reload_loop loaded listen r =
    let reloaded = reload_tunnels loaded r.client in
    if r.reload_chan
    then record r {
      client = create_all listen reloaded.to_create reloaded.client;
      reload_chan = false;
    }
    else r

-- `ssh.Dial` succeeds, and a goroutine creates each tunnel of the configuration.
unfoldable pub connect : (TunnelConfig → Option ℕ) → Running → Running
connect listen r = record r { client = create_all listen r.client.cfg.tunnels r.client }

-- `client.Wait` returns. No handle is removed.
unfoldable pub lose_connection : Running → Running
lose_connection r = r

-- A signal and the command `reload` of the control socket trigger alike.
pub data Event : Type 0 where
  triggers loses : Event
  connects : (listen : TunnelConfig → Option ℕ) → Event
  turns : (loaded : Option ClientConfig) (listen : TunnelConfig → Option ℕ) → Event

unfoldable pub step : Event → Running → Running
unfolding trigger_reload reload_loop connect lose_connection
step triggers r = trigger_reload r
step loses r = lose_connection r
step (connects listen) r = connect listen r
step (turns loaded listen) r = reload_loop loaded listen r

unfoldable pub run : List Event → Running → Running
unfolding step
run [] r = r
run (e ∷ l) r = run l (step e r)
