-- ===== src/Server/Connections.antt =====
-- pkg/server/server.go, acceptClientConnections and handleClientConnection: the connections on the
-- tunnels of a session, with the semaphore and the counter of each tunnel.
pub mod Counts
pub mod Steps
pub mod Race
pub mod Grants
pub mod Reach
mod Tests
use tbore.Base.{
  ℕ, suc, ◌<◌, ◌≡◌, ◌==◌, nat_eq, if◌then◌else◌, Bool, true, false, List, [], ◌∷◌, Option, none,
  some,
}
use mathlib.Core.Option
use tbore.Base.Int.{ℤ, pos, ◌≤ℤ◌, increment32, decrement32}
use tbore.Base.GoMap.{GoMap, lookup, insert}
use tbore.Config.{ServerConfig}
use tbore.Server.Session.{
  Session, TunnelInfo, ForwardMsg, tunnel_state_active, tunnel_state_error, close, update_tunnel,
  handle_forward_request, handle_cancel_forward_request,
}

-- What is used of golang.org/x/sync/semaphore with weight 1. `none` is a `TryAcquire` that answers
-- false, and a `Release` that panics.
pub record Semaphore : Type 1 where
  pub Sem : Type 0
  pub new_weighted : ℤ → Sem
  pub try_acquire : Sem → Option Sem
  pub release : Sem → Option Sem

-- `held` counts what was acquired and not released; to release more than that panics. Nothing waits,
-- since the blocking `Acquire` is not called, so `TryAcquire` answers true as long as there is room.
pub record IsSemaphore (W : Semaphore) : Type 0 where
  pub held : W.Sem → ℕ
  pub size : W.Sem → ℤ
  pub new_weighted : (n : ℤ) → (held (W.new_weighted n) ≡ 0) × (size (W.new_weighted n) ≡ n)
  pub try_acquire :
      (s s' : W.Sem)
      → W.try_acquire s ≡ some s'
      → (held s' ≡ suc (held s)) × (size s' ≡ size s) × (pos (suc (held s)) ≤ℤ size s)
  pub try_acquire_room :
      (s : W.Sem) → pos (suc (held s)) ≤ℤ size s → (s' : W.Sem) × (W.try_acquire s ≡ some s')
  pub release :
      (s : W.Sem)
      → 0 < held s
      → (s' : W.Sem) × (W.release s ≡ some s') × (suc (held s') ≡ held s) × (size s' ≡ size s)
  pub release_free : (s : W.Sem) → held s ≡ 0 → W.release s ≡ none

module _ (W : Semaphore) where
  -- `sems` maps the address of a tunnel to its `connSem`. A goroutine of handleClientConnection is in
  -- `accepted`, with its port, until it has read the map of tunnels, and then in `serving`, with the
  -- address of the tunnel that it read.
  pub record Traffic : Type 0 where
    pub session : Session
    pub sems : GoMap ℕ W.Sem
    pub accepted : List ℕ
    pub serving : List ℕ

-- What handleClientConnection writes at its end to the tunnel that it read. `ActiveConns--` takes no lock:
-- `seen` is the counter that the goroutine has read for it, which others may have changed since.
unfoldable pub leave_tunnel : Bool → ℤ → TunnelInfo → TunnelInfo
leave_tunnel failed seen x = record x {
  state = if failed then tunnel_state_error else x.state;
  active_conns = decrement32 seen;
}

module _ {W : Semaphore} where
  -- One round of the loop of acceptClientConnections, from the connection on. `ActiveConns++` takes no lock
  -- either: `seen` is the counter that the loop has read.
  unfoldable pub accept_connection : ℕ → ℤ → Traffic W → Traffic W
  unfolding update_tunnel
  accept_connection port seen t =
      let admit = λ (sems : GoMap ℕ W.Sem). record t {
        session =
            update_tunnel port
              (λ x. record x { state = tunnel_state_active; active_conns = increment32 seen })
              t.session;
        sems = sems;
        accepted = port ∷ t.accepted;
      } in
      elim (lookup port t.session.tunnels) [
        | none ↦ t
        | some a ↦ elim (lookup a t.sems) [
          | none ↦ admit t.sems
          | some sem ↦ elim (W.try_acquire sem) [
            | none ↦ t
            | some sem' ↦ admit (insert a sem' t.sems)
          ]
        ]
      ]

  -- `tunnel := connInfo.Tunnels[actualPort]`; without a tunnel the goroutine ends and does nothing.
  unfoldable pub start_connection : ℕ → Traffic W → Traffic W
  unfolding close
  start_connection port t = record t {
    accepted = close port t.accepted;
    serving = elim (lookup port t.session.tunnels) [ none ↦ t.serving | some a ↦ a ∷ t.serving ];
  }

  -- Its end: `failed` says whether `OpenChannel` failed. `none` is a panic, which ends the server.
  unfoldable pub end_connection : Bool → ℤ → ℕ → Traffic W → Option (Traffic W)
  unfolding leave_tunnel close
  end_connection failed seen a t =
      let leave = λ (sems : GoMap ℕ W.Sem). record t {
        session = record t.session {
          heap = elim (lookup a t.session.heap) [
            | none ↦ t.session.heap
            | some x ↦ insert a (leave_tunnel failed seen x) t.session.heap
          ];
        };
        sems = sems;
        serving = close a t.serving;
      } in
      elim (lookup a t.sems) [
        | none ↦ some (leave t.sems)
        | some sem ↦ elim (W.release sem) [
          | none ↦ none
          | some sem' ↦ some (leave (insert a sem' t.sems))
        ]
      ]

  -- The requests that make and remove tunnels. A new tunnel gets a new semaphore, at its address.
  unfoldable pub forward : ServerConfig → (ℕ → Option ℕ) → ForwardMsg → Traffic W → Traffic W
  forward cfg listen msg t =
      let (s, answer) = handle_forward_request cfg listen msg t.session in
      record t {
        session = s;
        sems =
            if answer.accepted
            then insert t.session.next (W.new_weighted cfg.max_conns_per_tunnel) t.sems
            else t.sems;
      }

  unfoldable pub cancel : ForwardMsg → Traffic W → Traffic W
  cancel msg t = record t { session = (handle_cancel_forward_request msg t.session).0 }
