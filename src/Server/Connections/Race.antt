-- ===== src/Server/Connections/Race.antt =====
-- A connection that is accepted on a tunnel which the client then gives back and asks for again.
use tbore.Base.{
  ℕ, suc, ◌≡◌, refl, ap, ◌∙◌, nat_eq, length, Bool, true, ◌∷◌, Option, none, some, arith,
}
use tbore.Base.Int.{ℤ, pos, ◌≤ℤ◌}
use tbore.Base.GoMap.{GoMap, lookup, insert, delete, lookup-insert, length-delete}
use tbore.Config.{ServerConfig, is_valid_port}
use tbore.Server.Session.{
  Session, TunnelInfo, ForwardMsg, update_tunnel, add_tunnel, handle_forward_request,
  handle_cancel_forward_request,
}
use tbore.Server.Session.Invariant.{IsValid}
use tbore.Server.Connections.{
  Semaphore, IsSemaphore, Traffic, accept_connection, start_connection, end_connection, forward,
  cancel,
}

pub lookup-insert_self {ℓ} :
    {V : Type ℓ} (k : ℕ) (v : V) (m : GoMap ℕ V) → lookup k (insert k v m) ≡ some v
lookup-insert_self k v m = ground (arith, lookup-insert k k v m)

update_tunnel-tunnels :
    (port : ℕ) (f : TunnelInfo → TunnelInfo) (s : Session)
    → ((update_tunnel port f s).tunnels ≡ s.tunnels) × ((update_tunnel port f s).next ≡ s.next)
unfolding update_tunnel
update_tunnel-tunnels port f s = (ground arith, ground arith)

module _ {W : Semaphore} where
  -- A connection that is admitted starts a goroutine, and neither makes nor removes a tunnel.
  accept_connection_lem :
      (port a : ℕ) (seen : ℤ) (t : Traffic W) (sem sem' : W.Sem)
      → lookup port t.session.tunnels ≡ some a
      → lookup a t.sems ≡ some sem
      → W.try_acquire sem ≡ some sem'
      → ((accept_connection port seen t).session.tunnels ≡ t.session.tunnels)
        × ((accept_connection port seen t).session.next ≡ t.session.next)
        × ((accept_connection port seen t).serving ≡ t.serving)
        × ((accept_connection port seen t).accepted ≡ port ∷ t.accepted)
  unfolding accept_connection
  accept_connection_lem port a seen t sem sem' bound guarded room = (
    ground (arith, bound, guarded, room, update_tunnel-tunnels port),
    ground (arith, bound, guarded, room, update_tunnel-tunnels port),
    ground (arith, bound, guarded, room),
    ground (arith, bound, guarded, room),
  )

  pub forward_lem :
      (cfg : ServerConfig) (listen : ℕ → Option ℕ) (msg : ForwardMsg) (t : Traffic W)
      → is_valid_port cfg msg.port ≡ true
      → pos (suc (length t.session.tunnels)) ≤ℤ cfg.max_tunnels
      → listen msg.port ≡ some msg.port
      → forward cfg listen msg t ≡ record t {
        session = add_tunnel cfg msg msg.port t.session;
        sems = insert t.session.next (W.new_weighted cfg.max_conns_per_tunnel) t.sems;
      }
  unfolding forward handle_forward_request
  forward_lem cfg listen msg t valid room bound = ground (arith, valid, room, bound)

  -- The goroutine of a connection reads the tunnel that stands on its port by then.
  start_connection_lem :
      (port a : ℕ) (t : Traffic W)
      → lookup port t.session.tunnels ≡ some a
      → ((start_connection port t).serving ≡ a ∷ t.serving)
        × ((start_connection port t).sems ≡ t.sems)
  unfolding start_connection
  start_connection_lem port a t bound = (ground (arith, bound), refl)

  end_connection_lem :
      (laws : IsSemaphore W) (failed : Bool) (seen : ℤ) (a : ℕ) (n : ℤ) (t : Traffic W)
      → lookup a t.sems ≡ some (W.new_weighted n)
      → end_connection failed seen a t ≡ none
  unfolding end_connection
  end_connection_lem laws failed seen a n t guarded =
      let free = laws.release_free (W.new_weighted n) (laws.new_weighted n).0 in
      ground (arith, guarded, free)

  cancel_lem :
      (msg : ForwardMsg) (a : ℕ) (t : Traffic W)
      → lookup msg.port t.session.tunnels ≡ some a
      → ((cancel msg t).session.tunnels ≡ delete msg.port t.session.tunnels)
        × ((cancel msg t).session.next ≡ t.session.next)
        × ((cancel msg t).sems ≡ t.sems)
        × ((cancel msg t).serving ≡ t.serving)
        × ((cancel msg t).accepted ≡ t.accepted)
  unfolding cancel handle_cancel_forward_request
  cancel_lem msg a t bound = (ground (arith, bound), ground (arith, bound), refl, refl, refl)

-- In a valid session with a tunnel on a valid port whose semaphore has room: if a connection is
-- accepted there, and before its goroutine reads the map of tunnels the client gives the port back
-- and is granted it again, then the goroutine serves the new tunnel, and its end releases a semaphore
-- of which nothing is held. That is a panic.
pub released_twice :
    {W : Semaphore} (laws : IsSemaphore W) (cfg : ServerConfig) (listen : ℕ → Option ℕ)
    (msg : ForwardMsg) (t : Traffic W) (a : ℕ) (sem sem' : W.Sem) (failed : Bool) (seen seen' : ℤ)
    → IsValid cfg t.session
    → is_valid_port cfg msg.port ≡ true
    → listen msg.port ≡ some msg.port
    → lookup msg.port t.session.tunnels ≡ some a
    → lookup a t.sems ≡ some sem
    → W.try_acquire sem ≡ some sem'
    → ((accept_connection msg.port seen t).accepted ≡ msg.port ∷ t.accepted)
      × ((start_connection msg.port
            (forward cfg listen msg (cancel msg (accept_connection msg.port seen t)))).serving
          ≡ t.session.next ∷ t.serving)
      × (end_connection failed seen' t.session.next (
            start_connection msg.port
              (forward cfg listen msg (cancel msg (accept_connection msg.port seen t))))
          ≡ none)
unfolding add_tunnel
released_twice {W} laws cfg listen msg t a sem sem' failed seen seen' v valid listens bound guarded
      room =
    let (tunnels₁, next₁, serving₁, accepted₁) =
      accept_connection_lem msg.port a seen t sem sem' bound guarded room in
    let t₁ = accept_connection msg.port seen t in
    let bound₁ : lookup msg.port t₁.session.tunnels ≡ some a =
      ap (lookup msg.port) tunnels₁ ∙ bound in
    let (tunnels₂, next₂, sems₂, serving₂, _) = cancel_lem msg a t₁ bound₁ in
    let t₂ = cancel msg t₁ in
    let fewer = length-delete msg.port a t.session.tunnels v.unique bound in
    let same : t₂.session.tunnels ≡ delete msg.port t.session.tunnels =
      tunnels₂ ∙ ap (delete msg.port) tunnels₁ in
    let free : pos (suc (length t₂.session.tunnels)) ≤ℤ cfg.max_tunnels =
      rw same (omega (arith, fewer, v.limited)) in
    let granted = forward_lem cfg listen msg t₂ valid free listens in
    let t₃ = forward cfg listen msg t₂ in
    let next : t₂.session.next ≡ t.session.next = next₂ ∙ next₁ in
    let again : lookup msg.port t₃.session.tunnels ≡ some t.session.next =
      ap (λ x. lookup msg.port x.session.tunnels) granted
      ∙ lookup-insert_self msg.port t₂.session.next t₂.session.tunnels
      ∙ ap some next in
    let (serving₄, sems₄) = start_connection_lem msg.port t.session.next t₃ again in
    let new = W.new_weighted cfg.max_conns_per_tunnel in
    let guarded₄ : lookup t.session.next (start_connection msg.port t₃).sems ≡ some new =
      ap (lookup t.session.next) sems₄
      ∙ ap (λ x. lookup t.session.next x.sems) granted
      ∙ ap (λ k. lookup t.session.next (insert k new t₂.sems)) next
      ∙ lookup-insert_self t.session.next new t₂.sems in
    (
      accepted₁,
      serving₄ ∙ ap (λ l. t.session.next ∷ l) (ap (λ x. x.serving) granted ∙ serving₂ ∙ serving₁),
      end_connection_lem laws failed seen' t.session.next cfg.max_conns_per_tunnel
          (start_connection msg.port t₃) guarded₄,
    )
