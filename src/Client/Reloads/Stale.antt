-- ===== src/Client/Reloads/Stale.antt =====
-- A tunnel that is lost with its connection.
use tbore.Base.{
  ◌≡◌, refl, ◌∙◌, inl, inr, ◌⊎◌, String, string_eq, All, true, List, [], ◌∷◌, Option, none, some,
  arith, ℕ, Bool-cases,
}
use tbore.Base.GoMap.{NodupKeys, lookup}
use tbore.Config.{TunnelConfig, ClientConfig, validate_client}
use tbore.Client.Tunnels.{TunnelHandle, by_name, create_all, reload_tunnels}
use tbore.Client.Tunnels.Same.{IsSame, is_changed_iff}
use tbore.Client.Tunnels.Reload.{missing}
use tbore.Client.Reloads.{
  Running, Event, triggers, loses, connects, turns, reload_loop, connect, lose_connection, step,
  run,
}
use tbore.Client.Reloads.Names.{
  Spares, create_all-Spares, create_all-NodupKeys, reloaded-NodupKeys, reloaded_spared,
}
use tbore.Client.Reloads.Triggers.{trigger_reload-client, create_all-cfg, reload_loop-cfg}

-- The server grants no new connection a tunnel of this name, and the file has the same configuration as
-- before, or cannot be loaded. A reload is granted whatever it asks for, or not.
abbrev pub Refuses : ClientConfig → String → Event → Type 0
Refuses cfg n triggers = Unit
Refuses cfg n loses = Unit
Refuses cfg n (connects listen) = (t : TunnelConfig) → Spares listen n t
Refuses cfg n (turns loaded listen) = (loaded ≡ none) ⊎ (loaded ≡ some cfg)

All-Spares :
    (listen : TunnelConfig → Option ℕ) (n : String) (ts : List TunnelConfig)
    → ((t : TunnelConfig) → Spares listen n t)
    → All (Spares listen n) ts
All-Spares listen n [] spares = tt
All-Spares listen n (t ∷ ts) spares = (spares t, All-Spares listen n ts spares)

reload_loop_unread :
    (listen : TunnelConfig → Option ℕ) (r : Running) → (reload_loop none listen r).client ≡ r.client
unfolding reload_loop reload_tunnels create_all
reload_loop_unread listen r = elim (Bool-cases r.reload_chan) [
  | inl full ↦ rw (full, reload_loop) refl
  | inr empty ↦ rw (empty, reload_loop) refl
]

module _ (cfg : ClientConfig) (n : String) (h : TunnelHandle) (t : TunnelConfig)
    (valid : validate_client cfg ≡ none) (wanted : lookup n (by_name cfg.tunnels []) ≡ some t)
    (same : IsSame h.tunnel t) where
  -- The handle stands under its name, in a client with this configuration.
  record Keeps (r : Running) : Type 0 where
    own : r.client.cfg ≡ cfg
    unique : NodupKeys r.client.tunnels
    held : lookup n r.client.tunnels ≡ some h

  reload_loop-Keeps :
      (listen : TunnelConfig → Option ℕ) (r : Running)
      → r.reload_chan ≡ true
      → Keeps r
      → Keeps (reload_loop (some cfg) listen r)
  reload_loop-Keeps listen r full k =
      let unchanged = (is_changed_iff h.tunnel t).1 same in
      let nothing : missing (lookup n r.client.tunnels) (lookup n (by_name cfg.tunnels [])) ≡ none =
        ground (arith, k.held, wanted, unchanged) in
      let stays = reloaded_spared cfg r.client listen valid k.unique n nothing in
      record {
        own = reload_loop-cfg cfg listen r valid full;
        unique =
            unfold reload_loop in rw full (reloaded-NodupKeys cfg r.client listen valid k.unique);
        held = unfold reload_loop in rw full (stays ∙ ground (arith, k.held, wanted, unchanged));
      }

  step-Keeps : (e : Event) (r : Running) → Refuses cfg n e → Keeps r → Keeps (step e r)
  unfolding step
  step-Keeps triggers r refuses k = record {
    own = rw (trigger_reload-client r) k.own;
    unique = rw (trigger_reload-client r) k.unique;
    held = rw (trigger_reload-client r) k.held;
  }
  step-Keeps loses r refuses k = unfold lose_connection in k
  step-Keeps (connects listen) r refuses k = record {
    own = unfold connect in create_all-cfg listen r.client.cfg.tunnels r.client ∙ k.own;
    unique = unfold connect in create_all-NodupKeys listen r.client.cfg.tunnels r.client k.unique;
    held =
        unfold connect in
        create_all-Spares listen n r.client.cfg.tunnels r.client
          (All-Spares listen n r.client.cfg.tunnels refuses)
        ∙ k.held;
  }
  step-Keeps (turns loaded listen) r refuses k = elim (Bool-cases r.reload_chan) [
    | inr empty ↦
        let idle : reload_loop loaded listen r ≡ r = unfold reload_loop in ground (arith, empty) in
        rw idle k
    | inl full ↦ elim refuses [
      | inr finds ↦ rw finds (reload_loop-Keeps listen r full k)
      | inl unread ↦
          let idle = reload_loop_unread listen r in
          rw unread
            (record { own = rw idle k.own; unique = rw idle k.unique; held = rw idle k.held })
    ]
  ]

  run-Keeps : (l : List Event) (r : Running) → All (Refuses cfg n) l → Keeps r → Keeps (run l r)
  unfolding run
  run-Keeps [] r refuses k = k
  run-Keeps (e ∷ l) r refuses k = run-Keeps l (step e r) refuses.1 (step-Keeps e r refuses.0 k)

-- In a client whose tunnels have different names, and whose valid configuration has the tunnel of a
-- handle under its name: after the connection is lost, and through whatever lost and new connections,
-- signals and turns of the reload loop follow, as long as no new connection is granted a tunnel
-- of that name and the file has the same configuration or cannot be loaded, the handle of the lost
-- connection stays under its name. No reload creates the tunnel again, though the server would grant it.
pub lost_tunnel_kept :
    (r : Running) (n : String) (h : TunnelHandle) (t : TunnelConfig) (l : List Event)
    → NodupKeys r.client.tunnels
    → validate_client r.client.cfg ≡ none
    → lookup n r.client.tunnels ≡ some h
    → lookup n (by_name r.client.cfg.tunnels []) ≡ some t
    → IsSame h.tunnel t
    → All (Refuses r.client.cfg n) l
    → lookup n (run (loses ∷ l) r).client.tunnels ≡ some h
lost_tunnel_kept r n h t l unique valid held wanted same refuses =
    (run-Keeps r.client.cfg n h t valid wanted same (loses ∷ l) r (tt, refuses)
      (record { own = refl; unique = unique; held = held })).held
