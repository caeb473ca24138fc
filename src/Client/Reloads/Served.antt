-- ===== src/Client/Reloads/Served.antt =====
-- After a reload is triggered the client comes to serve the tunnels of its file.
use tbore.Base.{
  ◌≡◌, refl, ap, subst, ◌∙◌, sym, inl, inr, ◌⊎◌, String, string_eq, nat_eq, All, true, List, [],
  ◌∷◌, Option, none, some, arith, ℕ, Bool-cases,
}
use tbore.Base.GoMap.{GoMap, NodupKeys, lookup, insert, lookup-insert}
use tbore.Config.{TunnelConfig, ClientConfig, validate_client}
use tbore.Client.Tunnels.{Client, TunnelHandle, by_name, create_all, create_tunnel}
use tbore.Client.Tunnels.Same.{Serves, IsSame-refl}
use tbore.Client.Tunnels.Reload.{
  missing, left_over, handle_of, lookup-create_tunnel, reloaded-Serves,
}
use tbore.Client.Reloads.{
  Running, Event, triggers, loses, connects, turns, trigger_reload, reload_loop, connect,
  lose_connection, step, run,
}
use tbore.Client.Reloads.Names.{
  create_all-Spares, create_all-NodupKeys, by_name-Spares, reloaded, reloaded-NodupKeys,
  reloaded_spared,
}
use tbore.Client.Reloads.Triggers.{Finds, trigger_reload-client, create_all-cfg, reload_loop-cfg}

missing-none : (held : Option TunnelHandle) → missing held none ≡ none
missing-none none = refl
missing-none (some h) = refl

left_over-none : (held : Option TunnelHandle) → left_over held none held ≡ none
left_over-none none = refl
left_over-none (some h) = refl

module _ (cfg : ClientConfig) (valid : validate_client cfg ≡ none) where
  -- No name that the configuration lacks has a handle.
  abbrev IsNoMore : Client → Type 0
  IsNoMore c = (n : String) → lookup n (by_name cfg.tunnels []) ≡ none → lookup n c.tunnels ≡ none

  -- A signal waits, or the configuration is in use.
  record Expects (r : Running) : Type 0 where
    unique : NodupKeys r.client.tunnels
    waits : (r.reload_chan ≡ true) ⊎ ((r.client.cfg ≡ cfg) × IsNoMore r.client)

  reload_loop-IsNoMore :
      (listen : TunnelConfig → Option ℕ) (r : Running)
      → r.reload_chan ≡ true
      → NodupKeys r.client.tunnels
      → IsNoMore (reload_loop (some cfg) listen r).client
  unfolding reload_loop
  reload_loop-IsNoMore listen r full unique n absent =
      let held = lookup n r.client.tunnels in
      let nothing : missing held (lookup n (by_name cfg.tunnels [])) ≡ none =
        rw absent (missing-none held) in
      rw full (
        reloaded_spared cfg r.client listen valid unique n nothing
        ∙ rw absent (left_over-none held))

  connect-IsNoMore :
      (listen : TunnelConfig → Option ℕ) (r : Running)
      → r.client.cfg ≡ cfg
      → IsNoMore r.client
      → IsNoMore (connect listen r).client
  unfolding connect
  connect-IsNoMore listen r own no_more n absent =
      let lacks = ap (λ c. lookup n (by_name c.tunnels [])) own ∙ absent in
      let (spares, _) = by_name-Spares listen n r.client.cfg.tunnels [] lacks in
      create_all-Spares listen n r.client.cfg.tunnels r.client spares ∙ no_more n absent

  trigger_reload-Expects : (r : Running) → NodupKeys r.client.tunnels → Expects (trigger_reload r)
  trigger_reload-Expects r unique = record {
    unique = rw (trigger_reload-client r) unique;
    waits = inl (unfold trigger_reload in ground arith);
  }

  step-Expects : (e : Event) (r : Running) → Finds cfg e → Expects r → Expects (step e r)
  unfolding step
  step-Expects triggers r finds x = trigger_reload-Expects r x.unique
  step-Expects loses r finds x = unfold lose_connection in x
  step-Expects (connects listen) r finds x = record {
    unique = unfold connect in create_all-NodupKeys listen r.client.cfg.tunnels r.client x.unique;
    waits = elim x.waits [
      | inl full ↦ inl (unfold connect in full)
      | inr (own, no_more) ↦ inr (
        (unfold connect in create_all-cfg listen r.client.cfg.tunnels r.client ∙ own),
        connect-IsNoMore listen r own no_more,
      )
    ];
  }
  step-Expects (turns loaded listen) r finds x = elim (Bool-cases r.reload_chan) [
    | inr empty ↦
        let idle : reload_loop loaded listen r ≡ r = unfold reload_loop in ground (arith, empty) in
        rw idle x
    | inl full ↦ rw finds (record {
      unique =
          unfold reload_loop in rw full (reloaded-NodupKeys cfg r.client listen valid x.unique);
      waits =
          inr
            (reload_loop-cfg cfg listen r valid full, reload_loop-IsNoMore listen r full x.unique);
    })
  ]

  run-Expects : (l : List Event) (r : Running) → All (Finds cfg) l → Expects r → Expects (run l r)
  unfolding run
  run-Expects [] r finds x = x
  run-Expects (e ∷ l) r finds x = run-Expects l (step e r) finds.1 (step-Expects e r finds.0 x)

-- What stands under a name once every tunnel of a list is created: the last one of that name.
abbrev latest :
    Option TunnelConfig → Option TunnelHandle → (TunnelConfig → TunnelHandle) → Option TunnelHandle
latest none old made = old
latest (some t) old made = some (made t)

module _ (listen : TunnelConfig → Option ℕ)
    (grants : (t : TunnelConfig) → (port : ℕ) × (listen t ≡ some port)) (n : String)
    (old : Option TunnelHandle) where
  create_all-latest :
      (ts : List TunnelConfig) (m : GoMap String TunnelConfig) (c : Client)
      → lookup n c.tunnels ≡ latest (lookup n m) old (handle_of listen grants)
      → lookup n (create_all listen ts c).tunnels
        ≡ latest (lookup n (by_name ts m)) old (handle_of listen grants)
  unfolding create_all by_name
  create_all-latest [] m c before = before
  create_all-latest (t ∷ ts) m c before =
      let made = lookup-create_tunnel listen grants t c n in
      let there = lookup-insert n t.name t m in
      create_all-latest ts (insert t.name t m) (create_tunnel (listen t) t c).0
        (elim (string_eq.dec n t.name) [
          | yes same ↦
              let first : lookup n (create_tunnel (listen t) t c).0.tunnels
                  ≡ some (handle_of listen grants t) =
                ground (arith, made, same) in
              let second : lookup n (insert t.name t m) ≡ some t = ground (arith, there, same) in
              rw (first, second) refl
          | no other ↦
              let first : lookup n (create_tunnel (listen t) t c).0.tunnels ≡ lookup n c.tunnels =
                ground (arith, made, other) in
              let second : lookup n (insert t.name t m) ≡ lookup n m =
                ground (arith, there, other) in
              rw (first, second) before
        ])

latest-Serves :
    (wanted : Option TunnelConfig) (old : Option TunnelHandle) (made : TunnelConfig → TunnelHandle)
    → ((t : TunnelConfig) → (made t).tunnel ≡ t)
    → (wanted ≡ none → old ≡ none)
    → Serves (latest wanted old made) wanted
latest-Serves none old made own gone = rw (gone refl) tt
latest-Serves (some t) old made own gone = rw (own t) (IsSame-refl t)

-- After a reload is triggered, if from then on every turn of the reload loop finds the same valid
-- configuration, and once a connection is made that is granted its tunnels and the loop has a turn that
-- is granted its own: every name is served as the configuration has it.
pub triggered_served :
    (cfg : ClientConfig) (l : List Event) (r : Running) (listen listen' : TunnelConfig → Option ℕ)
    (n : String)
    → validate_client cfg ≡ none
    → NodupKeys r.client.tunnels
    → All (Finds cfg) l
    → ((t : TunnelConfig) → (port : ℕ) × (listen t ≡ some port))
    → ((t : TunnelConfig) → (port : ℕ) × (listen' t ≡ some port))
    → Serves
        (lookup n
          (step
            (turns (some cfg) listen')
            (step (connects listen) (run l (trigger_reload r)))).client.tunnels)
        (lookup n (by_name cfg.tunnels []))
unfolding step
triggered_served cfg l r listen listen' n valid unique finds grants grants' =
    let wanted = lookup n (by_name cfg.tunnels []) in
    let x0 = trigger_reload-Expects cfg valid r unique in
    let s = run l (trigger_reload r) in
    let x = run-Expects cfg valid l (trigger_reload r) finds x0 in
    let s1 = connect listen s in
    let x1 = step-Expects cfg valid (connects listen) s tt x in
    elim (Bool-cases s1.reload_chan) [
      | inl full ↦
          let turned : (reload_loop (some cfg) listen' s1).client
              ≡ reloaded cfg s1.client listen' valid x1.unique =
            unfold reload_loop in ground (arith, full) in
          subst (λ c. Serves (lookup n c.tunnels) wanted) (sym turned)
            (reloaded-Serves s1.client cfg listen' n x1.unique valid grants')
      | inr empty ↦
          let idle : reload_loop (some cfg) listen' s1 ≡ s1 =
            unfold reload_loop in ground (arith, empty) in
          let (own, no_more) : (s.client.cfg ≡ cfg) × IsNoMore cfg valid s.client = elim x.waits [
            | inl full ↦ absurd (unfold connect in ground (arith, full, empty))
            | inr used ↦ used
          ] in
          let old = lookup n s.client.tunnels in
          let made =
            create_all-latest listen grants n old s.client.cfg.tunnels [] s.client
              (unfold lookup in refl)
            ∙ ap (λ c. latest (lookup n (by_name c.tunnels [])) old (handle_of listen grants))
                own in
          subst (λ y. Serves (lookup n y.client.tunnels) wanted) (sym idle)
            (unfold connect in
              subst (λ o. Serves o wanted) (sym made)
                (latest-Serves wanted old (handle_of listen grants) (λ t. refl) (no_more n)))
    ]
