-- ===== src/Client/Reloads/Names.antt =====
-- The names of the tunnels of a client over the goroutines that create them, and over a reload.
use tbore.Base.{
  true, ◌≡◌, ◌≢◌, refl, ◌∙◌, sym, inl, inr, ◌⊎◌, String, string_eq, All, List, [], ◌∷◌, Option,
  none, some, arith, Option-cases, Bool-cases, ℕ,
}
use mathlib.Core.Option.{none-ne-some}
use tbore.Base.GoMap.{
  GoMap, NodupKeys, lookup, insert, lookup-insert, insert-NodupKeys, delete-NodupKeys,
}
use tbore.Config.{TunnelConfig, ClientConfig, validate_client}
use tbore.Client.Tunnels.{
  TunnelHandle, Client, Progress, is_changed, create_tunnel, create_all, compare_tunnel,
  compare_all, cancel_tunnel, by_name, values, reload_tunnels,
}
use tbore.Client.Tunnels.Named.{IsNamed, compare_all-IsNamed, by_name-IsNamed}
use tbore.Client.Tunnels.Reload.{left_over, missing, tunnels-compare_all, new_tunnels-compare_all}

create_tunnel-NodupKeys :
    (listen : Option ℕ) (t : TunnelConfig) (c : Client)
    → NodupKeys c.tunnels
    → NodupKeys (create_tunnel listen t c).0.tunnels
unfolding create_tunnel
create_tunnel-NodupKeys none t c u = u
create_tunnel-NodupKeys (some port) t c u = insert-NodupKeys t.name _ c.tunnels u

pub create_all-NodupKeys :
    (listen : TunnelConfig → Option ℕ) (ts : List TunnelConfig) (c : Client)
    → NodupKeys c.tunnels
    → NodupKeys (create_all listen ts c).tunnels
unfolding create_all
create_all-NodupKeys listen [] c u = u
create_all-NodupKeys listen (t ∷ ts) c u =
    create_all-NodupKeys listen ts (create_tunnel (listen t) t c).0
      (create_tunnel-NodupKeys (listen t) t c u)

compare_tunnel-NodupKeys :
    (k : String) (h : TunnelHandle) (p : Progress)
    → NodupKeys p.tunnels
    → NodupKeys (compare_tunnel k h p).tunnels
unfolding compare_tunnel cancel_tunnel
compare_tunnel-NodupKeys k h p u =
    let less = delete-NodupKeys k p.tunnels u in
    elim (Option-cases (lookup k p.new_tunnels)) [
      | inl gone ↦ rw (gone, compare_tunnel) less
      | inr (t, wanted) ↦ elim (Bool-cases (is_changed h.tunnel t)) [
        | inl changed ↦ rw (wanted, changed, compare_tunnel) less
        | inr same ↦ rw (wanted, same, compare_tunnel) u
      ]
    ]

compare_all-NodupKeys :
    (l : GoMap String TunnelHandle) (p : Progress)
    → NodupKeys p.tunnels
    → NodupKeys (compare_all l p).tunnels
unfolding compare_all
compare_all-NodupKeys [] p u = u
compare_all-NodupKeys ((k, h) ∷ l) p u =
    compare_all-NodupKeys l (compare_tunnel k h p) (compare_tunnel-NodupKeys k h p u)

-- A tunnel of another name, and one that is not granted, leave what stands under a name.
abbrev pub Spares : (TunnelConfig → Option ℕ) → String → TunnelConfig → Type 0
Spares listen n t = (t.name ≢ n) ⊎ (listen t ≡ none)

create_tunnel-Spares :
    (listen : TunnelConfig → Option ℕ) (n : String) (t : TunnelConfig) (c : Client)
    → Spares listen n t
    → lookup n (create_tunnel (listen t) t c).0.tunnels ≡ lookup n c.tunnels
unfolding create_tunnel
create_tunnel-Spares listen n t c spares = elim (Option-cases (listen t)) [
  | inl refused ↦ rw (refused, create_tunnel) refl
  | inr (port, granted) ↦ elim spares [
    | inr refused ↦ absurd (none-ne-some port (sym refused ∙ granted))
    | inl other ↦
        let there =
          lookup-insert n t.name (record { tunnel = t; actual_port = port; active = true })
            c.tunnels in
        rw (granted, create_tunnel) (ground (arith, there, other))
  ]
]

pub create_all-Spares :
    (listen : TunnelConfig → Option ℕ) (n : String) (ts : List TunnelConfig) (c : Client)
    → All (Spares listen n) ts
    → lookup n (create_all listen ts c).tunnels ≡ lookup n c.tunnels
unfolding create_all
create_all-Spares listen n [] c spares = refl
create_all-Spares listen n (t ∷ ts) c spares =
    create_all-Spares listen n ts (create_tunnel (listen t) t c).0 spares.1
    ∙ create_tunnel-Spares listen n t c spares.0

values-Spares :
    (listen : TunnelConfig → Option ℕ) (n : String) (m : GoMap String TunnelConfig)
    → IsNamed m
    → lookup n m ≡ none
    → All (Spares listen n) (values m)
unfolding lookup
values-Spares listen n [] named absent = tt
values-Spares listen n ((k, t) ∷ m) named absent =
    let own : k ≡ t.name = named.0 in
    (inl (ground (arith, absent, own)), values-Spares listen n m named.1 (ground (arith, absent)))

-- No tunnel of the list has a name that the map of the list lacks.
pub by_name-Spares :
    (listen : TunnelConfig → Option ℕ) (n : String) (ts : List TunnelConfig)
    (m : GoMap String TunnelConfig)
    → lookup n (by_name ts m) ≡ none
    → All (Spares listen n) ts × (lookup n m ≡ none)
unfolding by_name
by_name-Spares listen n [] m absent = (tt, absent)
by_name-Spares listen n (t ∷ ts) m absent =
    let (spares, gone) = by_name-Spares listen n ts (insert t.name t m) absent in
    let there = lookup-insert n t.name t m in
    ((inl (ground (arith, there, gone)), spares), ground (arith, there, gone))

module _ (cfg : ClientConfig) (c : Client) (listen : TunnelConfig → Option ℕ)
    (valid : validate_client cfg ≡ none) (unique : NodupKeys c.tunnels) where
  -- The client after the reload, and the goroutines that it starts.
  abbrev pub reloaded : Client
  reloaded =
      create_all listen (reload_tunnels (some cfg) c).to_create (reload_tunnels (some cfg) c).client

  pub reloaded-NodupKeys : NodupKeys reloaded.tunnels
  unfolding reload_tunnels
  reloaded-NodupKeys =
      let p : Progress = record {
        tunnels = c.tunnels;
        new_tunnels = by_name cfg.tunnels [];
        cancelled = [];
      } in
      rw (valid, reload_tunnels)
        (create_all-NodupKeys listen _ _ (compare_all-NodupKeys c.tunnels p unique))

  -- Under a name that the reload creates no tunnel for, it leaves what it keeps.
  pub reloaded_spared :
      (n : String)
      → missing (lookup n c.tunnels) (lookup n (by_name cfg.tunnels [])) ≡ none
      → lookup n reloaded.tunnels
        ≡ left_over (lookup n c.tunnels) (lookup n (by_name cfg.tunnels [])) (lookup n c.tunnels)
  unfolding reload_tunnels
  reloaded_spared n nothing =
      let p : Progress = record {
        tunnels = c.tunnels;
        new_tunnels = by_name cfg.tunnels [];
        cancelled = [];
      } in
      let q = compare_all c.tunnels p in
      let c' : Client = record c { tunnels = q.tunnels; cfg = cfg } in
      let (named, once) = by_name-IsNamed cfg.tunnels [] tt tt in
      let (named', _) = compare_all-IsNamed c.tunnels p named once in
      let absent = new_tunnels-compare_all c.tunnels p n unique ∙ nothing in
      rw (valid, reload_tunnels)
        (create_all-Spares listen n (values q.new_tunnels) c'
            (values-Spares listen n q.new_tunnels named' absent)
          ∙ tunnels-compare_all c.tunnels p n unique)
