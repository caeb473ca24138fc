-- ===== src/Client/Tunnels/Reload.antt =====
-- A reload leaves the tunnels of the new configuration.
use tbore.Base.{
  ◌↔◌, ℕ, ◌≡◌, refl, sym, subst, ◌∙◌, inl, inr, ◌==◌, nat_eq, string_eq, String, if◌then◌else◌,
  true, [], ◌∷◌, Option, none, some, arith, Option-cases, Bool-cases,
}
use mathlib.Core.Option.{some-injective, none-ne-some}
use tbore.Base.GoMap.{GoMap, lookup, NodupKeys, lookup-insert, lookup-delete}
use tbore.Config.{TunnelConfig, ClientConfig, validate_client}
use tbore.Client.Tunnels.Named.{IsNamed, by_name-IsNamed, compare_all-IsNamed}
use tbore.Client.Tunnels.Same.{IsSame, IsSame-refl, IsWanted, Serves, is_changed_iff}
use tbore.Client.Tunnels.{
  TunnelHandle, Client, Progress, create_tunnel, is_changed, by_name, cancel_tunnel, compare_tunnel,
  compare_all, values, reload_tunnels, create_all,
}

-- What a reload keeps under a name: the handle, if its tunnel is still wanted as it is.
abbrev pub kept : Option TunnelHandle → Option TunnelConfig → Option TunnelHandle
kept none _ = none
kept (some h) none = none
kept (some h) (some t) = if is_changed h.tunnel t then none else some h

-- What it creates: the tunnel that is wanted, unless a handle serves it.
abbrev pub missing : Option TunnelHandle → Option TunnelConfig → Option TunnelConfig
missing _ none = none
missing none (some t) = some t
missing (some h) (some t) = if is_changed h.tunnel t then some t else none

-- What stands under a name after it was compared, if `held` stood there before.
abbrev pub left_over :
    Option TunnelHandle → Option TunnelConfig → Option TunnelHandle → Option TunnelHandle
left_over none _ held = held
left_over (some h) none held = none
left_over (some h) (some t) held = if is_changed h.tunnel t then none else held

module _ (k : String) (h : TunnelHandle) (p : Progress) (n : String) where
  tunnels-compare_tunnel : lookup n (compare_tunnel k h p).tunnels ≡ (
      if n == k
      then left_over (some h) (lookup k p.new_tunnels) (lookup n p.tunnels)
      else lookup n p.tunnels)
  unfolding compare_tunnel cancel_tunnel
  tunnels-compare_tunnel = elim (Option-cases (lookup k p.new_tunnels)) [
    | inl gone ↦ ground (arith, gone, lookup-delete n k p.tunnels)
    | inr (t, wanted) ↦ ground (arith, wanted, lookup-delete n k p.tunnels)
  ]

  new_tunnels-compare_tunnel :
      lookup n (compare_tunnel k h p).new_tunnels
      ≡ (if n == k then missing (some h) (lookup k p.new_tunnels) else lookup n p.new_tunnels)
  unfolding compare_tunnel cancel_tunnel
  new_tunnels-compare_tunnel = elim (Option-cases (lookup k p.new_tunnels)) [
    | inl gone ↦ ground (arith, gone)
    | inr (t, wanted) ↦ ground (arith, wanted, lookup-delete n k p.new_tunnels)
  ]

pub tunnels-compare_all :
    (l : GoMap String TunnelHandle) (p : Progress) (n : String)
    → NodupKeys l
    → lookup n (compare_all l p).tunnels
      ≡ left_over (lookup n l) (lookup n p.new_tunnels) (lookup n p.tunnels)
unfolding compare_all lookup
tunnels-compare_all [] p n u = refl
tunnels-compare_all ((k, h) ∷ l) p n u = ground (
  arith,
  tunnels-compare_all l (compare_tunnel k h p) n u.1,
  tunnels-compare_tunnel k h p n,
  new_tunnels-compare_tunnel k h p n,
)

pub new_tunnels-compare_all :
    (l : GoMap String TunnelHandle) (p : Progress) (n : String)
    → NodupKeys l
    → lookup n (compare_all l p).new_tunnels ≡ missing (lookup n l) (lookup n p.new_tunnels)
unfolding compare_all lookup
new_tunnels-compare_all [] p n u = elim (Option-cases (lookup n p.new_tunnels)) [
  | inl gone ↦ ground (arith, gone)
  | inr (t, wanted) ↦ ground (arith, wanted)
]
new_tunnels-compare_all ((k, h) ∷ l) p n u = ground (
  arith,
  new_tunnels-compare_all l (compare_tunnel k h p) n u.1,
  new_tunnels-compare_tunnel k h p n,
)

module _ (listen : TunnelConfig → Option ℕ)
    (grants : (t : TunnelConfig) → (port : ℕ) × (listen t ≡ some port)) where
  abbrev pub handle_of : TunnelConfig → TunnelHandle
  handle_of t = record { tunnel = t; actual_port = (grants t).0; active = true }

  pub lookup-create_tunnel :
      (t : TunnelConfig) (c : Client) (n : String)
      → lookup n (create_tunnel (listen t) t c).0.tunnels
        ≡ (if n == t.name then some (handle_of t) else lookup n c.tunnels)
  unfolding create_tunnel
  lookup-create_tunnel t c n =
      rw ((grants t).1, create_tunnel) (lookup-insert n t.name (handle_of t) c.tunnels)

  pub lookup-create_all :
      (m : GoMap String TunnelConfig) (c : Client) (n : String)
      → IsNamed m
      → NodupKeys m
      → lookup n (create_all listen (values m) c).tunnels
        ≡ (elim (lookup n m) [ none ↦ lookup n c.tunnels | some t ↦ some (handle_of t) ])
  unfolding create_all lookup
  lookup-create_all [] c n u d = refl
  lookup-create_all ((k, v) ∷ m) c n u d = ground (
    arith,
    lookup-create_all m (create_tunnel (listen v) v c).0 n u.1 d.1,
    lookup-create_tunnel v c n,
    u.0,
    d.0,
  )

serves_lem :
    (held rest : Option TunnelHandle) (wanted : Option TunnelConfig)
    (made : TunnelConfig → TunnelHandle)
    → ((t : TunnelConfig) → (made t).tunnel ≡ t)
    → rest ≡ left_over held wanted held
    → Serves (elim (missing held wanted) [ none ↦ rest | some t ↦ some (made t) ]) wanted
serves_lem none rest none made e q = rw q tt
serves_lem none rest (some t) made e q = rw (e t) (IsSame-refl t)
serves_lem (some h) rest none made e q = rw q tt
serves_lem (some h) rest (some t) made e q = elim (Bool-cases (is_changed h.tunnel t)) [
  | inl changed ↦ rw (changed, e t) (IsSame-refl t)
  | inr same ↦
      let stays : rest ≡ some h = ground (arith, same, q) in
      rw (same, stays) ((is_changed_iff h.tunnel t).0 same)
]

left_over_lem :
    (held : Option TunnelHandle) (wanted : Option TunnelConfig)
    → left_over held wanted held ≡ kept held wanted
left_over_lem none wanted = refl
left_over_lem (some h) none = refl
left_over_lem (some h) (some t) = refl

kept_iff :
    (held : Option TunnelHandle) (wanted : Option TunnelConfig) (h : TunnelHandle)
    → (kept held wanted ≡ some h) ↔ ((held ≡ some h) × IsWanted h wanted)
kept_iff none wanted h = (λ q. absurd (none-ne-some h q), λ q. absurd (none-ne-some h q.0))
kept_iff (some g) none h = (λ q. absurd (none-ne-some h q), λ q. absurd q.1)
kept_iff (some g) (some t) h = elim (Bool-cases (is_changed g.tunnel t)) [
  | inl changed ↦ rw changed (
    λ q. absurd (none-ne-some h q),
    λ q.
        let it : h ≡ g = sym (some-injective g h q.0) in
        let unchanged = (is_changed_iff g.tunnel t).1 (subst (λ x. IsSame x.tunnel t) it q.1) in
        absurd (ground (arith, changed, unchanged)),
  )
  | inr same ↦ rw same (
    λ q. (
      q,
      subst (λ x. IsSame x.tunnel t) (some-injective g h q) ((is_changed_iff g.tunnel t).0 same),
    ),
    λ q. q.0,
  )
]

pub reloaded-Serves :
    (c : Client) (new_cfg : ClientConfig) (listen : TunnelConfig → Option ℕ) (n : String)
    → NodupKeys c.tunnels
    → validate_client new_cfg ≡ none
    → ((t : TunnelConfig) → (port : ℕ) × (listen t ≡ some port))
    → Serves
        (lookup n
          (create_all listen
            (reload_tunnels (some new_cfg) c).to_create
            (reload_tunnels (some new_cfg) c).client).tunnels)
        (lookup n (by_name new_cfg.tunnels []))
unfolding reload_tunnels
reloaded-Serves c new_cfg listen n unique valid grants =
    let wanted = by_name new_cfg.tunnels [] in
    let p : Progress = record { tunnels = c.tunnels; new_tunnels = wanted; cancelled = [] } in
    let q = compare_all c.tunnels p in
    let (named, once) = by_name-IsNamed new_cfg.tunnels [] tt tt in
    let (named', once') = compare_all-IsNamed c.tunnels p named once in
    let held = tunnels-compare_all c.tunnels p n unique in
    let lacking = new_tunnels-compare_all c.tunnels p n unique in
    let c' : Client = record c { tunnels = q.tunnels; cfg = new_cfg } in
    rw (valid, reload_tunnels)
      (rw (lookup-create_all listen grants q.new_tunnels c' n named' once', lacking)
        (serves_lem (lookup n c.tunnels) (lookup n q.tunnels) (lookup n wanted)
          (handle_of listen grants) (λ t. refl) held))

reload_tunnels-kept :
    (c : Client) (new_cfg : ClientConfig) (n : String)
    → NodupKeys c.tunnels
    → validate_client new_cfg ≡ none
    → lookup n (reload_tunnels (some new_cfg) c).client.tunnels
      ≡ kept (lookup n c.tunnels) (lookup n (by_name new_cfg.tunnels []))
unfolding reload_tunnels
reload_tunnels-kept c new_cfg n unique valid =
    let wanted = by_name new_cfg.tunnels [] in
    let p : Progress = record { tunnels = c.tunnels; new_tunnels = wanted; cancelled = [] } in
    rw (valid, reload_tunnels)
      (tunnels-compare_all c.tunnels p n unique
        ∙ left_over_lem (lookup n c.tunnels) (lookup n wanted))

-- In a client whose tunnels have different names, after the reload of a valid configuration: a handle
-- stands under a name exactly if it stood there before and the configuration has a tunnel of that
-- name with the same local end, remote port and timeout, where the last tunnel of a name counts; and
-- once the server has granted every tunnel that the reload creates, each name is served by a handle
-- with the local end, the remote port and the timeout that the configuration gives it, and no name
-- that the configuration does not have by any.
pub reload_tunnels-create_all :
    (c : Client) (new_cfg : ClientConfig) (listen : TunnelConfig → Option ℕ) (n : String)
    (h : TunnelHandle)
    → NodupKeys c.tunnels
    → validate_client new_cfg ≡ none
    → ((t : TunnelConfig) → (port : ℕ) × (listen t ≡ some port))
    → ((lookup n (reload_tunnels (some new_cfg) c).client.tunnels ≡ some h)
        ↔ ((lookup n c.tunnels ≡ some h) × IsWanted h (lookup n (by_name new_cfg.tunnels []))))
      × Serves
          (lookup n
            (create_all listen
              (reload_tunnels (some new_cfg) c).to_create
              (reload_tunnels (some new_cfg) c).client).tunnels)
          (lookup n (by_name new_cfg.tunnels []))
reload_tunnels-create_all c new_cfg listen n h unique valid grants = (
  rw (reload_tunnels-kept c new_cfg n unique valid)
      (kept_iff (lookup n c.tunnels) (lookup n (by_name new_cfg.tunnels [])) h),
  reloaded-Serves c new_cfg listen n unique valid grants,
)
