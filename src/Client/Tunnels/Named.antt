-- ===== src/Client/Tunnels/Named.antt =====
-- The tunnels that a reload has yet to create stand under their names.
use tbore.Base.{
  ◌≡◌, refl, inl, inr, nat_eq, string_eq, String, All, if◌then◌else◌, true, false, ◌⊎◌, List, [],
  ◌∷◌, arith, Option-cases, Bool-cases, ite,
}
use tbore.Base.GoMap.{GoMap, lookup, insert, delete, NodupKeys, insert-NodupKeys, delete-NodupKeys}
use tbore.Config.{TunnelConfig}
use tbore.Client.Tunnels.{
  TunnelHandle, Progress, is_changed, by_name, cancel_tunnel, compare_tunnel, compare_all,
}

-- Every entry stands under the name of its tunnel.
abbrev pub IsNamed : GoMap String TunnelConfig → Type 0
IsNamed = All (λ e. e.0 ≡ e.1.name)

insert-IsNamed :
    (t : TunnelConfig) (m : GoMap String TunnelConfig) → IsNamed m → IsNamed (insert t.name t m)
unfolding insert
insert-IsNamed t [] u = (refl, tt)
insert-IsNamed t ((k, v) ∷ m) u =
    elim (string_eq.dec t.name k)
      as (λ d.
        IsNamed (if (ite d true false) then (t.name, t) ∷ m else (k, v) ∷ insert t.name t m)) [
          | yes same ↦ (refl, u.1)
          | no differ ↦ (u.0, insert-IsNamed t m u.1)
        ]

delete-IsNamed : (n : String) (m : GoMap String TunnelConfig) → IsNamed m → IsNamed (delete n m)
unfolding delete
delete-IsNamed n [] u = tt
delete-IsNamed n ((k, v) ∷ m) u =
    elim (string_eq.dec n k)
      as (λ d. IsNamed (if (ite d true false) then delete n m else (k, v) ∷ delete n m)) [
        | yes same ↦ delete-IsNamed n m u.1
        | no differ ↦ (u.0, delete-IsNamed n m u.1)
      ]

pub by_name-IsNamed :
    (ts : List TunnelConfig) (m : GoMap String TunnelConfig)
    → IsNamed m
    → NodupKeys m
    → IsNamed (by_name ts m) × NodupKeys (by_name ts m)
unfolding by_name
by_name-IsNamed [] m u d = (u, d)
by_name-IsNamed (t ∷ ts) m u d =
    by_name-IsNamed ts (insert t.name t m) (insert-IsNamed t m u) (insert-NodupKeys t.name t m d)

compare_tunnel_cases :
    (k : String) (h : TunnelHandle) (p : Progress)
    → ((compare_tunnel k h p).new_tunnels ≡ p.new_tunnels)
      ⊎ ((compare_tunnel k h p).new_tunnels ≡ delete k p.new_tunnels)
unfolding compare_tunnel cancel_tunnel
compare_tunnel_cases k h p = elim (Option-cases (lookup k p.new_tunnels)) [
  | inl gone ↦ inl (ground (arith, gone))
  | inr (t, wanted) ↦ elim (Bool-cases (is_changed h.tunnel t)) [
    | inl changed ↦ inl (ground (arith, wanted, changed))
    | inr same ↦ inr (ground (arith, wanted, same))
  ]
]

pub compare_all-IsNamed :
    (l : GoMap String TunnelHandle) (p : Progress)
    → IsNamed p.new_tunnels
    → NodupKeys p.new_tunnels
    → IsNamed (compare_all l p).new_tunnels × NodupKeys (compare_all l p).new_tunnels
unfolding compare_all
compare_all-IsNamed [] p u d = (u, d)
compare_all-IsNamed ((k, h) ∷ l) p u d = elim (compare_tunnel_cases k h p) [
  | inl same ↦ compare_all-IsNamed l (compare_tunnel k h p) (rw same u) (rw same d)
  | inr less ↦
      compare_all-IsNamed l (compare_tunnel k h p) (rw less (delete-IsNamed k p.new_tunnels u))
        (rw less (delete-NodupKeys k p.new_tunnels d))
]
