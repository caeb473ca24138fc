-- ===== src/Server/Live/Keys.antt =====
-- The keys of the map of sessions against the list of goroutines.
use tbore.Base.{
  ℕ, zero, suc, ◌<◌, ◌≤◌, ◌≡◌, ap, ◌==◌, nat_eq, string_eq, String, length, get_elem?, remove_at,
  true, false, List, [], ◌∷◌, some, arith,
}
use mathlib.Core.Option.{some-injective}
use tbore.Base.GoMap.{GoMap, NodupKeys, lookup, delete, lookup-delete, length-delete-le}
use tbore.Server.Session.Invariant.{is_some}

pub is_some-remove_at :
    (id j : String) (n b : ℕ) (l : List (String × ℕ))
    → get_elem? l n ≡ some (j, b)
    → (id == j) ≡ false
    → is_some (lookup id l) ≡ true
    → is_some (lookup id (remove_at n l)) ≡ true
unfolding lookup
is_some-remove_at id j n b [] h other m = m
is_some-remove_at id j zero b ((k, c) ∷ l) h other m =
    let same = some-injective (k, c) (j, b) h in ground (arith, ap (λ x. x.0) same)
is_some-remove_at id j (suc n) b ((k, c) ∷ l) h other m =
    ground (arith, is_some-remove_at id j n b l h other)

length-delete-lt :
    (id : String) (l : GoMap String ℕ)
    → is_some (lookup id l) ≡ true
    → length (delete id l) < length l
unfolding lookup delete
length-delete-lt id [] h = absurd (ground arith)
length-delete-lt id ((k, c) ∷ l) h = ground (arith, length-delete-lt id l, length-delete-le id l)

-- Distinct keys that all stand in a list are no more than its elements.
pub length-keys :
    (m l : GoMap String ℕ)
    → NodupKeys m
    → ((id : String) → is_some (lookup id m) ≡ true → is_some (lookup id l) ≡ true)
    → length m ≤ length l
unfolding lookup
length-keys [] l u h = omega arith
length-keys ((k, a) ∷ m) l u h =
    let fewer = length-delete-lt k l (h k (ground arith)) in
    let rest =
      length-keys m (delete k l) u.1
        (λ id here. ground (arith, lookup-delete id k l, h id, here, u.0)) in
    omega (arith, fewer, rest)
