-- ===== src/Auth/Lru/Chain.antt =====
-- Facts about the linked list of `lruCache` in which no address and no key stands twice.
use tbore.Base.{
  ℕ, suc, ◌≤◌, ◌<◌, ◌≡◌, refl, String, string_eq, nat_eq, ◌==◌, length, if◌then◌else◌, List, [],
  ◌∷◌, none, some, arith,
}
use tbore.Base.GoMap.{lookup, delete, delete_absent}
use tbore.Auth.Lru.Elements.{Element, find, unlink, entries, address_of, IsChain}

module _ {ℓ} {V : Type ℓ} where
  pub lookup-entries-none :
      (k : String) (l : List (Element V)) → address_of k l ≡ none → lookup k (entries l) ≡ none
  unfolding address_of entries lookup
  lookup-entries-none k [] h = refl
  lookup-entries-none k (e ∷ l) h = ground (arith, lookup-entries-none k l)

  pub IsChain-mono : {m n : ℕ} (l : List (Element V)) → m ≤ n → IsChain m l → IsChain n l
  IsChain-mono [] h c = tt
  IsChain-mono (e ∷ l) h c = (omega arith, c.1, c.2, IsChain-mono l h c.3)

  pub find-lt :
      (n a : ℕ) (l : List (Element V)) (e : Element V) → IsChain n l → find a l ≡ some e → a < n
  unfolding find
  find-lt n a [] e c h = ground arith
  find-lt n a (x ∷ l) e c h = ground (arith, find-lt n a l e c.3)

  pub find-fresh : (n : ℕ) (l : List (Element V)) → IsChain n l → find n l ≡ none
  unfolding find
  find-fresh n [] c = refl
  find-fresh n (x ∷ l) c = ground (arith, find-fresh n l c.3)

  pub find-address :
      (a : ℕ) (l : List (Element V)) (e : Element V) → find a l ≡ some e → e.address ≡ a
  unfolding find
  find-address a [] e h = ground arith
  find-address a (x ∷ l) e h = ground (arith, find-address a l e)

  -- The element that a key leads to holds the key and the key's record.
  pub found :
      (n : ℕ) (k : String) (a : ℕ) (l : List (Element V))
      → IsChain n l
      → address_of k l ≡ some a
      → (e : Element V) × (find a l ≡ some e) × (e.key ≡ k) × (lookup k (entries l) ≡ some e.rec)
  unfolding address_of find entries lookup
  found n k a [] c h = absurd (ground arith)
  found n k a (x ∷ l) c h = elim (string_eq.dec k x.key) [
    | yes p ↦ (x, ground arith, ground arith, ground arith)
    | no p ↦
        let (e, here, keyed, value) = found n k a l c.3 (ground arith) in
        (e, ground arith, keyed, ground arith)
  ]

  pub address_of-find :
      (n a : ℕ) (l : List (Element V)) (e : Element V)
      → IsChain n l
      → find a l ≡ some e
      → address_of e.key l ≡ some a
  unfolding address_of find
  address_of-find n a [] e c h = absurd (ground arith)
  address_of-find n a (x ∷ l) e c h = ground (arith, address_of-find n a l e c.3)

  pub entries-unlink :
      (n a : ℕ) (l : List (Element V)) (e : Element V)
      → IsChain n l
      → find a l ≡ some e
      → entries (unlink a l) ≡ delete e.key (entries l)
  unfolding find unlink entries delete
  entries-unlink n a [] e c h = refl
  entries-unlink n a (x ∷ l) e c h = elim (nat_eq.dec a x.address) [
    | yes p ↦
        let absent = delete_absent x.key (entries l) (lookup-entries-none x.key l c.2) in
        ground (arith, absent)
    | no p ↦
        let rest = entries-unlink n a l e c.3 (ground arith) in
        let kept = address_of-find n a l e c.3 (ground arith) in ground (arith, rest, kept)
  ]

  pub address_of-unlink :
      (n a : ℕ) (l : List (Element V)) (e : Element V) (j : String)
      → IsChain n l
      → find a l ≡ some e
      → address_of j (unlink a l) ≡ (if j == e.key then none else address_of j l)
  unfolding find unlink address_of
  address_of-unlink n a [] e j c h = ground arith
  address_of-unlink n a (x ∷ l) e j c h =
      ground (arith, address_of-unlink n a l e j c.3, address_of-find n a l e c.3)

  pub find-unlink :
      (n a b : ℕ) (l : List (Element V))
      → IsChain n l
      → find b (unlink a l) ≡ (if b == a then none else find b l)
  unfolding find unlink
  find-unlink n a b [] c = ground arith
  find-unlink n a b (x ∷ l) c = ground (arith, find-unlink n a b l c.3)

  pub length-unlink :
      (a : ℕ) (l : List (Element V)) (e : Element V)
      → find a l ≡ some e
      → suc (length (unlink a l)) ≡ length l
  unfolding find unlink
  length-unlink a [] e h = ground arith
  length-unlink a (x ∷ l) e h = ground (arith, length-unlink a l e)

  pub unlink-IsChain :
      (n a : ℕ) (l : List (Element V)) (e : Element V)
      → IsChain n l
      → find a l ≡ some e
      → IsChain n (unlink a l)
  unfolding find unlink
  unlink-IsChain n a [] e c h = tt
  unlink-IsChain n a (x ∷ l) e c h = ground (
    arith,
    unlink-IsChain n a l e c.3,
    find-unlink n a x.address l c.3,
    address_of-unlink n a l e x.key c.3,
  )
