-- ===== src/Auth/Lru/Reads.antt =====
-- What can be read from the cache after each of its methods.
use tbore.Base.{
  ℕ, zero, suc, ◌≡◌, ◌≢◌, ◌⊎◌, inl, inr, ◌==◌, String, string_eq, take, if◌then◌else◌, [], ◌∷◌,
  none, some, arith,
}
use tbore.Base.GoMap.{GoMap, lookup, lookup-delete}
use tbore.Auth.Lru.{LruCache, get, put, remove}
use tbore.Auth.Lru.Invariant.{IsValid}
use tbore.Auth.Lru.View.{view, touch, get-view, put-view, remove-view}

module _ {ℓ} {V : Type ℓ} where
  lookup-take :
      (n : ℕ) (j : String) (l : GoMap String V) (r : V)
      → lookup j (take n l) ≡ some r
      → lookup j l ≡ some r
  unfolding lookup
  lookup-take zero j l r h = absurd (ground arith)
  lookup-take (suc n) j [] r h = h
  lookup-take (suc n) j ((k, v) ∷ l) r h = ground (arith, lookup-take n j l r)

  lookup-touch : (j k : String) (l : GoMap String V) → lookup j (touch k l) ≡ lookup j l
  unfolding lookup touch
  lookup-touch j k l = ground (arith, lookup-delete j k l)

  module _ (c : LruCache V) (v : IsValid c) (k : String) where
    -- `get` changes nothing that a later call can read.
    pub lookup-get : (j : String) → lookup j (view (get k c).0) ≡ lookup j (view c)
    lookup-get j = rw (get-view k c v).1 (lookup-touch j k (view c))

    -- What a valid cache holds after a `put` is the new entry, or was held before under another
    -- key.
    pub lookup-put :
        (rec : V) (j : String) (r : V)
        → lookup j (view (put k rec c)) ≡ some r
        → ((j ≡ k) × (r ≡ rec)) ⊎ ((j ≢ k) × (lookup j (view c) ≡ some r))
    unfolding lookup
    lookup-put rec j r h =
        let kept = lookup-take c.capacity j _ r (rw (put-view k rec c v) at h) in
        elim (string_eq.dec j k) [
          | yes p ↦ inl (p, ground arith)
          | no p ↦ inr (p, ground (arith, lookup-delete j k (view c)))
        ]

    pub lookup-remove :
        (j : String) → lookup j (view (remove k c)) ≡ (if j == k then none else lookup j (view c))
    lookup-remove j = rw (remove-view k c v) (lookup-delete j k (view c))
