-- ===== src/Auth/Lru/Runs.antt =====
-- Any sequence of calls on `lruCache`, against the bounded list of its entries.
use tbore.Base.{
  ℕ, ◌≤◌, ◌≡◌, refl, ap₂, ◌∙◌, String, string_eq, length, take, List, [], ◌∷◌, Option, none, arith,
}
use tbore.Base.Int.{ℤ}
use tbore.Base.GoMap.{GoMap, lookup, delete}
use tbore.Auth.Lru.Elements.{entries}
use tbore.Auth.Lru.{LruCache, new_lru_cache, get, put, push_front, evict, remove}
use tbore.Auth.Lru.Invariant.{
  IsValid, new_lru_cache-IsValid, get-IsValid, put-IsValid, remove-IsValid,
}
use tbore.Auth.Lru.View.{view, touch, get-view, put-view, remove-view}

pub data LruCall {ℓ} (V : Type ℓ) : Type ℓ where
  gets : String → LruCall V
  puts : String → V → LruCall V
  removes : String → LruCall V

module _ {ℓ} {V : Type ℓ} where
  -- A call, with what `get` answers; the other calls answer nothing.
  unfoldable pub apply : LruCall V → LruCache V → LruCache V × Option V
  apply (gets k) c = get k c
  apply (puts k v) c = (put k v c, none)
  apply (removes k) c = (remove k c, none)

  -- The cache after the calls, and the answers.
  unfoldable pub apply_all : List (LruCall V) → LruCache V → LruCache V × List (Option V)
  unfolding apply
  apply_all [] c = (c, [])
  apply_all (call ∷ calls) c =
      let (c', answer) = apply call c in
      let (c'', answers) = apply_all calls c' in (c'', answer ∷ answers)

  -- The same on a list of at most `n` entries, most recently used first.
  unfoldable pub expected : ℕ → LruCall V → GoMap String V → GoMap String V × Option V
  expected n (gets k) l = (touch k l, lookup k l)
  expected n (puts k v) l = (take n ((k, v) ∷ delete k l), none)
  expected n (removes k) l = (delete k l, none)

  unfoldable pub expected_all :
      ℕ → List (LruCall V) → GoMap String V → GoMap String V × List (Option V)
  unfolding expected
  expected_all n [] l = (l, [])
  expected_all n (call ∷ calls) l =
      let (l', answer) = expected n call l in
      let (l'', answers) = expected_all n calls l' in (l'', answer ∷ answers)

  capacity-apply : (call : LruCall V) (c : LruCache V) → (apply call c).0.capacity ≡ c.capacity
  unfolding apply get put push_front evict remove
  capacity-apply (gets k) c = ground arith
  capacity-apply (puts k v) c = ground arith
  capacity-apply (removes k) c = ground arith

  apply-IsValid : (call : LruCall V) (c : LruCache V) → IsValid c → IsValid (apply call c).0
  unfolding apply
  apply-IsValid (gets k) c v = get-IsValid k c v
  apply-IsValid (puts k r) c v = put-IsValid k r c v
  apply-IsValid (removes k) c v = remove-IsValid k c v

  view-apply :
      (call : LruCall V) (c : LruCache V)
      → IsValid c
      → (view (apply call c).0 ≡ (expected c.capacity call (view c)).0)
        × ((apply call c).1 ≡ (expected c.capacity call (view c)).1)
  unfolding apply expected
  view-apply (gets k) c v = let (answer, same) = get-view k c v in (same, answer)
  view-apply (puts k r) c v = (put-view k r c v, refl)
  view-apply (removes k) c v = (remove-view k c v, refl)

  -- A valid cache behaves through any calls as the list of its entries, most recently used first,
  -- cut to the capacity: every `get` answers what stands under its key in that list at that time, and
  -- the entries at the end are those of the list. The cache is valid at the end.
  pub apply_all-view :
      (calls : List (LruCall V)) (c : LruCache V)
      → IsValid c
      → (view (apply_all calls c).0 ≡ (expected_all c.capacity calls (view c)).0)
        × ((apply_all calls c).1 ≡ (expected_all c.capacity calls (view c)).1)
        × IsValid (apply_all calls c).0
  unfolding apply_all expected_all
  apply_all-view [] c v = (refl, refl, v)
  apply_all-view (call ∷ calls) c v =
      let (same, answer) = view-apply call c v in
      let (same', answers, v') = apply_all-view calls (apply call c).0 (apply-IsValid call c v) in
      let size = capacity-apply call c in
      (
        same' ∙ ap₂ (λ n l. (expected_all n calls l).0) size same,
        ap₂ (◌∷◌) answer (answers ∙ ap₂ (λ n l. (expected_all n calls l).1) size same),
        v',
      )

  -- A new cache of any configured size, zero and negative ones included, behaves through any calls
  -- as the bounded list that starts empty, and never holds more entries than its capacity.
  new_lru_cache-view :
      (size : ℤ) (calls : List (LruCall V))
      → (view (apply_all calls (new_lru_cache size)).0
          ≡ (expected_all (new_lru_cache {V = V} size).capacity calls []).0)
        × (length (apply_all calls (new_lru_cache {V = V} size)).0.order
            ≤ (apply_all calls (new_lru_cache {V = V} size)).0.capacity)
  unfolding new_lru_cache entries
  new_lru_cache-view size calls =
      let (same, _, v) = apply_all-view calls (new_lru_cache size) (new_lru_cache-IsValid size) in
      (same, v.bounded)
