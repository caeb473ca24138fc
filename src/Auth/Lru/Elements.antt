-- ===== src/Auth/Lru/Elements.antt =====
-- The part of `container/list` that `lruCache` uses: a list of elements, front first, in which an
-- element is found by its address.
use tbore.Base.{
  ℕ, ◌<◌, ◌≡◌, String, string_eq, nat_eq, ◌==◌, if◌then◌else◌, List, [], ◌∷◌, Option, none, some,
}
use tbore.Base.GoMap.{GoMap}

-- A `*list.Element` whose value is an `*lruEntry`.
pub record Element {ℓ} (V : Type ℓ) : Type ℓ where
  pub address : ℕ
  pub key : String
  pub rec : V

module _ {ℓ} {V : Type ℓ} where
  unfoldable pub find : ℕ → List (Element V) → Option (Element V)
  find a [] = none
  find a (e ∷ l) = if a == e.address then some e else find a l

  -- `list.Remove`
  unfoldable pub unlink : ℕ → List (Element V) → List (Element V)
  unlink a [] = []
  unlink a (e ∷ l) = if a == e.address then l else e ∷ unlink a l

  -- `el.Value.(*lruEntry).rec = rec`
  unfoldable pub set_rec : ℕ → V → List (Element V) → List (Element V)
  set_rec a v [] = []
  set_rec a v (e ∷ l) = if a == e.address then record e { rec = v } ∷ l else e ∷ set_rec a v l

  -- `list.MoveToFront`, which leaves the list alone if the element is not in it.
  unfoldable pub move_to_front : ℕ → List (Element V) → List (Element V)
  move_to_front a l = elim (find a l) [ none ↦ l | some e ↦ e ∷ unlink a l ]

  -- `list.Back`
  unfoldable pub back : List (Element V) → Option (Element V)
  back [] = none
  back (e ∷ []) = some e
  back (_ ∷ e ∷ l) = back (e ∷ l)

  -- The entries, most recently used first.
  unfoldable pub entries : List (Element V) → GoMap String V
  entries [] = []
  entries (e ∷ l) = (e.key, e.rec) ∷ entries l

  unfoldable pub address_of : String → List (Element V) → Option ℕ
  address_of k [] = none
  address_of k (e ∷ l) = if k == e.key then some e.address else address_of k l

  -- Neither an address nor a key stands twice, and every address was handed out before `n`.
  abbrev pub IsChain : ℕ → List (Element V) → Type ℓ
  IsChain n [] = Unit
  IsChain n (e ∷ l) =
      (e.address < n) × (find e.address l ≡ none) × (address_of e.key l ≡ none) × IsChain n l
