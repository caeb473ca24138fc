-- ===== src/Auth/Lru/Invariant.antt =====
-- The map and the list of `lruCache` agree, and the list never outgrows the capacity.
use tbore.Base.{
  ℕ, ◌+◌, ◌≤◌, ◌<◌, ◌≡◌, refl, String, string_eq, length, ltb, none, some, arith, Option-cases,
  Bool-cases, ◌⊎◌, inl, inr,
}
use tbore.Base.Int.{ℤ}
use tbore.Base.GoMap.{
  lookup, delete, NodupKeys, lookup-insert, lookup-delete, insert-NodupKeys, delete-NodupKeys,
  length-insert, length-delete,
}
use tbore.Auth.Lru.Elements.{
  Element, find, unlink, set_rec, move_to_front, back, address_of, IsChain,
}
use tbore.Auth.Lru.Chain.{
  IsChain-mono, find-fresh, found, address_of-find, address_of-unlink, length-unlink,
  unlink-IsChain,
}
use tbore.Auth.Lru.Moves.{
  find-set_rec, address_of-set_rec, length-set_rec, set_rec-IsChain, move_to_front-IsChain,
  address_of-move_to_front, length-move_to_front, length_of_back-none, find-back,
}
use tbore.Auth.Lru.{LruCache, new_lru_cache, get, push_front, evict, put, remove}

-- All but the bound on the size.
pub record IsLinked {ℓ} {V : Type ℓ} (c : LruCache V) : Type ℓ where
  pub chain : IsChain c.next c.order
  pub linked : (k : String) → lookup k c.items ≡ address_of k c.order
  pub unique : NodupKeys c.items
  pub counted : length c.items ≡ length c.order

pub record IsValid {ℓ} {V : Type ℓ} (c : LruCache V) : Type ℓ where
  pub positive : 0 < c.capacity
  pub bounded : length c.order ≤ c.capacity
  pub links : IsLinked c

module _ {ℓ} {V : Type ℓ} where
  -- The element that the map gives for a key is in the list, and holds the key.
  pub element :
      (c : LruCache V) (key : String) (el : ℕ)
      → IsLinked c
      → lookup key c.items ≡ some el
      → (e : Element V) × (find el c.order ≡ some e) × (e.key ≡ key)
  element c key el l h =
      let (e, here, keyed, _) = found c.next key el c.order l.chain (rw (← l.linked key) h) in
      (e, here, keyed)

  promote-IsLinked :
      (c : LruCache V) (el : ℕ) (e : Element V)
      → IsLinked c
      → find el c.order ≡ some e
      → IsLinked (record c { order = move_to_front el c.order })
  promote-IsLinked c el e l here = record {
    chain = move_to_front-IsChain c.next el c.order e l.chain here;
    linked = λ k. rw (address_of-move_to_front c.next el c.order e l.chain here k) (l.linked k);
    unique = l.unique;
    counted = rw (length-move_to_front c.next el c.order e l.chain here) l.counted;
  }

  overwrite-IsLinked :
      (c : LruCache V) (el : ℕ) (rec : V)
      → IsLinked c
      → IsLinked (record c { order = set_rec el rec c.order })
  overwrite-IsLinked c el rec l = record {
    chain = set_rec-IsChain c.next el rec c.order l.chain;
    linked = λ k. rw (address_of-set_rec el rec k c.order) (l.linked k);
    unique = l.unique;
    counted = rw (length-set_rec el rec c.order) l.counted;
  }

  pub push_front-IsLinked :
      (key : String) (rec : V) (c : LruCache V)
      → lookup key c.items ≡ none
      → IsLinked c
      → IsLinked (push_front key rec c)
  unfolding push_front address_of
  push_front-IsLinked key rec c miss l = record {
    chain = (
      omega arith,
      find-fresh c.next c.order l.chain,
      ground (arith, l.linked key),
      IsChain-mono c.order (omega arith) l.chain,
    );
    linked = λ k. rw (lookup-insert k key c.next c.items, l.linked k);
    unique = insert-NodupKeys key c.next c.items l.unique;
    counted = ground (arith, length-insert key c.next c.items, l.counted);
  }

  -- Unlinking an element and deleting its key keeps the two in step.
  drop_element-IsLinked :
      (c : LruCache V) (el : ℕ) (e : Element V)
      → IsLinked c
      → find el c.order ≡ some e
      → IsLinked (record c { order = unlink el c.order; items = delete e.key c.items })
  drop_element-IsLinked c el e l here = record {
    chain = unlink-IsChain c.next el c.order e l.chain here;
    linked = λ k. ground (
      arith,
      lookup-delete k e.key c.items,
      address_of-unlink c.next el c.order e k l.chain here,
      l.linked k,
    );
    unique = delete-NodupKeys e.key c.items l.unique;
    counted = ground (
      arith,
      length-unlink el c.order e here,
      length-delete e.key el c.items l.unique,
      l.linked e.key,
      address_of-find c.next el c.order e l.chain here,
      l.counted,
    );
  }

  -- `evict` does nothing within the capacity, and drops the last element beyond it.
  pub evict_cases :
      (c : LruCache V)
      → IsLinked c
      → ((length c.order ≤ c.capacity) × (evict c ≡ c))
        ⊎ ((e : Element V) × (back c.order ≡ some e)
            × (find e.address c.order ≡ some e)
            × (c.capacity < length c.order)
            × (evict c
                ≡ record c { order = unlink e.address c.order; items = delete e.key c.items }))
  unfolding evict
  evict_cases c l = elim (Bool-cases (ltb c.capacity (length c.order))) [
    | inr fits ↦ inl (ground arith, ground arith)
    | inl full ↦ elim (Option-cases (back c.order)) [
      | inl none_left ↦ absurd (ground (arith, length_of_back-none c.order none_left))
      | inr (e, last) ↦
          inr (e, last, find-back c.next c.order e l.chain last, ground arith, ground arith)
    ]
  ]

  evict-IsLinked : (c : LruCache V) → IsLinked c → IsLinked (evict c)
  evict-IsLinked c l = elim (evict_cases c l) [
    | inl (_, same) ↦ rw same l
    | inr (e, _, here, _, dropped) ↦ rw dropped (drop_element-IsLinked c e.address e l here)
  ]

  length-evict-le :
      (c : LruCache V)
      → IsLinked c
      → length c.order ≤ c.capacity + 1
      → length (evict c).order ≤ c.capacity
  length-evict-le c l h = elim (evict_cases c l) [
    | inl (small, same) ↦ rw same small
    | inr (e, _, here, _, dropped) ↦
        rw dropped (omega (arith, length-unlink e.address c.order e here))
  ]

  capacity-evict : (c : LruCache V) → (evict c).capacity ≡ c.capacity
  unfolding evict
  capacity-evict c = ground arith

  -- Moving an element that the list holds to the front keeps the invariant.
  promote-IsValid :
      (c : LruCache V) (el : ℕ) (e : Element V)
      → IsValid c
      → find el c.order ≡ some e
      → IsValid (record c { order = move_to_front el c.order })
  promote-IsValid c el e v here = record {
    positive = v.positive;
    bounded = omega (arith, length-move_to_front c.next el c.order e v.links.chain here);
    links = promote-IsLinked c el e v.links here;
  }

  pub new_lru_cache-IsValid : (capacity : ℤ) → IsValid (new_lru_cache {V = V} capacity)
  unfolding new_lru_cache lookup address_of
  new_lru_cache-IsValid capacity = record {
    positive = ground arith;
    bounded = omega arith;
    links = record { chain = tt; linked = λ k. refl; unique = tt; counted = refl };
  }

  pub get-IsValid : (key : String) (c : LruCache V) → IsValid c → IsValid (get key c).0
  unfolding get
  get-IsValid key c v = elim (Option-cases (lookup key c.items)) [
    | inl miss ↦ rw (miss, get) v
    | inr (el, hit) ↦
        let (e, here, _) = element c key el v.links hit in
        rw (hit, get) (promote-IsValid c el e v here)
  ]

  push_evict-IsValid :
      (key : String) (rec : V) (c : LruCache V)
      → lookup key c.items ≡ none
      → IsValid c
      → IsValid (evict (push_front key rec c))
  unfolding push_front
  push_evict-IsValid key rec c miss v =
      let c' = push_front key rec c in
      let l = push_front-IsLinked key rec c miss v.links in
      record {
        positive = rw (capacity-evict c') v.positive;
        bounded = rw (capacity-evict c') (length-evict-le c' l (omega arith));
        links = evict-IsLinked c' l;
      }

  pub put-IsValid : (key : String) (rec : V) (c : LruCache V) → IsValid c → IsValid (put key rec c)
  unfolding put
  put-IsValid key rec c v = elim (Option-cases (lookup key c.items)) [
    | inl miss ↦ rw (miss, put) (push_evict-IsValid key rec c miss v)
    | inr (el, hit) ↦
        let (e, here, _) = element c key el v.links hit in
        rw (hit, put)
          (promote-IsValid (record c { order = set_rec el rec c.order }) el _
            (record {
              positive = v.positive;
              bounded = rw (length-set_rec el rec c.order) v.bounded;
              links = overwrite-IsLinked c el rec v.links;
            })
            (find-set_rec el rec c.order e here))
  ]

  pub remove-IsValid : (key : String) (c : LruCache V) → IsValid c → IsValid (remove key c)
  unfolding remove
  remove-IsValid key c v = elim (Option-cases (lookup key c.items)) [
    | inl miss ↦ rw (miss, remove) v
    | inr (el, hit) ↦
        let (e, here, keyed) = element c key el v.links hit in
        rw (hit, remove, ← keyed)
          (record {
            positive = v.positive;
            bounded = omega (arith, length-unlink el c.order e here);
            links = drop_element-IsLinked c el e v.links here;
          })
  ]
