-- ===== src/Auth/Lru/View.antt =====
-- `lruCache` implements a bounded list of entries, most recently used first.
use tbore.Base.{
  ℕ, suc, ◌≡◌, refl, sym, ap, ◌∙◌, String, string_eq, length, take, take_of_length-le, List, [],
  ◌∷◌, none, some, arith, Option-cases, inl, inr,
}
use tbore.Base.GoMap.{GoMap, lookup, delete, delete_absent}
use tbore.Auth.Lru.Elements.{Element, find, set_rec, move_to_front, entries}
use tbore.Auth.Lru.Chain.{lookup-entries-none, found, entries-unlink}
use tbore.Auth.Lru.Moves.{
  find-set_rec, set_rec-IsChain, delete-entries-set_rec, entries-move_to_front,
  length-move_to_front, length-set_rec, entries-unlink-back,
}
use tbore.Auth.Lru.{LruCache, get, push_front, evict, put, remove}
use tbore.Auth.Lru.Invariant.{IsValid, IsLinked, evict_cases, push_front-IsLinked}

module _ {ℓ} {V : Type ℓ} where
  -- What a client can know of a cache.
  abbrev pub view : LruCache V → GoMap String V
  view c = entries c.order

  -- Reading a key moves its entry to the front.
  unfoldable pub touch : String → GoMap String V → GoMap String V
  touch k l = elim (lookup k l) [ none ↦ l | some v ↦ (k, v) ∷ delete k l ]

  length-entries : (l : List (Element V)) → length (entries l) ≡ length l
  unfolding entries
  length-entries [] = refl
  length-entries (e ∷ l) = ap suc (length-entries l)

  view-miss :
      (c : LruCache V) (key : String)
      → IsLinked c
      → lookup key c.items ≡ none
      → lookup key (view c) ≡ none
  view-miss c key l miss = lookup-entries-none key c.order (rw (← l.linked key) miss)

  view-hit :
      (c : LruCache V) (key : String) (el : ℕ)
      → IsLinked c
      → lookup key c.items ≡ some el
      → (e : Element V) × (find el c.order ≡ some e)
        × (e.key ≡ key)
        × (lookup key (view c) ≡ some e.rec)
  view-hit c key el l hit = found c.next key el c.order l.chain (rw (← l.linked key) hit)

  -- `get` answers with the entry of the key, and moves it to the front.
  pub get-view :
      (key : String) (c : LruCache V)
      → IsValid c
      → ((get key c).1 ≡ lookup key (view c)) × (view (get key c).0 ≡ touch key (view c))
  unfolding get touch
  get-view key c v = elim (Option-cases (lookup key c.items)) [
    | inl miss ↦
        let gone = view-miss c key v.links miss in
        (rw (miss, get, gone), rw (miss, get, gone, touch))
    | inr (el, hit) ↦
        let (e, here, keyed, value) = view-hit c key el v.links hit in
        (
          rw (hit, get, here, value),
          rw (hit, get, value, touch)
              (rw keyed at (entries-move_to_front c.next el c.order e v.links.chain here)),
        )
  ]

  put_miss-view :
      (key : String) (rec : V) (c : LruCache V)
      → IsValid c
      → lookup key c.items ≡ none
      → view (evict (push_front key rec c)) ≡ take c.capacity ((key, rec) ∷ delete key (view c))
  unfolding push_front entries
  put_miss-view key rec c v miss =
      let c' = push_front key rec c in
      let l = push_front-IsLinked key rec c miss v.links in
      rw (delete_absent key (view c) (view-miss c key v.links miss)) (elim (evict_cases c' l) [
        | inl (small, same) ↦
            rw same
              (sym (take_of_length-le c.capacity (view c') (rw (length-entries c'.order) small)))
        | inr (e, last, here, full, dropped) ↦
            rw dropped
              (entries-unlink-back c'.next c.capacity c'.order e l.chain last (omega arith))
      ])

  module _ (key : String) (rec : V) (c : LruCache V) (el : ℕ) (v : IsValid c)
      (hit : lookup key c.items ≡ some el) where
    overwritten : List (Element V)
    overwritten = move_to_front el (set_rec el rec c.order)

    put_hit-front : entries overwritten ≡ (key, rec) ∷ delete key (view c)
    unfolding overwritten
    put_hit-front =
        let (e, here, keyed, _) = view-hit c key el v.links hit in
        let chain = set_rec-IsChain c.next el rec c.order v.links.chain in
        cc (
          entries-move_to_front c.next el (set_rec el rec c.order) _ chain
              (find-set_rec el rec c.order e here),
          delete-entries-set_rec c.next el rec c.order e v.links.chain here,
          keyed,
        )

    length-overwritten : length overwritten ≡ length c.order
    unfolding overwritten
    length-overwritten =
        let (e, here, _, _) = view-hit c key el v.links hit in
        let chain = set_rec-IsChain c.next el rec c.order v.links.chain in
        length-move_to_front c.next el (set_rec el rec c.order) _ chain
          (find-set_rec el rec c.order e here)
        ∙ length-set_rec el rec c.order

    put_hit-view : entries overwritten ≡ take c.capacity ((key, rec) ∷ delete key (view c))
    put_hit-view =
        put_hit-front
        ∙ sym (
            take_of_length-le c.capacity _ (
              omega
                (arith, ap length put_hit-front, length-entries overwritten, length-overwritten)))

  -- `put` puts the entry in front, and keeps what the capacity allows.
  pub put-view :
      (key : String) (rec : V) (c : LruCache V)
      → IsValid c
      → view (put key rec c) ≡ take c.capacity ((key, rec) ∷ delete key (view c))
  unfolding put overwritten
  put-view key rec c v = elim (Option-cases (lookup key c.items)) [
    | inl miss ↦ rw (miss, put) (put_miss-view key rec c v miss)
    | inr (el, hit) ↦ rw (hit, put) (put_hit-view key rec c el v hit)
  ]

  -- `remove` deletes the entry of the key and no other.
  pub remove-view :
      (key : String) (c : LruCache V) → IsValid c → view (remove key c) ≡ delete key (view c)
  unfolding remove
  remove-view key c v = elim (Option-cases (lookup key c.items)) [
    | inl miss ↦ rw (miss, remove) (sym (delete_absent key (view c) (view-miss c key v.links miss)))
    | inr (el, hit) ↦
        let (e, here, keyed, _) = view-hit c key el v.links hit in
        rw (hit, remove) (rw keyed at (entries-unlink c.next el c.order e v.links.chain here))
  ]
