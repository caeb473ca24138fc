-- ===== src/Auth/Lru/Moves.antt =====
-- What overwriting a record, moving an element to the front and dropping the last one do to the
-- linked list of `lruCache`.
use tbore.Base.{
  ℕ, zero, suc, ◌≡◌, refl, String, string_eq, nat_eq, length, take, List, [], ◌∷◌, none, some,
  arith,
}
use tbore.Base.GoMap.{delete}
use tbore.Auth.Lru.Elements.{
  Element, find, unlink, set_rec, move_to_front, back, entries, address_of, IsChain,
}
use tbore.Auth.Lru.Chain.{
  find-lt, find-address, address_of-find, entries-unlink, address_of-unlink, find-unlink,
  length-unlink, unlink-IsChain,
}

module _ {ℓ} {V : Type ℓ} where
  pub find-set_rec :
      (a : ℕ) (v : V) (l : List (Element V)) (e : Element V)
      → find a l ≡ some e
      → find a (set_rec a v l) ≡ some (record e { rec = v })
  unfolding find set_rec
  find-set_rec a v [] e h = absurd (ground arith)
  find-set_rec a v (x ∷ l) e h = ground (arith, find-set_rec a v l e)

  find-set_rec-none :
      (a b : ℕ) (v : V) (l : List (Element V)) → find b l ≡ none → find b (set_rec a v l) ≡ none
  unfolding find set_rec
  find-set_rec-none a b v [] h = refl
  find-set_rec-none a b v (x ∷ l) h = ground (arith, find-set_rec-none a b v l)

  pub address_of-set_rec :
      (a : ℕ) (v : V) (j : String) (l : List (Element V))
      → address_of j (set_rec a v l) ≡ address_of j l
  unfolding address_of set_rec
  address_of-set_rec a v j [] = refl
  address_of-set_rec a v j (x ∷ l) = ground (arith, address_of-set_rec a v j l)

  pub length-set_rec : (a : ℕ) (v : V) (l : List (Element V)) → length (set_rec a v l) ≡ length l
  unfolding set_rec
  length-set_rec a v [] = refl
  length-set_rec a v (x ∷ l) = ground (arith, length-set_rec a v l)

  pub set_rec-IsChain :
      (n a : ℕ) (v : V) (l : List (Element V)) → IsChain n l → IsChain n (set_rec a v l)
  unfolding set_rec
  set_rec-IsChain n a v [] c = tt
  set_rec-IsChain n a v (x ∷ l) c = ground (
    arith,
    set_rec-IsChain n a v l c.3,
    find-set_rec-none a x.address v l,
    address_of-set_rec a v x.key l,
  )

  pub delete-entries-set_rec :
      (n a : ℕ) (v : V) (l : List (Element V)) (e : Element V)
      → IsChain n l
      → find a l ≡ some e
      → delete e.key (entries (set_rec a v l)) ≡ delete e.key (entries l)
  unfolding find set_rec entries delete
  delete-entries-set_rec n a v [] e c h = refl
  delete-entries-set_rec n a v (x ∷ l) e c h = ground (arith, delete-entries-set_rec n a v l e c.3)

  module _ (n a : ℕ) (l : List (Element V)) (e : Element V) (c : IsChain n l)
      (h : find a l ≡ some e) where
    pub move_to_front_lem : move_to_front a l ≡ e ∷ unlink a l
    unfolding move_to_front
    move_to_front_lem = rw (h, move_to_front)

    pub entries-move_to_front :
        entries (move_to_front a l) ≡ (e.key, e.rec) ∷ delete e.key (entries l)
    unfolding entries
    entries-move_to_front = rw (move_to_front_lem, entries-unlink n a l e c h)

    pub move_to_front-IsChain : IsChain n (move_to_front a l)
    move_to_front-IsChain = rw move_to_front_lem (
        ground (
          arith,
          find-lt n a l e c h,
          find-address a l e h,
          find-unlink n a e.address l c,
          address_of-unlink n a l e e.key c h,
          unlink-IsChain n a l e c h,
        ))

    pub address_of-move_to_front : (j : String) → address_of j (move_to_front a l) ≡ address_of j l
    unfolding address_of
    address_of-move_to_front j = rw move_to_front_lem (
        ground (
          arith,
          address_of-unlink n a l e j c h,
          address_of-find n a l e c h,
          find-address a l e h,
        ))

    pub length-move_to_front : length (move_to_front a l) ≡ length l
    length-move_to_front = rw move_to_front_lem (length-unlink a l e h)

  -- Only the empty list has no last element.
  pub length_of_back-none : (l : List (Element V)) → back l ≡ none → length l ≡ 0
  unfolding back
  length_of_back-none [] h = refl
  length_of_back-none (x ∷ []) h = absurd (ground arith)
  length_of_back-none (x ∷ y ∷ l) h = absurd (omega (arith, length_of_back-none (y ∷ l) h))

  pub find-back :
      (n : ℕ) (l : List (Element V)) (e : Element V)
      → IsChain n l
      → back l ≡ some e
      → find e.address l ≡ some e
  unfolding back find
  find-back n [] e c h = absurd (ground arith)
  find-back n (x ∷ []) e c h = ground arith
  find-back n (x ∷ y ∷ l) e c h = ground (arith, find-back n (y ∷ l) e c.3 h)

  pub entries-unlink-back :
      (n m : ℕ) (l : List (Element V)) (e : Element V)
      → IsChain n l
      → back l ≡ some e
      → length l ≡ suc m
      → entries (unlink e.address l) ≡ take m (entries l)
  unfolding back unlink entries
  entries-unlink-back n m [] e c h p = absurd (omega arith)
  entries-unlink-back n zero (x ∷ []) e c h p = ground arith
  entries-unlink-back n (suc m) (x ∷ []) e c h p = absurd (omega arith)
  entries-unlink-back n zero (x ∷ y ∷ l) e c h p = absurd (omega arith)
  entries-unlink-back n (suc m) (x ∷ y ∷ l) e c h p =
      ground (arith, entries-unlink-back n m (y ∷ l) e c.3 h, find-back n (y ∷ l) e c.3 h)
