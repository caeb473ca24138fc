-- ===== src/Forward/Order.antt =====
-- What arrives at the destination of a copy, and over two copies one behind the other.
use tbore.Base.{
  ℕ, zero, suc, All, subst, ◌≡◌, refl, sym, ap, ◌∙◌, ◌++◌, take, true, false, List, [], ◌∷◌, arith,
  Bool-cases, inl, inr,
}
use mathlib.Core.List.{append_assoc}
use tbore.Forward.{
  Read, Write, wrote, failed_after, copy_buffer, copy_buffer_with_timestamp, copy_buffer_rw, unix,
}

-- All bytes that a source gives.
abbrev pub bytes_of : List Read → List ℕ
bytes_of [] = []
bytes_of (r ∷ rs) = r.bytes ++ bytes_of rs

-- `l` starts with `k`.
abbrev pub IsPrefix : List ℕ → List ℕ → Type 0
IsPrefix k l = (rest : List ℕ) × (l ≡ k ++ rest)

abbrev pub IsGood : Read → Type 0
IsGood r = r.failed ≡ false

abbrev pub all_wrote : List Read → List Write → List Write
all_wrote [] ws = ws
all_wrote (r ∷ rs) ws = wrote ∷ all_wrote rs ws

pub take-IsPrefix : (n : ℕ) (l : List ℕ) → IsPrefix (take n l) l
take-IsPrefix zero l = (l, refl)
take-IsPrefix (suc n) [] = ([], refl)
take-IsPrefix (suc n) (b ∷ l) = let (rest, same) = take-IsPrefix n l in (rest, ap (λ m. b ∷ m) same)

IsPrefix-append : (k l m : List ℕ) → IsPrefix k l → IsPrefix k (l ++ m)
IsPrefix-append k l m (rest, same) = (rest ++ m, ap (λ x. x ++ m) same ∙ append_assoc k rest m)

IsPrefix-trans : (k l m : List ℕ) → IsPrefix k l → IsPrefix l m → IsPrefix k m
IsPrefix-trans k l m h (rest, same) = subst (IsPrefix k) (sym same) (IsPrefix-append k l rest h)

append-IsPrefix : (k l m : List ℕ) → IsPrefix l m → IsPrefix (k ++ l) (k ++ m)
append-IsPrefix k l m (rest, same) = (rest, ap (λ x. k ++ x) same ∙ sym (append_assoc k l rest))

copy_buffer-IsPrefix :
    (rs : List Read) (ws : List Write) → IsPrefix (copy_buffer rs ws).sent (bytes_of rs)
unfolding copy_buffer
copy_buffer-IsPrefix [] ws = ([], refl)
copy_buffer-IsPrefix (r ∷ rs) [] = (_, refl)
copy_buffer-IsPrefix (r ∷ rs) (failed_after n ∷ ws) = elim (Bool-cases r.failed) [
  | inl bad ↦ rw (bad, copy_buffer) (_, refl)
  | inr good ↦
      rw (good, copy_buffer)
        (IsPrefix-append (take n r.bytes) r.bytes (bytes_of rs) (take-IsPrefix n r.bytes))
]
copy_buffer-IsPrefix (r ∷ rs) (wrote ∷ ws) = elim (Bool-cases r.failed) [
  | inl bad ↦ rw (bad, copy_buffer) (_, refl)
  | inr good ↦
      rw (good, copy_buffer) (append-IsPrefix r.bytes _ (bytes_of rs) (copy_buffer-IsPrefix rs ws))
]

-- Over two copies one behind the other, where the second one reads what the first one wrote: the
-- bytes that come out are the first ones that went in, in order, whatever errors there are.
pub forwarded_in_order :
    (rs rs' : List Read) (ws ws' : List Write)
    → IsPrefix (bytes_of rs') (copy_buffer rs ws).sent
    → IsPrefix (copy_buffer_rw rs' ws').sent (bytes_of rs)
unfolding copy_buffer_rw
forwarded_in_order rs rs' ws ws' h =
    IsPrefix-trans _ _ (bytes_of rs) (copy_buffer-IsPrefix rs' ws')
      (IsPrefix-trans _ _ (bytes_of rs) h (copy_buffer-IsPrefix rs ws))

-- If every write succeeds, a copy returns with the first error of a read, and has sent all bytes read
-- before it, but none of those that came with it.
pub copy_buffer_complete :
    (rs more : List Read) (r : Read) (ws : List Write)
    → All IsGood rs
    → r.failed ≡ true
    → copy_buffer (rs ++ (r ∷ more)) (all_wrote rs ws)
      ≡ record { sent = bytes_of rs; returned = true }
unfolding copy_buffer
copy_buffer_complete [] more r [] good bad = ground (arith, bad)
copy_buffer_complete [] more r (wrote ∷ ws) good bad = ground (arith, bad)
copy_buffer_complete [] more r (failed_after n ∷ ws) good bad = ground (arith, bad)
copy_buffer_complete (q ∷ rs) more r ws good bad =
    ground (arith, good.0, copy_buffer_complete rs more r ws good.1 bad)

-- The copy that keeps a timestamp sends what the plain copy sends.
pub copy_buffer_with_timestamp-copy_buffer :
    (rs : List Read) (ws : List Write) (last : ℕ)
    → (copy_buffer_with_timestamp rs ws last).0 ≡ copy_buffer rs ws
unfolding copy_buffer copy_buffer_with_timestamp
copy_buffer_with_timestamp-copy_buffer [] ws last = refl
copy_buffer_with_timestamp-copy_buffer (r ∷ rs) [] last = refl
copy_buffer_with_timestamp-copy_buffer (r ∷ rs) (failed_after n ∷ ws) last = refl
copy_buffer_with_timestamp-copy_buffer (r ∷ rs) (wrote ∷ ws) last =
    ground (arith, copy_buffer_with_timestamp-copy_buffer rs ws (unix r.now))
