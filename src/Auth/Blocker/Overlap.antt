-- ===== src/Auth/Blocker/Overlap.antt =====
-- Calls of RecordFailure that overlap. Its methods lock nothing but the cache, so that several calls
-- may read an address before the first of them writes. Here each call has a record of its own, as it
-- has where nothing is held of the address. Calls that
-- share a record of the cache change it without a lock, and are not modelled.
use tbore.Base.{
  ℕ, ◌+◌, ◌<◌, ◌≤◌, ◌≡◌, refl, ap, ◌∙◌, ◌==◌, String, string_eq, All, if◌then◌else◌, inl, inr, ◌⊎◌,
  false, List, [], ◌∷◌, Option, none, some, arith,
}
use mathlib.Core.Option
use tbore.Base.Int.{increment, increment_pos}
use tbore.Auth.Record.{AuthFailureRecord, zero_record}
use tbore.Auth.Record
use tbore.Auth.Lru
use tbore.Auth.Lru.Invariant.{put-IsValid}
use tbore.Auth.Store.{Bucket, Json, IsReliable, IsRepresentable}
use tbore.Auth.Blocker.{AuthBlocker, get_record, put_record, fail_again, record_failure, is_blocked}
use tbore.Auth.Blocker.Spec.{Settings, Memory, blocks}
use tbore.Auth.Blocker.Coherence.{
  get_record_lem, put_record_lem, Agrees-put, fail_again-IsRepresentable,
}
use tbore.Auth.Blocker.Refinement.{Implements, implements, is_blocked-Implements}

module _ {B : Bucket} (J : Json) where
  -- RecordFailure after its `getRecord`, which has answered `found`.
  unfoldable pub finish_failure :
      String → ℕ → Option AuthFailureRecord → AuthBlocker B → AuthBlocker B
  unfolding put_record fail_again
  finish_failure ip now found b =
      let rec = fail_again b.max_failures b.block_dur now (Option.get_or found zero_record) in
      let b' = put_record J ip rec b in record b' { lru = Lru.put ip rec b'.lru }

  -- Every call reads, and then every call goes on, with the time and the record that it has.
  unfoldable pub read_all :
      String → List ℕ → AuthBlocker B → AuthBlocker B × List (ℕ × Option AuthFailureRecord)
  unfolding get_record
  read_all ip [] b = (b, [])
  read_all ip (now ∷ times) b =
      let (b', found) = get_record J ip b in
      let (b'', calls) = read_all ip times b' in (b'', (now, found) ∷ calls)

  unfoldable pub finish_all :
      String → List (ℕ × Option AuthFailureRecord) → AuthBlocker B → AuthBlocker B
  unfolding finish_failure
  finish_all ip [] b = b
  finish_all ip ((now, found) ∷ calls) b = finish_all ip calls (finish_failure ip now found b)

  unfoldable pub overlapping_failures : String → List ℕ → AuthBlocker B → AuthBlocker B
  unfolding read_all finish_all
  overlapping_failures ip times b = let (b', calls) = read_all ip times b in finish_all ip calls b'

  -- A call that overlaps with no other is RecordFailure.
  one_failure :
      (ip : String) (now : ℕ) (b : AuthBlocker B)
      → overlapping_failures ip (now ∷ []) b ≡ record_failure J ip now b
  unfolding overlapping_failures record_failure
  one_failure ip now b = refl

-- The memory after a failure of an address at this time, if the call has found that record.
abbrev pub failed_at : Settings → String → ℕ → Option AuthFailureRecord → Memory → Memory
failed_at s ip now found m j =
    if j == ip
    then some (fail_again s.max_failures s.block_dur now (Option.get_or found zero_record))
    else m j

-- A call at a time that comes before the limit, and that has found nothing.
abbrev pub IsFirst : ℕ → Settings → ℕ × Option AuthFailureRecord → Type 0
IsFirst limit s c = (c.0 + s.block_dur < limit) × (c.1 ≡ none)

module _ {B : Bucket} {J : Json} {limit : ℕ} (reliable : IsReliable B J limit) (s : Settings)
    (ip : String) where
  finish_failure-Implements :
      (b : AuthBlocker B) (m : Memory) (now : ℕ) (found : Option AuthFailureRecord)
      → now + s.block_dur < limit
      → (Option.get_or found zero_record).blocked_until < limit
      → Implements B J s b m
      → Implements B J s (finish_failure J ip now found b) (failed_at s ip now found m)
  unfolding finish_failure
  finish_failure-Implements b m now found h early i =
      let h' : now + b.block_dur < limit =
        ground (arith, ap (λ (x : Settings). x.block_dur) i.configured) in
      let old = Option.get_or found zero_record in
      let rec = fail_again b.max_failures b.block_dur now old in
      let fits : IsRepresentable limit rec =
        fail_again-IsRepresentable reliable b.max_failures b.block_dur now old h' early in
      let (d', written, known) = put_record_lem reliable b i.disk ip rec i.coherent.opened fits in
      rw written (
        implements reliable s b _ d' (Lru.put ip rec b.lru)
          (put-IsValid ip rec b.lru i.coherent.valid)
          (Agrees-put B J i.disk d' ip rec b.lru i.coherent.valid i.coherent.agrees
            (λ j r other k. ground (arith, known j)) (ground (arith, known ip)))
          (λ j. known j ∙ ground (arith, i.known j, i.configured)) i.configured)

  get_record-Implements :
      (b : AuthBlocker B) (m : Memory)
      → Implements B J s b m
      → Implements B J s (get_record J ip b).0 m × ((get_record J ip b).1 ≡ m ip)
  get_record-Implements b m i =
      let (l, read, valid, agrees) = get_record_lem b i.disk ip i.coherent in
      (
        rw read (record {
          disk = i.disk;
          coherent = record { opened = i.coherent.opened; valid = valid; agrees = agrees };
          known = i.known;
          configured = i.configured;
        }),
        ap (λ x. x.1) read ∙ i.known ip,
      )

  read_all-Implements :
      (times : List ℕ) (b : AuthBlocker B) (m : Memory)
      → All (λ now. now + s.block_dur < limit) times
      → m ip ≡ none
      → Implements B J s b m
      → Implements B J s (read_all J ip times b).0 m
        × All (IsFirst limit s) (read_all J ip times b).1
  unfolding read_all
  read_all-Implements [] b m timely unknown i = (i, tt)
  read_all-Implements (now ∷ times) b m timely unknown i =
      let (i', same) = get_record-Implements b m i in
      let (i'', firsts) = read_all-Implements times (get_record J ip b).0 m timely.1 unknown i' in
      (i'', ((timely.0, same ∙ unknown), firsts))

  -- What is remembered of the address: nothing, or one failure.
  abbrev HasOne : Option AuthFailureRecord → Type 0
  HasOne found =
      (found ≡ none)
      ⊎ ((now : ℕ) × (found ≡ some (fail_again s.max_failures s.block_dur now zero_record)))

  finish_all-Implements :
      (calls : List (ℕ × Option AuthFailureRecord)) (b : AuthBlocker B) (m : Memory)
      → All (IsFirst limit s) calls
      → HasOne (m ip)
      → Implements B J s b m
      → (m' : Memory) × HasOne (m' ip) × Implements B J s (finish_all J ip calls b) m'
  unfolding finish_all
  finish_all-Implements [] b m firsts one i = (m, one, i)
  finish_all-Implements ((now, found) ∷ calls) b m firsts one i =
      finish_all-Implements calls (finish_failure J ip now found b) (failed_at s ip now none m)
        firsts.1 (inr (now, ground arith))
        (rw firsts.0.1
          (finish_failure-Implements b m now none firsts.0.0 (omega (arith, firsts.0.0)) i))

  unblocked_lem :
      (m : Memory) (now : ℕ) → 2 ≤ s.max_failures → HasOne (m ip) → blocks m ip now ≡ false
  unfolding blocks fail_again Record.is_blocked increment
  unblocked_lem m now many (inl unknown) = rw (unknown, blocks) refl
  unblocked_lem m now many (inr (first, known)) =
      rw (known, blocks) (ground (arith, increment_pos 0 (omega arith), many))

  -- Over a reliable database, with a threshold of 2 failures or more and times so early that blocks
  -- end before `limit`: however many failures of an address of which nothing is held overlap, each
  -- reading before the first one writes, the address is not blocked afterwards, at any time.
  pub overlap_unblocked :
      (times : List ℕ) (b : AuthBlocker B) (m : Memory) (now : ℕ)
      → 2 ≤ s.max_failures
      → All (λ t. t + s.block_dur < limit) times
      → Implements B J s b m
      → m ip ≡ none
      → (is_blocked J ip now (overlapping_failures J ip times b)).1 ≡ false
  unfolding overlapping_failures
  overlap_unblocked times b m now many timely i unknown =
      let (i', firsts) = read_all-Implements times b m timely unknown i in
      let (m', one, i'') =
        finish_all-Implements (read_all J ip times b).1 (read_all J ip times b).0 m firsts
          (inl unknown) i' in
      (is_blocked-Implements reliable s _ m' ip now i'').0 ∙ unblocked_lem m' now many one
