-- ===== src/Auth/Tests.antt =====
-- The theorems about the package auth, at concrete inputs.
use tbore.Base.{
  ◌==◌, ap, ℕ, ◌+◌, ◌*◌, ◌<◌, ◌≡◌, ◌≢◌, refl, String, string_eq, nat_eq, All, true, false, List, [],
  ◌∷◌, ◌++◌, none, some, arith,
}
use tbore.Base.Int.{pos}
use tbore.Base.GoMap.{lookup, insert}
use tbore.Auth.Record.{AuthFailureRecord, zero_record}
use tbore.Auth.Record
use tbore.Auth.Lru.{new_lru_cache, put}
use tbore.Auth.Blocker.{
  AuthBlocker, Disk, ok, new_auth_blocker, open_db, or_default, is_blocked, second,
}
use tbore.Auth.Blocker.Overlap.{overlapping_failures, overlap_unblocked}
use tbore.Auth.Blocker.Refinement.{
  Call, checks, fails, succeeds, cleans, run, expect, Implements, settings, run-Implements,
  run-restart,
}
use tbore.Auth.Blocker.Streak.{all_fail, run-streak}
use tbore.Auth.Sample.{year_10000, memory_bucket, record_codec, sample-IsReliable}
use mathlib.Core.Bool.{false≢true}
use tbore.Auth.Keys.{load_or_generate_signer, load_or_generate_signer_again}
use tbore.Auth.Sample.Keys.{plain_keys, memory_files, memory_files-IsFiles}
use tbore.Auth.Sample.Blocker.{
  memory_disk, blocker_config, fresh_blocker, nothing_stored, fresh_blocker-Implements,
  nothing_stored-none,
}

abbrev calls : List (ℕ × Call)
calls =
    (1, fails "10.0.0.1")
    ∷ (2, fails "10.0.0.1")
    ∷ (3, checks "10.0.0.1")
    ∷ (4, fails "10.0.0.1")
    ∷ (5, checks "10.0.0.1")
    ∷ (6, fails "10.0.0.2")
    ∷ (7, succeeds "10.0.0.2")
    ∷ (90_000 * second, cleans)
    ∷ (90_001 * second, checks "10.0.0.1")
    ∷ []

calls-timely : All (λ c. c.0 + (settings fresh_blocker).block_dur < year_10000) calls
calls-timely = (
  omega arith,
  (
    omega arith,
    (
      omega arith,
      (omega arith, (omega arith, (omega arith, (omega arith, (omega arith, (omega arith, tt)))))),
    ),
  ),
)

run-Implements_example :
    ((run record_codec calls fresh_blocker).1
      ≡ (expect (settings fresh_blocker) calls nothing_stored).1)
    × Implements memory_bucket record_codec
        (settings fresh_blocker)
        (run record_codec calls fresh_blocker).0
        (expect (settings fresh_blocker) calls nothing_stored).0
run-Implements_example =
    run-Implements sample-IsReliable (settings fresh_blocker) calls fresh_blocker nothing_stored
      calls-timely fresh_blocker-Implements

abbrev earlier : List (ℕ × Call)
earlier = (1, fails "10.0.0.1") ∷ (2, fails "10.0.0.1") ∷ (3, fails "10.0.0.1") ∷ []

abbrev later : List (ℕ × Call)
later = (4, checks "10.0.0.1") ∷ (700 * second, checks "10.0.0.1") ∷ []

earlier-timely : All (λ c. c.0 + (settings fresh_blocker).block_dur < year_10000) earlier
earlier-timely = (omega arith, (omega arith, (omega arith, tt)))

left_behind :
    Implements memory_bucket record_codec
      (settings fresh_blocker)
      (run record_codec earlier fresh_blocker).0
      (expect (settings fresh_blocker) earlier nothing_stored).0
left_behind =
    (run-Implements sample-IsReliable (settings fresh_blocker) earlier fresh_blocker nothing_stored
      earlier-timely fresh_blocker-Implements).1

-- A disk with the database that the calls left, and the blocker that is opened over it.
abbrev left_disk : Disk memory_bucket.Db
left_disk = record memory_disk { open_file = λ path. some left_behind.disk }

abbrev restarted : AuthBlocker memory_bucket
restarted = record fresh_blocker { db = some left_behind.disk }

reopens : new_auth_blocker memory_bucket left_disk blocker_config ≡ ok restarted
unfolding new_auth_blocker open_db or_default string_eq
reopens = refl

run-restart_example :
    (run record_codec later restarted).1
    ≡ (expect
        (settings fresh_blocker)
        later
        (expect (settings fresh_blocker) earlier nothing_stored).0).1
run-restart_example =
    run-restart sample-IsReliable (settings fresh_blocker) fresh_blocker restarted nothing_stored
      earlier later left_disk blocker_config left_behind.disk earlier-timely
      (omega arith, (omega arith, tt)) fresh_blocker-Implements left_behind.coherent.opened reopens
      refl refl

run-streak_example :
    (run record_codec
      (all_fail "10.0.0.1" (1 ∷ 2 ∷ 3 ∷ []) ++ (4, checks "10.0.0.1") ∷ [])
      fresh_blocker).1
    ≡ true ∷ []
run-streak_example =
    run-streak sample-IsReliable (settings fresh_blocker) fresh_blocker nothing_stored "10.0.0.1" 1
      (2 ∷ 3 ∷ []) 4 fresh_blocker-Implements (nothing_stored-none "10.0.0.1") (omega arith)
      (omega arith, (omega arith, (omega arith, (omega arith, tt))))

overlap_unblocked_example :
    (is_blocked record_codec "10.0.0.1" 9
      (overlapping_failures record_codec "10.0.0.1" (1 ∷ 2 ∷ 3 ∷ 4 ∷ []) fresh_blocker)).1
    ≡ false
overlap_unblocked_example =
    overlap_unblocked sample-IsReliable (settings fresh_blocker) "10.0.0.1" (1 ∷ 2 ∷ 3 ∷ 4 ∷ [])
      fresh_blocker nothing_stored 9 (omega arith)
      (omega arith, (omega arith, (omega arith, (omega arith, tt)))) fresh_blocker-Implements
      (nothing_stored-none "10.0.0.1")

abbrev bare_blocker : AuthBlocker memory_bucket
bare_blocker = record fresh_blocker { db = none }

abbrev blocked_record : AuthFailureRecord
blocked_record = record { fail_count = pos 3; last_fail_at = 1; blocked_until = 9 }

abbrev one_blocked : AuthBlocker memory_bucket
one_blocked = record bare_blocker { lru = put "10.0.0.1" blocked_record (new_lru_cache (pos 2)) }

blocked_refused : Record.is_blocked blocked_record 5 ≡ true
unfolding Record.is_blocked nat_eq
blocked_refused = refl

abbrev key_path : String
key_path = "data/host_key"

key_path_set : key_path ≢ ""
unfolding string_eq
key_path_set p = false≢true (ap (λ s. s == "") p)

first_start :
    load_or_generate_signer plain_keys memory_files key_path (some (5 ∷ [])) []
    ≡ ((key_path, 5 ∷ []) ∷ [], some (5 ∷ []))
unfolding load_or_generate_signer string_eq lookup insert
first_start = refl

load_or_generate_signer_again_example :
    load_or_generate_signer plain_keys memory_files key_path
      (some (9 ∷ []))
      ((key_path, 5 ∷ []) ∷ [])
    ≡ ((key_path, 5 ∷ []) ∷ [], some (5 ∷ []))
load_or_generate_signer_again_example =
    load_or_generate_signer_again plain_keys memory_files memory_files-IsFiles key_path key_path_set
      (some (5 ∷ [])) (some (9 ∷ [])) [] ((key_path, 5 ∷ []) ∷ []) (5 ∷ []) first_start
