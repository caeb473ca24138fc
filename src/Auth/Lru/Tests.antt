-- ===== src/Auth/Lru/Tests.antt =====
-- The theorems about the cache, at concrete calls.
use tbore.Base.{ℕ, ◌≡◌, string_eq, nat_eq, List, [], ◌∷◌}
use tbore.Base.Int.{pos}
use tbore.Auth.Lru.{new_lru_cache}
use tbore.Auth.Lru.Invariant.{IsValid, new_lru_cache-IsValid}
use tbore.Auth.Lru.View.{view}
use tbore.Auth.Lru.Runs.{LruCall, gets, puts, removes, apply_all, expected_all, apply_all-view}

abbrev lru_calls : List (LruCall ℕ)
lru_calls =
    puts "a" 1 ∷ puts "b" 2 ∷ gets "a" ∷ puts "c" 3 ∷ gets "b" ∷ removes "a" ∷ puts "d" 4 ∷ []

apply_all-view_example :
    (view (apply_all lru_calls (new_lru_cache (pos 2))).0
      ≡ (expected_all
          (new_lru_cache {V = ℕ} (pos 2)).capacity
          lru_calls
          (view (new_lru_cache (pos 2)))).0)
    × ((apply_all lru_calls (new_lru_cache (pos 2))).1
        ≡ (expected_all
            (new_lru_cache {V = ℕ} (pos 2)).capacity
            lru_calls
            (view (new_lru_cache (pos 2)))).1)
    × IsValid (apply_all lru_calls (new_lru_cache (pos 2))).0
apply_all-view_example =
    apply_all-view lru_calls (new_lru_cache (pos 2)) (new_lru_cache-IsValid (pos 2))
