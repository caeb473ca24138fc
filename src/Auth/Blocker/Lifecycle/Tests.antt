-- ===== src/Auth/Blocker/Lifecycle/Tests.antt =====
-- A blocker over a database in memory that is closed.
use tbore.Base.{◌⊎◌, ◌≡◌, refl, nat_eq, ◌++◌, true, false, List, [], ◌∷◌, none, some}
use tbore.Auth.Sample.{memory_bucket, record_codec}
use tbore.Auth.Sample.Blocker.{memory_disk, blocker_config, fresh_blocker, opens}
use tbore.Auth.Blocker.{clean_expired}
use tbore.Auth.Blocker.Lifecycle.{
  closable, opened, Lifecycle, start_cleaning, Event, ticks, stops, closes, returns, asks, fails,
  resets, run, step, close_begins, close_server,
}
use tbore.Auth.Blocker.Lifecycle.Database.{is_open, is_shut}
use tbore.Auth.Blocker.Lifecycle.Closing.{cleaned_open, close_ends}

abbrev at_start : Lifecycle memory_bucket
at_start = record { blocker = opened fresh_blocker; stop = false; stopped = false; closing = false }

abbrev waiting : Lifecycle memory_bucket
waiting = record { blocker = opened fresh_blocker; stop = true; stopped = false; closing = true }

-- A tick while `Close` waits.
late_tick : run record_codec (closes ∷ ticks 5 ∷ []) at_start ≡ some waiting
unfolding run step close_begins
late_tick = unfold clean_expired opened closable in refl

started : start_cleaning fresh_blocker ≡ some at_start
unfolding start_cleaning nat_eq
started = refl

abbrev before : List Event
before = fails "10.0.0.1" 3 ∷ ticks 4 ∷ []

abbrev during : List Event
during = asks "10.0.0.1" 5 ∷ resets "10.0.0.1" ∷ ticks 6 ∷ []

abbrev after : List Event
after = ticks 5 ∷ stops ∷ returns ∷ []

cleaned_open_example :
    (s s1 s2 : Lifecycle memory_bucket) × (start_cleaning fresh_blocker ≡ some s)
    × (run record_codec before s ≡ some s1)
    × (s1.stopped ≡ false)
    × (is_open memory_bucket s1.blocker ≡ true)
    × (run record_codec (closes ∷ after) s1 ≡ some s2)
    × ((s2.stopped ≡ true) ⊎ (is_open memory_bucket s2.blocker ≡ true))
cleaned_open_example =
    cleaned_open memory_bucket record_codec memory_disk blocker_config fresh_blocker opens before
      after (tt, (tt, tt)) (tt, (tt, (tt, tt)))

close_ends_example :
    (s s' : Lifecycle memory_bucket) × (start_cleaning fresh_blocker ≡ some s)
    × (run record_codec (before ++ (closes ∷ (during ++ (stops ∷ returns ∷ [])))) s ≡ some s')
    × (s'.stopped ≡ true)
    × (s'.closing ≡ false)
    × (is_shut memory_bucket s'.blocker ≡ true)
close_ends_example =
    close_ends memory_bucket record_codec memory_disk blocker_config fresh_blocker opens before
      during (tt, (tt, tt)) (tt, (tt, (tt, tt)))

closed_twice : run record_codec (closes ∷ closes ∷ []) at_start ≡ none
unfolding run close_begins
closed_twice = refl

no_blocker : close_server {B = memory_bucket} none ≡ some none
unfolding close_server
no_blocker = refl
