-- ===== src/Auth/Blocker/Lifecycle.antt =====
-- pkg/auth/blocker.go, cleanLoop and Close, with the calls that other goroutines make meanwhile, and
-- Close of pkg/server/server.go.
pub mod Database
pub mod Closing
mod Tests
use tbore.Base.{
  ℕ, ◌==◌, nat_eq, String, if◌then◌else◌, Bool, true, false, not, ◌&&◌, List, [], ◌∷◌, Option, none,
  some,
}
use tbore.Auth.Store.{Bucket, Json}
use tbore.Auth.Blocker.{AuthBlocker, is_blocked, record_failure, reset_failure, clean_expired}
use mathlib.Core.Option

-- A database that can be closed, here `none`: then every transaction fails.
unfoldable pub closable : Bucket → Bucket
closable B = record {
  Db = Option B.Db;
  get = λ d k. elim d [ none ↦ [] | some x ↦ B.get x k ];
  put = λ d k v. elim d [ none ↦ none | some x ↦ Option.map (λ y. some y) (B.put x k v) ];
  delete = λ d k. elim d [ none ↦ none | some x ↦ Option.map (λ y. some y) (B.delete x k) ];
  cursor = λ d. elim d [ none ↦ [] | some x ↦ B.cursor x ];
}

unfoldable pub opened : {B : Bucket} → AuthBlocker B → AuthBlocker (closable B)
unfolding closable
opened b = record {
  db = Option.map (λ d. some d) b.db;
  lru = b.lru;
  max_failures = b.max_failures;
  block_dur = b.block_dur;
  record_ttl = b.record_ttl;
  clean_inter = b.clean_inter;
}

module _ (B : Bucket) where
  -- A blocker with its goroutine: whether the channel `stop` is closed, whether the goroutine has
  -- told `stopped` of its end, and whether a call of `Close` waits for that.
  pub record Lifecycle : Type 0 where
    pub blocker : AuthBlocker (closable B)
    pub stop : Bool
    pub stopped : Bool
    pub closing : Bool

-- `b.db.Close()`, if there is a database.
unfoldable pub close_db : (B : Bucket) → AuthBlocker (closable B) → AuthBlocker (closable B)
unfolding closable
close_db B b = record b { db = Option.map (λ _. none) b.db }

module _ {B : Bucket} where
  -- `go b.cleanLoop()`; `none` is the panic of `time.NewTicker`, if the interval is not positive.
  unfoldable pub start_cleaning : AuthBlocker B → Option (Lifecycle B)
  unfolding opened
  start_cleaning b =
      if b.clean_inter == 0
      then none
      else some (record { blocker = opened b; stop = false; stopped = false; closing = false })

  -- `Close` closes the channel, and `none` is the panic of a second time.
  unfoldable pub close_begins : Lifecycle B → Option (Lifecycle B)
  close_begins s = if s.stop then none else some (record s { stop = true; closing = true })

  unfoldable pub close_returns : Lifecycle B → Lifecycle B
  unfolding close_db
  close_returns s =
      if s.closing && s.stopped
      then record s { closing = false; blocker = close_db B s.blocker }
      else s

  -- `Close` of a server begins, if it has a blocker.
  unfoldable pub close_server : Option (Lifecycle B) → Option (Option (Lifecycle B))
  unfolding close_begins
  close_server none = some none
  close_server (some s) = Option.map (λ s'. some s') (close_begins s)

-- What happens next: the goroutine takes a tick, or sees that `stop` is closed; a call of `Close`
-- begins, or comes back from its wait; another goroutine calls a method.
pub data Event : Type 0 where
  ticks : (now : ℕ) → Event
  stops closes returns : Event
  asks fails : (ip : String) (now : ℕ) → Event
  resets : (ip : String) → Event

module _ {B : Bucket} (J : Json) where
  -- `select` may take a tick also when `stop` is closed.
  unfoldable pub clean_loop : Option ℕ → Lifecycle B → Lifecycle B
  clean_loop (some now) s =
      if s.stopped then s else record s { blocker = clean_expired J now s.blocker }
  clean_loop none s = if s.stop then record s { stopped = true } else s

  unfoldable pub step : Event → Lifecycle B → Option (Lifecycle B)
  unfolding clean_loop close_begins close_returns
  step (ticks now) s = some (clean_loop (some now) s)
  step stops s = some (clean_loop none s)
  step closes s = close_begins s
  step returns s = some (close_returns s)
  step (asks ip now) s = some (record s { blocker = (is_blocked J ip now s.blocker).0 })
  step (fails ip now) s = some (record s { blocker = record_failure J ip now s.blocker })
  step (resets ip) s = some (record s { blocker = reset_failure ip s.blocker })

  unfoldable pub run : List Event → Lifecycle B → Option (Lifecycle B)
  unfolding step
  run [] s = some s
  run (e ∷ l) s = elim (step e s) [ none ↦ none | some s' ↦ run l s' ]
