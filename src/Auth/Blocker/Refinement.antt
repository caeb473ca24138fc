-- ===== src/Auth/Blocker/Refinement.antt =====
-- `AuthBlocker` over a working database implements the unbounded memory of its specification,
-- whatever the size of its cache.
use tbore.Base.{
  sym, ℕ, ◌+◌, ◌<◌, ◌≡◌, refl, ap, ap₂, ◌∙◌, String, string_eq, All, Bool, List, [], ◌∷◌, some,
  arith,
}
use mathlib.Core.Option.{none-ne-some, some-injective}
use tbore.Base.Int.{ℤ, pos}
use tbore.Base.GoMap.{lookup}
use tbore.Auth.Lru.Elements.{entries}
use tbore.Auth.Record.{AuthFailureRecord}
use tbore.Auth.Lru.{LruCache, new_lru_cache, default_lru_size}
use tbore.Auth.Lru.Invariant.{IsValid, new_lru_cache-IsValid}
use tbore.Auth.Store.{Bucket, Json, IsReliable}
use tbore.Auth.Blocker.{
  or_default, AuthBlocker, AuthBlockerConfig, Disk, ok, new_auth_blocker, stored, is_blocked,
  record_failure, reset_failure, clean_expired,
}
use tbore.Auth.Blocker.Spec.{Settings, Memory, blocks, note_failure, forget, sweep}
use tbore.Auth.Blocker.Coherence.{
  Agrees, IsCoherent, get_record_lem, record_failure_lem, reset_failure_lem,
}
use tbore.Auth.Blocker.Cleaning.{clean_expired_lem}

pub data Call : Type 0 where
  checks fails succeeds : String → Call
  cleans : Call

abbrev pub settings : {B : Bucket} → AuthBlocker B → Settings
settings b = record {
  max_failures = b.max_failures;
  block_dur = b.block_dur;
  record_ttl = b.record_ttl;
}

-- A sequence of calls, each at its time, and the answers to those of `IsBlocked`.
unfoldable pub run :
    {B : Bucket} → Json → List (ℕ × Call) → AuthBlocker B → AuthBlocker B × List Bool
run json [] b = (b, [])
run json ((now, checks ip) ∷ calls) b =
    let (b', answer) = is_blocked json ip now b in
    let (b'', answers) = run json calls b' in (b'', answer ∷ answers)
run json ((now, fails ip) ∷ calls) b = run json calls (record_failure json ip now b)
run json ((now, succeeds ip) ∷ calls) b = run json calls (reset_failure ip b)
run json ((now, cleans) ∷ calls) b = run json calls (clean_expired json now b)

unfoldable pub expect : Settings → List (ℕ × Call) → Memory → Memory × List Bool
expect s [] m = (m, [])
expect s ((now, checks ip) ∷ calls) m =
    let (m', answers) = expect s calls m in (m', blocks m ip now ∷ answers)
expect s ((now, fails ip) ∷ calls) m = expect s calls (note_failure s ip now m)
expect s ((now, succeeds ip) ∷ calls) m = expect s calls (forget ip m)
expect s ((now, cleans) ∷ calls) m = expect s calls (sweep s now m)

module _ (B : Bucket) (J : Json) where
  pub record Implements (s : Settings) (b : AuthBlocker B) (m : Memory) : Type 0 where
    pub disk : B.Db
    pub coherent : IsCoherent B J b disk
    pub known : (ip : String) → stored B J disk ip ≡ m ip
    pub configured : settings b ≡ s

module _ {B : Bucket} {J : Json} {limit : ℕ} (reliable : IsReliable B J limit) (s : Settings) where
  -- The form in which the lemmas on the methods give their results.
  pub implements :
      (b : AuthBlocker B) (m : Memory) (d : B.Db) (l : LruCache AuthFailureRecord)
      → IsValid l
      → Agrees B J d l
      → ((ip : String) → stored B J d ip ≡ m ip)
      → settings b ≡ s
      → Implements B J s (record b { db = some d; lru = l }) m
  implements b m d l valid agrees known configured = record {
    disk = d;
    coherent = record { opened = refl; valid = valid; agrees = agrees };
    known = known;
    configured = configured;
  }

  pub is_blocked-Implements :
      (b : AuthBlocker B) (m : Memory) (ip : String) (now : ℕ)
      → Implements B J s b m
      → ((is_blocked J ip now b).1 ≡ blocks m ip now) × Implements B J s (is_blocked J ip now b).0 m
  unfolding is_blocked blocks
  is_blocked-Implements b m ip now i =
      let (l, read, valid, agrees) = get_record_lem b i.disk ip i.coherent in
      (
        rw (read, is_blocked, i.known ip),
        rw (read, is_blocked)
            (record {
              disk = i.disk;
              coherent = record { opened = i.coherent.opened; valid = valid; agrees = agrees };
              known = i.known;
              configured = i.configured;
            }),
      )

  pub record_failure-Implements :
      (b : AuthBlocker B) (m : Memory) (ip : String) (now : ℕ)
      → now + s.block_dur < limit
      → Implements B J s b m
      → Implements B J s (record_failure J ip now b) (note_failure s ip now m)
  unfolding note_failure
  record_failure-Implements b m ip now h i =
      let h' : now + b.block_dur < limit =
        ground (arith, ap (λ (x : Settings). x.block_dur) i.configured) in
      let (d, l, same, valid, agrees, known) =
        record_failure_lem reliable b i.disk ip now i.coherent h' in
      rw same (
        implements b _ d l valid agrees
          (λ j. known j ∙ ground (arith, i.known ip, i.known j, i.configured)) i.configured)

  pub reset_failure-Implements :
      (b : AuthBlocker B) (m : Memory) (ip : String)
      → Implements B J s b m
      → Implements B J s (reset_failure ip b) (forget ip m)
  unfolding forget
  reset_failure-Implements b m ip i =
      let (d, l, same, valid, agrees, known) = reset_failure_lem reliable b i.disk ip i.coherent in
      rw same
        (implements b _ d l valid agrees (λ j. known j ∙ ground (arith, i.known j)) i.configured)

  pub clean_expired-Implements :
      (b : AuthBlocker B) (m : Memory) (now : ℕ)
      → Implements B J s b m
      → Implements B J s (clean_expired J now b) (sweep s now m)
  unfolding sweep
  clean_expired-Implements b m now i =
      let (d, l, same, valid, agrees, known) = clean_expired_lem reliable b i.disk now i.coherent in
      rw same (
        implements b _ d l valid agrees
          (λ j. known j ∙ cc (i.known j, ap (λ (x : Settings). x.record_ttl) i.configured))
          i.configured)

  -- Over a reliable database, for every sequence of calls so early that the blocks they set end
  -- before `limit`: from a blocker that implements a memory, the answers are those of the
  -- unbounded memory, and the blocker at the end implements the memory at the end.
  pub run-Implements :
      (calls : List (ℕ × Call)) (b : AuthBlocker B) (m : Memory)
      → All (λ c. c.0 + s.block_dur < limit) calls
      → Implements B J s b m
      → ((run J calls b).1 ≡ (expect s calls m).1)
        × Implements B J s (run J calls b).0 (expect s calls m).0
  unfolding run expect
  run-Implements [] b m h i = (refl, i)
  run-Implements ((now, checks ip) ∷ calls) b m h i =
      let (answer, i') = is_blocked-Implements b m ip now i in
      let (answers, end) = run-Implements calls _ m h.1 i' in (ap₂ (◌∷◌) answer answers, end)
  run-Implements ((now, fails ip) ∷ calls) b m h i =
      run-Implements calls _ _ h.1 (record_failure-Implements b m ip now h.0 i)
  run-Implements ((now, succeeds ip) ∷ calls) b m h i =
      run-Implements calls _ _ h.1 (reset_failure-Implements b m ip i)
  run-Implements ((now, cleans) ∷ calls) b m h i =
      run-Implements calls _ _ h.1 (clean_expired-Implements b m now i)

module _ (B : Bucket) where
  new_auth_blocker-lru :
      (disk : Disk B.Db) (cfg : AuthBlockerConfig) (b : AuthBlocker B)
      → new_auth_blocker B disk cfg ≡ ok b
      → (n : ℤ) × (b.lru ≡ new_lru_cache n)
  unfolding new_auth_blocker
  new_auth_blocker-lru disk cfg b h = (pos (or_default cfg.lru_size default_lru_size), ground arith)

  new_auth_blocker-IsCoherent :
      (J : Json) (disk : Disk B.Db) (cfg : AuthBlockerConfig) (b : AuthBlocker B) (d : B.Db)
      → new_auth_blocker B disk cfg ≡ ok b
      → b.db ≡ some d
      → IsCoherent B J b d
  unfolding lookup entries new_lru_cache
  new_auth_blocker-IsCoherent json disk cfg b d h opened =
      let (n, fresh) = new_auth_blocker-lru disk cfg b h in
      record {
        opened = opened;
        valid = rw fresh (new_lru_cache-IsValid n);
        agrees = λ j r k. absurd (none-ne-some r (rw fresh at k));
      }

  -- A blocker that is opened over a database starts with its cache in a valid state and knows
  -- exactly what the database holds, under the settings that it chose.
  pub new_auth_blocker-Implements :
      (J : Json) (disk : Disk B.Db) (cfg : AuthBlockerConfig) (b : AuthBlocker B) (d : B.Db)
      → new_auth_blocker B disk cfg ≡ ok b
      → b.db ≡ some d
      → Implements B J (settings b) b (stored B J d)
  new_auth_blocker-Implements json disk cfg b d h opened = record {
    disk = d;
    coherent = new_auth_blocker-IsCoherent json disk cfg b d h opened;
    known = λ ip. refl;
    configured = refl;
  }

  -- If a blocker implements a memory, a new blocker over the same database that has the same
  -- settings implements that memory too: a restart forgets nothing.
  pub restart-Implements :
      (J : Json) (disk : Disk B.Db) (cfg : AuthBlockerConfig) (b b' : AuthBlocker B) (s : Settings)
      (m : Memory)
      → (i : Implements B J s b m) → new_auth_blocker B disk cfg ≡ ok b'
      → b'.db ≡ some i.disk
      → settings b' ≡ s
      → Implements B J s b' m
  restart-Implements json disk cfg b b' s m i h opened same = record {
    disk = i.disk;
    coherent = new_auth_blocker-IsCoherent json disk cfg b' i.disk h opened;
    known = i.known;
    configured = same;
  }

-- Over a reliable database, for calls so early that the blocks they set end before `limit`: if the
-- process ends after any calls and a new blocker with the same settings is opened over the database
-- that they left, it answers later calls as the unbounded memory does after all of them.
pub run-restart :
    {B : Bucket} {J : Json} {limit : ℕ} (reliable : IsReliable B J limit) (s : Settings)
    (b b' : AuthBlocker B) (m : Memory) (earlier later : List (ℕ × Call)) (disk : Disk B.Db)
    (cfg : AuthBlockerConfig) (d : B.Db)
    → All (λ c. c.0 + s.block_dur < limit) earlier
    → All (λ c. c.0 + s.block_dur < limit) later
    → Implements B J s b m
    → (run J earlier b).0.db ≡ some d
    → new_auth_blocker B disk cfg ≡ ok b'
    → b'.db ≡ some d
    → settings b' ≡ s
    → (run J later b').1 ≡ (expect s later (expect s earlier m).0).1
run-restart {B} {J} reliable s b b' m earlier later disk cfg d timely timely' i left made opened
      same =
    let (_, i') = run-Implements reliable s earlier b m timely i in
    let same_db : d ≡ i'.disk = some-injective d i'.disk (sym left ∙ i'.coherent.opened) in
    let fresh =
      restart-Implements B J disk cfg (run J earlier b).0 b' s (expect s earlier m).0 i' made
        (opened ∙ ap some same_db) same in
    (run-Implements reliable s later b' (expect s earlier m).0 timely' fresh).0
