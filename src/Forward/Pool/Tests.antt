-- ===== src/Forward/Pool/Tests.antt =====
-- A pool that keeps a list of buffers.
use tbore.Base.{ℕ, ◌+◌, ◌%◌, ◌^◌, ◌≡◌, refl, sum_by, true, List, [], ◌∷◌, some, none}
use tbore.Forward.{Read}
use tbore.Forward.Relay.{inwards, outwards}
use tbore.Forward.Pool.{
  BufferPool, Buffers, Event, opens, goes_on, serve_all, get_pool_stats, get_buffer,
}
use tbore.Forward.Pool.Balance.{holds_both, pool_balanced}

abbrev take_one : List ℕ → ℕ × List ℕ
take_one [] = (0, [])
take_one (buf ∷ l) = (buf, l)

abbrev stack : BufferPool
stack = record {
  Buffer = ℕ;
  State = List ℕ;
  make = 0;
  get = λ l. (some (take_one l).0, (take_one l).1);
  put = λ buf l. buf ∷ l;
}

abbrev empty : Buffers stack
empty = record {
  stats = record { buffer_pool = []; pool_get_count = 0; pool_put_count = 0; pool_alloc_count = 0 };
  connections = [];
}

abbrev last_read : Read
last_read = record { now = 0; bytes = []; failed = true }

-- Two connections, of which the first ends in both directions.
abbrev traffic : List Event
traffic =
    opens (last_read ∷ []) [] (last_read ∷ []) []
    ∷ opens [] [] [] []
    ∷ goes_on true 0 inwards
    ∷ goes_on true 1 inwards
    ∷ goes_on true 0 outwards
    ∷ []

pool_balanced_example :
    let b = serve_all {P = stack} traffic empty in
    let (taken, put_back, allocated) = get_pool_stats b.stats in
    ((put_back + sum_by holds_both b.connections) % 2 ^ 64 ≡ taken) × (allocated ≡ 0)
pool_balanced_example = pool_balanced (record { found = λ s. ((take_one s).0, refl) }) [] traffic

counted : get_pool_stats (serve_all {P = stack} traffic empty).stats ≡ (4, 2, 0)
unfolding serve_all get_pool_stats
counted = refl

-- A pool without `New` would have given nil.
abbrev no_new : BufferPool
no_new = record { Buffer = ℕ; State = Unit {0}; make = 0; get = λ s. (none, s); put = λ buf s. s }

allocated :
    (get_buffer {P = no_new} (record {
      buffer_pool = tt;
      pool_get_count = 0;
      pool_put_count = 0;
      pool_alloc_count = 7;
    })).1.pool_alloc_count
    ≡ 8
unfolding get_buffer
allocated = refl
