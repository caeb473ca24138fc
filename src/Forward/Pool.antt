-- ===== src/Forward/Pool.antt =====
-- The buffers of pkg/server/server.go: getBuffer, putBuffer and getPoolStats, as the connections of
-- handleClientConnection use them. What sync.Pool does is a parameter.
pub mod Balance
mod Tests
use tbore.Base.{
  ℕ, ◌+◌, ◌%◌, ◌^◌, ◌≡◌, get_elem?, set, if◌then◌else◌, Bool, true, not, ◌&&◌, List, [], ◌∷◌, ◌++◌,
  Option, none, some,
}
use tbore.Forward.{Read, Write}
use tbore.Forward.Relay.{Copy, start_copy, is_ended, Relay, Ends, Side, inwards, outwards, step}

-- A `sync.Pool` of buffers: `get` answers `none` for nil. `make` is `make([]byte, bufferSize)`.
pub record BufferPool : Type 1 where
  pub Buffer : Type 0
  pub State : Type 0
  pub make : Buffer
  pub get : State → Option Buffer × State
  pub put : Buffer → State → State

-- A pool with a function `New` never gives nil.
pub record HasNew (P : BufferPool) : Type 0 where
  pub found : (s : P.State) → (b : P.Buffer) × ((P.get s).0 ≡ some b)

module _ (P : BufferPool) where
  -- The counters are `int64`, here by their residues modulo 2^64.
  pub record Stats : Type 0 where
    pub buffer_pool : P.State
    pub pool_get_count : ℕ
    pub pool_put_count : ℕ
    pub pool_alloc_count : ℕ

  -- A connection between its start and the end of the program, with its buffers.
  pub record Forwarding : Type 0 where
    pub relay : Relay
    pub buf_a : P.Buffer
    pub buf_b : P.Buffer

  pub record Buffers : Type 0 where
    pub stats : Stats
    pub connections : List Forwarding

abbrev pub count_up : ℕ → ℕ
count_up n = (n + 1) % 2 ^ 64

module _ {P : BufferPool} where
  unfoldable pub get_buffer : Stats P → P.Buffer × Stats P
  get_buffer s =
      let (found, pool) = P.get s.buffer_pool in
      elim found [
        | none ↦ (
          P.make,
          record s { buffer_pool = pool; pool_alloc_count = count_up s.pool_alloc_count },
        )
        | some buf ↦
            (buf, record s { buffer_pool = pool; pool_get_count = count_up s.pool_get_count })
      ]

  unfoldable pub put_buffer : P.Buffer → Stats P → Stats P
  put_buffer buf s = record s {
    buffer_pool = P.put buf s.buffer_pool;
    pool_put_count = count_up s.pool_put_count;
  }

  -- `get`, `put` and `alloc`.
  unfoldable pub get_pool_stats : Stats P → ℕ × ℕ × ℕ
  get_pool_stats s = (s.pool_get_count, s.pool_put_count, s.pool_alloc_count)

  -- handleClientConnection starts its copies.
  unfoldable pub open_copies :
      List Read → List Write → List Read → List Write → Buffers P → Buffers P
  unfolding get_buffer
  open_copies rs ws rs' ws' b =
      let (buf_a, s) = get_buffer b.stats in
      let (buf_b, s') = get_buffer s in
      record {
        stats = s';
        connections =
            b.connections
            ++ record {
              relay = record { inward = start_copy rs ws; outward = start_copy rs' ws' };
              buf_a = buf_a;
              buf_b = buf_b;
            }
              ∷ [];
      }

  -- `defer putBuffer(buf)`, when a goroutine comes from one state to the next.
  abbrev pub put_at_end : P.Buffer → Copy → Copy → Stats P → Stats P
  put_at_end buf c c' s = if not (is_ended c.pc) && is_ended c'.pc then put_buffer buf s else s

  abbrev pub put_both : Forwarding P → Relay → Stats P → Stats P
  put_both f r s =
      put_at_end f.buf_b f.relay.outward r.outward (put_at_end f.buf_a f.relay.inward r.inward s)

  -- A goroutine of the n-th connection goes on.
  unfoldable pub go_on : Ends → ℕ → Side → Buffers P → Buffers P
  unfolding step put_buffer
  go_on ends n side b = elim (get_elem? b.connections n) [
    | none ↦ b
    | some f ↦
        let r = step ends side f.relay in
        record {
          stats = put_both f r b.stats;
          connections = set b.connections n (record f { relay = r });
        }
  ]

-- What happens next on the server.
pub data Event : Type 0 where
  opens : (rs : List Read) (ws : List Write) (rs' : List Read) (ws' : List Write) → Event
  goes_on : (user_is_tcp : Bool) (n : ℕ) (side : Side) → Event

module _ {P : BufferPool} where
  unfoldable pub serve : Event → Buffers P → Buffers P
  unfolding open_copies go_on
  serve (opens rs ws rs' ws') b = open_copies rs ws rs' ws' b
  serve (goes_on user_is_tcp n side) b =
      go_on (record { inward = user_is_tcp; outward = true }) n side b

  unfoldable pub serve_all : List Event → Buffers P → Buffers P
  unfolding serve
  serve_all [] b = b
  serve_all (e ∷ l) b = serve_all l (serve e b)
