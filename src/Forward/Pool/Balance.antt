-- ===== src/Forward/Pool/Balance.antt =====
-- Every buffer that a connection takes from the pool is put back.
use tbore.Base.{
  ℕ, suc, ◌+◌, ◌%◌, ◌^◌, ◌≡◌, refl, get_elem?, sum_by, sum_by-set, sum_by-append, if◌then◌else◌,
  Bool, true, List, [], ◌∷◌, arith, Option-cases, Bool-cases, inl, inr,
}
use tbore.Forward.{Read, Write}
use tbore.Forward.Relay.{
  Pc, reading, ended, writing, Copy, turn, is_ended, Relay, Ends, Side, inwards, outwards, step,
}
use tbore.Forward.Pool.{
  BufferPool, HasNew, Stats, Forwarding, Buffers, get_buffer, put_buffer, get_pool_stats,
  open_copies, put_at_end, go_on, Event, opens, goes_on, serve, serve_all,
}

-- The buffers that the goroutines of a connection hold.
abbrev pub holds : Copy → ℕ
holds c = if is_ended c.pc then 0 else 1

abbrev pub holds_both : {P : BufferPool} → Forwarding P → ℕ
holds_both f = holds f.relay.inward + holds f.relay.outward

-- A goroutine that has returned stays so.
ended-turn_at :
    (closes : Bool) (p : Pc) (rs : List Read) (ws : List Write) (sent : List ℕ) (closed : Bool)
    → is_ended p ≡ true
    → is_ended
        (turn closes
          (record { reads = rs; writes = ws; pc = p; sent = sent; write_closed = closed })).pc
      ≡ true
unfolding turn
ended-turn_at closes reading rs ws sent closed over = cc
ended-turn_at closes (writing bytes) rs ws sent closed over = cc
ended-turn_at closes ended rs ws sent closed over = refl

ended-turn : (closes : Bool) (c : Copy) → is_ended c.pc ≡ true → is_ended (turn closes c).pc ≡ true
ended-turn closes c = ended-turn_at closes c.pc c.reads c.writes c.sent c.write_closed

ended-step :
    (ends : Ends) (side : Side) (r : Relay)
    → (is_ended r.inward.pc ≡ true → is_ended (step ends side r).inward.pc ≡ true)
      × (is_ended r.outward.pc ≡ true → is_ended (step ends side r).outward.pc ≡ true)
unfolding step
ended-step ends inwards r = (ended-turn ends.inward r.inward, λ h. h)
ended-step ends outwards r = (λ h. h, ended-turn ends.outward r.outward)

module _ {P : BufferPool} where
  abbrev pub Balanced : ℕ → Stats P → Type 0
  Balanced held s =
      ((s.pool_put_count + held) % 2 ^ 64 ≡ s.pool_get_count) × (s.pool_alloc_count ≡ 0)

  get_buffer-Balanced :
      HasNew P → (held : ℕ) (s : Stats P) → Balanced held s → Balanced (suc held) (get_buffer s).1
  unfolding get_buffer
  get_buffer-Balanced new held s h =
      let (buf, there) = new.found s.buffer_pool in rw (there, get_buffer) (omega (arith, h))

  put_buffer-Balanced :
      (buf : P.Buffer) (held : ℕ) (s : Stats P)
      → Balanced (suc held) s
      → Balanced held (put_buffer buf s)
  unfolding put_buffer
  put_buffer-Balanced buf held s h = omega (arith, h)

  put_at_end-Balanced :
      (buf : P.Buffer) (c c' : Copy) (held : ℕ) (s : Stats P)
      → (is_ended c.pc ≡ true → is_ended c'.pc ≡ true)
      → Balanced (held + holds c) s
      → Balanced (held + holds c') (put_at_end buf c c' s)
  put_at_end-Balanced buf c c' held s stays h = elim (Bool-cases (is_ended c.pc)) [
    | inl over ↦ ground (arith, over, stays over, h)
    | inr goes ↦ elim (Bool-cases (is_ended c'.pc)) [
      | inl over' ↦
          let more : Balanced (suc held) s = ground (arith, goes, h) in
          let less = put_buffer-Balanced buf held s more in rw (goes, over') (omega (arith, less))
      | inr goes' ↦ ground (arith, goes, goes', h)
    ]
  ]

  abbrev pub IsBalanced : Buffers P → Type 0
  IsBalanced b = Balanced (sum_by holds_both b.connections) b.stats

  go_on-IsBalanced :
      (ends : Ends) (n : ℕ) (side : Side) (b : Buffers P)
      → IsBalanced b
      → IsBalanced (go_on ends n side b)
  unfolding go_on
  go_on-IsBalanced ends n side b h = elim (Option-cases (get_elem? b.connections n)) [
    | inl missing ↦ rw (missing, go_on) h
    | inr (f, there) ↦
        let r = step ends side f.relay in
        let (rest, before, after) = sum_by-set holds_both b.connections n f there in
        let (stays, stays') = ended-step ends side f.relay in
        let first =
          put_at_end-Balanced f.buf_a f.relay.inward r.inward (rest + holds f.relay.outward) b.stats
            stays (omega (arith, h, before)) in
        let second =
          put_at_end-Balanced f.buf_b f.relay.outward r.outward (rest + holds r.inward)
            (put_at_end f.buf_a f.relay.inward r.inward b.stats) stays' (omega (arith, first)) in
        rw (there, go_on) (omega (arith, second, after (record f { relay = r })))
  ]

  open_copies-IsBalanced :
      HasNew P
      → (rs rs' : List Read) (ws ws' : List Write) (b : Buffers P) → IsBalanced b
      → IsBalanced (open_copies rs ws rs' ws' b)
  unfolding open_copies
  open_copies-IsBalanced new rs rs' ws ws' b h =
      let more =
        get_buffer-Balanced new _ (get_buffer b.stats).1 (get_buffer-Balanced new _ b.stats h) in
      omega (arith, more, sum_by-append holds_both b.connections (_ ∷ []))

  serve_all-IsBalanced :
      HasNew P → (l : List Event) (b : Buffers P) → IsBalanced b → IsBalanced (serve_all l b)
  unfolding serve_all serve
  serve_all-IsBalanced new [] b h = h
  serve_all-IsBalanced new (opens rs ws rs' ws' ∷ l) b h =
      serve_all-IsBalanced new l _ (open_copies-IsBalanced new rs rs' ws ws' b h)
  serve_all-IsBalanced new (goes_on user_is_tcp n side ∷ l) b h =
      serve_all-IsBalanced new l _ (go_on-IsBalanced _ n side b h)

  -- From a start with no connection, and with a pool that never gives nil: however connections
  -- open and their copies go on, the number of buffers put back, and of those that goroutines still
  -- hold, is the number of buffers that were taken, modulo 2^64, and the pool's count of its own
  -- allocations is 0.
  pub pool_balanced :
      HasNew P
      → (pool : P.State) (l : List Event)
      → let b = serve_all {P = P} l (record {
        stats = record {
          buffer_pool = pool;
          pool_get_count = 0;
          pool_put_count = 0;
          pool_alloc_count = 0;
        };
        connections = [];
      }) in
        let (taken, put_back, allocated) = get_pool_stats b.stats in
        ((put_back + sum_by holds_both b.connections) % 2 ^ 64 ≡ taken) × (allocated ≡ 0)
  unfolding get_pool_stats
  pool_balanced new pool l = serve_all-IsBalanced new l _ (refl, refl)
