-- ===== src/Forward/Timeout.antt =====
-- When the watch closes a connection, by the timeout that the client configured.
use tbore.Base.{
  not, ◌-◌, ℕ, suc, ◌+◌, ◌*◌, ◌/◌, ◌<◌, ◌≤◌, ◌^◌, ◌≡◌, ◌↔◌, refl, sym, ap, subst, ◌∙◌, ◌++◌, leb,
  true, false, ◌&&◌, List, [], ◌∷◌, arith, Bool-cases, inl, inr,
}
use tbore.Base.Int.{ℤ, pos, negsuc, pos_part, neg_part, ltb_ℤ, scale_ℤ, wrap64, wrap64_pos}
use tbore.Config.{is_zero}
use tbore.Auth.Blocker.{second}
use tbore.Forward.{
  Activity, reads, ticks, Watch, watch, watch_step, unix, timeout_seconds, conn_timeout_of,
}

-- The second of the last read, or `last` if there is none.
abbrev pub last_heard : ℕ → List Activity → ℕ
last_heard last [] = last
last_heard last (reads now ∷ l) = last_heard (unix now) l
last_heard last (ticks now ∷ l) = last_heard last l

-- Some tick is at least `secs` seconds after the last read before it.
pub record Expires (secs last : ℕ) (l : List Activity) : Type 0 where
  pub before : List Activity
  pub now : ℕ
  pub after : List Activity
  pub split : l ≡ before ++ (ticks now ∷ after)
  pub silent : last_heard last before + secs ≤ unix now

Expires-cons :
    (secs last last' : ℕ) (x : Activity) (l : List Activity)
    → ((k : List Activity) → last_heard last (x ∷ k) ≡ last_heard last' k)
    → Expires secs last' l
    → Expires secs last (x ∷ l)
Expires-cons secs last last' x l same e = record {
  before = x ∷ e.before;
  now = e.now;
  after = e.after;
  split = ap (λ m. x ∷ m) e.split;
  silent = omega (arith, same e.before, e.silent);
}

module _ (timeout : ℤ) where
  abbrev open_at : ℕ → Watch
  open_at last = record { last_activity_time = last; is_closed = false }

  closed-watch :
      (l : List Activity) (w : Watch) → w.is_closed ≡ true → (watch timeout l w).is_closed ≡ true
  unfolding watch watch_step
  closed-watch [] w h = h
  closed-watch (reads now ∷ l) w h = closed-watch l _ h
  closed-watch (ticks now ∷ l) w h = closed-watch l _ (ground (arith, h))

  early_watch :
      (now : ℕ) (l : List Activity) (last : ℕ)
      → (ltb_ℤ (pos 0) timeout && leb (last + timeout_seconds timeout) (unix now)) ≡ false
      → (watch timeout (ticks now ∷ l) (open_at last)).is_closed ≡ true
      → (watch timeout l (open_at last)).is_closed ≡ true
  unfolding watch
  early_watch now l last early h =
      let same : watch_step timeout (ticks now) (open_at last) ≡ open_at last =
        unfold watch_step in ground (arith, early) in
      subst (λ w. (watch timeout l w).is_closed ≡ true) same h

  tick_lem :
      (now : ℕ) (w : Watch)
      → (watch_step timeout (ticks now) w).last_activity_time ≡ w.last_activity_time
  unfolding watch_step
  tick_lem now w = ground arith

  watch-Expires :
      (l : List Activity) (last : ℕ)
      → (watch timeout l (open_at last)).is_closed ≡ true
      → (ltb_ℤ (pos 0) timeout ≡ true) × Expires (timeout_seconds timeout) last l
  unfolding watch watch_step
  watch-Expires [] last h = absurd (ground (arith, h))
  watch-Expires (reads now ∷ l) last h =
      let (some_timeout, e) = watch-Expires l (unix now) h in
      (some_timeout, Expires-cons _ last (unix now) (reads now) l (λ k. refl) e)
  watch-Expires (ticks now ∷ l) last h =
      elim (Bool-cases (ltb_ℤ (pos 0) timeout && leb (last + timeout_seconds timeout) (unix now))) [
        | inl due ↦ (
          ground (arith, due),
          record { before = []; now = now; after = l; split = refl; silent = ground (arith, due) },
        )
        | inr early ↦
            let (some_timeout, e) = watch-Expires l last (early_watch now l last early h) in
            (some_timeout, Expires-cons _ last last (ticks now) l (λ k. refl) e)
      ]

  expired-watch :
      (before after : List Activity) (now : ℕ) (w : Watch)
      → ltb_ℤ (pos 0) timeout ≡ true
      → last_heard w.last_activity_time before + timeout_seconds timeout ≤ unix now
      → (watch timeout (before ++ (ticks now ∷ after)) w).is_closed ≡ true
  unfolding watch
  expired-watch [] after now w some_timeout silent =
      closed-watch after _ (unfold watch_step in ground (arith, some_timeout, silent))
  expired-watch (reads then_now ∷ before) after now w some_timeout silent =
      expired-watch before after now _ some_timeout (unfold watch_step in silent)
  expired-watch (ticks then_now ∷ before) after now w some_timeout silent =
      expired-watch before after now _ some_timeout (rw (tick_lem then_now w) silent)

  watch_iff :
      (l : List Activity) (last : ℕ)
      → ((watch timeout l (open_at last)).is_closed ≡ true)
        ↔ ((ltb_ℤ (pos 0) timeout ≡ true) × Expires (timeout_seconds timeout) last l)
  watch_iff l last = (
    watch-Expires l last,
    λ h. rw h.1.split (expired-watch h.1.before h.1.after h.1.now (open_at last) h.0 h.1.silent),
  )

-- `timeout` seconds in the configuration of a tunnel, as the server counts them: a negative number
-- stands for 300.
abbrev pub configured_seconds : ℤ → ℕ
configured_seconds (pos n) = n
configured_seconds (negsuc n) = 300

seconds_lem : (n : ℕ) → second * n / second ≡ n
seconds_lem n = omega arith

negative_lem :
    (n : ℕ)
    → second * suc n < 2 ^ 63
    → wrap64 (scale_ℤ second (negsuc n)) ≡ negsuc (second * suc n - 1)
unfolding wrap64
negative_lem n small = ground arith

conn_timeout_of_lem :
    (k : ℤ)
    → second * pos_part k < 2 ^ 63
    → second * neg_part k < 2 ^ 63
    → (ltb_ℤ (pos 0) (conn_timeout_of (wrap64 (scale_ℤ second k))) ≡ not (is_zero k))
      × (timeout_seconds (conn_timeout_of (wrap64 (scale_ℤ second k))) ≡ configured_seconds k)
unfolding conn_timeout_of
conn_timeout_of_lem (pos n) small _ =
    rw (wrap64_pos (second * n) small) (ground arith, ground (arith, seconds_lem n))
conn_timeout_of_lem (negsuc n) _ small = rw (negative_lem n small) (ground arith, ground arith)

-- If a client configures a timeout of `k` seconds, whose nanoseconds fit in 63 bits: the server closes
-- a connection for silence exactly if `k` is not 0 and some tick of its watch comes, by whole seconds,
-- at least `k` seconds after the last read in either direction, or after the start; 300 seconds where
-- `k` is negative.
pub idle_timeout_iff :
    (k : ℤ) (l : List Activity) (last : ℕ)
    → second * pos_part k < 2 ^ 63
    → second * neg_part k < 2 ^ 63
    → ((watch
          (conn_timeout_of (wrap64 (scale_ℤ second k)))
          l
          (record { last_activity_time = last; is_closed = false })).is_closed
        ≡ true)
      ↔ ((is_zero k ≡ false) × Expires (configured_seconds k) last l)
idle_timeout_iff k l last small small' =
    let (watched, secs) = conn_timeout_of_lem k small small' in
    let (closed, back) = watch_iff (conn_timeout_of (wrap64 (scale_ℤ second k))) l last in
    (
      λ h.
          let (some_timeout, e) = closed h in
          (ground (arith, sym watched ∙ some_timeout), subst (λ n. Expires n last l) secs e),
      λ h. back (watched ∙ ap not h.0, subst (λ n. Expires n last l) (sym secs) h.1),
    )
