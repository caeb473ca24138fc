-- ===== src/Forward/Relay/Schedules.antt =====
-- The two copies at once do what each of them does alone.
use tbore.Base.{
  ℕ, zero, suc, ◌*◌, ◌<◌, ◌≤◌, ◌≡◌, refl, sym, ap, ap₂, subst, ◌∙◌, ◌++◌, length, take, Bool, true,
  false, ◌&&◌, List, [], ◌∷◌, arith, inl, inr, ◌⊎◌,
}
use mathlib.Core.List.{append_assoc, append-nil}
use tbore.Forward.{Read, Write, wrote, failed_after, Copied, copy_buffer}
use tbore.Forward.Relay.{
  Pc, reading, ended, writing, Copy, start_copy, turn, is_ended, Relay, Ends, Side, inwards,
  outwards, run, handle_client_connection,
}

-- What a copy still does, from where it waits.
abbrev pub left_to_do : Pc → List Read → List Write → Copied
left_to_do reading rs ws = copy_buffer rs ws
left_to_do (writing bytes) rs [] = record { sent = []; returned = false }
left_to_do (writing bytes) rs (failed_after n ∷ ws) = record {
  sent = take n bytes;
  returned = true;
}
left_to_do (writing bytes) rs (wrote ∷ ws) =
    let rest = copy_buffer rs ws in record { sent = bytes ++ rest.sent; returned = rest.returned }
left_to_do ended rs ws = record { sent = []; returned = true }

-- What it has done once that is done.
unfoldable pub outcome : Copy → Copied
outcome c =
    let rest = left_to_do c.pc c.reads c.writes in
    record { sent = c.sent ++ rest.sent; returned = rest.returned }

none_left_at :
    (p : Pc) (rs : List Read) (ws : List Write) → is_ended p ≡ true → (left_to_do p rs ws).sent ≡ []
none_left_at reading rs ws over = cc
none_left_at (writing bytes) rs ws over = cc
none_left_at ended rs ws over = refl

-- Of a copy that has returned, this is what it has sent.
pub ended_outcome : (c : Copy) → is_ended c.pc ≡ true → c.sent ≡ (outcome c).sent
unfolding outcome
ended_outcome c over =
    sym (append-nil c.sent) ∙ ap (λ x. c.sent ++ x) (sym (none_left_at c.pc c.reads c.writes over))

-- A bound on the turns that are left.
abbrev turns_of : Pc → List Read → ℕ
turns_of reading rs = 2 * length rs
turns_of (writing bytes) rs = suc (2 * length rs)
turns_of ended rs = 0

abbrev turns_left : Copy → ℕ
turns_left c = turns_of c.pc c.reads

-- Nothing is left to do, since the copy has returned, or waits for an answer that does not come.
abbrev IsSettled : Copy → Type 0
IsSettled c =
    ((left_to_do c.pc c.reads c.writes).sent ≡ [])
    × ((left_to_do c.pc c.reads c.writes).returned ≡ is_ended c.pc)

-- How often a side goes on.
abbrev pub turns_inwards : List Side → ℕ
turns_inwards [] = 0
turns_inwards (inwards ∷ l) = suc (turns_inwards l)
turns_inwards (outwards ∷ l) = turns_inwards l

abbrev pub turns_outwards : List Side → ℕ
turns_outwards [] = 0
turns_outwards (inwards ∷ l) = turns_outwards l
turns_outwards (outwards ∷ l) = suc (turns_outwards l)

module _ (closes : Bool) where
  outcome-turn_at :
      (p : Pc) (rs : List Read) (ws : List Write) (sent : List ℕ) (closed : Bool)
      → let c : Copy = record {
        reads = rs;
        writes = ws;
        pc = p;
        sent = sent;
        write_closed = closed;
      } in
        outcome (turn closes c) ≡ outcome c
  unfolding turn outcome copy_buffer
  outcome-turn_at reading [] ws sent closed = refl
  outcome-turn_at reading (r ∷ rs) [] sent closed = ground (arith, append-nil sent)
  outcome-turn_at reading (r ∷ rs) (failed_after n ∷ ws) sent closed = ground arith
  outcome-turn_at reading (r ∷ rs) (wrote ∷ ws) sent closed = ground arith
  outcome-turn_at (writing bytes) rs [] sent closed = refl
  outcome-turn_at (writing bytes) rs (failed_after n ∷ ws) sent closed =
      ground (arith, append-nil (sent ++ take n bytes))
  outcome-turn_at (writing bytes) rs (wrote ∷ ws) sent closed =
      ground (arith, append_assoc sent bytes (copy_buffer rs ws).sent)
  outcome-turn_at ended rs ws sent closed = refl

  outcome-turn : (c : Copy) → outcome (turn closes c) ≡ outcome c
  outcome-turn c = outcome-turn_at c.pc c.reads c.writes c.sent c.write_closed

  progress_at :
      (p : Pc) (rs : List Read) (ws : List Write) (sent : List ℕ) (closed : Bool)
      → let c : Copy = record {
        reads = rs;
        writes = ws;
        pc = p;
        sent = sent;
        write_closed = closed;
      } in
        ((turn closes c ≡ c) × IsSettled c) ⊎ (turns_left (turn closes c) < turns_left c)
  unfolding turn copy_buffer
  progress_at reading [] ws sent closed = inl (refl, (refl, refl))
  progress_at reading (r ∷ rs) ws sent closed = inr (ground arith)
  progress_at (writing bytes) rs [] sent closed = inl (refl, (refl, refl))
  progress_at (writing bytes) rs (failed_after n ∷ ws) sent closed = inr (omega arith)
  progress_at (writing bytes) rs (wrote ∷ ws) sent closed = inr (omega arith)
  progress_at ended rs ws sent closed = inl (refl, (refl, refl))

  progress :
      (c : Copy) → ((turn closes c ≡ c) × IsSettled c) ⊎ (turns_left (turn closes c) < turns_left c)
  progress c = progress_at c.pc c.reads c.writes c.sent c.write_closed

  -- `CloseWrite` is called when the loop has returned, and not before.
  closed-turn_at :
      (p : Pc) (rs : List Read) (ws : List Write) (sent : List ℕ) (closed : Bool)
      → closed ≡ (closes && is_ended p)
      → let c : Copy = record {
        reads = rs;
        writes = ws;
        pc = p;
        sent = sent;
        write_closed = closed;
      } in
        (turn closes c).write_closed ≡ (closes && is_ended (turn closes c).pc)
  unfolding turn
  closed-turn_at reading [] ws sent closed h = h
  closed-turn_at reading (r ∷ rs) ws sent closed h = ground (arith, h)
  closed-turn_at (writing bytes) rs [] sent closed h = h
  closed-turn_at (writing bytes) rs (failed_after n ∷ ws) sent closed h = ground (arith, h)
  closed-turn_at (writing bytes) rs (wrote ∷ ws) sent closed h = ground (arith, h)
  closed-turn_at ended rs ws sent closed h = h

  abbrev pub IsHonest : Copy → Type 0
  IsHonest c = c.write_closed ≡ (closes && is_ended c.pc)

  closed-turn : (c : Copy) → IsHonest c → IsHonest (turn closes c)
  closed-turn c h = closed-turn_at c.pc c.reads c.writes c.sent c.write_closed h

  unfoldable pub turns : ℕ → Copy → Copy
  turns zero c = c
  turns (suc n) c = turns n (turn closes c)

  pub outcome-turns : (n : ℕ) (c : Copy) → outcome (turns n c) ≡ outcome c
  unfolding turns
  outcome-turns zero c = refl
  outcome-turns (suc n) c = outcome-turns n (turn closes c) ∙ outcome-turn c

  pub closed-turns : (n : ℕ) (c : Copy) → IsHonest c → IsHonest (turns n c)
  unfolding turns
  closed-turns zero c h = h
  closed-turns (suc n) c h = closed-turns n (turn closes c) (closed-turn c h)

  settled_turns : (n : ℕ) (c : Copy) → turn closes c ≡ c → turns n c ≡ c
  unfolding turns
  settled_turns zero c still = refl
  settled_turns (suc n) c still = ap (turns n) still ∙ settled_turns n c still

  turns-IsSettled : (n : ℕ) (c : Copy) → turns_left c ≤ n → IsSettled (turns n c)
  unfolding turns
  turns-IsSettled zero c few = elim (progress c) [
    | inl (still, settled) ↦ settled
    | inr less ↦ absurd (omega (arith, less, few))
  ]
  turns-IsSettled (suc n) c few = elim (progress c) [
    | inl (still, settled) ↦ subst IsSettled (sym (settled_turns (suc n) c still)) settled
    | inr less ↦ turns-IsSettled n (turn closes c) (omega (arith, less, few))
  ]

  -- A copy alone, after `n` turns that may be too few or enough.
  turns_lem :
      (n : ℕ) (rs : List Read) (ws : List Write)
      → 2 * length rs ≤ n
      → ((turns n (start_copy rs ws)).sent ≡ (copy_buffer rs ws).sent)
        × ((turns n (start_copy rs ws)).write_closed ≡ (closes && (copy_buffer rs ws).returned))
        × (is_ended (turns n (start_copy rs ws)).pc ≡ (copy_buffer rs ws).returned)
  turns_lem n rs ws enough =
      let c = turns n (start_copy rs ws) in
      let same = outcome-turns n (start_copy rs ws) in
      let (none_left, rested) = turns-IsSettled n (start_copy rs ws) enough in
      let honest = closed-turns n (start_copy rs ws) (ground arith) in
      let returned : is_ended c.pc ≡ (copy_buffer rs ws).returned =
        sym rested ∙ (unfold outcome in ap (λ x. x.returned) same) in
      (
        sym (append-nil c.sent)
            ∙ ap (λ x. c.sent ++ x) (sym none_left)
            ∙ (unfold outcome in ap (λ x. x.sent) same),
        honest ∙ ap (λ b. closes && b) returned,
        returned,
      )

-- The order of the goroutines does not matter.
pub run_lem :
    (ends : Ends) (l : List Side) (r : Relay)
    → run ends l r ≡ record {
      inward = turns ends.inward (turns_inwards l) r.inward;
      outward = turns ends.outward (turns_outwards l) r.outward;
    }
unfolding run turns
run_lem ends [] r = refl
run_lem ends (inwards ∷ l) r = run_lem ends l _
run_lem ends (outwards ∷ l) r = run_lem ends l _

-- In whatever order the goroutines of both copies of a connection go on, once each has gone on twice
-- for every answer of its `Read`: each direction has sent what `copyBuffer` alone would send; it has
-- told its destination of the end exactly if it has returned, and if the destination is a TCP
-- connection in the case of the user; and the connection is closed exactly if both have returned.
pub relay-copy_buffer :
    (user_is_tcp : Bool) (l : List Side) (rs rs' : List Read) (ws ws' : List Write)
    → 2 * length rs ≤ turns_inwards l
    → 2 * length rs' ≤ turns_outwards l
    → let served =
        handle_client_connection user_is_tcp l
          (record { inward = start_copy rs ws; outward = start_copy rs' ws' }) in
      let back = copy_buffer rs ws in
      let forth = copy_buffer rs' ws' in
      (served.relay.inward.sent ≡ back.sent)
      × (served.relay.outward.sent ≡ forth.sent)
      × (served.relay.inward.write_closed ≡ (user_is_tcp && back.returned))
      × (served.relay.outward.write_closed ≡ forth.returned)
      × (served.closed ≡ (back.returned && forth.returned))
unfolding handle_client_connection
relay-copy_buffer user_is_tcp l rs rs' ws ws' enough enough' =
    let (back, told, returned) = turns_lem user_is_tcp (turns_inwards l) rs ws enough in
    let (forth, told', returned') = turns_lem true (turns_outwards l) rs' ws' enough' in
    rw run_lem (back, forth, told, told', ap₂ (λ a b. a && b) returned returned')
