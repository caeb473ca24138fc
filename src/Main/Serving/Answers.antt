-- ===== src/Main/Serving/Answers.antt =====
-- What the control socket of a client answers, and what it does to the client.
use tbore.Base.{
  ℕ, suc, ◌≡◌, refl, ap, ◌∙◌, sym, ◌==◌, string_eq, length, if◌then◌else◌, true, false, ◌++◌, List,
  [], ◌∷◌, Option, none, some, arith, Bool-cases, inl, inr,
}
use tbore.Client.Reloads.{Running, Event, triggers, step, run}
use tbore.Client.Tunnels.{get_tunnel_status}
use tbore.Main.{Texts, handle_command, status_lines}
use tbore.Main.Serving.{
  Accepted, accept_error, connection, meanwhile, serve_commands, start_client_control_server,
  unreached,
}

-- How many connections there are.
abbrev pub connections : List Accepted → ℕ
connections [] = 0
connections (connection received ∷ l) = suc (connections l)
connections (_ ∷ l) = connections l

run-append : (l l' : List Event) (r : Running) → run (l ++ l') r ≡ run l' (run l r)
unfolding run
run-append [] l' r = refl
run-append (e ∷ l) l' r = run-append l l' (step e r)

module _ (X : Texts) where
  -- What happens to the client: a connection that says `reload` is a trigger like a signal, and any
  -- other one is nothing.
  abbrev pub asked : Option (List ℕ) → List Event
  asked none = []
  asked (some buf) = if X.trim_space buf == "reload" then triggers ∷ [] else []

  abbrev pub events_of : List Accepted → List Event
  events_of [] = []
  events_of (accept_error ∷ l) = events_of l
  events_of (meanwhile events ∷ l) = events ++ events_of l
  events_of (connection received ∷ l) = asked received ++ events_of l

  handle_command_lem :
      (received : Option (List ℕ)) (r : Running)
      → (handle_command X received r).0 ≡ run (asked received) r
  unfolding handle_command run step
  handle_command_lem none r = refl
  handle_command_lem (some buf) r = elim (Bool-cases (X.trim_space buf == "reload")) [
    | inl reload ↦ rw (reload, handle_command) refl
    | inr other ↦ ground (arith, other)
  ]

  serve_commands_lem :
      (l : List Accepted) (r : Running)
      → ((serve_commands X l r).0 ≡ run (events_of l) r)
        × (length (serve_commands X l r).1 ≡ connections l)
  unfolding serve_commands
  serve_commands_lem [] r = (unfold run in refl, refl)
  serve_commands_lem (accept_error ∷ l) r = serve_commands_lem l r
  serve_commands_lem (meanwhile events ∷ l) r =
      let (same, count) = serve_commands_lem l (run events r) in
      (same ∙ sym (run-append events (events_of l) r), count)
  serve_commands_lem (connection received ∷ l) r =
      let r' = (handle_command X received r).0 in
      let (same, count) = serve_commands_lem l r' in
      (
        same
            ∙ ap (run (events_of l)) (handle_command_lem received r)
            ∙ sym (run-append (asked received) (events_of l) r),
        ap suc count,
      )

  serve_commands-append :
      (l l' : List Accepted) (r : Running)
      → (serve_commands X (l ++ l') r).1
        ≡ (serve_commands X l r).1 ++ (serve_commands X l' (serve_commands X l r).0).1
  unfolding serve_commands
  serve_commands-append [] l' r = refl
  serve_commands-append (accept_error ∷ l) l' r = serve_commands-append l l' r
  serve_commands-append (meanwhile events ∷ l) l' r = serve_commands-append l l' (run events r)
  serve_commands-append (connection received ∷ l) l' r =
      ap (λ answers. (handle_command X received r).1 ∷ answers)
        (serve_commands-append l l' (handle_command X received r).0)

  unreached_lem : (l : List Accepted) (r : Running) → (serve_commands X (unreached l) r).1 ≡ []
  unfolding serve_commands
  unreached_lem [] r = refl
  unreached_lem (accept_error ∷ l) r = unreached_lem l r
  unreached_lem (connection received ∷ l) r = unreached_lem l r
  unreached_lem (meanwhile events ∷ l) r = unreached_lem l (run events r)

  pub control_answers :
      (l l' : List Accepted) (buf : List ℕ) (r : Running)
      → X.trim_space buf ≡ "status"
      → let all = l ++ (connection (some buf) ∷ l') in
        let s = run (events_of l) r in
        ((start_client_control_server X true all r).0 ≡ run (events_of all) r)
        × (length (start_client_control_server X true all r).1 ≡ connections all)
        × ((start_client_control_server X true all r).1
            ≡ (start_client_control_server X true l r).1
              ++ (some (status_lines X (get_tunnel_status s.client.tunnels))
                  ∷ (start_client_control_server X true l' s).1))
        × ((start_client_control_server X false all r).1 ≡ [])
  unfolding start_client_control_server
  control_answers l l' buf r says =
      let all = l ++ (connection (some buf) ∷ l') in
      let (same, count) = serve_commands_lem all r in
      let before = (serve_commands_lem l r).0 in
      let told : (s : Running)
          → (serve_commands X (connection (some buf) ∷ l') s).1
            ≡ some (status_lines X (get_tunnel_status s.client.tunnels))
              ∷ (serve_commands X l' s).1 =
        λ s. unfold serve_commands handle_command string_eq in rw says refl in
      (
        same,
        count,
        serve_commands-append l (connection (some buf) ∷ l') r
            ∙ ap
                (λ s.
                  (serve_commands X l r).1 ++ (serve_commands X (connection (some buf) ∷ l') s).1)
                before
            ∙ ap (λ answers. (serve_commands X l r).1 ++ answers) (told (run (events_of l) r)),
        unreached_lem all r,
      )
