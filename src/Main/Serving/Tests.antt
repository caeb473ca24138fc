-- ===== src/Main/Serving/Tests.antt =====
-- Two commands over the control socket of a client.
use tbore.Base.{
  ◌++◌, length, ℕ, ◌≡◌, refl, ◌==◌, nat_eq, string_eq, String, if◌then◌else◌, true, false, List, [],
  ◌∷◌, none, some,
}
use tbore.Client.Sample.{client, new_config}
use tbore.Client.Tunnels.{get_tunnel_status}
use tbore.Client.Reloads.{Running, turns, run}
use tbore.Main.{Texts, status_lines}
use tbore.Main.Serving.{Accepted, accept_error, connection, meanwhile, start_client_control_server}
use tbore.Main.Serving.Answers.{connections, events_of, control_answers}

abbrev first_letter : List ℕ → String
first_letter [] = ""
first_letter (b ∷ l) = if b == b'r' then "reload" else if b == b's' then "status" else "other"

abbrev texts : Texts
texts = record {
  bytes = λ text. if text == "Reload triggered\n" then b'R' ∷ [] else b'?' ∷ [];
  trim_space = first_letter;
  line = λ name port ip local_port state. port ∷ [];
}

abbrev running : Running
running = record { client = client; reload_chan = false }

-- A reload is asked for, the loop takes it, and it drops the tunnel "web".
abbrev visits : List Accepted
visits =
    connection (some (b's' ∷ []))
    ∷ accept_error
    ∷ connection none
    ∷ connection (some (b'r' ∷ []))
    ∷ meanwhile (turns (some new_config) (λ t. some 2002) ∷ [])
    ∷ []

control_answers_example :
    let all = visits ++ (connection (some (b's' ∷ [])) ∷ (accept_error ∷ [])) in
    let s = run (events_of texts visits) running in
    ((start_client_control_server texts true all running).0 ≡ run (events_of texts all) running)
    × (length (start_client_control_server texts true all running).1 ≡ connections all)
    × ((start_client_control_server texts true all running).1
        ≡ (start_client_control_server texts true visits running).1
          ++ (some (status_lines texts (get_tunnel_status s.client.tunnels))
              ∷ (start_client_control_server texts true (accept_error ∷ []) s).1))
    × ((start_client_control_server texts false all running).1 ≡ [])
control_answers_example =
    control_answers texts visits (accept_error ∷ []) (b's' ∷ []) running
      (unfold nat_eq string_eq in refl)

answered :
    (start_client_control_server texts true visits running).1
    ≡ some (2000 ∷ 2001 ∷ []) ∷ none ∷ some (b'R' ∷ []) ∷ []
unfolding start_client_control_server get_tunnel_status string_eq nat_eq
answered = refl
