-- ===== src/Client/Reloads/Triggers.antt =====
-- No reload that is asked for is lost, whatever else happens.
use tbore.Base.{
  ℕ, ◌≡◌, refl, ◌∙◌, inl, inr, ◌⊎◌, All, true, false, List, [], ◌∷◌, Option, none, some, arith,
  Bool-cases,
}
use tbore.Config.{TunnelConfig, ClientConfig, validate_client}
use tbore.Client.Tunnels.{Client, reload_tunnels, create_all, create_tunnel}
use tbore.Client.Reloads.{
  Running, Event, triggers, loses, connects, turns, trigger_reload, reload_loop, connect,
  lose_connection, step, run,
}

-- Every turn of the reload loop finds this configuration in the file.
abbrev pub Finds : ClientConfig → Event → Type 0
Finds cfg triggers = Unit
Finds cfg loses = Unit
Finds cfg (connects listen) = Unit
Finds cfg (turns loaded listen) = loaded ≡ some cfg

-- The configuration is in use, or the channel holds a signal to load it.
abbrev pub IsPending : ClientConfig → Running → Type 0
IsPending cfg r = (r.reload_chan ≡ true) ⊎ (r.client.cfg ≡ cfg)

pub trigger_reload-client : (r : Running) → (trigger_reload r).client ≡ r.client
unfolding trigger_reload
trigger_reload-client r = ground arith

pub create_all-cfg :
    (listen : TunnelConfig → Option ℕ) (ts : List TunnelConfig) (c : Client)
    → (create_all listen ts c).cfg ≡ c.cfg
unfolding create_all create_tunnel
create_all-cfg listen [] c = refl
create_all-cfg listen (t ∷ ts) c =
    create_all-cfg listen ts (create_tunnel (listen t) t c).0 ∙ ground arith

pub reload_loop-cfg :
    (cfg : ClientConfig) (listen : TunnelConfig → Option ℕ) (r : Running)
    → validate_client cfg ≡ none
    → r.reload_chan ≡ true
    → (reload_loop (some cfg) listen r).client.cfg ≡ cfg
unfolding reload_loop
reload_loop-cfg cfg listen r valid full =
    let x = reload_tunnels (some cfg) r.client in
    let same : x.client.cfg ≡ cfg = unfold reload_tunnels in ground (arith, valid) in
    ground (arith, full, create_all-cfg listen x.to_create x.client ∙ same)

step-IsPending :
    (cfg : ClientConfig) (e : Event) (r : Running)
    → validate_client cfg ≡ none
    → Finds cfg e
    → IsPending cfg r
    → IsPending cfg (step e r)
unfolding step
step-IsPending cfg triggers r valid finds p = unfold trigger_reload in ground (arith, p)
step-IsPending cfg loses r valid finds p = unfold lose_connection in p
step-IsPending cfg (connects listen) r valid finds p = elim p [
  | inl full ↦ inl (unfold connect in full)
  | inr there ↦ inr (unfold connect in create_all-cfg listen r.client.cfg.tunnels r.client ∙ there)
]
step-IsPending cfg (turns loaded listen) r valid finds p = elim (Bool-cases r.reload_chan) [
  | inr waits ↦ unfold reload_loop in ground (arith, waits, p)
  | inl goes ↦ inr (rw finds (reload_loop-cfg cfg listen r valid goes))
]

run-IsPending :
    (cfg : ClientConfig) (l : List Event) (r : Running)
    → validate_client cfg ≡ none
    → All (Finds cfg) l
    → IsPending cfg r
    → IsPending cfg (run l r)
unfolding run
run-IsPending cfg [] r valid finds p = p
run-IsPending cfg (e ∷ l) r valid finds p =
    run-IsPending cfg l (step e r) valid finds.1 (step-IsPending cfg e r valid finds.0 p)

-- A turn of the loop.
turn_lem :
    (cfg : ClientConfig) (listen : TunnelConfig → Option ℕ) (r : Running)
    → validate_client cfg ≡ none
    → IsPending cfg r
    → ((reload_loop (some cfg) listen r).client.cfg ≡ cfg)
      × ((reload_loop (some cfg) listen r).reload_chan ≡ false)
turn_lem cfg listen r valid p = elim (Bool-cases r.reload_chan) [
  | inl full ↦ (reload_loop-cfg cfg listen r valid full, unfold reload_loop in ground (arith, full))
  | inr empty ↦
      (unfold reload_loop in ground (arith, empty, p), unfold reload_loop in ground (arith, empty))
]

-- After a reload is triggered, in whatever state, and if from then on every turn of the reload loop
-- finds the same valid configuration: whatever else happens, signals, lost connections and new ones,
-- either that configuration is in use or a signal still waits; and it is in use once a connection
-- is made and the loop has a turn.
pub triggered_reached :
    (cfg : ClientConfig) (l : List Event) (r : Running) (listen listen' : TunnelConfig → Option ℕ)
    → validate_client cfg ≡ none
    → All (Finds cfg) l
    → (((run l (trigger_reload r)).reload_chan ≡ true)
        ⊎ ((run l (trigger_reload r)).client.cfg ≡ cfg))
      × ((step
            (turns (some cfg) listen')
            (step (connects listen) (run l (trigger_reload r)))).client.cfg
          ≡ cfg)
      × ((step
            (turns (some cfg) listen')
            (step (connects listen) (run l (trigger_reload r)))).reload_chan
          ≡ false)
unfolding step
triggered_reached cfg l r listen listen' valid finds =
    let pending =
      run-IsPending cfg l (trigger_reload r) valid finds
        (inl (unfold trigger_reload in ground arith)) in
    let s = run l (trigger_reload r) in
    let later = step-IsPending cfg (connects listen) s valid tt pending in
    let (used, empty) = turn_lem cfg listen' (step (connects listen) s) valid later in
    (pending, used, empty)
