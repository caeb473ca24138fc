-- ===== src/Forward/Relay/HalfClose.antt =====
-- The end of a request that is passed on from the user to the local service.
use tbore.Base.{ℕ, ◌≡◌, sym, ap, ◌∙◌, ◌++◌, All, Bool, true, List, ◌∷◌, arith}
use tbore.Forward.{Read, Write}
use tbore.Forward.Order.{bytes_of, IsGood, all_wrote, copy_buffer_complete}
use tbore.Forward.Relay.{
  Copy, start_copy, is_ended, Side, handle_client_connection, handle_server_channels,
}
use tbore.Forward.Relay.Schedules.{
  outcome, turns, closed-turns, outcome-turns, turns_inwards, turns_outwards, run_lem,
  ended_outcome,
}

-- A copy of a source that gives `good` and then an error, to a destination that takes all of it.
abbrev pub copy_until : List Read → Read → List Read → List Write → Copy
copy_until good eof more ws = start_copy (good ++ (eof ∷ more)) (all_wrote good ws)

module _ (closes : Bool) (good more : List Read) (eof : Read) (ws : List Write)
    (fine : All IsGood good) (bad : eof.failed ≡ true) where
  turns-copy_until :
      (n : ℕ)
      → (turns closes n (copy_until good eof more ws)).write_closed ≡ true
      → (turns closes n (copy_until good eof more ws)).sent ≡ bytes_of good
  turns-copy_until n closed =
      let c = copy_until good eof more ws in
      let honest = closed-turns closes n c (ground arith) in
      let over : is_ended (turns closes n c).pc ≡ true = ground (arith, honest, closed) in
      let all : outcome c ≡ record { sent = bytes_of good; returned = true } =
        unfold outcome in copy_buffer_complete good more eof ws fine bad in
      ended_outcome (turns closes n c) over ∙ ap (λ x. x.sent) (outcome-turns closes n c ∙ all)

-- A user sends `good` and ends, and the copies of the server and of the client, each in any order of
-- its goroutines and in whatever state their other directions are, write without error. If the
-- channel gives the client, before its end, the bytes that the server wrote to it: once the client
-- has told the local service of the end, that service has all bytes of the user, and so has the
-- channel once the server has told it.
pub request_complete :
    (user_is_tcp local_is_tcp : Bool) (l l' : List Side) (good more good' more' : List Read)
    (eof eof' : Read) (ws ws' : List Write) (back back' : Copy)
    → All IsGood good
    → eof.failed ≡ true
    → All IsGood good'
    → eof'.failed ≡ true
    → (handle_client_connection user_is_tcp l (record {
      inward = back;
      outward = copy_until good eof more ws;
    })).relay.outward.write_closed
      ≡ true
    → bytes_of good'
      ≡ (handle_client_connection user_is_tcp l
          (record { inward = back; outward = copy_until good eof more ws })).relay.outward.sent
    → (handle_server_channels local_is_tcp l' (record {
      inward = copy_until good' eof' more' ws';
      outward = back';
    })).relay.inward.write_closed
      ≡ true
    → ((handle_client_connection user_is_tcp l
          (record { inward = back; outward = copy_until good eof more ws })).relay.outward.sent
        ≡ bytes_of good)
      × ((handle_server_channels local_is_tcp l' (record {
        inward = copy_until good' eof' more' ws';
        outward = back';
      })).relay.inward.sent
          ≡ bytes_of good)
unfolding handle_client_connection handle_server_channels
request_complete user_is_tcp local_is_tcp l l' good more good' more' eof eof' ws ws' back back' fine
      bad fine' bad' told same told' =
    let server =
      run_lem (record { inward = user_is_tcp; outward = true }) l
        (record { inward = back; outward = copy_until good eof more ws }) in
    let client =
      run_lem (record { inward = local_is_tcp; outward = true }) l'
        (record { inward = copy_until good' eof' more' ws'; outward = back' }) in
    let forth =
      ap (λ r. r.outward.sent) server
      ∙ turns-copy_until true good more eof ws fine bad (turns_outwards l)
          (sym (ap (λ r. r.outward.write_closed) server) ∙ told) in
    let onward =
      ap (λ r. r.inward.sent) client
      ∙ turns-copy_until local_is_tcp good' more' eof' ws' fine' bad' (turns_inwards l')
          (sym (ap (λ r. r.inward.write_closed) client) ∙ told') in
    (forth, onward ∙ same ∙ forth)
