-- ===== src/Server/Session/Invariant.antt =====
-- The tunnels of a session, their listeners and the limit on their number.
use tbore.Base.{
  ℕ, suc, ◌≤◌, ◌≡◌, ◌≢◌, sym, ◌⊎◌, inl, inr, ◌==◌, nat_eq, length, Bool, true, false, not, ◌&&◌,
  ◌||◌, List, [], ◌∷◌, Option, none, some, arith, Option-cases, Bool-cases,
}
use tbore.Base.Int.{pos, ◌≤ℤ◌, leb_ℤ}
use tbore.Base.GoMap.{
  lookup, insert, NodupKeys, lookup-insert, lookup-delete, insert-NodupKeys, delete-NodupKeys,
  length-insert, length-delete-le,
}
use tbore.Config.{ServerConfig, is_valid_port}
use tbore.Server.Session.{
  Session, TunnelInfo, ForwardMsg, reply, put_uint32, new_tunnel, add_tunnel, close, update_tunnel,
  handle_forward_request, handle_cancel_forward_request,
}

abbrev pub mem : ℕ → List ℕ → Bool
mem p [] = false
mem p (q ∷ l) = p == q || mem p l

abbrev pub IsDistinct : List ℕ → Type 0
IsDistinct [] = Unit
IsDistinct (p ∷ l) = (mem p l ≡ false) × IsDistinct l

abbrev pub is_some {ℓ} : {A : Type ℓ} → Option A → Bool
is_some none = false
is_some (some _) = true

pub record IsValid (cfg : ServerConfig) (s : Session) : Type 0 where
  pub unique : NodupKeys s.tunnels
  pub limited : pos (length s.tunnels) ≤ℤ cfg.max_tunnels
  pub fresh : (a : ℕ) → s.next ≤ a → lookup a s.heap ≡ none
  pub linked :
      (p a : ℕ)
      → lookup p s.tunnels ≡ some a
      → (t : TunnelInfo) × (lookup a s.heap ≡ some t) × (t.remote_port ≡ p)
  pub bound : (p : ℕ) → mem p s.listening ≡ is_some (lookup p s.tunnels)
  pub distinct : IsDistinct s.listening

-- What `net.Listen` promises: the port that was asked for, and no port that is bound already.
pub record IsListen (listen : ℕ → Option ℕ) (s : Session) : Type 0 where
  pub asked : (p q : ℕ) → listen p ≡ some q → p ≢ 0 → q ≡ p
  pub free : (p q : ℕ) → listen p ≡ some q → mem q s.listening ≡ false

pub mem-close :
    (p q : ℕ) (l : List ℕ) → IsDistinct l → mem q (close p l) ≡ (not (q == p) && mem q l)
unfolding close
mem-close p q [] d = ground arith
mem-close p q (r ∷ l) d = ground (arith, mem-close p q l d.1)

pub close-IsDistinct : (p : ℕ) (l : List ℕ) → IsDistinct l → IsDistinct (close p l)
unfolding close
close-IsDistinct p [] d = tt
close-IsDistinct p (r ∷ l) d = ground (arith, close-IsDistinct p l d.1, mem-close p r l d.1)

-- A request for a port is refused without a trace, or adds a tunnel on the port that was bound.
pub handle_forward_request_cases :
    (cfg : ServerConfig) (listen : ℕ → Option ℕ) (msg : ForwardMsg) (s : Session)
    → (handle_forward_request cfg listen msg s ≡ (s, reply false))
      ⊎ ((p : ℕ) × (listen msg.port ≡ some p)
          × ((msg.port ≡ 0) ⊎ (is_valid_port cfg msg.port ≡ true))
          × (pos (suc (length s.tunnels)) ≤ℤ cfg.max_tunnels)
          × (handle_forward_request cfg listen msg s
              ≡ (add_tunnel cfg msg p s, record { accepted = true; payload = put_uint32 p })))
unfolding handle_forward_request
handle_forward_request_cases cfg listen msg s =
    elim (Bool-cases (not (msg.port == 0) && not (is_valid_port cfg msg.port))) [
      | inl outside ↦ inl (ground arith)
      | inr inside ↦ elim (Bool-cases (leb_ℤ cfg.max_tunnels (pos (length s.tunnels)))) [
        | inl full ↦ inl (ground arith)
        | inr room ↦ elim (Option-cases (listen msg.port)) [
          | inl failed ↦ inl (ground arith)
          | inr (p, bound) ↦ inr (p, bound, ground arith, ground arith, ground arith)
        ]
      ]
    ]

module _ (cfg : ServerConfig) (s : Session) (v : IsValid cfg s) where
  pub add_tunnel-IsValid :
      (msg : ForwardMsg) (p : ℕ)
      → mem p s.listening ≡ false
      → pos (suc (length s.tunnels)) ≤ℤ cfg.max_tunnels
      → IsValid cfg (add_tunnel cfg msg p s)
  unfolding add_tunnel new_tunnel
  add_tunnel-IsValid msg p free room =
      let absent : lookup p s.tunnels ≡ none = ground (arith, v.bound p) in
      let tunnel = new_tunnel cfg msg p in
      let unused = v.fresh s.next (omega arith) in
      record {
        unique = insert-NodupKeys p s.next s.tunnels v.unique;
        limited = ground (arith, length-insert p s.next s.tunnels, absent);
        fresh =
            λ a h. ground (arith, lookup-insert a s.next tunnel s.heap, v.fresh a (omega arith));
        linked = λ q a h. elim (nat_eq.dec q p) [
          | yes here ↦ (
            tunnel,
            ground
                (arith, lookup-insert q p s.next s.tunnels, lookup-insert a s.next tunnel s.heap),
            sym here,
          )
          | no elsewhere ↦
              let old : lookup q s.tunnels ≡ some a =
                ground (arith, lookup-insert q p s.next s.tunnels) in
              let (t, held, port) = v.linked q a old in
              (t, ground (arith, lookup-insert a s.next tunnel s.heap, unused), port)
        ];
        bound = λ q. ground (arith, lookup-insert q p s.next s.tunnels, v.bound q);
        distinct = (free, v.distinct);
      }

  pub handle_forward_request-IsValid :
      (listen : ℕ → Option ℕ) (msg : ForwardMsg)
      → IsListen listen s
      → IsValid cfg (handle_forward_request cfg listen msg s).0
  handle_forward_request-IsValid listen msg l =
      elim (handle_forward_request_cases cfg listen msg s) [
        | inl refused ↦ rw refused v
        | inr (p, bound, _, room, granted) ↦
            rw granted (add_tunnel-IsValid msg p (l.free msg.port p bound) room)
      ]

  pub write_tunnel-IsValid :
      (a : ℕ) (t t' : TunnelInfo)
      → lookup a s.heap ≡ some t
      → t'.remote_port ≡ t.remote_port
      → IsValid cfg (record s { heap = insert a t' s.heap })
  write_tunnel-IsValid a t t' held same = record {
    unique = v.unique;
    limited = v.limited;
    fresh = λ b h. ground (arith, lookup-insert b a t' s.heap, v.fresh b h);
    linked = λ q b h.
        let (u, here, port) = v.linked q b h in
        elim (nat_eq.dec b a) [
          | yes e ↦ (t', ground (arith, lookup-insert b a t' s.heap), ground arith)
          | no e ↦ (u, ground (arith, lookup-insert b a t' s.heap), port)
        ];
    bound = v.bound;
    distinct = v.distinct;
  }

  pub update_tunnel-IsValid :
      (p : ℕ) (f : TunnelInfo → TunnelInfo)
      → ((t : TunnelInfo) → (f t).remote_port ≡ t.remote_port)
      → IsValid cfg (update_tunnel p f s)
  unfolding update_tunnel
  update_tunnel-IsValid p f same = elim (Option-cases (lookup p s.tunnels)) [
    | inl missing ↦ rw (missing, update_tunnel) v
    | inr (a, found) ↦
        let (t, held, _) = v.linked p a found in
        rw (found, update_tunnel, held) (write_tunnel-IsValid a t (f t) held (same t))
  ]

  pub handle_cancel_forward_request-IsValid :
      (msg : ForwardMsg) → IsValid cfg (handle_cancel_forward_request msg s).0
  unfolding handle_cancel_forward_request
  handle_cancel_forward_request-IsValid msg = elim (Option-cases (lookup msg.port s.tunnels)) [
    | inl missing ↦ rw (missing, handle_cancel_forward_request) v
    | inr (a, found) ↦
        rw (found, handle_cancel_forward_request)
          (record {
            unique = delete-NodupKeys msg.port s.tunnels v.unique;
            limited = omega (arith, length-delete-le msg.port s.tunnels, v.limited);
            fresh = v.fresh;
            linked = λ q b h. v.linked q b (ground (arith, lookup-delete q msg.port s.tunnels));
            bound = λ q. ground (
              arith,
              lookup-delete q msg.port s.tunnels,
              mem-close msg.port q s.listening v.distinct,
              v.bound q,
            );
            distinct = close-IsDistinct msg.port s.listening v.distinct;
          })
  ]
