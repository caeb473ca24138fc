-- ===== src/Server/Status/Page/Lines.antt =====
-- Every tunnel has its line.
use tbore.Base.{
  ℕ, suc, ◌+◌, ◌-◌, ◌≡◌, refl, sym, ap, ◌∙◌, ◌==◌, nat_eq, String, length, get_elem?, [], ◌∷◌, some,
  arith,
}
use mathlib.Core.Option.{some-injective, none-ne-some}
use tbore.Base.Int.{ℤ}
use tbore.Base.GoMap.{GoMap, lookup, NodupKeys}
use tbore.Config.{ServerConfig}
use tbore.Server.Session.{Session, TunnelInfo}
use tbore.Server.Session.Invariant.{IsValid}
use tbore.Server.Status.{row}
use tbore.Server.Status.Page.{tunnel_at, lines_from, lines}

tunnel_at_lem :
    (port a : ℕ) (s : Session) (t : TunnelInfo)
    → lookup port s.tunnels ≡ some a
    → lookup a s.heap ≡ some t
    → tunnel_at port s ≡ some t
tunnel_at_lem port a s t bound held = ground (arith, bound, held)

module _ (fa : ℤ → String) (fp : ℕ → String) (s : Session) where
  -- The tunnels of this list are those of the session under its ports.
  abbrev IsPart : GoMap ℕ ℕ → Type 0
  IsPart [] = Unit
  IsPart ((port, a) ∷ l) =
      ((t : TunnelInfo) × (tunnel_at port s ≡ some t) × (t.remote_port ≡ port)) × IsPart l

  length-lines_from :
      (n i : ℕ) (l : GoMap ℕ ℕ) → IsPart l → length (lines_from fa fp n i l s) ≡ length l
  unfolding lines_from
  length-lines_from n i [] part = refl
  length-lines_from n i ((port, a) ∷ l) ((t, there, own), part) =
      rw (there, lines_from) (ap suc (length-lines_from n (suc i) l part))

  get_elem?-lines_from :
      (n i : ℕ) (l : GoMap ℕ ℕ) (p a : ℕ) (x : TunnelInfo)
      → IsPart l
      → lookup p l ≡ some a
      → tunnel_at p s ≡ some x
      → (k : ℕ) × (get_elem? (lines_from fa fp n i l s) k
          ≡ some (record {
            is_last = i + k == n - 1;
            remote_port = x.remote_port;
            texts = row fa fp x;
          }))
  unfolding lines_from lookup
  get_elem?-lines_from n i [] p a x part here there = absurd (none-ne-some a here)
  get_elem?-lines_from n i ((q, b) ∷ l) p a x ((t, stands, own), part) here there =
      elim (nat_eq.dec p q) [
        | yes same ↦
            let it : t ≡ x =
              some-injective t x (sym stands ∙ ap (λ r. tunnel_at r s) (sym same) ∙ there) in
            let start : i ≡ i + 0 = omega arith in
            (
              0,
              rw (stands, lines_from)
                  (λ j. some (record {
                    is_last = start j == n - 1;
                    remote_port = (it j).remote_port;
                    texts = row fa fp (it j);
                  })),
            )
        | no other ↦
            let (k, found) =
              get_elem?-lines_from n (suc i) l p a x part (ground (arith, here, other)) there in
            let next : suc i + k ≡ i + suc k = omega arith in
            (
              suc k,
              rw (stands, lines_from)
                  (found ∙ (λ j. some (record {
                    is_last = next j == n - 1;
                    remote_port = x.remote_port;
                    texts = row fa fp x;
                  }))),
            )
      ]

  IsPart-rest :
      (cfg : ServerConfig) (l : GoMap ℕ ℕ)
      → IsValid cfg s
      → NodupKeys l
      → ((p a : ℕ) → lookup p l ≡ some a → lookup p s.tunnels ≡ some a)
      → IsPart l
  unfolding lookup
  IsPart-rest cfg [] v u inside = tt
  IsPart-rest cfg ((q, b) ∷ l) v u inside =
      let here = inside q b (ground arith) in
      let (t, held, own) = v.linked q b here in
      (
        (t, tunnel_at_lem q b s t here held, own),
        IsPart-rest cfg l v u.1 (λ p a h. inside p a (ground (arith, h, u.0))),
      )

-- In a valid session: the status page has as many lines as the session has tunnels, and every tunnel
-- has a line, with its port and its texts, in which the branch of the tree is that of a last line
-- exactly on the last one.
pub lines-tunnels :
    (fa : ℤ → String) (fp : ℕ → String) (cfg : ServerConfig) (s : Session) (p a : ℕ)
    → IsValid cfg s
    → lookup p s.tunnels ≡ some a
    → (length (lines fa fp s) ≡ length s.tunnels)
      × (x : TunnelInfo) × (lookup a s.heap ≡ some x)
      × (k : ℕ) × (get_elem? (lines fa fp s) k
          ≡ some (record {
            is_last = k == length s.tunnels - 1;
            remote_port = p;
            texts = row fa fp x;
          }))
unfolding lines
lines-tunnels fa fp cfg s p a v bound =
    let part = IsPart-rest fa fp s cfg s.tunnels v v.unique (λ q b h. h) in
    let n = length s.tunnels in
    let (x, held, own) = v.linked p a bound in
    let (k, found) =
      get_elem?-lines_from fa fp s n 0 s.tunnels p a x part bound
        (tunnel_at_lem p a s x bound held) in
    let start : 0 + k ≡ k = omega arith in
    (
      length-lines_from fa fp s n 0 s.tunnels part,
      x,
      held,
      k,
      found ∙ (λ j.
          some (record { is_last = start j == n - 1; remote_port = own j; texts = row fa fp x })),
    )
