-- ===== src/Client/Tunnels/Same.antt =====
-- Which tunnels a reload takes for the same.
use tbore.Base.{◌↔◌, ◌≡◌, refl, ap, nat_eq, string_eq, true, false, Option, none, some, arith}
use tbore.Base.Int.{ℤ, pos, negsuc}
use tbore.Config.{TunnelConfig}
use tbore.Client.Tunnels.{TunnelHandle, equal_ℤ, is_changed}

-- Two tunnels with the same local end, remote port and timeout.
pub record IsSame (t u : TunnelConfig) : Type 0 where
  pub local_ip : t.local_ip ≡ u.local_ip
  pub local_port : t.local_port ≡ u.local_port
  pub remote_port : t.remote_port ≡ u.remote_port
  pub timeout : t.timeout ≡ u.timeout

-- A handle has the tunnel that is wanted.
abbrev pub IsWanted : TunnelHandle → Option TunnelConfig → Type 0
IsWanted h none = ⊥
IsWanted h (some t) = IsSame h.tunnel t

-- What stands under a name is the tunnel that is wanted there, or nothing if none is.
abbrev pub Serves : Option TunnelHandle → Option TunnelConfig → Type 0
Serves none none = Unit
Serves none (some t) = ⊥
Serves (some h) wanted = IsWanted h wanted

pub IsSame-refl : (t : TunnelConfig) → IsSame t t
IsSame-refl t = record { local_ip = refl; local_port = refl; remote_port = refl; timeout = refl }

equal_ℤ_lem : (a b : ℤ) → equal_ℤ a b ≡ true → a ≡ b
equal_ℤ_lem (pos m) (pos n) h = let e : m ≡ n = ground arith in ap pos e
equal_ℤ_lem (negsuc m) (negsuc n) h = let e : m ≡ n = ground arith in ap negsuc e
equal_ℤ_lem (pos m) (negsuc n) h = absurd (ground arith)
equal_ℤ_lem (negsuc m) (pos n) h = absurd (ground arith)

equal_ℤ_refl : (a : ℤ) → equal_ℤ a a ≡ true
equal_ℤ_refl (pos m) = ground arith
equal_ℤ_refl (negsuc m) = ground arith

-- A reload takes exactly these tunnels for unchanged.
pub is_changed_iff : (t u : TunnelConfig) → (is_changed t u ≡ false) ↔ IsSame t u
unfolding is_changed
is_changed_iff t u = (
  λ h. record {
    local_ip = ground arith;
    local_port = equal_ℤ_lem t.local_port u.local_port (ground arith);
    remote_port = ground arith;
    timeout = equal_ℤ_lem t.timeout u.timeout (ground arith);
  },
  λ same.
      rw (same.local_ip, same.local_port, same.remote_port, same.timeout, is_changed)
        (ground (arith, equal_ℤ_refl u.local_port, equal_ℤ_refl u.timeout)),
)
