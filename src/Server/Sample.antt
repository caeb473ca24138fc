-- ===== src/Server/Sample.antt =====
-- A semaphore that is a size and a count, and a configuration, for the concrete inputs.
use tbore.Base.{
  String, List, [], ◌∷◌, ℕ, zero, suc, ◌<◌, ◌≡◌, refl, sym, ap, nat_eq, if◌then◌else◌, false,
  Option, none, some, arith, Bool-cases, inl, inr,
}
use mathlib.Core.Option.{some-injective, none-ne-some}
use tbore.Base.Int.{ℤ, pos, ◌≤ℤ◌, leb_ℤ}
use tbore.Config.{ServerConfig}
use tbore.Server.Connections.{Semaphore, IsSemaphore}

abbrev pub release_one : ℤ × ℕ → Option (ℤ × ℕ)
release_one (n, zero) = none
release_one (n, suc k) = some (n, k)

abbrev pub counting : Semaphore
counting = record {
  Sem = ℤ × ℕ;
  new_weighted = λ n. (n, 0);
  try_acquire = λ s. if leb_ℤ (pos (suc s.1)) s.0 then some (s.0, suc s.1) else none;
  release = release_one;
}

acquired :
    (s s' : ℤ × ℕ)
    → counting.try_acquire s ≡ some s'
    → (s'.1 ≡ suc s.1) × (s'.0 ≡ s.0) × (pos (suc s.1) ≤ℤ s.0)
acquired s s' h = elim (Bool-cases (leb_ℤ (pos (suc s.1)) s.0)) [
  | inl room ↦
      let same = some-injective (s.0, suc s.1) s' (rw room at h) in
      (ap (λ x. x.1) (sym same), ap (λ x. x.0) (sym same), ground arith)
  | inr full ↦ absurd (none-ne-some s' (rw full at h))
]

room : (s : ℤ × ℕ) → pos (suc s.1) ≤ℤ s.0 → (s' : ℤ × ℕ) × (counting.try_acquire s ≡ some s')
room s h = ((s.0, suc s.1), ground arith)

released :
    (s : ℤ × ℕ)
    → 0 < s.1
    → (s' : ℤ × ℕ) × (release_one s ≡ some s') × (suc s'.1 ≡ s.1) × (s'.0 ≡ s.0)
released (n, zero) h = absurd (omega arith)
released (n, suc k) h = ((n, k), refl, refl, refl)

empty : (s : ℤ × ℕ) → s.1 ≡ 0 → release_one s ≡ none
empty (n, zero) h = refl
empty (n, suc k) h = absurd (omega (arith, h))

pub counting-IsSemaphore : IsSemaphore counting
counting-IsSemaphore = record {
  held = λ s. s.1;
  size = λ s. s.0;
  new_weighted = λ n. (refl, refl);
  try_acquire = acquired;
  try_acquire_room = room;
  release = released;
  release_free = empty;
}

abbrev pub config : ServerConfig
config = record {
  port = pos 7835;
  token = "secret";
  min_port = 1024;
  max_port = 2048;
  max_connections = pos 100;
  max_tunnels = pos 2;
  bind_addr = "0.0.0.0";
  host_key_path = "";
  max_conns_per_tunnel = pos 100;
  auth_disabled = false;
  auth_max_failures = pos 3;
  auth_block_duration = pos 600;
  auth_lru_size = pos 1000;
  auth_block_db_path = "";
  auth_clean_interval = pos 60;
  auth_record_ttl = pos 86_400;
}

abbrev pub token_bytes : String → List ℕ
token_bytes token = 1 ∷ 2 ∷ 3 ∷ []
