-- ===== src/Auth/Sample/Keys.antt =====
-- Files in memory, and keys that are their own bytes.
use tbore.Base.{
  ℕ, ◌≡◌, refl, subst, string_eq, String, Bool, true, false, List, Option, none, some, arith,
}
use mathlib.Core.Option.{some-injective}
use tbore.Base.GoMap.{GoMap, lookup, insert, lookup-insert}
use tbore.Auth.Keys.{KeyTools, Files, IsFiles}

abbrev pub plain_keys : KeyTools
plain_keys = record {
  Key = List ℕ;
  Signer = List ℕ;
  pem_bytes = λ key. key;
  parse_private_key = λ bytes. some bytes;
}

abbrev has {ℓ} : {A : Type ℓ} → Option A → Bool
has none = false
has (some _) = true

abbrev pub memory_files : Files
memory_files = record {
  Disk = GoMap String (List ℕ);
  stat = λ d path. has (lookup path d);
  read_file = λ d path. lookup path d;
  write_file = λ d path bytes. some (insert path bytes d);
}

shown :
    (d : GoMap String (List ℕ)) (path : String) (bytes : List ℕ)
    → lookup path (insert path bytes d) ≡ some bytes
shown d path bytes = ground (arith, lookup-insert path path bytes d)

pub memory_files-IsFiles : IsFiles memory_files
memory_files-IsFiles = record {
  stat-write_file = λ d d' path bytes h.
      subst (λ (x : memory_files.Disk). memory_files.stat x path ≡ true) (some-injective _ _ h)
        (rw (shown d path bytes) refl);
  read_file-write_file = λ d d' path bytes h.
      subst (λ (x : memory_files.Disk). memory_files.read_file x path ≡ some bytes)
        (some-injective _ _ h) (shown d path bytes);
}
