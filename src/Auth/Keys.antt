-- ===== src/Auth/Keys.antt =====
-- pkg/auth/keys.go: the host key of a server. RSA, PEM, the parser of private keys and the file
-- system are parameters.
use tbore.Base.{
  ℕ, ◌==◌, string_eq, String, ◌≡◌, ◌≢◌, sym, ap, ◌∙◌, if◌then◌else◌, Bool, true, false, List,
  Option, none, some, arith, inl, inr, Option-cases, Bool-cases,
}
use mathlib.Core.Option.{none-ne-some}

-- `pem_bytes` is `pem.EncodeToMemory` of the block with `x509.MarshalPKCS1PrivateKey`.
pub record KeyTools : Type 1 where
  pub Key : Type 0
  pub Signer : Type 0
  pub pem_bytes : Key → List ℕ
  pub parse_private_key : List ℕ → Option Signer

-- `os.Stat`, `os.ReadFile` and `os.WriteFile`; `none` is an error.
pub record Files : Type 1 where
  pub Disk : Type 0
  pub stat : Disk → String → Bool
  pub read_file : Disk → String → Option (List ℕ)
  pub write_file : Disk → String → List ℕ → Option Disk

-- A file that was written is there and has the bytes that were written.
pub record IsFiles (F : Files) : Type 0 where
  pub stat-write_file :
      (d d' : F.Disk) (path : String) (bytes : List ℕ)
      → F.write_file d path bytes ≡ some d'
      → F.stat d' path ≡ true
  pub read_file-write_file :
      (d d' : F.Disk) (path : String) (bytes : List ℕ)
      → F.write_file d path bytes ≡ some d'
      → F.read_file d' path ≡ some bytes

module _ (K : KeyTools) where
  -- `key` is what `rsa.GenerateKey` returns.
  unfoldable pub generate_signer : Option K.Key → Option K.Signer
  generate_signer key = elim key [ none ↦ none | some k ↦ K.parse_private_key (K.pem_bytes k) ]

  module _ (F : Files) where
    unfoldable pub load_or_generate_signer :
        String → Option K.Key → F.Disk → F.Disk × Option K.Signer
    unfolding generate_signer
    load_or_generate_signer path key d =
        if path == ""
        then (d, generate_signer key)
        else if F.stat d path
        then (d, elim (F.read_file d path) [ none ↦ none | some bytes ↦ K.parse_private_key bytes ])
        else elim key [
          | none ↦ (d, none)
          | some k ↦ elim (F.write_file d path (K.pem_bytes k)) [
            | none ↦ (d, none)
            | some d' ↦ (d', K.parse_private_key (K.pem_bytes k))
          ]
        ]

module _ (K : KeyTools) (F : Files) (laws : IsFiles F) (path : String) (given : path ≢ "") where
  -- A start that finds the file does not ask for a key, and writes nothing.
  load_found :
      (key key' : Option K.Key) (d : F.Disk)
      → F.stat d path ≡ true
      → (load_or_generate_signer K F path key d ≡ load_or_generate_signer K F path key' d)
        × ((load_or_generate_signer K F path key d).0 ≡ d)
  unfolding load_or_generate_signer
  load_found key key' d there = (ground (arith, there), ground (arith, there))

  load_read :
      (key : Option K.Key) (d : F.Disk) (bytes : List ℕ)
      → F.stat d path ≡ true
      → F.read_file d path ≡ some bytes
      → load_or_generate_signer K F path key d ≡ (d, K.parse_private_key bytes)
  unfolding load_or_generate_signer
  load_read key d bytes there read = ground (arith, there, read)

  -- What a start did that found no file and has a signer.
  load_absent :
      (key : Option K.Key) (d d' : F.Disk) (signer : K.Signer)
      → F.stat d path ≡ false
      → load_or_generate_signer K F path key d ≡ (d', some signer)
      → (bytes : List ℕ) × (F.write_file d path bytes ≡ some d')
        × (K.parse_private_key bytes ≡ some signer)
  unfolding load_or_generate_signer
  load_absent none d d' signer absent h =
      absurd (none-ne-some signer (ground (arith, absent, ap (λ r. r.1) h)))
  load_absent (some k) d d' signer absent h =
      elim (Option-cases (F.write_file d path (K.pem_bytes k))) [
        | inl failed ↦
            absurd (none-ne-some signer (ground (arith, absent, failed, ap (λ r. r.1) h)))
        | inr (d'', wrote) ↦ (
          K.pem_bytes k,
          wrote ∙ ground (arith, absent, wrote, ap (λ r. r.0) h),
          ground (arith, absent, wrote, ap (λ r. r.1) h),
        )
      ]

  -- With a path for the host key, on a file system that keeps what is written: if a start gives a
  -- server a signer, the next start gives it the same one and writes nothing, whatever key could be
  -- generated then.
  pub load_or_generate_signer_again :
      (key key' : Option K.Key) (d d' : F.Disk) (signer : K.Signer)
      → load_or_generate_signer K F path key d ≡ (d', some signer)
      → load_or_generate_signer K F path key' d' ≡ (d', some signer)
  load_or_generate_signer_again key key' d d' signer h = elim (Bool-cases (F.stat d path)) [
    | inl there ↦
        let (same, quiet) = load_found key key' d there in
        let back : d' ≡ d = sym (ap (λ r. r.0) h) ∙ quiet in
        ap (load_or_generate_signer K F path key') back ∙ sym same ∙ h
    | inr absent ↦
        let (bytes, wrote, parsed) = load_absent key d d' signer absent h in
        load_read key' d' bytes (laws.stat-write_file d d' path bytes wrote)
          (laws.read_file-write_file d d' path bytes wrote)
        ∙ ap (λ x. (d', x)) parsed
  ]
