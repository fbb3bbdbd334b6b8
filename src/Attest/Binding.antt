-- ===== src/Attest/Binding.antt =====
-- The seal of a plan (`df_attest_plan` of src/attest.c) binds the plan.
use deadflash.Attest.{Attestation, canonical_plan, check_device, attest_plan}
use deadflash.Base.{
  ℕ, ◌^◌, ◌<◌, ◌≡◌, ◌⊎◌, inl, inr, sym, ap, ◌∙◌, All, IsByte, List, length, drop, arith, ltb, some,
  ◌==◌,
}
use deadflash.Base.Texts.{codes}
use deadflash.Common.{done, hex_encode}
use deadflash.Common.Hex.{length-hex_encode}
use deadflash.Common.Monad.{through, through_guard, through_require, pure-done}
use deadflash.Device.{TargetInfo, WriteOptions}
use deadflash.Device.Files.{inspect_target}
use deadflash.Device.Posix.{Os}
use deadflash.Pipeline.{Run, through_io}
use deadflash.Pipeline.Write.{effective_options}
use deadflash.Pipeline.Checked.{sha256_buffer-IsDigest}
use deadflash.Sha256.{sha256_buffer}
use deadflash.Sha256.Collision.{IsCollision, equal_or_IsCollision}
use deadflash.Attest.Lines.{
  behind, text_line, number_line, kind_line, mode_line, flag_line, hex_injective,
}

-- What a plan is made of.
pub record Plan : Type 0 where
  pub source_size : ℕ
  pub source_sha256 : List ℕ
  pub target : TargetInfo
  pub options : WriteOptions

abbrev pub text_of : Plan → List ℕ
text_of p = canonical_plan p.source_size p.source_sha256 p.target p.options

-- Its numbers are 64-bit numbers, and the hash and the token have their lengths.
abbrev pub IsPlan : Plan → Type 0
IsPlan p =
    (p.source_size < 2 ^ 64)
    × ((length p.source_sha256 ≡ 32) × All IsByte p.source_sha256)
    × (length p.target.token ≡ 16)
    × (p.target.size_bytes < 2 ^ 64)
    × (p.target.logical_sector_size < 2 ^ 64)
    × (p.target.physical_sector_size < 2 ^ 64)
    × (p.options.sample_count < 2 ^ 64)
    × (p.options.buffer_size < 2 ^ 64)
    × (p.options.write_retries < 2 ^ 64)

-- Two plans for one source and target.
abbrev pub IsSameMedia : Plan → Plan → Type 0
IsSameMedia p q =
    (p.source_size ≡ q.source_size)
    × (p.source_sha256 ≡ q.source_sha256)
    × (p.target.token ≡ q.target.token)
    × (p.target.kind ≡ q.target.kind)
    × (p.target.size_bytes ≡ q.target.size_bytes)
    × (p.target.logical_sector_size ≡ q.target.logical_sector_size)
    × (p.target.physical_sector_size ≡ q.target.physical_sector_size)

-- Two sets of options that differ in the confirmation at most.
abbrev pub IsSameChoice : WriteOptions → WriteOptions → Type 0
IsSameChoice o o' =
    (o.verify_mode ≡ o'.verify_mode)
    × (o.sample_count ≡ o'.sample_count)
    × (o.buffer_size ≡ o'.buffer_size)
    × (o.write_retries ≡ o'.write_retries)
    × (o.direct_io ≡ o'.direct_io)
    × (o.truncate_regular_file ≡ o'.truncate_regular_file)
    × (o.allow_device ≡ o'.allow_device)
    × (o.force_mounted ≡ o'.force_mounted)
    × (o.force_system_disk ≡ o'.force_system_disk)

text_of_binds :
    (p q : Plan)
    → IsPlan p
    → IsPlan q
    → text_of p ≡ text_of q
    → IsSameMedia p q × IsSameChoice p.options q.options
unfolding canonical_plan
text_of_binds p q (h0, h1, h2, h3, h4, h5, h6, h7, h8) (k0, k1, k2, k3, k4, k5, k6, k7, k8) e =
    let e0 = ap (drop 1) (behind (codes "deadflash.plan.v1") _ _ e) in
    let (size, e1) = number_line (codes "source_size") _ _ _ _ h0 k0 e0 in
    let (hash, e2) = text_line (codes "source_sha256") _ _ _ _ hashes e1 in
    let (token, e3) = text_line (codes "target_token") _ _ _ _ (h2 ∙ sym k2) e2 in
    let (kind, e4) = kind_line (codes "target_kind") _ _ _ _ e3 in
    let (bytes, e5) = number_line (codes "target_size") _ _ _ _ h3 k3 e4 in
    let (logical, e6) = number_line (codes "logical_sector") _ _ _ _ h4 k4 e5 in
    let (physical, e7) = number_line (codes "physical_sector") _ _ _ _ h5 k5 e6 in
    let (mode, e8) = mode_line (codes "verify_mode") _ _ _ _ e7 in
    let (samples, e9) = number_line (codes "sample_count") _ _ _ _ h6 k6 e8 in
    let (buffer, e10) = number_line (codes "buffer_size") _ _ _ _ h7 k7 e9 in
    let (retries, e11) = number_line (codes "write_retries") _ _ _ _ h8 k8 e10 in
    let (direct, e12) = flag_line (codes "direct_io") _ _ _ _ e11 in
    let (truncate, e13) = flag_line (codes "truncate_regular_file") _ _ _ _ e12 in
    let (allow, e14) = flag_line (codes "allow_device") _ _ _ _ e13 in
    let (mounted, e15) = flag_line (codes "force_mounted") _ _ _ _ e14 in
    let (system, e16) = flag_line (codes "force_system_disk") _ _ _ _ e15 in
    (
      (size, hex_injective _ _ h1 k1 hash, token, kind, bytes, logical, physical),
      (mode, samples, buffer, retries, direct, truncate, allow, mounted, system),
    )
  where
    hashes : length (hex_encode p.source_sha256) ≡ length (hex_encode q.source_sha256)
    hashes =
        omega
          (arith, length-hex_encode p.source_sha256, length-hex_encode q.source_sha256, h1.0, k1.0)

plan_seal_binds :
    (p q : Plan)
    → IsPlan p
    → IsPlan q
    → hex_encode (sha256_buffer (text_of p)) ≡ hex_encode (sha256_buffer (text_of q))
    → (IsSameMedia p q × IsSameChoice p.options q.options) ⊎ IsCollision (text_of p) (text_of q)
plan_seal_binds p q h k e = go (equal_or_IsCollision (text_of p) (text_of q) one_hash)
  where
    one_hash : sha256_buffer (text_of p) ≡ sha256_buffer (text_of q)
    one_hash = hex_injective _ _ (sha256_buffer-IsDigest _) (sha256_buffer-IsDigest _) e

    go :
        (text_of p ≡ text_of q) ⊎ IsCollision (text_of p) (text_of q)
        → (IsSameMedia p q × IsSameChoice p.options q.options) ⊎ IsCollision (text_of p) (text_of q)
    go (inl same) = inl (text_of_binds p q h k same)
    go (inr c) = inr c

-- The plan that was attested for given options.
abbrev pub plan_of : Attestation → WriteOptions → Plan
plan_of a options = record {
  source_size = a.source_size;
  source_sha256 = a.source_sha256;
  target = a.target;
  options = effective_options (some options);
}

attest_plan-sealed :
    (os : Os) (source_path target_path : List ℕ) (options : WriteOptions) (a : Attestation)
    (run run' : Run os.World)
    → attest_plan os source_path target_path (some options) run ≡ (done a, run')
    → a.plan_hex ≡ hex_encode (sha256_buffer (text_of (plan_of a options)))
unfolding attest_plan
attest_plan-sealed os source_path target_path options a run run' e =
    through _ _ e (λ found run1 e1 h1.
      let (some_bytes, h2) = through_guard (found.0 == 0) _ _ h1 in
      through_io (inspect_target os target_path) _ h2 (λ target w2 e2 h3.
        through (check_device os (effective_options (some options)) target) _ h3 (λ u run3 e3 h4.
          let plan = canonical_plan found.0 found.1 target (effective_options (some options)) in
          let (short, h5) = through_require (ltb (length plan) 1024) _ _ h4 in
          let same = (pure-done h5).0 in
          sym (ap (λ x. x.plan_hex) same)
          ∙ ap (λ x. hex_encode (sha256_buffer (text_of (plan_of x options)))) same)))

-- Two runs of df_attest_plan that give one seal have found the same source and target, in size, hash,
-- token, kind and sectors, and were given the same options, but for the confirmation and for defaults
-- that were left to the code; or the texts of the two plans, which are then different, have one
-- SHA-256. This is for plans whose numbers are 64-bit numbers, with a hash of 32 bytes and a token of
-- 16 characters.
pub attest_plan_binds :
    (os : Os) (source target source' target' : List ℕ) (options options' : WriteOptions)
    (a b : Attestation) (v v' w w' : Run os.World)
    → IsPlan (plan_of a options)
    → IsPlan (plan_of b options')
    → attest_plan os source target (some options) v ≡ (done a, v')
    → attest_plan os source' target' (some options') w ≡ (done b, w')
    → a.plan_hex ≡ b.plan_hex
    → (IsSameMedia (plan_of a options) (plan_of b options')
        × IsSameChoice (effective_options (some options)) (effective_options (some options')))
      ⊎ IsCollision (text_of (plan_of a options)) (text_of (plan_of b options'))
attest_plan_binds os source target source' target' options options' a b v v' w w' h k e e' seal =
    plan_seal_binds (plan_of a options) (plan_of b options') h k (
      sym (attest_plan-sealed os source target options a v v' e)
      ∙ seal
      ∙ attest_plan-sealed os source' target' options' b w w' e')
