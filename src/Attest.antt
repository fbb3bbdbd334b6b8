-- ===== src/Attest.antt =====
-- src/attest.c with include/deadflash/attest.h, and `df_hash_source_path` of src/pipeline.c: the seal of
-- a plan, and a write that is held to it.
pub mod Authorized
pub mod Lines
pub mod Binding
pub mod Tests
use deadflash.Base.{
  ℕ, ◌+◌, ◌*◌, Bool, true, false, not, ◌&&◌, ◌||◌, Option, none, some, List, [], ◌∷◌, ◌++◌, length,
  ltb, ◌==◌, if◌then◌else◌,
}
use deadflash.Base.Texts.{codes, decimal, text_eq}
use deadflash.Common.{
  Outcome, done, failed, VerifyMode, verify_none, verify_sample, verify_full, err_too_small,
  err_too_large, err_device_required, err_confirmation, err_internal, err_identity_changed,
  constant_time_equal, hex_encode,
}
use deadflash.Common.Hex.{hex_decode_32}
use deadflash.Common.Monad.{M, ◌>>=◌, ◌>>◌, pure, throw}
use deadflash.Device.{TargetInfo, WriteOptions, is_regular_file, kind_number}
use deadflash.Device.Files.{open_source, close_file, inspect_target}
use deadflash.Device.Posix.{Os}
use deadflash.Pipeline.{
  Run, run_reset, io, hash_source, default_buffer_size, failed_before_write,
  plan_breach_partial_media,
}
use deadflash.Pipeline.Hash.{hash_file_region_progress}
use deadflash.Pipeline.Write.{effective_options, write_image}
use deadflash.Sha256.{sha256_buffer}

-- df_plan_attestation
pub record Attestation : Type 0 where
  pub source_size : ℕ
  pub source_sha256 : List ℕ
  pub target : TargetInfo
  pub plan_sha256 : List ℕ
  pub plan_hex : List ℕ

-- df_verify_mode as a number
abbrev pub mode_number : VerifyMode → ℕ
mode_number verify_none = 0
mode_number verify_sample = 1
mode_number verify_full = 2

-- `b ? 1u : 0u`
abbrev pub bit : Bool → ℕ
bit b = if b then 1 else 0

-- A key, an equals sign, a value and the end of the line.
unfoldable pub plan_line : List ℕ → List ℕ → List ℕ → List ℕ
plan_line key value rest = key ++ (b'=' ∷ (value ++ (b'\n' ∷ rest)))

unfoldable pub canonical_plan : ℕ → List ℕ → TargetInfo → WriteOptions → List ℕ
unfolding plan_line
canonical_plan source_size source_sha256 target options =
    codes "deadflash.plan.v1"
    ++ (b'\n'
        ∷ plan_line (codes "source_size") (decimal source_size) (
            plan_line (codes "source_sha256") (hex_encode source_sha256) (
              plan_line (codes "target_token") target.token (
                plan_line (codes "target_kind") (decimal (kind_number target.kind)) (
                  plan_line (codes "target_size") (decimal target.size_bytes) (
                    plan_line (codes "logical_sector") (decimal target.logical_sector_size) (
                      plan_line (codes "physical_sector") (decimal target.physical_sector_size) (
                        plan_line (codes "verify_mode") (decimal (mode_number options.verify_mode))
                          (plan_line (codes "sample_count") (decimal options.sample_count) (
                            plan_line (codes "buffer_size") (decimal options.buffer_size) (
                              plan_line (codes "write_retries") (decimal options.write_retries) (
                                plan_line (codes "direct_io") (decimal (bit options.direct_io)) (
                                  plan_line (codes "truncate_regular_file")
                                    (decimal (bit options.truncate_regular_file))
                                    (plan_line (codes "allow_device")
                                      (decimal (bit options.allow_device))
                                      (plan_line (codes "force_mounted")
                                        (decimal (bit options.force_mounted))
                                        (plan_line (codes "force_system_disk")
                                          (decimal (bit options.force_system_disk))
                                          []))))))))))))))))

-- `options.confirmation_token == NULL || strcmp(…) != 0`
abbrev pub token_differs : Option (List ℕ) → List ℕ → Bool
token_differs none token = true
token_differs (some given) token = not (text_eq given token)

module _ (os : Os) where
  -- The file is closed whether or not it could be hashed.
  unfoldable pub hash_source_path : List ℕ → ℕ → M (Run os.World) (ℕ × List ℕ)
  unfolding hash_file_region_progress open_source close_file
  hash_source_path path buffer_size_in = do
    let buffer_size = if buffer_size_in == 0 then default_buffer_size else buffer_size_in
    source ← io (open_source os path)
    digest ← (λ run.
        let (r, run') =
          hash_file_region_progress os source source.size_bytes buffer_size hash_source run in
        (r, record run' { world = (close_file os source run'.world).1 }))
    pure (source.size_bytes, digest)

  abbrev pub check_device : WriteOptions → TargetInfo → M (Run os.World) (Unit {0})
  check_device options target =
      if is_regular_file target.kind
      then pure tt
      else if not options.allow_device
      then throw err_device_required
      else if token_differs options.confirmation_token target.token
      then throw err_confirmation
      else pure tt

  unfoldable pub attest_plan : List ℕ → List ℕ → Option WriteOptions → M (Run os.World) Attestation
  unfolding hash_source_path canonical_plan effective_options inspect_target
  attest_plan source_path target_path options_in = do
    let options = effective_options options_in
    source ← hash_source_path source_path options.buffer_size
    (if source.0 == 0 then throw err_too_small else pure tt)
    target ← io (inspect_target os target_path)
    check_device options target
    let plan = canonical_plan source.0 source.1 target options
    (if ltb (length plan) 1024 then pure tt else throw err_internal)
    pure (record {
      source_size = source.0;
      source_sha256 = source.1;
      target = target;
      plan_sha256 = sha256_buffer plan;
      plan_hex = hex_encode (sha256_buffer plan);
    })

  -- After the write: a source that is not the attested one is a breach.
  abbrev pub held_to_plan :
      Attestation → Outcome (Unit {0}) × Run os.World → Outcome (Unit {0}) × Run os.World
  held_to_plan a (failed e, run) = (failed e, run)
  held_to_plan a (done u, run) =
      if constant_time_equal run.result.source_sha256 a.source_sha256 then (done u, run) else (
        failed err_identity_changed,
        record run { result = record (run.result) { final_state = plan_breach_partial_media } },
      )

  abbrev pub continued : Run os.World → Attestation → Run os.World → Run os.World
  continued run a run' = record run' {
    progress = run'.progress ++ run.progress;
    planned = elim (run'.planned) [ none ↦ some a.target | some info ↦ some info ];
  }

  -- The write starts from a new result; the calls of the progress callback go on.
  abbrev pub sealed_write :
      List ℕ → List ℕ → WriteOptions → List ℕ → Attestation → M (Run os.World) (Unit {0})
  sealed_write source_path target_path options expected a run =
      if constant_time_equal expected a.plan_sha256
      then (let (r, run') = write_image os source_path target_path (some options) run.world in
          held_to_plan a (r, continued run a run'))
      else (failed err_confirmation, record run { planned = some a.target })

  abbrev pub with_seal :
      List ℕ → List ℕ → WriteOptions → Option (List ℕ) → M (Run os.World) (Unit {0})
  with_seal source_path target_path options none = throw err_confirmation
  with_seal source_path target_path options (some expected) =
      attest_plan source_path target_path (some options)
      >>= sealed_write source_path target_path options expected

  abbrev pub attested_start : os.World → Run os.World
  attested_start w =
      let start = run_reset w [] in
      record start { result = record (start.result) { final_state = failed_before_write } }

  -- The path of the target must fit a buffer of DF_MAX_PATH_CHARS characters.
  unfoldable pub write_image_attested :
      List ℕ → List ℕ → WriteOptions → List ℕ → os.World → Outcome (Unit {0}) × Run os.World
  unfolding attest_plan write_image hex_decode_32
  write_image_attested source_path target_path options seal w =
      if not (ltb (length target_path) 4096)
      then (failed err_too_large, attested_start w)
      else with_seal source_path target_path options (hex_decode_32 seal) (attested_start w)
