-- ===== src/Attest/Tests.antt =====
-- Runs of src/attest.c on files in memory, and its theorems on them.
use deadflash.Attest.{
  Attestation, plan_line, canonical_plan, hash_source_path, attest_plan, attested_start,
  write_image_attested,
}
use deadflash.Attest.Binding.{
  IsPlan, IsSameMedia, IsSameChoice, plan_of, text_of, attest_plan_binds,
}
use deadflash.Attest.Authorized.{IsAttested, write_image_attested-done}
use deadflash.Base.{arith, ℕ, ◌≡◌, ◌⊎◌, refl, none, some, true, false, List, [], ◌∷◌, replicate}
use deadflash.Base.Texts.{decimal}
use deadflash.Common.{
  Outcome, done, failed, err_confirmation, verify_full, constant_time_equal, hex_encode,
}
use deadflash.Common.Hex.{hex_decode_32}
use deadflash.Common.Monad.{◌>>=◌}
use deadflash.Device.{WriteOptions, target_info_defaults, compute_target_token}
use deadflash.Device.Disk.{Disk, disk_os, disk_laws}
use deadflash.Device.Files.{
  open_source, read_at, write_at, close_file, flush, inspect_target, open_target, pread_loop,
  pwrite_loop, source_kind, source_opened,
}
use deadflash.Pipeline.{Run, round_up, aligned_alloc}
use deadflash.Pipeline.Checked.{sha256_buffer-IsDigest}
use deadflash.Pipeline.Hash.{request_size, hash_round, hash_loop, hash_file_region_progress}
use deadflash.Pipeline.Verify.{
  verify_full_hash, by_mode, verify_body, verify_image_internal, close_both,
}
use deadflash.Pipeline.Whole.{IsWritten}
use deadflash.Pipeline.Write.{
  write_image, write_body, effective_options, plan_phase, open_phase, flush_step, verify_step,
  write_loop, stream_phase, write_round, write_attempts, judge, padded,
}
use deadflash.Sha256.{program}
use deadflash.Sha256.Collision.{IsCollision}

-- A run names this on its `unfolding` line.
unfoldable pub whole_program : Unit {0}
unfolding write_image_attested attest_plan canonical_plan plan_line hash_source_path hex_decode_32
    write_image write_body effective_options plan_phase open_phase stream_phase flush_step
    verify_step write_loop write_round write_attempts judge padded flush inspect_target open_target
    target_info_defaults compute_target_token decimal hex_encode verify_image_internal verify_body
    by_mode verify_full_hash close_both close_file open_source source_kind source_opened
    hash_file_region_progress hash_loop hash_round request_size round_up aligned_alloc read_at
    pread_loop write_at pwrite_loop ◌>>=◌ program constant_time_equal
whole_program = tt

abbrev options : WriteOptions
options = record {
  buffer_size = 512;
  write_retries = 1;
  verify_mode = verify_full;
  sample_count = 1;
  allow_device = false;
  force_mounted = false;
  force_system_disk = false;
  direct_io = false;
  truncate_regular_file = false;
  confirmation_token = none;
}

abbrev pub before : Disk
before = record { source = 1 ∷ 2 ∷ 3 ∷ []; target = 7 ∷ 7 ∷ 7 ∷ 7 ∷ []; note = [] }

abbrev pub seal_of : Outcome Attestation → List ℕ
seal_of (done a) = a.plan_hex
seal_of (failed e) = []

abbrev seal : List ℕ
seal =
    seal_of
      (attest_plan disk_os (b's' ∷ []) (b't' ∷ []) (some options) (attested_start disk_os before)).0

abbrev sealed : Outcome (Unit {0}) × Run Disk
sealed = write_image_attested disk_os (b's' ∷ []) (b't' ∷ []) options seal before

sealed_done : sealed.0 ≡ done tt
unfolding whole_program
sealed_done = refl

-- Another seal is refused, and nothing is written.
other_seal :
    (write_image_attested disk_os (b's' ∷ []) (b't' ∷ []) options (replicate 64 b'0') before).0
    ≡ failed err_confirmation
unfolding whole_program
other_seal = refl

write_image_attested-done_example :
    (a : Attestation) × (run1 : Run Disk) × (attest_plan disk_os
        (b's' ∷ [])
        (b't' ∷ [])
        (some options)
        (attested_start disk_os before)
      ≡ (done a, run1))
    × (hex_decode_32 seal ≡ some a.plan_sha256)
    × IsAttested disk_os disk_laws (b's' ∷ []) (b't' ∷ []) options (attested_start disk_os before) a
    × (constant_time_equal sealed.1.result.source_sha256 a.source_sha256 ≡ true)
    × IsWritten disk_os disk_laws
        (b's' ∷ [])
        (b't' ∷ [])
        (effective_options (some options))
        run1.world
        sealed.1.result
write_image_attested-done_example =
    write_image_attested-done disk_os disk_laws (b's' ∷ []) (b't' ∷ []) options seal before sealed.1
      (λ i. (sealed_done i, sealed.1))

-- The same source and target, sealed from a world in which another file differs.
abbrev later : Disk
later = record before { note = 9 ∷ [] }

abbrev attested : Disk → Outcome Attestation × Run Disk
attested w = attest_plan disk_os (b's' ∷ []) (b't' ∷ []) (some options) (attested_start disk_os w)

abbrev found : Outcome Attestation → Attestation
found (done a) = a
found (failed e) = record {
  source_size = 0;
  source_sha256 = [];
  target = target_info_defaults [];
  plan_sha256 = [];
  plan_hex = [];
}

found-IsPlan :
    IsPlan (plan_of (found (attested before).0) options)
    × IsPlan (plan_of (found (attested later).0) options)
unfolding whole_program
found-IsPlan = (bounded, bounded)
  where
    bounded : IsPlan (plan_of (found (attested before).0) options)
    bounded = (
      omega arith,
      sha256_buffer-IsDigest (1 ∷ 2 ∷ 3 ∷ []),
      refl,
      omega arith,
      omega arith,
      omega arith,
      omega arith,
      omega arith,
      omega arith,
    )

attested_done :
    ((attested before).0 ≡ done (found (attested before).0))
    × ((attested later).0 ≡ done (found (attested later).0))
unfolding whole_program
attested_done = (refl, refl)

one_seal : (found (attested before).0).plan_hex ≡ (found (attested later).0).plan_hex
unfolding whole_program
one_seal = refl

attest_plan_binds_example :
    (IsSameMedia
        (plan_of (found (attested before).0) options)
        (plan_of (found (attested later).0) options)
      × IsSameChoice (effective_options (some options)) (effective_options (some options)))
    ⊎ IsCollision
        (text_of (plan_of (found (attested before).0) options))
        (text_of (plan_of (found (attested later).0) options))
attest_plan_binds_example =
    attest_plan_binds disk_os (b's' ∷ []) (b't' ∷ []) (b's' ∷ []) (b't' ∷ []) options options
      (found (attested before).0) (found (attested later).0) (attested_start disk_os before)
      (attested before).1 (attested_start disk_os later) (attested later).1 found-IsPlan.0
      found-IsPlan.1 (λ i. (attested_done.0 i, (attested before).1))
      (λ i. (attested_done.1 i, (attested later).1)) one_seal
