-- ===== src/Pipeline/Tests.antt =====
-- Runs of src/pipeline.c on files in memory, and its theorems on them.
use deadflash.Base.{ℕ, ◌≤◌, ◌≡◌, refl, none, some, List, [], ◌∷◌, length, take, arith, true, false}
use deadflash.Common.{done, verify_none, verify_full}
use deadflash.Common.Monad.{◌>>=◌}
use deadflash.Common.{constant_time_equal}
use deadflash.Device.{File, WriteOptions}
use deadflash.Device.Disk.{Disk, disk_os, disk_laws}
use deadflash.Device.Files.{
  open_source, read_at, write_at, close_file, pread_loop, pwrite_loop, source_kind, source_opened,
}
use deadflash.Pipeline.{Run, run_reset, hash_source, round_up, aligned_alloc}
use deadflash.Pipeline.Hash.{request_size, hash_round, hash_loop, hash_file_region_progress}
use deadflash.Pipeline.Readback.{hash_file_region_progress-done}
use deadflash.Pipeline.Verify.{
  verify_full_hash, by_mode, verify_body, verify_image_internal, verify_image, close_both,
}
use deadflash.Pipeline.Checked.{sha256_buffer-IsDigest, IsVerified, verify_image-full}
use deadflash.Pipeline.Whole.{IsWritten, write_image-done}
use deadflash.Base.Texts.{decimal}
use deadflash.Common.{hex_encode, Outcome}
use deadflash.Device.{target_info_defaults, compute_target_token}
use deadflash.Device.Files.{flush, inspect_target, open_target}
use deadflash.Pipeline.Write.{
  write_image, write_body, effective_options, plan_phase, open_phase, flush_step, verify_step,
  write_loop,
}
use deadflash.Pipeline.Streamed.{stream_phase-done}
use deadflash.Pipeline.Write.{stream_phase, write_round, write_attempts, judge, padded}
use deadflash.Sha256.{sha256_buffer, program}

abbrev two_files : Disk
two_files = record { source = 1 ∷ 2 ∷ 3 ∷ []; target = 1 ∷ 2 ∷ 3 ∷ 9 ∷ []; note = [] }

-- A source of three bytes that was opened.
abbrev source_file : File
source_file = record {
  handle = some 0;
  path = b's' ∷ [];
  size_bytes = 3;
  alignment = 512;
  writable = false;
  direct_io = false;
  is_device = false;
}

abbrev after_hash : Run Disk
after_hash =
    (hash_file_region_progress disk_os source_file 3 2 hash_source (run_reset two_files [])).1

hashed :
    (hash_file_region_progress disk_os source_file 3 2 hash_source (run_reset two_files [])).0
    ≡ done (sha256_buffer (1 ∷ 2 ∷ 3 ∷ []))
unfolding hash_file_region_progress hash_loop hash_round request_size round_up aligned_alloc read_at
    pread_loop ◌>>=◌ program
hashed = refl

verified : (verify_image disk_os (b's' ∷ []) (b't' ∷ []) verify_full 0 2 two_files).0 ≡ done tt
unfolding verify_image verify_image_internal verify_body by_mode verify_full_hash close_both
    close_file open_source source_kind source_opened hash_file_region_progress hash_loop hash_round
    request_size round_up aligned_alloc read_at pread_loop ◌>>=◌ program constant_time_equal
verified = refl

hash_file_region_progress-done_example :
    (sha256_buffer (1 ∷ 2 ∷ 3 ∷ []) ≡ sha256_buffer (take 3 (disk_laws.content 0 two_files)))
    × (3 ≤ length (disk_laws.content 0 two_files))
    × ((g : ℕ) → disk_laws.content g after_hash.world ≡ disk_laws.content g two_files)
hash_file_region_progress-done_example =
    hash_file_region_progress-done disk_os disk_laws source_file 0 refl 3 2 hash_source
      (sha256_buffer (1 ∷ 2 ∷ 3 ∷ [])) (run_reset two_files []) after_hash (omega arith)
      (λ i. (hashed i, after_hash))

-- A target that was opened for writing.
abbrev blank_file : File
blank_file = record source_file { handle = some 1; path = b't' ∷ []; writable = true }

abbrev write_options : WriteOptions
write_options = record {
  buffer_size = 512;
  write_retries = 1;
  verify_mode = verify_none;
  sample_count = 1;
  allow_device = false;
  force_mounted = false;
  force_system_disk = false;
  direct_io = false;
  truncate_regular_file = false;
  confirmation_token = none;
}

abbrev planned_hash : List ℕ
planned_hash = sha256_buffer (1 ∷ 2 ∷ 3 ∷ [])

abbrev blank_target : Run Disk
blank_target =
    run_reset (record { source = 1 ∷ 2 ∷ 3 ∷ []; target = 7 ∷ 7 ∷ 7 ∷ 7 ∷ []; note = [] }) []

abbrev streamed : Run Disk
streamed = (stream_phase disk_os source_file blank_file write_options planned_hash blank_target).1

streamed_done :
    (stream_phase disk_os source_file blank_file write_options planned_hash blank_target).0
    ≡ done tt
unfolding stream_phase write_round write_attempts judge padded round_up aligned_alloc read_at
    pread_loop write_at pwrite_loop ◌>>=◌ program constant_time_equal
streamed_done = refl

stream_phase-done_example :
    (sha256_buffer (take 3 (disk_laws.content 1 streamed.world)) ≡ planned_hash)
    × (3 ≤ length (disk_laws.content 1 streamed.world))
stream_phase-done_example =
    stream_phase-done disk_os disk_laws source_file blank_file 1 write_options planned_hash
      blank_target streamed refl (omega arith) (sha256_buffer-IsDigest _).0
      (sha256_buffer-IsDigest _).1 (λ i. (streamed_done i, streamed))

verify_image-full_example :
    IsVerified disk_os disk_laws
      (b's' ∷ [])
      (b't' ∷ [])
      two_files
      (verify_image disk_os (b's' ∷ []) (b't' ∷ []) verify_full 0 2 two_files).1.result
verify_image-full_example =
    verify_image-full disk_os disk_laws (b's' ∷ []) (b't' ∷ []) 0 2 two_files
      (verify_image disk_os (b's' ∷ []) (b't' ∷ []) verify_full 0 2 two_files).1
      (λ i.
        (verified i, (verify_image disk_os (b's' ∷ []) (b't' ∷ []) verify_full 0 2 two_files).1))

-- A run names this on its `unfolding` line.
unfoldable whole_program : Unit {0}
unfolding write_image write_body effective_options plan_phase open_phase stream_phase flush_step
    verify_step write_loop write_round write_attempts judge padded flush inspect_target open_target
    target_info_defaults compute_target_token decimal hex_encode verify_image_internal verify_body
    by_mode verify_full_hash close_both close_file open_source source_kind source_opened
    hash_file_region_progress hash_loop hash_round request_size round_up aligned_alloc read_at
    pread_loop write_at pwrite_loop ◌>>=◌ program constant_time_equal
whole_program = tt

abbrev written : Outcome (Unit {0}) × Run Disk
written =
    write_image disk_os (b's' ∷ []) (b't' ∷ [])
      (some (record write_options { verify_mode = verify_full })) blank_target.world

written_done : written.0 ≡ done tt
unfolding whole_program
written_done = refl

-- The written bytes, and what was there after them.
written_target : written.1.world.target ≡ 1 ∷ 2 ∷ 3 ∷ 7 ∷ []
unfolding whole_program
written_target = refl

write_image-done_example :
    IsWritten disk_os disk_laws
      (b's' ∷ [])
      (b't' ∷ [])
      (effective_options (some (record write_options { verify_mode = verify_full })))
      blank_target.world
      written.1.result
write_image-done_example =
    write_image-done disk_os disk_laws (b's' ∷ []) (b't' ∷ [])
      (some (record write_options { verify_mode = verify_full })) blank_target.world written.1
      (λ i. (written_done i, written.1))
