-- ===== src/Pipeline/VerifyTests.antt =====
-- The verification of src/pipeline.c on files in memory, and the order of its progress calls.
use deadflash.Base.{
  ℕ, ◌+◌, ◌*◌, ◌^◌, ◌<◌, ◌≡◌, ◌≢◌, refl, sym, ap, ◌∙◌, none, some, List, [], ◌∷◌, length, drop,
  arith, false, length-take, length-drop,
}
use deadflash.Common.{
  Outcome, done, failed, err_verify_mismatch, constant_time_equal, verify_full, verify_sample,
}
use deadflash.Common.Monad.{◌>>=◌}
use deadflash.Device.{File, WriteOptions}
use deadflash.Device.Disk.{Disk, bytes_of, disk_os, disk_laws, disk_content}
use deadflash.Device.Files.{
  open_source, read_at, close_file, pread_loop, source_kind, source_opened,
}
use deadflash.Device.Posix.{transferred, io_failed}
use deadflash.Device.Reliable.{Reliable}
use deadflash.Pipeline.{Run, round_up, aligned_alloc, complete}
use deadflash.Pipeline.Alarm.{IsDifferent, verify_image_mismatch}
use deadflash.Pipeline.Equal.{AreEqual, verify_image_accepts}
use deadflash.Pipeline.Forward.{rank, IsForward}
use deadflash.Pipeline.Forward.Whole.{write_image-IsForward}
use deadflash.Pipeline.Hash.{request_size, hash_round, hash_loop, hash_file_region_progress}
use deadflash.Pipeline.States.Claims.{IsConsistent}
use deadflash.Pipeline.States.Consistent.{write_image-IsConsistent}
use deadflash.Pipeline.Verify.{
  verify_full_hash, by_mode, verify_body, verify_image_internal, verify_image, close_both,
}
use deadflash.Pipeline.Write.{write_image, effective_options}
use deadflash.Sha256.{program}

abbrev unequal : Disk
unequal = record { source = 1 ∷ 2 ∷ 3 ∷ []; target = 1 ∷ 2 ∷ 4 ∷ []; note = [] }

abbrev compared : Outcome (Unit {0}) × Run Disk
compared = verify_image disk_os (b's' ∷ []) (b't' ∷ []) verify_full 0 2 unequal

rejected : compared.0 ≡ failed err_verify_mismatch
unfolding verify_image verify_image_internal verify_body by_mode verify_full_hash close_both
    close_file open_source source_kind source_opened hash_file_region_progress hash_loop hash_round
    request_size round_up aligned_alloc read_at pread_loop ◌>>=◌ program constant_time_equal
rejected = refl

verify_image_mismatch_example :
    IsDifferent disk_os disk_laws (b's' ∷ []) (b't' ∷ []) unequal compared.1.result
verify_image_mismatch_example =
    verify_image_mismatch disk_os disk_laws (b's' ∷ []) (b't' ∷ []) 0 2 unequal compared.1
      (λ i. (rejected i, compared.1))

read_inj : {a b : List ℕ} → transferred a ≡ transferred b → a ≡ b
read_inj e = cc

read≢failed : {a : List ℕ} → transferred a ≢ io_failed
read≢failed e = cc

disk_reliable : Reliable disk_os disk_laws
disk_reliable = record {
  pread_works = λ fd n at w e. read≢failed e;
  pread_whole = λ fd n at bytes w w' fits e.
      ap length (sym (read_inj (ap (λ r. r.0) e)))
      ∙ omega (
        arith,
        rw (disk_content fd w) at fits,
        length-take n (drop at (bytes_of fd w)),
        length-drop at (bytes_of fd w),
      );
  memalign_works = λ a n w. refl;
}

abbrev equal_files : Disk
equal_files = record { source = 1 ∷ 2 ∷ 3 ∷ []; target = 1 ∷ 2 ∷ 3 ∷ 9 ∷ []; note = [] }

abbrev opened_file : ℕ → List ℕ → ℕ → File
opened_file fd path size = record {
  handle = some fd;
  path = path;
  size_bytes = size;
  alignment = 512;
  writable = false;
  direct_io = false;
  is_device = false;
}

are_equal : AreEqual disk_os disk_laws disk_reliable (b's' ∷ []) (b't' ∷ []) equal_files
unfolding open_source source_kind source_opened ◌>>=◌
are_equal = (
  opened_file 0 (b's' ∷ []) 3,
  opened_file 1 (b't' ∷ []) 4,
  0,
  1,
  equal_files,
  equal_files,
  refl,
  refl,
  refl,
  refl,
  omega arith,
  rw (disk_content 0 equal_files) (omega arith),
  rw (disk_content 1 equal_files) (omega arith),
  rw (disk_content 0 equal_files, disk_content 1 equal_files) refl,
)

verify_image_accepts_example :
    (verify_image disk_os (b's' ∷ []) (b't' ∷ []) verify_full 0 2 equal_files).0 ≡ done tt
verify_image_accepts_example =
    verify_image_accepts disk_os disk_laws disk_reliable (b's' ∷ []) (b't' ∷ []) 0 2 equal_files
      (omega arith) are_equal

abbrev sampled : WriteOptions
sampled = record {
  buffer_size = 512;
  write_retries = 1;
  verify_mode = verify_sample;
  sample_count = 2;
  allow_device = false;
  force_mounted = false;
  force_system_disk = false;
  direct_io = false;
  truncate_regular_file = false;
  confirmation_token = none;
}

few_samples : (effective_options (some sampled)).sample_count < 2 ^ 32
unfolding effective_options
few_samples = omega arith

write_image-IsForward_example :
    IsForward
      (rank complete * 2 ^ 64 + 1)
      (write_image disk_os (b's' ∷ []) (b't' ∷ []) (some sampled) unequal).1.progress
write_image-IsForward_example =
    write_image-IsForward disk_os disk_laws (b's' ∷ []) (b't' ∷ []) (some sampled) unequal
      few_samples

write_image-IsConsistent_example :
    IsConsistent
      (effective_options (some sampled)).verify_mode
      (write_image disk_os (b's' ∷ []) (b't' ∷ []) (some sampled) unequal)
write_image-IsConsistent_example =
    write_image-IsConsistent disk_os disk_laws (b's' ∷ []) (b't' ∷ []) (some sampled) unequal
