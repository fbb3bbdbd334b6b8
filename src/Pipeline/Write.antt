-- ===== src/Pipeline/Write.antt =====
-- `df_write_image` of src/pipeline.c.
use deadflash.Base.{
  ℕ, zero, suc, ◌+◌, ◌-◌, ◌%◌, Bool, false, not, ◌&&◌, ◌||◌, Option, none, some, List, [], ◌++◌,
  length, replicate, ltb, ◌==◌, if◌then◌else◌, add64,
}
use deadflash.Common.{
  Outcome, done, failed, Status, ok, err_io, err_internal, err_too_small, err_too_large,
  err_source_too_large, err_identity_changed, verify_none, constant_time_equal,
}
use deadflash.Common.Monad.{M, ◌>>=◌, ◌>>◌, pure, throw, call}
use deadflash.Device.{File, TargetInfo, WriteOptions, is_regular_file}
use deadflash.Device.Posix.{Os}
use deadflash.Device.Files.{
  read_at, write_at, flush, resize_regular_file, inspect_target, open_source, open_target,
  close_file,
}
use deadflash.Pipeline.{
  Run, prepare, hash_source, write_phase, flush_phase, complete, io, notify, set_result, set_source,
  set_target, set_planned, get_run, attempt, give, run_reset, round_up, aligned_alloc,
  default_buffer_size, default_write_retries, default_sample_count, failed_before_write,
  failed_partial_media, verification_failed, success_unverified, success_verified,
}
use deadflash.Pipeline.Hash.{hash_file_region_progress}
use deadflash.Pipeline.Verify.{verify_image_internal, close_both}
use deadflash.Sha256

-- The options with their defaults; `none` is NULL.
unfoldable pub effective_options : Option WriteOptions → WriteOptions
effective_options none = record {
  buffer_size = default_buffer_size;
  write_retries = default_write_retries;
  verify_mode = verify_none;
  sample_count = default_sample_count;
  allow_device = false;
  force_mounted = false;
  force_system_disk = false;
  direct_io = false;
  truncate_regular_file = false;
  confirmation_token = none;
}
effective_options (some o) = record o {
  buffer_size = if o.buffer_size == 0 then default_buffer_size else o.buffer_size;
  write_retries = if o.write_retries == 0 then default_write_retries else o.write_retries;
  sample_count = if o.sample_count == 0 then default_sample_count else o.sample_count;
}

-- The bytes of a round as they are written: on a device the last ones are padded with zeros to a
-- whole sector.
unfoldable pub padded : File → ℕ → List ℕ → Outcome (List ℕ)
padded target buffer_size bytes =
    let wanted = length bytes in
    let write_length = round_up wanted target.alignment in
    if target.is_device && not (wanted % target.alignment == 0)
    then (if write_length == 0 || ltb buffer_size write_length
        then failed err_internal
        else done (bytes ++ replicate (write_length - wanted) 0))
    else done bytes

-- What an attempt comes to: all bytes are written, or a retry is counted and made.
unfoldable pub judge :
    {W : Type 0} → List ℕ → (Status → M (Run W) (Unit {0})) → Outcome ℕ → M (Run W) (Unit {0})
judge bytes retry (done written) = elim (written == length bytes) [
  | Bool.true ↦ pure tt
  | Bool.false ↦ set_result (λ r. record r { write_retries = r.write_retries + 1 }) >> retry err_io
]
judge bytes retry (failed s) =
    set_result (λ r. record r { write_retries = r.write_retries + 1 }) >> retry s

module _ (os : Os) where
  -- The attempts that are left, and the status of the last one.
  unfoldable pub write_attempts : ℕ → Status → File → List ℕ → ℕ → M (Run os.World) (Unit {0})
  write_attempts zero last target bytes offset = throw last
  write_attempts (suc left) last target bytes offset =
      attempt (io (write_at os target bytes offset))
      >>= judge bytes (λ s. write_attempts left s target bytes offset)

  -- One round of the loop at `offset`, on `wanted` bytes.
  unfoldable pub write_round :
      File → File → ℕ → ℕ → ℕ → ℕ → Sha256.Ctx → M (Run os.World) Sha256.Ctx
  unfolding write_attempts
  write_round source target buffer_size retries wanted offset ctx = do
    bytes ← io (read_at os source wanted offset)
    (if length bytes == wanted then pure tt else throw err_io)
    out ← give (padded target buffer_size bytes)
    write_attempts retries ok target out offset
    set_result (λ r. record r {
      bytes_written = add64 r.bytes_written wanted;
      final_state = failed_partial_media;
    })
    run ← get_run
    notify write_phase run.result.bytes_written source.size_bytes
    pure (Sha256.update ctx bytes)

  -- `while (offset < source.size_bytes)`. Each round takes a byte at least, so as many rounds as the
  -- source has bytes are enough.
  unfoldable pub write_loop : ℕ → File → File → ℕ → ℕ → ℕ → Sha256.Ctx → M (Run os.World) Sha256.Ctx
  write_loop zero source target buffer_size retries offset ctx = pure ctx
  write_loop (suc fuel) source target buffer_size retries offset ctx =
      let left = source.size_bytes - offset in
      let wanted = if ltb left buffer_size then left else buffer_size in
      elim (ltb offset source.size_bytes) [
        | Bool.false ↦ pure ctx
        | Bool.true ↦
            write_round source target buffer_size retries wanted offset ctx
            >>= write_loop fuel source target buffer_size retries (add64 offset wanted)
      ]

  -- From the inspection of the target to the source's hash.
  unfoldable pub plan_phase : List ℕ → File → WriteOptions → M (Run os.World) (TargetInfo × List ℕ)
  plan_phase target_path source options = do
    (if source.size_bytes == 0 then throw err_too_small else pure tt)
    set_result (λ r. record r { source_size = source.size_bytes })
    planned ← io (inspect_target os target_path)
    set_planned planned
    (if not (is_regular_file planned.kind)
          && ltb planned.size_bytes (round_up source.size_bytes planned.logical_sector_size)
        then throw err_source_too_large
        else pure tt)
    notify prepare 1 1
    digest ← hash_file_region_progress os source source.size_bytes options.buffer_size hash_source
    set_result (λ r. record r { source_sha256 = digest })
    pure (planned, digest)

  -- The target is opened under its guards, and a regular file gets its size.
  unfoldable pub open_phase : List ℕ → TargetInfo → File → WriteOptions → M (Run os.World) File
  open_phase target_path planned source options = do
    target ← io (open_target os target_path planned options)
    set_target target
    resized ←
        (if not target.is_device && options.truncate_regular_file
          then io (resize_regular_file os target source.size_bytes)
          else pure target)
    set_target resized
    grown ←
        (if not resized.is_device && ltb resized.size_bytes source.size_bytes
          then io (resize_regular_file os resized source.size_bytes)
          else pure resized)
    set_target grown
    pure grown

  -- The buffer, the loop, and the comparison of what was streamed with what was planned.
  unfoldable pub stream_phase : File → File → WriteOptions → List ℕ → M (Run os.World) (Unit {0})
  unfolding write_loop
  stream_phase source target options planned_hash =
      let alignment = if ltb 4096 target.alignment then target.alignment else 4096 in
      let buffer_size = round_up options.buffer_size alignment in
      if buffer_size == 0 then throw err_too_large else do
        io (aligned_alloc os alignment buffer_size)
        notify write_phase 0 source.size_bytes
        ctx ←
            write_loop source.size_bytes source target buffer_size options.write_retries 0
              Sha256.init
        (if constant_time_equal planned_hash (Sha256.final ctx)
            then pure tt
            else throw err_identity_changed)

  -- The cache is flushed, and the target closed.
  unfoldable pub flush_step : File → M (Run os.World) (Unit {0})
  flush_step target = do
    notify flush_phase 0 1
    io (flush os target)
    notify flush_phase 1 1
    closed ← io (call (close_file os target))
    set_target closed

  -- The verification runs on files of its own; its counts and hash are copied.
  unfoldable pub verify_step : List ℕ → List ℕ → WriteOptions → List ℕ → M (Run os.World) (Unit {0})
  verify_step source_path target_path options digest run =
      let (r, v) =
        verify_image_internal os source_path target_path options.verify_mode options.sample_count
          options.buffer_size (some digest) run.world run.progress in
      elim options.verify_mode [
        | verify_none ↦ (
          done tt,
          record run { result = record (run.result) { final_state = success_unverified } },
        )
        | _ ↦ (
          r,
          record run {
            world = v.world;
            progress = v.progress;
            result = record (run.result) {
              bytes_verified = v.result.bytes_verified;
              verification_mismatches = v.result.verification_mismatches;
              target_sha256 = v.result.target_sha256;
              final_state = elim r [ failed s ↦ verification_failed | done _ ↦ success_verified ];
            };
          },
        )
      ]

  -- Up to the label `out`.
  unfoldable pub write_body : List ℕ → List ℕ → WriteOptions → M (Run os.World) (Unit {0})
  unfolding plan_phase open_phase stream_phase flush_step verify_step
  write_body source_path target_path options = do
    notify prepare 0 1
    source ← io (open_source os source_path)
    set_source source
    (planned, digest) ← plan_phase target_path source options
    target ← open_phase target_path planned source options
    stream_phase source target options digest
    flush_step target
    verify_step source_path target_path options digest
    notify complete 1 1

  unfoldable pub write_image :
      List ℕ → List ℕ → Option WriteOptions → os.World → Outcome (Unit {0}) × Run os.World
  unfolding effective_options write_body close_both
  write_image source_path target_path options_in w =
      let start = run_reset w [] in
      let (r, run) =
        write_body source_path target_path (effective_options options_in)
          (record start { result = record (start.result) { final_state = failed_before_write } }) in
      (r, close_both os run)
