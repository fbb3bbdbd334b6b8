-- ===== src/Pipeline/Verify.antt =====
-- `df_verify_sample_files`, `df_verify_image_internal` and `df_verify_image` of src/pipeline.c.
use deadflash.Base.{
  ℕ, zero, suc, ◌+◌, ◌-◌, ◌%◌, not, ◌&&◌, ◌||◌, Option, none, some, List, [], length, ltb, ◌==◌,
  if◌then◌else◌, add64, mul64,
}
use deadflash.Common.{
  Outcome, done, failed, err_too_small, err_verify_mismatch, VerifyMode, verify_none, verify_sample,
  verify_full, constant_time_equal,
}
use deadflash.Common.Monad.{M, ◌>>=◌, ◌>>◌, pure, throw}
use deadflash.Device.{File}
use deadflash.Device.Posix.{Os}
use deadflash.Device.Files.{read_at, open_source, close_file}
use deadflash.Pipeline.{
  Run, Progress, hash_source, verify_phase, io, notify, set_result, set_source, set_target, attempt,
  give, get_run, run_reset, round_up, aligned_alloc, prng_next, seed_from_hash, sample_block_size,
  default_sample_count, default_buffer_size, FinalState, verification_failed, success_unverified,
  success_verified,
}
use deadflash.Pipeline.Hash.{hash_file_region_progress}

-- The offset of a round and the state of the generator after it: the first block, the last one,
-- then drawn ones.
unfoldable pub sample_offset : ℕ → ℕ → ℕ → ℕ × ℕ
unfolding prng_next
sample_offset iteration max_offset seed =
    if iteration == 0
    then (0, seed)
    else if iteration == 1
    then (max_offset, seed)
    else if max_offset == 0
    then (0, seed)
    else (let (seed', drawn) = prng_next seed in (drawn % (max_offset + 1), seed'))

module _ (os : Os) where
  -- One sample: both blocks are read, and compared.
  unfoldable pub sample_round : File → File → ℕ → ℕ → ℕ → M (Run os.World) (Unit {0})
  sample_round source target block_size total offset = do
    left ← io (read_at os source block_size offset)
    right ← io (read_at os target block_size offset)
    (if not (length left == block_size)
          || not (length right == block_size)
          || not (constant_time_equal left right)
        then (set_result (λ r. record r { verification_mismatches = r.verification_mismatches + 1 })
            >> throw err_verify_mismatch)
        else pure tt)
    set_result (λ r. record r { bytes_verified = add64 r.bytes_verified block_size })
    run ← get_run
    notify verify_phase run.result.bytes_verified total

  -- The rounds that are left, and the number of the next one.
  unfoldable pub sample_loop : ℕ → ℕ → ℕ → File → File → ℕ → ℕ → M (Run os.World) (Unit {0})
  sample_loop zero iteration seed source target block_size total = pure tt
  sample_loop (suc rounds) iteration seed source target block_size total =
      let (offset, seed') = sample_offset iteration (source.size_bytes - block_size) seed in
      sample_round source target block_size total offset
      >> sample_loop rounds (iteration + 1) seed' source target block_size total

  unfoldable pub verify_sample_files : File → File → List ℕ → ℕ → M (Run os.World) (Unit {0})
  unfolding sample_loop
  verify_sample_files source target source_hash sample_count =
      let count = if sample_count == 0 then default_sample_count else sample_count in
      let block_size =
        if ltb source.size_bytes sample_block_size then source.size_bytes else sample_block_size in
      if block_size == 0 then notify verify_phase 0 0 else do
        io (aligned_alloc os 4096 (round_up block_size 4096))
        io (aligned_alloc os 4096 (round_up block_size 4096))
        notify verify_phase 0 (mul64 (count + 2) block_size)
        sample_loop (count + 2) 0 (seed_from_hash source_hash) source target block_size
            (mul64 (count + 2) block_size)

  -- The full comparison by hash.
  unfoldable pub verify_full_hash : File → File → List ℕ → ℕ → M (Run os.World) (Unit {0})
  verify_full_hash source target source_hash buffer_size = do
    target_hash ← hash_file_region_progress os target source.size_bytes buffer_size verify_phase
    set_result (λ r. record r { target_sha256 = target_hash; bytes_verified = source.size_bytes })
    (if constant_time_equal source_hash target_hash
        then pure tt
        else (set_result (λ r. record r { verification_mismatches = 1 })
            >> throw err_verify_mismatch))

  unfoldable pub by_mode : VerifyMode → File → File → List ℕ → ℕ → ℕ → M (Run os.World) (Unit {0})
  unfolding verify_sample_files verify_full_hash
  by_mode verify_none source target source_hash sample_count buffer_size = pure tt
  by_mode verify_sample source target source_hash sample_count buffer_size =
      verify_sample_files source target source_hash sample_count
  by_mode verify_full source target source_hash sample_count buffer_size =
      verify_full_hash source target source_hash buffer_size

  abbrev pub verified_state : VerifyMode → Outcome (Unit {0}) → FinalState
  verified_state mode (failed s) = verification_failed
  verified_state verify_none (done _) = success_unverified
  verified_state mode (done _) = success_verified

  -- Up to the label `out`.
  unfoldable pub verify_body :
      List ℕ → List ℕ → VerifyMode → ℕ → ℕ → Option (List ℕ) → M (Run os.World) (Unit {0})
  unfolding by_mode
  verify_body source_path target_path mode sample_count buffer_size known = do
    source ← io (open_source os source_path)
    set_source source
    target ← io (open_source os target_path)
    set_target target
    (if not (target.size_bytes == 0) && ltb target.size_bytes source.size_bytes
        then throw err_too_small
        else pure tt)
    set_result (λ r. record r { source_size = source.size_bytes })
    source_hash ← elim known [
      | some digest ↦ pure digest
      | none ↦ hash_file_region_progress os source source.size_bytes buffer_size hash_source
    ]
    set_result (λ r. record r { source_sha256 = source_hash })
    outcome ← attempt (by_mode mode source target source_hash sample_count buffer_size)
    set_result (λ r. record r { final_state = verified_state mode outcome })
    give outcome

  -- The label `out`: both files are closed, whatever the outcome.
  unfoldable pub close_both : Run os.World → Run os.World
  unfolding close_file
  close_both run =
      let (source, w) = close_file os run.source run.world in
      let (target, w') = close_file os run.target w in
      record run { world = w'; source = source; target = target }

  -- From the world and the progress so far.
  unfoldable pub verify_image_internal :
      List ℕ
      → List ℕ
      → VerifyMode
      → ℕ
      → ℕ
      → Option (List ℕ)
      → os.World
      → List Progress
      → Outcome (Unit {0}) × Run os.World
  unfolding verify_body close_both
  verify_image_internal source_path target_path mode sample_count buffer_size known w progress =
      let size = if buffer_size == 0 then default_buffer_size else buffer_size in
      let (r, run) =
        verify_body source_path target_path mode sample_count size known (run_reset w progress) in
      (r, close_both run)

  unfoldable pub verify_image :
      List ℕ → List ℕ → VerifyMode → ℕ → ℕ → os.World → Outcome (Unit {0}) × Run os.World
  unfolding verify_image_internal
  verify_image source_path target_path mode sample_count buffer_size w =
      verify_image_internal source_path target_path mode sample_count buffer_size none w []
