-- ===== src/Pipeline/Forward/Whole.antt =====
-- The progress of `df_write_image` never goes back, however it ends (src/pipeline.c).
use deadflash.Base.{
  ℕ, ◌+◌, ◌*◌, ◌^◌, ◌≤◌, ◌<◌, ◌≡◌, refl, arith, Bool, true, false, Option, List, if◌then◌else◌, ltb,
  ◌==◌, Bool-cases, inl, inr, ◌⊎◌,
}
use deadflash.Common.{
  err_too_small, err_too_large, err_source_too_large, err_identity_changed, VerifyMode, verify_none,
  verify_sample, verify_full, constant_time_equal,
}
use deadflash.Common.Monad.{M, call}
use deadflash.Device.{File, TargetInfo, WriteOptions}
use deadflash.Device.Posix.{Os, Laws}
use deadflash.Device.Files.{
  inspect_target, open_source, open_target, resize_regular_file, flush, close_file,
}
use deadflash.Device.Sources.{open_source-done}
use deadflash.Pipeline.{
  set_target, Run, run_reset, prepare, hash_source, write_phase, flush_phase, verify_phase,
  complete, io, set_planned, round_up, aligned_alloc, default_buffer_size,
}
use deadflash.Pipeline.Forward.{
  rank, IsForward, IsForward-mono, Steps, Reaches, Moves, then-Steps, then-Reaches, then-Moves,
  both_move, pure-Steps, guard-Steps, require-Steps, io-Steps, after_io, notify-Steps, notify-Moves,
  reach-Steps, set_source-Steps, set_target-Steps,
}
use deadflash.Pipeline.Forward.Parts.{throw-Steps, hash_file_region_progress-Steps}
use deadflash.Pipeline.Forward.Verifying.{verify_body-Reaches}
use deadflash.Pipeline.Forward.Writing.{result-Steps, write_loop-Steps}
use deadflash.Pipeline.Verify.{verify_image_internal, close_both}
use deadflash.Pipeline.Write.{
  effective_options, plan_phase, open_phase, stream_phase, flush_step, verify_step, write_body,
  write_image,
}
use deadflash.Sha256

module _ {W : Type 0} where
  set_planned-Steps : (info : TargetInfo) (a n v : ℕ) → Steps {W = W} (set_planned info) a n v a n v
  set_planned-Steps info a n v = record { step = λ run at. at }

  if-Steps :
      {A : Type 0} (c : Bool) {m k : M (Run W) A} {a n v b n' v' : ℕ}
      → Steps m a n v b n' v'
      → Steps k a n v b n' v'
      → Steps (if c then m else k) a n v b n' v'
  if-Steps true h k = h
  if-Steps false h k = k

  io-Moves : {A : Type 0} (m : M W A) (a : ℕ) → Moves (io m) a a
  io-Moves m a = record { move = λ run h. h }

  set_target-Moves : (file : File) (a : ℕ) → Moves {W = W} (set_target file) a a
  set_target-Moves file a = record { move = λ run h. h }

module _ (os : Os) where
  plan_phase-Steps :
      (target_path : List ℕ) (source : File) (options : WriteOptions)
      → source.size_bytes < 2 ^ 64
      → Steps
          (plan_phase os target_path source options)
          0
          0
          0
          (rank hash_source * 2 ^ 64 + source.size_bytes)
          0
          0
  unfolding plan_phase
  plan_phase-Steps target_path source options small =
      let b = rank hash_source * 2 ^ 64 + source.size_bytes in
      then-Steps (guard-Steps (source.size_bytes == 0) err_too_small 0 0 0) (omega arith) (λ u.
        then-Steps (result-Steps _ 0 0 0 0 0 (λ r e e'. (e, e'))) (omega arith) (λ u.
          then-Steps (io-Steps (inspect_target os target_path) 0 0 0) (omega arith) (λ planned.
            then-Steps (set_planned-Steps planned 0 0 0) (omega arith) (λ u.
              then-Steps (guard-Steps _ err_source_too_large 0 0 0) (omega arith) (λ u.
                then-Steps
                  (notify-Steps prepare 1 1 0 0 0 (omega arith) (omega arith) (omega arith))
                  (omega arith)
                  (λ u.
                    then-Steps
                      (hash_file_region_progress-Steps os source source.size_bytes
                        options.buffer_size hash_source 1 0 0 (omega arith) small)
                      (omega arith)
                      (λ digest.
                        then-Steps (result-Steps _ b 0 0 0 0 (λ r e e'. (e, e'))) (omega arith)
                          (λ u. pure-Steps (planned, digest) b 0 0))))))))

  open_phase-Steps :
      (target_path : List ℕ) (planned : TargetInfo) (source : File) (options : WriteOptions) (a : ℕ)
      → Steps (open_phase os target_path planned source options) a 0 0 a 0 0
  unfolding open_phase
  open_phase-Steps target_path planned source options a =
      then-Steps (io-Steps (open_target os target_path planned options) a 0 0) (omega arith)
        (λ target. then-Steps (set_target-Steps target a 0 0) (omega arith) (λ u.
          then-Steps
            (if-Steps _ (io-Steps (resize_regular_file os target source.size_bytes) a 0 0)
              (pure-Steps target a 0 0))
            (omega arith)
            (λ resized. then-Steps (set_target-Steps resized a 0 0) (omega arith) (λ u.
              then-Steps
                (if-Steps _ (io-Steps (resize_regular_file os resized source.size_bytes) a 0 0)
                  (pure-Steps resized a 0 0))
                (omega arith)
                (λ grown.
                  then-Steps (set_target-Steps grown a 0 0) (omega arith)
                    (λ u. pure-Steps grown a 0 0))))))

  stream_phase-Reaches :
      (source target : File) (options : WriteOptions) (digest : List ℕ) (a : ℕ)
      → a ≤ rank write_phase * 2 ^ 64
      → source.size_bytes < 2 ^ 64
      → Reaches (stream_phase os source target options digest) a 0 0 (rank flush_phase * 2 ^ 64)
  unfolding stream_phase
  stream_phase-Reaches source target options digest a le small =
      let alignment = if ltb 4096 target.alignment then target.alignment else 4096 in
      let buffer_size = round_up options.buffer_size alignment in
      elim (Bool-cases (buffer_size == 0)) [
        | inl p ↦
            rw (p, stream_phase)
              (reach-Steps
                (throw-Steps err_too_large a (rank flush_phase * 2 ^ 64) 0 0 0 0 (omega arith))
                (omega arith))
        | inr p ↦
            let some_buffer : 0 < buffer_size = grind arith in
            rw (p, stream_phase)
              (then-Reaches (io-Steps (aligned_alloc os alignment buffer_size) a 0 0) (omega arith)
                (λ u.
                  then-Reaches
                    (notify-Steps write_phase 0 source.size_bytes a 0 0 (omega arith) (omega arith)
                      small)
                    (omega arith)
                    (λ u.
                      then-Reaches
                        (write_loop-Steps os source.size_bytes source target buffer_size
                          options.write_retries 0 Sha256.init 0 (omega arith) some_buffer
                          (omega arith) small)
                        (omega arith)
                        (λ ctx.
                          reach-Steps
                            (require-Steps (constant_time_equal digest (Sha256.final ctx))
                              err_identity_changed (rank write_phase * 2 ^ 64 + source.size_bytes)
                              source.size_bytes 0)
                            (omega arith)))))
      ]

  flush_step-Moves :
      (target : File)
      → Moves (flush_step os target) (rank flush_phase * 2 ^ 64) (rank flush_phase * 2 ^ 64 + 1)
  unfolding flush_step
  flush_step-Moves target =
      let b = rank flush_phase * 2 ^ 64 in
      both_move (notify-Moves flush_phase 0 1 b (omega arith) (omega arith) (omega arith))
        (omega arith)
        (λ u. both_move (io-Moves (flush os target) b) (omega arith) (λ u.
          both_move (notify-Moves flush_phase 1 1 b (omega arith) (omega arith) (omega arith))
            (omega arith)
            (λ u.
              both_move (io-Moves (call (close_file os target)) (b + 1)) (omega arith)
                (λ closed. set_target-Moves closed (b + 1)))))

  -- The modes of a verification that is made.
  mode_cases :
      (mode : VerifyMode) → (mode ≡ verify_none) ⊎ ((mode ≡ verify_sample) ⊎ (mode ≡ verify_full))
  mode_cases verify_none = inl refl
  mode_cases verify_sample = inr (inl refl)
  mode_cases verify_full = inr (inr refl)

  verify_step-Moves :
      (laws : Laws os) (source_path target_path : List ℕ) (options : WriteOptions) (digest : List ℕ)
      (a : ℕ)
      → a ≤ rank verify_phase * 2 ^ 64
      → options.sample_count < 2 ^ 32
      → Moves (verify_step os source_path target_path options digest) a (rank complete * 2 ^ 64)
  unfolding verify_step verify_image_internal close_both
  verify_step-Moves laws source_path target_path options digest a le few = record {
    move = λ run h.
        let size = if options.buffer_size == 0 then default_buffer_size else options.buffer_size in
        let body =
          (verify_body-Reaches os laws source_path target_path options.verify_mode
              options.sample_count size digest a le few).reach
            (run_reset run.world run.progress) (h, refl, refl) in
        elim (mode_cases options.verify_mode) [
          | inl p ↦ rw (p, verify_step) (IsForward-mono a _ run.progress (omega arith) h)
          | inr (inl p) ↦ rw (p, verify_step) body
          | inr (inr p) ↦ rw (p, verify_step) body
        ];
  }

  write_body-Reaches :
      (laws : Laws os) (source_path target_path : List ℕ) (options : WriteOptions)
      → options.sample_count < 2 ^ 32
      → Reaches (write_body os source_path target_path options) 0 0 0 (rank complete * 2 ^ 64 + 1)
  unfolding write_body
  write_body-Reaches laws source_path target_path options few =
      then-Reaches (notify-Steps prepare 0 1 0 0 0 (omega arith) (omega arith) (omega arith))
        (omega arith)
        (λ u. after_io (open_source os source_path) (omega arith) (λ source w w1 e1.
          let small = (open_source-done os laws source_path source w w1 e1).2 in
          then-Reaches (set_source-Steps source 0 0 0) (omega arith) (λ u.
            then-Reaches (plan_phase-Steps target_path source options small) (omega arith) (λ plan.
              then-Reaches
                (open_phase-Steps target_path plan.0 source options
                  (rank hash_source * 2 ^ 64 + source.size_bytes))
                (omega arith)
                (λ target.
                  then-Moves
                    (stream_phase-Reaches source target options plan.1
                      (rank hash_source * 2 ^ 64 + source.size_bytes) (omega arith) small)
                    (omega arith)
                    (λ u. both_move (flush_step-Moves target) (omega arith) (λ u.
                      both_move
                        (verify_step-Moves laws source_path target_path options plan.1
                          (rank flush_phase * 2 ^ 64 + 1) (omega arith) few)
                        (omega arith)
                        (λ u.
                          notify-Moves complete 1 1 (rank complete * 2 ^ 64) (omega arith)
                            (omega arith) (omega arith)))))))))

-- However `df_write_image` ends, its calls of the progress callback never went back: a later call is in a
-- later phase, or in the same one with at least as much done; and no call has more done than its
-- total. This is for a system that keeps the laws, and a sample count that is an unsigned int.
pub write_image-IsForward :
    (os : Os) (laws : Laws os) (source_path target_path : List ℕ) (options : Option WriteOptions)
    (w : os.World)
    → (effective_options options).sample_count < 2 ^ 32
    → IsForward
        (rank complete * 2 ^ 64 + 1)
        (write_image os source_path target_path options w).1.progress
unfolding write_image close_both
write_image-IsForward os laws source_path target_path options w few =
    (write_body-Reaches os laws source_path target_path (effective_options options) few).reach _
      (tt, refl, refl)
