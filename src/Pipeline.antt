-- ===== src/Pipeline.antt =====
-- src/pipeline.c: hashing, writing and verifying an image. The calls of the progress callback are
-- recorded in their order reversed; the times that the result reports are left out.
pub mod Hash
pub mod Verify
pub mod Write
pub mod Written
pub mod Readback
pub mod Streamed
pub mod Checked
pub mod Quiet
pub mod Alarm
pub mod Live
pub mod Equal
pub mod Forward
pub mod States
pub mod Whole
mod Tests
mod VerifyTests
use deadflash.Base.{
  ℕ, ◌+◌, ◌-◌, ◌*◌, ◌%◌, ◌^◌, ◌<◌, Bool, true, false, ◌&&◌, not, Option, none, some, List, [], ◌∷◌,
  replicate, ltb, leb, ◌==◌, if◌then◌else◌, add64, bit_and, bit_xor, ◌≡◌, ◌∙◌, sym, ap, shl64, shr,
  mul64, bit_or,
}
use deadflash.Common.{Outcome, done, failed, Status, err_no_memory}
use deadflash.Common.Monad.{M, ◌>>=◌, ◌>>◌, pure, throw, zoom, through_zoom}
use deadflash.Device.{File, TargetInfo}
use deadflash.Device.Posix.{Os}
use deadflash.Device.Files.{file_reset}

-- 0 stands for a size that does not fit 64 bits.
unfoldable pub round_up : ℕ → ℕ → ℕ
round_up value alignment =
    if alignment == 0
    then value
    else if value % alignment == 0
    then value
    else if ltb (2 ^ 64 - 1 - (alignment - value % alignment)) value
    then 0
    else value + alignment - value % alignment

abbrev pub default_buffer_size : ℕ
default_buffer_size = 32 * 1024 * 1024

abbrev pub sample_block_size : ℕ
sample_block_size = 1024 * 1024

abbrev pub default_sample_count : ℕ
default_sample_count = 64

abbrev pub default_write_retries : ℕ
default_write_retries = 4

-- df_progress_phase
pub data Phase : Type 0 where
  prepare hash_source write_phase flush_phase verify_phase complete : Phase

-- One call of the progress callback.
pub record Progress : Type 0 where
  pub phase : Phase
  pub completed : ℕ
  pub total : ℕ

-- The texts of `final_state`; `state_unset` is the empty one.
pub data FinalState : Type 0 where
  state_unset failed_before_write failed_partial_media verification_failed : FinalState
  success_unverified success_verified plan_breach_partial_media : FinalState

-- df_write_result, but for the times.
pub record WriteResult : Type 0 where
  pub source_size : ℕ
  pub bytes_written : ℕ
  pub bytes_verified : ℕ
  pub write_retries : ℕ
  pub verification_mismatches : ℕ
  pub source_sha256 : List ℕ
  pub target_sha256 : List ℕ
  pub final_state : FinalState

abbrev pub result_reset : WriteResult
result_reset = record {
  source_size = 0;
  bytes_written = 0;
  bytes_verified = 0;
  write_retries = 0;
  verification_mismatches = 0;
  source_sha256 = replicate 32 0;
  target_sha256 = replicate 32 0;
  final_state = state_unset;
}

-- The local variables that outlive a failure, with the world.
pub record Run (W : Type 0) : Type 0 where
  pub world : W
  pub source : File
  pub target : File
  pub result : WriteResult
  pub progress : List Progress
  -- `*target_info`
  pub planned : Option TargetInfo

abbrev pub run_reset : {W : Type 0} → W → List Progress → Run W
run_reset w progress = record {
  world = w;
  source = file_reset;
  target = file_reset;
  result = result_reset;
  progress = progress;
  planned = none;
}

module _ {W : Type 0} where
  abbrev pub io : {A : Type 0} → M W A → M (Run W) A
  io = zoom (λ run. run.world) (λ w run. record run { world = w })

  abbrev pub notify : Phase → ℕ → ℕ → M (Run W) (Unit {0})
  notify phase completed total run = (
    done tt,
    record run {
      progress = record { phase = phase; completed = completed; total = total } ∷ run.progress;
    },
  )

  abbrev pub set_result : (WriteResult → WriteResult) → M (Run W) (Unit {0})
  set_result f run = (done tt, record run { result = f run.result })

  abbrev pub set_source : File → M (Run W) (Unit {0})
  set_source file run = (done tt, record run { source = file })

  abbrev pub set_target : File → M (Run W) (Unit {0})
  set_target file run = (done tt, record run { target = file })

  abbrev pub set_planned : TargetInfo → M (Run W) (Unit {0})
  set_planned info run = (done tt, record run { planned = some info })

  -- A failure becomes a value; what follows reads the status.
  abbrev pub attempt : {A : Type 0} → M (Run W) A → M (Run W) (Outcome A)
  attempt m run = let (r, run') = m run in (done r, run')

  abbrev pub give : {A : Type 0} → Outcome A → M (Run W) A
  give r run = (r, run)

  abbrev pub get_run : M (Run W) (Run W)
  get_run run = (done run, run)

-- A successful call of the device layer, in the run around it.
pub through_io :
    {W A B P : Type 0} (m : M W A) (f : A → M (Run W) B) {run run' : Run W} {b : B}
    → (io m >>= f) run ≡ (done b, run')
    → ((a : A) (w : W)
        → m run.world ≡ (done a, w)
        → f a (record run { world = w }) ≡ (done b, run')
        → P)
    → P
through_io = through_zoom (λ run. run.world) (λ w run. record run { world = w })

-- `df_aligned_alloc` of src/common.c, where a pointer has 8 bytes.
unfoldable pub aligned_alloc : (os : Os) → ℕ → ℕ → M os.World (Unit {0})
aligned_alloc os alignment size w =
    let a = if ltb alignment 8 then 8 else alignment in
    let (r, w') = os.memalign a size w in
    if not (bit_and a (a - 1) == 0)
    then (failed err_no_memory, w)
    else (if r then done tt else failed err_no_memory, w')

-- The new state, and the number drawn.
unfoldable pub prng_next : ℕ → ℕ × ℕ
prng_next state =
    let x1 = bit_xor state (shr state 12) in
    let x2 = bit_xor x1 (shl64 x1 25) in
    let x3 = bit_xor x2 (shr x2 27) in (x3, mul64 x3 2685821657736338717)

pub seed_loop : ℕ → ℕ → List ℕ → ℕ
seed_loop rounds seed [] = seed
seed_loop ℕ.zero seed (b ∷ digest) = seed
seed_loop (ℕ.suc rounds) seed (b ∷ digest) = seed_loop rounds (bit_or (shl64 seed 8) b) digest

unfoldable pub seed_from_hash : List ℕ → ℕ
unfolding seed_loop
seed_from_hash digest =
    let seed = seed_loop 8 0 digest in if seed == 0 then 0xdeadf1a5c0ffee else seed
