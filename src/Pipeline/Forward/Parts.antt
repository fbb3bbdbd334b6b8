-- ===== src/Pipeline/Forward/Parts.antt =====
-- Hashing never takes the progress back (src/pipeline.c).
use deadflash.Base.{
  ℕ, zero, suc, ◌+◌, ◌-◌, ◌*◌, ◌^◌, ◌≤◌, ◌<◌, ◌≡◌, arith, length, if◌then◌else◌, ltb, ◌==◌,
  Bool-cases, inl, inr, add64,
}
use deadflash.Common.{Status, err_io, err_invalid_argument, err_too_large}
use deadflash.Common.Monad.{throw}
use deadflash.Device.{File}
use deadflash.Device.Posix.{Os}
use deadflash.Device.Files.{read_at}
use deadflash.Pipeline.{Phase, aligned_alloc, round_up}
use deadflash.Pipeline.Forward.{
  rank, IsForward-mono, Steps, then-Steps, pure-Steps, give-Steps, guard-Steps, io-Steps,
  notify-Steps,
}
use deadflash.Pipeline.Hash.{request_size, hash_round, hash_loop, hash_file_region_progress}
use deadflash.Sha256

pub smaller :
    (offset size most : ℕ)
    → offset ≤ size
    → offset + (if ltb (size - offset) most then size - offset else most) ≤ size
smaller offset size most h = grind arith

pub throw-Steps :
    {W A : Type 0} (e : Status) (a b n v n' v' : ℕ)
    → a ≤ b
    → Steps {W = W} {A = A} (throw e) a n v b n' v'
throw-Steps e a b n v n' v' le = record { step = λ run at. IsForward-mono a b run.progress le at.0 }

module _ (os : Os) where
  hash_round-Steps :
      (file : File) (size alignment allocation : ℕ) (phase : Phase) (wanted offset : ℕ)
      (ctx : Sha256.Ctx) (n v : ℕ)
      → offset + wanted ≤ size
      → size < 2 ^ 64
      → Steps
          (hash_round os file size alignment allocation phase wanted offset ctx)
          (rank phase * 2 ^ 64 + offset)
          n
          v
          (rank phase * 2 ^ 64 + (offset + wanted))
          n
          v
  unfolding hash_round
  hash_round-Steps file size alignment allocation phase wanted offset ctx n v inside small =
      let k = rank phase * 2 ^ 64 in
      let next : add64 offset wanted ≡ offset + wanted = omega arith in
      then-Steps (give-Steps (request_size file alignment allocation wanted) (k + offset) n v)
        (omega arith)
        (λ request.
          then-Steps (io-Steps (read_at os file request offset) (k + offset) n v) (omega arith)
            (λ bytes.
              then-Steps (guard-Steps (ltb (length bytes) wanted) err_io (k + offset) n v)
                (omega arith)
                (λ u. rw next (
                  then-Steps
                    (notify-Steps phase (offset + wanted) size (k + offset) n v (omega arith) inside
                      small)
                    (omega arith) (λ u'. pure-Steps _ (k + (offset + wanted)) n v)))))

  hash_loop-Steps :
      (fuel : ℕ) (file : File) (size buffer_size allocation : ℕ) (phase : Phase) (offset : ℕ)
      (ctx : Sha256.Ctx) (n v : ℕ)
      → offset ≤ size
      → size < 2 ^ 64
      → Steps
          (hash_loop os fuel file size buffer_size allocation phase offset ctx)
          (rank phase * 2 ^ 64 + offset)
          n
          v
          (rank phase * 2 ^ 64 + size)
          n
          v
  unfolding hash_loop
  hash_loop-Steps zero file size buffer_size allocation phase offset ctx n v le small = record {
    step = λ run at. (IsForward-mono _ _ run.progress (omega arith) at.0, at.1, at.2);
  }
  hash_loop-Steps (suc fuel) file size buffer_size allocation phase offset ctx n v le small =
      elim (Bool-cases (ltb offset size)) [
        | inr p ↦
            rw (p, hash_loop)
              record {
                step = λ run at. (IsForward-mono _ _ run.progress (omega arith) at.0, at.1, at.2);
              }
        | inl p ↦
            let wanted = if ltb (size - offset) buffer_size then size - offset else buffer_size in
            let bound = smaller offset size buffer_size le in
            let next : add64 offset wanted ≡ offset + wanted = omega arith in
            rw (p, hash_loop, next)
              (then-Steps
                (hash_round-Steps file size _ allocation phase wanted offset ctx n v bound small)
                (omega arith)
                (λ ctx'.
                  hash_loop-Steps fuel file size buffer_size allocation phase (offset + wanted) ctx'
                    n v bound small))
      ]

  -- The hash of a file, from any place before its phase.
  pub hash_file_region_progress-Steps :
      (file : File) (size buffer_size : ℕ) (phase : Phase) (a n v : ℕ)
      → a ≤ rank phase * 2 ^ 64
      → size < 2 ^ 64
      → Steps
          (hash_file_region_progress os file size buffer_size phase)
          a
          n
          v
          (rank phase * 2 ^ 64 + size)
          n
          v
  unfolding hash_file_region_progress
  hash_file_region_progress-Steps file size buffer_size phase a n v le small =
      let k = rank phase * 2 ^ 64 in
      elim (Bool-cases (buffer_size == 0)) [
        | inl p ↦
            rw (p, hash_file_region_progress)
              (throw-Steps err_invalid_argument a (k + size) n v n v (omega arith))
        | inr p ↦
            elim (Bool-cases
              (round_up buffer_size (if file.alignment == 0 then 512 else file.alignment) == 0)) [
                | inl q ↦
                    rw (p, q, hash_file_region_progress)
                      (throw-Steps err_too_large a (k + size) n v n v (omega arith))
                | inr q ↦
                    rw (p, q, hash_file_region_progress)
                      (then-Steps (io-Steps (aligned_alloc os _ _) a n v) (omega arith) (λ u.
                        then-Steps
                          (notify-Steps phase 0 size a n v (omega arith) (omega arith) small)
                          (omega arith)
                          (λ u'.
                            then-Steps
                              (hash_loop-Steps size file size buffer_size _ phase 0 Sha256.init n v
                                (omega arith) small)
                              (omega arith) (λ ctx. pure-Steps _ (k + size) n v))))
              ]
      ]
