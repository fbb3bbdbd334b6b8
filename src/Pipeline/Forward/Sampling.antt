-- ===== src/Pipeline/Forward/Sampling.antt =====
-- A verification of samples never takes the progress back (src/pipeline.c).
use deadflash.Base.{
  ℕ, zero, suc, ◌+◌, ◌-◌, ◌*◌, ◌^◌, ◌≤◌, ◌<◌, ◌≡◌, ◌∙◌, arith, Bool, true, false, not, ◌||◌, List,
  length, if◌then◌else◌, ltb, ◌==◌, Bool-cases, inl, inr, add64, mul64,
}
use deadflash.Common.{err_verify_mismatch, constant_time_equal}
use deadflash.Common.Monad.{◌>>=◌, ◌>>◌, pure, throw}
use deadflash.Device.{File}
use deadflash.Device.Posix.{Os}
use deadflash.Device.Files.{read_at}
use deadflash.Pipeline.{
  WriteResult, notify, set_result, get_run, verify_phase, complete, aligned_alloc, round_up,
  sample_block_size, default_sample_count, seed_from_hash,
}
use deadflash.Pipeline.Forward.{
  rank, IsForward-mono, Steps, Reaches, then-Steps, then-Reaches, io-Steps, reach-Steps,
  notify-Steps,
}
use deadflash.Pipeline.Forward.Writing.{result-Steps}
use deadflash.Pipeline.Verify.{sample_offset, sample_round, sample_loop, verify_sample_files}
use native.Mathlib.Nat.{mul-le-mul}

module _ {W : Type 0} where
  -- A mismatch is recorded, or not.
  compared-Steps :
      (c : Bool) (f : WriteResult → WriteResult) (a n v : ℕ)
      → Steps {W = W}
          (if c then (set_result f >> throw err_verify_mismatch) else pure tt)
          a
          n
          v
          a
          n
          v
  unfolding ◌>>=◌
  compared-Steps true f a n v = record { step = λ run at. at.0 }
  compared-Steps false f a n v = record { step = λ run at. at }

  told-Steps :
      (a n v total : ℕ)
      → a ≤ rank verify_phase * 2 ^ 64 + v
      → v ≤ total
      → total < 2 ^ 64
      → Steps {W = W}
          (get_run >>= λ run. notify verify_phase run.result.bytes_verified total)
          a
          n
          v
          (rank verify_phase * 2 ^ 64 + v)
          n
          v
  unfolding ◌>>=◌
  told-Steps a n v total le part small = record {
    step = λ run at. (
      (
        omega (arith, at.2),
        omega (arith, at.2),
        small,
        IsForward-mono a _ run.progress (omega (arith, at.2)) at.0,
      ),
      at.1,
      at.2,
    );
  }

module _ (os : Os) where
  sample_round-Steps :
      (source target : File) (block total offset n v : ℕ)
      → v + block ≤ total
      → total < 2 ^ 64
      → Steps
          (sample_round os source target block total offset)
          (rank verify_phase * 2 ^ 64 + v)
          n
          v
          (rank verify_phase * 2 ^ 64 + (v + block))
          n
          (v + block)
  unfolding sample_round
  sample_round-Steps source target block total offset n v part small =
      let k = rank verify_phase * 2 ^ 64 in
      then-Steps (io-Steps (read_at os source block offset) (k + v) n v) (omega arith) (λ left.
        then-Steps (io-Steps (read_at os target block offset) (k + v) n v) (omega arith) (λ right.
          then-Steps
            (compared-Steps
              (not (length left == block)
                || not (length right == block)
                || not (constant_time_equal left right))
              (λ r. record r { verification_mismatches = r.verification_mismatches + 1 }) (k + v) n
              v)
            (omega arith)
            (λ u.
              then-Steps
                (result-Steps (λ r. record r { bytes_verified = add64 r.bytes_verified block })
                  (k + v) n v n (v + block) (λ r e e'. (e, omega (arith, e'))))
                (omega arith)
                (λ u'. told-Steps (k + v) n (v + block) total (omega arith) part small))))

  sample_loop-Steps :
      (rounds iteration seed : ℕ) (source target : File) (block total n v : ℕ)
      → v + rounds * block ≡ total
      → total < 2 ^ 64
      → Steps
          (sample_loop os rounds iteration seed source target block total)
          (rank verify_phase * 2 ^ 64 + v)
          n
          v
          (rank verify_phase * 2 ^ 64 + total)
          n
          total
  unfolding sample_loop
  sample_loop-Steps zero iteration seed source target block total n v e small =
      let whole : v ≡ total = omega arith in
      record {
        step = λ run at. (IsForward-mono _ _ run.progress (omega arith) at.0, at.1, at.2 ∙ whole);
      }
  sample_loop-Steps (suc rounds) iteration seed source target block total n v e small =
      then-Steps
        (sample_round-Steps source target block total
          (sample_offset iteration (source.size_bytes - block) seed).0 n v (grind arith) small)
        (grind arith)
        (λ u.
          sample_loop-Steps rounds (iteration + 1)
            (sample_offset iteration (source.size_bytes - block) seed).1 source target block total n
            (v + block) (grind arith) small)

  -- The bytes that a sample verification compares fit 64 bits.
  sample_total :
      (count size : ℕ)
      → count < 2 ^ 32
      → (count + 2) * (if ltb size sample_block_size then size else sample_block_size) < 2 ^ 64
  sample_total count size h =
      let block : (if ltb size sample_block_size then size else sample_block_size)
          ≤ sample_block_size =
        grind arith in
      let rounds : count + 2 ≤ 2 ^ 33 = omega arith in omega (arith, mul-le-mul rounds block)

  pub verify_sample_files-Reaches :
      (source target : File) (source_hash : List ℕ) (sample_count a n : ℕ)
      → a ≤ rank verify_phase * 2 ^ 64
      → sample_count < 2 ^ 32
      → Reaches
          (verify_sample_files os source target source_hash sample_count)
          a
          n
          0
          (rank complete * 2 ^ 64)
  unfolding verify_sample_files
  verify_sample_files-Reaches source target source_hash sample_count a n le few =
      let count = if sample_count == 0 then default_sample_count else sample_count in
      let block =
        if ltb source.size_bytes sample_block_size then source.size_bytes else sample_block_size in
      let counted : count < 2 ^ 32 = grind arith in
      let small = sample_total count source.size_bytes counted in
      let total : mul64 (count + 2) block ≡ (count + 2) * block = omega arith in
      elim (Bool-cases (block == 0)) [
        | inl p ↦
            rw (p, verify_sample_files)
              (reach-Steps
                (notify-Steps verify_phase 0 0 a n 0 (omega arith) (omega arith) (omega arith))
                (omega arith))
        | inr p ↦
            rw (p, verify_sample_files, total)
              (then-Reaches (io-Steps (aligned_alloc os 4096 (round_up block 4096)) a n 0)
                (omega arith)
                (λ u.
                  then-Reaches (io-Steps (aligned_alloc os 4096 (round_up block 4096)) a n 0)
                    (omega arith)
                    (λ u'.
                      then-Reaches
                        (notify-Steps verify_phase 0 ((count + 2) * block) a n 0 (omega arith)
                          (omega arith) small)
                        (omega arith)
                        (λ u''.
                          reach-Steps
                            (sample_loop-Steps (count + 2) 0 (seed_from_hash source_hash) source
                              target block ((count + 2) * block) n 0 (omega arith) small)
                            (omega arith)))))
      ]
