-- ===== src/Pipeline/Forward/Verifying.antt =====
-- A verification never takes the progress back (src/pipeline.c).
use deadflash.Base.{ℕ, ◌*◌, ◌^◌, ◌≤◌, ◌<◌, arith, Bool, true, false, some, List, if◌then◌else◌}
use deadflash.Common.{
  Outcome, err_verify_mismatch, err_too_small, VerifyMode, verify_none, verify_sample, verify_full,
}
use deadflash.Common.Monad.{M, ◌>>=◌, ◌>>◌, pure, throw}
use deadflash.Device.{File}
use deadflash.Device.Posix.{Os, Laws}
use deadflash.Device.Files.{open_source}
use deadflash.Device.Sources.{open_source-done}
use deadflash.Pipeline.{Run, WriteResult, set_result, attempt, give, verify_phase, complete}
use deadflash.Pipeline.Forward.{
  rank, Reaches, then-Reaches, pure-Steps, guard-Steps, io-Steps, reach-Steps, reach_mono,
  set_source-Steps, set_target-Steps, after_io,
}
use deadflash.Pipeline.Forward.Parts.{hash_file_region_progress-Steps}
use deadflash.Pipeline.Forward.Writing.{result-Steps}
use deadflash.Pipeline.Verify.{verify_full_hash, by_mode, verify_body}
use deadflash.Pipeline.Forward.Sampling.{verify_sample_files-Reaches}

module _ {W : Type 0} where
  -- The last steps of a full verification.
  last-Reaches :
      (c : Bool) (f g : WriteResult → WriteResult) (a n v : ℕ)
      → Reaches {W = W}
          (set_result f >> (if c then pure tt else (set_result g >> throw err_verify_mismatch)))
          a
          n
          v
          a
  unfolding ◌>>=◌
  last-Reaches true f g a n v = record { reach = λ run at. at.0 }
  last-Reaches false f g a n v = record { reach = λ run at. at.0 }

  -- The outcome of a verification is kept, and given at the end.
  kept-Reaches :
      {m : M (Run W) (Unit {0})} (f : Outcome (Unit {0}) → WriteResult → WriteResult) {a n v b : ℕ}
      → Reaches m a n v b
      → Reaches (attempt m >>= λ outcome. (set_result (f outcome) >> give outcome)) a n v b
  unfolding ◌>>=◌
  kept-Reaches f h = record { reach = λ run at. h.reach run at }

module _ (os : Os) where
  verify_full_hash-Reaches :
      (source target : File) (source_hash : List ℕ) (buffer_size a n : ℕ)
      → a ≤ rank verify_phase * 2 ^ 64
      → source.size_bytes < 2 ^ 64
      → Reaches
          (verify_full_hash os source target source_hash buffer_size)
          a
          n
          0
          (rank complete * 2 ^ 64)
  unfolding verify_full_hash
  verify_full_hash-Reaches source target source_hash buffer_size a n le small =
      then-Reaches
        (hash_file_region_progress-Steps os target source.size_bytes buffer_size verify_phase a n 0
          le small)
        (omega arith) (λ digest. reach_mono (last-Reaches _ _ _ _ n 0) (omega arith))

  by_mode-Reaches :
      (mode : VerifyMode) (source target : File) (source_hash : List ℕ)
      (sample_count buffer_size a n : ℕ)
      → a ≤ rank verify_phase * 2 ^ 64
      → sample_count < 2 ^ 32
      → source.size_bytes < 2 ^ 64
      → Reaches
          (by_mode os mode source target source_hash sample_count buffer_size)
          a
          n
          0
          (rank complete * 2 ^ 64)
  unfolding by_mode
  by_mode-Reaches verify_none source target source_hash sample_count buffer_size a n le few small =
      reach-Steps (pure-Steps tt a n 0) (omega arith)
  by_mode-Reaches verify_sample source target source_hash sample_count buffer_size a n le few
        small =
      verify_sample_files-Reaches os source target source_hash sample_count a n le few
  by_mode-Reaches verify_full source target source_hash sample_count buffer_size a n le few small =
      verify_full_hash-Reaches source target source_hash buffer_size a n le small

  -- A verification with a known hash of the source.
  pub verify_body-Reaches :
      (laws : Laws os) (source_path target_path : List ℕ) (mode : VerifyMode)
      (sample_count buffer_size : ℕ) (digest : List ℕ) (a : ℕ)
      → a ≤ rank verify_phase * 2 ^ 64
      → sample_count < 2 ^ 32
      → Reaches
          (verify_body os source_path target_path mode sample_count buffer_size (some digest))
          a
          0
          0
          (rank complete * 2 ^ 64)
  unfolding verify_body
  verify_body-Reaches laws source_path target_path mode sample_count buffer_size digest a le few =
      after_io (open_source os source_path) (omega arith) (λ source w w1 e1.
        let small = (open_source-done os laws source_path source w w1 e1).2 in
        then-Reaches (set_source-Steps source a 0 0) (omega arith) (λ u.
          then-Reaches (io-Steps (open_source os target_path) a 0 0) (omega arith) (λ target.
            then-Reaches (set_target-Steps target a 0 0) (omega arith) (λ u.
              then-Reaches (guard-Steps _ err_too_small a 0 0) (omega arith) (λ u.
                then-Reaches (result-Steps _ a 0 0 0 0 (λ r e e'. (e, e'))) (omega arith) (λ u.
                  then-Reaches (pure-Steps digest a 0 0) (omega arith) (λ known.
                    then-Reaches (result-Steps _ a 0 0 0 0 (λ r e e'. (e, e'))) (omega arith) (λ u.
                      kept-Reaches _ (
                        by_mode-Reaches mode source target known sample_count buffer_size a 0 le few
                          small)))))))))
