-- ===== src/Pipeline/Forward/Writing.antt =====
-- The write loop never takes the progress back, and counts what it wrote (src/pipeline.c).
use deadflash.Base.{
  ℕ, zero, suc, ◌+◌, ◌-◌, ◌*◌, ◌^◌, ◌≤◌, ◌<◌, ◌≡◌, sym, ◌∙◌, arith, List, length, if◌then◌else◌,
  ltb, ltb→lt, ltb→le, smaller_bounds, ◌==◌, Bool-cases, inl, inr, add64,
}
use deadflash.Common.{Status, Outcome, done, failed, ok, err_io}
use deadflash.Common.Monad.{M, ◌>>=◌, ◌>>◌, pure}
use deadflash.Device.{File}
use deadflash.Device.Posix.{Os}
use deadflash.Device.Files.{read_at, write_at}
use deadflash.Pipeline.{Run, WriteResult, io, notify, set_result, get_run, attempt, write_phase}
use deadflash.Pipeline.Forward.{
  rank, IsForward-mono, Steps, then-Steps, pure-Steps, give-Steps, require-Steps, io-Steps,
}
use deadflash.Pipeline.Forward.Parts.{smaller, throw-Steps}
use deadflash.Pipeline.Write.{padded, judge, write_attempts, write_round, write_loop}
use deadflash.Sha256

module _ {W : Type 0} where
  -- A call whose failure is kept as a value.
  attempt-io-Steps : {A : Type 0} (m : M W A) (a n v : ℕ) → Steps (attempt (io m)) a n v a n v
  attempt-io-Steps m a n v = record { step = λ run at. at }

  -- The counts that a change of the result keeps, and those that it changes.
  pub result-Steps :
      (f : WriteResult → WriteResult) (a n v n' v' : ℕ)
      → ((r : WriteResult)
          → r.bytes_written ≡ n
          → r.bytes_verified ≡ v
          → ((f r).bytes_written ≡ n') × ((f r).bytes_verified ≡ v'))
      → Steps {W = W} (set_result f) a n v a n' v'
  result-Steps f a n v n' v' h = record {
    step = λ run at. let (x, y) = h run.result at.1 at.2 in (at.0, x, y);
  }

  -- What was written is told to the callback.
  told-Steps :
      {A : Type 0} (x : A) (a n v total : ℕ)
      → a ≤ rank write_phase * 2 ^ 64 + n
      → n ≤ total
      → total < 2 ^ 64
      → Steps {W = W}
          (get_run >>= λ run. (notify write_phase run.result.bytes_written total >> pure x))
          a
          n
          v
          (rank write_phase * 2 ^ 64 + n)
          n
          v
  unfolding ◌>>=◌
  told-Steps x a n v total le part small = record {
    step = λ run at. (
      (
        omega (arith, at.1),
        omega (arith, at.1),
        small,
        IsForward-mono a _ run.progress (omega (arith, at.1)) at.0,
      ),
      at.1,
      at.2,
    );
  }

  judge-Steps :
      (bytes : List ℕ) (retry : Status → M (Run W) (Unit {0})) (r : Outcome ℕ) (a n v : ℕ)
      → ((s : Status) → Steps (retry s) a n v a n v)
      → Steps (judge bytes retry r) a n v a n v
  unfolding judge
  judge-Steps bytes retry (done written) a n v h = elim (Bool-cases (written == length bytes)) [
    | inl p ↦ rw (p, judge) (pure-Steps tt a n v)
    | inr p ↦
        rw (p, judge)
          (then-Steps (result-Steps _ a n v n v (λ r e e'. (e, e'))) (omega arith) (λ u. h err_io))
  ]
  judge-Steps bytes retry (failed s) a n v h =
      then-Steps (result-Steps _ a n v n v (λ r e e'. (e, e'))) (omega arith) (λ u. h s)

module _ (os : Os) where
  write_attempts-Steps :
      (left : ℕ) (last : Status) (target : File) (bytes : List ℕ) (offset a n v : ℕ)
      → Steps (write_attempts os left last target bytes offset) a n v a n v
  unfolding write_attempts
  write_attempts-Steps zero last target bytes offset a n v =
      throw-Steps last a a n v n v (omega arith)
  write_attempts-Steps (suc left) last target bytes offset a n v =
      then-Steps (attempt-io-Steps (write_at os target bytes offset) a n v) (omega arith) (λ r.
        judge-Steps bytes _ r a n v (λ s. write_attempts-Steps left s target bytes offset a n v))

  write_round-Steps :
      (source target : File) (buffer_size retries wanted offset : ℕ) (ctx : Sha256.Ctx) (v : ℕ)
      → offset + wanted ≤ source.size_bytes
      → source.size_bytes < 2 ^ 64
      → Steps
          (write_round os source target buffer_size retries wanted offset ctx)
          (rank write_phase * 2 ^ 64 + offset)
          offset
          v
          (rank write_phase * 2 ^ 64 + (offset + wanted))
          (offset + wanted)
          v
  unfolding write_round
  write_round-Steps source target buffer_size retries wanted offset ctx v inside small =
      let k = rank write_phase * 2 ^ 64 in
      then-Steps (io-Steps (read_at os source wanted offset) (k + offset) offset v) (omega arith)
        (λ bytes.
          then-Steps (require-Steps (length bytes == wanted) err_io (k + offset) offset v)
            (omega arith)
            (λ u.
              then-Steps (give-Steps (padded target buffer_size bytes) (k + offset) offset v)
                (omega arith)
                (λ out.
                  then-Steps
                    (write_attempts-Steps retries ok target out offset (k + offset) offset v)
                    (omega arith)
                    (λ u'.
                      then-Steps
                        (result-Steps _ (k + offset) offset v (offset + wanted) v
                          (λ r e e'. (omega (arith, e), e')))
                        (omega arith)
                        (λ u''.
                          told-Steps (Sha256.update ctx bytes) (k + offset) (offset + wanted) v
                            source.size_bytes (omega arith) inside small)))))

  pub write_loop-Steps :
      (fuel : ℕ) (source target : File) (buffer_size retries offset : ℕ) (ctx : Sha256.Ctx) (v : ℕ)
      → source.size_bytes - offset ≤ fuel
      → 0 < buffer_size
      → offset ≤ source.size_bytes
      → source.size_bytes < 2 ^ 64
      → Steps
          (write_loop os fuel source target buffer_size retries offset ctx)
          (rank write_phase * 2 ^ 64 + offset)
          offset
          v
          (rank write_phase * 2 ^ 64 + source.size_bytes)
          source.size_bytes
          v
  unfolding write_loop
  write_loop-Steps zero source target buffer_size retries offset ctx v enough some_buffer le small =
      let whole : source.size_bytes ≡ offset = omega arith in
      record {
        step =
            λ run at. (IsForward-mono _ _ run.progress (omega arith) at.0, at.1 ∙ sym whole, at.2);
      }
  write_loop-Steps (suc fuel) source target buffer_size retries offset ctx v enough some_buffer le
        small =
      elim (Bool-cases (ltb offset source.size_bytes)) [
        | inr p ↦
            let whole : source.size_bytes ≡ offset =
              omega (arith, ltb→le offset source.size_bytes p) in
            rw (p, write_loop)
              record {
                step = λ run at.
                    (IsForward-mono _ _ run.progress (omega arith) at.0, at.1 ∙ sym whole, at.2);
              }
        | inl p ↦
            let wanted =
              if ltb (source.size_bytes - offset) buffer_size
              then source.size_bytes - offset
              else buffer_size in
            let more = ltb→lt offset source.size_bytes p in
            let some_left =
              smaller_bounds (source.size_bytes - offset) buffer_size (omega arith) some_buffer in
            let few : source.size_bytes - (offset + wanted) ≤ fuel = omega (arith, some_left) in
            let bound = smaller offset source.size_bytes buffer_size le in
            let next : add64 offset wanted ≡ offset + wanted = omega arith in
            rw (p, write_loop, next)
              (then-Steps
                (write_round-Steps source target buffer_size retries wanted offset ctx v bound
                  small)
                (omega arith)
                (λ ctx'.
                  write_loop-Steps fuel source target buffer_size retries (offset + wanted) ctx' v
                    few some_buffer bound small))
      ]
