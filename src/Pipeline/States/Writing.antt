-- ===== src/Pipeline/States/Writing.antt =====
-- The write phase of `df_write_image` (src/pipeline.c) keeps its state with its counts.
use mathlib.Core.Path.{subst}
use deadflash.Base.{
  ℕ, zero, suc, ◌+◌, ◌-◌, ◌^◌, ◌≤◌, ◌<◌, ◌≡◌, refl, sym, Bool, List, length, if◌then◌else◌, ltb,
  ltb→lt, ltb→le, smaller_bounds, ◌==◌, Bool-cases, inl, inr, add64, arith,
}
use deadflash.Common.{
  Status, Outcome, done, failed, ok, err_io, err_invalid_argument, err_too_large,
  err_identity_changed, VerifyMode,
}
use deadflash.Common.Monad.{M, ◌>>=◌, ◌>>◌, pure, throw}
use deadflash.Device.{File, WriteOptions}
use deadflash.Device.Posix.{Os}
use deadflash.Device.Files.{read_at, write_at}
use deadflash.Pipeline.{
  Run, WriteResult, Phase, write_phase, notify, get_run, aligned_alloc, round_up,
}
use deadflash.Pipeline.Hash.{hash_round, hash_loop, hash_file_region_progress}
use deadflash.Pipeline.Forward.Parts.{smaller}
use deadflash.Pipeline.States.{
  Claim, Holds, Quiet, then-Holds, then-Quiet, Quiet-Holds, set_result-Holds, notify-Holds,
  pure-Holds, io-Quiet, attempt-Quiet, notify-Quiet, pure-Quiet, throw-Quiet, give-Quiet, if-Quiet,
}
use deadflash.Pipeline.Write.{padded, judge, write_attempts, write_round, write_loop, stream_phase}
use deadflash.Sha256
use deadflash.Pipeline.States.Claims.{Stopped, Streaming, Streaming-Stopped, state_at-partial}

-- The last guard.
require-Quiet :
    {W : Type 0} (c : Bool) (e : Status) → Quiet {W = W} (if c then pure tt else throw e)
require-Quiet c e = if-Quiet c (pure-Quiet tt) (throw-Quiet e)

module _ {W : Type 0} where
  judge-Holds :
      {P R : Claim} (bytes : List ℕ) (retry : Status → M (Run W) (Unit {0})) (x : Outcome ℕ)
      → ((r : WriteResult) → P r → P (record r { write_retries = r.write_retries + 1 }))
      → ((s : Status) → Holds (retry s) P P R)
      → Holds (judge bytes retry x) P P R
  unfolding judge
  judge-Holds bytes retry (done written) same h = elim (Bool-cases (written == length bytes)) [
    | inl p ↦ rw (p, judge) (pure-Holds tt)
    | inr p ↦ rw (p, judge) (then-Holds (set_result-Holds _ same) (λ u. h err_io))
  ]
  judge-Holds bytes retry (failed s) same h = then-Holds (set_result-Holds _ same) (λ u. h s)

  told-Quiet :
      {A : Type 0} (x : A) (total : ℕ)
      → Quiet {W = W}
          (get_run >>= λ run. (notify write_phase run.result.bytes_written total >> pure x))
  unfolding ◌>>=◌
  told-Quiet x total = record { quiet = λ run. refl }

module _ (os : Os) where
  hash_loop-Quiet :
      (fuel : ℕ) (file : File) (size buffer_size allocation : ℕ) (phase : Phase) (offset : ℕ)
      (ctx : Sha256.Ctx)
      → Quiet (hash_loop os fuel file size buffer_size allocation phase offset ctx)
  unfolding hash_loop hash_round
  hash_loop-Quiet zero file size buffer_size allocation phase offset ctx = pure-Quiet ctx
  hash_loop-Quiet (suc fuel) file size buffer_size allocation phase offset ctx =
      elim (Bool-cases (ltb offset size)) [
        | inr p ↦ rw (p, hash_loop) (pure-Quiet ctx)
        | inl p ↦
            rw (p, hash_loop)
              (then-Quiet
                (then-Quiet (give-Quiet _) (λ request. then-Quiet (io-Quiet _) (λ bytes.
                  then-Quiet (if-Quiet _ (throw-Quiet err_io) (pure-Quiet tt))
                    (λ u. then-Quiet (notify-Quiet phase _ _) (λ u'. pure-Quiet _)))))
                (λ ctx'. hash_loop-Quiet fuel file size buffer_size allocation phase _ ctx'))
      ]

  pub hash_file_region_progress-Quiet :
      (file : File) (size buffer_size : ℕ) (phase : Phase)
      → Quiet (hash_file_region_progress os file size buffer_size phase)
  unfolding hash_file_region_progress
  hash_file_region_progress-Quiet file size buffer_size phase =
      if-Quiet _ (throw-Quiet err_invalid_argument) (
        if-Quiet _ (throw-Quiet err_too_large) (
          then-Quiet (io-Quiet _) (λ u. then-Quiet (notify-Quiet phase 0 size) (λ u'.
            then-Quiet (hash_loop-Quiet size file size buffer_size _ phase 0 Sha256.init)
              (λ ctx. pure-Quiet _)))))

  module _ (mode : VerifyMode) (source : File) where
    abbrev size : ℕ
    size = source.size_bytes

    write_attempts-Holds :
        (left : ℕ) (last : Status) (target : File) (bytes : List ℕ) (offset n : ℕ)
        → Holds
            (write_attempts os left last target bytes offset)
            (Streaming size n)
            (Streaming size n)
            (Stopped mode)
    unfolding write_attempts
    write_attempts-Holds zero last target bytes offset n =
        Quiet-Holds (throw-Quiet last) (Streaming-Stopped mode size n)
    write_attempts-Holds (suc left) last target bytes offset n =
        then-Holds
          (Quiet-Holds (attempt-Quiet (io-Quiet (write_at os target bytes offset)))
            (Streaming-Stopped mode size n))
          (λ x.
            judge-Holds bytes _ x (λ r h. h)
              (λ s. write_attempts-Holds left s target bytes offset n))

    write_round-Holds :
        (target : File) (buffer_size retries wanted offset : ℕ) (ctx : Sha256.Ctx)
        → 0 < wanted
        → offset + wanted ≤ size
        → size < 2 ^ 64
        → Holds
            (write_round os source target buffer_size retries wanted offset ctx)
            (Streaming size offset)
            (Streaming size (offset + wanted))
            (Stopped mode)
    unfolding write_round
    write_round-Holds target buffer_size retries wanted offset ctx some_wanted inside small =
        let keep = Streaming-Stopped mode size offset in
        then-Holds (Quiet-Holds (io-Quiet (read_at os source wanted offset)) keep) (λ bytes.
          then-Holds (Quiet-Holds (require-Quiet _ err_io) keep) (λ u.
            then-Holds (Quiet-Holds (give-Quiet (padded target buffer_size bytes)) keep) (λ out.
              then-Holds (write_attempts-Holds retries ok target out offset offset) (λ u'.
                then-Holds
                  (set_result-Holds _ (λ r h. (
                    sym (state_at-partial (offset + wanted) (omega arith)),
                    omega (arith, h.1),
                    h.2,
                    h.3,
                    inside,
                  )))
                  (λ u''.
                    Quiet-Holds (told-Quiet (Sha256.update ctx bytes) size)
                      (Streaming-Stopped mode size (offset + wanted)))))))

    write_loop-Holds :
        (fuel : ℕ) (target : File) (buffer_size retries offset : ℕ) (ctx : Sha256.Ctx)
        → size - offset ≤ fuel
        → 0 < buffer_size
        → offset ≤ size
        → size < 2 ^ 64
        → Holds
            (write_loop os fuel source target buffer_size retries offset ctx)
            (Streaming size offset)
            (Streaming size size)
            (Stopped mode)
    unfolding write_loop
    write_loop-Holds zero target buffer_size retries offset ctx enough some_buffer le small =
        let whole : offset ≡ size = omega arith in
        subst
          (λ n.
            Holds {W = os.World} (pure ctx) (Streaming size offset) (Streaming size n)
              (Stopped mode))
          whole (pure-Holds ctx)
    write_loop-Holds (suc fuel) target buffer_size retries offset ctx enough some_buffer le small =
        elim (Bool-cases (ltb offset size)) [
          | inr p ↦
              let whole : offset ≡ size = omega (arith, ltb→le offset size p) in
              rw (p, write_loop)
                (subst
                  (λ n.
                    Holds {W = os.World} (pure ctx) (Streaming size offset) (Streaming size n)
                      (Stopped mode))
                  whole (pure-Holds ctx))
          | inl p ↦
              let more = ltb→lt offset size p in
              let some_wanted =
                smaller_bounds (size - offset) buffer_size (omega arith) some_buffer in
              let bound = smaller offset size buffer_size le in
              let next : add64 offset
                    (if ltb (size - offset) buffer_size then size - offset else buffer_size)
                  ≡ offset
                    + (if ltb (size - offset) buffer_size then size - offset else buffer_size) =
                omega arith in
              rw (p, write_loop, next)
                (then-Holds
                  (write_round-Holds target buffer_size retries _ offset ctx
                    (omega (arith, some_wanted)) bound small)
                  (λ ctx'.
                    write_loop-Holds fuel target buffer_size retries _ ctx'
                      (omega (arith, some_wanted)) some_buffer bound small))
        ]

    pub stream_phase-Holds :
        (target : File) (options : WriteOptions) (digest : List ℕ)
        → size < 2 ^ 64
        → Holds
            (stream_phase os source target options digest)
            (Streaming size 0)
            (Streaming size size)
            (Stopped mode)
    unfolding stream_phase
    stream_phase-Holds target options digest small =
        let alignment = if ltb 4096 target.alignment then target.alignment else 4096 in
        let buffer_size = round_up options.buffer_size alignment in
        elim (Bool-cases (buffer_size == 0)) [
          | inl p ↦
              rw (p, stream_phase)
                record { holds = λ run h. Streaming-Stopped mode size 0 run.result h }
          | inr p ↦
              let some_buffer : 0 < buffer_size = grind arith in
              rw (p, stream_phase)
                (then-Holds
                  (Quiet-Holds (io-Quiet (aligned_alloc os alignment buffer_size))
                    (Streaming-Stopped mode size 0))
                  (λ u. then-Holds (notify-Holds write_phase 0 size) (λ u.
                    then-Holds
                      (write_loop-Holds size target buffer_size options.write_retries 0 Sha256.init
                        (omega arith) some_buffer (omega arith) small)
                      (λ ctx.
                        Quiet-Holds (require-Quiet _ err_identity_changed)
                          (Streaming-Stopped mode size size)))))
        ]
