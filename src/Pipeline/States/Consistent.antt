-- ===== src/Pipeline/States/Consistent.antt =====
-- However `df_write_image` ends, its outcome, its state and its counts agree (src/pipeline.c).
use deadflash.Base.{ℕ, refl, sym, ◌∙◌, Option, some, List, [], ltb, ◌==◌, ◌&&◌, not, arith}
use deadflash.Common.{
  Outcome, done, failed, err_too_small, err_source_too_large, VerifyMode, verify_none,
  verify_sample, verify_full,
}
use deadflash.Common.Monad.{call}
use deadflash.Device.{File, TargetInfo, WriteOptions}
use deadflash.Device.Posix.{Os, Laws}
use deadflash.Device.Files.{
  inspect_target, open_source, open_target, resize_regular_file, flush, close_file,
}
use deadflash.Device.Sources.{open_source-done}
use deadflash.Pipeline.{
  Run, run_reset, failed_before_write, verification_failed, success_unverified, success_verified,
  prepare, hash_source, flush_phase, complete,
}
use deadflash.Pipeline.States.{
  Ends, Holds, Quiet, then-Holds, then-Quiet, Quiet-Holds, set_result-Holds, notify-Holds,
  pure-Holds, io-Quiet, notify-Quiet, pure-Quiet, throw-Quiet, set_source-Quiet, set_target-Quiet,
  set_planned-Quiet, if-Quiet, guard-Holds, after_io-Holds,
}
use deadflash.Pipeline.Verify.{verify_image_internal, close_both}
use deadflash.Pipeline.Write.{
  effective_options, plan_phase, open_phase, flush_step, verify_step, write_body, write_image,
}
use deadflash.Pipeline.States.Claims.{
  Stopped, Finished, IsConsistent, Unwritten, Streaming, Unwritten-Stopped, Streaming-Stopped,
  sample≢none, full≢none,
}
use deadflash.Pipeline.States.Writing.{hash_file_region_progress-Quiet, stream_phase-Holds}

module _ (os : Os) where
  module _ (mode : VerifyMode) (source : File) where
    plan_phase-Holds :
        (target_path : List ℕ) (options : WriteOptions)
        → Holds
            (plan_phase os target_path source options)
            Unwritten
            (Streaming source.size_bytes 0)
            (Stopped mode)
    unfolding plan_phase
    plan_phase-Holds target_path options =
        let keep = Streaming-Stopped mode source.size_bytes 0 in
        guard-Holds (source.size_bytes == 0) err_too_small (Unwritten-Stopped mode) (λ p.
          then-Holds (set_result-Holds _ (λ r h. (h.0, h.1, refl, grind arith, omega arith))) (λ u.
            then-Holds (Quiet-Holds (io-Quiet (inspect_target os target_path)) keep) (λ planned.
              then-Holds (Quiet-Holds (set_planned-Quiet planned) keep) (λ u.
                then-Holds
                  (Quiet-Holds (if-Quiet _ (throw-Quiet err_source_too_large) (pure-Quiet tt)) keep)
                  (λ u. then-Holds (notify-Holds prepare 1 1) (λ u.
                    then-Holds
                      (Quiet-Holds
                        (hash_file_region_progress-Quiet os source source.size_bytes
                          options.buffer_size hash_source)
                        keep)
                      (λ digest.
                        then-Holds (set_result-Holds _ (λ r h. h)) (λ u. pure-Holds _))))))))

    open_phase-Quiet :
        (target_path : List ℕ) (planned : TargetInfo) (options : WriteOptions)
        → Quiet (open_phase os target_path planned source options)
    unfolding open_phase
    open_phase-Quiet target_path planned options =
        then-Quiet (io-Quiet (open_target os target_path planned options)) (λ target.
          then-Quiet (set_target-Quiet target) (λ u.
            then-Quiet
              (if-Quiet (not target.is_device && options.truncate_regular_file)
                (io-Quiet (resize_regular_file os target source.size_bytes)) (pure-Quiet target))
              (λ resized. then-Quiet (set_target-Quiet resized) (λ u.
                then-Quiet
                  (if-Quiet (not resized.is_device && ltb resized.size_bytes source.size_bytes)
                    (io-Quiet (resize_regular_file os resized source.size_bytes))
                    (pure-Quiet resized))
                  (λ grown. then-Quiet (set_target-Quiet grown) (λ u. pure-Quiet grown))))))

    flush_step-Quiet : (target : File) → Quiet (flush_step os target)
    unfolding flush_step
    flush_step-Quiet target = then-Quiet (notify-Quiet flush_phase 0 1) (λ u.
        then-Quiet (io-Quiet (flush os target)) (λ u.
          then-Quiet (notify-Quiet flush_phase 1 1) (λ u.
            then-Quiet (io-Quiet (call (close_file os target)))
              (λ closed. set_target-Quiet closed))))

    -- The end of a run whose bytes are all written, by the mode and the outcome of the verification.
    verified-Ends :
        (m : VerifyMode) (x : Outcome (Unit {0}) × Run os.World) (run : Run os.World)
        → Streaming source.size_bytes source.size_bytes run.result
        → Ends (Finished m) (Stopped m) (
            let (r, v) = x in
            elim m as (λ _. Outcome (Unit {0}) × Run os.World) [
              | verify_none ↦ (
                done tt,
                record run { result = record (run.result) { final_state = success_unverified } },
              )
              | _ ↦ (
                r,
                record run {
                  world = v.world;
                  progress = v.progress;
                  result = record (run.result) {
                    bytes_verified = v.result.bytes_verified;
                    verification_mismatches = v.result.verification_mismatches;
                    target_sha256 = v.result.target_sha256;
                    final_state = elim r [
                      | failed s ↦ verification_failed
                      | done _ ↦ success_verified
                    ];
                  };
                },
              )
            ])
    verified-Ends verify_none x run (state, count, whole, some_bytes, le) =
        (refl, omega (arith, count), count ∙ sym whole)
    verified-Ends verify_sample (done u, v) run (state, count, whole, some_bytes, le) =
        (sample≢none, omega (arith, count), count ∙ sym whole)
    verified-Ends verify_sample (failed e, v) run (state, count, whole, some_bytes, le) =
        (sample≢none, omega (arith, count), count ∙ sym whole)
    verified-Ends verify_full (done u, v) run (state, count, whole, some_bytes, le) =
        (full≢none, omega (arith, count), count ∙ sym whole)
    verified-Ends verify_full (failed e, v) run (state, count, whole, some_bytes, le) =
        (full≢none, omega (arith, count), count ∙ sym whole)

  verify_step-Holds :
      (source_path target_path : List ℕ) (source : File) (options : WriteOptions) (digest : List ℕ)
      → Holds
          (verify_step os source_path target_path options digest)
          (Streaming source.size_bytes source.size_bytes)
          (Finished options.verify_mode)
          (Stopped options.verify_mode)
  unfolding verify_step
  verify_step-Holds source_path target_path source options digest = record {
    holds = λ run h.
        verified-Ends options.verify_mode source options.verify_mode
          (verify_image_internal os source_path target_path options.verify_mode options.sample_count
            options.buffer_size (some digest) run.world run.progress)
          run h;
  }

  write_body-Holds :
      (laws : Laws os) (source_path target_path : List ℕ) (options : WriteOptions)
      → Holds
          (write_body os source_path target_path options)
          Unwritten
          (Finished options.verify_mode)
          (Stopped options.verify_mode)
  unfolding write_body
  write_body-Holds laws source_path target_path options =
      let mode = options.verify_mode in
      then-Holds (notify-Holds prepare 0 1) (λ u.
        after_io-Holds (open_source os source_path) (Unwritten-Stopped mode) (λ source w w' e.
          let small = (open_source-done os laws source_path source w w' e).2 in
          let size = source.size_bytes in
          then-Holds (Quiet-Holds (set_source-Quiet source) (Unwritten-Stopped mode)) (λ u.
            then-Holds (plan_phase-Holds mode source target_path options) (λ plan.
              then-Holds
                (Quiet-Holds (open_phase-Quiet mode source target_path plan.0 options)
                  (Streaming-Stopped mode size 0))
                (λ target.
                  then-Holds (stream_phase-Holds os mode source target options plan.1 small) (λ u.
                    then-Holds
                      (Quiet-Holds (flush_step-Quiet mode source target)
                        (Streaming-Stopped mode size size))
                      (λ u.
                        then-Holds (verify_step-Holds source_path target_path source options plan.1)
                          (λ u. notify-Holds complete 1 1))))))))

  closed-IsConsistent :
      (mode : VerifyMode) (x : Outcome (Unit {0}) × Run os.World)
      → IsConsistent mode x
      → IsConsistent mode (let (r, run) = x in (r, close_both os run))
  unfolding close_both
  closed-IsConsistent mode (done u, run) h = h
  closed-IsConsistent mode (failed e, run) h = h

-- However `df_write_image` ends, its outcome, its state and its counts agree. When it failed, then with the
-- state failed_before_write no byte is counted as written, with failed_partial_media at most the
-- source's size is, and with verification_failed all of them, and a verification was asked for. When it
-- succeeded, all bytes of a source that is not empty are counted as written, with the state
-- success_unverified if no verification was asked for, and success_verified if one was. No other state
-- is reported. This is for a system that keeps the laws.
pub write_image-IsConsistent :
    (os : Os) (laws : Laws os) (source_path target_path : List ℕ) (options : Option WriteOptions)
    (w : os.World)
    → IsConsistent
        (effective_options options).verify_mode
        (write_image os source_path target_path options w)
unfolding write_image
write_image-IsConsistent os laws source_path target_path options w =
    let start = run_reset w [] in
    let run : Run os.World = record start {
      result = record (start.result) { final_state = failed_before_write };
    } in
    closed-IsConsistent os (effective_options options).verify_mode
      (write_body os source_path target_path (effective_options options) run)
      ((write_body-Holds os laws source_path target_path (effective_options options)).holds run
        (refl, refl))
