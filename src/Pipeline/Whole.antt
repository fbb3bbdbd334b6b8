-- ===== src/Pipeline/Whole.antt =====
-- What a successful `df_write_image` has done, from the planning to the flush.
use deadflash.Base.{
  ℕ, ◌^◌, ◌≤◌, ◌<◌, ◌≡◌, refl, sym, ap, ◌∙◌, Option, some, List, [], length, take, ◌⊎◌, inl, inr,
  Bool, true, false, if◌then◌else◌, All, IsByte,
}
use deadflash.Common.{Outcome, done, failed, VerifyMode, verify_none, verify_sample, verify_full}
use deadflash.Common.Monad.{pure, through, through_guard, after, pure-done}
use deadflash.Device.{File, TargetInfo, WriteOptions}
use deadflash.Device.Posix.{Os, Laws}
use deadflash.Device.Files.{open_source, open_target, inspect_target, flush, resize_regular_file}
use deadflash.Device.Sources.{open_source-done, open_target-handle, resize_regular_file-handle}
use deadflash.Pipeline.{
  Run, WriteResult, FinalState, hash_source, io, through_io, success_unverified, success_verified,
  verification_failed, run_reset, failed_before_write,
}
use deadflash.Pipeline.Readback.{hash_file_region_progress-done}
use deadflash.Pipeline.Checked.{sha256_buffer-IsDigest}
use deadflash.Pipeline.Streamed.{stream_phase-done}
use deadflash.Pipeline.Verify.{close_both}
use deadflash.Pipeline.Write.{
  plan_phase, open_phase, flush_step, verify_step, write_body, write_image, effective_options,
}
use deadflash.Sha256

module _ (os : Os) where
  -- A step that gives a regular file another size, or none, leaves the handle.
  resize_step-handle :
      (file f : File) (test : Bool) (size : ℕ) (run run' : Run os.World)
      → (if test then io (resize_regular_file os file size) else pure file) run ≡ (done f, run')
      → f.handle ≡ file.handle
  resize_step-handle file f true size run run' e =
      resize_regular_file-handle os file f size run.world run'.world (λ i. ((e i).0, (e i).1.world))
  resize_step-handle file f false size run run' e = sym (ap (λ x. x.handle) (pure-done e).0)

  -- The target is the one that was opened under its guards, by its handle.
  open_phase-done :
      (path : List ℕ) (planned : TargetInfo) (source f : File) (options : WriteOptions)
      (run run' : Run os.World)
      → open_phase os path planned source options run ≡ (done f, run')
      → (opened : File) × (wo : os.World) × (ft : ℕ) × (open_target os path planned options
            run.world
          ≡ (done opened, wo))
        × (opened.handle ≡ some ft)
        × (f.handle ≡ some ft)
  unfolding open_phase
  open_phase-done path planned source f options run run' e =
      through_io (open_target os path planned options) _ e (λ target w1 e1 h1.
        let (ft, p) = open_target-handle os path planned options target run.world w1 e1 in
        through _ _ (after _ _ refl h1) (λ resized run2 e2 h2.
          through _ _ (after _ _ refl h2) (λ grown run3 e3 h3.
            let same =
              ap (λ x. x.handle) (sym (pure-done (after _ _ refl h3)).0)
              ∙ resize_step-handle resized grown _ source.size_bytes _ run3 e3
              ∙ resize_step-handle target resized _ source.size_bytes _ run2 e2 in
            (target, w1, ft, e1, p, same ∙ p))))

  -- The state that a success ends in.
  abbrev pub success_state : VerifyMode → FinalState
  success_state verify_none = success_unverified
  success_state verify_sample = success_verified
  success_state verify_full = success_verified

  mode_cases :
      (mode : VerifyMode) → (mode ≡ verify_none) ⊎ ((mode ≡ verify_sample) ⊎ (mode ≡ verify_full))
  mode_cases verify_none = inl refl
  mode_cases verify_sample = inr (inl refl)
  mode_cases verify_full = inr (inr refl)

  abbrev state_of : Outcome (Unit {0}) → FinalState
  state_of (failed s) = verification_failed
  state_of (done _) = success_verified

  verify_step-done :
      (source_path target_path : List ℕ) (options : WriteOptions) (digest : List ℕ)
      (run run' : Run os.World)
      → verify_step os source_path target_path options digest run ≡ (done tt, run')
      → run'.result.final_state ≡ success_state options.verify_mode
  unfolding verify_step
  verify_step-done source_path target_path options digest run run' e =
      elim (mode_cases options.verify_mode) [
        | inl p ↦ rw p (ap (λ r. r.1.result.final_state) (sym (rw (p, verify_step) at e)))
        | inr (inl p) ↦
            let h = rw (p, verify_step) at e in
            rw p (ap (λ r. r.1.result.final_state) (sym h) ∙ ap state_of (ap (λ r. r.0) h))
        | inr (inr p) ↦
            let h = rw (p, verify_step) at e in
            rw p (ap (λ r. r.1.result.final_state) (sym h) ∙ ap state_of (ap (λ r. r.0) h))
      ]

module _ (os : Os) (laws : Laws os) where
  open laws use {content}

  -- The planned hash is that of the source as it stands at the end of the planning.
  plan_phase-done :
      (path : List ℕ) (source : File) (fs : ℕ) (options : WriteOptions) (planned : TargetInfo)
      (digest : List ℕ) (run run' : Run os.World)
      → source.handle ≡ some fs
      → source.size_bytes < 2 ^ 64
      → plan_phase os path source options run ≡ (done (planned, digest), run')
      → (digest ≡ Sha256.sha256_buffer (take source.size_bytes (content fs run'.world)))
        × (source.size_bytes ≤ length (content fs run'.world))
  unfolding plan_phase
  plan_phase-done path source fs options planned digest run run' open_fd small e =
      let (some_bytes, h1) = through_guard _ _ _ e in
      through_io (inspect_target os path) _ (after _ _ refl h1) (λ found w2 e2 h2.
        let (fits, h3) = through_guard _ _ _ (after _ _ refl h2) in
        through _ _ (after _ _ refl h3) (λ hashed run4 e4 h4.
          let (is, long, same) =
            hash_file_region_progress-done os laws source fs open_fd source.size_bytes
              options.buffer_size hash_source hashed _ run4 small e4 in
          let (both, last) = pure-done (after _ _ refl h4) in
          let end = ap (λ r. content fs r.world) (sym last) ∙ same fs in
          (rw end (ap (λ p. p.1) (sym both) ∙ is), rw end long)))

  -- The source was opened, and hashed in a world `wp`; there the target was opened under its guards;
  -- the flush of the target succeeded in a world `wf`, where its first bytes, as many as the source
  -- has by its size, have the hash that those of the source had in `wp`.
  abbrev pub IsWritten : List ℕ → List ℕ → WriteOptions → os.World → WriteResult → Type 0
  IsWritten source_path target_path options w result =
      (source : File) × (planned : TargetInfo) × (opened : File) × (target : File) × (fs : ℕ)
      × (ft : ℕ) × (w1 : os.World) × (wp : os.World) × (wo : os.World) × (wf : os.World)
      × (wz : os.World) × (open_source os source_path w ≡ (done source, w1))
      × (source.handle ≡ some fs)
      × (open_target os target_path planned options wp ≡ (done opened, wo))
      × (opened.handle ≡ some ft)
      × (target.handle ≡ some ft)
      × (flush os target wf ≡ (done tt, wz))
      × (source.size_bytes ≤ length (content fs wp))
      × (source.size_bytes ≤ length (content ft wf))
      × (Sha256.sha256_buffer (take source.size_bytes (content fs wp))
          ≡ Sha256.sha256_buffer (take source.size_bytes (content ft wf)))
      × (result.final_state ≡ success_state os options.verify_mode)

  write_body-done :
      (source_path target_path : List ℕ) (options : WriteOptions) (run run' : Run os.World)
      → write_body os source_path target_path options run ≡ (done tt, run')
      → IsWritten source_path target_path options run.world run'.result
  unfolding write_body flush_step
  write_body-done source_path target_path options run run' e =
      through_io (open_source os source_path) _ (after _ _ refl e) (λ source w1 e1 h1.
        let (fs, open_s, small) = open_source-done os laws source_path source run.world w1 e1 in
        through _ _ (after _ _ refl h1) (λ both run2 e2 h2.
          let (hashed, long) =
            plan_phase-done target_path source fs options both.0 both.1 _ run2 open_s small e2 in
          through _ _ h2 (λ target run3 e3 h3.
            let (opened, wo, ft, opens, open_o, open_t) =
              open_phase-done os target_path both.0 source target options run2 run3 e3 in
            through _ _ h3 (λ u run4 e4 h4. through (flush_step os target) _ h4 (λ u5 run5 e5 h5.
              through _ _ h5 (λ u6 run6 e6 h6.
                through_io (flush os target) _ (after _ _ refl e5) (λ u7 wz e7 h7.
                  let shape : (length both.1 ≡ 32) × All IsByte both.1 =
                    rw hashed (sha256_buffer-IsDigest _) in
                  let (same, long_t) =
                    stream_phase-done os laws source target ft options both.1 run3 run4 open_t small
                      shape.0 shape.1 e4 in
                  let state =
                    ap (λ r. r.1.result.final_state) (sym h6)
                    ∙ verify_step-done os source_path target_path options both.1 run5 run6 e6 in
                  (
                    source,
                    both.0,
                    opened,
                    target,
                    fs,
                    ft,
                    w1,
                    run2.world,
                    wo,
                    run4.world,
                    wz,
                    e1,
                    open_s,
                    opens,
                    open_o,
                    open_t,
                    e7,
                    long,
                    long_t,
                    sym hashed ∙ sym same,
                    state,
                  ))))))))

  -- When `df_write_image` succeeds, it opened the source and hashed its bytes, opened the target under
  -- its guards right after, and flushed it when the first bytes of the target, as many as the source
  -- has by its size, had the hash that those of the source had at the opening of the target. It
  -- ends in `success_unverified` where no verification was asked for, else in `success_verified`.
  -- This is for a system that keeps the laws.
  pub write_image-done :
      (source_path target_path : List ℕ) (options : Option WriteOptions) (w : os.World)
      (run : Run os.World)
      → write_image os source_path target_path options w ≡ (done tt, run)
      → IsWritten source_path target_path (effective_options options) w run.result
  unfolding write_image close_both
  write_image-done source_path target_path options w run e =
      let start = run_reset w [] in
      let body =
        write_body os source_path target_path (effective_options options)
          (record start { result = record (start.result) { final_state = failed_before_write } }) in
      let found =
        write_body-done source_path target_path (effective_options options) _ body.1
          (λ i. ((e i).0, body.1)) in
      rw (ap (λ r. r.1.result) e) at found
