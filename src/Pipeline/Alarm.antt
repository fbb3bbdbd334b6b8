-- ===== src/Pipeline/Alarm.antt =====
-- A full verification that reports a mismatch has seen one (src/pipeline.c).
use deadflash.Base.{
  ℕ, ◌^◌, ◌≤◌, ◌<◌, ◌==◌, ◌≡◌, ◌≢◌, refl, sym, ap, ◌∙◌, none, some, List, [], length, take,
  Bool-cases, inl, inr, if◌then◌else◌, All, IsByte,
}
use deadflash.Common.{
  done, failed, failed≢done, done_inj, err_verify_mismatch, err_too_small, constant_time_equal,
  verify_full,
}
use deadflash.Common.Avoids.{past, after_known}
use deadflash.Common.Compare.{constant_time_equal_iff}
use deadflash.Device.{File}
use deadflash.Device.Posix.{Os, Laws}
use deadflash.Device.Files.{open_source}
use deadflash.Device.Sources.{open_source-done}
use deadflash.Pipeline.{
  Run, run_reset, default_buffer_size, hash_source, verify_phase, WriteResult, verification_failed,
}
use deadflash.Pipeline.Checked.{sha256_buffer-IsDigest}
use deadflash.Pipeline.Hash.{hash_file_region_progress}
use deadflash.Pipeline.Quiet.{
  past_io, past_guard, open_source-Quiet, hash_file_region_progress-Quiet,
}
use deadflash.Pipeline.Readback.{hash_file_region_progress-done}
use deadflash.Pipeline.Verify.{
  verify_full_hash, by_mode, verified_state, verify_body, close_both, verify_image_internal,
  verify_image,
}
use deadflash.Sha256
use deadflash.Sha256.Collision.{false≢true}

module _ (os : Os) (laws : Laws os) where
  open laws use {content}

  verify_full_hash_mismatch :
      (source target : File) (fd : ℕ) (source_hash : List ℕ) (buffer_size : ℕ)
      (run run' : Run os.World)
      → target.handle ≡ some fd
      → source.size_bytes < 2 ^ 64
      → (length source_hash ≡ 32) × All IsByte source_hash
      → verify_full_hash os source target source_hash buffer_size run
        ≡ (failed err_verify_mismatch, run')
      → (source_hash ≢ Sha256.sha256_buffer (take source.size_bytes (content fd run.world)))
        × (source.size_bytes ≤ length (content fd run.world))
        × (run'.result.verification_mismatches ≡ 1)
  unfolding verify_full_hash
  verify_full_hash_mismatch source target fd source_hash buffer_size run run' open_fd small (n, b)
        e =
      past (hash_file_region_progress os target source.size_bytes buffer_size verify_phase) _
        (hash_file_region_progress-Quiet os target source.size_bytes buffer_size verify_phase) e
        (λ digest run1 e1 h1.
          let (hashed, long, same) =
            hash_file_region_progress-done os laws target fd open_fd source.size_bytes buffer_size
              verify_phase digest run run1 small e1 in
          let h2 = after_known _ _ refl h1 in
          let (m, c) = sha256_buffer-IsDigest (take source.size_bytes (content fd run.world)) in
          elim (Bool-cases (constant_time_equal source_hash digest)) [
            | inl p ↦ absurd (failed≢done (sym (ap (λ r. r.0) (rw p at h2))))
            | inr p ↦ (
              λ equal. false≢true (
                  sym (rw hashed at p)
                  ∙ (constant_time_equal_iff source_hash _ b c (n ∙ sym m)).1 equal),
              long,
              sym (
                  ap (λ r. r.1.result.verification_mismatches) (after_known _ _ refl (rw p at h2))),
            )
          ])

  -- Both files were opened, and as they stood then their first bytes, as many as the source has by
  -- its size, differ; the result says that there was a mismatch.
  abbrev pub IsDifferent : List ℕ → List ℕ → os.World → WriteResult → Type 0
  IsDifferent source_path target_path w result =
      (source : File) × (target : File) × (fs : ℕ) × (ft : ℕ) × (w1 : os.World) × (w2 : os.World)
      × (open_source os source_path w ≡ (done source, w1))
      × (open_source os target_path w1 ≡ (done target, w2))
      × (source.handle ≡ some fs)
      × (target.handle ≡ some ft)
      × (source.size_bytes ≤ length (content fs w2))
      × (source.size_bytes ≤ length (content ft w2))
      × (take source.size_bytes (content fs w2) ≢ take source.size_bytes (content ft w2))
      × (result.verification_mismatches ≡ 1)
      × (result.final_state ≡ verification_failed)

  verify_body_mismatch :
      (source_path target_path : List ℕ) (sample_count buffer_size : ℕ) (run run' : Run os.World)
      → verify_body os source_path target_path verify_full sample_count buffer_size none run
        ≡ (failed err_verify_mismatch, run')
      → IsDifferent source_path target_path run.world run'.result
  unfolding verify_body by_mode
  verify_body_mismatch source_path target_path sample_count buffer_size run run' e =
      past_io (open_source os source_path) _ (open_source-Quiet os source_path) e
        (λ source w1 e1 h1.
          past_io (open_source os target_path) _ (open_source-Quiet os target_path)
            (after_known _ _ refl h1)
            (λ target w2 e2 h2.
              let (fs, open_s, small) =
                open_source-done os laws source_path source run.world w1 e1 in
              let (ft, open_t, small_t) = open_source-done os laws target_path target w1 w2 e2 in
              let h3 = past_guard _ err_too_small _ (λ x. cc) (after_known _ _ refl h2) in
              past _ _
                (hash_file_region_progress-Quiet os source source.size_bytes buffer_size
                  hash_source)
                (after_known _ _ refl h3)
                (λ digest run2 e3 h4.
                  past _ _ (record { avoid = λ r x. failed≢done (sym x) }) (after_known _ _ refl h4)
                    (λ outcome run3 e4 h5.
                      let last = after_known _ _ refl h5 in
                      let bad : outcome ≡ failed err_verify_mismatch = ap (λ p. p.0) last in
                      let end = ap (λ p. p.1.result) last in
                      let start : Run os.World = record run {
                        world = w2;
                        source = source;
                        target = target;
                        result = record (run.result) { source_size = source.size_bytes };
                      } in
                      let start2 : Run os.World = record run2 {
                        result = record (run2.result) { source_sha256 = digest };
                      } in
                      let (hashed, long, same) =
                        hash_file_region_progress-done os laws source fs open_s source.size_bytes
                          buffer_size hash_source digest start run2 small e3 in
                      let shape : (length digest ≡ 32) × All IsByte digest =
                        rw hashed
                          (sha256_buffer-IsDigest (take source.size_bytes (content fs w2))) in
                      let (differ, long_t, counted) =
                        verify_full_hash_mismatch source target ft digest buffer_size start2 run3
                          open_t small shape
                          (λ i. ((done_inj (ap (λ p. p.0) e4) ∙ bad) i, (e4 i).1)) in
                      (
                        source,
                        target,
                        fs,
                        ft,
                        w1,
                        w2,
                        e1,
                        e2,
                        open_s,
                        open_t,
                        long,
                        rw (same ft) at long_t,
                        λ equal. differ (
                            hashed
                            ∙ ap Sha256.sha256_buffer
                                (equal ∙ ap (take source.size_bytes) (sym (same ft)))),
                        ap (λ r. r.verification_mismatches) (sym end) ∙ counted,
                        ap (λ r. r.final_state) (sym end) ∙ ap (verified_state os verify_full) bad,
                      )))))

  -- When `df_verify_image` fails with DF_ERR_VERIFY_MISMATCH in the full mode, both files could be
  -- opened, and as they stood then each holds at least as many bytes as the source has by its size, and
  -- those first bytes differ; the result counts one mismatch and ends in `verification_failed`. This
  -- is for a system that keeps the laws.
  pub verify_image_mismatch :
      (source_path target_path : List ℕ) (sample_count buffer_size : ℕ) (w : os.World)
      (run : Run os.World)
      → verify_image os source_path target_path verify_full sample_count buffer_size w
        ≡ (failed err_verify_mismatch, run)
      → IsDifferent source_path target_path w run.result
  unfolding verify_image verify_image_internal close_both
  verify_image_mismatch source_path target_path sample_count buffer_size w run e =
      let size = if buffer_size == 0 then default_buffer_size else buffer_size in
      let body =
        verify_body os source_path target_path verify_full sample_count size none
          (run_reset w []) in
      let found =
        verify_body_mismatch source_path target_path sample_count size (run_reset w []) body.1
          (λ i. ((e i).0, body.1)) in
      rw (ap (λ p. p.1.result) e) at found
