-- ===== src/Pipeline/Checked.antt =====
-- A successful full verification: both files have the same hash.
use deadflash.Base.{
  ℕ, ◌^◌, ◌≤◌, ◌<◌, ◌==◌, ◌≡◌, refl, sym, ap, ◌∙◌, none, some, List, [], length, take, Bool-cases,
  inl, inr, if◌then◌else◌, All, IsByte,
}
use deadflash.Common.{done, failed≢done, done_inj, constant_time_equal, verify_full}
use deadflash.Common.Compare.{constant_time_equal_iff}
use deadflash.Common.Monad.{through, after, through_guard, pure-done}
use deadflash.Device.{File}
use deadflash.Device.Posix.{Os, Laws}
use deadflash.Device.Files.{open_source}
use deadflash.Device.Sources.{open_source-done}
use deadflash.Pipeline.{
  Run, run_reset, default_buffer_size, hash_source, WriteResult, verify_phase, through_io,
  success_verified,
}
use deadflash.Pipeline.Hash.{hash_file_region_progress}
use deadflash.Pipeline.Readback.{hash_file_region_progress-done}
use deadflash.Pipeline.Verify.{
  verify_full_hash, by_mode, verify_body, verified_state, close_both, verify_image_internal,
  verify_image,
}
use deadflash.Sha256
use deadflash.Sha256.Digest.{final-IsDigest}

-- The hash of a message has 32 bytes.
pub sha256_buffer-IsDigest :
    (m : List ℕ) → (length (Sha256.sha256_buffer m) ≡ 32) × All IsByte (Sha256.sha256_buffer m)
unfolding Sha256.sha256_buffer
sha256_buffer-IsDigest m = final-IsDigest _

module _ (os : Os) (laws : Laws os) where
  open laws use {content}

  pub verify_full_hash-done :
      (source target : File) (fd : ℕ) (source_hash : List ℕ) (buffer_size : ℕ)
      (run run' : Run os.World)
      → target.handle ≡ some fd
      → source.size_bytes < 2 ^ 64
      → length source_hash ≡ 32
      → All IsByte source_hash
      → verify_full_hash os source target source_hash buffer_size run ≡ (done tt, run')
      → (source_hash ≡ Sha256.sha256_buffer (take source.size_bytes (content fd run.world)))
        × (source.size_bytes ≤ length (content fd run.world))
        × (run'.result.bytes_verified ≡ source.size_bytes)
  unfolding verify_full_hash
  verify_full_hash-done source target fd source_hash buffer_size run run' open_fd small n b e =
      through (hash_file_region_progress os target source.size_bytes buffer_size verify_phase) _ e
        (λ digest run1 e1 h1.
          let (hashed, long, same) =
            hash_file_region_progress-done os laws target fd open_fd source.size_bytes buffer_size
              verify_phase digest run run1 small e1 in
          let h2 = after _ _ refl h1 in
          let (m, c) = sha256_buffer-IsDigest (take source.size_bytes (content fd run.world)) in
          elim (Bool-cases (constant_time_equal source_hash digest)) [
            | inl p ↦
                let (t, last) = pure-done (rw p at h2) in
                (
                  (constant_time_equal_iff source_hash _ b c (n ∙ sym m)).0 (rw (← hashed) p),
                  long,
                  ap (λ r. r.result.bytes_verified) (sym last),
                )
            | inr p ↦
                through _ _ (rw p at h2) (λ u r e3 h3. absurd (failed≢done (ap (λ x. x.0) h3)))
          ])

  -- Both files were opened, and as they stood then their first bytes, as many as the source has by
  -- its size, have one hash; the result says that they were verified.
  abbrev pub IsVerified : List ℕ → List ℕ → os.World → WriteResult → Type 0
  IsVerified source_path target_path w result =
      (source : File) × (target : File) × (fs : ℕ) × (ft : ℕ) × (w1 : os.World) × (w2 : os.World)
      × (open_source os source_path w ≡ (done source, w1))
      × (open_source os target_path w1 ≡ (done target, w2))
      × (source.handle ≡ some fs)
      × (target.handle ≡ some ft)
      × (source.size_bytes ≤ length (content fs w2))
      × (source.size_bytes ≤ length (content ft w2))
      × (Sha256.sha256_buffer (take source.size_bytes (content fs w2))
          ≡ Sha256.sha256_buffer (take source.size_bytes (content ft w2)))
      × (result.bytes_verified ≡ source.size_bytes)
      × (result.final_state ≡ success_verified)

  verify_body-full :
      (source_path target_path : List ℕ) (sample_count buffer_size : ℕ) (run run' : Run os.World)
      → verify_body os source_path target_path verify_full sample_count buffer_size none run
        ≡ (done tt, run')
      → IsVerified source_path target_path run.world run'.result
  unfolding verify_body by_mode
  verify_body-full source_path target_path sample_count buffer_size run run' e =
      through_io (open_source os source_path) _ e (λ source w1 e1 h1.
        through_io (open_source os target_path) _ (after _ _ refl h1) (λ target w2 e2 h2.
          let (fs, open_s, small) = open_source-done os laws source_path source run.world w1 e1 in
          let (ft, open_t, small_t) = open_source-done os laws target_path target w1 w2 e2 in
          let (fits, h3) = through_guard _ _ _ (after _ _ refl h2) in
          through _ _ (after _ _ refl h3) (λ digest run2 e3 h4.
            through _ _ (after _ _ refl h4) (λ outcome run3 e4 h5.
              let last = after _ _ refl h5 in
              let good : outcome ≡ done tt = ap (λ p. p.0) last in
              let end = ap (λ p. p.1.result) last in
              let start : Run os.World = record run {
                world = w2;
                source = source;
                target = target;
                result = record (run.result) { source_size = source.size_bytes };
              } in
              let start2 : Run os.World = record run2 {
                result = record (run2.result) { source_sha256 = digest };
              } in
              let (hashed, long, same) =
                hash_file_region_progress-done os laws source fs open_s source.size_bytes
                  buffer_size hash_source digest start run2 small e3 in
              let shape : (length digest ≡ 32) × All IsByte digest =
                rw hashed (sha256_buffer-IsDigest (take source.size_bytes (content fs w2))) in
              let (equal, long_t, counted) =
                verify_full_hash-done source target ft digest buffer_size start2 run3 open_t small
                  shape.0 shape.1 (λ i. ((done_inj (ap (λ p. p.0) e4) ∙ good) i, (e4 i).1)) in
              (
                source,
                target,
                fs,
                ft,
                w1,
                w2,
                e1,
                e2,
                open_s,
                open_t,
                long,
                rw (same ft) at long_t,
                sym hashed
                    ∙ equal
                    ∙ ap (λ c. Sha256.sha256_buffer (take source.size_bytes c)) (same ft),
                ap (λ r. r.bytes_verified) (sym end) ∙ counted,
                ap (λ r. r.final_state) (sym end) ∙ ap (verified_state os verify_full) good,
              )))))

  -- When `df_verify_image` succeeds in the full mode, both files could be opened, and as they stood
  -- then each holds at least as many bytes as the source has by its size, and those first bytes of
  -- both have one hash; the result counts them as verified and ends in `success_verified`. This is
  -- for a system that keeps the laws.
  pub verify_image-full :
      (source_path target_path : List ℕ) (sample_count buffer_size : ℕ) (w : os.World)
      (run : Run os.World)
      → verify_image os source_path target_path verify_full sample_count buffer_size w
        ≡ (done tt, run)
      → IsVerified source_path target_path w run.result
  unfolding verify_image verify_image_internal close_both
  verify_image-full source_path target_path sample_count buffer_size w run e =
      let size = if buffer_size == 0 then default_buffer_size else buffer_size in
      let body =
        verify_body os source_path target_path verify_full sample_count size none
          (run_reset w []) in
      let found =
        verify_body-full source_path target_path sample_count size (run_reset w []) body.1
          (λ i. ((e i).0, body.1)) in
      rw (ap (λ p. p.1.result) e) at found
