-- ===== src/Pipeline/Equal.antt =====
-- `df_verify_image` accepts equal files, on a system whose calls succeed (src/pipeline.c).
use deadflash.Base.{
  ℕ, ◌^◌, ◌≤◌, ◌<◌, ◌==◌, ◌≡◌, refl, sym, ap, ◌∙◌, true, false, not, ◌&&◌, none, some, List, [],
  length, take, arith, if◌then◌else◌, ltb,
}
use deadflash.Common.{done, constant_time_equal, verify_full, err_too_small}
use deadflash.Common.Compare.{constant_time_equal_iff}
use deadflash.Common.Monad.{then_done, pass_guard}
use deadflash.Device.{File}
use deadflash.Device.Posix.{Os, Laws}
use deadflash.Device.Files.{open_source}
use deadflash.Device.Reliable.{Reliable, IsPlain, open_source-IsPlain}
use deadflash.Device.Sources.{open_source-done}
use deadflash.Pipeline.{
  Run, run_reset, default_buffer_size, hash_source, verify_phase, success_verified,
}
use deadflash.Pipeline.Checked.{sha256_buffer-IsDigest}
use deadflash.Pipeline.Live.{Succeeds, hash_file_region_progress-Succeeds}
use deadflash.Pipeline.Readback.{hash_file_region_progress-done}
use deadflash.Pipeline.Verify.{
  verify_full_hash, by_mode, verify_body, verify_image_internal, verify_image,
}
use deadflash.Sha256

module _ (os : Os) (laws : Laws os) (reliable : Reliable os laws) where
  open laws use {content}

  verify_full_hash-Succeeds :
      (source target : File) (fd : ℕ) (source_hash : List ℕ) (buffer_size : ℕ) (run : Run os.World)
      → target.handle ≡ some fd
      → IsPlain target
      → source.size_bytes < 2 ^ 64
      → (0 < buffer_size) × (buffer_size < 2 ^ 63)
      → source.size_bytes ≤ length (content fd run.world)
      → source_hash ≡ Sha256.sha256_buffer (take source.size_bytes (content fd run.world))
      → Succeeds (verify_full_hash os source target source_hash buffer_size) run
  unfolding verify_full_hash
  verify_full_hash-Succeeds source target fd source_hash buffer_size run open_fd plain small
        (b0, b1) inside e =
      let (digest, run1, hash) =
        hash_file_region_progress-Succeeds os laws reliable target fd open_fd plain
          source.size_bytes buffer_size verify_phase run small b0 b1 inside in
      let (hashed, long, same) =
        hash_file_region_progress-done os laws target fd open_fd source.size_bytes buffer_size
          verify_phase digest run run1 small hash in
      let (m, c) = sha256_buffer-IsDigest (take source.size_bytes (content fd run.world)) in
      let equal : constant_time_equal source_hash digest ≡ true =
        rw (e, hashed) ((constant_time_equal_iff _ _ c c refl).1 refl) in
      (
        tt,
        record run1 {
          result = record (run1.result) {
            target_sha256 = digest;
            bytes_verified = source.size_bytes;
          };
        },
        then_done _ _ hash (then_done _ _ refl (rw equal refl)),
      )

  -- Two opened files that hold the same bytes, as many as the source has.
  abbrev pub AreEqual : List ℕ → List ℕ → os.World → Type 0
  AreEqual source_path target_path w =
      (source : File) × (target : File) × (fs : ℕ) × (ft : ℕ) × (w1 : os.World) × (w2 : os.World)
      × (open_source os source_path w ≡ (done source, w1))
      × (open_source os target_path w1 ≡ (done target, w2))
      × (source.handle ≡ some fs)
      × (target.handle ≡ some ft)
      × (source.size_bytes ≤ target.size_bytes)
      × (source.size_bytes ≤ length (content fs w2))
      × (source.size_bytes ≤ length (content ft w2))
      × (take source.size_bytes (content fs w2) ≡ take source.size_bytes (content ft w2))

  large_enough : (n m : ℕ) → n ≤ m → (not (m == 0) && ltb m n) ≡ false
  large_enough n m h = grind arith

  verify_body-Succeeds :
      (source_path target_path : List ℕ) (sample_count buffer_size : ℕ) (run : Run os.World)
      → (0 < buffer_size) × (buffer_size < 2 ^ 63)
      → AreEqual source_path target_path run.world
      → Succeeds
          (verify_body os source_path target_path verify_full sample_count buffer_size none)
          run
  unfolding verify_body by_mode
  verify_body-Succeeds source_path target_path sample_count buffer_size run b
        (source, target, fs, ft, w1, w2, e1, e2, open_s, open_t, le, in_s, in_t, same) =
      let small = (open_source-done os laws source_path source run.world w1 e1).2 in
      let start : Run os.World = record run {
        world = w2;
        source = source;
        target = target;
        result = record (run.result) { source_size = source.size_bytes };
      } in
      let (digest, run2, hash) =
        hash_file_region_progress-Succeeds os laws reliable source fs open_s
          (open_source-IsPlain os source_path source run.world w1 e1) source.size_bytes buffer_size
          hash_source start small b.0 b.1 in_s in
      let (hashed, long, kept) =
        hash_file_region_progress-done os laws source fs open_s source.size_bytes buffer_size
          hash_source digest start run2 small hash in
      let start2 : Run os.World = record run2 {
        result = record (run2.result) { source_sha256 = digest };
      } in
      let (u, run3, checked) =
        verify_full_hash-Succeeds source target ft digest buffer_size start2 open_t
          (open_source-IsPlain os target_path target w1 w2 e2) small b (rw (kept ft) in_t)
          (hashed ∙ ap Sha256.sha256_buffer (same ∙ ap (take source.size_bytes) (sym (kept ft)))) in
      (
        tt,
        record run3 { result = record (run3.result) { final_state = success_verified } },
        then_done _ _ (λ i. ((e1 i).0, record run { world = (e1 i).1 }))
            (then_done _ _ refl (
              then_done _ _ (λ i. ((e2 i).0, record run { world = (e2 i).1; source = source }))
                (then_done _ _ refl (
                  pass_guard _ err_too_small _ (large_enough _ _ le) (
                    then_done _ _ refl (
                      then_done _ _ hash (
                        then_done _ _ refl (
                          then_done _ _ (λ i. (done (checked i).0, (checked i).1))
                            (then_done _ _ refl refl))))))))),
      )

  -- `df_verify_image` in the full mode succeeds on two files that could be opened and of which the
  -- second, which is not the smaller one, begins with the bytes of the first, as many as that has by
  -- its size. This is for a system that keeps the laws, where reads inside a file and allocations
  -- succeed, and for a buffer size below 2 ^ 63.
  pub verify_image_accepts :
      (source_path target_path : List ℕ) (sample_count buffer_size : ℕ) (w : os.World)
      → buffer_size < 2 ^ 63
      → AreEqual source_path target_path w
      → (verify_image os source_path target_path verify_full sample_count buffer_size w).0 ≡ done tt
  unfolding verify_image verify_image_internal
  verify_image_accepts source_path target_path sample_count buffer_size w small equal =
      let (u, run, e) =
        verify_body-Succeeds source_path target_path sample_count
          (if buffer_size == 0 then default_buffer_size else buffer_size) (run_reset w [])
          (sized buffer_size small) equal in
      ap (λ r. r.0) e
    where
      sized :
          (n : ℕ)
          → n < 2 ^ 63
          → (0 < (if n == 0 then default_buffer_size else n))
            × ((if n == 0 then default_buffer_size else n) < 2 ^ 63)
      sized n h = ground arith
