-- ===== src/Attest/Authorized.antt =====
-- What a successful `df_write_image_attested` of src/attest.c was held to.
use deadflash.Base.{
  ℕ, ◌≤◌, ◌≡◌, refl, sym, ap, ◌∙◌, All, IsByte, true, some, List, length, take, ltb, ◌==◌,
  Bool-cases, Option-cases, inl, inr,
}
use deadflash.Attest.{
  Attestation, canonical_plan, hash_source_path, check_device, attest_plan, held_to_plan, continued,
  sealed_write, attested_start, write_image_attested,
}
use deadflash.Common.{Outcome, done, failed, failed≢done, constant_time_equal}
use deadflash.Common.Hex.{hex_decode_32, hex_decode_32_shape}
use deadflash.Common.Monad.{through, through_guard, through_require, pure-done}
use deadflash.Device.{File, WriteOptions}
use deadflash.Device.Posix.{Os, Laws}
use deadflash.Device.Files.{open_source, inspect_target}
use deadflash.Device.Sources.{open_source-done}
use deadflash.Pipeline.{Run, hash_source, through_io}
use deadflash.Pipeline.Checked.{sha256_buffer-IsDigest}
use deadflash.Pipeline.Hash.{hash_file_region_progress}
use deadflash.Pipeline.Readback.{hash_file_region_progress-done}
use deadflash.Pipeline.Whole.{IsWritten, write_image-done}
use deadflash.Pipeline.Write.{effective_options, write_image}
use deadflash.Proof.Checked.{same_digest}
use deadflash.Sha256.{sha256_buffer}

module _ (os : Os) (laws : Laws os) where
  open laws use {content}

  -- A write that succeeded was the one of `write_image`, whose source has the attested hash.
  held_to_plan-done :
      (a : Attestation) (r : Outcome (Unit {0})) (run run' : Run os.World)
      → held_to_plan os a (r, run) ≡ (done tt, run')
      → (r ≡ done tt)
        × (run ≡ run')
        × (constant_time_equal run.result.source_sha256 a.source_sha256 ≡ true)
  held_to_plan-done a (failed x) run run' e = absurd (failed≢done (ap (λ p. p.0) e))
  held_to_plan-done a (done u) run run' e =
      elim (Bool-cases (constant_time_equal run.result.source_sha256 a.source_sha256)) [
        | inl p ↦ (refl, ap (λ p. p.1) (rw p at e), p)
        | inr p ↦ absurd (failed≢done (ap (λ p. p.0) (rw p at e)))
      ]

  -- What was attested: the source as it was opened and hashed, the target as it was inspected right
  -- after that, and the plan of both.
  abbrev pub IsAttested : List ℕ → List ℕ → WriteOptions → Run os.World → Attestation → Type 0
  IsAttested source_path target_path options run a =
      (source : File) × (fs : ℕ) × (w1 : os.World) × (hashed : Run os.World) × (w3 : os.World)
      × (open_source os source_path run.world ≡ (done source, w1))
      × (hash_source_path os source_path (effective_options (some options)).buffer_size run
          ≡ (done (a.source_size, a.source_sha256), hashed))
      × (inspect_target os target_path hashed.world ≡ (done a.target, w3))
      × (source.handle ≡ some fs)
      × (a.source_size ≡ source.size_bytes)
      × (a.source_size ≤ length (content fs w1))
      × (a.source_sha256 ≡ sha256_buffer (take a.source_size (content fs w1)))
      × (a.plan_sha256
          ≡ sha256_buffer (
              canonical_plan a.source_size a.source_sha256 a.target
                (effective_options (some options))))

  hash_source_path-done :
      (path : List ℕ) (buffer_size : ℕ) (found : ℕ × List ℕ) (run run' : Run os.World)
      → hash_source_path os path buffer_size run ≡ (done found, run')
      → (source : File) × (fs : ℕ) × (w1 : os.World) × (open_source os path run.world
          ≡ (done source, w1))
        × (source.handle ≡ some fs)
        × (found.0 ≡ source.size_bytes)
        × (source.size_bytes ≤ length (content fs w1))
        × (found.1 ≡ sha256_buffer (take source.size_bytes (content fs w1)))
  unfolding hash_source_path
  hash_source_path-done path buffer_size found run run' e =
      through_io (open_source os path) _ e (λ source w1 e1 h1.
        let (fs, open_s, small) = open_source-done os laws path source run.world w1 e1 in
        through _ _ h1 (λ digest run2 e2 h2.
          let same = (pure-done h2).0 in
          let hashing =
            hash_file_region_progress os source source.size_bytes _ hash_source
              (record run { world = w1 }) in
          let (hashed, long, kept) =
            hash_file_region_progress-done os laws source fs open_s source.size_bytes _ hash_source
              digest (record run { world = w1 }) hashing.1 small (λ i. ((e2 i).0, hashing.1)) in
          (
            source,
            fs,
            w1,
            e1,
            open_s,
            sym (ap (λ x. x.0) same),
            long,
            sym (ap (λ x. x.1) same) ∙ hashed,
          )))

  attest_plan-done :
      (source_path target_path : List ℕ) (options : WriteOptions) (a : Attestation)
      (run run' : Run os.World)
      → attest_plan os source_path target_path (some options) run ≡ (done a, run')
      → IsAttested source_path target_path options run a
  unfolding attest_plan
  attest_plan-done source_path target_path options a run run' e =
      through (hash_source_path os source_path (effective_options (some options)).buffer_size) _ e
        (λ found run1 e1 h1.
          let (source, fs, w1, opens, open_s, size, long, hash) =
            hash_source_path-done source_path (effective_options (some options)).buffer_size found
              run run1 e1 in
          let (some_bytes, h2) = through_guard (found.0 == 0) _ _ h1 in
          through_io (inspect_target os target_path) _ h2 (λ target w2 e2 h3.
            through (check_device os (effective_options (some options)) target) _ h3
              (λ u run3 e3 h4.
                let plan =
                  canonical_plan found.0 found.1 target (effective_options (some options)) in
                let (short, h5) = through_require (ltb (length plan) 1024) _ _ h4 in
                let same = (pure-done h5).0 in
                let size' = sym (ap (λ x. x.source_size) same) ∙ size in
                (
                  source,
                  fs,
                  w1,
                  run1,
                  w2,
                  opens,
                  e1 ∙ ap (λ x. (done (x.source_size, x.source_sha256), run1)) same,
                  e2 ∙ ap (λ x. (done x.target, w2)) same,
                  open_s,
                  size',
                  rw size' long,
                  sym (ap (λ x. x.source_sha256) same)
                      ∙ hash
                      ∙ ap (λ n. sha256_buffer (take n (content fs w1))) (sym size'),
                  sym (ap (λ x. x.plan_sha256) same)
                      ∙ ap
                          (λ x. sha256_buffer (
                            canonical_plan x.source_size x.source_sha256 x.target
                              (effective_options (some options))))
                          same,
                ))))

  sealed_write-done :
      (source_path target_path : List ℕ) (options : WriteOptions) (expected : List ℕ)
      (a : Attestation) (run run' : Run os.World)
      → sealed_write os source_path target_path options expected a run ≡ (done tt, run')
      → (constant_time_equal expected a.plan_sha256 ≡ true)
        × (constant_time_equal run'.result.source_sha256 a.source_sha256 ≡ true)
        × IsWritten os laws source_path target_path
            (effective_options (some options))
            run.world
            run'.result
  sealed_write-done source_path target_path options expected a run run' e =
      elim (Bool-cases (constant_time_equal expected a.plan_sha256)) [
        | inr p ↦ absurd (failed≢done (ap (λ r. r.0) (rw p at e)))
        | inl p ↦
            let write = write_image os source_path target_path (some options) run.world in
            let (wrote, end, held) =
              held_to_plan-done a write.0 (continued os run a write.1) run' (rw p at e) in
            let found =
              write_image-done os laws source_path target_path (some options) run.world write.1
                (λ i. (wrote i, write.1)) in
            (p, rw (ap (λ r. r.result) end) at held, rw (ap (λ r. r.result) end) at found)
      ]

  -- When `df_write_image_attested` succeeds, the seal decodes to the hash of the canonical text of a plan
  -- for the source, the target and the options, in which the source has the size and the hash that it had
  -- when it was opened right then, and the target is what `df_inspect_target` of its path found right after
  -- that; the write that followed has done all that `df_write_image` promises, and
  -- `df_constant_time_equal` found the hash of the source that it wrote equal to the one in the plan.
  -- This is for a system that keeps the laws.
  pub write_image_attested-done :
      (source_path target_path : List ℕ) (options : WriteOptions) (seal : List ℕ) (w : os.World)
      (run : Run os.World)
      → write_image_attested os source_path target_path options seal w ≡ (done tt, run)
      → (a : Attestation) × (run1 : Run os.World) × (attest_plan os source_path target_path
            (some options)
            (attested_start os w)
          ≡ (done a, run1))
        × (hex_decode_32 seal ≡ some a.plan_sha256)
        × IsAttested source_path target_path options (attested_start os w) a
        × (constant_time_equal run.result.source_sha256 a.source_sha256 ≡ true)
        × IsWritten os laws source_path target_path
            (effective_options (some options))
            run1.world
            run.result
  unfolding write_image_attested
  write_image_attested-done source_path target_path options seal w run e =
      elim (Bool-cases (ltb (length target_path) 4096)) [
        | inr p ↦ absurd (failed≢done (ap (λ r. r.0) (rw (p, write_image_attested) at e)))
        | inl p ↦ elim (Option-cases (hex_decode_32 seal)) [
          | inl q ↦ absurd (failed≢done (ap (λ r. r.0) (rw (p, q, write_image_attested) at e)))
          | inr (expected, q) ↦
              through (attest_plan os source_path target_path (some options)) _
                (rw (p, q, write_image_attested) at e)
                (λ a run1 e1 h1.
                  let (agreed, held, written) =
                    sealed_write-done source_path target_path options expected a run1 run h1 in
                  let attested =
                    attest_plan-done source_path target_path options a (attested_start os w) run1
                      e1 in
                  let (
                    source, fs, w1, hashed, w3, opens, hashes, found, open_s, size, long, hash,
                    plan,
                  ) =
                    attested in
                  let (chars, size_is, bytes_are) = hex_decode_32_shape seal expected q in
                  let shape : (length a.plan_sha256 ≡ 32) × All IsByte a.plan_sha256 =
                    rw plan (sha256_buffer-IsDigest _) in
                  (
                    a,
                    run1,
                    e1,
                    q
                        ∙ ap some
                            (same_digest expected a.plan_sha256 (size_is, bytes_are) shape agreed),
                    attested,
                    held,
                    written,
                  ))
        ]
      ]
