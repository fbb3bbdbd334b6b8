-- ===== src/Proof/Proven.antt =====
-- What `df_proof_verify` of src/proof.c has proved when it succeeds.
use deadflash.Base.{
  ℕ, zero, suc, ◌+◌, ◌≤◌, ◌<◌, ◌≡◌, ◌⊎◌, inl, inr, refl, sym, ap, ap₂, ◌∙◌, true, some, List, ◌++◌,
  length, take, ◌==◌, ==_iff, arith, take-add,
}
use deadflash.Common.{done, constant_time_equal}
use deadflash.Common.Monad.{
  through, after, through_call, through_guard, through_require, through_last, through_recorded,
}
use deadflash.Device.{File}
use deadflash.Device.Posix.{Os, Laws}
use deadflash.Device.Files.{open_source, file_reset}
use deadflash.Device.Sources.{open_source-done}
use deadflash.Device.Stdio.{Stdio, StdioLaws}
use deadflash.Pipeline.Checked.{sha256_buffer-IsDigest}
use deadflash.Proof.{Summary, Manifest}
use deadflash.Proof.Load.{chunk_length, manifest_load}
use deadflash.Proof.Sound.{IsCut, IsSound, start, start-suc, start_first, start_last}
use deadflash.Proof.Checked.{chunk_of, same_digest, check_chunks-done}
use deadflash.Proof.Accepted.{manifest_load-IsSound}
use deadflash.Proof.Verify.{
  ProofResult, success_proven, Check, through_io, check_chunks, check_digest, verify_buffers,
  verify_loaded, proof_body, result_start, proof_verify,
}
use deadflash.Sha256
use deadflash.Sha256.{sha256_buffer}
use deadflash.Pipeline.Readback.{whole_message}
use deadflash.Sha256.Stream.{update-nil}
use deadflash.Sha256.Collision.{IsCollision, equal_or_IsCollision}

-- Two chunks at one place that differ and have one hash.
abbrev pub CollidesAt : Summary → List ℕ → List ℕ → Type 0
CollidesAt s a b = (k : ℕ) × (k < s.chunk_count) × IsCollision (chunk_of s k a) (chunk_of s k b)

-- Two contents with the same hash of every chunk start with the same bytes, or two of their chunks
-- collide.
same_prefix :
    (s : Summary) (cut : IsCut s) (a b : List ℕ) (i : ℕ)
    → i ≤ s.chunk_count
    → ((k : ℕ)
        → k < s.chunk_count
        → sha256_buffer (chunk_of s k a) ≡ sha256_buffer (chunk_of s k b))
    → (take (start s i) a ≡ take (start s i) b) ⊎ CollidesAt s a b
same_prefix s cut a b zero le same = inl (rw (start_first s cut) refl)
same_prefix s cut a b (suc i) le same =
    joined (same_prefix s cut a b i (omega arith) same)
      (equal_or_IsCollision _ _ (same i (omega arith)))
  where
    grown : (c : List ℕ) → take (start s (suc i)) c ≡ take (start s i) c ++ chunk_of s i c
    grown c =
        let next : suc i ≡ i + 1 = omega arith in
        let place : start s (suc i) ≡ start s i + chunk_length s i =
          ap (start s) next ∙ start-suc s cut i (omega arith) in
        ap (λ n. take n c) place ∙ take-add (start s i) (chunk_length s i) c

    joined :
        (take (start s i) a ≡ take (start s i) b) ⊎ CollidesAt s a b
        → (chunk_of s i a ≡ chunk_of s i b) ⊎ IsCollision (chunk_of s i a) (chunk_of s i b)
        → (take (start s (suc i)) a ≡ take (start s (suc i)) b) ⊎ CollidesAt s a b
    joined (inl p) (inl q) = inl (grown a ∙ ap₂ (λ x y. x ++ y) p q ∙ sym (grown b))
    joined (inl p) (inr c) = inr (i, omega arith, c)
    joined (inr c) q = inr c

module _ (os : Os) (laws : Laws os) (stdio : Stdio os) (stdio_laws : StdioLaws os laws stdio) where
  open laws use {content}

  verify_buffers-done :
      (n : ℕ) (w w' : os.World)
      → verify_buffers os stdio n w ≡ (done tt, w')
      → (g : ℕ) → content g w' ≡ content g w
  unfolding verify_buffers
  verify_buffers-done n w w' e g = through_call (stdio.malloc n) _ e (λ a w1 e1 h1.
      through_call (stdio.malloc n) _ h1 (λ b w2 e2 h2.
        let (good, end) = through_last _ _ h2 in
        ap (content g) (sym end)
        ∙ ap (content g) (sym (ap (λ r. r.1) e2))
        ∙ stdio_laws.malloc_content g n w1
        ∙ ap (content g) (sym (ap (λ r. r.1) e1))
        ∙ stdio_laws.malloc_content g n w))

  module _ (m : Manifest) (sound : IsSound m) (source target : File) (fs ft : ℕ)
      (open_s : source.handle ≡ some fs) (open_t : target.handle ≡ some ft) where
    -- What both files hold once all chunks and the hash of the source are checked.
    checked_all :
        (ctx : Sha256.Ctx) (c c' : Check os.World)
        → c.result ≡ result_start
        → check_chunks os source target m m.summary.chunk_count 0 Sha256.init c ≡ (done ctx, c')
        → constant_time_equal (Sha256.final ctx) m.summary.source_sha256 ≡ true
        → (m.summary.source_size ≤ length (content fs c.world))
          × (m.summary.source_size ≤ length (content ft c.world))
          × (sha256_buffer (take m.summary.source_size (content fs c.world))
              ≡ m.summary.source_sha256)
          × ((take m.summary.source_size (content fs c.world)
                ≡ take m.summary.source_size (content ft c.world))
              ⊎ CollidesAt m.summary (content fs c.world) (content ft c.world))
          × (c'.result.bytes_verified ≡ m.summary.source_size)
          × (c'.result.chunks_verified ≡ m.summary.chunk_count)
    checked_all ctx c c' fresh e whole =
        let cut = sound.cut in
        let s = m.summary in
        let first = start_first s cut in
        let nothing =
          ap (λ n. Sha256.update Sha256.init (take n (content fs c.world))) first ∙ update-nil in
        let (chunks, final, ctx_is, kept) =
          check_chunks-done os laws m sound source target fs ft open_s open_t s.chunk_count 0 ctx c
            c' (omega arith)
            (
              rw first (omega arith),
              rw first (omega arith),
              ap (λ r. r.bytes_verified) fresh ∙ sym first,
              ap (λ r. r.chunks_verified) fresh,
            )
            (ap (λ x. check_chunks os source target m s.chunk_count 0 x c) nothing ∙ e) in
        let (inside, inside', bytes, count) = final in
        let end = start_last s cut in
        let digest = ap Sha256.final ctx_is ∙ whole_message _ in
        let same : (k : ℕ)
            → k < s.chunk_count
            → sha256_buffer (chunk_of s k (content fs c.world))
              ≡ sha256_buffer (chunk_of s k (content ft c.world)) =
          λ k lt. let (a, b, x, y) = chunks k (omega arith) lt in a ∙ sym b in
        let equal =
          same_digest (sha256_buffer _) s.source_sha256 (sha256_buffer-IsDigest _)
            sound.source_digest (rw digest at whole) in
        (
          rw (kept fs, end) at inside,
          rw (kept ft, end) at inside',
          rw (kept fs) at equal,
          rw end at (
              same_prefix s cut (content fs c.world) (content ft c.world) s.chunk_count
                (omega arith) same),
          bytes ∙ end,
          count,
        )

  -- The two files as they stood, and the result.
  abbrev pub IsProven : Manifest → File → File → os.World → ProofResult → Type 0
  IsProven m source target w result =
      (fs : ℕ) × (ft : ℕ) × (source.handle ≡ some fs)
      × (target.handle ≡ some ft)
      × (source.size_bytes ≡ m.summary.source_size)
      × (m.summary.source_size ≤ length (content fs w))
      × (m.summary.source_size ≤ length (content ft w))
      × (sha256_buffer (take m.summary.source_size (content fs w)) ≡ m.summary.source_sha256)
      × ((take m.summary.source_size (content fs w) ≡ take m.summary.source_size (content ft w))
          ⊎ CollidesAt m.summary (content fs w) (content ft w))
      × (result.bytes_verified ≡ m.summary.source_size)
      × (result.chunks_verified ≡ m.summary.chunk_count)
      × (result.final_state ≡ success_proven)

  verify_loaded-done :
      (source_path target_path : List ℕ) (m : Manifest) (c c' : Check os.World)
      → IsSound m
      → c.result ≡ result_start
      → verify_loaded os stdio source_path target_path m c ≡ (done tt, c')
      → (source : File) × (target : File) × (w1 : os.World) × (w2 : os.World) × (open_source os
            source_path c.world
          ≡ (done source, w1))
        × (open_source os target_path w1 ≡ (done target, w2))
        × IsProven m source target w2 c'.result
  unfolding verify_loaded check_digest
  verify_loaded-done source_path target_path m c c' sound fresh e =
      through_io (open_source os source_path) _ e (λ source w1 e1 h1.
        through_io (open_source os target_path) _ (after _ _ refl h1) (λ target w2 e2 h2.
          let (fs, open_s, small) = open_source-done os laws source_path source c.world w1 e1 in
          let (ft, open_t, small_t) = open_source-done os laws target_path target w1 w2 e2 in
          let (sized, h3) =
            through_require (source.size_bytes == m.summary.source_size) _ _ (after _ _ refl h2) in
          let (fits, h4) = through_guard _ _ _ h3 in
          let (bounded, h5) = through_guard _ _ _ h4 in
          through_io (verify_buffers os stdio m.summary.chunk_size) _ h5 (λ u w3 e3 h6.
            through (check_chunks os source target m m.summary.chunk_count 0 Sha256.init) _ h6
              (λ ctx c4 e4 h7.
                let (whole, h8) =
                  through_recorded (constant_time_equal (Sha256.final ctx) m.summary.source_sha256)
                    _ _ _ h7 in
                let start3 : Check os.World = record {
                  world = w3;
                  source = source;
                  target = target;
                  result = c.result;
                } in
                let (long, long', hash, equal, bytes, chunks) =
                  checked_all m sound source target fs ft open_s open_t ctx start3 c4 fresh e4
                    whole in
                let same = verify_buffers-done m.summary.chunk_size w2 w3 e3 in
                let end = ap (λ r. r.1.result) h8 in
                (
                  source,
                  target,
                  w1,
                  w2,
                  e1,
                  e2,
                  (
                    fs,
                    ft,
                    open_s,
                    open_t,
                    (==_iff _ _).0 sized,
                    rw (same fs) at long,
                    rw (same ft) at long',
                    rw (same fs) at hash,
                    rw (same fs, same ft) at equal,
                    ap (λ r. r.bytes_verified) (sym end) ∙ bytes,
                    ap (λ r. r.chunks_verified) (sym end) ∙ chunks,
                    ap (λ r. r.final_state) (sym end),
                  ),
                )))))

  -- When `df_proof_verify` succeeds, the manifest could be loaded and is sound, both files could be
  -- opened, the size of the source is the one in the manifest, and as the files stood then both hold
  -- at least as many bytes; the hash of those bytes of the source is the one in the manifest, and the
  -- target starts with the same bytes, or two chunks at one place of the two files differ and have one
  -- SHA-256. The result counts all bytes and all chunks as verified and ends in `success_proven`. This is for a system and a C
  -- library that keep the laws.
  pub proof_verify-done :
      (manifest_path source_path target_path : List ℕ) (w : os.World) (c : Check os.World)
      → proof_verify os stdio manifest_path source_path target_path w ≡ (done tt, c)
      → (m : Manifest) × (source : File) × (target : File) × (w0 : os.World) × (w1 : os.World)
        × (w2 : os.World) × (manifest_load os stdio manifest_path w ≡ (done m, w0))
        × IsSound m
        × (open_source os source_path w0 ≡ (done source, w1))
        × (open_source os target_path w1 ≡ (done target, w2))
        × IsProven m source target w2 c.result
  unfolding proof_verify
  proof_verify-done manifest_path source_path target_path w c e =
      let first : Check os.World = record {
        world = w;
        source = file_reset;
        target = file_reset;
        result = result_start;
      } in
      let body = proof_body os stdio manifest_path source_path target_path first in
      through_io (manifest_load os stdio manifest_path)
        (verify_loaded os stdio source_path target_path) {c = first} {c' = body.1}
        (λ i. ((e i).0, body.1))
        (λ m w0 e0 h0.
          let sound = manifest_load-IsSound os stdio manifest_path m w w0 e0 in
          let (source, target, w1, w2, e1, e2, proven) =
            verify_loaded-done source_path target_path m _ body.1 sound refl h0 in
          (m, source, target, w0, w1, w2, e0, sound, e1, e2, rw (ap (λ r. r.1.result) e) at proven))
