-- ===== src/Proof/Roundtrip.antt =====
-- `manifest_load` of src/proof.c reads back what `df_proof_create` prints.
use deadflash.Base.{
  ℕ, zero, suc, ◌+◌, ◌-◌, ◌*◌, ◌/◌, ◌^◌, ◌≤◌, ◌≡◌, refl, sym, ap, ◌∙◌, true, false, ◌||◌, List, [],
  ◌∷◌, ltb, if◌then◌else◌, arith,
}
use deadflash.Common.{done, failed, err_too_large}
use deadflash.Common.Compare.{constant_time_equal_iff}
use deadflash.Common.Monad.{M, ◌>>=◌, pure, throw, then_done}
use deadflash.Device.Posix.{Os}
use deadflash.Device.Stdio.{Stdio}
use deadflash.Proof.{Summary, Manifest, max_chunks}
use deadflash.Proof.Binding.{root-IsDigest}
use deadflash.Proof.Load.{
  scanned, scan_header, chunk_length, scan_chunk, scan_chunks, scan_footer, allocate_arrays,
  load_text,
}
use deadflash.Proof.Merkle.{at, merkle_root_total}
use deadflash.Proof.Print.{header_text, chunks_text, footer_text}
use deadflash.Proof.Printed.{
  scan_header-header_text, scan_chunks-chunks_text, scan_footer-footer_text, require-true,
}
use deadflash.Proof.Sound.{IsDigest, IsSound, source_size_bound}

-- The text of a manifest.
abbrev pub manifest_text : Manifest → List ℕ
manifest_text m =
    header_text m.summary
      (chunks_text m.summary m.chunk_hashes m.summary.chunk_count 0 (footer_text m.summary []))

scanned-is :
    {W A : Type 0} (scanner : M (List ℕ) A) (text rest : List ℕ) (a : A) (w : W)
    → scanner text ≡ (done a, rest)
    → scanned scanner text w ≡ (done (a, rest), w)
scanned-is scanner text rest a w e =
    ap (λ r. (elim r.0 [ done b ↦ done (b, r.1) | failed x ↦ failed x ], w)) e

few_fit : (n : ℕ) → n ≤ max_chunks → (ltb ((2 ^ 64 - 1) / 32) n || ltb ((2 ^ 64 - 1) / 8) n) ≡ false
few_fit n h = grind arith

-- The root does not matter for the records.
scan_chunks-cleared :
    (s : Summary) (rounds i : ℕ)
    → scan_chunks (record s { merkle_root = [] }) rounds i ≡ scan_chunks s rounds i
unfolding scan_chunks scan_chunk chunk_length
scan_chunks-cleared s zero i = refl
scan_chunks-cleared s (suc rounds) i = λ j. scan_chunk s i >>= λ chunk.
    scan_chunks-cleared s rounds (i + 1) j >>= λ chunks.
    pure (chunk.0 ∷ chunks.0, chunk.1 ∷ chunks.1)

module _ (os : Os) (stdio : Stdio os)
    (memory : (n : ℕ) (v : os.World) → (stdio.malloc n v).0 ≡ true) where
  allocate_arrays-done :
      (n : ℕ) (w : os.World) → (w' : os.World) × (allocate_arrays os stdio n w ≡ (done tt, w'))
  unfolding allocate_arrays ◌>>=◌
  allocate_arrays-done n w =
      let v = (stdio.malloc (n * 32) w).1 in
      ((stdio.malloc (n * 8) v).1, rw (memory (n * 32) w, memory (n * 8) v) refl)

  -- The text of a sound manifest with chunks of at least 4096 bytes, the least that the format allows, is
  -- loaded as that manifest, where every allocation succeeds.
  pub load_text-manifest_text :
      (m : Manifest) (w : os.World)
      → IsSound m
      → 4096 ≤ m.summary.chunk_size
      → (w' : os.World) × (load_text os stdio (manifest_text m) w ≡ (done m, w'))
  unfolding load_text
  load_text-manifest_text m w sound allowed =
      let s = m.summary in
      let cleared : Summary = record s { merkle_root = [] } in
      let cut = sound.cut in
      let (w1, allocated) = allocate_arrays-done s.chunk_count w in
      let (w2, computed) =
        merkle_root_total os stdio m.chunk_hashes s.chunk_count w1 memory cut.some_chunk
          cut.few_chunks (omega (arith, sound.all_hashes)) in
      let end = footer_text s [] in
      let lines = chunks_text s m.chunk_hashes s.chunk_count 0 end in
      let fits : (ltb ((2 ^ 64 - 1) / 32) s.chunk_count || ltb ((2 ^ 64 - 1) / 8) s.chunk_count)
          ≡ false =
        few_fit s.chunk_count cut.few_chunks in
      let rooted = sym sound.root_digest in
      let shape : IsDigest s.merkle_root =
        rw (← rooted)
          (root-IsDigest s.chunk_count (at m.chunk_hashes) cut.some_chunk sound.hashes) in
      (
        w2,
        then_done _ _
            (scanned-is scan_header (manifest_text m) (b'\n' ∷ lines) cleared w (
              scan_header-header_text s cut lines (omega (arith, source_size_bound s cut))
                sound.source_digest))
            (then_done _ _ (ap (λ c. (if c then throw err_too_large else pure tt) w) fits) (
              then_done _ _ allocated (
                then_done _ _
                  (scanned-is (scan_chunks cleared s.chunk_count 0) (b'\n' ∷ lines) (b'\n' ∷ end)
                    (m.chunk_hashes, m.chunk_lengths) w1
                    (ap (λ f. f (b'\n' ∷ lines)) (scan_chunks-cleared s s.chunk_count 0)
                      ∙ scan_chunks-chunks_text s cut m.chunk_hashes m.chunk_lengths s.chunk_count 0
                          end (omega arith) sound.all_hashes sound.all_lengths sound.hashes
                          sound.lengths))
                  (then_done _ _
                    (scanned-is scan_footer (b'\n' ∷ end) (b'\n' ∷ []) s.merkle_root w1
                      (scan_footer-footer_text s cut [] shape))
                    (then_done _ _ computed (
                      then_done _ _
                        (require-true _ w2 (
                          rw rooted (
                            (constant_time_equal_iff s.merkle_root s.merkle_root shape.1 shape.1
                                refl).1
                              refl)))
                        refl)))))),
      )
