-- ===== src/Proof/Accepted.antt =====
-- Whatever `manifest_load` of src/proof.c accepts is sound.
use deadflash.Base.{ℕ, ◌+◌, ◌<◌, ◌≡◌, sym, ap, ◌∙◌, List, [], length, get_or, arith}
use deadflash.Base.Texts.{codes}
use deadflash.Common.{Outcome, done, failed, failed≢done, done_inj, err_format, constant_time_equal}
use deadflash.Common.Monad.{M, through, through_guard, through_require, through_call, pure-done}
use deadflash.Device.Posix.{Os}
use deadflash.Device.Stdio.{Stdio}
use deadflash.Proof.{Summary, Manifest, merkle_root}
use deadflash.Proof.Load.{
  scan_keyed_digest, scan_literal, scan_header, chunk_length, scan_chunks, scan_footer, scanned,
  allocate_arrays, opened_text, load_text, manifest_load,
}
use deadflash.Proof.Binding.{root-IsDigest}
use deadflash.Proof.Merkle.{root, at, merkle_root-root}
use deadflash.Proof.Sound.{IsCut, IsDigest, IsSound}
use deadflash.Proof.Checked.{same_digest}
use deadflash.Proof.Scanned.{scan_header-IsCut, scan_chunks-done, scan_keyed_digest-IsDigest}

scanned-done :
    {W A : Type 0} (scanner : M (List ℕ) A) (text rest : List ℕ) (a : A) (w w' : W)
    → scanned scanner text w ≡ (done (a, rest), w')
    → scanner text ≡ (done a, rest)
scanned-done scanner text rest a w w' e = go (scanner text).0 (scanner text).1 (ap (λ r. r.0) e)
  where
    go :
        {A : Type 0} {a : A} {rest : List ℕ} (o : Outcome A) (t : List ℕ)
        → ◌≡◌ {A = Outcome (A × List ℕ)}
            (elim o [ done x ↦ done (x, t) | failed s ↦ failed s ])
            (done (a, rest))
        → ◌≡◌ {A = Outcome A × List ℕ} (o, t) (done a, rest)
    go (done x) t e = let p = done_inj e in λ i. (done (p i).0, (p i).1)
    go (failed s) t e = absurd (failed≢done e)

scan_footer-IsDigest :
    (text digest rest : List ℕ) → scan_footer text ≡ (done digest, rest) → IsDigest digest
unfolding scan_footer
scan_footer-IsDigest text digest rest e =
    through (scan_keyed_digest (codes "merkle_root")) _ e (λ root t1 e1 h1.
      through (scan_literal (codes "END")) _ h1
        (λ u t2 e2 h2. rw (pure-done h2).0 at (scan_keyed_digest-IsDigest _ text root t1 e1)))

manifest-IsSound :
    (s : Summary) (hashes : List (List ℕ)) (lengths : List ℕ) (footer : List ℕ)
    → IsCut s
    → IsDigest s.source_sha256
    → length hashes ≡ s.chunk_count
    → length lengths ≡ s.chunk_count
    → ((j : ℕ) → j < s.chunk_count → IsDigest (get_or hashes j []))
    → ((j : ℕ) → j < s.chunk_count → get_or lengths j 0 ≡ chunk_length s (0 + j))
    → footer ≡ root s.chunk_count (at hashes)
    → IsSound (record {
      summary = record s { merkle_root = footer };
      chunk_hashes = hashes;
      chunk_lengths = lengths;
    })
unfolding chunk_length
manifest-IsSound s hashes lengths footer cut whole count count' shapes lens rooted = record {
  cut = record {
    some_chunk = cut.some_chunk;
    few_chunks = cut.few_chunks;
    some_size = cut.some_size;
    size_bound = cut.size_bound;
    before_last = cut.before_last;
    to_last = cut.to_last;
  };
  all_hashes = count;
  all_lengths = count';
  lengths = λ i lt. lens i lt ∙ ap (chunk_length s) (omega arith);
  hashes = shapes;
  source_digest = whole;
  root_digest = rooted;
}

module _ (os : Os) (stdio : Stdio os) where
  load_text-IsSound :
      (text : List ℕ) (m : Manifest) (w w' : os.World)
      → load_text os stdio text w ≡ (done m, w')
      → IsSound m
  unfolding load_text
  load_text-IsSound text m w w' e = through (scanned scan_header text) _ e (λ header w1 e1 h1.
      let s = header.0 in
      let (cut, whole) =
        scan_header-IsCut text s header.1 (scanned-done scan_header text header.1 s w w1 e1) in
      let (fits, h2) = through_guard _ _ _ h1 in
      through (allocate_arrays os stdio s.chunk_count) _ h2 (λ u w2 e2 h3.
        through (scanned (scan_chunks s s.chunk_count 0) header.1) _ h3 (λ chunks w3 e3 h4.
          through (scanned scan_footer chunks.1) _ h4 (λ footer w4 e4 h5.
            through (merkle_root os stdio chunks.0.0 s.chunk_count) _ h5 (λ computed w5 e5 h6.
              let (equal, h7) =
                through_require (constant_time_equal computed footer.0) err_format _ h6 in
              let same = (pure-done h7).0 in
              let (count, count', shapes, lens) =
                scan_chunks-done s s.chunk_count 0 header.1 chunks.0 chunks.1 (
                  scanned-done (scan_chunks s s.chunk_count 0) header.1 chunks.1 chunks.0 w2 w3
                    e3) in
              let (rooted, positive, one, more) =
                merkle_root-root os stdio chunks.0.0 s.chunk_count computed w4 w5 (omega arith)
                  e5 in
              let digests : IsDigest footer.0 =
                scan_footer-IsDigest chunks.1 footer.0 footer.1
                  (scanned-done scan_footer chunks.1 footer.1 footer.0 w3 w4 e4) in
              let computed_shape : IsDigest computed =
                rw rooted (root-IsDigest s.chunk_count (at chunks.0.0) positive shapes) in
              let root_is =
                sym (same_digest computed footer.0 computed_shape digests equal) ∙ rooted in
              rw same at (
                manifest-IsSound s chunks.0.0 chunks.0.1 footer.0 cut whole count count' shapes lens
                  root_is))))))

  -- A manifest that `manifest_load` accepts cuts the source into at least one chunk and at most as
  -- many as the limit, of one size within its limit, of which only the last may be shorter; it has a
  -- hash of 32 bytes for the source and for each chunk, the length of each chunk is that of the cut,
  -- and its root is the root of the tree over the hashes of the chunks.
  pub manifest_load-IsSound :
      (path : List ℕ) (m : Manifest) (w w' : os.World)
      → manifest_load os stdio path w ≡ (done m, w')
      → IsSound m
  unfolding manifest_load
  manifest_load-IsSound path m w w' e = through_call (stdio.read_text path) _ e (λ stream w1 e1 h1.
      through (opened_text os stdio stream) _ h1
        (λ text w2 e2 h2. load_text-IsSound text m w2 w' h2))
