-- ===== src/Proof/Stored.antt =====
-- The manifest file that `df_proof_create` of src/proof.c leaves when it succeeds.
use deadflash.Base.{
  ℕ, zero, suc, ◌+◌, ◌≤◌, ◌≡◌, refl, sym, ap, ◌∙◌, true, false, ◌||◌, some, List, [], ◌++◌, get_or,
  ltb, ◌==◌, if◌then◌else◌, Bool-cases, Option-cases, inl, inr, arith, append_assoc,
}
use deadflash.Common.{Outcome, done, failed, failed≢done, err_open}
use deadflash.Common.Monad.{
  call, then_done, through, through_call, through_require, through_last, pure-done,
}
use deadflash.Device.{File}
use deadflash.Device.Posix.{Os, Laws}
use deadflash.Device.Files.{open_source, close_file}
use deadflash.Device.Sources.{open_source-done}
use deadflash.Device.Stdio.{Stdio, StdioLaws, TextLaws}
use deadflash.Proof.{Summary, Manifest, max_chunk_size, default_chunk_size}
use deadflash.Proof.Created.{IsSummary, manifest_of, manifest_of-IsSound, summarise-done}
use deadflash.Proof.Create.{
  summarise, print_text, print_chunks, print_manifest, close_stream, write_manifest, clean_up,
  created_proof, proof_create,
}
use deadflash.Proof.Load.{opened_text, load_text, manifest_load}
use deadflash.Proof.Print.{keyed, header_text, chunk_text, chunks_text, footer_text}
use deadflash.Proof.Roundtrip.{manifest_text, load_text-manifest_text}
use deadflash.Proof.Sound.{IsSound}

chunk_text-append :
    (s : Summary) (i : ℕ) (hash more : List ℕ)
    → chunk_text s i hash [] ++ more ≡ chunk_text s i hash more
unfolding chunk_text
chunk_text-append s i hash more = simp append_assoc refl

header_text-append : (s : Summary) (more : List ℕ) → header_text s [] ++ more ≡ header_text s more
unfolding header_text keyed
header_text-append s more = simp append_assoc refl

module _ (os : Os) (stdio : Stdio os) (texts : TextLaws os stdio) (path : List ℕ) where
  open texts use {text, file}

  print_text-done :
      (written : List ℕ) (w w' : os.World)
      → print_text os stdio path written w ≡ (done tt, w')
      → text path w' ≡ text path w ++ written
  print_text-done written w w' e = through_call (stdio.print path written) _ e (λ printed w1 e1 h1.
      let (good, end) = through_last printed _ h1 in
      ap (text path) (sym end) ∙ texts.text_print path written w w1 (rw good at e1))

  print_chunks-done :
      (s : Summary) (hashes : List (List ℕ)) (rounds i : ℕ) (rest : List ℕ) (w w' : os.World)
      → print_chunks os stdio path s hashes rounds i w ≡ (done tt, w')
      → text path w' ++ rest ≡ text path w ++ chunks_text s hashes rounds i rest
  unfolding print_chunks chunks_text
  print_chunks-done s hashes zero i rest w w' e =
      ap (λ v. text path v ++ rest) (sym (pure-done e).1)
  print_chunks-done s hashes (suc rounds) i rest w w' e =
      through (print_text os stdio path (chunk_text s i (get_or hashes i []) [])) _ e (λ u w1 e1 h1.
        print_chunks-done s hashes rounds (i + 1) rest w1 w' h1
        ∙ ap (λ t. t ++ chunks_text s hashes rounds (i + 1) rest) (print_text-done _ w w1 e1)
        ∙ append_assoc (text path w) _ _
        ∙ ap (λ t. text path w ++ t)
            (chunk_text-append s i (get_or hashes i []) (chunks_text s hashes rounds (i + 1) rest)))

  print_manifest-done :
      (s : Summary) (hashes : List (List ℕ)) (w w' : os.World)
      → text path w ≡ []
      → print_manifest os stdio path s hashes w ≡ (done tt, w')
      → text path w' ≡ header_text s (chunks_text s hashes s.chunk_count 0 (footer_text s []))
  unfolding print_manifest
  print_manifest-done s hashes w w' empty e =
      through (print_text os stdio path (header_text s [])) _ e (λ u w1 e1 h1.
        through (print_chunks os stdio path s hashes s.chunk_count 0) _ h1 (λ u' w2 e2 h2.
          through (print_text os stdio path (footer_text s [])) _ h2 (λ u'' w3 e3 h3.
            through_call (stdio.fflush path) _ h3 (λ flushed w4 e4 h4.
              let (good, end) = through_last flushed _ h4 in
              ap (text path) (sym end)
              ∙ texts.text_fflush path w3 w4 (rw good at e4)
              ∙ print_text-done (footer_text s []) w2 w3 e3
              ∙ print_chunks-done s hashes s.chunk_count 0 (footer_text s []) w1 w2 e2
              ∙ ap (λ t. t ++ chunks_text s hashes s.chunk_count 0 (footer_text s []))
                  (print_text-done _ w w1 e1 ∙ ap (λ t. t ++ header_text s []) empty)
              ∙ header_text-append s (chunks_text s hashes s.chunk_count 0 (footer_text s []))))))

  close_stream-done :
      (r : Outcome (Unit {0})) (w w' : os.World)
      → close_stream os stdio path r w ≡ (done tt, w')
      → (r ≡ done tt) × (file path w' ≡ text path w)
  unfolding close_stream
  close_stream-done (failed x) w w' e = absurd (failed≢done (ap (λ r. r.0) e))
  close_stream-done (done _) w w' e = elim (Bool-cases (stdio.fclose path w).0) [
    | inl p ↦ (refl, texts.file_fclose path w w' (λ i. (p i, (e i).1)))
    | inr p ↦ absurd (failed≢done (ap (λ r. r.0) (rw p at e)))
  ]

  write_manifest-done :
      (s : Summary) (hashes : List (List ℕ)) (w w' : os.World)
      → write_manifest os stdio path s hashes w ≡ (done tt, w')
      → file path w' ≡ header_text s (chunks_text s hashes s.chunk_count 0 (footer_text s []))
  unfolding write_manifest
  write_manifest-done s hashes w w' e = through_call (stdio.create path) _ e (λ created w1 e1 h1.
      let (good, h2) = through_require created err_open _ h1 in
      let body = print_manifest os stdio path s hashes w1 in
      let (printed, kept) = close_stream-done body.0 body.1 w' h2 in
      kept
      ∙ print_manifest-done s hashes w1 body.1 (texts.text_create path w w1 (rw good at e1))
          (λ i. (printed i, body.1)))

  close_file-file :
      (opened : File) (w : os.World) → file path (close_file os opened w).1 ≡ file path w
  unfolding close_file
  close_file-file opened w = elim (Option-cases opened.handle) [
    | inl p ↦ rw (p, close_file) refl
    | inr (fd, p) ↦ rw (p, close_file) (texts.file_close path fd w)
  ]

  clean_up-done :
      (source : File) (r : Outcome Summary × os.World) (s : Summary) (w' : os.World)
      → clean_up os stdio path source r ≡ (done s, w')
      → (r.0 ≡ done s) × (file path w' ≡ file path r.1)
  unfolding clean_up
  clean_up-done source (failed x, w) s w' e = absurd (failed≢done (ap (λ r. r.0) e))
  clean_up-done source (done s', w) s w' e =
      (ap (λ r. r.0) e, ap (file path) (sym (ap (λ r. r.1) e)) ∙ close_file-file source w)

-- The size of the chunks has passed the test of the limits.
allowed : (n m : ℕ) → (ltb n 4096 || ltb max_chunk_size n) ≡ false → m ≡ n → 4096 ≤ m
allowed n m p e = grind (arith, p, e)

-- A manifest of the source as it stood when it was opened, in chunks of at least 4096 bytes.
abbrev pub IsManifestOf :
    {os : Os} (laws : Laws os) → Manifest → List ℕ → ℕ → os.World → os.World → Type 0
IsManifestOf {os} laws m source_path chunk_size w w1 =
    (source : File) × (fs : ℕ) × (open_source os source_path w ≡ (done source, w1))
    × (source.handle ≡ some fs)
    × (m.summary.source_size ≡ source.size_bytes)
    × (m.summary.chunk_size ≡ (if chunk_size == 0 then default_chunk_size else chunk_size))
    × (4096 ≤ m.summary.chunk_size)
    × IsSound m
    × IsSummary m.summary m.chunk_hashes (laws.content fs w1)

module _ (os : Os) (laws : Laws os) (stdio : Stdio os) (stdio_laws : StdioLaws os laws stdio)
    (texts : TextLaws os stdio) where
  -- When `df_proof_create` succeeds, the manifest file holds the text of a sound manifest with the
  -- summary returned: for the source as it stood when it was opened, with the size found then and the
  -- chunk size asked for, or 4 MiB for none, its hash of the whole source is that of the first bytes,
  -- as many as that size, and its hash of each chunk is that of the chunk. This is for a system and a
  -- C library that keep the laws.
  pub proof_create-done :
      (source_path manifest_path : List ℕ) (chunk_size : ℕ) (s : Summary) (w w' : os.World)
      → proof_create os stdio source_path manifest_path chunk_size w ≡ (done s, w')
      → (m : Manifest) × (w1 : os.World) × (m.summary ≡ s)
        × IsManifestOf laws m source_path chunk_size w w1
        × (texts.file manifest_path w' ≡ manifest_text m)
  unfolding proof_create manifest_of
  proof_create-done source_path manifest_path chunk_size_in s w w' e =
      let chunk_size = if chunk_size_in == 0 then default_chunk_size else chunk_size_in in
      elim (Bool-cases (ltb chunk_size 4096 || ltb max_chunk_size chunk_size)) [
        | inl p ↦ absurd (failed≢done (ap (λ r. r.0) (rw (p, proof_create) at e)))
        | inr p ↦
            through (open_source os source_path) _ (rw (p, proof_create) at e) (λ source w1 e1 h1.
              let (fs, open_s, small) = open_source-done os laws source_path source w w1 e1 in
              let body = created_proof os stdio manifest_path source chunk_size w1 in
              let (good, kept) = clean_up-done os stdio texts manifest_path source body s w' h1 in
              through (summarise os stdio source chunk_size) _ {s'' = body.1}
                (λ i. (good i, body.1))
                (λ found w2 e2 h2.
                  let (cut, summary, size, chunks) =
                    summarise-done os laws stdio stdio_laws source fs chunk_size found.0 found.1 w1
                      w2 open_s small (grind (arith, p)) (grind (arith, p)) e2 in
                  through (write_manifest os stdio manifest_path found.0 found.1) _ h2
                    (λ u w3 e3 h3.
                      let (same, end) = pure-done h3 in
                      (
                        manifest_of found.0 found.1,
                        w1,
                        same,
                        (
                          source,
                          fs,
                          e1,
                          open_s,
                          size,
                          chunks,
                          allowed chunk_size found.0.chunk_size p chunks,
                          manifest_of-IsSound found.0 found.1 _ cut summary,
                          summary,
                        ),
                        kept
                            ∙ ap (texts.file manifest_path) (sym end)
                            ∙ write_manifest-done os stdio texts manifest_path found.0 found.1 w2 w3
                                e3,
                      ))))
      ]

  -- After `df_proof_create` has succeeded, `manifest_load` of the file that it wrote succeeds wherever
  -- the file can be read and every allocation succeeds, and it loads a sound manifest of the source as
  -- it stood, with the summary that was returned. This is for a system and a C library that keep the
  -- laws.
  pub manifest_load-proof_create :
      (source_path manifest_path : List ℕ) (chunk_size : ℕ) (s : Summary) (got : List ℕ)
      (w w' w2 : os.World)
      → ((n : ℕ) (v : os.World) → (stdio.malloc n v).0 ≡ true)
      → proof_create os stdio source_path manifest_path chunk_size w ≡ (done s, w')
      → stdio.read_text manifest_path w' ≡ (some got, w2)
      → (m : Manifest) × (w1 : os.World) × (w3 : os.World) × (manifest_load os stdio manifest_path
            w'
          ≡ (done m, w3))
        × (m.summary ≡ s)
        × IsManifestOf laws m source_path chunk_size w w1
  unfolding manifest_load
  manifest_load-proof_create source_path manifest_path chunk_size s got w w' w2 memory e r =
      let (m, w1, same, of_source, stored) =
        proof_create-done source_path manifest_path chunk_size s w w' e in
      let (source, fs, e1, open_s, size, chunks, large, sound, summary) = of_source in
      let (w3, loaded) = load_text-manifest_text os stdio memory m w2 sound large in
      let read = texts.read_back manifest_path got w' w2 r ∙ stored in
      (
        m,
        w1,
        w3,
        then_done (call (stdio.read_text manifest_path)) _ {a = some got} {s' = w2}
            (λ i. (done (r i).0, (r i).1))
            (then_done (opened_text os stdio (some got)) _ {s = w2} refl
              (ap (λ t. load_text os stdio t w2) read ∙ loaded)),
        same,
        of_source,
      )
