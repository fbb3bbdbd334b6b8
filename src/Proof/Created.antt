-- ===== src/Proof/Created.antt =====
-- What `df_proof_create` of src/proof.c has written when it succeeds.
use deadflash.Base.{
  ℕ, zero, suc, ◌+◌, ◌-◌, ◌*◌, ◌/◌, ◌^◌, ◌≤◌, ◌<◌, ◌≡◌, refl, sym, ap, ap₂, ◌∙◌, ◌||◌, some, List,
  [], ◌∷◌, length, take, get_or, ltb, ◌==◌, arith,
}
use mathlib.Core.Path.{subst}
use deadflash.Common.{done}
use deadflash.Common.Monad.{through, through_call, through_guard, through_last, pure-done}
use deadflash.Device.{File}
use deadflash.Device.Posix.{Os, Laws}
use deadflash.Device.Stdio.{Stdio, StdioLaws}
use deadflash.Pipeline.Checked.{sha256_buffer-IsDigest}
use deadflash.Pipeline.Readback.{whole_message}
use deadflash.Proof.{Summary, Manifest, max_chunks, max_chunk_size, merkle_root}
use deadflash.Proof.Scanned.{header-IsCut}
use deadflash.Proof.Checked.{chunk_of}
use deadflash.Proof.Create.{create_loop, allocate_buffers, summarise}
use deadflash.Proof.Hashed.{create_loop-done}
use deadflash.Proof.Load.{chunks_of, chunk_length}
use deadflash.Proof.Merkle.{root, at, merkle_root-root, merkle_root_positive}
use deadflash.Proof.Printed.{limits_hold}
use deadflash.Proof.Sound.{IsCut, IsSound, start_first}
use deadflash.Sha256
use deadflash.Sha256.{sha256_buffer}
use deadflash.Sha256.Stream.{update-nil}

-- What a summary says of a content.
abbrev pub IsSummary : Summary → List (List ℕ) → List ℕ → Type 0
IsSummary s hashes c =
    (s.source_size ≤ length c)
    × (s.source_sha256 ≡ sha256_buffer (take s.source_size c))
    × (length hashes ≡ s.chunk_count)
    × ((j : ℕ) → j < s.chunk_count → get_or hashes j [] ≡ sha256_buffer (chunk_of s j c))
    × (s.merkle_root ≡ root s.chunk_count (at hashes))

-- The lengths of the chunks from `i` on.
chunk_lengths_from : Summary → ℕ → ℕ → List ℕ
chunk_lengths_from s zero i = []
chunk_lengths_from s (suc rounds) i = chunk_length s i ∷ chunk_lengths_from s rounds (i + 1)

length-chunk_lengths_from :
    (s : Summary) (rounds i : ℕ) → length (chunk_lengths_from s rounds i) ≡ rounds
unfolding chunk_lengths_from
length-chunk_lengths_from s zero i = refl
length-chunk_lengths_from s (suc rounds) i = ap suc (length-chunk_lengths_from s rounds (i + 1))

get_or-chunk_lengths_from :
    (s : Summary) (rounds i j : ℕ)
    → j < rounds
    → get_or (chunk_lengths_from s rounds i) j 0 ≡ chunk_length s (i + j)
unfolding chunk_lengths_from
get_or-chunk_lengths_from s zero i j h = absurd (omega arith)
get_or-chunk_lengths_from s (suc rounds) i zero h = ap (chunk_length s) (omega arith)
get_or-chunk_lengths_from s (suc rounds) i (suc j) h =
    get_or-chunk_lengths_from s rounds (i + 1) j (omega arith) ∙ ap (chunk_length s) (omega arith)

-- The manifest of a summary, which is sound.
unfoldable pub manifest_of : Summary → List (List ℕ) → Manifest
unfolding chunk_lengths_from
manifest_of s hashes = record {
  summary = s;
  chunk_hashes = hashes;
  chunk_lengths = chunk_lengths_from s s.chunk_count 0;
}

pub manifest_of-IsSound :
    (s : Summary) (hashes : List (List ℕ)) (c : List ℕ)
    → IsCut s
    → IsSummary s hashes c
    → IsSound (manifest_of s hashes)
unfolding manifest_of
manifest_of-IsSound s hashes c cut (long, whole, n, all, rooted) = record {
  cut = cut;
  all_hashes = n;
  all_lengths = length-chunk_lengths_from s s.chunk_count 0;
  lengths =
      λ i lt. get_or-chunk_lengths_from s s.chunk_count 0 i lt ∙ ap (chunk_length s) (omega arith);
  hashes = λ i lt. rw (all i lt) (sha256_buffer-IsDigest _);
  source_digest = rw whole (sha256_buffer-IsDigest _);
  root_digest = rooted;
}

module _ (os : Os) (laws : Laws os) (stdio : Stdio os) (stdio_laws : StdioLaws os laws stdio) where
  open laws use {content}

  allocate_buffers-done :
      (n count : ℕ) (w w' : os.World)
      → allocate_buffers os stdio n count w ≡ (done tt, w')
      → (g : ℕ) → content g w' ≡ content g w
  unfolding allocate_buffers
  allocate_buffers-done n count w w' e g = through_call (stdio.malloc n) _ e (λ a w1 e1 h1.
      through_call (stdio.malloc (count * 32)) _ h1 (λ b w2 e2 h2.
        let (good, end) = through_last _ _ h2 in
        ap (content g) (sym end)
        ∙ ap (content g) (sym (ap (λ r. r.1) e2))
        ∙ stdio_laws.malloc_content g (count * 32) w1
        ∙ ap (content g) (sym (ap (λ r. r.1) e1))
        ∙ stdio_laws.malloc_content g n w))

  pub summarise-done :
      (source : File) (fs chunk_size : ℕ) (s : Summary) (hashes : List (List ℕ)) (w w' : os.World)
      → source.handle ≡ some fs
      → source.size_bytes < 2 ^ 64
      → 0 < chunk_size
      → chunk_size ≤ max_chunk_size
      → summarise os stdio source chunk_size w ≡ (done (s, hashes), w')
      → IsCut s
        × IsSummary s hashes (content fs w)
        × (s.source_size ≡ source.size_bytes)
        × (s.chunk_size ≡ chunk_size)
  unfolding summarise
  summarise-done source fs chunk_size s hashes w w' open_s small some_size size_bound e =
      let count = chunks_of source.size_bytes chunk_size in
      let (some_bytes, h1) = through_guard (source.size_bytes == 0) _ _ e in
      let (few, h2) =
        through_guard (ltb max_chunks count || ltb ((2 ^ 64 - 1) / 32) count) _ _ h1 in
      through (allocate_buffers os stdio chunk_size count) _ h2 (λ u w1 e1 h3.
        through (create_loop os stdio source.size_bytes source chunk_size 0 Sha256.init []) _ h3
          (λ found w2 e2 h4. through (merkle_root os stdio found.1 count) _ h4 (λ digest w3 e3 h5.
            let same = (pure-done h5).0 in
            let positive = merkle_root_positive os stdio found.1 count digest w2 w3 e3 in
            let s0 : Summary = record {
              source_size = source.size_bytes;
              chunk_size = chunk_size;
              chunk_count = count;
              source_sha256 = Sha256.final found.0;
              merkle_root = digest;
            } in
            let cut : IsCut s0 =
              header-IsCut s0 small
                (limits_hold s0 (grind arith) some_size size_bound positive (grind arith)) refl in
            let kept = allocate_buffers-done chunk_size count w w1 e1 fs in
            let first = start_first s0 cut in
            let nothing =
              ap (λ n. Sha256.update Sha256.init (take n (content fs w))) first ∙ update-nil in
            let ((n, all), ctx, long) =
              create_loop-done os laws stdio s0 cut source fs open_s refl (content fs w)
                source.size_bytes 0 [] found.1 found.0 w1 w2 kept (omega arith) (omega arith)
                (rw first (omega arith)) (refl, λ j lt. absurd (omega arith))
                (ap₂ (λ o x. create_loop os stdio source.size_bytes source chunk_size o x [] w1)
                    first nothing
                  ∙ e2) in
            let (rooted, positive', one, more) =
              merkle_root-root os stdio found.1 count digest w2 w3 (omega arith) e3 in
            let shown : IsSummary s0 found.1 (content fs w) =
              (long, ap Sha256.final ctx ∙ whole_message _, n, all, rooted) in
            subst
              (λ (x : Summary × List (List ℕ)).
                IsCut x.0
                × IsSummary x.0 x.1 (content fs w)
                × (x.0.source_size ≡ source.size_bytes)
                × (x.0.chunk_size ≡ chunk_size))
              same (cut, shown, refl, refl))))
