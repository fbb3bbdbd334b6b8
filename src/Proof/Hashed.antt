-- ===== src/Proof/Hashed.antt =====
-- The loop of `df_proof_create` of src/proof.c hashes the chunks that the manifest cuts the source into.
use deadflash.Base.{
  ℕ, zero, suc, ◌+◌, ◌-◌, ◌*◌, ◌≤◌, ◌<◌, ◌≡◌, refl, sym, ap, ap₂, ◌∙◌, true, false, some, List, [],
  ◌∷◌, ◌++◌, length, take, drop, get_or, ltb, ltb→lt, ltb→le, lt→ltb, le→ltb, ◌==◌, ==_iff,
  Bool-cases, inl, inr, arith, add64, length-take, length-drop, length-append,
}
use deadflash.Common.{Outcome, done, done_inj}
use deadflash.Common.Monad.{through}
use deadflash.Device.{File}
use deadflash.Device.Posix.{Os, Laws}
use deadflash.Device.Exact.{read_exact, read_exact-done}
use deadflash.Device.Stdio.{Stdio}
use deadflash.Pipeline.Readback.{hashed}
use deadflash.Proof.{Summary}
use deadflash.Proof.Checked.{chunk_of}
use deadflash.Proof.Create.{piece, create_loop}
use deadflash.Proof.Load.{chunk_length}
use deadflash.Proof.Sound.{
  IsCut, start, start-suc, start_bound, start_inside, start_grows, start_last, mul64-start,
  chunk_start_bound, source_size_bound,
}
use deadflash.Sha256
use deadflash.Sha256.{sha256_buffer}

module _ (s : Summary) (cut : IsCut s) where
  open cut use {before_last, to_last}

  -- The loop takes pieces of the lengths that the manifest records.
  piece-chunk_length :
      (os : Os) (stdio : Stdio os) (i : ℕ)
      → i < s.chunk_count
      → piece os stdio s.source_size s.chunk_size (start s i) ≡ chunk_length s i
  unfolding chunk_length start
  piece-chunk_length os stdio i h =
      let here = lt→ltb i s.chunk_count h in
      let product = mul64-start s cut i h in
      let next = chunk_start_bound s cut i h in
      let small = source_size_bound s cut in
      elim (Bool-cases (i + 1 == s.chunk_count)) [
        | inl p ↦
            let last : i + 1 ≡ s.chunk_count = (==_iff _ _).0 p in
            let end : s.source_size ≤ i * s.chunk_size + s.chunk_size =
              omega (arith, to_last, ap (λ k. k * s.chunk_size) last) in
            rw (here, p, start, chunk_length, product)
              (grind (arith, end, small, next, before_last))
        | inr p ↦
            let more : i + 1 < s.chunk_count = grind (arith, p) in
            let end = chunk_start_bound s cut (i + 1) more in
            let full : ltb (s.source_size - i * s.chunk_size) s.chunk_size ≡ false =
              le→ltb _ _ (omega (arith, end, before_last)) in
            rw (here, p, start, chunk_length, full) refl
      ]

snoc_at :
    (hashes : List (List ℕ)) (x : List ℕ) (P : ℕ → List ℕ → Type 0)
    → ((j : ℕ) → j < length hashes → P j (get_or hashes j []))
    → P (length hashes) x
    → (j : ℕ) → j < length hashes + 1
    → P j (get_or (hashes ++ x ∷ []) j [])
snoc_at [] x P all last zero h = last
snoc_at [] x P all last (suc j) h = absurd (omega arith)
snoc_at (y ∷ hashes) x P all last zero h = all zero (omega arith)
snoc_at (y ∷ hashes) x P all last (suc j) h =
    snoc_at hashes x (λ k d. P (suc k) d) (λ k lt. all (suc k) (omega arith)) last j (omega arith)

module _ (os : Os) (laws : Laws os) (stdio : Stdio os) (s : Summary) (cut : IsCut s) (source : File)
    (fs : ℕ) (open_s : source.handle ≡ some fs) (sized : source.size_bytes ≡ s.source_size)
    (c : List ℕ) where
  open laws use {content}

  -- The hash of each of the first chunks.
  abbrev pub AreHashes : ℕ → List (List ℕ) → Type 0
  AreHashes n hashes =
      (length hashes ≡ n) × ((j : ℕ) → j < n → get_or hashes j [] ≡ sha256_buffer (chunk_of s j c))

  AreHashes-snoc :
      (i : ℕ) (hashes : List (List ℕ)) (bytes : List ℕ)
      → AreHashes i hashes
      → bytes ≡ chunk_of s i c
      → AreHashes (i + 1) (hashes ++ sha256_buffer bytes ∷ [])
  AreHashes-snoc i hashes bytes (n, all) e = (
    length-append hashes (sha256_buffer bytes ∷ []) ∙ omega arith,
    λ j lt.
        snoc_at hashes (sha256_buffer bytes) (λ k d. d ≡ sha256_buffer (chunk_of s k c))
          (λ k lt'. all k (omega arith))
          (ap sha256_buffer e ∙ ap (λ k. sha256_buffer (chunk_of s k c)) (sym n)) j (omega arith),
  )

  finished :
      (i : ℕ) (hashes hashes' : List (List ℕ)) (ctx' : Sha256.Ctx) (w w' : os.World)
      → i ≡ s.chunk_count
      → start s i ≤ length c
      → AreHashes i hashes
      → ◌≡◌ {A = Outcome (Sha256.Ctx × List (List ℕ)) × os.World}
          (done (Sha256.update Sha256.init (take (start s i) c), hashes), w)
          (done (ctx', hashes'), w')
      → AreHashes s.chunk_count hashes'
        × (ctx' ≡ Sha256.update Sha256.init (take s.source_size c))
        × (s.source_size ≤ length c)
  finished i hashes hashes' ctx' w w' last inside all e =
      let same = done_inj (ap (λ r. r.0) e) in
      let end = ap (start s) last ∙ start_last s cut in
      (
        rw (last, ap (λ r. r.1) same) at all,
        sym (ap (λ r. r.0) same) ∙ ap (λ n. Sha256.update Sha256.init (take n c)) end,
        rw end at inside,
      )

  pub create_loop-done :
      (fuel i : ℕ) (hashes hashes' : List (List ℕ)) (ctx' : Sha256.Ctx) (w w' : os.World)
      → content fs w ≡ c
      → i ≤ s.chunk_count
      → s.source_size - start s i ≤ fuel
      → start s i ≤ length c
      → AreHashes i hashes
      → create_loop os stdio fuel source s.chunk_size
          (start s i)
          (Sha256.update Sha256.init (take (start s i) c))
          hashes
          w
        ≡ (done (ctx', hashes'), w')
      → AreHashes s.chunk_count hashes'
        × (ctx' ≡ Sha256.update Sha256.init (take s.source_size c))
        × (s.source_size ≤ length c)
  unfolding create_loop
  create_loop-done zero i hashes hashes' ctx' w w' same le enough inside all e =
      elim (Bool-cases (ltb i s.chunk_count)) [
        | inl p ↦ absurd (omega (arith, start_inside s cut i (ltb→lt i s.chunk_count p)))
        | inr p ↦
            finished i hashes hashes' ctx' w w' (omega (arith, ltb→le i s.chunk_count p)) inside all
              e
      ]
  create_loop-done (suc fuel) i hashes hashes' ctx' w w' same le enough inside all e =
      elim (Bool-cases (ltb i s.chunk_count)) [
        | inr p ↦
            let last : i ≡ s.chunk_count = omega (arith, ltb→le i s.chunk_count p) in
            let stop : ltb (start s i) source.size_bytes ≡ false =
              le→ltb _ _ (rw (sized, last, start_last s cut) (omega arith)) in
            finished i hashes hashes' ctx' w w' last inside all (rw (stop, create_loop) at e)
        | inl p ↦
            let more = ltb→lt i s.chunk_count p in
            let go : ltb (start s i) source.size_bytes ≡ true =
              lt→ltb _ _ (rw sized (start_inside s cut i more)) in
            through (read_exact os source _ (start s i)) _ (rw (go, create_loop) at e)
              (λ bytes w1 e1 h1.
                let piece_is : piece os stdio source.size_bytes s.chunk_size (start s i)
                    ≡ chunk_length s i =
                  rw sized (piece-chunk_length s cut os stdio i more) in
                let n = chunk_length s i in
                let (stored, len, kept) =
                  read_exact-done os laws source fs open_s _ (start s i) bytes w w1 e1 in
                let chunk : bytes ≡ chunk_of s i c =
                  stored ∙ ap₂ (λ k d. take k (drop (start s i) d)) piece_is same in
                let full : length bytes ≡ n = len ∙ piece_is in
                let step = start-suc s cut i more in
                let offset : add64 (start s i)
                      (piece os stdio source.size_bytes s.chunk_size (start s i))
                    ≡ start s (i + 1) =
                  rw piece_is
                    (omega (arith, step, start_bound s cut (i + 1), source_size_bound s cut)) in
                let lens = ap length chunk in
                let shape = length-take n (drop (start s i) c) in
                let left = length-drop (start s i) c in
                let longer : 0 < n = omega (arith, step, start_grows s cut i more) in
                let ctx_is : Sha256.update (Sha256.update Sha256.init (take (start s i) c)) bytes
                    ≡ Sha256.update Sha256.init (take (start s (i + 1)) c) =
                  hashed (start s i) n c bytes chunk
                  ∙ ap (λ k. Sha256.update Sha256.init (take k c)) (sym step) in
                create_loop-done fuel (i + 1) (hashes ++ sha256_buffer bytes ∷ []) hashes' ctx' w1
                  w' (kept fs ∙ same) (omega arith) (omega (arith, step, longer))
                  (rw step (omega (arith, full, lens, shape, left)))
                  (AreHashes-snoc i hashes bytes all chunk) (rw (offset, ctx_is) at h1))
      ]
