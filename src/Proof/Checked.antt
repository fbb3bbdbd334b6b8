-- ===== src/Proof/Checked.antt =====
-- What a successful `df_proof_verify` has shown: every chunk of the source and of the target has the
-- hash that the manifest records, under the laws of the system.
use deadflash.Base.{
  ℕ, zero, suc, ◌+◌, ◌≤◌, ◌<◌, ◌≡◌, refl, sym, ap, ap₂, ◌∙◌, some, true, List, [], length, take,
  drop, get_or, ◌==◌, ==_iff, Bool-cases, inl, inr, arith, add64, mul64, length-take, length-drop,
}
use deadflash.Common.{done, constant_time_equal}
use deadflash.Common.Compare.{constant_time_equal_iff}
use deadflash.Common.Monad.{through, after, through_recorded, recorded_last, pure-done}
use deadflash.Device.{File}
use deadflash.Device.Posix.{Os, Laws}
use deadflash.Device.Exact.{read_exact, read_exact-done}
use deadflash.Pipeline.Checked.{sha256_buffer-IsDigest}
use deadflash.Pipeline.Readback.{hashed}
use deadflash.Proof.{Summary, Manifest}
use deadflash.Proof.Load.{chunk_length}
use deadflash.Proof.Sound.{
  IsSound, IsDigest, start, start_here, start-suc, start_bound, start_last, source_size_bound,
}
use deadflash.Proof.Verify.{
  Check, through_io, check_source, check_target, check_chunk, check_chunks,
}
use deadflash.Sha256
use deadflash.Sha256.{sha256_buffer}

-- The chunk at `i` of what starts like the source.
abbrev pub chunk_of : Summary → ℕ → List ℕ → List ℕ
chunk_of s i bytes = take (chunk_length s i) (drop (start s i) bytes)

pub same_digest : (a b : List ℕ) → IsDigest a → IsDigest b → constant_time_equal a b ≡ true → a ≡ b
same_digest a b (la, ba) (lb, bb) h = (constant_time_equal_iff a b ba bb (la ∙ sym lb)).0 h

module _ (os : Os) (laws : Laws os) (m : Manifest) (sound : IsSound m) (source target : File)
    (fs ft : ℕ) (open_s : source.handle ≡ some fs) (open_t : target.handle ≡ some ft) where
  open laws use {content}

  check_source-done :
      (i at n : ℕ) (expected bytes : List ℕ) (c c' : Check os.World)
      → IsDigest expected
      → check_source os source i at n expected c ≡ (done bytes, c')
      → (bytes ≡ take n (drop at (content fs c.world)))
        × (length bytes ≡ n)
        × (sha256_buffer bytes ≡ expected)
        × ((g : ℕ) → content g c'.world ≡ content g c.world)
        × (c'.result ≡ c.result)
  unfolding check_source
  check_source-done i at n expected bytes c c' d e =
      through_io (read_exact os source n at) _ e (λ got w e1 h1.
        let (good, h2) =
          through_recorded (constant_time_equal (sha256_buffer got) expected) _ _ _ h1 in
        let (same, end) = pure-done h2 in
        let (stored, len, kept) = read_exact-done os laws source fs open_s n at got c.world w e1 in
        (
          sym same ∙ stored,
          ap length (sym same) ∙ len,
          ap sha256_buffer (sym same) ∙ same_digest _ expected (sha256_buffer-IsDigest got) d good,
          λ g. ap (λ x. content g x.world) (sym end) ∙ kept g,
          ap (λ x. x.result) (sym end),
        ))

  check_target-done :
      (i at n : ℕ) (bytes : List ℕ) (c c' : Check os.World)
      → check_target os target i at n bytes c ≡ (done tt, c')
      → (sha256_buffer (take n (drop at (content ft c.world))) ≡ sha256_buffer bytes)
        × (length (take n (drop at (content ft c.world))) ≡ n)
        × ((g : ℕ) → content g c'.world ≡ content g c.world)
        × (c'.result ≡ c.result)
  unfolding check_target
  check_target-done i at n bytes c c' e =
      through_io (read_exact os target n at) _ e (λ copy w e1 h1.
        let (good, end) =
          recorded_last (constant_time_equal (sha256_buffer bytes) (sha256_buffer copy)) _ _ h1 in
        let (stored, len, kept) = read_exact-done os laws target ft open_t n at copy c.world w e1 in
        (
          ap sha256_buffer (sym stored)
              ∙ sym (
                  same_digest _ _ (sha256_buffer-IsDigest bytes) (sha256_buffer-IsDigest copy)
                    good),
          ap length (sym stored) ∙ len,
          λ g. ap (λ x. content g x.world) (sym end) ∙ kept g,
          ap (λ x. x.result) (sym end),
        ))

  -- What the check of one chunk has shown.
  abbrev pub IsChecked : ℕ → os.World → Type 0
  IsChecked i w =
      (sha256_buffer (chunk_of m.summary i (content fs w)) ≡ get_or m.chunk_hashes i [])
      × (sha256_buffer (chunk_of m.summary i (content ft w)) ≡ get_or m.chunk_hashes i [])
      × (length (chunk_of m.summary i (content fs w)) ≡ chunk_length m.summary i)
      × (length (chunk_of m.summary i (content ft w)) ≡ chunk_length m.summary i)

  check_chunk-done :
      (i : ℕ) (ctx ctx' : Sha256.Ctx) (c c' : Check os.World)
      → i < m.summary.chunk_count
      → check_chunk os source target m i ctx c ≡ (done ctx', c')
      → IsChecked i c.world
        × (ctx' ≡ Sha256.update ctx (chunk_of m.summary i (content fs c.world)))
        × ((g : ℕ) → content g c'.world ≡ content g c.world)
        × (c'.result.bytes_verified ≡ add64 c.result.bytes_verified (chunk_length m.summary i))
        × (c'.result.chunks_verified ≡ c.result.chunks_verified + 1)
  unfolding check_chunk
  check_chunk-done i ctx ctx' c c' h e =
      let at = mul64 i m.summary.chunk_size in
      let n = get_or m.chunk_lengths i 0 in
      through (check_source os source i at n (get_or m.chunk_hashes i [])) _ e (λ bytes c1 e1 h1.
        through (check_target os target i at n bytes) _ h1 (λ u c2 e2 h2.
          let (value, end) = pure-done (after _ _ refl h2) in
          let (stored, len, hash, same, result) =
            check_source-done i at n _ bytes c c1 (sound.hashes i h) e1 in
          let (hash', len', same', result') = check_target-done i at n bytes c1 c2 e2 in
          let place : at ≡ start m.summary i = start_here m.summary sound.cut i h in
          let size : n ≡ chunk_length m.summary i = sound.lengths i h in
          let place' = λ (b : List ℕ). ap₂ (λ k o. take k (drop o b)) size place in
          (
            (
              ap sha256_buffer (sym (stored ∙ place' _)) ∙ hash,
              ap sha256_buffer (sym (place' _) ∙ ap (λ x. take n (drop at x)) (sym (same ft)))
                  ∙ hash'
                  ∙ hash,
              ap length (sym (stored ∙ place' _)) ∙ len ∙ size,
              ap length (sym (place' _) ∙ ap (λ x. take n (drop at x)) (sym (same ft)))
                  ∙ len'
                  ∙ size,
            ),
            sym value ∙ ap (Sha256.update ctx) (stored ∙ place' _),
            λ g. ap (λ x. content g x.world) (sym end) ∙ same' g ∙ same g,
            ap (λ x. x.result.bytes_verified) (sym end)
                ∙ ap₂ (λ r k. add64 (r.bytes_verified) k) (result' ∙ result) size,
            ap (λ x. x.result.chunks_verified) (sym end)
                ∙ ap (λ r. r.chunks_verified + 1) (result' ∙ result),
          )))

  -- How far the loop has come.
  abbrev pub IsAt : ℕ → Check os.World → Type 0
  IsAt i c =
      (start m.summary i ≤ length (content fs c.world))
      × (start m.summary i ≤ length (content ft c.world))
      × (c.result.bytes_verified ≡ start m.summary i)
      × (c.result.chunks_verified ≡ i)

  IsAt-suc :
      (i : ℕ) (ctx' : Sha256.Ctx) (c c' : Check os.World)
      → i < m.summary.chunk_count
      → IsAt i c
      → check_chunk os source target m i
          (Sha256.update Sha256.init (take (start m.summary i) (content fs c.world)))
          c
        ≡ (done ctx', c')
      → IsAt (i + 1) c'
        × (ctx' ≡ Sha256.update Sha256.init (take (start m.summary (i + 1)) (content fs c'.world)))
  IsAt-suc i ctx' c c' h (inside, inside', bytes, chunks) e =
      let n = chunk_length m.summary i in
      let o = start m.summary i in
      let (checked, next_ctx, same, b, k) = check_chunk-done i _ ctx' c c' h e in
      let (a1, a2, full, full') = checked in
      let step = start-suc m.summary sound.cut i h in
      let bound = start_bound m.summary sound.cut (i + 1) in
      let small = source_size_bound m.summary sound.cut in
      let shape = length-take n (drop o (content fs c.world)) in
      let shape' = length-take n (drop o (content ft c.world)) in
      let left = length-drop o (content fs c.world) in
      let left' = length-drop o (content ft c.world) in
      let sum : add64 c.result.bytes_verified n ≡ start m.summary (i + 1) =
        rw bytes (omega (arith, step, bound, small)) in
      (
        (
          rw (same fs, step) (omega (arith, shape, left, full, inside)),
          rw (same ft, step) (omega (arith, shape', left', full', inside')),
          b ∙ sum,
          k ∙ ap (λ x. x + 1) chunks,
        ),
        next_ctx
            ∙ hashed o n (content fs c.world) _ refl
            ∙ ap₂ (λ x y. Sha256.update Sha256.init (take x y)) (sym step) (sym (same fs)),
      )

  kept-IsChecked :
      (k : ℕ) (w w' : os.World)
      → ((g : ℕ) → content g w' ≡ content g w)
      → IsChecked k w'
      → IsChecked k w
  kept-IsChecked k w w' same (a, b, x, y) =
      (rw (same fs) at a, rw (same ft) at b, rw (same fs) at x, rw (same ft) at y)

  pub check_chunks-done :
      (rounds i : ℕ) (ctx' : Sha256.Ctx) (c c' : Check os.World)
      → i + rounds ≡ m.summary.chunk_count
      → IsAt i c
      → check_chunks os source target m rounds i
          (Sha256.update Sha256.init (take (start m.summary i) (content fs c.world)))
          c
        ≡ (done ctx', c')
      → ((k : ℕ) → i ≤ k → k < m.summary.chunk_count → IsChecked k c.world)
        × IsAt m.summary.chunk_count c'
        × (ctx' ≡ Sha256.update Sha256.init (take m.summary.source_size (content fs c'.world)))
        × ((g : ℕ) → content g c'.world ≡ content g c.world)
  unfolding check_chunks
  check_chunks-done zero i ctx' c c' whole here e =
      let (value, end) = pure-done e in
      let last : i ≡ m.summary.chunk_count = omega arith in
      (
        λ k le lt. absurd (omega arith),
        rw (last, end) at here,
        sym value
            ∙ ap₂ (λ x y. Sha256.update Sha256.init (take x (content fs y.world)))
                (ap (start m.summary) last ∙ start_last m.summary sound.cut) end,
        λ g. ap (λ x. content g x.world) (sym end),
      )
  check_chunks-done (suc rounds) i ctx' c c' whole here e =
      through _ (check_chunks os source target m rounds (i + 1)) e (λ ctx1 c1 e1 h1.
        let more : i < m.summary.chunk_count = omega arith in
        let (checked, next_ctx, same, b, k) = check_chunk-done i _ ctx1 c c1 more e1 in
        let (next, ctx_is) = IsAt-suc i ctx1 c c1 more here e1 in
        let (others, final, whole_ctx, kept) =
          check_chunks-done rounds (i + 1) ctx' c1 c' (omega arith) next (rw ctx_is at h1) in
        (
          λ k le lt. elim (Bool-cases (k == i)) [
            | inl p ↦ rw (← (==_iff k i).0 p) at checked
            | inr p ↦ kept-IsChecked k c.world c1.world same (others k (grind arith) lt)
          ],
          final,
          whole_ctx,
          λ g. kept g ∙ same g,
        ))
