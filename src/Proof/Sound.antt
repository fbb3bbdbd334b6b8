-- ===== src/Proof/Sound.antt =====
-- What a manifest keeps that `manifest_load` accepted.
use deadflash.Base.{
  ℕ, ◌+◌, ◌-◌, ◌*◌, ◌≤◌, ◌<◌, ◌≡◌, refl, true, false, List, [], length, get_or, ltb, lt→ltb, ltb→lt,
  ltb→le, ◌==◌, ==_iff, if◌then◌else◌, Bool-cases, inl, inr, arith, All, IsByte, mul64,
}
use native.Mathlib.Nat.{le_trans, mul-le-mul, mul-le-mul_right}
use deadflash.Proof.{Summary, Manifest, max_chunks, max_chunk_size}
use deadflash.Proof.Load.{chunk_length}
use deadflash.Proof.Merkle.{root, at}

-- The chunks cut the source into pieces of one size, of which only the last may be shorter.
pub record IsCut (s : Summary) : Type 0 where
  pub some_chunk : 0 < s.chunk_count
  pub few_chunks : s.chunk_count ≤ max_chunks
  pub some_size : 0 < s.chunk_size
  pub size_bound : s.chunk_size ≤ max_chunk_size
  pub before_last : (s.chunk_count - 1) * s.chunk_size < s.source_size
  pub to_last : s.source_size ≤ s.chunk_count * s.chunk_size

abbrev pub IsDigest : List ℕ → Type 0
IsDigest digest = (length digest ≡ 32) × All IsByte digest

pub record IsSound (m : Manifest) : Type 0 where
  pub cut : IsCut m.summary
  pub all_hashes : length m.chunk_hashes ≡ m.summary.chunk_count
  pub all_lengths : length m.chunk_lengths ≡ m.summary.chunk_count
  pub lengths :
      (i : ℕ) → i < m.summary.chunk_count → get_or m.chunk_lengths i 0 ≡ chunk_length m.summary i
  pub hashes : (i : ℕ) → i < m.summary.chunk_count → IsDigest (get_or m.chunk_hashes i [])
  pub source_digest : IsDigest m.summary.source_sha256
  pub root_digest : m.summary.merkle_root ≡ root m.summary.chunk_count (at m.chunk_hashes)

-- Where the chunk at `i` starts, for `i` chunks or fewer.
unfoldable pub start : Summary → ℕ → ℕ
start s i = if ltb i s.chunk_count then i * s.chunk_size else s.source_size

module _ (s : Summary) (cut : IsCut s) where
  open cut use {some_chunk, few_chunks, some_size, size_bound, before_last, to_last}

  pub chunk_start_bound :
      (i : ℕ) → i < s.chunk_count → i * s.chunk_size ≤ (s.chunk_count - 1) * s.chunk_size
  chunk_start_bound i h =
      let le : i ≤ s.chunk_count - 1 = omega arith in mul-le-mul_right s.chunk_size le

  pub source_size_bound : s.source_size ≤ max_chunks * max_chunk_size
  source_size_bound = le_trans to_last (mul-le-mul few_chunks size_bound)

  pub mul64-start : (i : ℕ) → i < s.chunk_count → mul64 i s.chunk_size ≡ i * s.chunk_size
  mul64-start i h = omega (arith, chunk_start_bound i h, source_size_bound)

  -- The place that the code computes for a chunk.
  pub start_here : (i : ℕ) → i < s.chunk_count → mul64 i s.chunk_size ≡ start s i
  unfolding start
  start_here i h = rw (start, lt→ltb i s.chunk_count h) (mul64-start i h)

  pub start_bound : (i : ℕ) → start s i ≤ s.source_size
  unfolding start
  start_bound i = elim (Bool-cases (ltb i s.chunk_count)) [
    | inl p ↦
        rw (p, start) (omega (arith, chunk_start_bound i (ltb→lt i s.chunk_count p), before_last))
    | inr p ↦ rw (p, start) (omega arith)
  ]

  pub start_inside : (i : ℕ) → i < s.chunk_count → start s i < s.source_size
  unfolding start
  start_inside i h =
      rw (start, lt→ltb i s.chunk_count h) (omega (arith, chunk_start_bound i h, before_last))

  pub start_first : start s 0 ≡ 0
  unfolding start
  start_first = rw (start, lt→ltb 0 s.chunk_count some_chunk) (omega arith)

  pub start_last : start s s.chunk_count ≡ s.source_size
  unfolding start
  start_last = elim (Bool-cases (ltb s.chunk_count s.chunk_count)) [
    | inl p ↦ absurd (omega (arith, ltb→lt s.chunk_count s.chunk_count p))
    | inr p ↦ rw (p, start) refl
  ]

  pub start_grows : (i : ℕ) → i < s.chunk_count → start s i < start s (i + 1)
  unfolding start
  start_grows i h =
      let here = lt→ltb i s.chunk_count h in
      elim (Bool-cases (ltb (i + 1) s.chunk_count)) [
        | inl p ↦ rw (p, here, start) (omega (arith, some_size))
        | inr p ↦
            let bound = chunk_start_bound i h in
            rw (p, here, start) (omega (arith, bound, before_last))
      ]

  -- A chunk ends where the next one starts.
  pub start-suc : (i : ℕ) → i < s.chunk_count → start s (i + 1) ≡ start s i + chunk_length s i
  unfolding start chunk_length
  start-suc i h =
      let bound = chunk_start_bound i h in
      let product = mul64-start i h in
      let next : (i + 1) * s.chunk_size ≡ i * s.chunk_size + s.chunk_size = omega arith in
      elim (Bool-cases (ltb (i + 1) s.chunk_count)) [
        | inl p ↦
            let more = ltb→lt (i + 1) s.chunk_count p in
            let here = lt→ltb i s.chunk_count h in
            let inner : (i + 1 == s.chunk_count) ≡ false = grind arith in
            rw (p, here, inner, start, chunk_length) next
        | inr p ↦
            let last : i + 1 ≡ s.chunk_count = omega (arith, ltb→le (i + 1) s.chunk_count p) in
            let here = lt→ltb i s.chunk_count h in
            let final : (i + 1 == s.chunk_count) ≡ true = (==_iff (i + 1) s.chunk_count).1 last in
            rw (p, here, final, start, chunk_length) (omega (arith, source_size_bound))
      ]
