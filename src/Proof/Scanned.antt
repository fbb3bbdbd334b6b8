-- ===== src/Proof/Scanned.antt =====
-- What the scanner of `manifest_load` of src/proof.c accepts: a header, and the records of the chunks.
use deadflash.Base.{
  ℕ, zero, suc, ◌+◌, ◌-◌, ◌*◌, ◌%◌, ◌^◌, ◌≤◌, ◌<◌, ◌≡◌, sym, ap, ◌∙◌, Bool, true, false, ◌&&◌, List,
  [], ◌∷◌, length, get_or, ltb, ltb→lt, ◌==◌, ==_iff, if◌then◌else◌, Bool-cases, Option-cases, inl,
  inr, arith, add64, sub64,
}
use native.Mathlib.Nat.{div-mul-le_self, lt-div-mul-add}
use mathlib.Core.Bool.{false≢true}
use deadflash.Base.Texts.{codes, text_eq}
use deadflash.Common.{done, failed≢done, done_inj, err_format}
use deadflash.Common.Hex.{hex_decode_32, hex_decode_32_shape}
use deadflash.Common.Monad.{through, through_require, pure-done}
use deadflash.Common.Parse.{is_digit, skip_spaces, read_digits}
use deadflash.Proof.{Summary, max_chunks, max_chunk_size}
use deadflash.Proof.Load.{
  scan_digits, scan_sign, scan_u64, scan_word, decoded, scan_keyed_u64, scan_keyed_digest,
  scan_literal, magic, within_limits, chunks_of, scan_header, chunk_length, scan_chunk, scan_chunks,
}
use deadflash.Proof.Sound.{IsCut, IsDigest}

scan_digits-bound :
    (minus : Bool) (text : List ℕ) (n : ℕ) (rest : List ℕ)
    → scan_digits minus text ≡ (done n, rest)
    → n < 2 ^ 64
unfolding scan_digits
scan_digits-bound minus [] n rest e = absurd (failed≢done (ap (λ r. r.0) e))
scan_digits-bound minus (c ∷ text) n rest e = elim (Bool-cases (is_digit c)) [
  | inr p ↦ absurd (failed≢done (ap (λ r. r.0) (rw (p, scan_digits) at e)))
  | inl p ↦ elim (Bool-cases (ltb (read_digits 0 (c ∷ text)).0 (2 ^ 64))) [
    | inr q ↦ let v = done_inj (ap (λ r. r.0) (rw (p, q, scan_digits) at e)) in omega arith
    | inl q ↦
        let v = done_inj (ap (λ r. r.0) (rw (p, q, scan_digits) at e)) in
        signed minus (read_digits 0 (c ∷ text)).0 (ltb→lt _ _ q) v
  ]
]
  where
    signed :
        (minus : Bool) (k : ℕ) {n : ℕ}
        → k < 2 ^ 64
        → (if minus then (2 ^ 64 - k) % 2 ^ 64 else k) ≡ n
        → n < 2 ^ 64
    signed true k h e = omega arith
    signed false k h e = omega arith

scan_u64-bound :
    (text : List ℕ) (n : ℕ) (rest : List ℕ) → scan_u64 text ≡ (done n, rest) → n < 2 ^ 64
unfolding scan_u64 scan_sign
scan_u64-bound text n rest e = signed (skip_spaces text) e
  where
    signed : (t : List ℕ) {n : ℕ} {rest : List ℕ} → scan_sign t ≡ (done n, rest) → n < 2 ^ 64
    signed [] e = absurd (failed≢done (ap (λ r. r.0) e))
    signed (c ∷ t) e = elim (Bool-cases (c == b'+')) [
      | inl p ↦ scan_digits-bound false t _ _ (rw (p, scan_sign) at e)
      | inr p ↦ elim (Bool-cases (c == b'-')) [
        | inl q ↦ scan_digits-bound true t _ _ (rw (p, q, scan_sign) at e)
        | inr q ↦ scan_digits-bound false (c ∷ t) _ _ (rw (p, q, scan_sign) at e)
      ]
    ]

scan_keyed_u64-bound :
    (key text : List ℕ) (n : ℕ) (rest : List ℕ)
    → scan_keyed_u64 key text ≡ (done n, rest)
    → n < 2 ^ 64
unfolding scan_keyed_u64
scan_keyed_u64-bound key text n rest e = through (scan_word 63) _ e (λ found t1 e1 h1.
    through scan_u64 _ h1 (λ k t2 e2 h2.
      let (good, h3) = through_require (text_eq found key) err_format _ h2 in
      let (same, end) = pure-done h3 in rw same at (scan_u64-bound t1 k t2 e2)))

decoded-IsDigest :
    {S : Type 0} (text : List ℕ) (digest : List ℕ) (s : S) {s' : S}
    → decoded (hex_decode_32 text) s ≡ (done digest, s')
    → IsDigest digest
decoded-IsDigest text digest s e = elim (Option-cases (hex_decode_32 text)) [
  | inl p ↦ absurd (failed≢done (ap (λ r. r.0) (rw p at e)))
  | inr (d, p) ↦
      let (chars, len, bytes) = hex_decode_32_shape text d p in
      let same = done_inj (ap (λ r. r.0) (rw p at e)) in
      let shape : IsDigest d = (len, bytes) in rw same at shape
]

pub scan_keyed_digest-IsDigest :
    (key text digest rest : List ℕ)
    → scan_keyed_digest key text ≡ (done digest, rest)
    → IsDigest digest
unfolding scan_keyed_digest
scan_keyed_digest-IsDigest key text digest rest e = through (scan_word 63) _ e (λ found t1 e1 h1.
    through (scan_word 127) _ h1 (λ word t2 e2 h2.
      let (good, h3) = through_require (text_eq found key) err_format _ h2 in
      decoded-IsDigest word digest _ h3))

-- The checks of the header cut the source.
pub header-IsCut :
    (s : Summary)
    → s.source_size < 2 ^ 64
    → within_limits s ≡ true
    → chunks_of s.source_size s.chunk_size ≡ s.chunk_count
    → IsCut s
unfolding within_limits
header-IsCut s small limits count =
    let size_ok : 0 < s.source_size = grind arith in
    let some_size : 0 < s.chunk_size = grind arith in
    let size_bound : s.chunk_size ≤ max_chunk_size = grind arith in
    let some_chunk : 0 < s.chunk_count = grind arith in
    let few : s.chunk_count ≤ max_chunks = grind arith in
    let sum = sub64 (add64 s.source_size s.chunk_size) 1 in
    let low : s.chunk_count * s.chunk_size ≤ sum = rw count at (div-mul-le_self sum s.chunk_size) in
    let high : sum < s.chunk_count * s.chunk_size + s.chunk_size =
      rw count at (lt-div-mul-add {a = sum} {b = s.chunk_size} some_size) in
    let one : s.chunk_count * s.chunk_size ≡ (s.chunk_count - 1) * s.chunk_size + s.chunk_size =
      let pred : s.chunk_count ≡ (s.chunk_count - 1) + 1 = omega arith in
      ap (λ k. k * s.chunk_size) pred ∙ omega arith in
    let whole : sum ≡ s.source_size + s.chunk_size - 1 = omega arith in
    record {
      some_chunk = some_chunk;
      few_chunks = few;
      some_size = some_size;
      size_bound = size_bound;
      before_last = omega arith;
      to_last = omega arith;
    }

-- A header that was read.
pub scan_header-IsCut :
    (text : List ℕ) (s : Summary) (rest : List ℕ)
    → scan_header text ≡ (done s, rest)
    → IsCut s × IsDigest s.source_sha256
unfolding scan_header
scan_header-IsCut text s rest e = through (scan_literal magic) _ e (λ u t1 e1 h1.
    through (scan_keyed_u64 (codes "source_size")) _ h1 (λ source_size t2 e2 h2.
      through (scan_keyed_u64 (codes "chunk_size")) _ h2 (λ chunk_size t3 e3 h3.
        through (scan_keyed_u64 (codes "chunk_count")) _ h3 (λ chunk_count t4 e4 h4.
          through (scan_keyed_digest (codes "source_sha256")) _ h4 (λ digest t5 e5 h5.
            let (limits, h6) =
              through_require
                (within_limits (record {
                  source_size = source_size;
                  chunk_size = chunk_size;
                  chunk_count = chunk_count;
                  source_sha256 = digest;
                  merkle_root = [];
                }))
                err_format _ h5 in
            let (count, h7) =
              through_require (chunks_of source_size chunk_size == chunk_count) err_format _ h6 in
            let same = (pure-done h7).0 in
            let cut : IsCut (record {
              source_size = source_size;
              chunk_size = chunk_size;
              chunk_count = chunk_count;
              source_sha256 = digest;
              merkle_root = [];
            }) =
              header-IsCut _ (scan_keyed_u64-bound _ t1 source_size t2 e2) limits
                ((==_iff _ _).0 count) in
            let shape = scan_keyed_digest-IsDigest _ t4 digest t5 e5 in
            (rw same at cut, rw (ap (λ x. x.source_sha256) same) at shape))))))

last_test : (a b c : Bool) → (a && b && c) ≡ true → c ≡ true
last_test true true c e = e
last_test true false c e = absurd (false≢true e)
last_test false b c e = absurd (false≢true (first b c e))
  where
    first : (b c : Bool) → (false && b && c) ≡ true → false ≡ true
    first true c e = e
    first false c e = e

-- A record that was read.
scan_chunk-done :
    (s : Summary) (i : ℕ) (text : List ℕ) (chunk : List ℕ × ℕ) (rest : List ℕ)
    → scan_chunk s i text ≡ (done chunk, rest)
    → IsDigest chunk.0 × (chunk.1 ≡ chunk_length s i)
unfolding scan_chunk
scan_chunk-done s i text chunk rest e = through (scan_word 63) _ e (λ key t1 e1 h1.
    through scan_u64 _ h1 (λ index t2 e2 h2. through scan_u64 _ h2 (λ size t3 e3 h3.
      through (scan_word 127) _ h3 (λ word t4 e4 h4.
        let (good, h5) =
          through_require
            (text_eq key (codes "chunk") && (index == i) && (size == chunk_length s i)) err_format _
            h4 in
        through (decoded (hex_decode_32 word)) _ h5 (λ digest t6 e6 h6.
          let same = (pure-done h6).0 in
          let len : size ≡ chunk_length s i =
            (==_iff size _).0 (last_test (text_eq key (codes "chunk")) (index == i) _ good) in
          let shape = decoded-IsDigest word digest _ e6 in
          (rw (ap (λ x. x.0) same) at shape, rw (ap (λ x. x.1) same) at len))))))

cons_at :
    {A : Type 0} (n : ℕ) (a d : A) (xs : List A) (P : A → ℕ → Type 0)
    → P a 0
    → ((j : ℕ) → j < n → P (get_or xs j d) (suc j))
    → (j : ℕ) → j < suc n
    → P (get_or (a ∷ xs) j d) j
cons_at n a d xs P p all zero lt = p
cons_at n a d xs P p all (suc j) lt = all j (omega arith)

pub scan_chunks-done :
    (s : Summary) (rounds i : ℕ) (text : List ℕ) (chunks : List (List ℕ) × List ℕ) (rest : List ℕ)
    → scan_chunks s rounds i text ≡ (done chunks, rest)
    → (length chunks.0 ≡ rounds)
      × (length chunks.1 ≡ rounds)
      × ((j : ℕ) → j < rounds → IsDigest (get_or chunks.0 j []))
      × ((j : ℕ) → j < rounds → get_or chunks.1 j 0 ≡ chunk_length s (i + j))
unfolding scan_chunks
scan_chunks-done s zero i text chunks rest e = (
  ap (λ x. length x.0) (sym (pure-done e).0),
  ap (λ x. length x.1) (sym (pure-done e).0),
  (λ j lt. absurd (omega arith)),
  λ j lt. absurd (omega arith),
)
scan_chunks-done s (suc rounds) i text chunks rest e =
    through (scan_chunk s i) _ e (λ chunk t1 e1 h1.
      through (scan_chunks s rounds (i + 1)) _ h1 (λ others t2 e2 h2.
        let same = (pure-done h2).0 in
        let (shape, len) = scan_chunk-done s i text chunk t1 e1 in
        let (count, count', shapes, lens) = scan_chunks-done s rounds (i + 1) t1 others t2 e2 in
        let shapes' : (j : ℕ) → j < suc rounds → IsDigest (get_or (chunk.0 ∷ others.0) j []) =
          cons_at rounds chunk.0 [] others.0 (λ d j. IsDigest d) shape shapes in
        let lens' : (j : ℕ)
            → j < suc rounds
            → get_or (chunk.1 ∷ others.1) j 0 ≡ chunk_length s (i + j) =
          cons_at rounds chunk.1 0 others.1 (λ n j. n ≡ chunk_length s (i + j))
            (len ∙ ap (chunk_length s) (omega arith))
            (λ j lt. lens j lt ∙ ap (chunk_length s) (omega arith)) in
        (
          ap (λ x. length x.0) (sym same) ∙ ap suc count,
          ap (λ x. length x.1) (sym same) ∙ ap suc count',
          rw (ap (λ x. x.0) same) at shapes',
          rw (ap (λ x. x.1) same) at lens',
        )))
