-- ===== src/Proof/Printed.antt =====
-- The scanner of src/proof.c reads back each part of a manifest that `df_proof_create` printed.
use deadflash.Base.{
  ℕ, zero, suc, ◌+◌, ◌-◌, ◌*◌, ◌^◌, ◌≤◌, ◌<◌, ◌≡◌, refl, ap, ◌∙◌, Bool, true, false, ◌&&◌, List, [],
  ◌∷◌, ◌++◌, length, get_or, drop, ltb, ltb→lt, ◌==◌, ==_iff, Bool-cases, inl, inr, arith, add64,
  sub64,
}
use native.Mathlib.Nat.{div-eq_of_lt-le}
use deadflash.Base.Texts.{codes, decimal, text_eq, text_eq_self}
use deadflash.Common.{done, hex_encode}
use deadflash.Common.Hex.{hex_decode_32, hex_decode_32-hex_encode, length-hex_encode}
use deadflash.Common.Monad.{then_done, then_same}
use deadflash.Common.Parse.{is_space}
use deadflash.Proof.{Summary, max_chunks, max_chunk_size}
use deadflash.Proof.Load.{
  scan_word, require, decoded, scan_keyed_u64, scan_keyed_digest, scan_literal, magic,
  within_limits, chunks_of, scan_header, chunk_length, scan_chunk, scan_chunks, scan_footer,
}
use deadflash.Proof.Print.{keyed, header_text, chunk_text, chunks_text, footer_text}
use deadflash.Proof.Scan.{
  solid, scan_word-word, scan_word-blank, scan_u64-blank, scan_u64-decimal, solid-hex_encode,
}
use deadflash.Proof.Sound.{IsCut, IsDigest, source_size_bound}

-- A word that fits a buffer.
abbrev pub is_word : ℕ → List ℕ → Bool
is_word most [] = false
is_word most (c ∷ word) = solid (c ∷ word) && ltb (length (c ∷ word)) (most + 1)

pub scan_word-is_word :
    (most : ℕ) (word rest : List ℕ) (c : ℕ)
    → is_word most word ≡ true
    → is_space c ≡ true
    → scan_word most (word ++ c ∷ rest) ≡ (done word, c ∷ rest)
scan_word-is_word most [] rest c h b = cc
scan_word-is_word most (d ∷ word) rest c h b =
    let (s, l) = parts (solid (d ∷ word)) (ltb (length (d ∷ word)) (most + 1)) h in
    scan_word-word most d word rest c s (omega (arith, ltb→lt _ _ l)) b
  where
    parts : (a b : Bool) → (a && b) ≡ true → (a ≡ true) × (b ≡ true)
    parts true b h = (refl, h)
    parts false b h = cc

pub require-true : {S : Type 0} (c : Bool) (s : S) → c ≡ true → require c s ≡ (done tt, s)
require-true c s h = rw h refl

scan_keyed_u64-keyed :
    (key : List ℕ) (n : ℕ) (rest : List ℕ)
    → is_word 63 key ≡ true
    → n < 2 ^ 64
    → scan_keyed_u64 key (keyed key (decimal n) rest) ≡ (done n, b'\n' ∷ rest)
unfolding scan_keyed_u64 keyed
scan_keyed_u64-keyed key n rest word small =
    then_done _ _ (scan_word-is_word 63 key (decimal n ++ b'\n' ∷ rest) b' ' word refl) (
      then_done _ _
        (scan_u64-blank b' ' (decimal n ++ b'\n' ∷ rest) refl
          ∙ scan_u64-decimal n b'\n' rest small refl)
        (then_done _ _ (require-true (text_eq key key) (b'\n' ∷ rest) (text_eq_self key)) refl))

hex_encode-is_word : (digest : List ℕ) → IsDigest digest → is_word 127 (hex_encode digest) ≡ true
hex_encode-is_word digest (len, bytes) =
    fits (hex_encode digest) (omega (arith, length-hex_encode digest))
      (solid-hex_encode digest bytes)
  where
    fits : (text : List ℕ) → length text ≡ 64 → solid text ≡ true → is_word 127 text ≡ true
    fits [] l s = absurd (omega arith)
    fits (c ∷ text) l s = rw s (grind arith)

scan_word-digest :
    (digest rest : List ℕ)
    → IsDigest digest
    → scan_word 127 (b' ' ∷ (hex_encode digest ++ b'\n' ∷ rest))
      ≡ (done (hex_encode digest), b'\n' ∷ rest)
scan_word-digest digest rest shape =
    scan_word-blank 127 b' ' (hex_encode digest ++ b'\n' ∷ rest) refl
    ∙ scan_word-is_word 127 (hex_encode digest) rest b'\n' (hex_encode-is_word digest shape) refl

decoded-digest :
    {S : Type 0} (digest : List ℕ) (s : S)
    → IsDigest digest
    → decoded (hex_decode_32 (hex_encode digest)) s ≡ (done digest, s)
decoded-digest digest s shape = rw (hex_decode_32-hex_encode digest shape.1 shape.0) refl

scan_keyed_digest-keyed :
    (key digest rest : List ℕ)
    → is_word 63 key ≡ true
    → IsDigest digest
    → scan_keyed_digest key (keyed key (hex_encode digest) rest) ≡ (done digest, b'\n' ∷ rest)
unfolding scan_keyed_digest keyed
scan_keyed_digest-keyed key digest rest word shape =
    then_done _ _ (scan_word-is_word 63 key (hex_encode digest ++ b'\n' ∷ rest) b' ' word refl) (
      then_done _ _ (scan_word-digest digest rest shape) (
        then_done _ _ (require-true (text_eq key key) (b'\n' ∷ rest) (text_eq_self key))
          (decoded-digest digest (b'\n' ∷ rest) shape)))

scan_literal-word :
    (word rest : List ℕ)
    → is_word 63 word ≡ true
    → scan_literal word (word ++ b'\n' ∷ rest) ≡ (done tt, b'\n' ∷ rest)
scan_literal-word word rest h =
    then_done _ _ (scan_word-is_word 63 word rest b'\n' h refl)
      (require-true (text_eq word word) (b'\n' ∷ rest) (text_eq_self word))

-- The end of a line in front does not matter.
module _ (text : List ℕ) where
  scan_keyed_u64-line : (key : List ℕ) → scan_keyed_u64 key (b'\n' ∷ text) ≡ scan_keyed_u64 key text
  unfolding scan_keyed_u64
  scan_keyed_u64-line key = then_same _ _ (scan_word-blank 63 b'\n' text refl) refl

  scan_keyed_digest-line :
      (key : List ℕ) → scan_keyed_digest key (b'\n' ∷ text) ≡ scan_keyed_digest key text
  unfolding scan_keyed_digest
  scan_keyed_digest-line key = then_same _ _ (scan_word-blank 63 b'\n' text refl) refl

  scan_literal-line : (word : List ℕ) → scan_literal word (b'\n' ∷ text) ≡ scan_literal word text
  scan_literal-line word = then_same _ _ (scan_word-blank 63 b'\n' text refl) refl

pub limits_hold :
    (s : Summary)
    → 0 < s.source_size
    → 0 < s.chunk_size
    → s.chunk_size ≤ max_chunk_size
    → 0 < s.chunk_count
    → s.chunk_count ≤ max_chunks
    → within_limits s ≡ true
unfolding within_limits
limits_hold s a b c d e = grind arith

drop_end : {A : Type 0} (i : ℕ) (xs : List A) → length xs ≤ i → drop i xs ≡ []
drop_end zero [] h = refl
drop_end (suc i) [] h = refl
drop_end zero (x ∷ xs) h = absurd (omega arith)
drop_end (suc i) (x ∷ xs) h = drop_end i xs (omega arith)

drop-suc :
    {A : Type 0} (i : ℕ) (xs : List A) (d : A)
    → i < length xs
    → drop i xs ≡ get_or xs i d ∷ drop (suc i) xs
drop-suc i [] d h = absurd (omega arith)
drop-suc zero (x ∷ xs) d h = refl
drop-suc (suc i) (x ∷ xs) d h = drop-suc i xs d (omega arith)

drop_here :
    {A : Type 0} (i : ℕ) (xs : List A) (d : A)
    → i < length xs
    → drop i xs ≡ get_or xs i d ∷ drop (i + 1) xs
drop_here i xs d h =
    let next : suc i ≡ i + 1 = omega arith in
    drop-suc i xs d h ∙ ap (λ k. get_or xs i d ∷ drop k xs) next

module _ (s : Summary) (cut : IsCut s) where
  IsCut-chunks_of : chunks_of s.source_size s.chunk_size ≡ s.chunk_count
  IsCut-chunks_of =
      let sum = sub64 (add64 s.source_size s.chunk_size) 1 in
      let pred : s.chunk_count ≡ (s.chunk_count - 1) + 1 = omega (arith, cut.some_chunk) in
      let product = ap (λ k. k * s.chunk_size) pred in
      let small = source_size_bound s cut in
      let whole : sum ≡ s.source_size + s.chunk_size - 1 =
        omega (arith, small, cut.size_bound, cut.some_size) in
      div-eq_of_lt-le s.chunk_size (omega (arith, whole, product, cut.before_last))
        (omega (arith, whole, cut.to_last, cut.some_size))

  chunk_length-bound : (i : ℕ) → chunk_length s i < 2 ^ 64
  unfolding chunk_length
  chunk_length-bound i = elim (Bool-cases (i + 1 == s.chunk_count)) [
    | inl p ↦ rw (p, chunk_length) (omega arith)
    | inr p ↦ rw (p, chunk_length) (omega (arith, cut.size_bound))
  ]

  IsCut-within_limits : within_limits s ≡ true
  IsCut-within_limits =
      limits_hold s (omega (arith, cut.before_last)) cut.some_size cut.size_bound cut.some_chunk
        cut.few_chunks

  pub scan_header-header_text :
      (rest : List ℕ)
      → s.source_size < 2 ^ 64
      → IsDigest s.source_sha256
      → scan_header (header_text s rest) ≡ (done (record s { merkle_root = [] }), b'\n' ∷ rest)
  unfolding scan_header header_text within_limits
  scan_header-header_text rest small digest = then_done _ _ (scan_literal-word magic _ refl) (
      then_done _ _
        (scan_keyed_u64-line _ _
          ∙ scan_keyed_u64-keyed (codes "source_size") s.source_size _ refl small)
        (then_done _ _
          (scan_keyed_u64-line _ _
            ∙ scan_keyed_u64-keyed (codes "chunk_size") s.chunk_size _ refl
                (omega (arith, cut.size_bound)))
          (then_done _ _
            (scan_keyed_u64-line _ _
              ∙ scan_keyed_u64-keyed (codes "chunk_count") s.chunk_count _ refl
                  (omega (arith, cut.few_chunks)))
            (then_done _ _
              (scan_keyed_digest-line _ _
                ∙ scan_keyed_digest-keyed (codes "source_sha256") s.source_sha256 rest refl digest)
              (then_done _ _ (require-true _ _ IsCut-within_limits)
                (then_done _ _ (require-true _ _ ((==_iff _ _).1 IsCut-chunks_of)) refl))))))

  pub scan_chunk-chunk_text :
      (i : ℕ) (hash rest : List ℕ)
      → i < s.chunk_count
      → IsDigest hash
      → scan_chunk s i (b'\n' ∷ chunk_text s i hash rest)
        ≡ (done (hash, chunk_length s i), b'\n' ∷ rest)
  unfolding scan_chunk chunk_text
  scan_chunk-chunk_text i hash rest h shape =
      let len = chunk_length s i in
      let last = b' ' ∷ (hex_encode hash ++ b'\n' ∷ rest) in
      let middle = b' ' ∷ (decimal len ++ last) in
      then_done _ _
        (scan_word-blank 63 b'\n' (codes "chunk" ++ b' ' ∷ (decimal i ++ middle)) refl
          ∙ scan_word-is_word 63 (codes "chunk") (decimal i ++ middle) b' ' refl refl)
        (then_done _ _
          (scan_u64-blank b' ' (decimal i ++ middle) refl
            ∙ scan_u64-decimal i b' ' (decimal len ++ last) (omega (arith, cut.few_chunks)) refl)
          (then_done _ _
            (scan_u64-blank b' ' (decimal len ++ last) refl
              ∙ scan_u64-decimal len b' ' (hex_encode hash ++ b'\n' ∷ rest) (chunk_length-bound i)
                  refl)
            (then_done _ _ (scan_word-digest hash rest shape) (
              then_done _ _ (require-true _ _ (fields i len))
                (then_done _ _ (decoded-digest hash (b'\n' ∷ rest) shape) refl)))))
    where
      fields :
          (i len : ℕ) → (text_eq (codes "chunk") (codes "chunk") && (i == i) && (len == len)) ≡ true
      fields i len = rw ((==_iff i i).1 refl, (==_iff len len).1 refl) refl

  pub scan_chunks-chunks_text :
      (hashes : List (List ℕ)) (lengths : List ℕ) (rounds i : ℕ) (rest : List ℕ)
      → i + rounds ≡ s.chunk_count
      → length hashes ≡ s.chunk_count
      → length lengths ≡ s.chunk_count
      → ((j : ℕ) → j < s.chunk_count → IsDigest (get_or hashes j []))
      → ((j : ℕ) → j < s.chunk_count → get_or lengths j 0 ≡ chunk_length s j)
      → scan_chunks s rounds i (b'\n' ∷ chunks_text s hashes rounds i rest)
        ≡ (done (drop i hashes, drop i lengths), b'\n' ∷ rest)
  unfolding scan_chunks chunks_text
  scan_chunks-chunks_text hashes lengths zero i rest whole nh nl shapes lens =
      rw (drop_end i hashes (omega arith), drop_end i lengths (omega arith)) refl
  scan_chunks-chunks_text hashes lengths (suc rounds) i rest whole nh nl shapes lens =
      let here : i < s.chunk_count = omega arith in
      rw (drop_here i hashes [] (omega arith), drop_here i lengths 0 (omega arith), lens i here)
        (then_done _ _ (scan_chunk-chunk_text i _ _ here (shapes i here)) (
          then_done _ _
            (scan_chunks-chunks_text hashes lengths rounds (i + 1) rest (omega arith) nh nl shapes
              lens)
            refl))

  pub scan_footer-footer_text :
      (rest : List ℕ)
      → IsDigest s.merkle_root
      → scan_footer (b'\n' ∷ footer_text s rest) ≡ (done s.merkle_root, b'\n' ∷ rest)
  unfolding scan_footer footer_text
  scan_footer-footer_text rest shape =
      then_done _ _
        (scan_keyed_digest-line _ _
          ∙ scan_keyed_digest-keyed (codes "merkle_root") s.merkle_root _ refl shape)
        (then_done _ _ (scan_literal-line _ _ ∙ scan_literal-word (codes "END") rest refl) refl)
