-- ===== src/Proof/Scan.antt =====
-- What the scanner of src/proof.c reads of a text that was printed: words between blanks, decimal
-- numbers and digests.
use deadflash.Base.{
  ℕ, zero, suc, ◌^◌, ◌≤◌, ◌<◌, ◌≡◌, refl, ◌∙◌, Bool, true, false, not, ◌&&◌, List, [], ◌∷◌, ◌++◌,
  length, get_or, lt→ltb, ◌==◌, arith, All, IsByte, bit_and, shr,
}
use deadflash.Base.Bits.{holds_before, at_value}
use deadflash.Base.Texts.{decimal}
use deadflash.Common.{done, hex_digits, hex_encode}
use deadflash.Common.Numbers.{IsDigit, read_digits-digits, below_19, decimal_head}
use deadflash.Common.Parse.{is_space, is_digit, skip_spaces, read_digits}
use deadflash.Proof.Load.{take_word, scan_word, scan_digits, scan_sign, scan_u64}

-- Whether a text has no blanks.
abbrev pub solid : List ℕ → Bool
solid [] = true
solid (c ∷ text) = not (is_space c) && solid text

solid-head :
    (c : ℕ) (text : List ℕ) → solid (c ∷ text) ≡ true → (is_space c ≡ false) × (solid text ≡ true)
solid-head c text h = ground arith

take_word-word :
    (most : ℕ) (word rest : List ℕ) (c : ℕ)
    → solid word ≡ true
    → length word ≤ most
    → is_space c ≡ true
    → take_word most (word ++ c ∷ rest) ≡ (word, c ∷ rest)
unfolding take_word
take_word-word zero [] rest c s h b = refl
take_word-word zero (d ∷ word) rest c s h b = absurd (omega arith)
take_word-word (suc most) [] rest c s h b = rw (b, take_word) refl
take_word-word (suc most) (d ∷ word) rest c s h b =
    let (p, q) = solid-head d word s in
    rw (p, take_word, take_word-word most word rest c q (omega arith) b) refl

-- A word that is there, with the blank after it left.
pub scan_word-word :
    (most : ℕ) (d : ℕ) (word rest : List ℕ) (c : ℕ)
    → solid (d ∷ word) ≡ true
    → length (d ∷ word) ≤ most
    → is_space c ≡ true
    → scan_word most (d ∷ word ++ c ∷ rest) ≡ (done (d ∷ word), c ∷ rest)
unfolding scan_word skip_spaces
scan_word-word most d word rest c s h b =
    let (p, q) = solid-head d word s in
    rw (p, skip_spaces, take_word-word most (d ∷ word) rest c s h b) refl

-- Blanks in front do not matter.
pub scan_word-blank :
    (most c : ℕ) (text : List ℕ)
    → is_space c ≡ true
    → scan_word most (c ∷ text) ≡ scan_word most text
unfolding scan_word skip_spaces
scan_word-blank most c text b = rw (b, skip_spaces) refl

pub scan_u64-blank :
    (c : ℕ) (text : List ℕ) → is_space c ≡ true → scan_u64 (c ∷ text) ≡ scan_u64 text
unfolding scan_u64 skip_spaces
scan_u64-blank c text b = rw (b, skip_spaces) refl

scan_digits-head :
    (c n : ℕ) (text rest : List ℕ)
    → IsDigit c
    → n < 2 ^ 64
    → read_digits 0 (c ∷ text) ≡ (n, rest)
    → scan_u64 (c ∷ text) ≡ (done n, rest)
unfolding scan_u64 scan_sign scan_digits skip_spaces IsDigit
scan_digits-head c n text rest (low, high) small e =
    let space : is_space c ≡ false = grind arith in
    let plus : (c == b'+') ≡ false = grind arith in
    let minus : (c == b'-') ≡ false = grind arith in
    let digit : is_digit c ≡ true = grind arith in
    rw (space, skip_spaces, scan_sign, plus, minus, scan_digits, e, digit, lt→ltb n (2 ^ 64) small)
      refl

-- A number that was printed and is followed by a blank.
pub scan_u64-decimal :
    (n c : ℕ) (rest : List ℕ)
    → n < 2 ^ 64
    → is_space c ≡ true
    → scan_u64 (decimal n ++ c ∷ rest) ≡ (done n, c ∷ rest)
unfolding decimal read_digits
scan_u64-decimal n c rest small b =
    let (d, t, e, digit) = decimal_head n in
    let other : is_digit c ≡ false = grind arith in
    let ends : read_digits n (c ∷ rest) ≡ (n, c ∷ rest) = rw (other, read_digits) refl in
    let read = read_digits-digits 19 n (c ∷ rest) (below_19 n small) ∙ ends in
    rw e (scan_digits-head d n (t ++ c ∷ rest) (c ∷ rest) digit small (rw e at read))

solid_table :
    holds_before
      (λ b.
        not (is_space (get_or hex_digits (shr b 4) 0))
        && not (is_space (get_or hex_digits (bit_and b 0x0f) 0)))
      256
    ≡ true
unfolding holds_before
solid_table = refl

solid_cons :
    (x y : ℕ) (text : List ℕ)
    → (not (is_space x) && not (is_space y)) ≡ true
    → solid text ≡ true
    → solid (x ∷ y ∷ text) ≡ true
solid_cons x y text h k = ground arith

pub solid-hex_encode : (bytes : List ℕ) → All IsByte bytes → solid (hex_encode bytes) ≡ true
unfolding hex_encode
solid-hex_encode [] h = refl
solid-hex_encode (b ∷ bytes) (hb, h) =
    solid_cons (get_or hex_digits (shr b 4) 0) (get_or hex_digits (bit_and b 0x0f) 0)
      (hex_encode bytes) (at_value _ 256 hb solid_table) (solid-hex_encode bytes h)
