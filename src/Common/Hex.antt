-- ===== src/Common/Hex.antt =====
-- `hex_nibble` and `hex_decode_32` of src/proof.c read back what `df_hex_encode` of src/common.c
-- writes.
use deadflash.Base.{
  ℕ, ◌+◌, ◌-◌, ◌*◌, ◌%◌, ◌<◌, ◌≡◌, refl, Bool, true, false, ◌&&◌, Option, none, some, List, [], ◌∷◌,
  arith, leb, ◌==◌, ==_iff, if◌then◌else◌, length, get_or, All, IsByte, bit_and, bit_or, shr,
}
use deadflash.Base.{zero, suc, inl, inr, Bool-cases, Option-cases, sym, ap, none≢some, some_inj}
use deadflash.Base.Bits.{holds_before, at_value}
use deadflash.Common.{hex_digits, hex_encode}

-- -1 is `none`.
pub hex_nibble : ℕ → Option ℕ
hex_nibble c =
    if leb b'0' c && leb c b'9'
    then some (c - b'0')
    else if leb b'a' c && leb c b'f'
    then some (c - b'a' + 10)
    else if leb b'A' c && leb c b'F'
    then some (c - b'A' + 10)
    else none

-- The byte of two digits, unless one is no digit.
pub hex_byte : ℕ → ℕ → Option ℕ
unfolding hex_nibble
hex_byte h l = elim (hex_nibble h) [
  | none ↦ none
  | some high ↦ elim (hex_nibble l) [ none ↦ none | some low ↦ some (bit_or (high * 16) low % 256) ]
]

-- The loop of `hex_decode_32`, which reads two digits a round.
pub hex_decode_loop : List ℕ → Option (List ℕ)
hex_decode_loop [] = some []
hex_decode_loop (h ∷ []) = some []
hex_decode_loop (h ∷ l ∷ text) = elim (hex_byte h l) [
  | none ↦ none
  | some b ↦ elim (hex_decode_loop text) [ none ↦ none | some bytes ↦ some (b ∷ bytes) ]
]

unfoldable pub hex_decode_32 : List ℕ → Option (List ℕ)
unfolding hex_decode_loop hex_byte
hex_decode_32 text = if length text == 64 then hex_decode_loop text else none

option_is : Option ℕ → ℕ → Bool
option_is none b = false
option_is (some a) b = a == b

option_is→eq : (o : Option ℕ) (b : ℕ) → option_is o b ≡ true → o ≡ some b
unfolding option_is
option_is→eq none b h = ground arith
option_is→eq (some a) b h = ground arith

byte_table :
    holds_before
      (λ b.
        option_is
          (hex_byte (get_or hex_digits (shr b 4) 0) (get_or hex_digits (bit_and b 0x0f) 0))
          b)
      256
    ≡ true
unfolding holds_before option_is hex_byte
byte_table = refl

hex_byte-digits :
    (b : ℕ)
    → b < 256
    → hex_byte (get_or hex_digits (shr b 4) 0) (get_or hex_digits (bit_and b 0x0f) 0) ≡ some b
hex_byte-digits b h = option_is→eq _ b (at_value _ 256 h byte_table)

hex_decode_loop-encode :
    (bytes : List ℕ) → All IsByte bytes → hex_decode_loop (hex_encode bytes) ≡ some bytes
unfolding hex_decode_loop hex_encode
hex_decode_loop-encode [] h = refl
hex_decode_loop-encode (b ∷ bytes) (hb, h) =
    ground (arith, hex_byte-digits b hb, hex_decode_loop-encode bytes h)

pub length-hex_encode : (bytes : List ℕ) → length (hex_encode bytes) ≡ 2 * length bytes
unfolding hex_encode
length-hex_encode [] = refl
length-hex_encode (b ∷ bytes) = omega (arith, length-hex_encode bytes)

-- The text that `df_hex_encode` writes of a digest of 32 bytes decodes to the digest.
pub hex_decode_32-hex_encode :
    (digest : List ℕ)
    → All IsByte digest
    → length digest ≡ 32
    → hex_decode_32 (hex_encode digest) ≡ some digest
unfolding hex_decode_32
hex_decode_32-hex_encode digest h e = rw (
  (==_iff (length (hex_encode digest)) 64).1 (omega (arith, length-hex_encode digest)),
  hex_decode_loop-encode digest h,
)

hex_byte-IsByte : (h l : ℕ) {b : ℕ} → hex_byte h l ≡ some b → b < 256
unfolding hex_byte
hex_byte-IsByte h l e = ground arith

-- The cases of two digits and the rest.
hex_pair :
    (h l : ℕ) (text bytes : List ℕ)
    → hex_decode_loop (h ∷ l ∷ text) ≡ some bytes
    → (b : ℕ) × (rest : List ℕ) × (b < 256)
      × (hex_decode_loop text ≡ some rest)
      × (bytes ≡ b ∷ rest)
unfolding hex_decode_loop
hex_pair h l text bytes e = elim (Option-cases (hex_byte h l)) [
  | inl p ↦ absurd (none≢some (rw (p, hex_decode_loop) at e))
  | inr (b, p) ↦ elim (Option-cases (hex_decode_loop text)) [
    | inl q ↦ absurd (none≢some (rw (p, hex_decode_loop, q, hex_decode_loop) at e))
    | inr (rest, q) ↦ (
      b,
      rest,
      hex_byte-IsByte h l p,
      q,
      sym (some_inj (rw (p, hex_decode_loop, q, hex_decode_loop) at e)),
    )
  ]
]

hex_decode_loop-bytes :
    (n : ℕ) (text bytes : List ℕ)
    → length text ≡ 2 * n
    → hex_decode_loop text ≡ some bytes
    → (length bytes ≡ n) × All IsByte bytes
hex_decode_loop-bytes n [] bytes e h =
    let p : [] ≡ bytes = unfold hex_decode_loop in some_inj h in rw (← p) (omega arith, tt)
hex_decode_loop-bytes n (x ∷ []) bytes e h = absurd (omega arith)
hex_decode_loop-bytes zero (x ∷ l ∷ text) bytes e h = absurd (omega arith)
hex_decode_loop-bytes (suc n) (x ∷ l ∷ text) bytes e h =
    let (b, rest, hb, q, p) = hex_pair x l text bytes h in
    let ih = hex_decode_loop-bytes n text rest (omega arith) q in rw p (ap suc ih.0, (hb, ih.1))

-- Whatever decodes has 64 characters, and decodes to 32 bytes.
pub hex_decode_32_shape :
    (text digest : List ℕ)
    → hex_decode_32 text ≡ some digest
    → (length text ≡ 64) × (length digest ≡ 32) × All IsByte digest
unfolding hex_decode_32
hex_decode_32_shape text digest h = elim (Bool-cases (length text == 64)) [
  | inl p ↦
      let e : length text ≡ 64 = (==_iff _ 64).0 p in
      let ih = hex_decode_loop-bytes 32 text digest e (rw p at h) in (e, ih.0, ih.1)
  | inr p ↦ absurd (none≢some (rw p at h))
]
