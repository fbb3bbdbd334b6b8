-- ===== src/Common/Tests.antt =====
-- Runs of src/common.c, and its theorems at concrete inputs.
use deadflash.Common.Parse.{
  parse_u64, parse_size, strtoull, after_sign, read_number, read_digits, skip_spaces, multiplier,
}
use deadflash.Common.Numbers.{Scales, parse_size-decimal}
use deadflash.Base.Texts.{decimal}
use deadflash.Base.{◌-◌, ◌^◌, ◌<◌}
use deadflash.Base.{◌≡◌, ◌↔◌, refl, true, some, List, ℕ, [], ◌∷◌, replicate, arith}
use deadflash.Common.{constant_time_equal, hex_encode}
use deadflash.Common.Compare.{constant_time_equal_iff}
use deadflash.Common.Hex.{hex_decode_32}

encode_run : hex_encode (0xde ∷ 0x0a ∷ []) ≡ b'd' ∷ b'e' ∷ b'0' ∷ b'a' ∷ []
unfolding hex_encode
encode_run = refl

abbrev digest : List ℕ
digest = 0x1f ∷ replicate 31 0xe2

constant_time_equal_iff_example :
    (constant_time_equal digest (0x1f ∷ replicate 31 0xe3) ≡ true)
    ↔ (digest ≡ 0x1f ∷ replicate 31 0xe3)
constant_time_equal_iff_example =
    constant_time_equal_iff digest (0x1f ∷ replicate 31 0xe3) (omega arith) (omega arith) refl

-- A digest in capitals.
abbrev capitals : List ℕ
capitals = b'F' ∷ b'F' ∷ replicate 62 b'A'

capitals_run : hex_decode_32 capitals ≡ some (0xff ∷ replicate 31 0xaa)
unfolding hex_decode_32
capitals_run = refl

-- "3KiB"
three_kib : parse_size (b'3' ∷ b'K' ∷ b'i' ∷ b'B' ∷ []) ≡ some 3072
unfolding parse_size strtoull after_sign read_number read_digits skip_spaces multiplier
three_kib = refl

-- A blank hides the minus sign: " -1" is read as 2 ^ 64 - 1.
blank_minus : parse_u64 (b' ' ∷ b'-' ∷ b'1' ∷ []) ≡ some (2 ^ 64 - 1)
unfolding parse_u64 strtoull after_sign read_number read_digits skip_spaces
blank_minus = refl

parse_size-decimal_example :
    (64 < 2 ^ 64 → parse_size (decimal 64) ≡ some 64)
    × Scales 64 b'K' 1024
    × Scales 64 b'k' 1024
    × Scales 64 b'M' 1048576
    × Scales 64 b'm' 1048576
    × Scales 64 b'G' 1073741824
    × Scales 64 b'g' 1073741824
    × Scales 64 b'T' 1099511627776
    × Scales 64 b't' 1099511627776
parse_size-decimal_example = parse_size-decimal 64
