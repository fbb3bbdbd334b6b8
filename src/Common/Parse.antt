-- ===== src/Common/Parse.antt =====
-- `df_parse_u64` and `df_parse_size` of src/common.c. A text has no NUL; what strtoull reads follows
-- the C standard, in base 10.
use deadflash.Base.{
  ℕ, ◌+◌, ◌-◌, ◌*◌, ◌/◌, ◌%◌, ◌^◌, Bool, not, ◌&&◌, ◌||◌, Option, none, some, List, [], ◌∷◌, ltb,
  leb, ◌==◌, if◌then◌else◌, mul64,
}

-- isspace in the C locale
abbrev pub is_space : ℕ → Bool
is_space c = (c == 32) || (leb 9 c && leb c 13)

abbrev pub is_digit : ℕ → Bool
is_digit c = leb 48 c && leb c 57

unfoldable pub skip_spaces : List ℕ → List ℕ
skip_spaces [] = []
skip_spaces (c ∷ text) = if is_space c then skip_spaces text else c ∷ text

-- The number that the leading digits continue, and what follows them.
unfoldable pub read_digits : ℕ → List ℕ → ℕ × List ℕ
read_digits n [] = (n, [])
read_digits n (c ∷ text) = elim (is_digit c) [
  | Bool.true ↦ read_digits (n * 10 + (c - 48)) text
  | Bool.false ↦ (n, c ∷ text)
]

-- The digits, where there is one; a number beyond 64 bits sets errno.
unfoldable pub read_number : List ℕ → Option (ℕ × List ℕ)
unfolding read_digits
read_number [] = none
read_number (c ∷ text) =
    let (n, rest) = read_digits 0 (c ∷ text) in
    if not (is_digit c) then none else if ltb n (2 ^ 64) then some (n, rest) else none

unfoldable pub after_sign : List ℕ → Option (ℕ × List ℕ)
unfolding read_number
after_sign [] = none
after_sign (c ∷ text) =
    if c == b'+'
    then read_number text
    else if c == b'-'
    then (elim (read_number text) [
      | none ↦ none
      | some (n, rest) ↦ some ((2 ^ 64 - n) % 2 ^ 64, rest)
    ])
    else read_number (c ∷ text)

-- `none` for errno set or no digits
unfoldable pub strtoull : List ℕ → Option (ℕ × List ℕ)
unfolding skip_spaces after_sign
strtoull text = after_sign (skip_spaces text)

-- A result that is followed by nothing.
abbrev pub whole : Option (ℕ × List ℕ) → Option ℕ
whole none = none
whole (some (n, [])) = some n
whole (some (n, c ∷ rest)) = none

unfoldable pub parse_u64 : List ℕ → Option ℕ
unfolding strtoull
parse_u64 [] = none
parse_u64 (c ∷ text) = if c == b'-' then none else whole (strtoull (c ∷ text))

-- toupper
abbrev pub to_upper : ℕ → ℕ
to_upper c = if leb b'a' c && leb c b'z' then c - 32 else c

abbrev pub skip_letter : ℕ → ℕ → List ℕ → List ℕ
skip_letter lower upper [] = []
skip_letter lower upper (c ∷ text) = if (c == lower) || (c == upper) then text else c ∷ text

-- The factor of a unit, which may be followed by i, by b and by blanks.
unfoldable pub multiplier : List ℕ → Option ℕ
unfolding skip_spaces
multiplier [] = some 1
multiplier (c ∷ text) =
    let unit = to_upper c in
    elim (skip_spaces (skip_letter b'b' b'B' (skip_letter b'i' b'I' text))) [
      | _ ∷ _ ↦ none
      | [] ↦
          if unit == b'K'
          then some 1024
          else if unit == b'M'
          then some (1024 * 1024)
          else if unit == b'G'
          then some (1024 * 1024 * 1024)
          else if unit == b'T'
          then some (1024 * 1024 * 1024 * 1024)
          else none
    ]

abbrev pub scale : ℕ → Option ℕ → Option ℕ
scale n none = none
scale n (some m) = if ltb ((2 ^ 64 - 1) / m) n then none else some (mul64 n m)

unfoldable pub parse_size : List ℕ → Option ℕ
unfolding strtoull multiplier
parse_size [] = none
parse_size (c ∷ text) = if c == b'-' then none else elim (strtoull (c ∷ text)) [
  | none ↦ none
  | some (n, rest) ↦ scale n (multiplier (skip_spaces rest))
]
