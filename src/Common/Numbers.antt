-- ===== src/Common/Numbers.antt =====
-- Numbers that printf wrote are read back by `df_parse_u64` and `df_parse_size`.
use deadflash.Base.{
  ℕ, zero, suc, ◌+◌, ◌-◌, ◌*◌, ◌/◌, ◌%◌, ◌^◌, ◌≤◌, ◌<◌, ◌≡◌, refl, ap, ◌∙◌, true, false, some, List,
  [], ◌∷◌, ◌++◌, ltb, ◌==◌, arith, append_assoc, append-nil, mul64, Bool-cases, inl, inr, ltb→lt,
  lt→ltb, le→ltb,
}
use deadflash.Base.Texts.{digits, decimal}
use native.Mathlib.Nat.{le-div_iff_mul-le, div-le_self}
use deadflash.Common.Parse.{
  is_space, is_digit, skip_spaces, read_digits, read_number, after_sign, strtoull, whole, parse_u64,
  multiplier, scale, parse_size,
}

unfoldable pub IsDigit : ℕ → Type 0
IsDigit c = (48 ≤ c) × (c ≤ 57)

digits_head : (fuel n : ℕ) → (c : ℕ) × (t : List ℕ) × (digits fuel n ≡ c ∷ t) × IsDigit c
unfolding digits IsDigit
digits_head zero n = (48 + n % 10, [], refl, (omega arith, omega arith))
digits_head (suc fuel) n =
    let (c, t, e, d) = digits_head fuel (n / 10) in
    elim (Bool-cases (ltb n 10)) [
      | inl p ↦ (
        48 + n,
        [],
        rw (p, digits) refl,
        (omega (arith, ltb→lt n 10 p), omega (arith, ltb→lt n 10 p)),
      )
      | inr p ↦ (c, t ++ (48 + n % 10) ∷ [], rw (p, digits, e) refl, d)
    ]

read_digits-digit :
    (m d : ℕ) (rest : List ℕ)
    → d < 10
    → read_digits m ((48 + d) ∷ rest) ≡ read_digits (m * 10 + d) rest
unfolding read_digits
read_digits-digit m d rest h =
    let e : is_digit (48 + d) ≡ true = grind arith in
    let v : 48 + d - 48 ≡ d = omega arith in rw (e, read_digits, v) refl

-- The numbers of at most `fuel + 1` digits.
pub below : ℕ → ℕ
below zero = 10
below (suc fuel) = below fuel * 10

pub below_19 : (n : ℕ) → n < 2 ^ 64 → n < below 19
unfolding below
below_19 n h = omega arith

pub read_digits-digits :
    (fuel n : ℕ) (rest : List ℕ)
    → n < below fuel
    → read_digits 0 (digits fuel n ++ rest) ≡ read_digits n rest
unfolding digits below
read_digits-digits zero n rest h =
    let v : 0 * 10 + n % 10 ≡ n = omega arith in
    read_digits-digit 0 (n % 10) rest (omega arith) ∙ ap (λ m. read_digits m rest) v
read_digits-digits (suc fuel) n rest h = elim (Bool-cases (ltb n 10)) [
  | inl p ↦
      let v : 0 * 10 + n ≡ n = omega arith in
      rw (p, digits) (read_digits-digit 0 n rest (ltb→lt n 10 p) ∙ ap (λ m. read_digits m rest) v)
  | inr p ↦
      let v : n / 10 * 10 + n % 10 ≡ n = omega arith in
      rw (p, digits, append_assoc)
        (read_digits-digits fuel (n / 10) ((48 + n % 10) ∷ rest) (omega arith)
          ∙ read_digits-digit (n / 10) (n % 10) rest (omega arith)
          ∙ ap (λ m. read_digits m rest) v)
]

-- A text that starts with a digit has no blanks and no sign in front.
strtoull-digit : (c : ℕ) (text : List ℕ) → IsDigit c → strtoull (c ∷ text) ≡ read_number (c ∷ text)
unfolding IsDigit strtoull skip_spaces after_sign
strtoull-digit c text (low, high) =
    let space : is_space c ≡ false = grind arith in
    let plus : (c == b'+') ≡ false = grind arith in
    let minus : (c == b'-') ≡ false = grind arith in
    rw (space, skip_spaces, after_sign, plus, minus) refl

read_number-digits :
    (c n : ℕ) (text rest : List ℕ)
    → IsDigit c
    → n < 2 ^ 64
    → read_digits 0 (c ∷ text) ≡ (n, rest)
    → read_number (c ∷ text) ≡ some (n, rest)
unfolding IsDigit read_number
read_number-digits c n text rest (low, high) small e =
    let digit : is_digit c ≡ true = grind arith in
    rw (e, read_number, digit, lt→ltb n (2 ^ 64) small) refl

strtoull-decimal :
    (n : ℕ) (rest : List ℕ)
    → n < 2 ^ 64
    → read_digits n rest ≡ (n, rest)
    → strtoull (decimal n ++ rest) ≡ some (n, rest)
unfolding decimal
strtoull-decimal n rest small ends =
    let (c, t, e, d) = digits_head 19 n in
    let read = read_digits-digits 19 n rest (below_19 n small) ∙ ends in
    rw e (
      strtoull-digit c (t ++ rest) d
      ∙ read_number-digits c n (t ++ rest) rest d small (rw e at read))

pub decimal_head : (n : ℕ) → (c : ℕ) × (t : List ℕ) × (decimal n ≡ c ∷ t) × IsDigit c
unfolding decimal
decimal_head n = digits_head 19 n

parse_u64-digit :
    (c : ℕ) (text : List ℕ) → IsDigit c → parse_u64 (c ∷ text) ≡ whole (strtoull (c ∷ text))
unfolding parse_u64 IsDigit
parse_u64-digit c text (low, high) =
    let minus : (c == b'-') ≡ false = grind arith in rw (minus, parse_u64) refl

read_digits-nil : (n : ℕ) → read_digits n [] ≡ (n, [])
unfolding read_digits
read_digits-nil n = refl

-- `df_parse_u64` reads back a 64-bit number that was printed in decimal.
parse_u64-decimal : (n : ℕ) → n < 2 ^ 64 → parse_u64 (decimal n) ≡ some n
parse_u64-decimal n small =
    let (c, t, e, d) = decimal_head n in
    let printed = strtoull-decimal n [] small (read_digits-nil n) in
    let read = rw (append-nil, e) at printed in rw e (parse_u64-digit c t d ∙ ap whole read)

parse_size-digit :
    (c n : ℕ) (text rest : List ℕ)
    → IsDigit c
    → strtoull (c ∷ text) ≡ some (n, rest)
    → parse_size (c ∷ text) ≡ scale n (multiplier (skip_spaces rest))
unfolding parse_size IsDigit
parse_size-digit c n text rest (low, high) e =
    let minus : (c == b'-') ≡ false = grind arith in rw (minus, parse_size, e) refl

scale-fits : (n m : ℕ) → 0 < m → n * m < 2 ^ 64 → scale n (some m) ≡ some (n * m)
scale-fits n m h fits =
    let bound : n * m ≤ 2 ^ 64 - 1 = omega arith in
    let quotient : n ≤ (2 ^ 64 - 1) / m = (le-div_iff_mul-le h).1 bound in
    let kept : mul64 n m ≡ n * m = mod_small (n * m) fits in
    rw (le→ltb ((2 ^ 64 - 1) / m) n quotient, kept) refl
  where
    mod_small : (a : ℕ) → a < 2 ^ 64 → a % 2 ^ 64 ≡ a
    mod_small a h = omega arith

-- A number and a unit of a known factor.
parse_size-unit :
    (n m u : ℕ) (unit : List ℕ)
    → is_digit u ≡ false
    → is_space u ≡ false
    → multiplier (u ∷ unit) ≡ some m
    → 0 < m
    → n * m < 2 ^ 64
    → parse_size (decimal n ++ u ∷ unit) ≡ some (n * m)
unfolding skip_spaces read_digits
parse_size-unit n m u unit digit space factor positive fits =
    let (c, t, e, d) = decimal_head n in
    let small : n < 2 ^ 64 = smaller n m positive fits in
    let ends : read_digits n (u ∷ unit) ≡ (n, u ∷ unit) = rw (digit, read_digits) refl in
    let printed = strtoull-decimal n (u ∷ unit) small ends in
    let read = rw e at printed in
    let blank : skip_spaces (u ∷ unit) ≡ u ∷ unit = rw (space, skip_spaces) refl in
    rw e (
      parse_size-digit c n (t ++ u ∷ unit) (u ∷ unit) d read
      ∙ ap (λ r. scale n (multiplier r)) blank
      ∙ ap (scale n) factor
      ∙ scale-fits n m positive fits)
  where
    smaller : (n m : ℕ) → 0 < m → n * m < 2 ^ 64 → n < 2 ^ 64
    smaller n m h fits =
        let bound : n * m ≤ 2 ^ 64 - 1 = omega arith in
        let quotient : n ≤ (2 ^ 64 - 1) / m = (le-div_iff_mul-le h).1 bound in
        omega (arith, div-le_self (2 ^ 64 - 1) m)

-- A letter after a printed number multiplies it, whether or not an i, a B or both follow.
abbrev pub Scales : ℕ → ℕ → ℕ → Type 0
Scales n letter factor =
    n * factor < 2 ^ 64
    → (parse_size (decimal n ++ letter ∷ []) ≡ some (n * factor))
      × (parse_size (decimal n ++ letter ∷ b'i' ∷ []) ≡ some (n * factor))
      × (parse_size (decimal n ++ letter ∷ b'B' ∷ []) ≡ some (n * factor))
      × (parse_size (decimal n ++ letter ∷ b'i' ∷ b'B' ∷ []) ≡ some (n * factor))

scales :
    (n letter factor : ℕ)
    → is_digit letter ≡ false
    → is_space letter ≡ false
    → 0 < factor
    → (multiplier (letter ∷ []) ≡ some factor)
      × (multiplier (letter ∷ b'i' ∷ []) ≡ some factor)
      × (multiplier (letter ∷ b'B' ∷ []) ≡ some factor)
      × (multiplier (letter ∷ b'i' ∷ b'B' ∷ []) ≡ some factor)
    → Scales n letter factor
scales n letter factor digit space some_factor (a, b, c, d) fits = (
  parse_size-unit n factor letter [] digit space a some_factor fits,
  parse_size-unit n factor letter (b'i' ∷ []) digit space b some_factor fits,
  parse_size-unit n factor letter (b'B' ∷ []) digit space c some_factor fits,
  parse_size-unit n factor letter (b'i' ∷ b'B' ∷ []) digit space d some_factor fits,
)

parse_size-plain : (n : ℕ) → n < 2 ^ 64 → parse_size (decimal n) ≡ some n
unfolding skip_spaces multiplier
parse_size-plain n small =
    let (c, t, e, d) = decimal_head n in
    let printed = strtoull-decimal n [] small (read_digits-nil n) in
    let read = rw (append-nil, e) at printed in
    rw e (
      parse_size-digit c n t [] d read
      ∙ scale-fits n 1 (omega arith) (omega arith)
      ∙ ap some (omega arith))

-- `df_parse_size` reads a number that was printed in decimal as that number, where it fits 64 bits, and
-- with K, M, G or T behind it, in either case, as the number times 1024, 1024 ^ 2, 1024 ^ 3 or
-- 1024 ^ 4, where the product fits 64 bits, also if i, B or iB follows the letter.
pub parse_size-decimal :
    (n : ℕ)
    → (n < 2 ^ 64 → parse_size (decimal n) ≡ some n)
      × Scales n b'K' 1024
      × Scales n b'k' 1024
      × Scales n b'M' 1048576
      × Scales n b'm' 1048576
      × Scales n b'G' 1073741824
      × Scales n b'g' 1073741824
      × Scales n b'T' 1099511627776
      × Scales n b't' 1099511627776
unfolding skip_spaces multiplier
parse_size-decimal n = (
  parse_size-plain n,
  scales n b'K' 1024 refl refl (omega arith) (refl, refl, refl, refl),
  scales n b'k' 1024 refl refl (omega arith) (refl, refl, refl, refl),
  scales n b'M' 1048576 refl refl (omega arith) (refl, refl, refl, refl),
  scales n b'm' 1048576 refl refl (omega arith) (refl, refl, refl, refl),
  scales n b'G' 1073741824 refl refl (omega arith) (refl, refl, refl, refl),
  scales n b'g' 1073741824 refl refl (omega arith) (refl, refl, refl, refl),
  scales n b'T' 1099511627776 refl refl (omega arith) (refl, refl, refl, refl),
  scales n b't' 1099511627776 refl refl (omega arith) (refl, refl, refl, refl),
)
