-- ===== src/Report/Json.antt =====
-- A reader of JSON strings, by the grammar of RFC 8259, and what it makes of the texts of src/report.c and
-- src/clean.c.
use deadflash.Base.{
  ℕ, zero, suc, ◌+◌, ◌-◌, ◌*◌, ◌/◌, ◌%◌, ◌<◌, ◌≡◌, refl, ap, ◌∙◌, Bool, true, ◌&&◌, Option, none,
  some, List, [], ◌∷◌, ◌++◌, get_or, ltb, leb, ◌==◌, if◌then◌else◌, arith, All,
}
use deadflash.Base.Bits.{holds_before, at_value}
use deadflash.Common.{hex_digits}
use deadflash.Report.{unicode_escape, json_char, clean_json_char, json_rest, json_string}

-- The value of a hexadecimal digit.
hex_value : ℕ → Option ℕ
hex_value c =
    if leb b'0' c && leb c b'9'
    then some (c - b'0')
    else if leb b'a' c && leb c b'f'
    then some (c - b'a' + 10)
    else if leb b'A' c && leb c b'F'
    then some (c - b'A' + 10)
    else none

-- The character that a letter behind a backslash stands for.
letter : ℕ → Option ℕ
letter c =
    if c == b'"'
    then some b'"'
    else if c == b'\\'
    then some b'\\'
    else if c == b'/'
    then some b'/'
    else if c == b'b'
    then some 8
    else if c == b'f'
    then some 12
    else if c == b'n'
    then some 10
    else if c == b'r'
    then some 13
    else if c == b't'
    then some 9
    else none

-- Where in a string the reader is: at a character, behind a backslash, or in a `\u` escape with so many
-- digits to come after the next.
pub data Place : Type 0 where
  plain escaped : Place
  digits : ℕ → ℕ → Place

data Step : Type 0 where
  bad closed : Step
  waits : Place → Step
  emits : ℕ → Step

hex_step : ℕ → ℕ → Option ℕ → Step
hex_step left n none = bad
hex_step zero n (some d) = emits (n * 16 + d)
hex_step (suc left) n (some d) = waits (digits left (n * 16 + d))

escape_step : Option ℕ → Step
escape_step none = bad
escape_step (some c) = emits c

step : Place → ℕ → Step
unfolding hex_step escape_step
step plain c =
    if c == b'"'
    then closed
    else if c == b'\\'
    then waits escaped
    else if ltb c 0x20
    then bad
    else emits c
step escaped c = if c == b'u' then waits (digits 3 0) else escape_step (letter c)
step (digits left n) c = hex_step left n (hex_value c)

abbrev pub with_char : ℕ → Option (List ℕ × List ℕ) → Option (List ℕ × List ℕ)
with_char c none = none
with_char c (some (text, rest)) = some (c ∷ text, rest)

-- The characters up to the closing quote, and what follows it.
pub read_chars : Place → List ℕ → Option (List ℕ × List ℕ)
unfolding step
read_chars place [] = none
read_chars place (c ∷ text) = elim (step place c) [
  | bad ↦ none
  | closed ↦ some ([], text)
  | waits next ↦ read_chars next text
  | emits d ↦ with_char d (read_chars plain text)
]

unfoldable pub read_string : List ℕ → Option (List ℕ × List ℕ)
read_string [] = none
read_string (c ∷ text) = if c == b'"' then read_chars plain text else none

-- A text of C: bytes that are not 0.
abbrev pub IsChar : ℕ → Type 0
IsChar c = (0 < c) × (c < 256)

-- Either writer of characters is read back.
abbrev pub IsRead : (ℕ → List ℕ) → Type 0
IsRead char =
    (c : ℕ) (rest : List ℕ)
    → IsChar c
    → read_chars plain (char c ++ rest) ≡ with_char c (read_chars plain rest)

digit_is : Option ℕ → ℕ → Bool
digit_is none d = Bool.false
digit_is (some a) d = a == d

digit_is→eq : (o : Option ℕ) (d : ℕ) → digit_is o d ≡ true → o ≡ some d
unfolding digit_is
digit_is→eq none d h = cc
digit_is→eq (some a) d h = ground arith

digit_table : holds_before (λ d. digit_is (hex_value (get_or hex_digits d 0)) d) 16 ≡ true
unfolding holds_before digit_is hex_value
digit_table = refl

hex_value-digit : (d : ℕ) → d < 16 → hex_value (get_or hex_digits d 0) ≡ some d
hex_value-digit d h = digit_is→eq _ d (at_value _ 16 h digit_table)

-- One digit of a `\u` escape.
read_digit :
    (left n c d : ℕ) (rest : List ℕ)
    → hex_value c ≡ some d
    → read_chars (digits (suc left) n) (c ∷ rest) ≡ read_chars (digits left (n * 16 + d)) rest
unfolding read_chars step
read_digit left n c d rest e = rw (e, read_chars)

last_digit :
    (n c d : ℕ) (rest : List ℕ)
    → hex_value c ≡ some d
    → read_chars (digits 0 n) (c ∷ rest) ≡ with_char (n * 16 + d) (read_chars plain rest)
unfolding read_chars step
last_digit n c d rest e = rw (e, read_chars)

unicode_escape-read :
    (c : ℕ) (rest : List ℕ)
    → c < 256
    → read_chars plain (unicode_escape c ++ rest) ≡ with_char c (read_chars plain rest)
unfolding read_chars step unicode_escape
unicode_escape-read c rest h =
    let zero_digit : hex_value 48 ≡ some 0 = hex_value-digit 0 (omega arith) in
    let high : hex_value (get_or hex_digits (c / 16) 0) ≡ some (c / 16) =
      hex_value-digit (c / 16) (omega arith) in
    let low : hex_value (get_or hex_digits (c % 16) 0) ≡ some (c % 16) =
      hex_value-digit (c % 16) (omega arith) in
    let value : (((0 * 16 + 0) * 16 + 0) * 16 + c / 16) * 16 + c % 16 ≡ c = omega arith in
    read_digit 2 0 48 0 _ zero_digit
    ∙ read_digit 1 (0 * 16 + 0) 48 0 _ zero_digit
    ∙ read_digit 0 ((0 * 16 + 0) * 16 + 0) _ (c / 16) _ high
    ∙ last_digit (((0 * 16 + 0) * 16 + 0) * 16 + c / 16) _ (c % 16) rest low
    ∙ ap (λ d. with_char d (read_chars plain rest)) value

-- A character behind a backslash, and a plain one.
letter-read :
    (l c : ℕ) (rest : List ℕ)
    → (l == b'u') ≡ Bool.false
    → letter l ≡ some c
    → read_chars plain (b'\\' ∷ l ∷ rest) ≡ with_char c (read_chars plain rest)
unfolding read_chars step
letter-read l c rest e f = rw (e, f, read_chars)

plain-read :
    (c : ℕ) (rest : List ℕ)
    → (c == b'"') ≡ Bool.false
    → (c == b'\\') ≡ Bool.false
    → ltb c 0x20 ≡ Bool.false
    → read_chars plain (c ∷ rest) ≡ with_char c (read_chars plain rest)
unfolding read_chars step
plain-read c rest e f g = rw (e, f, g, read_chars)

pub json_char-IsRead : IsRead json_char
unfolding json_char letter
json_char-IsRead c rest h = ground (
  arith,
  letter-read b'"' c rest,
  letter-read b'\\' c rest,
  letter-read b'b' c rest,
  letter-read b'f' c rest,
  letter-read b'n' c rest,
  letter-read b'r' c rest,
  letter-read b't' c rest,
  unicode_escape-read c rest,
  plain-read c rest,
)

pub read_chars-json_rest :
    (char : ℕ → List ℕ)
    → IsRead char
    → (text rest : List ℕ) → All IsChar text
    → read_chars plain (json_rest char text rest) ≡ some (text, rest)
unfolding read_chars json_rest
read_chars-json_rest char r [] rest h = refl
read_chars-json_rest char r (c ∷ text) rest (hc, h) =
    r c _ hc ∙ ap (with_char c) (read_chars-json_rest char r text rest h)

pub clean_json_char-IsRead : IsRead clean_json_char
unfolding clean_json_char letter
clean_json_char-IsRead c rest h = ground (
  arith,
  letter-read b'"' c rest,
  letter-read b'\\' c rest,
  letter-read b'n' c rest,
  letter-read b'r' c rest,
  letter-read b't' c rest,
  unicode_escape-read c rest,
  plain-read c rest,
)

-- What json_string of src/report.c writes of a text, a reader of JSON strings reads as that text, and it
-- stops where json_string stopped; so does what the json_string of src/clean.c writes. The text is any
-- C string.
read_string-json_string :
    (text rest : List ℕ)
    → All IsChar text
    → (read_string (json_string json_char text rest) ≡ some (text, rest))
      × (read_string (json_string clean_json_char text rest) ≡ some (text, rest))
unfolding json_string read_string
read_string-json_string text rest h = (
  read_chars-json_rest json_char json_char-IsRead text rest h,
  read_chars-json_rest clean_json_char clean_json_char-IsRead text rest h,
)
