-- ===== src/Report/Reader.antt =====
-- A reader of JSON objects, which takes the longest run of the characters of a number for a number, and
-- what it makes of the texts of src/report.c and src/clean.c.
pub mod Printed
use deadflash.Base.{
  ℕ, zero, suc, ◌+◌, ◌≤◌, ◌<◌, ◌≡◌, refl, sym, ap, ◌∙◌, Bool, true, false, ◌&&◌, ◌||◌, Option, none,
  some, List, [], ◌∷◌, ◌++◌, ◌==◌, if◌then◌else◌, leb, arith, All, append_assoc,
}
use deadflash.Base.Texts.{codes}
use deadflash.Report.{json_string, json_rest}
use deadflash.Report.Json.{read_string, read_chars, plain, IsChar, IsRead, read_chars-json_rest}
use deadflash.Report.Text.{
  Spacing, in_line, spread, deep, Json, text_value, number, truth, null, object, Fields, last, more,
  blanks, opening_blanks, between_blanks, closing_blanks, print_json, print_fields, truth_text,
}

abbrev is_blank : ℕ → Bool
is_blank c = (c == 32) || (c == 10) || (c == 13) || (c == 9)

skip_blanks : List ℕ → List ℕ
skip_blanks [] = []
skip_blanks (c ∷ text) = let rest = skip_blanks text in if is_blank c then rest else c ∷ text

-- A digit, a sign, a point or the mark of an exponent.
abbrev pub is_number_char : ℕ → Bool
is_number_char c =
    (leb b'0' c && leb c b'9')
    || (c == b'-')
    || (c == b'+')
    || (c == b'.')
    || (c == b'e')
    || (c == b'E')

add_digit : ℕ → List ℕ × List ℕ → List ℕ × List ℕ
add_digit c (digits, rest) = (c ∷ digits, rest)

number_run : List ℕ → List ℕ × List ℕ
unfolding add_digit
number_run [] = ([], [])
number_run (c ∷ text) =
    let more_digits = add_digit c (number_run text) in
    if is_number_char c then more_digits else ([], c ∷ text)

after_char : ℕ → List ℕ → Option (List ℕ)
after_char c [] = none
after_char c (d ∷ text) = if d == c then some text else none

-- What stands behind a word, and the value that the word is.
after_word : List ℕ → Json → List ℕ → Option (Json × List ℕ)
after_word [] v text = some (v, text)
after_word (c ∷ letters) v [] = none
after_word (c ∷ letters) v (d ∷ text) =
    let rest = after_word letters v text in if c == d then rest else none

text_read : Option (List ℕ × List ℕ) → Option (Json × List ℕ)
text_read none = none
text_read (some (text, rest)) = some (text_value text, rest)

object_read : Option (Fields × List ℕ) → Option (Json × List ℕ)
object_read none = none
object_read (some (fields, rest)) = some (object spread fields, rest)

-- A value by its first character; the reader of fields is an argument.
value_by : (List ℕ → Option (Fields × List ℕ)) → List ℕ → Option (Json × List ℕ)
unfolding text_read object_read number_run after_word
value_by fields [] = none
value_by fields (c ∷ text) =
    if c == b'"'
    then text_read (read_chars plain text)
    else if c == b'{'
    then object_read (fields text)
    else if c == b't'
    then after_word (codes "true") (truth true) (c ∷ text)
    else if c == b'f'
    then after_word (codes "false") (truth false) (c ∷ text)
    else if c == b'n'
    then after_word (codes "null") null (c ∷ text)
    else if is_number_char c
    then (let (digits, rest) = number_run (c ∷ text) in some (number digits, rest))
    else none

more_read : List ℕ → Json → Option (Fields × List ℕ) → Option (Fields × List ℕ)
more_read key v none = none
more_read key v (some (fields, rest)) = some (more key v fields, rest)

-- Behind a field: a comma and more fields, or the closing brace.
field_end : (List ℕ → Option (Fields × List ℕ)) → List ℕ → Json → List ℕ → Option (Fields × List ℕ)
unfolding more_read
field_end fields key v [] = none
field_end fields key v (c ∷ text) =
    if c == b','
    then more_read key v (fields text)
    else if c == b'}'
    then some (last key v, text)
    else none

value_read :
    (List ℕ → Option (Fields × List ℕ)) → List ℕ → Option (Json × List ℕ) → Option (Fields × List ℕ)
unfolding field_end skip_blanks
value_read fields key none = none
value_read fields key (some (v, rest)) = field_end fields key v (skip_blanks rest)

colon_read :
    (List ℕ → Option (Json × List ℕ))
    → (List ℕ → Option (Fields × List ℕ))
    → List ℕ
    → Option (List ℕ)
    → Option (Fields × List ℕ)
unfolding value_read
colon_read value fields key none = none
colon_read value fields key (some rest) = value_read fields key (value rest)

key_read :
    (List ℕ → Option (Json × List ℕ))
    → (List ℕ → Option (Fields × List ℕ))
    → Option (List ℕ × List ℕ)
    → Option (Fields × List ℕ)
unfolding colon_read after_char skip_blanks
key_read value fields none = none
key_read value fields (some (key, rest)) =
    colon_read value fields key (after_char b':' (skip_blanks rest))

mutual
  unfolding value_by key_read skip_blanks

  -- The fuel bounds the depth and the number of the fields.
  pub read_json : ℕ → List ℕ → Option (Json × List ℕ)
  read_json zero text = none
  read_json (suc n) text = value_by (read_fields n) (skip_blanks text)

  pub read_fields : ℕ → List ℕ → Option (Fields × List ℕ)
  read_fields zero text = none
  read_fields (suc n) text = key_read (read_json n) (read_fields n) (read_string (skip_blanks text))

unfoldable mutual
  -- A value without its layout.
  pub plain_json : Json → Json
  plain_json (text_value text) = text_value text
  plain_json (number digits) = number digits
  plain_json (truth b) = truth b
  plain_json null = null
  plain_json (object line fields) = object spread (plain_fields fields)

  pub plain_fields : Fields → Fields
  plain_fields (last key v) = last key (plain_json v)
  plain_fields (more key v fields) = more key (plain_json v) (plain_fields fields)

unfoldable mutual
  -- More fuel than this is enough.
  pub size : Json → ℕ
  size (text_value text) = 1
  size (number digits) = 1
  size (truth b) = 1
  size null = 1
  size (object line fields) = suc (field_size fields)

  pub field_size : Fields → ℕ
  field_size (last key v) = suc (size v)
  field_size (more key v fields) = suc (size v + field_size fields)

abbrev pub IsNumber : List ℕ → Type 0
IsNumber [] = ⊥
IsNumber (c ∷ text) = All (λ d. is_number_char d ≡ true) (c ∷ text)

abbrev mutual
  -- Texts are C strings, and numbers are not empty and of the characters of numbers.
  pub IsPrintable : Json → Type 0
  IsPrintable (text_value text) = All IsChar text
  IsPrintable (number digits) = IsNumber digits
  IsPrintable (truth b) = Unit {0}
  IsPrintable null = Unit {0}
  IsPrintable (object line fields) = ArePrintable fields

  pub ArePrintable : Fields → Type 0
  ArePrintable (last key v) = All IsChar key × IsPrintable v
  ArePrintable (more key v fields) = All IsChar key × IsPrintable v × ArePrintable fields
