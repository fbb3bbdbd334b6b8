-- ===== src/Report/Reader/Printed.antt =====
-- The reader undoes the printer of src/report.c and src/clean.c.
use deadflash.Base.{
  ℕ, zero, suc, ◌+◌, ◌≤◌, ◌<◌, ◌≡◌, refl, ap, ◌∙◌, Bool, true, false, Option, some, List, [], ◌∷◌,
  ◌++◌, arith, All,
}
use deadflash.Report.{json_string, json_char, clean_json_char}
use deadflash.Report.Json.{
  read_string, IsChar, IsRead, read_chars-json_rest, json_char-IsRead, clean_json_char-IsRead,
}
use deadflash.Report.Reader.{
  skip_blanks, is_blank, is_number_char, number_run, add_digit, after_char, after_word, value_by,
  text_read, object_read, field_end, more_read, value_read, colon_read, key_read, read_json,
  read_fields, plain_json, plain_fields, size, field_size, IsPrintable, ArePrintable, IsNumber,
}
use deadflash.Report.Text.{
  Spacing, in_line, spread, deep, Json, text_value, number, truth, null, object, Fields, last, more,
  blanks, opening_blanks, between_blanks, closing_blanks, print_json, print_fields,
}

-- A number ends in front of this.
abbrev pub IsEnd : List ℕ → Type 0
IsEnd [] = Unit {0}
IsEnd (c ∷ text) = is_number_char c ≡ false

number_run-append :
    (digits rest : List ℕ)
    → All (λ d. is_number_char d ≡ true) digits
    → IsEnd rest
    → number_run (digits ++ rest) ≡ (digits, rest)
unfolding number_run add_digit
number_run-append [] [] h e = refl
number_run-append [] (c ∷ rest) h e = rw e
number_run-append (d ∷ digits) rest (hd, h) e = rw (hd, number_run-append digits rest h e)

skip_blanks-blanks : (n : ℕ) (text : List ℕ) → skip_blanks (blanks n ++ text) ≡ skip_blanks text
unfolding skip_blanks
skip_blanks-blanks zero text = refl
skip_blanks-blanks (suc n) text = skip_blanks-blanks n text

skip_blanks-opening_blanks :
    (line : Spacing) (depth : ℕ) (text : List ℕ)
    → skip_blanks (opening_blanks line depth ++ text) ≡ skip_blanks text
unfolding skip_blanks
skip_blanks-opening_blanks in_line depth text = refl
skip_blanks-opening_blanks spread depth text = skip_blanks-blanks (depth + 2) text
skip_blanks-opening_blanks deep depth text = skip_blanks-blanks (depth + 4) text

skip_blanks-between_blanks :
    (line : Spacing) (depth : ℕ) (text : List ℕ)
    → skip_blanks (between_blanks line depth ++ text) ≡ skip_blanks text
unfolding skip_blanks
skip_blanks-between_blanks in_line depth text = refl
skip_blanks-between_blanks spread depth text = skip_blanks-blanks (depth + 2) text
skip_blanks-between_blanks deep depth text = skip_blanks-blanks (depth + 4) text

skip_blanks-closing_blanks :
    (line : Spacing) (depth : ℕ) (text : List ℕ)
    → skip_blanks (closing_blanks line depth ++ text) ≡ skip_blanks text
unfolding skip_blanks
skip_blanks-closing_blanks in_line depth text = refl
skip_blanks-closing_blanks spread depth text = skip_blanks-blanks depth text
skip_blanks-closing_blanks deep depth text = skip_blanks-blanks (depth + 2) text

closing_blanks-IsEnd :
    (line : Spacing) (depth : ℕ) (text : List ℕ)
    → IsEnd (closing_blanks line depth ++ (b'}' ∷ text))
closing_blanks-IsEnd in_line depth text = refl
closing_blanks-IsEnd spread depth text = refl
closing_blanks-IsEnd deep depth text = refl

skip_blanks_at : (c : ℕ) (text : List ℕ) → is_blank c ≡ false → skip_blanks (c ∷ text) ≡ c ∷ text
unfolding skip_blanks
skip_blanks_at c text h = rw h

number-ne-blank : (c : ℕ) → is_number_char c ≡ true → is_blank c ≡ false
number-ne-blank c h = ground arith

value_by-number :
    (fields : List ℕ → Option (Fields × List ℕ)) (c : ℕ) (text : List ℕ)
    → is_number_char c ≡ true
    → value_by fields (c ∷ text)
      ≡ some (number (number_run (c ∷ text)).0, (number_run (c ∷ text)).1)
unfolding value_by
value_by-number fields c text h = ground arith

size_pos : (v : Json) → 0 < size v
unfolding size
size_pos (text_value text) = omega arith
size_pos (number digits) = omega arith
size_pos (truth b) = omega arith
size_pos null = omega arith
size_pos (object line fields) = omega arith

field_size_pos : (fields : Fields) → 0 < field_size fields
unfolding size
field_size_pos (last key v) = omega arith
field_size_pos (more key v fields) = omega arith

read_json-blank : (n : ℕ) (text : List ℕ) → read_json n (b' ' ∷ text) ≡ read_json n text
unfolding read_json skip_blanks
read_json-blank zero text = refl
read_json-blank (suc n) text = refl

module _ (char : ℕ → List ℕ) (r : IsRead char) where
  -- A key, or a text, behind blanks.
  read_string-printed :
      (text rest : List ℕ)
      → All IsChar text
      → read_string (skip_blanks (json_string char text rest)) ≡ some (text, rest)
  unfolding read_string skip_blanks json_string
  read_string-printed text rest h = read_chars-json_rest char r text rest h

  abbrev IsReadBack : ℕ → ℕ → Json → List ℕ → Type 0
  IsReadBack n depth v rest = read_json n (print_json char depth v rest) ≡ some (plain_json v, rest)

  text-IsReadBack :
      (n depth : ℕ) (text rest : List ℕ)
      → All IsChar text
      → IsReadBack (suc n) depth (text_value text) rest
  unfolding read_json value_by text_read skip_blanks print_json json_string plain_json
  text-IsReadBack n depth text rest h = rw (read_chars-json_rest char r text rest h)

  number-IsReadBack :
      (n depth : ℕ) (digits rest : List ℕ)
      → IsNumber digits
      → IsEnd rest
      → IsReadBack (suc n) depth (number digits) rest
  unfolding read_json print_json plain_json
  number-IsReadBack n depth [] rest h e = absurd h
  number-IsReadBack n depth (c ∷ digits) rest h e =
      ap (value_by (λ t. read_fields n t))
        (skip_blanks_at c (digits ++ rest) (number-ne-blank c h.0))
      ∙ value_by-number (λ t. read_fields n t) c (digits ++ rest) h.0
      ∙ ap (λ x. some (number x.0, x.1)) (number_run-append (c ∷ digits) rest h e)

  word-IsReadBack :
      (n depth : ℕ) (b : Bool) (rest : List ℕ) → IsReadBack (suc n) depth (truth b) rest
  unfolding read_json value_by after_word skip_blanks print_json plain_json
  word-IsReadBack n depth true rest = refl
  word-IsReadBack n depth false rest = refl

  null-IsReadBack : (n depth : ℕ) (rest : List ℕ) → IsReadBack (suc n) depth null rest
  unfolding read_json value_by after_word skip_blanks print_json plain_json
  null-IsReadBack n depth rest = refl

  object-IsReadBack :
      (n depth : ℕ) (line : Spacing) (fields : Fields) (rest : List ℕ)
      → read_fields n (opening_blanks line depth ++ print_fields char depth line fields rest)
        ≡ some (plain_fields fields, rest)
      → IsReadBack (suc n) depth (object line fields) rest
  unfolding read_json value_by object_read skip_blanks print_json plain_json
  object-IsReadBack n depth line fields rest e = ap object_read e

  -- A value and the closing brace behind it.
  last-field :
      (n depth : ℕ) (line : Spacing) (key : List ℕ) (v : Json) (rest : List ℕ)
      → All IsChar key
      → IsReadBack n (depth + 2) v (closing_blanks line depth ++ (b'}' ∷ rest))
      → read_fields (suc n) (print_fields char depth line (last key v) rest)
        ≡ some (last key (plain_json v), rest)
  unfolding read_fields print_fields key_read colon_read after_char value_read skip_blanks field_end
  last-field n depth line key v rest h e =
      ap (key_read (λ t. read_json n t) (λ t. read_fields n t)) (read_string-printed key _ h)
      ∙ ap (value_read (λ t. read_fields n t) key) (read_json-blank n _ ∙ e)
      ∙ ap (field_end (λ t. read_fields n t) key (plain_json v))
          (skip_blanks-closing_blanks line depth (b'}' ∷ rest))

  -- A value, and the fields behind the comma.
  more-fields :
      (n depth : ℕ) (line : Spacing) (key : List ℕ) (v : Json) (fields : Fields) (rest : List ℕ)
      → All IsChar key
      → IsReadBack n
          (depth + 2)
          v
          (b',' ∷ (between_blanks line depth ++ print_fields char depth line fields rest))
      → read_fields n (between_blanks line depth ++ print_fields char depth line fields rest)
        ≡ some (plain_fields fields, rest)
      → read_fields (suc n) (print_fields char depth line (more key v fields) rest)
        ≡ some (more key (plain_json v) (plain_fields fields), rest)
  unfolding read_fields print_fields key_read colon_read after_char value_read skip_blanks field_end
      more_read
  more-fields n depth line key v fields rest h e f =
      ap (key_read (λ t. read_json n t) (λ t. read_fields n t)) (read_string-printed key _ h)
      ∙ ap (value_read (λ t. read_fields n t) key) (read_json-blank n _ ∙ e)
      ∙ ap (more_read key (plain_json v)) f

  -- Blanks in front of the fields are skipped.
  read_fields-skip :
      (n : ℕ) (text text' : List ℕ)
      → skip_blanks text ≡ skip_blanks text'
      → read_fields n text ≡ read_fields n text'
  unfolding read_fields
  read_fields-skip zero text text' e = refl
  read_fields-skip (suc n) text text' e =
      ap (λ t. key_read (λ t. read_json n t) (λ t. read_fields n t) (read_string t)) e

  mutual
    unfolding plain_json size

    printed-IsReadBack :
        (n depth : ℕ) (v : Json) (rest : List ℕ)
        → IsPrintable v
        → IsEnd rest
        → size v ≤ n
        → IsReadBack n depth v rest
    printed-IsReadBack zero depth v rest h e k = absurd (omega (arith, size_pos v))
    printed-IsReadBack (suc n) depth (text_value text) rest h e k =
        text-IsReadBack n depth text rest h
    printed-IsReadBack (suc n) depth (number digits) rest h e k =
        number-IsReadBack n depth digits rest h e
    printed-IsReadBack (suc n) depth (truth b) rest h e k = word-IsReadBack n depth b rest
    printed-IsReadBack (suc n) depth null rest h e k = null-IsReadBack n depth rest
    printed-IsReadBack (suc n) depth (object line fields) rest h e k =
        object-IsReadBack n depth line fields rest (
          read_fields-skip n _ _ (skip_blanks-opening_blanks line depth _)
          ∙ printed-fields n depth line fields rest h (omega arith))

    printed-fields :
        (n depth : ℕ) (line : Spacing) (fields : Fields) (rest : List ℕ)
        → ArePrintable fields
        → field_size fields ≤ n
        → read_fields n (print_fields char depth line fields rest)
          ≡ some (plain_fields fields, rest)
    printed-fields zero depth line fields rest h k = absurd (omega (arith, field_size_pos fields))
    printed-fields (suc n) depth line (last key v) rest (hk, hv) k =
        last-field n depth line key v rest hk (
          printed-IsReadBack n (depth + 2) v _ hv (closing_blanks-IsEnd line depth rest)
            (omega arith))
    printed-fields (suc n) depth line (more key v fields) rest (hk, hv, hf) k =
        more-fields n depth line key v fields rest hk
          (printed-IsReadBack n (depth + 2) v _ hv refl (omega arith))
          (read_fields-skip n _ _ (skip_blanks-between_blanks line depth _)
            ∙ printed-fields n depth line fields rest hf (omega arith))

-- What the printer of the reports writes of a value, a reader of JSON reads as that value without its
-- layout, and it stops where the printer stopped, with the characters of either report. The texts of
-- the value are C strings, its numbers are of the characters of numbers, and no such character
-- follows.
pub read_json-print_json :
    (depth n : ℕ) (v : Json) (rest : List ℕ)
    → IsPrintable v
    → IsEnd rest
    → size v ≤ n
    → (read_json n (print_json json_char depth v rest) ≡ some (plain_json v, rest))
      × (read_json n (print_json clean_json_char depth v rest) ≡ some (plain_json v, rest))
read_json-print_json depth n v rest h e k = (
  printed-IsReadBack json_char json_char-IsRead n depth v rest h e k,
  printed-IsReadBack clean_json_char clean_json_char-IsRead n depth v rest h e k,
)
