-- ===== src/Report.antt =====
-- src/report.c with include/deadflash/report.h, and the report of src/clean.c: the evidence of an operation
-- as a JSON text.
pub mod Json
pub mod Text
pub mod Reader
pub mod Evidence
pub mod Recorded
mod Tests
use deadflash.Base.{ℕ, ◌/◌, ◌%◌, List, [], ◌∷◌, ◌++◌, get_or, ltb, ◌==◌, if◌then◌else◌}
use deadflash.Common.{hex_digits, VerifyMode, verify_none, verify_sample, verify_full}
use deadflash.Base.Texts.{codes}

-- `\u%04x` of a byte
unfoldable pub unicode_escape : ℕ → List ℕ
unicode_escape c =
    b'\\' ∷ b'u' ∷ b'0' ∷ b'0' ∷ get_or hex_digits (c / 16) 0 ∷ get_or hex_digits (c % 16) 0 ∷ []

-- A character of a text, in src/report.c.
unfoldable pub json_char : ℕ → List ℕ
unfolding unicode_escape
json_char c =
    if c == b'"'
    then b'\\' ∷ b'"' ∷ []
    else if c == b'\\'
    then b'\\' ∷ b'\\' ∷ []
    else if c == 8
    then b'\\' ∷ b'b' ∷ []
    else if c == 12
    then b'\\' ∷ b'f' ∷ []
    else if c == 10
    then b'\\' ∷ b'n' ∷ []
    else if c == 13
    then b'\\' ∷ b'r' ∷ []
    else if c == 9
    then b'\\' ∷ b't' ∷ []
    else if ltb c 0x20
    then unicode_escape c
    else c ∷ []

-- The same in src/clean.c, which writes a backspace and a form feed by their codes.
unfoldable pub clean_json_char : ℕ → List ℕ
unfolding unicode_escape
clean_json_char c =
    if c == b'"'
    then b'\\' ∷ b'"' ∷ []
    else if c == b'\\'
    then b'\\' ∷ b'\\' ∷ []
    else if c == 10
    then b'\\' ∷ b'n' ∷ []
    else if c == 13
    then b'\\' ∷ b'r' ∷ []
    else if c == 9
    then b'\\' ∷ b't' ∷ []
    else if ltb c 0x20
    then unicode_escape c
    else c ∷ []

-- The characters of a text and the closing quote, in front of what follows.
unfoldable pub json_rest : (ℕ → List ℕ) → List ℕ → List ℕ → List ℕ
json_rest char [] rest = b'"' ∷ rest
json_rest char (c ∷ text) rest = char c ++ json_rest char text rest

-- json_string, and df_clean_json_string
unfoldable pub json_string : (ℕ → List ℕ) → List ℕ → List ℕ → List ℕ
unfolding json_rest
json_string char text rest = b'"' ∷ json_rest char text rest

unfoldable pub verify_mode_name : VerifyMode → List ℕ
verify_mode_name verify_none = codes "none"
verify_mode_name verify_sample = codes "sample"
verify_mode_name verify_full = codes "full"
