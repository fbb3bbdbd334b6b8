-- ===== src/Report/Text.antt =====
-- The JSON texts that src/report.c and src/clean.c print, as trees of fields with their layout: one field to
-- a line, or all in one line.
use deadflash.Base.{ℕ, zero, suc, ◌+◌, Bool, true, false, List, [], ◌∷◌, ◌++◌}
use deadflash.Base.Texts.{codes}
use deadflash.Report.{json_string}

-- How an object stands: in one line, one field to a line, or two blanks deeper than it would.
pub data Spacing : Type 0 where
  in_line spread deep : Spacing

mutual
  -- A value; an object says how it stands.
  pub data Json : Type 0 where
    text_value : List ℕ → Json
    number : List ℕ → Json
    truth : Bool → Json
    null : Json
    object : Spacing → Fields → Json

  pub data Fields : Type 0 where
    last : List ℕ → Json → Fields
    more : List ℕ → Json → Fields → Fields

abbrev pub blanks : ℕ → List ℕ
blanks zero = []
blanks (suc n) = b' ' ∷ blanks n

-- The blanks in front of the first field, behind a comma, and in front of the closing brace.
abbrev pub opening_blanks : Spacing → ℕ → List ℕ
opening_blanks in_line depth = []
opening_blanks spread depth = b'\n' ∷ blanks (depth + 2)
opening_blanks deep depth = b'\n' ∷ blanks (depth + 4)

abbrev pub between_blanks : Spacing → ℕ → List ℕ
between_blanks in_line depth = b' ' ∷ []
between_blanks spread depth = b'\n' ∷ blanks (depth + 2)
between_blanks deep depth = b'\n' ∷ blanks (depth + 4)

abbrev pub closing_blanks : Spacing → ℕ → List ℕ
closing_blanks in_line depth = []
closing_blanks spread depth = b'\n' ∷ blanks depth
closing_blanks deep depth = b'\n' ∷ blanks (depth + 2)

-- `b ? "true" : "false"`
abbrev pub truth_text : Bool → List ℕ
truth_text true = codes "true"
truth_text false = codes "false"

module _ (char : ℕ → List ℕ) where
  unfoldable mutual
    -- A value that begins at a depth, in front of what follows.
    pub print_json : ℕ → Json → List ℕ → List ℕ
    print_json depth (text_value text) rest = json_string char text rest
    print_json depth (number digits) rest = digits ++ rest
    print_json depth (truth b) rest = truth_text b ++ rest
    print_json depth null rest = codes "null" ++ rest
    print_json depth (object line fields) rest =
        b'{' ∷ (opening_blanks line depth ++ print_fields depth line fields rest)

    pub print_fields : ℕ → Spacing → Fields → List ℕ → List ℕ
    print_fields depth line (last key value) rest =
        json_string char key
          (b':' ∷ b' ' ∷ print_json (depth + 2) value (closing_blanks line depth ++ (b'}' ∷ rest)))
    print_fields depth line (more key value fields) rest = json_string char key (
        b':'
        ∷ b' '
        ∷ print_json (depth + 2) value
            (b',' ∷ (between_blanks line depth ++ print_fields depth line fields rest)))
