-- ===== src/Cli.antt =====
-- The command lines: src/main.c and src/proof_main.c. The arguments are those of `main` from the
-- second on, and a command gives the exit status. What is printed on the standard streams is left out.
pub mod Options
pub mod Seal
pub mod Flash
pub mod Format
pub mod Bench
pub mod Main
pub mod Parsed
pub mod Exits
pub mod MainExits
pub mod Succeeded
mod Tests
use deadflash.Base.{ℕ, zero, suc, Option, none, some, List, [], ◌∷◌, ◌==◌, if◌then◌else◌}
use deadflash.Base.Texts.{text_eq}

abbrev pub Args : Type 0
Args = List (List ℕ)

-- What stands behind a name and an equals sign.
unfoldable pub after_equals : List ℕ → List ℕ → Option (List ℕ)
after_equals [] [] = none
after_equals [] (c ∷ arg) = if c == b'=' then some arg else none
after_equals (n ∷ name) [] = none
after_equals (n ∷ name) (c ∷ arg) =
    let rest = after_equals name arg in if c == n then rest else none

-- The value of an option that is spelled `--name value`.
unfoldable pub separate_value : List ℕ → List ℕ → Args → Option (List ℕ × Args)
separate_value name arg [] = none
separate_value name arg (value ∷ rest) = if text_eq arg name then some (value, rest) else none

abbrev joined_or : Option (List ℕ) → Args → Option (List ℕ × Args) → Option (List ℕ × Args)
joined_or none rest other = other
joined_or (some value) rest other = some (value, rest)

-- next_value: the value of the option, if the argument is that option, and the arguments left
unfoldable pub next_value : List ℕ → List ℕ → Args → Option (List ℕ × Args)
unfolding after_equals separate_value
next_value name arg rest = joined_or (after_equals name arg) rest (separate_value name arg rest)

-- One round of a loop over options: what an option does, given what is set so far, the argument and
-- those behind it; `none` ends the command with status 2.
abbrev pub Round : Type 0 → Type 0
Round S = S → List ℕ → Args → Option (S × Args)

-- An option with a value, in front of the other ones.
unfoldable pub valued : {S : Type 0} → List ℕ → (S → List ℕ → Option S) → Round S → Round S
unfolding next_value
valued name apply other set arg rest = elim (next_value name arg rest) [
  | none ↦ other set arg rest
  | some (value, left) ↦ elim (apply set value) [ none ↦ none | some set' ↦ some (set', left) ]
]

-- An option without a value.
unfoldable pub switch : {S : Type 0} → List ℕ → (S → S) → Round S → Round S
switch name apply other set arg rest =
    if text_eq arg name then some (apply set, rest) else other set arg rest

unfoldable pub unknown_option : {S : Type 0} → Round S
unknown_option set arg rest = none

-- The loop; each round takes an argument at least, so their number is enough fuel.
unfoldable pub option_loop : {S : Type 0} → Round S → ℕ → S → Args → Option S
option_loop round n set [] = some set
option_loop round zero set (arg ∷ rest) = none
option_loop round (suc n) set (arg ∷ rest) = elim (round set arg rest) [
  | none ↦ none
  | some (set', left) ↦ option_loop round n set' left
]

abbrev pub count_args : Args → ℕ
count_args [] = 0
count_args (arg ∷ rest) = suc (count_args rest)

unfoldable pub parse_options : {S : Type 0} → Round S → S → Args → Option S
unfolding option_loop
parse_options round set args = option_loop round (count_args args) set args
