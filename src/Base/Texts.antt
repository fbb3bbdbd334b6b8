-- ===== src/Base/Texts.antt =====
-- C strings as lists of character codes: comparison, decimal printing, and literals.
use Prim.Native.Nat.{ℕ, zero, suc, ◌+◌, ◌/◌, ◌%◌}
use Prim.Native.Char.{code}
use Prim.Native.String.{String}
use mathlib.Core.Bool.{Bool, true, false, ◌&&◌}
use mathlib.Core.List.{List, [], ◌∷◌, ◌++◌}
use mathlib.Core.Path.{◌≡◌, refl}
use native.Mathlib.Omega.{arith}
use deadflash.Base.Tests.{ltb, ◌==◌, ==_iff, if◌then◌else◌}

-- The codes of a literal.
abbrev pub codes : String → List ℕ
codes String.[] = []
codes (String.◌∷◌ c s) = code c ∷ codes s

-- `strcmp(a, b) == 0`
abbrev pub text_eq : List ℕ → List ℕ → Bool
text_eq [] [] = true
text_eq [] (y ∷ b) = false
text_eq (x ∷ a) [] = false
text_eq (x ∷ a) (y ∷ b) = (x == y) && text_eq a b

pub text_eq_self : (a : List ℕ) → text_eq a a ≡ true
text_eq_self [] = refl
text_eq_self (x ∷ a) = ground (arith, ==_iff x x, text_eq_self a)

pub text_eq-eq : (a b : List ℕ) → text_eq a b ≡ true → a ≡ b
text_eq-eq [] [] h = refl
text_eq-eq [] (y ∷ b) h = cc
text_eq-eq (x ∷ a) [] h = cc
text_eq-eq (x ∷ a) (y ∷ b) h = ground (arith, ==_iff x y, text_eq-eq a b)

-- The digits of a number of at most `fuel + 1` digits, as printf writes them.
unfoldable pub digits : ℕ → ℕ → List ℕ
digits zero n = (48 + n % 10) ∷ []
digits (suc fuel) n =
    let more = digits fuel (n / 10) in
    if ltb n 10 then (48 + n) ∷ [] else more ++ (48 + n % 10) ∷ []

-- A 64-bit number has at most 20 digits.
unfoldable pub decimal : ℕ → List ℕ
unfolding digits
decimal n = digits 19 n
