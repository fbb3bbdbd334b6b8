-- ===== src/Base/Bits.antt =====
-- Bit operations on bytes at variables: tables of all values, checked by evaluation.
use Prim.Native.Nat.{ℕ, zero, suc, ◌/◌, ◌<◌, bit_or, bit_xor}
use mathlib.Core.Path.{◌≡◌, refl}
use mathlib.Core.Bool.{Bool, true, ◌&&◌, ◌||◌, not}
use native.Mathlib.Omega.{arith}
use deadflash.Base.Tests.{◌==◌}

-- The test holds at each number before the bound.
unfoldable pub holds_before : (ℕ → Bool) → ℕ → Bool
holds_before test zero = true
holds_before test (suc bound) = holds_before test bound && test bound

-- What was evaluated holds at a variable.
pub at_value :
    (test : ℕ → Bool) (bound : ℕ) {v : ℕ}
    → v < bound
    → holds_before test bound ≡ true
    → test v ≡ true
unfolding holds_before
at_value test zero inside whole = elim inside [ ]
at_value test (suc bound) {v} inside whole = ground (arith, at_value test bound {v = v})

-- Both operations on a pair of bytes at once: the xor is zero on equal bytes only and is a byte.
xor_row : ℕ → Bool
xor_row a = holds_before (λ b. (not (bit_xor a b == 0) || (a == b)) && (bit_xor a b / 256 == 0)) 256

or_row : ℕ → Bool
or_row a =
    holds_before (λ b. (not (bit_or a b == 0) || ((a == 0) && (b == 0))) && (bit_or a b / 256 == 0))
      256

xor_table : holds_before xor_row 256 ≡ true
unfolding holds_before xor_row
xor_table = refl

or_table : holds_before or_row 256 ≡ true
unfolding holds_before or_row
or_table = refl

xor_facts :
    (a b : ℕ)
    → a < 256
    → b < 256
    → ((not (bit_xor a b == 0) || (a == b)) && (bit_xor a b / 256 == 0)) ≡ true
unfolding xor_row
xor_facts a b ha hb = at_value _ 256 hb (at_value xor_row 256 ha xor_table)

or_facts :
    (a b : ℕ)
    → a < 256
    → b < 256
    → ((not (bit_or a b == 0) || ((a == 0) && (b == 0))) && (bit_or a b / 256 == 0)) ≡ true
unfolding or_row
or_facts a b ha hb = at_value _ 256 hb (at_value or_row 256 ha or_table)

pub bit_xor-zero_byte : (a b : ℕ) → a < 256 → b < 256 → bit_xor a b ≡ 0 → a ≡ b
bit_xor-zero_byte a b ha hb h = ground (arith, xor_facts a b ha hb)

pub bit_xor-lt_byte : (a b : ℕ) → a < 256 → b < 256 → bit_xor a b < 256
bit_xor-lt_byte a b ha hb = ground (arith, xor_facts a b ha hb)

pub bit_or-zero_byte : (a b : ℕ) → a < 256 → b < 256 → bit_or a b ≡ 0 → (a ≡ 0) × (b ≡ 0)
bit_or-zero_byte a b ha hb h = ground (arith, or_facts a b ha hb)

pub bit_or-lt_byte : (a b : ℕ) → a < 256 → b < 256 → bit_or a b < 256
bit_or-lt_byte a b ha hb = ground (arith, or_facts a b ha hb)

xor_self_table : holds_before (λ a. bit_xor a a == 0) 256 ≡ true
unfolding holds_before
xor_self_table = refl

pub bit_xor_self : (a : ℕ) → a < 256 → bit_xor a a ≡ 0
bit_xor_self a h = ground (arith, at_value (λ a. bit_xor a a == 0) 256 h xor_self_table)
