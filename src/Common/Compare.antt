-- ===== src/Common/Compare.antt =====
-- `df_constant_time_equal` decides equality.
use deadflash.Base.{
  ℕ, ◌%◌, ◌<◌, ◌≡◌, refl, ◌↔◌, true, List, [], ◌∷◌, arith, ◌==◌, ==_iff, length, All, IsByte,
  bit_or, bit_xor,
}
use deadflash.Base.Bits.{
  bit_xor-zero_byte, bit_xor-lt_byte, bit_or-zero_byte, bit_or-lt_byte, bit_xor_self,
}
use deadflash.Common.{diff_loop, constant_time_equal}

diff_loop-zero :
    (d : ℕ) (a b : List ℕ)
    → d < 256
    → All IsByte a
    → All IsByte b
    → length a ≡ length b
    → diff_loop d a b ≡ 0
    → (d ≡ 0) × (a ≡ b)
unfolding diff_loop
diff_loop-zero d [] [] hd ha hb e z = (z, refl)
diff_loop-zero d [] (y ∷ b) hd ha hb e z = absurd (omega arith)
diff_loop-zero d (x ∷ a) [] hd ha hb e z = absurd (omega arith)
diff_loop-zero d (x ∷ a) (y ∷ b) hd (hx, ha) (hy, hb) e z = ground (
  arith,
  bit_xor-lt_byte x y hx hy,
  bit_xor-zero_byte x y hx hy,
  bit_or-lt_byte d (bit_xor x y) hd,
  bit_or-zero_byte d (bit_xor x y) hd,
  diff_loop-zero (bit_or d (bit_xor x y % 256)) a b _ ha hb,
)

diff_loop_self : (a : List ℕ) → All IsByte a → diff_loop 0 a a ≡ 0
unfolding diff_loop
diff_loop_self [] h = refl
diff_loop_self (x ∷ a) (hx, ha) = ground (arith, bit_xor_self x hx, diff_loop_self a ha)

-- On two buffers of the same length the comparison answers true exactly when they are equal.
pub constant_time_equal_iff :
    (a b : List ℕ)
    → All IsByte a
    → All IsByte b
    → length a ≡ length b
    → (constant_time_equal a b ≡ true) ↔ (a ≡ b)
unfolding constant_time_equal
constant_time_equal_iff a b ha hb e = (forth, back)
  where
    forth : (diff_loop 0 a b == 0) ≡ true → a ≡ b
    forth h = (diff_loop-zero 0 a b (omega arith) ha hb e ((==_iff _ 0).0 h)).1

    back : a ≡ b → (diff_loop 0 a b == 0) ≡ true
    back p = rw (← p) (rw (diff_loop_self a ha))
