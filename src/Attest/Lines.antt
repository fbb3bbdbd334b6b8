-- ===== src/Attest/Lines.antt =====
-- Equal texts of plans (`df_attest_plan` of src/attest.c) have equal lines.
use deadflash.Attest.{plan_line, mode_number, bit}
use deadflash.Base.{
  ℕ, ◌^◌, ◌<◌, ◌≡◌, refl, sym, ap, ◌∙◌, All, IsByte, some_inj, Bool, true, false, List, ◌∷◌, ◌++◌,
  length, take, drop, arith, take-append, drop-append, ◌==◌, if◌then◌else◌,
}
use deadflash.Base.Texts.{decimal}
use deadflash.Common.{done_inj, VerifyMode, verify_none, verify_sample, verify_full, hex_encode}
use deadflash.Common.Hex.{hex_decode_32, hex_decode_32-hex_encode}
use deadflash.Device.{TargetKind, regular_file, block_device, char_device, unknown, kind_number}
use deadflash.Proof.Load.{scan_u64}
use deadflash.Proof.Scan.{scan_u64-decimal}

-- A text behind the same beginning.
pub behind : (key a b : List ℕ) → key ++ a ≡ key ++ b → a ≡ b
behind key a b e =
    sym (drop-append key a (length key) refl)
    ∙ ap (drop (length key)) e
    ∙ drop-append key b (length key) refl

apart :
    (a b rest rest' : List ℕ)
    → length a ≡ length b
    → a ++ rest ≡ b ++ rest'
    → (a ≡ b) × (rest ≡ rest')
apart a b rest rest' len e = (
  sym (take-append a rest (length a) refl)
      ∙ ap (take (length a)) e
      ∙ take-append b rest' (length a) len,
  sym (drop-append a rest (length a) refl)
      ∙ ap (drop (length a)) e
      ∙ drop-append b rest' (length a) len,
)

-- Two lines of one key, with values of one length.
pub text_line :
    (key a b rest rest' : List ℕ)
    → length a ≡ length b
    → plan_line key a rest ≡ plan_line key b rest'
    → (a ≡ b) × (rest ≡ rest')
unfolding plan_line
text_line key a b rest rest' len e =
    let (same, left) =
      apart a b (b'\n' ∷ rest) (b'\n' ∷ rest') len (ap (drop 1) (behind key _ _ e)) in
    (same, ap (drop 1) left)

-- Two lines of one key, with numbers.
pub number_line :
    (key : List ℕ) (n m : ℕ) (rest rest' : List ℕ)
    → n < 2 ^ 64
    → m < 2 ^ 64
    → plan_line key (decimal n) rest ≡ plan_line key (decimal m) rest'
    → (n ≡ m) × (rest ≡ rest')
unfolding plan_line
number_line key n m rest rest' h h' e =
    let read =
      sym (scan_u64-decimal n b'\n' rest h refl)
      ∙ ap scan_u64 (ap (drop 1) (behind key _ _ e))
      ∙ scan_u64-decimal m b'\n' rest' h' refl in
    (done_inj (ap (λ r. r.0) read), ap (λ r. drop 1 r.1) read)

-- A number below 2 ^ 64 that stands for a value.
coded_line :
    {A : Type 0} (code : A → ℕ) (value : ℕ → A)
    → ((a : A) → value (code a) ≡ a)
    → ((a : A) → code a < 2 ^ 64)
    → (key : List ℕ) (a b : A) (rest rest' : List ℕ)
    → plan_line key (decimal (code a)) rest ≡ plan_line key (decimal (code b)) rest'
    → (a ≡ b) × (rest ≡ rest')
coded_line code value back small key a b rest rest' e =
    let (same, left) = number_line key (code a) (code b) rest rest' (small a) (small b) e in
    (sym (back a) ∙ ap value same ∙ back b, left)

pub kind_line :
    (key : List ℕ) (a b : TargetKind) (rest rest' : List ℕ)
    → plan_line key (decimal (kind_number a)) rest ≡ plan_line key (decimal (kind_number b)) rest'
    → (a ≡ b) × (rest ≡ rest')
unfolding kind_number
kind_line = coded_line kind_number kind_at back small
  where
    kind_at : ℕ → TargetKind
    kind_at n =
        if n == 0
        then regular_file
        else if n == 1
        then block_device
        else if n == 2
        then char_device
        else unknown

    back : (k : TargetKind) → kind_at (kind_number k) ≡ k
    back regular_file = refl
    back block_device = refl
    back char_device = refl
    back unknown = refl

    small : (k : TargetKind) → kind_number k < 2 ^ 64
    small regular_file = omega arith
    small block_device = omega arith
    small char_device = omega arith
    small unknown = omega arith

pub mode_line :
    (key : List ℕ) (a b : VerifyMode) (rest rest' : List ℕ)
    → plan_line key (decimal (mode_number a)) rest ≡ plan_line key (decimal (mode_number b)) rest'
    → (a ≡ b) × (rest ≡ rest')
mode_line = coded_line mode_number mode_at back small
  where
    mode_at : ℕ → VerifyMode
    mode_at n = if n == 0 then verify_none else if n == 1 then verify_sample else verify_full

    back : (m : VerifyMode) → mode_at (mode_number m) ≡ m
    back verify_none = refl
    back verify_sample = refl
    back verify_full = refl

    small : (m : VerifyMode) → mode_number m < 2 ^ 64
    small verify_none = omega arith
    small verify_sample = omega arith
    small verify_full = omega arith

pub flag_line :
    (key : List ℕ) (a b : Bool) (rest rest' : List ℕ)
    → plan_line key (decimal (bit a)) rest ≡ plan_line key (decimal (bit b)) rest'
    → (a ≡ b) × (rest ≡ rest')
flag_line = coded_line bit (λ n. n == 1) back small
  where
    back : (b : Bool) → (bit b == 1) ≡ b
    back true = refl
    back false = refl

    small : (b : Bool) → bit b < 2 ^ 64
    small true = omega arith
    small false = omega arith

pub hex_injective :
    (a b : List ℕ)
    → (length a ≡ 32) × All IsByte a
    → (length b ≡ 32) × All IsByte b
    → hex_encode a ≡ hex_encode b
    → a ≡ b
hex_injective a b (la, ha) (lb, hb) e =
    some_inj (
      sym (hex_decode_32-hex_encode a ha la)
      ∙ ap hex_decode_32 e
      ∙ hex_decode_32-hex_encode b hb lb)
