-- ===== src/Sha256/Collision.antt =====
-- Two messages with one hash are equal, or they are a collision of SHA-256.
use deadflash.Base.{
  ℕ, zero, suc, ◌<◌, ◌≡◌, ◌≢◌, ◌⊎◌, inl, inr, sym, ap, ◌∙◌, List, true, Bool-cases, arith, ltb,
  ltb→lt, ltb→le, false,
}
use deadflash.Base.Texts.{text_eq, text_eq-eq, text_eq_self}
use deadflash.Sha256.{sha256_buffer}

-- These two messages show that SHA-256 is not collision-free.
abbrev pub IsCollision : List ℕ → List ℕ → Type 0
IsCollision a b = (a ≢ b) × (sha256_buffer a ≡ sha256_buffer b)

pub false≢true : false ≢ true
false≢true e = cc

pub equal_or_IsCollision :
    (a b : List ℕ) → sha256_buffer a ≡ sha256_buffer b → (a ≡ b) ⊎ IsCollision a b
equal_or_IsCollision a b h = elim (Bool-cases (text_eq a b)) [
  | inl p ↦ inl (text_eq-eq a b p)
  | inr p ↦ inr ((λ e. false≢true (sym p ∙ ap (text_eq a) (sym e) ∙ text_eq_self a)), h)
]

-- A fact at each of finitely many places, or another one at one of them.
pub everywhere_or_somewhere :
    (n : ℕ) (P Q : ℕ → Type 0)
    → ((j : ℕ) → j < n → P j ⊎ Q j)
    → ((j : ℕ) → j < n → P j) ⊎ ((j : ℕ) × (j < n) × Q j)
everywhere_or_somewhere zero P Q h = inl (λ j lt. absurd (omega arith))
everywhere_or_somewhere (suc n) P Q h =
    go (everywhere_or_somewhere n P Q (λ j lt. h j (omega arith))) (h n (omega arith))
  where
    last : ((j : ℕ) → j < n → P j) → P n → (j : ℕ) → j < suc n → (j < n) ⊎ (j ≡ n) → P j
    last all p j lt (inl q) = all j q
    last all p j lt (inr e) = rw e p

    split : (j : ℕ) → j < suc n → (j < n) ⊎ (j ≡ n)
    split j lt = elim (Bool-cases (ltb j n)) [
      | inl p ↦ inl (ltb→lt j n p)
      | inr p ↦ inr (omega (arith, ltb→le j n p))
    ]

    go :
        ((j : ℕ) → j < n → P j) ⊎ ((j : ℕ) × (j < n) × Q j)
        → P n ⊎ Q n
        → ((j : ℕ) → j < suc n → P j) ⊎ ((j : ℕ) × (j < suc n) × Q j)
    go (inl all) (inl p) = inl (λ j lt. last all p j lt (split j lt))
    go (inl all) (inr c) = inr (n, omega arith, c)
    go (inr (j, lt, c)) q = inr (j, omega arith, c)
