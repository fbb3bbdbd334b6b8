-- ===== src/Common/Avoids.antt =====
-- Calls that do not fail with a given status, and what follows from a sequence that did.
use deadflash.Base.{◌≡◌, ◌≢◌, sym, ap, ◌∙◌}
use deadflash.Common.{Status, Outcome, done, failed, failed≢done}
use deadflash.Common.Monad.{M, ◌>>=◌, pure, throw, call, zoom, rest_of, bind_cases, zoom_cases}

-- However the call ends, it is not with this status.
pub record Avoids {S A : Type 0} (bad : Status) (m : M S A) : Type 0 where
  pub avoid : (s : S) → (m s).0 ≢ failed bad

pub failed_inj : {A : Type 0} {x y : Status} → ◌≡◌ {A = Outcome A} (failed x) (failed y) → x ≡ y
failed_inj e = cc

module _ {bad : Status} where
  pub bind-Avoids :
      {S A B : Type 0} {m : M S A} {f : A → M S B}
      → Avoids bad m
      → ((a : A) → Avoids bad (f a))
      → Avoids bad (m >>= f)
  bind-Avoids {m} {f} h k = record {
    avoid = λ s.
        bind_cases m f (λ r. r.0 ≢ failed bad)
          (λ x s' e same. h.avoid s (ap (λ r. r.0) e ∙ ap failed (failed_inj same)))
          (λ a s' e. (k a).avoid s');
  }

  pub zoom-Avoids :
      {S W A : Type 0} (part : S → W) (put : W → S → S) {m : M W A}
      → Avoids bad m
      → Avoids bad (zoom part put m)
  zoom-Avoids part put h = record { avoid = λ s. h.avoid (part s) }

  pub pure-Avoids : {S A : Type 0} (a : A) → Avoids {S = S} bad (pure a)
  pure-Avoids a = record { avoid = λ s same. failed≢done (sym same) }

  pub throw-Avoids : {S A : Type 0} (x : Status) → x ≢ bad → Avoids {S = S} {A = A} bad (throw x)
  throw-Avoids x other = record { avoid = λ s same. other (failed_inj same) }

  pub call-Avoids : {S A : Type 0} (f : S → A × S) → Avoids bad (call f)
  call-Avoids f = record { avoid = λ s same. failed≢done (sym same) }

  -- A sequence that failed with the status, where its first part does not, failed behind it.
  pub past :
      {S A B P : Type 0} (m : M S A) (f : A → M S B) {s s'' : S}
      → Avoids bad m
      → (m >>= f) s ≡ (failed bad, s'')
      → ((a : A) (s' : S) → m s ≡ (done a, s') → f a s' ≡ (failed bad, s'') → P)
      → P
  past {P} m f {s} {s''} h e k =
      bind_cases m f (λ r. r ≡ (failed bad, s'') → P)
        (λ x s' first same.
          absurd (h.avoid s (ap (λ r. r.0) first ∙ ap failed (failed_inj (ap (λ r. r.0) same)))))
        (λ a s' first same. k a s' first same) e

  pub past_zoom :
      {S W A B P : Type 0} (part : S → W) (put : W → S → S) (m : M W A) (f : A → M S B) {s s'' : S}
      → Avoids bad m
      → (zoom part put m >>= f) s ≡ (failed bad, s'')
      → ((a : A) (w : W) → m (part s) ≡ (done a, w) → f a (put w s) ≡ (failed bad, s'') → P)
      → P
  past_zoom {P} part put m f {s} {s''} h e k =
      zoom_cases part put m f (λ r. r ≡ (failed bad, s'') → P)
        (λ x w first same.
          absurd
            (h.avoid (part s) (ap (λ r. r.0) first ∙ ap failed (failed_inj (ap (λ r. r.0) same)))))
        (λ a w first same. k a w first same) e

-- A first part whose end is known, whatever follows.
pub after_known :
    {S A B : Type 0} (m : M S A) (f : A → M S B) {s s' : S} {a : A} {r : Outcome B × S}
    → m s ≡ (done a, s')
    → (m >>= f) s ≡ r
    → f a s' ≡ r
unfolding ◌>>=◌ rest_of
after_known m f e h = sym (ap (rest_of f) e) ∙ h
