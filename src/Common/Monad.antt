-- ===== src/Common/Monad.antt =====
-- Calls that may fail, over a state that they change; a failure keeps the state reached.
use deadflash.Base.{◌≡◌, refl, sym, ap, ◌∙◌, Bool, true, false, if◌then◌else◌, Bool-cases, inl, inr}
use deadflash.Common.{Status, Outcome, done, failed, failed≢done, done_inj}

abbrev pub M : Type 0 → Type 0 → Type 0
M S A = S → Outcome A × S

infixl 5 ◌>>=◌ ◌>>◌
unfoldable pub ◌>>=◌ : {S A B : Type 0} → M S A → (A → M S B) → M S B
◌>>=◌ m f s = let (r, s') = m s in elim r [ done a ↦ f a s' | failed e ↦ (failed e, s') ]

abbrev pub ◌>>◌ : {S B : Type 0} → M S (Unit {0}) → M S B → M S B
m >> k = m >>= λ _. k

abbrev pub pure : {S A : Type 0} → A → M S A
pure a s = (done a, s)

abbrev pub throw : {S A : Type 0} → Status → M S A
throw e s = (failed e, s)

-- A call that cannot fail.
abbrev pub call : {S A : Type 0} → (S → A × S) → M S A
call f s = let (a, s') = f s in (done a, s')

-- A step on a part of the state.
abbrev pub zoom : {S W A : Type 0} → (S → W) → (W → S → S) → M W A → M S A
zoom part put m s = let (r, w) = m (part s) in (r, put w s)

bind_result :
    {S A B : Type 0} (r : Outcome A × S) (f : A → M S B) {s'' : S} {b : B}
    → (let (r', s') = r in elim r' [ done a ↦ f a s' | failed e ↦ (failed e, s') ]) ≡ (done b, s'')
    → (a : A) × (s' : S) × (r ≡ (done a, s')) × (f a s' ≡ (done b, s''))
bind_result (done a, s') f h = (a, s', refl, h)
bind_result (failed e, s') f h = absurd (failed≢done (ap (λ p. p.0) h))

unfoldable pub rest_of : {S A B : Type 0} → (A → M S B) → Outcome A × S → Outcome B × S
rest_of f (r, s') = elim r [ done a ↦ f a s' | failed e ↦ (failed e, s') ]

module _ {S A B : Type 0} (m : M S A) (f : A → M S B) {s : S} where
  -- A successful sequence had a successful first part, and what follows from that part follows.
  pub through :
      {s'' : S} {b : B} {P : Type 0}
      → (m >>= f) s ≡ (done b, s'')
      → ((a : A) (s' : S) → m s ≡ (done a, s') → f a s' ≡ (done b, s'') → P)
      → P
  unfolding ◌>>=◌
  through h k = let (a, s', e, h') = bind_result (m s) f h in k a s' e h'

  -- A first part whose end is known.
  pub after :
      {s'' : S} {b : B} {a : A} {s' : S}
      → m s ≡ (done a, s')
      → (m >>= f) s ≡ (done b, s'')
      → f a s' ≡ (done b, s'')
  unfolding ◌>>=◌ rest_of
  after e h = sym (ap (rest_of f) e) ∙ h

  -- A sequence whose first part is known to succeed.
  pub then_done :
      {a : A} {s' : S} {r : Outcome B × S} → m s ≡ (done a, s') → f a s' ≡ r → (m >>= f) s ≡ r
  unfolding ◌>>=◌ rest_of
  then_done e h = ap (rest_of f) e ∙ h

  -- A sequence whose first part does the same on another state.
  pub then_same : {s' : S} {r : Outcome B × S} → m s ≡ m s' → (m >>= f) s' ≡ r → (m >>= f) s ≡ r
  unfolding ◌>>=◌ rest_of
  then_same e h = ap (rest_of f) e ∙ h

-- A call that cannot fail, and what follows it.
pub through_call :
    {S A B P : Type 0} (m : S → A × S) (f : A → M S B) {s s'' : S} {b : B}
    → (call m >>= f) s ≡ (done b, s'')
    → ((a : A) (s' : S) → m s ≡ (a, s') → f a s' ≡ (done b, s'') → P)
    → P
unfolding ◌>>=◌
through_call m f {s} h k = k (m s).0 (m s).1 refl h

module _ {S B : Type 0} (c : Bool) (e : Status) (k : M S B) {s s'' : S} {b : B} where
  -- A guard that was passed.
  pub through_guard :
      ((if c then throw e else pure tt) >> k) s ≡ (done b, s'')
      → (c ≡ false) × (k s ≡ (done b, s''))
  unfolding ◌>>=◌
  through_guard h = elim (Bool-cases c) [
    | inl p ↦ absurd (failed≢done (ap (λ p. p.0) (rw p at h)))
    | inr p ↦ (p, rw p at h)
  ]

  pub through_require :
      ((if c then pure tt else throw e) >> k) s ≡ (done b, s'') → (c ≡ true) × (k s ≡ (done b, s''))
  unfolding ◌>>=◌
  through_require h = elim (Bool-cases c) [
    | inl p ↦ (p, rw p at h)
    | inr p ↦ absurd (failed≢done (ap (λ p. p.0) (rw p at h)))
  ]

-- A guard that is passed, and what follows it.
pub pass_guard :
    {S B : Type 0} (c : Bool) (x : Status) (k : M S B) {s : S} {r : Outcome B × S}
    → c ≡ false
    → k s ≡ r
    → ((if c then throw x else pure tt) >> k) s ≡ r
unfolding ◌>>=◌
pass_guard c x k p e = rw p e

-- A last guard.
pub through_last :
    {S : Type 0} (c : Bool) (e : Status) {s s' : S}
    → (if c then pure tt else throw e) s ≡ (done tt, s')
    → (c ≡ true) × (s ≡ s')
through_last true e h = (refl, ap (λ p. p.1) h)
through_last false e h = absurd (failed≢done (ap (λ p. p.0) h))

pub pure-done : {S A : Type 0} {a b : A} {s s' : S} → pure a s ≡ (done b, s') → (a ≡ b) × (s ≡ s')
pure-done h = (done_inj (ap (λ p. p.0) h), ap (λ p. p.1) h)

-- A successful step on a part of the state, in the state around it.
pub through_zoom :
    {S W A B P : Type 0} (part : S → W) (put : W → S → S) (m : M W A) (f : A → M S B) {s s'' : S}
    {b : B}
    → (zoom part put m >>= f) s ≡ (done b, s'')
    → ((a : A) (w : W) → m (part s) ≡ (done a, w) → f a (put w s) ≡ (done b, s'') → P)
    → P
unfolding ◌>>=◌
through_zoom part put m f {s} h k =
    let (a, s', e, h') = bind_result (zoom part put m s) f h in
    k a (m (part s)).1 (λ i. ((e i).0, (m (part s)).1)) (ap (f a) (ap (λ p. p.1) e) ∙ h')

-- A guard that was passed, where a failure records something first.
pub through_recorded :
    {S B : Type 0} (c : Bool) (record_it : M S (Unit {0})) (e : Status) (k : M S B) {s s'' : S}
    {b : B}
    → ((if c then pure tt else (record_it >> throw e)) >> k) s ≡ (done b, s'')
    → (c ≡ true) × (k s ≡ (done b, s''))
through_recorded c record_it e k h = elim (Bool-cases c) [
  | inl p ↦ (p, after (pure tt) (λ _. k) refl (rw p at h))
  | inr p ↦
      through (record_it >> throw e) (λ _. k) (rw p at h)
        (λ u s1 e1 h1.
          through record_it (λ _. throw e) e1
            (λ u' s2 e2 h2. absurd (failed≢done (ap (λ r. r.0) h2))))
]

pub recorded_last :
    {S : Type 0} (c : Bool) (record_it : M S (Unit {0})) (e : Status) {s s' : S}
    → (if c then pure tt else (record_it >> throw e)) s ≡ (done tt, s')
    → (c ≡ true) × (s ≡ s')
recorded_last c record_it e h = elim (Bool-cases c) [
  | inl p ↦ let q = rw p at h in (p, ap (λ r. r.1) q)
  | inr p ↦
      through record_it (λ _. throw e) (rw p at h)
        (λ u s1 e1 h1. absurd (failed≢done (ap (λ r. r.0) h1)))
]

-- A claim on the end of a sequence, from what it is where the first part fails and where it does not.
pub bind_cases :
    {S A B : Type 0} (m : M S A) (f : A → M S B) {s : S} (P : Outcome B × S → Type 0)
    → ((e : Status) (s' : S) → m s ≡ (failed e, s') → P (failed e, s'))
    → ((a : A) (s' : S) → m s ≡ (done a, s') → P (f a s'))
    → P ((m >>= f) s)
unfolding ◌>>=◌
bind_cases {S} {A} {B} m f {s} P fails goes = ends (m s) refl
  where
    ends :
        (r : Outcome A × S)
        → m s ≡ r
        → P (let (x, s') = r in elim x [ done a ↦ f a s' | failed e ↦ (failed e, s') ])
    ends (done a, s') e = goes a s' e
    ends (failed x, s') e = fails x s' e

-- The same, where the first part is a step on a part of the state.
pub zoom_cases :
    {S W A B : Type 0} (part : S → W) (put : W → S → S) (m : M W A) (f : A → M S B) {s : S}
    (P : Outcome B × S → Type 0)
    → ((e : Status) (w : W) → m (part s) ≡ (failed e, w) → P (failed e, put w s))
    → ((a : A) (w : W) → m (part s) ≡ (done a, w) → P (f a (put w s)))
    → P ((zoom part put m >>= f) s)
unfolding ◌>>=◌
zoom_cases {S} {W} {A} part put m f {s} P fails goes = ends (m (part s)) refl
  where
    ends :
        (r : Outcome A × W)
        → m (part s) ≡ r
        → P (let (x, w) = r in elim x [ done a ↦ f a (put w s) | failed e ↦ (failed e, put w s) ])
    ends (done a, w) e = goes a w e
    ends (failed x, w) e = fails x w e
