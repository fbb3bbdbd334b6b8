-- ===== src/Pipeline/States.antt =====
-- Claims on the result of a run of src/pipeline.c, kept or changed by its steps, and what its state says of its counts.
pub mod Claims
pub mod Writing
pub mod Consistent
use mathlib.Core.Path.{subst}
use deadflash.Base.{
  ℕ, ◌≡◌, refl, sym, ap, ◌∙◌, Bool, true, false, if◌then◌else◌, Bool-cases, inl, inr,
}
use deadflash.Common.{Status, Outcome, done, failed}
use deadflash.Common.Monad.{M, ◌>>=◌, ◌>>◌, pure, throw, bind_cases, zoom_cases}
use deadflash.Device.{File, TargetInfo}
use deadflash.Pipeline.{
  Run, WriteResult, Phase, io, notify, set_result, set_source, set_target, set_planned, give,
  attempt,
}

abbrev pub Claim : Type 1
Claim = WriteResult → Type 0

module _ {W : Type 0} where
  abbrev pub Ends : {A : Type 0} → Claim → Claim → Outcome A × Run W → Type 0
  Ends good bad (done a, run) = good run.result
  Ends good bad (failed e, run) = bad run.result

  -- What holds where a step succeeds, and where it fails.
  pub record Holds {A : Type 0} (m : M (Run W) A) (start good bad : Claim) : Type 0 where
    pub holds : (run : Run W) → start run.result → Ends good bad (m run)

  -- A step that leaves the result alone.
  pub record Quiet {A : Type 0} (m : M (Run W) A) : Type 0 where
    pub quiet : (run : Run W) → (m run).1.result ≡ run.result

  pub then-Holds :
      {A B : Type 0} {m : M (Run W) A} {f : A → M (Run W) B} {P Q S R : Claim}
      → Holds m P Q R
      → ((x : A) → Holds (f x) Q S R)
      → Holds (m >>= f) P S R
  then-Holds {m} {f} {P} {Q} {S} {R} h k = record {
    holds = λ run p.
        bind_cases m f (Ends S R) (λ e s eq. rw eq at (h.holds run p))
          (λ x s eq. (k x).holds s (rw eq at (h.holds run p)));
  }

  pub then-Quiet :
      {A B : Type 0} {m : M (Run W) A} {f : A → M (Run W) B}
      → Quiet m
      → ((x : A) → Quiet (f x))
      → Quiet (m >>= f)
  then-Quiet {m} {f} h k = record {
    quiet = λ run.
        bind_cases m f (λ r. r.1.result ≡ run.result)
          (λ e s eq. ap (λ r. r.1.result) (sym eq) ∙ h.quiet run)
          (λ x s eq. (k x).quiet s ∙ ap (λ r. r.1.result) (sym eq) ∙ h.quiet run);
  }

  pub Quiet-Holds :
      {A : Type 0} {m : M (Run W) A} {P R : Claim}
      → Quiet m
      → ((r : WriteResult) → P r → R r)
      → Holds m P P R
  Quiet-Holds {A} {m} {P} {R} h fails = record { holds = λ run p. ends run (m run) (h.quiet run) p }
    where
      ends :
          (run : Run W) (x : Outcome A × Run W)
          → x.1.result ≡ run.result
          → P run.result
          → Ends P R x
      ends run (done a, s) e p = subst P (sym e) p
      ends run (failed x, s) e p = fails s.result (subst P (sym e) p)

  pub weaken :
      {A : Type 0} {m : M (Run W) A} {P P' Q R : Claim}
      → ((r : WriteResult) → P' r → P r)
      → Holds m P Q R
      → Holds m P' Q R
  weaken h k = record { holds = λ run p. k.holds run (h run.result p) }

  pub set_result-Holds :
      {P Q R : Claim} (f : WriteResult → WriteResult)
      → ((r : WriteResult) → P r → Q (f r))
      → Holds (set_result f) P Q R
  set_result-Holds f h = record { holds = λ run p. h run.result p }

  pub notify-Holds :
      {P R : Claim} (phase : Phase) (completed total : ℕ)
      → Holds (notify phase completed total) P P R
  notify-Holds phase completed total = record { holds = λ run p. p }

  pub pure-Holds : {A : Type 0} {P R : Claim} (x : A) → Holds (pure x) P P R
  pure-Holds x = record { holds = λ run p. p }

  pub io-Quiet : {A : Type 0} (m : M W A) → Quiet (io m)
  io-Quiet m = record { quiet = λ run. refl }

  pub attempt-Quiet : {A : Type 0} {m : M (Run W) A} → Quiet m → Quiet (attempt m)
  attempt-Quiet h = record { quiet = λ run. h.quiet run }

  pub notify-Quiet : (phase : Phase) (completed total : ℕ) → Quiet (notify phase completed total)
  notify-Quiet phase completed total = record { quiet = λ run. refl }

  pub pure-Quiet : {A : Type 0} (x : A) → Quiet (pure x)
  pure-Quiet x = record { quiet = λ run. refl }

  pub throw-Quiet : {A : Type 0} (e : Status) → Quiet {A = A} (throw e)
  throw-Quiet e = record { quiet = λ run. refl }

  pub give-Quiet : {A : Type 0} (x : Outcome A) → Quiet (give x)
  give-Quiet x = record { quiet = λ run. refl }

  pub set_source-Quiet : (file : File) → Quiet (set_source file)
  set_source-Quiet file = record { quiet = λ run. refl }

  pub set_target-Quiet : (file : File) → Quiet (set_target file)
  set_target-Quiet file = record { quiet = λ run. refl }

  pub set_planned-Quiet : (info : TargetInfo) → Quiet (set_planned info)
  set_planned-Quiet info = record { quiet = λ run. refl }

  pub if-Quiet :
      {A : Type 0} (c : Bool) {m m' : M (Run W) A}
      → Quiet m
      → Quiet m'
      → Quiet (if c then m else m')
  if-Quiet true h k = h
  if-Quiet false h k = k

  -- A guard, and what follows where it is passed.
  pub guard-Holds :
      {B : Type 0} {k : M (Run W) B} {P S R : Claim} (c : Bool) (e : Status)
      → ((r : WriteResult) → P r → R r)
      → (c ≡ false → Holds k P S R)
      → Holds ((if c then throw e else pure tt) >> k) P S R
  unfolding ◌>>=◌
  guard-Holds true e fails h = record { holds = λ run p. fails run.result p }
  guard-Holds false e fails h = record { holds = λ run p. (h refl).holds run p }

  -- A call of the device layer, and what follows for what it gave.
  pub after_io-Holds :
      {A B : Type 0} (m : M W A) {f : A → M (Run W) B} {P S R : Claim}
      → ((r : WriteResult) → P r → R r)
      → ((x : A) (w w' : W) → m w ≡ (done x, w') → Holds (f x) P S R)
      → Holds (io m >>= f) P S R
  after_io-Holds m {f} {P} {S} {R} fails k = record {
    holds = λ run p.
        zoom_cases (λ run. run.world) (λ w run. record run { world = w }) m f (Ends S R)
          (λ e w eq. fails run.result p)
          (λ x w eq. (k x run.world w eq).holds (record run { world = w }) p);
  }
