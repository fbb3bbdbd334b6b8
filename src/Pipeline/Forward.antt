-- ===== src/Pipeline/Forward.antt =====
-- The order of the calls of the progress callback, and how the steps of src/pipeline.c keep it.
pub mod Parts
pub mod Writing
pub mod Sampling
pub mod Verifying
pub mod Whole
use deadflash.Base.{
  ℕ, ◌+◌, ◌*◌, ◌^◌, ◌≤◌, ◌<◌, ◌≡◌, refl, sym, ap, ◌∙◌, List, [], ◌∷◌, arith, Bool, true, false,
  if◌then◌else◌,
}
use deadflash.Common.{Status, Outcome, done, failed}
use deadflash.Common.Monad.{M, ◌>>=◌, pure, throw, bind_cases, zoom_cases}
use deadflash.Device.{File}
use deadflash.Pipeline.{
  Run, Progress, Phase, prepare, hash_source, write_phase, flush_phase, verify_phase, complete, io,
  notify, set_source, set_target, attempt, give, WriteResult,
}

abbrev pub rank : Phase → ℕ
rank prepare = 0
rank hash_source = 1
rank write_phase = 2
rank flush_phase = 3
rank verify_phase = 4
rank complete = 5

-- How far a call is: by its phase first, then by what is done of it.
abbrev pub place : Progress → ℕ
place p = rank p.phase * 2 ^ 64 + p.completed

-- Calls, from the last to the first, that never go back and end at a place at most. Each has done no
-- more than its total, which is a 64-bit number.
abbrev pub IsForward : ℕ → List Progress → Type 0
IsForward most [] = Unit {0}
IsForward most (p ∷ calls) =
    (place p ≤ most) × (p.completed ≤ p.total) × (p.total < 2 ^ 64) × IsForward (place p) calls

pub IsForward-mono :
    (a b : ℕ) (calls : List Progress) → a ≤ b → IsForward a calls → IsForward b calls
IsForward-mono a b [] le h = tt
IsForward-mono a b (p ∷ calls) le (h, done_part, small, rest) =
    (omega arith, done_part, small, rest)

module _ {W : Type 0} where
  -- A run that has come to a place, with these counts.
  abbrev pub IsAt : ℕ → ℕ → ℕ → Run W → Type 0
  IsAt most written verified run =
      IsForward most run.progress
      × (run.result.bytes_written ≡ written)
      × (run.result.bytes_verified ≡ verified)

  -- The end of a step: where it succeeds, the counts are known too.
  abbrev pub IsEnd : {A : Type 0} → ℕ → ℕ → ℕ → Outcome A × Run W → Type 0
  IsEnd most written verified (done a, run) = IsAt most written verified run
  IsEnd most written verified (failed e, run) = IsForward most run.progress

  pub record Steps {A : Type 0} (m : M (Run W) A) (a n v b n' v' : ℕ) : Type 0 where
    pub step : (run : Run W) → IsAt a n v run → IsEnd b n' v' (m run)

  -- The same, without the counts at the end.
  pub record Reaches {A : Type 0} (m : M (Run W) A) (a n v b : ℕ) : Type 0 where
    pub reach : (run : Run W) → IsAt a n v run → IsForward b (m run).1.progress

  -- The same, from any counts.
  pub record Moves {A : Type 0} (m : M (Run W) A) (a b : ℕ) : Type 0 where
    pub move : (run : Run W) → IsForward a run.progress → IsForward b (m run).1.progress

  pub IsEnd-IsForward :
      {A : Type 0} (b n v : ℕ) (r : Outcome A × Run W) → IsEnd b n v r → IsForward b r.1.progress
  IsEnd-IsForward b n v (done a, run) h = h.0
  IsEnd-IsForward b n v (failed e, run) h = h

  pub then-Steps :
      {A B : Type 0} {m : M (Run W) A} {f : A → M (Run W) B} {a n v b n' v' c n'' v'' : ℕ}
      → Steps m a n v b n' v'
      → b ≤ c
      → ((x : A) → Steps (f x) b n' v' c n'' v'')
      → Steps (m >>= f) a n v c n'' v''
  then-Steps {m} {f} {b} {n'} {v'} {c} {n''} {v''} h le k = record {
    step = λ run at.
        bind_cases m f (IsEnd c n'' v'')
          (λ e s eq. IsForward-mono b c s.progress le (rw eq at (h.step run at)))
          (λ x s eq. (k x).step s (rw eq at (h.step run at)));
  }

  pub then-Reaches :
      {A B : Type 0} {m : M (Run W) A} {f : A → M (Run W) B} {a n v b n' v' c : ℕ}
      → Steps m a n v b n' v'
      → b ≤ c
      → ((x : A) → Reaches (f x) b n' v' c)
      → Reaches (m >>= f) a n v c
  then-Reaches {m} {f} {b} {c} h le k = record {
    reach = λ run at.
        bind_cases m f (λ r. IsForward c r.1.progress)
          (λ e s eq. IsForward-mono b c s.progress le (rw eq at (h.step run at)))
          (λ x s eq. (k x).reach s (rw eq at (h.step run at)));
  }

  pub then-Moves :
      {A B : Type 0} {m : M (Run W) A} {f : A → M (Run W) B} {a n v b c : ℕ}
      → Reaches m a n v b
      → b ≤ c
      → ((x : A) → Moves (f x) b c)
      → Reaches (m >>= f) a n v c
  then-Moves {m} {f} {b} {c} h le k = record {
    reach = λ run at.
        bind_cases m f (λ r. IsForward c r.1.progress)
          (λ e s eq. IsForward-mono b c s.progress le (rw eq at (h.reach run at)))
          (λ x s eq. (k x).move s (rw eq at (h.reach run at)));
  }

  pub both_move :
      {A B : Type 0} {m : M (Run W) A} {f : A → M (Run W) B} {a b c : ℕ}
      → Moves m a b
      → b ≤ c
      → ((x : A) → Moves (f x) b c)
      → Moves (m >>= f) a c
  both_move {m} {f} {b} {c} h le k = record {
    move = λ run at.
        bind_cases m f (λ r. IsForward c r.1.progress)
          (λ e s eq. IsForward-mono b c s.progress le (rw eq at (h.move run at)))
          (λ x s eq. (k x).move s (rw eq at (h.move run at)));
  }

  pub pure-Steps : {A : Type 0} (x : A) (a n v : ℕ) → Steps (pure x) a n v a n v
  pure-Steps x a n v = record { step = λ run at. at }

  pub give-Steps : {A : Type 0} (r : Outcome A) (a n v : ℕ) → Steps (give r) a n v a n v
  give-Steps (done x) a n v = record { step = λ run at. at }
  give-Steps (failed e) a n v = record { step = λ run at. at.0 }

  pub guard-Steps :
      (c : Bool) (e : Status) (a n v : ℕ) → Steps (if c then throw e else pure tt) a n v a n v
  guard-Steps true e a n v = record { step = λ run at. at.0 }
  guard-Steps false e a n v = record { step = λ run at. at }

  pub require-Steps :
      (c : Bool) (e : Status) (a n v : ℕ) → Steps (if c then pure tt else throw e) a n v a n v
  require-Steps true e a n v = record { step = λ run at. at }
  require-Steps false e a n v = record { step = λ run at. at.0 }

  -- A call of the device layer, and what follows it for the results that it can give.
  pub io-Steps : {A : Type 0} (m : M W A) (a n v : ℕ) → Steps (io m) a n v a n v
  io-Steps {A} m a n v = record { step = λ run at. ended run (m run.world) at }
    where
      ended :
          (run : Run W) (r : Outcome A × W)
          → IsAt a n v run
          → IsEnd a n v (let (x, w) = r in (x, record run { world = w }))
      ended run (done x, w) at = at
      ended run (failed e, w) at = at.0

  pub after_io :
      {A B : Type 0} (m : M W A) {f : A → M (Run W) B} {a n v b : ℕ}
      → a ≤ b
      → ((x : A) (w w' : W) → m w ≡ (done x, w') → Reaches (f x) a n v b)
      → Reaches (io m >>= f) a n v b
  after_io m {f} {a} {n} {v} {b} le k = record {
    reach = λ run at.
        zoom_cases (λ run. run.world) (λ w run. record run { world = w }) m f
          (λ r. IsForward b r.1.progress) (λ e w eq. IsForward-mono a b run.progress le at.0)
          (λ x w eq. (k x run.world w eq).reach (record run { world = w }) at);
  }

  pub notify-Steps :
      (phase : Phase) (completed total a n v : ℕ)
      → a ≤ rank phase * 2 ^ 64 + completed
      → completed ≤ total
      → total < 2 ^ 64
      → Steps (notify phase completed total) a n v (rank phase * 2 ^ 64 + completed) n v
  notify-Steps phase completed total a n v le part small = record {
    step =
        λ run at. ((omega arith, part, small, IsForward-mono a _ run.progress le at.0), at.1, at.2);
  }

  pub notify-Moves :
      (phase : Phase) (completed total a : ℕ)
      → a ≤ rank phase * 2 ^ 64 + completed
      → completed ≤ total
      → total < 2 ^ 64
      → Moves (notify phase completed total) a (rank phase * 2 ^ 64 + completed)
  notify-Moves phase completed total a le part small = record {
    move = λ run h. (omega arith, part, small, IsForward-mono a _ run.progress le h);
  }

  pub reach-Steps :
      {A : Type 0} {m : M (Run W) A} {a n v b n' v' c : ℕ}
      → Steps m a n v b n' v'
      → b ≤ c
      → Reaches m a n v c
  reach-Steps {b} {n'} {v'} {c} h le = record {
    reach = λ run at. IsForward-mono b c _ le (IsEnd-IsForward b n' v' _ (h.step run at));
  }

  pub reach_mono :
      {A : Type 0} {m : M (Run W) A} {a n v b c : ℕ} → Reaches m a n v b → b ≤ c → Reaches m a n v c
  reach_mono {b} {c} h le = record { reach = λ run at. IsForward-mono b c _ le (h.reach run at) }

  pub set_source-Steps : (file : File) (a n v : ℕ) → Steps (set_source file) a n v a n v
  set_source-Steps file a n v = record { step = λ run at. at }

  pub set_target-Steps : (file : File) (a n v : ℕ) → Steps (set_target file) a n v a n v
  set_target-Steps file a n v = record { step = λ run at. at }
