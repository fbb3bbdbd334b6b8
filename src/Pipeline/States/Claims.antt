-- ===== src/Pipeline/States/Claims.antt =====
-- What the state of a run of `df_write_image` (src/pipeline.c) says of its counts.
use mathlib.Core.Path.{subst}
use deadflash.Base.{ℕ, zero, suc, ◌≤◌, ◌<◌, ◌≡◌, ◌≢◌, refl, sym, arith}
use deadflash.Common.{Outcome, VerifyMode, verify_none, verify_sample, verify_full}
use deadflash.Pipeline.{
  Run, WriteResult, FinalState, state_unset, failed_before_write, failed_partial_media,
  verification_failed, success_unverified, success_verified, plan_breach_partial_media,
}
use deadflash.Pipeline.States.{Claim, Ends}

-- The state of a run that failed, with the size of the source and the bytes counted as written.
abbrev pub IsStopped : VerifyMode → FinalState → ℕ → ℕ → Type 0
IsStopped mode failed_before_write size written = written ≡ 0
IsStopped mode failed_partial_media size written = written ≤ size
IsStopped mode verification_failed size written =
    (mode ≢ verify_none) × (0 < written) × (written ≡ size)
IsStopped mode state_unset size written = ⊥
IsStopped mode success_unverified size written = ⊥
IsStopped mode success_verified size written = ⊥
IsStopped mode plan_breach_partial_media size written = ⊥

-- The state of a run that succeeded.
abbrev pub IsFinished : VerifyMode → FinalState → ℕ → ℕ → Type 0
IsFinished mode success_unverified size written =
    (mode ≡ verify_none) × (0 < written) × (written ≡ size)
IsFinished mode success_verified size written =
    (mode ≢ verify_none) × (0 < written) × (written ≡ size)
IsFinished mode failed_before_write size written = ⊥
IsFinished mode failed_partial_media size written = ⊥
IsFinished mode verification_failed size written = ⊥
IsFinished mode state_unset size written = ⊥
IsFinished mode plan_breach_partial_media size written = ⊥

abbrev pub Stopped : VerifyMode → Claim
Stopped mode r = IsStopped mode r.final_state r.source_size r.bytes_written

abbrev pub Finished : VerifyMode → Claim
Finished mode r = IsFinished mode r.final_state r.source_size r.bytes_written

abbrev pub IsConsistent : {W : Type 0} → VerifyMode → Outcome (Unit {0}) × Run W → Type 0
IsConsistent mode = Ends (Finished mode) (Stopped mode)

-- Before the first write.
abbrev pub Unwritten : Claim
Unwritten r = (r.final_state ≡ failed_before_write) × (r.bytes_written ≡ 0)

-- The state that a count of written bytes goes with.
abbrev pub state_at : ℕ → FinalState
state_at zero = failed_before_write
state_at (suc n) = failed_partial_media

-- In the loop, with the first bytes of a source of a size written.
abbrev pub Streaming : ℕ → ℕ → Claim
Streaming size offset r =
    (r.final_state ≡ state_at offset)
    × (r.bytes_written ≡ offset)
    × (r.source_size ≡ size)
    × (0 < size)
    × (offset ≤ size)

pub Unwritten-Stopped : (mode : VerifyMode) (r : WriteResult) → Unwritten r → Stopped mode r
Unwritten-Stopped mode r (state, count) =
    subst (λ s. IsStopped mode s r.source_size r.bytes_written) (sym state) count

pub Streaming-Stopped :
    (mode : VerifyMode) (size offset : ℕ) (r : WriteResult)
    → Streaming size offset r
    → Stopped mode r
Streaming-Stopped mode size zero r (state, count, whole, some_bytes, le) =
    Unwritten-Stopped mode r (state, count)
Streaming-Stopped mode size (suc n) r (state, count, whole, some_bytes, le) =
    subst (λ s. IsStopped mode s r.source_size r.bytes_written) (sym state)
      (omega (arith, count, whole, le))

pub state_at-partial : (n : ℕ) → 0 < n → state_at n ≡ failed_partial_media
state_at-partial zero h = absurd (omega arith)
state_at-partial (suc n) h = refl

pub sample≢none : verify_sample ≢ verify_none
sample≢none e = cc

pub full≢none : verify_full ≢ verify_none
full≢none e = cc
