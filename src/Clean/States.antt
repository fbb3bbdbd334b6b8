-- ===== src/Clean/States.antt =====
-- The state that `df_clean_disk` (src/clean.c) reports, and what is true of the result in it.
use deadflash.Base.{
  ℕ, zero, suc, ◌≡◌, refl, sym, ap, ◌∙◌, true, false, Option, none, some, List, arith, none≢some,
  ap₂,
}
use deadflash.Base.Texts.{text_eq-eq}
use deadflash.Clean.{
  Snapshot, PartitionStyle, raw, mbr, gpt, unknown_style, CleanRun, CleanResult, CleanState,
  failed_before_clean, success_already_clean, failed_during_clean, clean_unverified,
  success_clean_verified, unsupported,
}
use deadflash.Clean.Disk.{is_blank, accepted_probe, probe_target, probe, verify_loop}
use deadflash.Clean.Layout.{Query, query_layout_path}
use deadflash.Common.{Outcome, done, failed, done_inj}
use deadflash.Common.Monad.{M, pure, through}
use deadflash.Device.{TargetInfo}
use deadflash.Windows.{Win}
use deadflash.Windows.Files.{inspect_target}

abbrev pub IsFailed : Outcome (Unit {0}) → Type 0
IsFailed (done u) = ⊥
IsFailed (failed e) = Unit {0}

-- The disk has answered with a RAW layout of no partition.
abbrev pub IsFoundBlank : (win : Win) → List ℕ → Type 0
IsFoundBlank win path =
    (previous : Snapshot) × (s : Snapshot) × (w : win.World) × (w' : win.World) × (query_layout_path
        win path previous w
      ≡ (done (done tt, s), w'))
    × (s.style ≡ raw)
    × (s.partition_count ≡ 0)

-- A target that was cleaned, as the disk has answered and as the result has it.
abbrev pub IsVerified : Win → List ℕ → CleanResult → Type 0
IsVerified win path result =
    (result.after_style ≡ raw)
    × (result.after_partition_count ≡ 0)
    × (result.after_target.token ≡ result.before_target.token)
    × (result.after_target.mounted ≡ false)
    × IsFoundBlank win path

-- What each state says of the outcome and of the result.
abbrev pub IsConsistentAt : Win → List ℕ → CleanState → Outcome (Unit {0}) → CleanResult → Type 0
IsConsistentAt win path failed_before_clean r result = IsFailed r × (result.layout_deleted ≡ false)
IsConsistentAt win path success_already_clean r result =
    (r ≡ done tt) × (result.layout_deleted ≡ false) × IsVerified win path result
IsConsistentAt win path failed_during_clean r result = IsFailed r × (result.layout_deleted ≡ false)
IsConsistentAt win path clean_unverified r result = IsFailed r × (result.layout_deleted ≡ true)
IsConsistentAt win path success_clean_verified r result =
    (r ≡ done tt) × (result.layout_deleted ≡ true) × IsVerified win path result
IsConsistentAt win path unsupported r result = ⊥

abbrev pub IsConsistent : (win : Win) → List ℕ → Outcome (Unit {0}) × CleanRun win.World → Type 0
IsConsistent win path (r, run) = IsConsistentAt win path run.result.final_state r run.result

pub is_blank-eq : (s : Snapshot) → is_blank s ≡ true → (s.style ≡ raw) × (s.partition_count ≡ 0)
is_blank-eq s h = let style = raw_style s.style h in (style, ground arith)
  where
    raw_style :
        (style : PartitionStyle) → is_blank (record s { style = style }) ≡ true → style ≡ raw
    raw_style raw h = refl
    raw_style mbr h = cc
    raw_style gpt h = cc
    raw_style unknown_style h = cc

-- A probe that is accepted found the token, a blank layout and no mount.
accepted_probe-some :
    (token : List ℕ) (s : Snapshot) (found : Outcome TargetInfo) (target : TargetInfo)
    → accepted_probe token s found ≡ some target
    → (found ≡ done target)
      × (target.token ≡ token)
      × (is_blank s ≡ true)
      × (target.mounted ≡ false)
unfolding accepted_probe
accepted_probe-some token s (failed e) target h = cc
accepted_probe-some token s (done found) target h = ground (arith, text_eq-eq found.token token)

module _ (win : Win) where
  -- A disk, asked for its layout and inspected, was blank, not mounted, and the one of the token.
  abbrev pub IsProbed : List ℕ → List ℕ → Snapshot → TargetInfo → Type 0
  IsProbed path token s target =
      (previous : Snapshot) × (w1 : win.World) × (w2 : win.World) × (w3 : win.World)
      × (query_layout_path win path previous w1 ≡ (done (done tt, s), w2))
      × (inspect_target win path w2 ≡ (done target, w3))
      × (target.token ≡ token)
      × (is_blank s ≡ true)
      × (target.mounted ≡ false)

  probe_target-some :
      (path token : List ℕ) (answer : Query) (s : Snapshot) (target : TargetInfo) (w w' : win.World)
      → probe_target win path token answer w ≡ (done (s, some target), w')
      → (answer ≡ (done tt, s))
        × (accepted_probe token s (inspect_target win path w).0 ≡ some target)
  unfolding probe_target
  probe_target-some path token (failed e, s1) s target w w' h =
      absurd (none≢some (ap (λ r. r.1) (done_inj (ap (λ r. r.0) h))))
  probe_target-some path token (done tt, s1) s target w w' h = through _ _ h (λ found w1 e1 h1.
      let e = done_inj (ap (λ r. r.0) h1) in
      let is_found = done_inj (ap (λ r. r.0) e1) in
      let same = ap (λ r. r.0) e in
      (
        ap (λ x. (done tt, x)) same,
        ap₂ (λ x y. accepted_probe token x y) (sym same) is_found ∙ ap (λ r. r.1) e,
      ))

  probe-some :
      (path token : List ℕ) (previous s : Snapshot) (target : TargetInfo) (w w' : win.World)
      → probe win path token previous w ≡ (done (s, some target), w')
      → IsProbed path token s target
  unfolding probe
  probe-some path token previous s target w w' h = through _ _ h (λ answer w1 e1 h1.
      let (is_answer, accepted) = probe_target-some path token answer s target w1 w' h1 in
      let (found, same, blank, unmounted) =
        accepted_probe-some token s (inspect_target win path w1).0 target accepted in
      (
        previous,
        w,
        w1,
        (inspect_target win path w1).1,
        e1 ∙ ap (λ x. (done x, w1)) is_answer,
        ap (λ x. (x, (inspect_target win path w1).1)) found,
        same,
        blank,
        unmounted,
      ))

  -- The verification succeeds only with such a probe.
  pub verify_loop-some :
      (n : ℕ) (path token : List ℕ) (previous s : Snapshot) (target : TargetInfo) (w w' : win.World)
      → verify_loop win n path token previous w ≡ (done (s, some target), w')
      → IsProbed path token s target
  unfolding verify_loop
  verify_loop-some zero path token previous s target w w' h =
      absurd (none≢some (ap (λ r. r.1) (done_inj (ap (λ r. r.0) h))))
  verify_loop-some (suc n) path token previous s target w w' h = through _ _ h (λ found w1 e1 h1.
      ended (λ p v. verify_loop-some n path token p s target v w') found.0 found.1 w1 e1 h1)
    where
      ended :
          ((p : Snapshot) (v : win.World)
            → verify_loop win n path token p v ≡ (done (s, some target), w')
            → IsProbed path token s target)
          → (s1 : Snapshot) (o : Option TargetInfo) (w1 : win.World)
          → probe win path token previous w ≡ (done (s1, o), w1)
          → (elim o as (λ _. M win.World (Snapshot × Option TargetInfo)) [
            | some t ↦ pure (s1, o)
            | none ↦ (λ v. verify_loop win n path token s1 (win.sleep 250 v))
          ])
              w1
            ≡ (done (s, some target), w')
          → IsProbed path token s target
      ended ih s1 none w1 e1 h1 = ih s1 (win.sleep 250 w1) h1
      ended ih s1 (some t) w1 e1 h1 =
          probe-some path token previous s target w w1 (e1 ∙ ap (λ x. (x, w1)) (ap (λ r. r.0) h1))
