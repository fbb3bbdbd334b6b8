-- ===== src/Clean/Guarded.antt =====
-- `df_clean_disk` (src/clean.c) changes nothing of a disk unless all its guards were passed.
use deadflash.Base.{
  ℕ, ◌≡◌, refl, sym, ap, ◌∙◌, Bool, true, false, ◌⊎◌, inl, inr, Option, none, some, List, [], ◌∷◌,
  if◌then◌else◌,
}
use deadflash.Clean.{Snapshot, CleanRun, CleanResult, on_world, set_result, clean_result_reset}
use deadflash.Clean.Disk.{
  clean_disk, clean_body, clean_found, clean_planned, clean_options, validate_target, check_locked,
  require_drive, require_layout,
}
use deadflash.Clean.Layout.{Query, query_layout_path}
use deadflash.Clean.Looking.{query_layout_path-Keeps, validate_target-Keeps, check_locked-Keeps}
use deadflash.Clean.Safe.{IsCleared, validate_target-done, check_locked-done}
use deadflash.Common.{Status, Outcome, done, failed}
use deadflash.Common.Monad.{M, ◌>>=◌, ◌>>◌, zoom_cases}
use deadflash.Windows.{Win, physical_drive}
use deadflash.Windows.Files.{inspect_target, open_target}
use deadflash.Windows.Inspecting.{inspect_target-Keeps, open_target-Keeps}
use deadflash.Windows.Kept.{Observed, Keeps}
use deadflash.Windows.Volumes.{require_handle}

module _ (win : Win) {X : Type 0} (o : Observed win X) (garbage : Snapshot) (path : List ℕ)
    (token : Option (List ℕ)) (w0 : win.World) where
  open o use {seen}

  -- What is seen is as it was, or all guards were passed.
  abbrev IsSafeEnd : Outcome (Unit {0}) × CleanRun win.World → Type 0
  IsSafeEnd (r, run) = (seen run.world ≡ seen w0) ⊎ IsCleared win garbage path token w0

  -- A step that only looks, and what follows it.
  looked :
      {A : Type 0} (m : M win.World A) (f : A → M (CleanRun win.World) (Unit {0}))
      (run : CleanRun win.World)
      → Keeps seen m
      → seen run.world ≡ seen w0
      → ((a : A) (w : win.World)
          → m run.world ≡ (done a, w)
          → seen w ≡ seen w0
          → IsSafeEnd (f a (record run { world = w })))
      → IsSafeEnd ((on_world m >>= f) run)
  looked m f run k same goes =
      zoom_cases (λ run. run.world) (λ w run. record run { world = w }) m f IsSafeEnd
        (λ e w eq. inl (still w (ap (λ r. r.1) eq)))
        (λ a w eq. goes a w eq (still w (ap (λ r. r.1) eq)))
    where
      still : (w : win.World) → (m run.world).1 ≡ w → seen w ≡ seen w0
      still w eq = ap seen (sym eq) ∙ k.keep run.world ∙ same

  -- The steps that change nothing but the result, or decide whether to go on.
  module _ (run : CleanRun win.World) (same : seen run.world ≡ seen w0) where
    handled :
        (e : Status) (h : Option ℕ) (f : ℕ → M (CleanRun win.World) (Unit {0}))
        → ((n : ℕ) → h ≡ some n → IsSafeEnd (f n run))
        → IsSafeEnd ((require_handle e h >>= f) run)
    unfolding ◌>>=◌
    handled e none f goes = inl same
    handled e (some n) f goes = goes n refl

    numbered :
        (d : Option ℕ) (f : ℕ → M (CleanRun win.World) (Unit {0}))
        → ((n : ℕ) → d ≡ some n → IsSafeEnd (f n run))
        → IsSafeEnd ((require_drive d >>= f) run)
    unfolding ◌>>=◌
    numbered none f goes = inl same
    numbered (some n) f goes = goes n refl

    answered :
        (answer : Query) (f : Snapshot → M (CleanRun win.World) (Unit {0}))
        → ((s : Snapshot) → answer ≡ (done tt, s) → IsSafeEnd (f s run))
        → IsSafeEnd ((require_layout answer >>= f) run)
    unfolding ◌>>=◌
    answered (failed e, s) f goes = inl same
    answered (done tt, s) f goes = goes s refl

  recorded :
      (g : CleanResult → CleanResult) (k : M (CleanRun win.World) (Unit {0}))
      (run : CleanRun win.World)
      → IsSafeEnd (k (record run { result = g run.result }))
      → IsSafeEnd ((set_result g >> k) run)
  unfolding ◌>>=◌
  recorded g k run h = h

  -- A blank disk is left alone.
  left_alone :
      (b : Bool) (g : CleanResult → CleanResult) (k : M (CleanRun win.World) (Unit {0}))
      (run : CleanRun win.World)
      → seen run.world ≡ seen w0
      → (b ≡ false → IsSafeEnd (k run))
      → IsSafeEnd ((if b then set_result g else k) run)
  left_alone true g k run same goes = inl same
  left_alone false g k run same goes = goes refl

  -- All guards, once the layout under the locks is the planned one.
  clean_body-IsSafeEnd :
      (result : CleanResult)
      → IsSafeEnd (clean_body win garbage path token (record { world = w0; result = result }))
  unfolding clean_body clean_found clean_planned
  clean_body-IsSafeEnd result = numbered _ refl (physical_drive path) _ (λ disk is_drive.
      recorded _ _ _ (
        looked (inspect_target win path) _ _ (inspect_target-Keeps win o path) refl
          (λ before w1 found same1. recorded _ _ _ (
            looked (validate_target win before disk token) _ _
              (validate_target-Keeps win o before disk token) same1
              (λ u w2 valid same2.
                looked (query_layout_path win path garbage) _ _
                  (query_layout_path-Keeps win o path garbage) same2
                  (λ answer w3 asked same3. answered _ same3 answer _ (λ planned is_planned.
                    recorded _ _ _ (
                      left_alone _ _ _ _ same3 (λ not_clean.
                        looked (open_target win path before (clean_options token)) _ _
                          (open_target-Keeps win o path before (clean_options token)) same3
                          (λ file w4 opened same4.
                            handled _ same4 _ file.file.handle _ (λ handle is_handle.
                              looked (check_locked win planned handle file) _ _
                                (check_locked-Keeps win o planned handle file) same4
                                (λ v w5 checked same5.
                                  let (usb, elsewhere, given) =
                                    validate_target-done win before disk token w1 w2 valid in
                                  inr (
                                    disk,
                                    before,
                                    w1,
                                    w2,
                                    w3,
                                    w4,
                                    w5,
                                    planned,
                                    file,
                                    handle,
                                    is_drive,
                                    found,
                                    usb,
                                    elsewhere,
                                    given,
                                    asked ∙ ap (λ x. (done x, w3)) is_planned,
                                    not_clean,
                                    opened,
                                    is_handle,
                                    check_locked-done win planned handle file w4 w5 checked,
                                  )))))))))))))

-- However df_clean_disk ends, what is seen of the disk is as it was before, or it had passed all its
-- guards: the path names a physical drive; the disk behind it was a removable USB disk that is neither
-- read-only nor the system's; the program was found to run from another disk; the confirmation was the
-- disk's token; the disk was not both unmounted and found with a RAW layout of no partition;
-- df_open_target succeeded on it; and its layout, asked for through the handle, was then equal to the
-- one found before. What is seen is anything that only the call that deletes a layout changes.
pub clean_disk_guarded :
    (win : Win) {X : Type 0} (o : Observed win X) (garbage : Snapshot) (path : List ℕ)
    (token : Option (List ℕ)) (run : CleanRun win.World)
    → (o.seen (clean_disk win garbage path token run).1.world ≡ o.seen run.world)
      ⊎ IsCleared win garbage path token run.world
unfolding clean_disk
clean_disk_guarded win o garbage [] token run = inl refl
clean_disk_guarded win o garbage (c ∷ path) token run =
    clean_body-IsSafeEnd win o garbage (c ∷ path) token run.world clean_result_reset
