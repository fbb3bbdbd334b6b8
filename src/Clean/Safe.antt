-- ===== src/Clean/Safe.antt =====
-- What `df_clean_disk` (src/clean.c) has found before it deletes a layout.
use deadflash.Base.{
  ℕ, ◌≡◌, ◌≢◌, refl, ap, ap₂, ◌∙◌, true, false, not, ◌&&◌, inl, inr, Option, none, some, List,
  arith, Bool-cases,
}
use deadflash.Base.Texts.{codes, text_eq-eq}
use deadflash.Clean.{Snapshot}
use deadflash.Clean.Disk.{
  clean_options, is_block_device, is_blank, validate_kind, validate_program, validate_target,
  program_disk, check_locked, compare_locked,
}
use deadflash.Clean.Layout.{Query, layout_equal, query_layout_handle, query_layout_path}
use deadflash.Common.{done, failed, failed≢done}
use deadflash.Common.Monad.{through}
use deadflash.Device.{TargetInfo, TargetKind, regular_file, block_device, char_device, unknown}
use deadflash.Device.Guards.{confirm_token-done}
use deadflash.Windows.{Win, physical_drive}
use deadflash.Windows.Files.{TargetFile, inspect_target, open_target}

-- A removable USB disk that may be written to and is not the system's.
abbrev pub IsUsbDisk : TargetInfo → Type 0
IsUsbDisk target =
    (target.kind ≡ block_device)
    × (target.removable ≡ true)
    × (target.bus_type ≡ codes "windows:7")
    × (target.read_only ≡ false)
    × (target.system_disk ≡ false)

is_block_device-eq : (k : TargetKind) → is_block_device k ≡ true → k ≡ block_device
is_block_device-eq block_device h = refl
is_block_device-eq regular_file h = cc
is_block_device-eq char_device h = cc
is_block_device-eq unknown h = cc

validate_kind-done : (target : TargetInfo) → validate_kind target ≡ done tt → IsUsbDisk target
unfolding validate_kind
validate_kind-done target h =
    ground (arith, is_block_device-eq target.kind, text_eq-eq target.bus_type (codes "windows:7"))

validate_program-done :
    (target : TargetInfo) (disk : ℕ) (token : Option (List ℕ)) (program : Option ℕ)
    → validate_program target disk token program ≡ done tt
    → (p : ℕ) × (program ≡ some p) × (p ≢ disk) × (token ≡ some target.token)
unfolding validate_program
validate_program-done target disk token none h = absurd (failed≢done h)
validate_program-done target disk token (some p) h =
    (p, refl, ground arith, ground (arith, confirm_token-done token target.token))

module _ (win : Win) where
  -- Which disk holds the program has been found out, and it is another one.
  abbrev pub IsElsewhere : ℕ → win.World → win.World → Type 0
  IsElsewhere disk w w' = (p : ℕ) × (program_disk win w ≡ (done (some p), w')) × (p ≢ disk)

  pub validate_target-done :
      (target : TargetInfo) (disk : ℕ) (token : Option (List ℕ)) (w w' : win.World)
      → validate_target win target disk token w ≡ (done tt, w')
      → IsUsbDisk target × IsElsewhere disk w w' × (token ≡ some target.token)
  unfolding validate_target
  validate_target-done target disk token w w' e = through _ _ e (λ u w1 e1 h1.
      through _ _ h1 (λ program w2 e2 h2.
        let (p, is_p, other, given) =
          validate_program-done target disk token program (ap (λ r. r.0) h2) in
        (
          validate_kind-done target (ap (λ r. r.0) e1),
          (p, from p program is_p w1 w2 (ap (λ r. r.1) e1) (ap (λ r. r.1) h2) e2, other),
          given,
        )))
    where
      from :
          (p : ℕ) (program : Option ℕ)
          → program ≡ some p
          → (w1 w2 : win.World) → w ≡ w1
          → w2 ≡ w'
          → program_disk win w1 ≡ (done program, w2)
          → program_disk win w ≡ (done (some p), w')
      from p program is_p w1 w2 a b e =
          ap (program_disk win) a ∙ e ∙ ap (λ x. (done x, w2)) is_p ∙ ap (λ x. (done (some p), x)) b

  -- The layout, asked for with the disk open, is the planned one.
  abbrev pub IsSameLayout : Snapshot → ℕ → win.World → win.World → Type 0
  IsSameLayout planned handle w w' =
      (s : Snapshot) × (query_layout_handle win handle w ≡ (done (done tt, s), w'))
      × (layout_equal planned s ≡ true)

  compare_locked-done :
      (planned : Snapshot) (file : TargetFile) (answer : Query) (w w' : win.World)
      → compare_locked win planned file answer w ≡ (done tt, w')
      → (answer.0 ≡ done tt) × (layout_equal planned answer.1 ≡ true) × (w ≡ w')
  unfolding compare_locked
  compare_locked-done planned file (failed e, s) w w' h = absurd (failed≢done (ap (λ r. r.0) h))
  compare_locked-done planned file (done tt, s) w w' h =
      elim (Bool-cases (layout_equal planned s)) [
        | inl p ↦ (refl, p, ap (λ r. r.1) (rw p at h))
        | inr p ↦ absurd (failed≢done (ap (λ r. r.0) (rw p at h)))
      ]

  pub check_locked-done :
      (planned : Snapshot) (handle : ℕ) (file : TargetFile) (w w' : win.World)
      → check_locked win planned handle file w ≡ (done tt, w')
      → IsSameLayout planned handle w w'
  unfolding check_locked
  check_locked-done planned handle file w w' e = through _ _ e (λ answer w1 e1 h1.
      let (ok, same, at) = compare_locked-done planned file answer w1 w' h1 in
      (answer.1, e1 ∙ ap₂ (λ x y. (done (x, answer.1), y)) ok at, same))

  -- What is found before a layout is deleted, one call after the other.
  abbrev pub IsCleared : Snapshot → List ℕ → Option (List ℕ) → win.World → Type 0
  IsCleared garbage path token w =
      (disk : ℕ) × (before : TargetInfo) × (w1 : win.World) × (w2 : win.World) × (w3 : win.World)
      × (w4 : win.World) × (w5 : win.World) × (planned : Snapshot) × (file : TargetFile)
      × (handle : ℕ) × (physical_drive path ≡ some disk)
      × (inspect_target win path w ≡ (done before, w1))
      × IsUsbDisk before
      × IsElsewhere disk w1 w2
      × (token ≡ some before.token)
      × (query_layout_path win path garbage w2 ≡ (done (done tt, planned), w3))
      × ((is_blank planned && not before.mounted) ≡ false)
      × (open_target win path before (clean_options token) w3 ≡ (done file, w4))
      × (file.file.handle ≡ some handle)
      × IsSameLayout planned handle w4 w5
