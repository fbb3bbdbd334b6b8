-- ===== src/Clean/Disk.antt =====
-- `df_clean_disk` of src/clean.c. The target found by an inspection that fails is left out of the result.
use deadflash.Base.{
  ℕ, zero, suc, Bool, true, false, not, ◌&&◌, ◌||◌, Option, none, some, List, [], ◌∷◌, leb, ◌==◌,
  if◌then◌else◌, length,
}
use deadflash.Base.Texts.{codes, text_eq}
use deadflash.Clean.{
  raw, PartitionStyle, unknown_style, mbr, gpt, Snapshot, CleanRun, clean_result_reset, on_world,
  set_result, success_already_clean, failed_during_clean, clean_unverified, success_clean_verified,
  unsupported,
}
use deadflash.Clean.Layout.{Query, layout_equal, query_layout_handle, query_layout_path}
use deadflash.Common.{
  err_invalid_argument, err_device_required, err_device_forbidden, err_permission, err_system_disk,
  err_internal, err_identity_changed, err_io, err_verify_mismatch, err_unsupported, Outcome, done,
  failed, verify_none,
}
use deadflash.Common.Monad.{M, ◌>>=◌, ◌>>◌, pure, throw, call}
use deadflash.Device.{TargetInfo, WriteOptions, TargetKind, block_device, confirm_token}
use deadflash.Windows.{Win, physical_drive, attempt, finally}
use deadflash.Windows.Files.{TargetFile, inspect_target, open_target, close_file, settle}
use deadflash.Windows.Volumes.{require_handle, volume_path}

abbrev is_raw : PartitionStyle → Bool
is_raw raw = true
is_raw unknown_style = false
is_raw mbr = false
is_raw gpt = false

abbrev pub is_block_device : TargetKind → Bool
is_block_device block_device = true
is_block_device _ = false

-- RAW with no partition
abbrev pub is_blank : Snapshot → Bool
is_blank s = is_raw s.style && (s.partition_count == 0)

abbrev pub is_usb_target : TargetInfo → Bool
is_usb_target target = text_eq target.bus_type (codes "windows:7")

-- The guards that come before the question which disk holds the program.
unfoldable pub validate_kind : TargetInfo → Outcome (Unit {0})
validate_kind target =
    if not (is_block_device target.kind)
    then failed err_device_required
    else if not target.removable || not (is_usb_target target)
    then failed err_device_forbidden
    else if target.read_only
    then failed err_permission
    else if target.system_disk
    then failed err_system_disk
    else done tt

-- Those that come after it.
unfoldable pub validate_program : TargetInfo → ℕ → Option (List ℕ) → Option ℕ → Outcome (Unit {0})
unfolding confirm_token
validate_program target disk token none = failed err_internal
validate_program target disk token (some program) =
    if program == disk then failed err_system_disk else confirm_token token target.token

-- The options that df_clean_disk makes.
abbrev pub clean_options : Option (List ℕ) → WriteOptions
clean_options token = record {
  buffer_size = 0;
  write_retries = 0;
  verify_mode = verify_none;
  sample_count = 0;
  allow_device = true;
  force_mounted = true;
  force_system_disk = false;
  direct_io = false;
  truncate_regular_file = false;
  confirmation_token = token;
}

-- A number, or the status of there being none.
abbrev pub require_drive : {S : Type 0} → Option ℕ → M S ℕ
require_drive none = throw err_device_required
require_drive (some n) = pure n

-- What a query gave, or its status.
abbrev pub require_layout : {S : Type 0} → Query → M S Snapshot
require_layout (done u, s) = pure s
require_layout (failed e, s) = throw e

-- The letter of a path to the program, where it has one and the path fits DF_MAX_PATH_CHARS.
unfoldable pub drive_letter : List ℕ → Option ℕ
drive_letter [] = none
drive_letter (c ∷ []) = none
drive_letter (c ∷ d ∷ path) =
    if leb 4096 (length (c ∷ d ∷ path)) || not (d == b':') then none else some c

-- An inspection that shows the disk that was cleaned, blank and not mounted.
unfoldable pub accepted_probe : List ℕ → Snapshot → Outcome TargetInfo → Option TargetInfo
accepted_probe token s (failed e) = none
accepted_probe token s (done target) =
    if text_eq target.token token && is_blank s && not target.mounted then some target else none

module _ (win : Win) where
  unfoldable pub numbered_drive : Option ℕ → M win.World (Option ℕ)
  numbered_drive none = pure none
  numbered_drive (some handle) = finally (call (win.device_number handle)) (win.close handle)

  -- df_clean_disk_for_drive_letter
  unfoldable pub disk_for_drive_letter : Option ℕ → M win.World (Option ℕ)
  unfolding numbered_drive
  disk_for_drive_letter none = pure none
  disk_for_drive_letter (some letter) =
      call (win.open_query (volume_path letter)) >>= numbered_drive

  -- df_clean_program_disk
  unfoldable pub program_disk : M win.World (Option ℕ)
  unfolding disk_for_drive_letter drive_letter
  program_disk = do path ← call win.module_path; disk_for_drive_letter (drive_letter path)

  -- df_clean_validate_target
  unfoldable pub validate_target : TargetInfo → ℕ → Option (List ℕ) → M win.World (Unit {0})
  unfolding validate_kind program_disk validate_program
  validate_target target disk token = do
    settle (validate_kind target)
    program ← program_disk
    settle (validate_program target disk token program)

  -- An attempt of the verification: the snapshot it leaves, and the target where it is accepted.
  unfoldable pub probe_target : List ℕ → List ℕ → Query → M win.World (Snapshot × Option TargetInfo)
  unfolding accepted_probe
  probe_target path token (failed e, s) = pure (s, none)
  probe_target path token (done u, s) =
      attempt (inspect_target win path) >>= λ found. pure (s, accepted_probe token s found)

  unfoldable pub probe : List ℕ → List ℕ → Snapshot → M win.World (Snapshot × Option TargetInfo)
  unfolding probe_target
  probe path token previous = query_layout_path win path previous >>= probe_target path token

  -- The attempts that are left, with a pause after each that is not accepted.
  unfoldable pub verify_loop :
      ℕ → List ℕ → List ℕ → Snapshot → M win.World (Snapshot × Option TargetInfo)
  unfolding probe
  verify_loop zero path token previous = pure (previous, none)
  verify_loop (suc n) path token previous = probe path token previous >>= λ found. elim found.1 [
    | some target ↦ pure found
    | none ↦ (λ w. verify_loop n path token found.0 (win.sleep 250 w))
  ]

  -- The end of the verification, in the result.
  unfoldable pub verified : Snapshot × Option TargetInfo → M (CleanRun win.World) (Unit {0})
  verified (s, some target) = set_result (λ r. record r {
    after_target = target;
    after_style = s.style;
    after_partition_count = 0;
    final_state = success_clean_verified;
  })
  verified (s, none) = do
    set_result (λ r. record r { after_style = s.style; after_partition_count = s.partition_count })
    throw err_verify_mismatch

  -- From the call that deletes the layout on, with the disk open and its volumes locked.
  unfoldable pub delete_locked : ℕ → TargetFile → M (CleanRun win.World) (Unit {0})
  unfolding close_file
  delete_locked handle file = do
    set_result (λ r. record r { final_state = failed_during_clean })
    deleted ← on_world (call (win.delete_layout handle))
    (if deleted then pure tt else on_world (finally (throw err_io) (close_file win file)))
    set_result (λ r. record r { layout_deleted = true })
    on_world (finally (call (win.update_properties handle) >>= λ _. pure tt) (close_file win file))
    set_result (λ r. record r { final_state = clean_unverified })

  -- The layout under the locks; the disk is closed where it is not the planned one.
  unfoldable pub compare_locked : Snapshot → TargetFile → Query → M win.World (Unit {0})
  unfolding layout_equal close_file
  compare_locked planned file (failed e, s) = finally (throw e) (close_file win file)
  compare_locked planned file (done u, s) =
      if layout_equal planned s
      then pure tt
      else finally (throw err_identity_changed) (close_file win file)

  unfoldable pub check_locked : Snapshot → ℕ → TargetFile → M win.World (Unit {0})
  unfolding compare_locked
  check_locked planned handle file = query_layout_handle win handle >>= compare_locked planned file

  -- The disk is opened, its layout deleted, and looked at again.
  unfoldable pub clean_planned :
      Snapshot
      → List ℕ
      → Option (List ℕ)
      → TargetInfo
      → Snapshot
      → M (CleanRun win.World) (Unit {0})
  unfolding open_target check_locked delete_locked verify_loop verified
  clean_planned garbage path token before planned = do
    file ← on_world (open_target win path before (clean_options token))
    handle ← require_handle err_invalid_argument file.file.handle
    on_world (check_locked planned handle file)
    delete_locked handle file
    found ← on_world (verify_loop 20 path before.token garbage)
    verified found

  -- A disk without partitions that is not mounted is left alone.
  unfoldable pub clean_found :
      Snapshot
      → List ℕ
      → Option (List ℕ)
      → TargetInfo
      → Snapshot
      → M (CleanRun win.World) (Unit {0})
  unfolding clean_planned
  clean_found garbage path token before planned =
      if is_blank planned && not before.mounted
      then set_result (λ r. record r {
        after_style = planned.style;
        after_partition_count = 0;
        after_target = before;
        final_state = success_already_clean;
      })
      else clean_planned garbage path token before planned

  unfoldable pub clean_body :
      Snapshot → List ℕ → Option (List ℕ) → M (CleanRun win.World) (Unit {0})
  unfolding physical_drive inspect_target validate_target query_layout_path clean_found
  clean_body garbage path token = do
    disk ← require_drive (physical_drive path)
    set_result (λ r. record r { disk_number = disk })
    before ← on_world (inspect_target win path)
    set_result (λ r. record r { before_target = before })
    on_world (validate_target before disk token)
    answer ← on_world (query_layout_path win path garbage)
    planned ← require_layout answer
    set_result (λ r. record r {
      before_style = planned.style;
      before_partition_count = planned.partition_count;
    })
    clean_found garbage path token before planned

  -- df_clean_disk, from what its snapshots hold before anything is put in them
  unfoldable pub clean_disk :
      Snapshot → List ℕ → Option (List ℕ) → M (CleanRun win.World) (Unit {0})
  unfolding clean_body clean_result_reset
  clean_disk garbage [] token run =
      (failed err_invalid_argument, record run { result = clean_result_reset })
  clean_disk garbage (c ∷ path) token run =
      clean_body garbage (c ∷ path) token (record run { result = clean_result_reset })

-- src/clean_stub.c, the build for other systems: its df_clean_disk, and that of src/clean.c there.
unfoldable pub clean_disk_stub : {W : Type 0} → M (CleanRun W) (Unit {0})
unfolding clean_result_reset
clean_disk_stub run = (
  failed err_unsupported,
  record run { result = record clean_result_reset { final_state = unsupported } },
)
