-- ===== src/Windows/Files.antt =====
-- Inspection and opening of a target in the Windows build of src/device.c.
use deadflash.Base.{
  ℕ, ◌+◌, ◌*◌, Bool, true, not, ◌&&◌, ◌||◌, ◌^◌, Option, none, some, List, [], ◌∷◌, ◌==◌,
  if◌then◌else◌,
}
use deadflash.Base.Texts.{text_eq}
use deadflash.Common.{
  err_invalid_argument, err_open, err_io, err_unsupported, err_no_memory, err_identity_changed,
  Outcome, done, failed,
}
use deadflash.Common.Monad.{M, ◌>>=◌, ◌>>◌, pure, throw, call}
use deadflash.Device.{
  TargetInfo, File, WriteOptions, regular_file, block_device, is_regular_file, make_token,
  target_info_defaults, validate_destructive_target,
}
use deadflash.Device.Files.{file_reset}
use deadflash.Windows.{
  Win, Geometry, Attributes, attributes_missing, attributes_failed, attributes_of, Widened, widened,
  invalid_utf8, no_memory, finally, physical_drive,
}
use deadflash.Windows.Identity.{read_identity}
use deadflash.Windows.Volumes.{require_handle, mount_state, lock_disk_volumes, unlock_volumes}

-- A df_file with the volumes that it has locked.
pub record TargetFile : Type 0 where
  pub file : File
  pub locked : List ℕ

-- A path as Windows takes it, or the failure to make one.
abbrev pub wide_path : {S : Type 0} → Widened → M S (Unit {0})
wide_path widened = pure tt
wide_path invalid_utf8 = throw err_invalid_argument
wide_path no_memory = throw err_no_memory

-- The size that the geometry gives where the length is not known.
abbrev pub size_by_geometry : {S : Type 0} → TargetInfo → Option Geometry → M S TargetInfo
size_by_geometry info none = throw err_io
size_by_geometry info (some g) =
    pure (record info { size_bytes = g.disk_size; logical_sector_size = g.bytes_per_sector })

abbrev pub with_geometry : TargetInfo → Option Geometry → TargetInfo
with_geometry info none = info
with_geometry info (some g) = record info {
  logical_sector_size = g.bytes_per_sector;
  physical_sector_size = g.bytes_per_sector;
}

abbrev pub with_hotplug : TargetInfo → Option (Bool × Bool) → TargetInfo
with_hotplug info none = info
with_hotplug info (some (media, device)) = record info { removable = media || device }

-- A regular file, by its attributes: a directory, read-only, and the halves of its size.
abbrev pub regular_target : {S : Type 0} → TargetInfo → Attributes → M S TargetInfo
regular_target info attributes_missing =
    pure (make_token (record info { kind = regular_file; size_bytes = 0 }))
regular_target info attributes_failed = throw err_open
regular_target info (attributes_of directory read_only high low) =
    if directory
    then throw err_invalid_argument
    else pure (
        make_token (record info {
          kind = regular_file;
          size_bytes = high * 2 ^ 32 + low;
          read_only = read_only;
        }))

-- The file before it is opened.
unfoldable pub file_for : List ℕ → TargetInfo → WriteOptions → File
file_for path current options = record file_reset {
  path = path;
  size_bytes = current.size_bytes;
  alignment = if current.logical_sector_size == 0 then 512 else current.logical_sector_size;
  is_device = not (is_regular_file current.kind);
  writable = true;
  direct_io = options.direct_io && not (is_regular_file current.kind);
}

-- The Windows build does not ask whether the target is mounted; it locks the volumes.
unfoldable pub validate_windows_target : TargetInfo → WriteOptions → Outcome (Unit {0})
unfolding validate_destructive_target
validate_windows_target info options =
    validate_destructive_target info (record options { force_mounted = true })

abbrev pub settle : {S A : Type 0} → Outcome A → M S A
settle r s = (r, s)

module _ (win : Win) where
  -- The size of a disk, by its length or its geometry.
  unfoldable pub disk_size : ℕ → TargetInfo → Option ℕ → M win.World TargetInfo
  disk_size handle info (some bytes) = pure (record info { size_bytes = bytes })
  disk_size handle info none = call (win.disk_geometry handle) >>= size_by_geometry info

  -- A physical drive behind an open handle.
  unfoldable pub inspect_drive : ℕ → ℕ → TargetInfo → M win.World TargetInfo
  unfolding disk_size read_identity mount_state
  inspect_drive disk handle info = do
    bytes ← call (win.disk_length handle)
    sized ← disk_size handle info bytes
    geometry ← call (win.disk_geometry handle)
    hotplug ← call (win.hotplug_info handle)
    known ← read_identity win handle (with_hotplug (with_geometry sized geometry) hotplug)
    writable ← call (win.is_writable handle)
    mounts ← mount_state win disk
    pure (record known { read_only = not writable; mounted = mounts.0; system_disk = mounts.1 })

  unfoldable pub inspect_path : List ℕ → TargetInfo → Option ℕ → M win.World TargetInfo
  unfolding inspect_drive
  inspect_path path info (some disk) = do
    wide ← call (win.widen path)
    wide_path wide
    opened ← call (win.open_query path)
    handle ← require_handle err_open opened
    found ←
        finally (inspect_drive disk handle (record info { kind = block_device })) (win.close handle)
    pure (make_token found)
  inspect_path path info none = do
    wide ← call (win.widen path)
    wide_path wide
    found ← call (win.file_attributes path)
    regular_target info found

  -- df_inspect_target
  unfoldable pub inspect_target : List ℕ → M win.World TargetInfo
  unfolding inspect_path target_info_defaults physical_drive
  inspect_target [] = throw err_invalid_argument
  inspect_target (c ∷ path) =
      inspect_path (c ∷ path) (target_info_defaults (c ∷ path)) (physical_drive (c ∷ path))

  -- df_close_file
  unfoldable pub close_file : TargetFile → win.World → win.World
  unfolding unlock_volumes
  close_file file w = elim file.file.handle [
    | none ↦ w
    | some handle ↦ win.close handle (unlock_volumes win file.locked w)
  ]

  -- The volumes of a device are locked once it is open; it is closed where one cannot be.
  unfoldable pub lock_target : File → Outcome (Unit {0}) × List ℕ → M win.World TargetFile
  unfolding close_file
  lock_target file (done u, locked) = pure (record { file = file; locked = locked })
  lock_target file (failed e, locked) =
      finally (throw e) (close_file (record { file = file; locked = locked }))

  unfoldable pub lock_drive : File → Option ℕ → M win.World TargetFile
  unfolding lock_target lock_disk_volumes
  lock_drive file none =
      finally (throw err_unsupported) (close_file (record { file = file; locked = [] }))
  lock_drive file (some disk) = lock_disk_volumes win disk >>= lock_target file

  -- df_open_target
  unfoldable pub open_target : List ℕ → TargetInfo → WriteOptions → M win.World TargetFile
  unfolding inspect_target validate_windows_target lock_drive file_for
  open_target path expected options = do
    current ← inspect_target path
    (if text_eq current.token expected.token then pure tt else throw err_identity_changed)
    settle (validate_windows_target current options)
    let file = file_for path current options
    wide ← call (win.widen path)
    wide_path wide
    opened ← call (win.open_write path file.is_device file.direct_io)
    handle ← require_handle err_open opened
    let open_file = record file { handle = some handle }
    (if file.is_device
        then lock_drive open_file (physical_drive path)
        else pure (record { file = open_file; locked = [] }))
