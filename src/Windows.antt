-- ===== src/Windows.antt =====
-- src/device.c in its Windows build: the system under it, and the names of physical drives.
pub mod Identity
pub mod Volumes
pub mod Files
pub mod Listing
pub mod Kept
pub mod Observing
pub mod Inspecting
pub mod Opened
pub mod Usb
mod Tests
use deadflash.Base.{
  ℕ, ◌+◌, ◌-◌, ◌*◌, ◌%◌, ◌^◌, Bool, Option, none, some, List, [], ◌∷◌, ltb, ◌==◌, if◌then◌else◌,
}
use deadflash.Base.Texts.{codes}
use deadflash.Common.{Outcome, done, failed}
use deadflash.Common.Monad.{M}
use deadflash.Common.Parse.{is_digit, to_upper, skip_spaces, read_digits}

-- DISK_GEOMETRY_EX
pub record Geometry : Type 0 where
  pub disk_size : ℕ
  pub bytes_per_sector : ℕ

-- STORAGE_DEVICE_DESCRIPTOR, with the bytes that the call returned and where its texts stand in them
pub record Descriptor : Type 0 where
  pub bytes : List ℕ
  pub bus_type : ℕ
  pub vendor_offset : ℕ
  pub product_offset : ℕ
  pub revision_offset : ℕ
  pub serial_offset : ℕ

-- GetFileAttributesEx: a file, no such file or path, or another error
pub data Attributes : Type 0 where
  attributes_missing attributes_failed : Attributes
  attributes_of : Bool → Bool → ℕ → ℕ → Attributes

-- MultiByteToWideChar into an allocated text
pub data Widened : Type 0 where
  widened invalid_utf8 no_memory : Widened

-- PARTITION_STYLE
pub data RawStyle : Type 0 where
  style_mbr style_gpt style_raw style_other : RawStyle

-- PARTITION_INFORMATION_EX; the length is 0 where it is not positive.
pub record PartitionEntry : Type 0 where
  pub number : ℕ
  pub partition_length : ℕ
  pub is_mbr : Bool
  pub mbr_type : ℕ

-- DRIVE_LAYOUT_INFORMATION_EX, with the entries that lie in the bytes returned, or none where those
-- end before the first entry
pub record DriveLayout : Type 0 where
  pub style : RawStyle
  pub partition_count : ℕ
  pub entries : List PartitionEntry
  pub signature : ℕ
  pub disk_id : List ℕ

-- IOCTL_DISK_GET_DRIVE_LAYOUT_EX: a layout; ERROR_INSUFFICIENT_BUFFER or ERROR_MORE_DATA;
-- ERROR_INVALID_FUNCTION or ERROR_NOT_READY; or another error
pub data LayoutAnswer : Type 0 where
  layout_is : DriveLayout → LayoutAnswer
  layout_larger layout_absent layout_failed : LayoutAnswer

-- The Windows calls, each on a world. A handle is a number, and `none` is INVALID_HANDLE_VALUE or a
-- call that failed.
pub record Win : Type 1 where
  pub World : Type 0
  pub widen : List ℕ → World → Widened × World
  -- CreateFile with no access, with GENERIC_READ, on a volume to be locked, and on a target (whether
  -- it is a device, and whether without buffering)
  pub open_query : List ℕ → World → Option ℕ × World
  pub open_probe : List ℕ → World → Option ℕ × World
  pub open_volume : List ℕ → World → Option ℕ × World
  pub open_write : List ℕ → Bool → Bool → World → Option ℕ × World
  pub close : ℕ → World → World
  pub sleep : ℕ → World → World
  pub calloc : ℕ → World → Bool × World
  pub file_attributes : List ℕ → World → Attributes × World
  -- DeviceIoControl, by its code
  pub disk_length : ℕ → World → Option ℕ × World
  pub disk_geometry : ℕ → World → Option Geometry × World
  pub hotplug_info : ℕ → World → Option (Bool × Bool) × World
  pub device_descriptor : ℕ → World → Option Descriptor × World
  pub alignment_descriptor : ℕ → World → Option (ℕ × ℕ) × World
  pub is_writable : ℕ → World → Bool × World
  pub volume_extents : ℕ → World → Option (List ℕ) × World
  pub lock_volume : ℕ → World → Bool × World
  pub dismount_volume : ℕ → World → Bool × World
  pub unlock_volume : ℕ → World → Bool × World
  pub device_number : ℕ → World → Option ℕ × World
  pub drive_layout : ℕ → ℕ → World → LayoutAnswer × World
  pub delete_layout : ℕ → World → Bool × World
  pub update_properties : ℕ → World → Bool × World
  -- GetLogicalDrives, GetWindowsDirectory and GetModuleFileName
  pub logical_drives : World → ℕ × World
  pub windows_directory : World → List ℕ × World
  pub module_path : World → List ℕ × World

-- A call whose failure is a value to the caller.
abbrev pub attempt : {S A : Type 0} → M S A → M S (Outcome A)
attempt m s = let (r, s') = m s in (done r, s')

-- A change that happens whether or not the call before it failed.
abbrev pub finally : {S A : Type 0} → M S A → (S → S) → M S A
finally m f s = let (r, s') = m s in (r, f s')

-- What stands behind a prefix, where `_strnicmp` finds it.
pub after_prefix : List ℕ → List ℕ → Option (List ℕ)
after_prefix [] text = some text
after_prefix (p ∷ prefix) [] = none
after_prefix (p ∷ prefix) (c ∷ text) =
    let rest = after_prefix prefix text in if to_upper p == to_upper c then rest else none

-- `strtoul` in base 10 on 32 bits, from the first digit on: ULONG_MAX where the number is larger.
unfoldable pub unsigned_digits : Bool → List ℕ → Option (ℕ × List ℕ)
unfolding read_digits
unsigned_digits negative [] = none
unsigned_digits negative (c ∷ text) =
    let (n, rest) = read_digits 0 (c ∷ text) in
    if is_digit c
    then some (
      (if ltb n (2 ^ 32) then (if negative then (2 ^ 32 - n) % 2 ^ 32 else n) else 2 ^ 32 - 1),
      rest,
    )
    else none

unfoldable pub strtoul : List ℕ → Option (ℕ × List ℕ)
unfolding skip_spaces unsigned_digits
strtoul text = elim (skip_spaces text) [
  | [] ↦ none
  | c ∷ rest ↦
      if c == b'+'
      then unsigned_digits Bool.false rest
      else if c == b'-'
      then unsigned_digits Bool.true rest
      else unsigned_digits Bool.false (c ∷ rest)
]

abbrev pub drive_of : Option (ℕ × List ℕ) → Option ℕ
drive_of none = none
drive_of (some (n, c ∷ rest)) = none
drive_of (some (n, [])) = if ltb 255 n then none else some n

-- The number behind either prefix.
abbrev pub drive_digits : Option (List ℕ) → Option (List ℕ) → Option (List ℕ)
drive_digits (some digits) other = some digits
drive_digits none other = other

-- df_is_physical_drive_path, and df_clean_parse_physical_drive
unfoldable pub physical_drive : List ℕ → Option ℕ
unfolding after_prefix strtoul
physical_drive path =
    elim (drive_digits (after_prefix (codes "\\\\.\\PhysicalDrive") path)
      (after_prefix (codes "//./PhysicalDrive") path)) [
        | none ↦ none
        | some digits ↦ drive_of (strtoul digits)
      ]
