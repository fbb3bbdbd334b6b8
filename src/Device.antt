-- ===== src/Device.antt =====
-- src/device.c in its POSIX build, with the types of include/deadflash/io.h: what a target is, the
-- guards of a destructive operation, and positioned input and output.
pub mod Posix
pub mod Files
pub mod Transfer
pub mod Reliable
pub mod Listing
pub mod Exact
pub mod Stdio
pub mod Sources
pub mod Disk
pub mod Streams
pub mod Guards
mod Tests
use deadflash.Base.{
  ℕ, zero, suc, ◌+◌, ◌*◌, ◌<◌, ◌≡◌, Bool, true, false, not, ◌&&◌, ◌||◌, Option, none, some, List,
  [], ◌∷◌, ◌++◌, foldl, take, length, ltb, ◌==◌, if◌then◌else◌,
}
use deadflash.Base.Texts.{text_eq, decimal, codes}
use deadflash.Common.{
  Status, ok, err_invalid_argument, err_open, err_io, err_permission, err_unsupported,
  err_device_forbidden, err_system_disk, err_mounted, err_confirmation, err_identity_changed,
  Outcome, done, failed, VerifyMode, hex_encode,
}
use deadflash.Sha256
use Posix.{
  Os, Io, transferred, interrupted, io_failed, Stat, stat_missing, stat_failed, is_block, is_char,
  is_other, is_regular, Opened, opened, open_invalid, open_failed, BlockProbe,
}

-- df_target_kind
pub data TargetKind : Type 0 where
  regular_file block_device char_device unknown : TargetKind

unfoldable pub kind_number : TargetKind → ℕ
kind_number regular_file = 0
kind_number block_device = 1
kind_number char_device = 2
kind_number unknown = 3

abbrev pub is_regular_file : TargetKind → Bool
is_regular_file regular_file = true
is_regular_file _ = false

-- df_target_info, but for the name shown to the operator.
pub record TargetInfo : Type 0 where
  pub path : List ℕ
  pub kind : TargetKind
  pub size_bytes : ℕ
  pub logical_sector_size : ℕ
  pub physical_sector_size : ℕ
  pub removable : Bool
  pub read_only : Bool
  pub mounted : Bool
  pub system_disk : Bool
  pub descriptor_present : Bool
  pub serial_bound : Bool
  pub bus_type : List ℕ
  pub vendor : List ℕ
  pub product : List ℕ
  pub revision : List ℕ
  pub serial_sha256 : List ℕ
  pub token : List ℕ

-- df_file; the handle is `none` for DF_INVALID_HANDLE.
pub record File : Type 0 where
  pub handle : Option ℕ
  pub path : List ℕ
  pub size_bytes : ℕ
  pub alignment : ℕ
  pub writable : Bool
  pub direct_io : Bool
  pub is_device : Bool

-- df_write_options, but for the progress callback, which is the record of its calls (Pipeline).
pub record WriteOptions : Type 0 where
  pub buffer_size : ℕ
  pub write_retries : ℕ
  pub verify_mode : VerifyMode
  pub sample_count : ℕ
  pub allow_device : Bool
  pub force_mounted : Bool
  pub force_system_disk : Bool
  pub direct_io : Bool
  pub truncate_regular_file : Bool
  pub confirmation_token : Option (List ℕ)

-- `df_hash_text_field` makes two updates: the text, and a NUL.
abbrev pub text_field : List ℕ → List (List ℕ)
text_field text = text ∷ (0 ∷ []) ∷ []

abbrev pub flag : Bool → List ℕ
flag b = if b then b'1' ∷ [] else b'0' ∷ []

-- The texts that the token is made of, in their order.
unfoldable pub token_fields : TargetInfo → List (List ℕ)
unfolding kind_number
token_fields info =
    codes "deadflash.target.v2"
    ∷ info.path
    ∷ decimal (kind_number info.kind)
    ∷ decimal info.size_bytes
    ∷ decimal info.logical_sector_size
    ∷ decimal info.physical_sector_size
    ∷ flag info.read_only
    ∷ flag info.system_disk
    ∷ flag info.descriptor_present
    ∷ flag info.serial_bound
    ∷ info.bus_type
    ∷ info.vendor
    ∷ info.product
    ∷ info.revision
    ∷ info.serial_sha256
    ∷ []

pub hash_fields : List (List ℕ) → Sha256.Ctx → Sha256.Ctx
hash_fields [] ctx = ctx
hash_fields (text ∷ fields) ctx = hash_fields fields (foldl Sha256.update ctx (text_field text))

unfoldable pub compute_target_token : TargetInfo → List ℕ
unfolding token_fields hash_fields
compute_target_token info =
    take 16 (hex_encode (Sha256.final (hash_fields (token_fields info) Sha256.init)))

abbrev pub make_token : TargetInfo → TargetInfo
make_token info = record info { token = compute_target_token info }

unfoldable pub target_info_defaults : List ℕ → TargetInfo
target_info_defaults path = record {
  path = path;
  kind = unknown;
  size_bytes = 0;
  logical_sector_size = 512;
  physical_sector_size = 512;
  removable = false;
  read_only = false;
  mounted = false;
  system_disk = false;
  descriptor_present = false;
  serial_bound = false;
  bus_type = [];
  vendor = [];
  product = [];
  revision = [];
  serial_sha256 = [];
  token = [];
}

-- The confirmation of a device that is to be overwritten: its token, repeated by the operator.
unfoldable pub confirm_token : Option (List ℕ) → List ℕ → Outcome (Unit {0})
confirm_token none token = failed err_confirmation
confirm_token (some given) token = if text_eq given token then done tt else failed err_confirmation

-- A device that is to be overwritten; the POSIX build includes the check on mounts.
unfoldable pub confirm_device : TargetInfo → WriteOptions → Outcome (Unit {0})
confirm_device info options =
    if not options.allow_device
    then failed err_device_forbidden
    else if info.read_only
    then failed err_permission
    else if info.system_disk && not options.force_system_disk
    then failed err_system_disk
    else if info.mounted && not options.force_mounted
    then failed err_mounted
    else confirm_token options.confirmation_token info.token

unfoldable pub validate_destructive_target : TargetInfo → WriteOptions → Outcome (Unit {0})
unfolding confirm_device confirm_token
validate_destructive_target info options = elim info.kind [
  | regular_file ↦ done tt
  | unknown ↦ done tt
  | block_device ↦ confirm_device info options
  | char_device ↦ confirm_device info options
]
