-- ===== src/Windows/Identity.antt =====
-- What a disk tells of itself, as src/device.c puts it in a target: texts trimmed and cut to the size
-- of their array, and the hash of the serial number.
use deadflash.Base.{
  ℕ, ◌-◌, Bool, true, not, ◌||◌, Option, none, some, List, [], ◌∷◌, ◌++◌, length, take, drop, leb,
  ◌==◌, if◌then◌else◌,
}
use deadflash.Base.Texts.{codes, decimal}
use deadflash.Common.{hex_encode}
use deadflash.Common.Monad.{M, ◌>>=◌, pure, call}
use deadflash.Common.Parse.{is_space, skip_spaces}
use deadflash.Device.{TargetInfo}
use deadflash.Sha256.{sha256_buffer}
use deadflash.Windows.{Win, Descriptor}

-- The bytes before a NUL.
unfoldable pub until_nul : List ℕ → List ℕ
until_nul [] = []
until_nul (c ∷ text) = let rest = until_nul text in if c == 0 then [] else c ∷ rest

abbrev is_empty : List ℕ → Bool
is_empty [] = true
is_empty (c ∷ text) = Bool.false

-- The text without the blanks at its end.
unfoldable pub trim_end : List ℕ → List ℕ
trim_end [] = []
trim_end (c ∷ text) =
    let rest = trim_end text in
    elim rest [ [] ↦ if is_space c then [] else c ∷ [] | d ∷ more ↦ c ∷ d ∷ more ]

-- df_copy_trimmed into an array of `size` characters, with the NUL
unfoldable pub copy_trimmed : ℕ → List ℕ → List ℕ
unfolding until_nul trim_end skip_spaces
copy_trimmed size input = take (size - 1) (trim_end (skip_spaces (until_nul input)))

unfoldable pub hash_serial : List ℕ → List ℕ
hash_serial [] = []
hash_serial (c ∷ serial) = hex_encode (sha256_buffer (c ∷ serial))

unfoldable pub descriptor_text : List ℕ → ℕ → ℕ → List ℕ
unfolding copy_trimmed
descriptor_text bytes offset size =
    if (offset == 0) || leb (length bytes) offset then [] else copy_trimmed size (drop offset bytes)

-- The device descriptor, where there is one.
pub with_descriptor : TargetInfo → Option Descriptor → TargetInfo
unfolding descriptor_text hash_serial
with_descriptor info none = info
with_descriptor info (some d) =
    let serial = descriptor_text d.bytes d.serial_offset 256 in
    let hash = if is_empty serial then info.serial_sha256 else hash_serial serial in
    record info {
      descriptor_present = true;
      bus_type = take 31 (codes "windows:" ++ decimal d.bus_type);
      vendor = descriptor_text d.bytes d.vendor_offset 64;
      product = descriptor_text d.bytes d.product_offset 128;
      revision = descriptor_text d.bytes d.revision_offset 32;
      serial_sha256 = hash;
      serial_bound = if is_empty serial then info.serial_bound else not (is_empty hash);
    }

-- The sector sizes, of which 0 says nothing.
pub with_alignment : TargetInfo → Option (ℕ × ℕ) → TargetInfo
with_alignment info none = info
with_alignment info (some (logical, physical)) = record info {
  logical_sector_size = if logical == 0 then info.logical_sector_size else logical;
  physical_sector_size = if physical == 0 then info.physical_sector_size else physical;
}

-- df_windows_read_identity
unfoldable pub read_identity : (win : Win) → ℕ → TargetInfo → M win.World TargetInfo
unfolding with_descriptor with_alignment
read_identity win handle info = do
  descriptor ← call (win.device_descriptor handle)
  alignment ← call (win.alignment_descriptor handle)
  pure (with_alignment (with_descriptor info descriptor) alignment)
