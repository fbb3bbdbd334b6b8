-- ===== src/Windows/Tests.antt =====
-- Names of drives, trimmed texts, and the opening of a disk in the Windows build of src/device.c.
use deadflash.Base.{ℕ, ◌≡◌, refl, some, none, List, [], true, false}
use deadflash.Base.Texts.{codes}
use deadflash.Base.Texts.{decimal}
use deadflash.Clean.{zero_target}
use deadflash.Clean.Disk.{clean_options}
use deadflash.Common.{done, hex_encode}
use deadflash.Common.Monad.{◌>>=◌}
use deadflash.Sha256.{program}
use deadflash.Device.{compute_target_token, target_info_defaults}
use deadflash.Device.Guards.{IsAllowed}
use deadflash.Device.{TargetInfo, WriteOptions}
use deadflash.Windows.{physical_drive}
use deadflash.Windows.Files.{TargetFile, inspect_target, open_target}
use deadflash.Windows.Identity.{copy_trimmed}
use deadflash.Windows.Opened.{windows_open_target-done}
use deadflash.Windows.Usb.{usb}

drive_names :
    (physical_drive (codes "\\\\.\\PHYSICALDRIVE12") ≡ some 12)
    × (physical_drive (codes "//./PhysicalDrive256") ≡ none)
    × (physical_drive (codes "\\\\.\\PhysicalDrive") ≡ none)
    × (physical_drive (codes "\\\\.\\PhysicalDrive1x") ≡ none)
unfolding physical_drive
drive_names = (refl, refl, refl, refl)

-- A minus sign is wrapped around, as strtoul does.
wrapped_name : physical_drive (codes "\\\\.\\PhysicalDrive-4294967295") ≡ some 1
unfolding physical_drive
wrapped_name = refl

trimmed : copy_trimmed 64 (codes "  Stick 1  ") ≡ codes "Stick 1"
unfolding copy_trimmed
trimmed = refl

abbrev drive_one : List ℕ
drive_one = codes "\\\\.\\PhysicalDrive1"

-- The target of the plan, of which the token counts.
abbrev planned : TargetInfo
planned = record zero_target { token = codes "80ed7c47a0c01213" }

abbrev options : WriteOptions
options = clean_options (some (codes "80ed7c47a0c01213"))

abbrev opened : TargetFile
opened = record {
  file = record {
    handle = some 1;
    path = drive_one;
    size_bytes = 1000000;
    alignment = 512;
    writable = true;
    direct_io = false;
    is_device = true;
  };
  locked = [];
}

-- The disk is opened; no volume of it had to be locked.
opening : open_target usb drive_one planned options 0 ≡ (done opened, 0)
unfolding open_target ◌>>=◌ program compute_target_token target_info_defaults hex_encode decimal
opening = refl

windows_open_target-done_example :
    (found : TargetInfo) × (w1 : ℕ) × (inspect_target usb drive_one 0 ≡ (done found, w1))
    × (found.token ≡ planned.token)
    × IsAllowed found.kind found (record options { force_mounted = true })
windows_open_target-done_example =
    windows_open_target-done usb drive_one planned options opened 0 0 opening
