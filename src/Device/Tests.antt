-- ===== src/Device/Tests.antt =====
-- Runs of src/device.c on a block device, and its theorems on it.
use deadflash.Base.{◌≡◌, refl, none, some, [], ◌∷◌, true, false}
use deadflash.Base.Texts.{decimal}
use deadflash.Common.{done, failed, verify_full, err_confirmation, hex_encode}
use deadflash.Common.Monad.{◌>>=◌}
use deadflash.Device.{
  TargetInfo, WriteOptions, block_device, target_info_defaults, compute_target_token,
}
use deadflash.Device.Posix.{Os, is_block}
use deadflash.Device.Files.{open_target}
use deadflash.Device.Guards.{IsGuarded, open_target-done}
use deadflash.Device.Disk.{Disk, disk_os, no_probe}
use deadflash.Sha256.{program}

abbrev device_os : Os
device_os = record disk_os {
  stat = λ path d. (is_block, d);
  probe = λ path d.
      (record no_probe { can_open = true; size = some 1048576; logical = 512; physical = 4096 }, d);
}

abbrev empty_disk : Disk
empty_disk = record { source = []; target = []; note = [] }

abbrev stick : TargetInfo
stick = record (target_info_defaults (b't' ∷ [])) {
  kind = block_device;
  size_bytes = 1048576;
  logical_sector_size = 512;
  physical_sector_size = 4096;
}

abbrev planned : TargetInfo
planned = record stick { token = compute_target_token stick }

abbrev confirmed_options : WriteOptions
confirmed_options = record {
  buffer_size = 512;
  write_retries = 4;
  verify_mode = verify_full;
  sample_count = 64;
  allow_device = true;
  force_mounted = false;
  force_system_disk = false;
  direct_io = false;
  truncate_regular_file = false;
  confirmation_token = some (compute_target_token stick);
}

opened_stick :
    (open_target device_os (b't' ∷ []) planned confirmed_options empty_disk).0
    ≡ done (record {
      handle = some 1;
      path = b't' ∷ [];
      size_bytes = 1048576;
      alignment = 512;
      writable = true;
      direct_io = false;
      is_device = true;
    })
unfolding open_target ◌>>=◌ program compute_target_token target_info_defaults hex_encode decimal
opened_stick = refl

-- Without the token the device is refused.
refused_stick :
    (open_target device_os
      (b't' ∷ [])
      planned
      (record confirmed_options { confirmation_token = none })
      empty_disk).0
    ≡ failed err_confirmation
unfolding open_target ◌>>=◌ program compute_target_token target_info_defaults hex_encode decimal
refused_stick = refl

open_target-done_example : IsGuarded device_os (b't' ∷ []) planned confirmed_options empty_disk
open_target-done_example =
    open_target-done device_os (b't' ∷ []) planned confirmed_options _ empty_disk
      (open_target device_os (b't' ∷ []) planned confirmed_options empty_disk).1
      (λ i. (
        opened_stick i,
        (open_target device_os (b't' ∷ []) planned confirmed_options empty_disk).1,
      ))
