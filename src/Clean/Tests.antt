-- ===== src/Clean/Tests.antt =====
-- A disk that is cleaned, and the theorems on src/clean.c at that disk.
use deadflash.Base.{ℕ, ◌≡◌, refl, ◌⊎◌, some, List, arith}
use deadflash.Base.Texts.{codes}
use deadflash.Clean.{CleanRun, clean_result_reset, success_clean_verified, failed_before_clean}
use deadflash.Clean.Bounded.{query_layout_handle_enough}
use deadflash.Clean.Disk.{clean_disk}
use deadflash.Clean.Guarded.{clean_disk_guarded}
use deadflash.Clean.Layout.{no_snapshot, query_loop, query_layout_handle}
use deadflash.Clean.Safe.{IsCleared}
use deadflash.Base.Texts.{decimal}
use deadflash.Common.{done, failed, err_confirmation, hex_encode}
use deadflash.Common.Monad.{◌>>=◌}
use deadflash.Device.{compute_target_token, target_info_defaults}
use deadflash.Sha256.{program}
use deadflash.Windows.{physical_drive}
use deadflash.Windows.Usb.{usb, usb_seen}

abbrev drive_one : List ℕ
drive_one = codes "\\\\.\\physicaldrive1"

names : physical_drive drive_one ≡ some 1
unfolding physical_drive
names = refl

-- The token of the disk.
abbrev token_one : List ℕ
token_one = codes "afe3f4a93d1a0424"

abbrev start : CleanRun ℕ
start = record { world = 0; result = clean_result_reset }

-- The disk is cleaned, and the result says so.
cleaned :
    let (r, run) = clean_disk usb no_snapshot drive_one (some token_one) start in
    (r ≡ done tt) × (run.world ≡ 1) × (run.result.final_state ≡ success_clean_verified)
unfolding clean_disk ◌>>=◌ program compute_target_token target_info_defaults hex_encode decimal
cleaned = (refl, refl, refl)

-- With another token nothing is done.
refused :
    let (r, run) = clean_disk usb no_snapshot drive_one (some (codes "afe3")) start in
    (r ≡ failed err_confirmation) × (run.world ≡ 0) × (run.result.final_state ≡ failed_before_clean)
unfolding clean_disk ◌>>=◌ program compute_target_token target_info_defaults hex_encode decimal
refused = (refl, refl, refl)

clean_disk_guarded_example :
    ((clean_disk usb no_snapshot drive_one (some token_one) start).1.world ≡ 0)
    ⊎ IsCleared usb no_snapshot drive_one (some token_one) 0
clean_disk_guarded_example =
    clean_disk_guarded usb usb_seen no_snapshot drive_one (some token_one) start

query_layout_handle_enough_example : query_loop usb 20 4096 1 ≡ query_layout_handle usb 1
query_layout_handle_enough_example = query_layout_handle_enough usb 1 20 (omega arith)
