-- ===== src/Windows/Listing.antt =====
-- `df_list_targets` of src/device.c in the Windows build: the physical drives from 0 to 31.
use deadflash.Base.{ℕ, zero, suc, ◌+◌, List, [], ◌++◌}
use deadflash.Base.Texts.{codes, decimal}
use deadflash.Common.{Outcome, done, failed}
use deadflash.Common.Monad.{M, call}
use deadflash.Device.{TargetInfo}
use deadflash.Device.Listing.{target_line}
use deadflash.Windows.{Win}
use deadflash.Windows.Files.{inspect_target}

unfoldable pub drive_line : List ℕ → Outcome TargetInfo → List ℕ
unfolding target_line
drive_line path (failed e) = []
drive_line path (done info) = target_line path info

abbrev pub drive_path : ℕ → List ℕ
drive_path n = codes "\\\\.\\PhysicalDrive" ++ decimal n

module _ (win : Win) where
  -- What is printed for the drives that are left, from a number on.
  unfoldable pub drive_loop : ℕ → ℕ → win.World → List ℕ × win.World
  unfolding drive_line inspect_target
  drive_loop zero i w = ([], w)
  drive_loop (suc n) i w =
      let (found, w1) = inspect_target win (drive_path i) w in
      let (shown, w') = drive_loop n (i + 1) w1 in (drive_line (drive_path i) found ++ shown, w')

  unfoldable pub list_drives : M win.World (List ℕ)
  unfolding drive_loop
  list_drives = call (drive_loop 32 0)
