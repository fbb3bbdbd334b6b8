-- ===== src/Cli/Main.antt =====
-- `main` of src/main.c, with the arguments from the name of the command on, and `list`, whose text goes to the
-- standard output.
use deadflash.Base.{ℕ, Option, List, [], ◌∷◌, if◌then◌else◌, ◌||◌}
use deadflash.Base.Texts.{codes, text_eq}
use deadflash.Cli.{Args}
use deadflash.Cli.Bench.{command_bench}
use deadflash.Cli.Flash.{
  command_inspect, command_plan, command_write_image, command_verify_image, command_verify_fat32,
}
use deadflash.Cli.Format.{command_format_fat32}
use deadflash.Cli.Seal.{Exit, exit_of}
use deadflash.Common.{Status}
use deadflash.Device.Listing.{list_targets}
use deadflash.Device.Posix.{Os}
use deadflash.Device.Stdio.{Stdio}
use deadflash.Report.Evidence.{Error, Times}

-- A command of one argument; with another number of them the usage is printed.
abbrev pub with_path : {W : Type 0} → (List ℕ → W → Exit W) → Args → W → Exit W
with_path command [] w = (2, w)
with_path command (path ∷ []) w = command path w
with_path command (path ∷ other ∷ rest) w = (2, w)

module _ (os : Os) (stdio : Stdio os) (read_dir : os.World → Option (List (List ℕ)) × os.World)
    (volume_clock : os.World → ℕ × os.World) (clock : ℕ) (times : Times)
    (error_of : Status → Error) where
  unfoldable pub flash_main : Args → os.World → Exit os.World
  flash_main [] w = (0, w)
  flash_main (command ∷ args) w =
      if text_eq command (codes "version") || text_eq command (codes "--version")
      then (0, w)
      else if text_eq command (codes "list")
      then exit_of (list_targets os read_dir w)
      else if text_eq command (codes "inspect")
      then with_path (command_inspect os) args w
      else if text_eq command (codes "plan")
      then command_plan os args w
      else if text_eq command (codes "write")
      then command_write_image os stdio clock times error_of args w
      else if text_eq command (codes "verify")
      then command_verify_image os args w
      else if text_eq command (codes "format-fat32")
      then command_format_fat32 os stdio volume_clock clock times error_of args w
      else if text_eq command (codes "verify-fat32")
      then with_path (command_verify_fat32 os) args w
      else if text_eq command (codes "bench")
      then command_bench os stdio args w
      else (2, w)
