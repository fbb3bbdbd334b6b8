-- ===== src/Device/Listing.antt =====
-- `df_list_targets` of src/device.c on Linux. The names in /sys/class/block are an argument: `none` where
-- the directory cannot be opened.
use deadflash.Base.{
  ℕ, Bool, true, false, Option, none, some, List, [], ◌∷◌, ◌++◌, ◌==◌, if◌then◌else◌, take,
}
use deadflash.Base.Texts.{codes, decimal}
use deadflash.Common.{Outcome, done, failed, err_open}
use deadflash.Common.Monad.{M, ◌>>=◌, throw, call}
use deadflash.Device.{TargetInfo, regular_file, block_device, char_device, unknown}
use deadflash.Device.Files.{inspect_target}
use deadflash.Device.Posix.{Os}

abbrev pub yes_no : Bool → List ℕ
yes_no b = if b then codes "yes" else codes "no"

-- The line of a target; a tab is between its parts.
unfoldable pub target_line : List ℕ → TargetInfo → List ℕ
target_line path info =
    path
    ++ (b'\t' ∷ decimal info.size_bytes)
    ++ (b'\t' ∷ codes "sector=" ++ decimal info.logical_sector_size)
    ++ (b'\t' ∷ codes "removable=" ++ yes_no info.removable)
    ++ (b'\t' ∷ codes "mounted=" ++ yes_no info.mounted)
    ++ (b'\t' ∷ codes "system=" ++ yes_no info.system_disk)
    ++ (b'\t' ∷ codes "token=" ++ info.token)
    ++ b'\n' ∷ []

-- A target that was found, where it is a block device.
unfoldable pub line_of : List ℕ → Outcome TargetInfo → List ℕ
unfolding target_line
line_of path (failed e) = []
line_of path (done info) = elim (info.kind) [
  | block_device ↦ target_line path info
  | regular_file ↦ []
  | char_device ↦ []
  | unknown ↦ []
]

abbrev pub is_hidden : List ℕ → Bool
is_hidden [] = false
is_hidden (c ∷ name) = c == b'.'

-- `snprintf(path, PATH_MAX, "/dev/%s", name)`
abbrev pub device_path : List ℕ → List ℕ
device_path name = take 4095 (codes "/dev/" ++ name)

module _ (os : Os) where
  -- What is printed for the entries of the directory.
  unfoldable pub list_loop : List (List ℕ) → os.World → List ℕ × os.World
  unfolding line_of inspect_target
  list_loop [] w = ([], w)
  list_loop (name ∷ names) w = elim (is_hidden name) [
    | true ↦ list_loop names w
    | false ↦
        let (found, w1) = inspect_target os (device_path name) w in
        let (shown, w') = list_loop names w1 in (line_of (device_path name) found ++ shown, w')
  ]

  unfoldable pub list_entries : Option (List (List ℕ)) → M os.World (List ℕ)
  unfolding list_loop
  list_entries none = throw err_open
  list_entries (some names) = call (list_loop names)

  -- The text that is printed.
  unfoldable pub list_targets : (os.World → Option (List (List ℕ)) × os.World) → M os.World (List ℕ)
  unfolding list_entries
  list_targets read_dir = call read_dir >>= list_entries
