-- ===== src/Windows/Volumes.antt =====
-- The volumes of a disk in src/device.c: which drive letters lie on it, and their locks.
use deadflash.Base.{
  ℕ, zero, suc, ◌+◌, ◌/◌, ◌%◌, ◌^◌, Bool, true, false, ◌||◌, Option, none, some, List, [], ◌∷◌,
  ◌++◌, ◌==◌, if◌then◌else◌,
}
use deadflash.Base.Texts.{codes}
use deadflash.Common.{Status, err_open, err_mounted, Outcome, done, failed}
use deadflash.Common.Monad.{M, ◌>>=◌, pure, throw, call}
use deadflash.Common.Parse.{to_upper}
use deadflash.Windows.{Win, attempt, finally}

-- "\\.\C:" with another letter
abbrev pub volume_path : ℕ → List ℕ
volume_path letter = codes "\\\\.\\" ++ (letter ∷ b':' ∷ [])

-- The loop over the extents.
unfoldable pub on_disk : ℕ → List ℕ → Bool
on_disk disk [] = false
on_disk disk (d ∷ extents) = (d == disk) || on_disk disk extents

unfoldable pub extents_on : ℕ → Option (List ℕ) → Bool
unfolding on_disk
extents_on disk none = false
extents_on disk (some extents) = on_disk disk extents

-- The letter of the Windows directory; 0 for none.
unfoldable pub system_letter : List ℕ → ℕ
system_letter [] = 0
system_letter (c ∷ []) = 0
system_letter (c ∷ d ∷ directory) = if d == b':' then to_upper c else 0

abbrev pub has_drive : ℕ → ℕ → Bool
has_drive drives i = ((drives / 2 ^ i) % 2) == 1

-- A handle, or the failure to open one.
abbrev pub require_handle : {S : Type 0} → Status → Option ℕ → M S ℕ
require_handle e none = throw e
require_handle e (some handle) = pure handle

-- The loop has a guard; `bit` is the test of the guard.
abbrev pub when : {S : Type 0} → Bool → M S Bool → M S Bool
when true m = m
when false m = pure false

module _ (win : Win) where
  unfoldable pub volume_opened : ℕ → Option ℕ → M win.World Bool
  unfolding extents_on
  volume_opened disk none = pure false
  volume_opened disk (some volume) = do
    extents ← finally (call (win.volume_extents volume)) (win.close volume)
    pure (extents_on disk extents)

  -- df_volume_uses_disk
  unfoldable pub volume_uses_disk : ℕ → ℕ → M win.World Bool
  unfolding volume_opened
  volume_uses_disk letter disk = call (win.open_query (volume_path letter)) >>= volume_opened disk

  -- Whether a volume is mounted, and whether it is the system's: the rounds from drive `i` on.
  unfoldable pub mount_loop : ℕ → ℕ → ℕ → ℕ → ℕ → Bool × Bool → M win.World (Bool × Bool)
  unfolding volume_uses_disk
  mount_loop zero i drives system disk (mounted, system_disk) = pure (mounted, system_disk)
  mount_loop (suc n) i drives system disk (mounted, system_disk) =
      when (has_drive drives i) (volume_uses_disk (b'A' + i) disk) >>= λ used.
      mount_loop n (i + 1) drives system disk
        (if used then (true, system_disk || ((b'A' + i) == system)) else (mounted, system_disk))

  -- df_windows_mount_state
  unfoldable pub mount_state : ℕ → M win.World (Bool × Bool)
  unfolding mount_loop system_letter
  mount_state disk = do
    drives ← call win.logical_drives
    directory ← call win.windows_directory
    mount_loop 26 0 drives (system_letter directory) disk (false, false)

  -- The attempts to lock a volume, with a pause after each that fails.
  unfoldable pub lock_loop : ℕ → ℕ → M win.World Bool
  lock_loop zero volume = pure false
  lock_loop (suc n) volume = call (win.lock_volume volume) >>= λ locked. elim locked [
    | true ↦ pure true
    | false ↦ (λ w. lock_loop n volume (win.sleep 100 w))
  ]

  -- After a dismount, or the release of the volume where it failed.
  unfoldable pub dismounted_volume : ℕ → Bool → M win.World ℕ
  dismounted_volume volume true = pure volume
  dismounted_volume volume false =
      finally (call (win.unlock_volume volume) >>= λ _. throw err_mounted) (win.close volume)

  unfoldable pub locked_volume : ℕ → Bool → M win.World ℕ
  unfolding dismounted_volume
  locked_volume volume true = call (win.dismount_volume volume) >>= dismounted_volume volume
  locked_volume volume false = finally (throw err_mounted) (win.close volume)

  -- A volume, locked and dismounted.
  unfoldable pub lock_volume : ℕ → M win.World ℕ
  unfolding lock_loop locked_volume
  lock_volume letter = do
    opened ← call (win.open_volume (volume_path letter))
    volume ← require_handle err_open opened
    locked ← lock_loop 20 volume
    locked_volume volume locked

  unfoldable pub if_used : Bool → ℕ → M win.World (Option ℕ)
  unfolding lock_volume
  if_used false letter = pure none
  if_used true letter = lock_volume letter >>= λ volume. pure (some volume)

  abbrev pub add_volume : List ℕ → Option ℕ → List ℕ
  add_volume locked none = locked
  add_volume locked (some volume) = locked ++ (volume ∷ [])

  -- The rounds from drive `i` on. The volumes locked so far are returned also where one failed.
  unfoldable pub lock_volumes : ℕ → ℕ → ℕ → ℕ → List ℕ → M win.World (Outcome (Unit {0}) × List ℕ)
  unfolding volume_uses_disk if_used
  lock_volumes zero i drives disk locked = pure (done tt, locked)
  lock_volumes (suc n) i drives disk locked =
      attempt (
        when (has_drive drives i) (volume_uses_disk (b'A' + i) disk) >>= λ used.
        if_used used (b'A' + i))
      >>= λ r. elim r [
        | failed e ↦ pure (failed e, locked)
        | done o ↦ lock_volumes n (i + 1) drives disk (add_volume locked o)
      ]

  -- df_windows_lock_disk_volumes
  unfoldable pub lock_disk_volumes : ℕ → M win.World (Outcome (Unit {0}) × List ℕ)
  unfolding lock_volumes
  lock_disk_volumes disk = do drives ← call win.logical_drives; lock_volumes 26 0 drives disk []

  -- df_windows_unlock_volumes
  unfoldable pub unlock_volumes : List ℕ → win.World → win.World
  unlock_volumes [] w = w
  unlock_volumes (volume ∷ locked) w =
      unlock_volumes locked (win.close volume (win.unlock_volume volume w).1)
