-- ===== src/Windows/Observing.antt =====
-- Inspecting, opening and closing a disk leaves what is seen of it as it was (src/device.c, Windows).
use deadflash.Base.{
  ℕ, zero, suc, ◌+◌, ◌≡◌, refl, ◌∙◌, Bool, true, false, Option, none, some, List, [], ◌∷◌,
}
use deadflash.Common.{Status, Outcome, done, failed, err_open}
use deadflash.Common.Monad.{M, pure}
use deadflash.Windows.{Win}
use deadflash.Windows.Files.{TargetFile, close_file}
use deadflash.Windows.Kept.{
  Observed, Keeps, bind-Keeps, finally-Keeps, attempt-Keeps, pure-Keeps, throw-Keeps, call-Keeps,
}
use deadflash.Windows.Volumes.{
  require_handle, when, volume_opened, volume_uses_disk, mount_loop, mount_state, lock_loop,
  dismounted_volume, locked_volume, lock_volume, if_used, lock_volumes, lock_disk_volumes,
  unlock_volumes, add_volume, has_drive,
}

module _ (win : Win) {X : Type 0} (o : Observed win X) where
  open o use {seen}

  pub require_handle-Keeps : (e : Status) (h : Option ℕ) → Keeps seen (require_handle e h)
  require_handle-Keeps e none = throw-Keeps seen e
  require_handle-Keeps e (some h) = pure-Keeps seen h

  when-Keeps : (b : Bool) {m : M win.World Bool} → Keeps seen m → Keeps seen (when b m)
  when-Keeps true h = h
  when-Keeps false h = pure-Keeps seen false

  volume_opened-Keeps : (disk : ℕ) (h : Option ℕ) → Keeps seen (volume_opened win disk h)
  unfolding volume_opened
  volume_opened-Keeps disk none = pure-Keeps seen false
  volume_opened-Keeps disk (some h) =
      bind-Keeps seen (finally-Keeps seen (call-Keeps seen (o.volume_extents h)) (o.close h))
        (λ extents. pure-Keeps seen _)

  volume_uses_disk-Keeps : (letter disk : ℕ) → Keeps seen (volume_uses_disk win letter disk)
  unfolding volume_uses_disk
  volume_uses_disk-Keeps letter disk =
      bind-Keeps seen (call-Keeps seen (o.open_query _)) (volume_opened-Keeps disk)

  mount_loop-Keeps :
      (n i drives system disk : ℕ) (found : Bool × Bool)
      → Keeps seen (mount_loop win n i drives system disk found)
  unfolding mount_loop
  mount_loop-Keeps zero i drives system disk (m, s) = pure-Keeps seen (m, s)
  mount_loop-Keeps (suc n) i drives system disk (m, s) =
      bind-Keeps seen (when-Keeps (has_drive drives i) (volume_uses_disk-Keeps _ disk))
        (λ used. mount_loop-Keeps n (i + 1) drives system disk _)

  pub mount_state-Keeps : (disk : ℕ) → Keeps seen (mount_state win disk)
  unfolding mount_state
  mount_state-Keeps disk = bind-Keeps seen (call-Keeps seen o.logical_drives) (λ drives.
      bind-Keeps seen (call-Keeps seen o.windows_directory)
        (λ directory. mount_loop-Keeps 26 0 drives _ disk (false, false)))

  lock_loop-Keeps : (n volume : ℕ) → Keeps seen (lock_loop win n volume)
  unfolding lock_loop
  lock_loop-Keeps zero volume = pure-Keeps seen false
  lock_loop-Keeps (suc n) volume =
      bind-Keeps seen (call-Keeps seen (o.lock_volume volume)) (again (lock_loop-Keeps n volume))
    where
      again :
          Keeps seen (lock_loop win n volume)
          → (locked : Bool)
          → Keeps seen (elim locked as (λ _. M win.World Bool) [
            | true ↦ pure true
            | false ↦ (λ w. lock_loop win n volume (win.sleep 100 w))
          ])
      again k true = pure-Keeps seen true
      again k false = record { keep = λ w. k.keep (win.sleep 100 w) ∙ o.sleep 100 w }

  dismounted_volume-Keeps : (v : ℕ) (b : Bool) → Keeps seen (dismounted_volume win v b)
  unfolding dismounted_volume
  dismounted_volume-Keeps v true = pure-Keeps seen v
  dismounted_volume-Keeps v false =
      finally-Keeps seen
        (bind-Keeps seen (call-Keeps seen (o.unlock_volume v)) (λ b. throw-Keeps seen _))
        (o.close v)

  locked_volume-Keeps : (v : ℕ) (b : Bool) → Keeps seen (locked_volume win v b)
  unfolding locked_volume
  locked_volume-Keeps v true =
      bind-Keeps seen (call-Keeps seen (o.dismount_volume v)) (dismounted_volume-Keeps v)
  locked_volume-Keeps v false = finally-Keeps seen (throw-Keeps seen _) (o.close v)

  lock_volume-Keeps : (letter : ℕ) → Keeps seen (lock_volume win letter)
  unfolding lock_volume
  lock_volume-Keeps letter = bind-Keeps seen (call-Keeps seen (o.open_volume _)) (λ opened.
      bind-Keeps seen (require_handle-Keeps err_open opened)
        (λ v. bind-Keeps seen (lock_loop-Keeps 20 v) (locked_volume-Keeps v)))

  if_used-Keeps : (b : Bool) (letter : ℕ) → Keeps seen (if_used win b letter)
  unfolding if_used
  if_used-Keeps true letter =
      bind-Keeps seen (lock_volume-Keeps letter) (λ v. pure-Keeps seen (some v))
  if_used-Keeps false letter = pure-Keeps seen none

  lock_volumes-Keeps :
      (n i drives disk : ℕ) (locked : List ℕ) → Keeps seen (lock_volumes win n i drives disk locked)
  unfolding lock_volumes
  lock_volumes-Keeps zero i drives disk locked = pure-Keeps seen (done tt, locked)
  lock_volumes-Keeps (suc n) i drives disk locked =
      bind-Keeps seen
        (attempt-Keeps seen (
          bind-Keeps seen (when-Keeps (has_drive drives i) (volume_uses_disk-Keeps _ disk))
            (λ used. if_used-Keeps used _)))
        (step (λ l. lock_volumes-Keeps n (i + 1) drives disk l))
    where
      step :
          ((l : List ℕ) → Keeps seen (lock_volumes win n (i + 1) drives disk l))
          → (r : Outcome (Option ℕ))
          → Keeps seen (elim r as (λ _. M win.World (Outcome (Unit {0}) × List ℕ)) [
            | failed e ↦ pure (failed e, locked)
            | done found ↦ lock_volumes win n (i + 1) drives disk (add_volume win locked found)
          ])
      step k (failed e) = pure-Keeps seen (failed e, locked)
      step k (done found) = k _

  pub lock_disk_volumes-Keeps : (disk : ℕ) → Keeps seen (lock_disk_volumes win disk)
  unfolding lock_disk_volumes
  lock_disk_volumes-Keeps disk =
      bind-Keeps seen (call-Keeps seen o.logical_drives)
        (λ drives. lock_volumes-Keeps 26 0 drives disk [])

  unlock_volumes-seen :
      (locked : List ℕ) (w : win.World) → seen (unlock_volumes win locked w) ≡ seen w
  unfolding unlock_volumes
  unlock_volumes-seen [] w = refl
  unlock_volumes-seen (v ∷ locked) w =
      unlock_volumes-seen locked _ ∙ o.close v _ ∙ o.unlock_volume v w

  -- Closing a file keeps what is seen.
  pub close_file-seen : (file : TargetFile) (w : win.World) → seen (close_file win file w) ≡ seen w
  unfolding close_file
  close_file-seen file w = closed file.file.handle
    where
      closed :
          (h : Option ℕ)
          → seen (elim h as (λ _. win.World) [
            | none ↦ w
            | some handle ↦ win.close handle (unlock_volumes win file.locked w)
          ])
            ≡ seen w
      closed none = refl
      closed (some h) = o.close h _ ∙ unlock_volumes-seen file.locked w
