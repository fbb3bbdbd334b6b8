-- ===== src/Windows/Inspecting.antt =====
-- Inspecting and opening a target leaves what is seen of a disk as it was (src/device.c, Windows).
use deadflash.Base.{ℕ, refl, Bool, true, false, Option, none, some, List, [], ◌∷◌, if◌then◌else◌}
use deadflash.Common.{Status, Outcome, done, failed, err_open}
use deadflash.Common.Monad.{M, ◌>>=◌, pure, throw, call}
use deadflash.Device.{TargetInfo, WriteOptions, File, block_device, target_info_defaults}
use deadflash.Windows.{
  Win, Geometry, Attributes, attributes_missing, attributes_failed, attributes_of, Widened, widened,
  invalid_utf8, no_memory, physical_drive,
}
use deadflash.Windows.Files.{
  wide_path, size_by_geometry, regular_target, disk_size, inspect_drive, inspect_path,
  inspect_target, lock_target, lock_drive, open_target, settle, file_for,
}
use deadflash.Windows.Identity.{read_identity}
use deadflash.Windows.Kept.{
  Observed, Keeps, bind-Keeps, finally-Keeps, pure-Keeps, throw-Keeps, call-Keeps,
}
use deadflash.Windows.Observing.{
  require_handle-Keeps, mount_state-Keeps, lock_disk_volumes-Keeps, close_file-seen,
}

module _ (win : Win) {X : Type 0} (o : Observed win X) where
  open o use {seen}

  read_identity-Keeps : (h : ℕ) (info : TargetInfo) → Keeps seen (read_identity win h info)
  unfolding read_identity
  read_identity-Keeps h info =
      bind-Keeps seen (call-Keeps seen (o.device_descriptor h))
        (λ d. bind-Keeps seen (call-Keeps seen (o.alignment_descriptor h)) (λ a. pure-Keeps seen _))

  size_by_geometry-Keeps :
      (info : TargetInfo) (g : Option Geometry) → Keeps seen (size_by_geometry info g)
  size_by_geometry-Keeps info none = throw-Keeps seen _
  size_by_geometry-Keeps info (some g) = pure-Keeps seen _

  disk_size-Keeps :
      (h : ℕ) (info : TargetInfo) (bytes : Option ℕ) → Keeps seen (disk_size win h info bytes)
  unfolding disk_size
  disk_size-Keeps h info none =
      bind-Keeps seen (call-Keeps seen (o.disk_geometry h)) (size_by_geometry-Keeps info)
  disk_size-Keeps h info (some bytes) = pure-Keeps seen _

  inspect_drive-Keeps :
      (disk h : ℕ) (info : TargetInfo) → Keeps seen (inspect_drive win disk h info)
  unfolding inspect_drive
  inspect_drive-Keeps disk h info = bind-Keeps seen (call-Keeps seen (o.disk_length h)) (λ bytes.
      bind-Keeps seen (disk_size-Keeps h info bytes) (λ sized.
        bind-Keeps seen (call-Keeps seen (o.disk_geometry h)) (λ g.
          bind-Keeps seen (call-Keeps seen (o.hotplug_info h)) (λ p.
            bind-Keeps seen (read_identity-Keeps h _) (λ known.
              bind-Keeps seen (call-Keeps seen (o.is_writable h))
                (λ b. bind-Keeps seen (mount_state-Keeps win o disk) (λ m. pure-Keeps seen _)))))))

  wide_path-Keeps : (r : Widened) → Keeps seen (wide_path r)
  wide_path-Keeps widened = pure-Keeps seen tt
  wide_path-Keeps invalid_utf8 = throw-Keeps seen _
  wide_path-Keeps no_memory = throw-Keeps seen _

  regular_target-Keeps : (info : TargetInfo) (a : Attributes) → Keeps seen (regular_target info a)
  regular_target-Keeps info attributes_missing = pure-Keeps seen _
  regular_target-Keeps info attributes_failed = throw-Keeps seen _
  regular_target-Keeps info (attributes_of true r h l) = throw-Keeps seen _
  regular_target-Keeps info (attributes_of false r h l) = pure-Keeps seen _

  -- What follows the conversion of a path.
  widened-Keeps :
      {A : Type 0} (path : List ℕ) {k : M win.World A}
      → Keeps seen k
      → Keeps seen (call (win.widen path) >>= λ wide. wide_path wide >>= λ _. k)
  widened-Keeps path h =
      bind-Keeps seen (call-Keeps seen (o.widen path))
        (λ wide. bind-Keeps seen (wide_path-Keeps wide) (λ _. h))

  inspect_path-Keeps :
      (path : List ℕ) (info : TargetInfo) (disk : Option ℕ)
      → Keeps seen (inspect_path win path info disk)
  unfolding inspect_path
  inspect_path-Keeps path info (some disk) = widened-Keeps path (
      bind-Keeps seen (call-Keeps seen (o.open_query path)) (λ opened.
        bind-Keeps seen (require_handle-Keeps win o err_open opened) (λ h.
          bind-Keeps seen
            (finally-Keeps seen (inspect_drive-Keeps disk h (record info { kind = block_device }))
              (o.close h))
            (λ found. pure-Keeps seen _))))
  inspect_path-Keeps path info none =
      widened-Keeps path
        (bind-Keeps seen (call-Keeps seen (o.file_attributes path)) (regular_target-Keeps info))

  -- Inspecting a target keeps what is seen.
  pub inspect_target-Keeps : (path : List ℕ) → Keeps seen (inspect_target win path)
  unfolding inspect_target
  inspect_target-Keeps [] = throw-Keeps seen _
  inspect_target-Keeps (c ∷ path) =
      inspect_path-Keeps (c ∷ path) (target_info_defaults (c ∷ path)) (physical_drive (c ∷ path))

  lock_target-Keeps :
      (file : File) (r : Outcome (Unit {0}) × List ℕ) → Keeps seen (lock_target win file r)
  unfolding lock_target
  lock_target-Keeps file (done u, locked) = pure-Keeps seen _
  lock_target-Keeps file (failed e, locked) =
      finally-Keeps seen (throw-Keeps seen e)
        (close_file-seen win o (record { file = file; locked = locked }))

  lock_drive-Keeps : (file : File) (disk : Option ℕ) → Keeps seen (lock_drive win file disk)
  unfolding lock_drive
  lock_drive-Keeps file none =
      finally-Keeps seen (throw-Keeps seen _)
        (close_file-seen win o (record { file = file; locked = [] }))
  lock_drive-Keeps file (some disk) =
      bind-Keeps seen (lock_disk_volumes-Keeps win o disk) (lock_target-Keeps file)

  pub settle-Keeps : {A : Type 0} (r : Outcome A) → Keeps seen (settle r)
  settle-Keeps r = record { keep = λ w. refl }

  pub guard-Keeps : (b : Bool) (e : Status) → Keeps seen (if b then pure tt else throw e)
  guard-Keeps true e = pure-Keeps seen tt
  guard-Keeps false e = throw-Keeps seen e

  locked_if-Keeps :
      (b : Bool) (file : File) (disk : Option ℕ)
      → Keeps seen
          (if b then lock_drive win file disk else pure (record { file = file; locked = [] }))
  locked_if-Keeps true file disk = lock_drive-Keeps file disk
  locked_if-Keeps false file disk = pure-Keeps seen _

  -- Opening a target keeps what is seen.
  pub open_target-Keeps :
      (path : List ℕ) (expected : TargetInfo) (options : WriteOptions)
      → Keeps seen (open_target win path expected options)
  unfolding open_target
  open_target-Keeps path expected options = bind-Keeps seen (inspect_target-Keeps path) (λ current.
      bind-Keeps seen (guard-Keeps _ _) (λ _. bind-Keeps seen (settle-Keeps _) (λ _.
        widened-Keeps path (
          bind-Keeps seen (call-Keeps seen (o.open_write path _ _)) (λ opened.
            bind-Keeps seen (require_handle-Keeps win o err_open opened) (λ h.
              locked_if-Keeps _ (record (file_for path current options) { handle = some h }) _))))))
