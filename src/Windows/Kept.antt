-- ===== src/Windows/Kept.antt =====
-- What the calls that inspect, lock and close leave as it was.
use deadflash.Base.{ℕ, ◌≡◌, refl, ◌∙◌, Bool, List}
use deadflash.Common.{Status, Outcome, done, failed}
use deadflash.Common.Monad.{M, ◌>>=◌, pure, throw, call, rest_of}
use deadflash.Windows.{Win, attempt, finally}

-- Something of the world, such as the record of the deletions, that no call changes but the one that
-- deletes a layout.
pub record Observed (win : Win) (X : Type 0) : Type 0 where
  pub seen : win.World → X
  pub widen : (p : List ℕ) (w : win.World) → seen (win.widen p w).1 ≡ seen w
  pub open_query : (p : List ℕ) (w : win.World) → seen (win.open_query p w).1 ≡ seen w
  pub open_probe : (p : List ℕ) (w : win.World) → seen (win.open_probe p w).1 ≡ seen w
  pub open_volume : (p : List ℕ) (w : win.World) → seen (win.open_volume p w).1 ≡ seen w
  pub open_write :
      (p : List ℕ) (b d : Bool) (w : win.World) → seen (win.open_write p b d w).1 ≡ seen w
  pub close : (h : ℕ) (w : win.World) → seen (win.close h w) ≡ seen w
  pub sleep : (n : ℕ) (w : win.World) → seen (win.sleep n w) ≡ seen w
  pub calloc : (n : ℕ) (w : win.World) → seen (win.calloc n w).1 ≡ seen w
  pub file_attributes : (p : List ℕ) (w : win.World) → seen (win.file_attributes p w).1 ≡ seen w
  pub disk_length : (h : ℕ) (w : win.World) → seen (win.disk_length h w).1 ≡ seen w
  pub disk_geometry : (h : ℕ) (w : win.World) → seen (win.disk_geometry h w).1 ≡ seen w
  pub hotplug_info : (h : ℕ) (w : win.World) → seen (win.hotplug_info h w).1 ≡ seen w
  pub device_descriptor : (h : ℕ) (w : win.World) → seen (win.device_descriptor h w).1 ≡ seen w
  pub alignment_descriptor :
      (h : ℕ) (w : win.World) → seen (win.alignment_descriptor h w).1 ≡ seen w
  pub is_writable : (h : ℕ) (w : win.World) → seen (win.is_writable h w).1 ≡ seen w
  pub volume_extents : (h : ℕ) (w : win.World) → seen (win.volume_extents h w).1 ≡ seen w
  pub lock_volume : (h : ℕ) (w : win.World) → seen (win.lock_volume h w).1 ≡ seen w
  pub dismount_volume : (h : ℕ) (w : win.World) → seen (win.dismount_volume h w).1 ≡ seen w
  pub unlock_volume : (h : ℕ) (w : win.World) → seen (win.unlock_volume h w).1 ≡ seen w
  pub device_number : (h : ℕ) (w : win.World) → seen (win.device_number h w).1 ≡ seen w
  pub drive_layout : (h n : ℕ) (w : win.World) → seen (win.drive_layout h n w).1 ≡ seen w
  pub update_properties : (h : ℕ) (w : win.World) → seen (win.update_properties h w).1 ≡ seen w
  pub logical_drives : (w : win.World) → seen (win.logical_drives w).1 ≡ seen w
  pub windows_directory : (w : win.World) → seen (win.windows_directory w).1 ≡ seen w
  pub module_path : (w : win.World) → seen (win.module_path w).1 ≡ seen w

-- A call that leaves what is seen as it was, however it ends.
pub record Keeps {W X A : Type 0} (seen : W → X) (m : M W A) : Type 0 where
  pub keep : (w : W) → seen (m w).1 ≡ seen w

module _ {W X A : Type 0} (seen : W → X) where
  keeps_rest :
      {B : Type 0} (r : Outcome A × W) (f : A → M W B)
      → ((a : A) → Keeps seen (f a))
      → seen (rest_of f r).1 ≡ seen r.1
  unfolding rest_of
  keeps_rest (done a, s') f k = (k a).keep s'
  keeps_rest (failed e, s') f k = refl

  pub bind-Keeps :
      {B : Type 0} {m : M W A} {f : A → M W B}
      → Keeps seen m
      → ((a : A) → Keeps seen (f a))
      → Keeps seen (m >>= f)
  unfolding ◌>>=◌ rest_of keeps_rest
  bind-Keeps {m} {f} h k = record { keep = λ w. keeps_rest (m w) f k ∙ h.keep w }

  pub finally-Keeps :
      {m : M W A} {f : W → W}
      → Keeps seen m
      → ((w : W) → seen (f w) ≡ seen w)
      → Keeps seen (finally m f)
  finally-Keeps {m} h k = record { keep = λ w. k (m w).1 ∙ h.keep w }

  pub attempt-Keeps : {m : M W A} → Keeps seen m → Keeps seen (attempt m)
  attempt-Keeps h = record { keep = λ w. h.keep w }

  pub pure-Keeps : (a : A) → Keeps seen (pure a)
  pure-Keeps a = record { keep = λ w. refl }

  pub throw-Keeps : (e : Status) → Keeps {A = A} seen (throw e)
  throw-Keeps e = record { keep = λ w. refl }

  pub call-Keeps : {f : W → A × W} → ((w : W) → seen (f w).1 ≡ seen w) → Keeps seen (call f)
  call-Keeps h = record { keep = λ w. h w }
