-- ===== src/Windows/Opened.antt =====
-- What `df_open_target` has checked in the Windows build of src/device.c.
use deadflash.Base.{ℕ, ◌≡◌, ap, true, List}
use deadflash.Base.Texts.{text_eq, text_eq-eq}
use deadflash.Common.{done}
use deadflash.Common.Monad.{through, through_require}
use deadflash.Device.{TargetInfo, WriteOptions}
use deadflash.Device.Guards.{IsAllowed, validate_destructive_target-done}
use deadflash.Windows.{Win}
use deadflash.Windows.Files.{TargetFile, inspect_target, open_target, validate_windows_target}

-- When df_open_target succeeds in the Windows build, it has inspected the target again first: what it
-- found has the token of the target that was planned, and if it is a device then devices are allowed,
-- it is not read-only, it is not the system disk unless that is forced, and the token given as
-- confirmation is its own.
pub windows_open_target-done :
    (win : Win) (path : List ℕ) (expected : TargetInfo) (options : WriteOptions) (file : TargetFile)
    (w w' : win.World)
    → open_target win path expected options w ≡ (done file, w')
    → (found : TargetInfo) × (w1 : win.World) × (inspect_target win path w ≡ (done found, w1))
      × (found.token ≡ expected.token)
      × IsAllowed found.kind found (record options { force_mounted = true })
unfolding open_target validate_windows_target
windows_open_target-done win path expected options file w w' e = through _ _ e (λ found w1 e1 h1.
    let (same, h2) = through_require (text_eq found.token expected.token) _ _ h1 in
    through _ _ h2 (λ u w2 e2 h3. (
      found,
      w1,
      e1,
      text_eq-eq found.token expected.token same,
      validate_destructive_target-done found.kind found (record options { force_mounted = true })
          (ap (λ p. p.0) e2),
    )))
