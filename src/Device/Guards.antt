-- ===== src/Device/Guards.antt =====
-- What `df_open_target` has checked when it opens a target.
use deadflash.Base.{
  ℕ, ◌≡◌, ap, true, false, not, ◌&&◌, Option, none, some, List, Bool-cases, inl, inr, arith,
}
use deadflash.Base.Texts.{text_eq, text_eq-eq}
use deadflash.Common.{done, failed≢done}
use deadflash.Common.Monad.{through, through_require}
use deadflash.Device.{
  TargetKind, regular_file, block_device, char_device, unknown, TargetInfo, File, WriteOptions,
  confirm_token, confirm_device, validate_destructive_target,
}
use deadflash.Device.Posix.{Os}
use deadflash.Device.Files.{inspect_target, open_target}

-- What is asked of a block or character device before it is overwritten.
abbrev pub IsConfirmed : TargetInfo → WriteOptions → Type 0
IsConfirmed info options =
    (options.allow_device ≡ true)
    × (info.read_only ≡ false)
    × ((info.system_disk && not options.force_system_disk) ≡ false)
    × ((info.mounted && not options.force_mounted) ≡ false)
    × (options.confirmation_token ≡ some info.token)

-- Nothing is asked of a regular file, nor of a target of no known kind.
abbrev pub IsAllowed : TargetKind → TargetInfo → WriteOptions → Type 0
IsAllowed regular_file info options = Unit {0}
IsAllowed unknown info options = Unit {0}
IsAllowed block_device info options = IsConfirmed info options
IsAllowed char_device info options = IsConfirmed info options

-- What an inspection of the target now finds has the planned token and may be overwritten.
abbrev pub IsGuarded : (os : Os) → List ℕ → TargetInfo → WriteOptions → os.World → Type 0
IsGuarded os path expected options w =
    (found : TargetInfo) × (w1 : os.World) × (inspect_target os path w ≡ (done found, w1))
    × (found.token ≡ expected.token)
    × IsAllowed found.kind found options

pub confirm_token-done :
    (given : Option (List ℕ)) (token : List ℕ)
    → confirm_token given token ≡ done tt
    → given ≡ some token
unfolding confirm_token
confirm_token-done none token h = absurd (failed≢done h)
confirm_token-done (some given) token h = elim (Bool-cases (text_eq given token)) [
  | inl p ↦ ap some (text_eq-eq given token p)
  | inr p ↦ absurd (failed≢done (rw (p, confirm_token) at h))
]

confirm_device-done :
    (info : TargetInfo) (options : WriteOptions)
    → confirm_device info options ≡ done tt
    → IsConfirmed info options
unfolding confirm_device
confirm_device-done info options h =
    ground (arith, confirm_token-done options.confirmation_token info.token)

pub validate_destructive_target-done :
    (kind : TargetKind) (info : TargetInfo) (options : WriteOptions)
    → validate_destructive_target (record info { kind = kind }) options ≡ done tt
    → IsAllowed kind info options
unfolding validate_destructive_target
validate_destructive_target-done regular_file info options h = tt
validate_destructive_target-done unknown info options h = tt
validate_destructive_target-done block_device info options h =
    confirm_device-done (record info { kind = block_device }) options h
validate_destructive_target-done char_device info options h =
    confirm_device-done (record info { kind = char_device }) options h

-- When `df_open_target` succeeds, it has inspected the target again first: what it found has the
-- token of the target that was planned, and if it is a device then devices are allowed, it is not
-- read-only, it is neither the system disk nor mounted unless that is forced, and the token given
-- as confirmation is its own.
pub open_target-done :
    (os : Os) (path : List ℕ) (expected : TargetInfo) (options : WriteOptions) (file : File)
    (w w' : os.World)
    → open_target os path expected options w ≡ (done file, w')
    → IsGuarded os path expected options w
unfolding open_target
open_target-done os path expected options file w w' e = through _ _ e (λ found w1 e1 h1.
    let (same, h2) = through_require (text_eq found.token expected.token) _ _ h1 in
    through _ _ h2 (λ u w2 e2 h3. (
      found,
      w1,
      e1,
      text_eq-eq found.token expected.token same,
      validate_destructive_target-done found.kind found options (ap (λ p. p.0) e2),
    )))
