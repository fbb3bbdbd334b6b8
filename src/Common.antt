-- ===== src/Common.antt =====
-- src/common.c and the enumerations of include/deadflash/common.h: status codes, the comparison of
-- digests, hexadecimal text. A C string is the list of its character codes, without the final NUL.
pub mod Monad
pub mod Avoids
pub mod Parse
pub mod Numbers
pub mod Compare
pub mod Hex
mod Tests
use deadflash.Base.{
  ℕ, ◌≡◌, Bool, List, [], ◌∷◌, ◌++◌, bit_and, bit_or, bit_xor, ◌==◌, ◌%◌, get_or, shr,
}
use Prim.Native.String.{String}

-- df_status
pub data Status : Type 0 where
  ok err_invalid_argument err_open err_io err_permission err_unsupported err_no_memory : Status
  err_too_small err_too_large err_source_too_large err_device_required : Status
  err_device_forbidden err_system_disk err_mounted err_confirmation err_identity_changed : Status
  err_verify_mismatch err_format err_cancelled err_internal : Status

unfoldable pub status_name : Status → String
status_name ok = "ok"
status_name err_invalid_argument = "invalid_argument"
status_name err_open = "open_failed"
status_name err_io = "io_failed"
status_name err_permission = "permission_denied"
status_name err_unsupported = "unsupported"
status_name err_no_memory = "out_of_memory"
status_name err_too_small = "target_too_small"
status_name err_too_large = "target_too_large"
status_name err_source_too_large = "source_too_large"
status_name err_device_required = "device_required"
status_name err_device_forbidden = "device_forbidden"
status_name err_system_disk = "system_disk_rejected"
status_name err_mounted = "mounted_target_rejected"
status_name err_confirmation = "confirmation_failed"
status_name err_identity_changed = "identity_changed"
status_name err_verify_mismatch = "verification_mismatch"
status_name err_format = "format_failed"
status_name err_cancelled = "cancelled"
status_name err_internal = "internal_error"

-- df_verify_mode
pub data VerifyMode : Type 0 where
  verify_none verify_sample verify_full : VerifyMode

-- What a fallible function returns: its value, or the status that is not DF_OK.
pub data Outcome {ℓ} (A : Type ℓ) : Type ℓ where
  done : A → Outcome A
  failed : Status → Outcome A

pub failed≢done {ℓ} : {A : Type ℓ} {s : Status} {a : A} → failed s ≡ done a → ⊥
failed≢done e = cc

pub done_inj {ℓ} : {A : Type ℓ} {a b : A} → done a ≡ done b → a ≡ b
done_inj e = cc

-- The loop of `df_constant_time_equal` over the bytes at both pointers, as many at each.
pub diff_loop : ℕ → List ℕ → List ℕ → ℕ
diff_loop diff [] right = diff
diff_loop diff (a ∷ left) [] = diff
diff_loop diff (a ∷ left) (b ∷ right) = diff_loop (bit_or diff (bit_xor a b % 256)) left right

unfoldable pub constant_time_equal : List ℕ → List ℕ → Bool
unfolding diff_loop
constant_time_equal a b = diff_loop 0 a b == 0

-- "0123456789abcdef"
abbrev pub hex_digits : List ℕ
hex_digits =
    b'0' ∷ b'1' ∷ b'2' ∷ b'3' ∷ b'4' ∷ b'5' ∷ b'6' ∷ b'7' ∷ b'8' ∷ b'9' ∷ b'a' ∷ b'b' ∷ b'c' ∷ b'd'
    ∷ b'e' ∷ b'f' ∷ []

unfoldable pub hex_encode : List ℕ → List ℕ
hex_encode [] = []
hex_encode (b ∷ bytes) =
    get_or hex_digits (shr b 4) 0 ∷ get_or hex_digits (bit_and b 0x0f) 0 ∷ hex_encode bytes
