-- ===== src/Cli/Options.antt =====
-- The options of the commands in src/main.c and src/proof_main.c.
use deadflash.Base.{
  ℕ, ◌-◌, ◌*◌, ◌^◌, ◌||◌, Bool, true, false, Option, none, some, List, ltb, ◌==◌, if◌then◌else◌,
}
use deadflash.Base.Texts.{codes, text_eq}
use deadflash.Cli.{Round, valued, switch, unknown_option}
use deadflash.Common.{VerifyMode, verify_none, verify_sample, verify_full}
use deadflash.Common.Parse.{parse_u64, parse_size}
use deadflash.Device.{WriteOptions}
use deadflash.Fat32
use deadflash.Fat32.Sectors.{normalize_label}
use deadflash.Pipeline.{default_buffer_size}
use deadflash.Proof.{default_chunk_size}

-- parse_verify and parse_verify_mode
unfoldable pub parse_verify : List ℕ → Option VerifyMode
parse_verify text =
    if text_eq text (codes "none")
    then some verify_none
    else if text_eq text (codes "sample")
    then some verify_sample
    else if text_eq text (codes "full")
    then some verify_full
    else none

-- A number of 32 bits, and a size that is not 0.
abbrev below_32 : Option ℕ → Option ℕ
below_32 none = none
below_32 (some n) = if ltb (2 ^ 32 - 1) n then none else some n

abbrev not_zero : Option ℕ → Option ℕ
not_zero none = none
not_zero (some n) = if n == 0 then none else some n

abbrev apply_to : {A S : Type 0} → (A → S) → Option A → Option S
apply_to f none = none
apply_to f (some a) = some (f a)

unfoldable pub default_options : WriteOptions
default_options = record {
  buffer_size = default_buffer_size;
  write_retries = 4;
  verify_mode = verify_full;
  sample_count = 64;
  allow_device = false;
  force_mounted = false;
  force_system_disk = false;
  direct_io = false;
  truncate_regular_file = true;
  confirmation_token = none;
}

-- What the options of deadflash-proof set.
pub record SealArgs : Type 0 where
  pub options : WriteOptions
  pub seal : Option (List ℕ)
  pub proof_path : Option (List ℕ)
  pub proof_chunk : ℕ

-- The values that only `write` takes; `seal` passes NULL for their places.
abbrev only_if : {S : Type 0} → Bool → Option S → Option S
only_if true s = s
only_if false s = none

abbrev with_options : SealArgs → WriteOptions → SealArgs
with_options a o = record a { options = o }

-- A round of parse_write_options
unfoldable pub seal_round : Bool → Round SealArgs
unfolding parse_verify
seal_round takes_proof =
    valued (codes "--verify")
      (λ a value.
        apply_to (λ mode. with_options a (record (a.options) { verify_mode = mode }))
          (parse_verify value))
      (valued (codes "--samples")
        (λ a value.
          apply_to (λ n. with_options a (record (a.options) { sample_count = n }))
            (below_32 (parse_u64 value)))
        (valued (codes "--buffer")
          (λ a value.
            apply_to (λ n. with_options a (record (a.options) { buffer_size = n }))
              (not_zero (parse_size value)))
          (valued (codes "--confirm")
            (λ a value.
              some (with_options a (record (a.options) { confirmation_token = some value })))
            (valued (codes "--seal")
              (λ a value. only_if takes_proof (some (record a { seal = some value })))
              (valued (codes "--proof")
                (λ a value. only_if takes_proof (some (record a { proof_path = some value })))
                (valued (codes "--chunk")
                  (λ a value.
                    only_if takes_proof
                      (apply_to (λ n. record a { proof_chunk = n }) (not_zero (parse_size value))))
                  (switch (codes "--direct")
                    (λ a. with_options a (record (a.options) { direct_io = true }))
                    (switch (codes "--allow-device")
                      (λ a. with_options a (record (a.options) { allow_device = true }))
                      (switch (codes "--force-mounted")
                        (λ a. with_options a (record (a.options) { force_mounted = true }))
                        (switch (codes "--force-system-disk")
                          (λ a. with_options a (record (a.options) { force_system_disk = true }))
                          unknown_option))))))))))

unfoldable pub seal_defaults : SealArgs
unfolding default_options
seal_defaults = record {
  options = default_options;
  seal = none;
  proof_path = none;
  proof_chunk = default_chunk_size;
}

-- A round of the loops of `manifest` and `plan`, which have one option.
unfoldable pub size_round : List ℕ → Round ℕ
size_round name = valued name (λ n value. not_zero (parse_size value)) unknown_option

-- What the options of `write` set in src/main.c.
pub record WriteArgs : Type 0 where
  pub options : WriteOptions
  pub report_path : Option (List ℕ)

abbrev with_write : WriteArgs → WriteOptions → WriteArgs
with_write a o = record a { options = o }

unfoldable pub write_round : Round WriteArgs
unfolding parse_verify
write_round =
    valued (codes "--verify")
      (λ a value.
        apply_to (λ mode. with_write a (record (a.options) { verify_mode = mode }))
          (parse_verify value))
      (valued (codes "--samples")
        (λ a value.
          apply_to (λ n. with_write a (record (a.options) { sample_count = n }))
            (below_32 (parse_u64 value)))
        (valued (codes "--buffer")
          (λ a value.
            apply_to (λ n. with_write a (record (a.options) { buffer_size = n }))
              (not_zero (parse_size value)))
          (valued (codes "--report") (λ a value. some (record a { report_path = some value }))
            (valued (codes "--confirm")
              (λ a value.
                some (with_write a (record (a.options) { confirmation_token = some value })))
              (switch (codes "--allow-device")
                (λ a. with_write a (record (a.options) { allow_device = true }))
                (switch (codes "--force-mounted")
                  (λ a. with_write a (record (a.options) { force_mounted = true }))
                  (switch (codes "--force-system-disk")
                    (λ a. with_write a (record (a.options) { force_system_disk = true }))
                    (switch (codes "--direct")
                      (λ a. with_write a (record (a.options) { direct_io = true }))
                      unknown_option))))))))

-- What the options of `verify` set.
pub record VerifyArgs : Type 0 where
  pub mode : VerifyMode
  pub samples : ℕ
  pub buffer_size : ℕ

unfoldable pub verify_round : Round VerifyArgs
unfolding parse_verify
verify_round =
    valued (codes "--verify")
      (λ a value. apply_to (λ m. record a { mode = m }) (parse_verify value))
      (valued (codes "--samples")
        (λ a value. apply_to (λ n. record a { samples = n }) (below_32 (parse_u64 value)))
        (valued (codes "--buffer")
          (λ a value. apply_to (λ n. record a { buffer_size = n }) (not_zero (parse_size value)))
          unknown_option))

-- What the options of `format-fat32` set.
pub record FormatArgs : Type 0 where
  pub options : Fat32.Options
  pub report_path : Option (List ℕ)

abbrev with_format : FormatArgs → Fat32.Options → FormatArgs
with_format a o = record a { options = o }

unfoldable pub format_round : Round FormatArgs
unfolding normalize_label
format_round =
    valued (codes "--label")
      (λ a value. some (with_format a (record (a.options) { label = normalize_label value })))
      (valued (codes "--size")
        (λ a value.
          apply_to (λ n. with_format a (record (a.options) { regular_file_size = n }))
            (parse_size value))
        (valued (codes "--confirm")
          (λ a value. some (with_format a (record (a.options) { confirmation_token = some value })))
          (valued (codes "--report") (λ a value. some (record a { report_path = some value }))
            (switch (codes "--allow-device")
              (λ a. with_format a (record (a.options) { allow_device = true }))
              (switch (codes "--force-mounted")
                (λ a. with_format a (record (a.options) { force_mounted = true }))
                (switch (codes "--force-system-disk")
                  (λ a. with_format a (record (a.options) { force_system_disk = true }))
                  unknown_option))))))

abbrev pub format_defaults : FormatArgs
format_defaults = record {
  options = record {
    label = codes "DEADFLASH";
    partition_start_lba = 2048;
    create_mbr = true;
    regular_file_size = 0;
    allow_device = false;
    force_mounted = false;
    force_system_disk = false;
    confirmation_token = none;
  };
  report_path = none;
}

-- What the options of `bench` set.
pub record BenchArgs : Type 0 where
  pub size : ℕ
  pub runs : ℕ

-- A number of runs from 1 to 100.
abbrev run_count : Option ℕ → Option ℕ
run_count none = none
run_count (some n) = if (n == 0) || ltb 100 n then none else some n

unfoldable pub bench_round : Round BenchArgs
bench_round =
    valued (codes "--size") (λ a value. apply_to (λ n. record a { size = n }) (parse_size value))
      (valued (codes "--runs")
        (λ a value. apply_to (λ n. record a { runs = n }) (run_count (parse_u64 value)))
        unknown_option)

abbrev pub bench_defaults : BenchArgs
bench_defaults = record { size = 256 * 1024 * 1024; runs = 5 }
