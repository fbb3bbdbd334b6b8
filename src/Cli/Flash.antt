-- ===== src/Cli/Flash.antt =====
-- The commands of the program deadflash in src/main.c, but for those of Format, Bench and Main. The clocks, the texts
-- of times, and the text and number of an error are arguments.
use deadflash.Base.{ℕ, Option, none, some, List, [], ◌∷◌}
use deadflash.Base.Texts.{codes}
use deadflash.Clean.{zero_target}
use deadflash.Cli.{Args, parse_options}
use deadflash.Cli.Options.{WriteArgs, write_round, verify_round, size_round, default_options}
use deadflash.Cli.Seal.{Exit, status_of, exit_of}
use deadflash.Common.{Status, ok, Outcome, done, failed, verify_full}
use deadflash.Common.Monad.{M, ◌>>=◌}
use deadflash.Device.{TargetInfo}
use deadflash.Device.Files.{open_source, inspect_target, close_file}
use deadflash.Device.Posix.{Os}
use deadflash.Device.Stdio.{Stdio}
use deadflash.Fat32.Format.{verify_fat32}
use deadflash.Pipeline.{Run, WriteResult, run_reset, io, default_buffer_size, hash_source}
use deadflash.Pipeline.Hash.{hash_file_region_progress}
use deadflash.Pipeline.Verify.{verify_image}
use deadflash.Pipeline.Write.{write_image}
use deadflash.Report.Evidence.{Error, ReportContext, Times, write_json_report}

abbrev pub status_code : {A : Type 0} → Outcome A → Status
status_code (done a) = ok
status_code (failed e) = e

-- The target that was found, or the cleared one.
abbrev pub target_or_zero : Option TargetInfo → TargetInfo
target_or_zero none = zero_target
target_or_zero (some info) = info

-- The context of the report on a write.
unfoldable pub write_context :
    (Status → Error)
    → List ℕ
    → List ℕ
    → WriteArgs
    → Status
    → Option TargetInfo
    → WriteResult
    → ReportContext
write_context error_of source target a status planned result = record {
  operation = some (codes "write");
  source_path = some source;
  target_path = some target;
  plan_seal = none;
  target = some (target_or_zero planned);
  write_options = some a.options;
  write_result = some result;
  fat32_layout = none;
  status = status;
  error = some (error_of status);
}

module _ (os : Os) where
  unfoldable pub command_inspect : List ℕ → os.World → Exit os.World
  command_inspect path w = exit_of (inspect_target os path w)

  -- The source is closed whether or not the target could be inspected and the source hashed.
  unfoldable pub plan_image : List ℕ → List ℕ → ℕ → M (Run os.World) (List ℕ)
  plan_image source target buffer_size = io (open_source os source) >>= λ file run.
      let (r, run') =
        (io (inspect_target os target) >>= λ info.
        hash_file_region_progress os file file.size_bytes buffer_size hash_source)
          run in
      (r, record run' { world = (close_file os file run'.world).1 })

  unfoldable pub command_plan : Args → os.World → Exit os.World
  command_plan [] w = (2, w)
  command_plan (image ∷ []) w = (2, w)
  command_plan (image ∷ target ∷ rest) w =
      elim (parse_options (size_round (codes "--buffer")) default_buffer_size rest) [
        | none ↦ (2, w)
        | some buffer_size ↦
            let (r, run) = plan_image image target buffer_size (run_reset w []) in
            (status_of r, run.world)
      ]

  unfoldable pub command_verify_image : Args → os.World → Exit os.World
  command_verify_image [] w = (2, w)
  command_verify_image (image ∷ []) w = (2, w)
  command_verify_image (image ∷ target ∷ rest) w =
      elim (parse_options verify_round
        (record { mode = verify_full; samples = 64; buffer_size = default_buffer_size }) rest) [
          | none ↦ (2, w)
          | some a ↦
              let (r, run) = verify_image os image target a.mode a.samples a.buffer_size w in
              (status_of r, run.world)
        ]

  unfoldable pub command_verify_fat32 : List ℕ → os.World → Exit os.World
  command_verify_fat32 path w = exit_of (verify_fat32 os path w)

  module _ (stdio : Stdio os) (clock : ℕ) (times : Times) (error_of : Status → Error) where
    -- The report, where one is asked for; its failure does not count.
    unfoldable pub reported : Option (List ℕ) → ReportContext → os.World → os.World
    reported none context w = w
    reported (some path) context w = (write_json_report os stdio path clock times context w).1

    unfoldable pub command_write_image : Args → os.World → Exit os.World
    command_write_image [] w = (2, w)
    command_write_image (source ∷ []) w = (2, w)
    command_write_image (source ∷ target ∷ rest) w =
        elim (parse_options write_round (record { options = default_options; report_path = none })
          rest) [
            | none ↦ (2, w)
            | some a ↦
                let (r, run) = write_image os source target (some a.options) w in
                (
                  status_of r,
                  reported a.report_path
                      (write_context error_of source target a (status_code r) run.planned
                        run.result)
                      run.world,
                )
          ]
