-- ===== src/Cli/Format.antt =====
-- The command `format-fat32` of src/main.c. The clocks and the text and number of an error are arguments.
use deadflash.Base.{ℕ, none, some, List, [], ◌∷◌}
use deadflash.Base.Texts.{codes}
use deadflash.Clean.{zero_target}
use deadflash.Cli.{Args, parse_options}
use deadflash.Cli.Flash.{reported}
use deadflash.Cli.Options.{format_round, format_defaults}
use deadflash.Cli.Seal.{Exit, status_of}
use deadflash.Common.{Status, ok, Outcome, done, failed}
use deadflash.Device.{TargetInfo}
use deadflash.Device.Posix.{Os}
use deadflash.Device.Stdio.{Stdio}
use deadflash.Fat32.{Layout}
use deadflash.Fat32.Format.{format_fat32}
use deadflash.Report.Evidence.{Error, ReportContext, Times}

-- `memset(&layout, 0, sizeof(layout))`
abbrev pub zero_layout : Layout
zero_layout = record {
  bytes_per_sector = 0;
  sectors_per_cluster = 0;
  reserved_sectors = 0;
  fat_count = 0;
  sectors_per_fat = 0;
  partition_start_lba = 0;
  partition_sectors = 0;
  data_clusters = 0;
  root_cluster = 0;
}

-- The context of the report; the target and the layout are set by a format that succeeded.
unfoldable pub format_context :
    (Status → Error) → List ℕ → Outcome (TargetInfo × Layout) → ReportContext
format_context error_of target (done (info, layout)) = record {
  operation = some (codes "format-fat32");
  source_path = none;
  target_path = some target;
  plan_seal = none;
  target = some info;
  write_options = none;
  write_result = none;
  fat32_layout = some layout;
  status = ok;
  error = some (error_of ok);
}
format_context error_of target (failed e) = record {
  operation = some (codes "format-fat32");
  source_path = none;
  target_path = some target;
  plan_seal = none;
  target = some zero_target;
  write_options = none;
  write_result = none;
  fat32_layout = some zero_layout;
  status = e;
  error = some (error_of e);
}

module _ (os : Os) (stdio : Stdio os) (volume_clock : os.World → ℕ × os.World) (clock : ℕ)
    (times : Times) (error_of : Status → Error) where
  unfoldable pub command_format_fat32 : Args → os.World → Exit os.World
  command_format_fat32 [] w = (2, w)
  command_format_fat32 (target ∷ rest) w = elim (parse_options format_round format_defaults rest) [
    | none ↦ (2, w)
    | some a ↦
        let (r, w1) = format_fat32 os volume_clock target (some a.options) w in
        (
          status_of r,
          reported os stdio clock times error_of a.report_path (format_context error_of target r)
              w1,
        )
  ]
