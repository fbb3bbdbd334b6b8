-- ===== src/Clean/Report.antt =====
-- `df_write_clean_json_report` of src/clean.c, and that of src/clean_stub.c. The clock and the texts of the
-- times are arguments.
use deadflash.Base.{ℕ, false, Option, List, [], ◌∷◌}
use deadflash.Base.Texts.{codes}
use deadflash.Clean.{CleanResult, partition_style_name, clean_state_text}
use deadflash.Common.{Status, err_unsupported}
use deadflash.Common.Monad.{M, throw}
use deadflash.Device.{TargetInfo, kind_number}
use deadflash.Device.Posix.{Os}
use deadflash.Device.Stdio.{Stdio}
use deadflash.Report.{clean_json_char}
use deadflash.Report.Evidence.{
  Error, error_json, tool_json, or_empty, name_value, natural, write_report,
}
use deadflash.Report.Text.{
  Json, text_value, number, truth, object, last, more, spread, deep, print_json,
}

-- The texts of `%.3f` for the times of a result.
pub record CleanTimes : Type 0 where
  pub clean_ms : List ℕ
  pub verify_ms : List ℕ
  pub total_ms : List ℕ

-- df_clean_write_target_json, which is indented as if it stood deeper
unfoldable pub clean_target_json : TargetInfo → Json
unfolding kind_number
clean_target_json t = object deep (
    more (codes "kind") (natural (kind_number t.kind)) (
      more (codes "size_bytes") (natural t.size_bytes) (
        more (codes "removable") (truth t.removable) (
          more (codes "read_only") (truth t.read_only) (
            more (codes "mounted") (truth t.mounted) (
              more (codes "system_disk") (truth t.system_disk) (
                more (codes "bus_type") (text_value t.bus_type) (
                  more (codes "vendor") (text_value t.vendor) (
                    more (codes "product") (text_value t.product) (
                      more (codes "revision") (text_value t.revision) (
                        more (codes "serial_sha256") (text_value t.serial_sha256)
                          (last (codes "token") (text_value t.token)))))))))))))

unfoldable pub clean_result_json : CleanTimes → CleanResult → Json
unfolding partition_style_name clean_state_text
clean_result_json times r = object spread (
    more (codes "state") (text_value (clean_state_text r.final_state)) (
      more (codes "disk_number") (natural r.disk_number) (
        more (codes "layout_deleted") (truth r.layout_deleted) (
          more (codes "before_style") (text_value (partition_style_name r.before_style)) (
            more (codes "after_style") (text_value (partition_style_name r.after_style)) (
              more (codes "before_partition_count") (natural r.before_partition_count) (
                more (codes "after_partition_count") (natural r.after_partition_count) (
                  more (codes "clean_ms") (number times.clean_ms) (
                    more (codes "verify_ms") (number times.verify_ms)
                      (last (codes "total_ms") (number times.total_ms)))))))))))

unfoldable pub clean_report_json :
    ℕ → CleanTimes → Option (List ℕ) → CleanResult → Status → Option Error → Json
unfolding clean_target_json clean_result_json error_json
clean_report_json clock times path result status error = object spread (
    more (codes "schema") (text_value (codes "deadflash.clean.evidence.v1")) (
      more (codes "tool") tool_json (
        more (codes "timestamp_unix_ms") (natural clock) (
          more (codes "operation") (text_value (codes "clean_disk")) (
            more (codes "status") (name_value status) (
              more (codes "target_path") (or_empty path) (
                more (codes "method") (text_value (codes "IOCTL_DISK_DELETE_DRIVE_LAYOUT")) (
                  more (codes "clean_all") (truth false) (
                    more (codes "before_target") (clean_target_json result.before_target) (
                      more (codes "result") (clean_result_json times result) (
                        more (codes "after_target") (clean_target_json result.after_target)
                          (last (codes "error") (error_json error)))))))))))))

module _ (os : Os) (stdio : Stdio os) where
  -- df_write_clean_json_report
  unfoldable pub write_clean_json_report :
      List ℕ
      → ℕ
      → CleanTimes
      → Option (List ℕ)
      → CleanResult
      → Status
      → Option Error
      → M os.World (Unit {0})
  unfolding clean_report_json write_report print_json
  write_clean_json_report path clock times target result status error = write_report os stdio path (
      print_json clean_json_char 0 (clean_report_json clock times target result status error)
        (b'\n' ∷ []))

-- The build for other systems.
unfoldable pub write_clean_json_report_stub : {W : Type 0} → M W (Unit {0})
write_clean_json_report_stub = throw err_unsupported
