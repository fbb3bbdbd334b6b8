-- ===== src/Report/Evidence.antt =====
-- `df_write_json_report` of src/report.c. The clock, and the texts that printf makes of the times of a
-- result, are arguments; what the C library answers to the prints is ignored, as in the source.
use deadflash.Base.{ℕ, Bool, Option, none, some, List, [], ◌∷◌, if◌then◌else◌}
use deadflash.Base.Texts.{codes, decimal}
use deadflash.Common.{Status, err_open, err_io, status_name, hex_encode}
use deadflash.Common.Monad.{M, ◌>>=◌, ◌>>◌, pure, throw, call}
use deadflash.Device.{TargetInfo, WriteOptions, kind_number}
use deadflash.Device.Posix.{Os}
use deadflash.Device.Stdio.{Stdio}
use deadflash.Fat32.{Layout}
use deadflash.Pipeline.{
  WriteResult, FinalState, state_unset, failed_before_write, failed_partial_media,
  verification_failed, success_unverified, success_verified, plan_breach_partial_media,
}
use deadflash.Report.{json_char, verify_mode_name}
use deadflash.Report.Text.{
  Json, text_value, number, truth, null, object, last, more, in_line, spread, print_json,
}

-- df_error
pub record Error : Type 0 where
  pub code : Status
  pub negative : Bool
  pub os_code : ℕ
  pub message : List ℕ

-- df_report_context
pub record ReportContext : Type 0 where
  pub operation : Option (List ℕ)
  pub source_path : Option (List ℕ)
  pub target_path : Option (List ℕ)
  pub plan_seal : Option (List ℕ)
  pub target : Option TargetInfo
  pub write_options : Option WriteOptions
  pub write_result : Option WriteResult
  pub fat32_layout : Option Layout
  pub status : Status
  pub error : Option Error

-- The texts of `%.3f` for the times of a result and its rate.
pub record Times : Type 0 where
  pub source_hash_ms : List ℕ
  pub write_ms : List ℕ
  pub flush_ms : List ℕ
  pub verify_ms : List ℕ
  pub total_ms : List ℕ
  pub write_mib_s : List ℕ

-- A text, or the empty one for NULL.
abbrev pub or_empty : Option (List ℕ) → Json
or_empty none = text_value []
or_empty (some text) = text_value text

abbrev pub name_value : Status → Json
name_value s = text_value (codes (status_name s))

abbrev pub natural : ℕ → Json
natural n = number (decimal n)

unfoldable pub final_state_text : FinalState → List ℕ
final_state_text state_unset = []
final_state_text failed_before_write = codes "failed_before_write"
final_state_text failed_partial_media = codes "failed_partial_media"
final_state_text verification_failed = codes "verification_failed"
final_state_text success_unverified = codes "success_unverified"
final_state_text success_verified = codes "success_verified"
final_state_text plan_breach_partial_media = codes "plan_breach_partial_media"

unfoldable pub identity_strength : TargetInfo → List ℕ
identity_strength target =
    if target.serial_bound
    then codes "serial_bound"
    else if target.descriptor_present
    then codes "descriptor_bound"
    else codes "geometry_only"

unfoldable pub seal_json : Option (List ℕ) → Json
seal_json none = null
seal_json (some seal) = text_value seal

unfoldable pub target_json : Option TargetInfo → Json
unfolding kind_number identity_strength
target_json none = null
target_json (some t) = object spread (
    more (codes "kind") (natural (kind_number t.kind)) (
      more (codes "size_bytes") (natural t.size_bytes) (
        more (codes "logical_sector_size") (natural t.logical_sector_size) (
          more (codes "physical_sector_size") (natural t.physical_sector_size) (
            more (codes "removable") (truth t.removable) (
              more (codes "read_only") (truth t.read_only) (
                more (codes "mounted") (truth t.mounted) (
                  more (codes "system_disk") (truth t.system_disk) (
                    more (codes "descriptor_present") (truth t.descriptor_present) (
                      more (codes "serial_bound") (truth t.serial_bound) (
                        more (codes "identity_strength") (text_value (identity_strength t)) (
                          more (codes "bus_type") (text_value t.bus_type) (
                            more (codes "vendor") (text_value t.vendor) (
                              more (codes "product") (text_value t.product) (
                                more (codes "revision") (text_value t.revision) (
                                  more (codes "serial_sha256") (text_value t.serial_sha256)
                                    (last (codes "token") (text_value t.token))))))))))))))))))

unfoldable pub configuration_json : Option WriteOptions → Json
unfolding verify_mode_name
configuration_json none = null
configuration_json (some o) = object spread (
    more (codes "buffer_bytes") (natural o.buffer_size) (
      more (codes "write_retries") (natural o.write_retries) (
        more (codes "verify_mode") (text_value (verify_mode_name o.verify_mode)) (
          more (codes "sample_count") (natural o.sample_count) (
            more (codes "allow_device") (truth o.allow_device) (
              more (codes "force_mounted") (truth o.force_mounted) (
                more (codes "force_system_disk") (truth o.force_system_disk) (
                  more (codes "truncate_regular_file") (truth o.truncate_regular_file)
                    (last (codes "direct_io") (truth o.direct_io))))))))))

unfoldable pub result_json : Times → Option WriteResult → Json
unfolding final_state_text
result_json times none = null
result_json times (some r) = object spread (
    more (codes "state") (text_value (final_state_text r.final_state)) (
      more (codes "source_size") (natural r.source_size) (
        more (codes "bytes_written") (natural r.bytes_written) (
          more (codes "bytes_verified") (natural r.bytes_verified) (
            more (codes "write_retries") (natural r.write_retries) (
              more (codes "verification_mismatches") (natural r.verification_mismatches) (
                more (codes "source_hash_ms") (number times.source_hash_ms) (
                  more (codes "write_ms") (number times.write_ms) (
                    more (codes "flush_ms") (number times.flush_ms) (
                      more (codes "verify_ms") (number times.verify_ms) (
                        more (codes "total_ms") (number times.total_ms) (
                          more (codes "write_mib_s") (number times.write_mib_s) (
                            more (codes "source_sha256") (text_value (hex_encode r.source_sha256)) (
                              last (codes "target_sha256")
                                (text_value (hex_encode r.target_sha256))))))))))))))))

unfoldable pub fat32_json : Option Layout → Json
fat32_json none = null
fat32_json (some l) = object spread (
    more (codes "bytes_per_sector") (natural l.bytes_per_sector) (
      more (codes "sectors_per_cluster") (natural l.sectors_per_cluster) (
        more (codes "reserved_sectors") (natural l.reserved_sectors) (
          more (codes "fat_count") (natural l.fat_count) (
            more (codes "sectors_per_fat") (natural l.sectors_per_fat) (
              more (codes "partition_start_lba") (natural l.partition_start_lba) (
                more (codes "partition_sectors") (natural l.partition_sectors)
                  (last (codes "data_clusters") (natural l.data_clusters)))))))))

abbrev error_fields : Json → Json → Json → Json
error_fields code os_code message =
    object in_line
      (more (codes "code") code (more (codes "os_code") os_code (last (codes "message") message)))

-- The error, or none; src/clean.c ends its report in the same way.
unfoldable pub error_json : Option Error → Json
error_json none = error_fields (text_value (codes "ok")) (natural 0) (text_value [])
error_json (some e) =
    error_fields (name_value e.code)
      (number (if e.negative then b'-' ∷ decimal e.os_code else decimal e.os_code))
      (text_value e.message)

-- DF_VERSION_STRING is "1.0.0".
abbrev pub tool_json : Json
tool_json = object in_line (
    more (codes "name") (text_value (codes "DEADFLASH"))
      (last (codes "version") (text_value (codes "1.0.0"))))

unfoldable pub report_json : ℕ → Times → ReportContext → Json
unfolding seal_json target_json configuration_json result_json fat32_json error_json
report_json clock times context = object spread (
    more (codes "schema") (text_value (codes "deadflash.evidence.v1")) (
      more (codes "tool") tool_json (
        more (codes "timestamp_unix_ms") (natural clock) (
          more (codes "operation") (or_empty context.operation) (
            more (codes "status") (name_value context.status) (
              more (codes "source") (or_empty context.source_path) (
                more (codes "target_path") (or_empty context.target_path) (
                  more (codes "plan_seal") (seal_json context.plan_seal) (
                    more (codes "target") (target_json context.target) (
                      more (codes "configuration") (configuration_json context.write_options) (
                        more (codes "result") (result_json times context.write_result) (
                          more (codes "fat32") (fat32_json context.fat32_layout)
                            (last (codes "error") (error_json context.error))))))))))))))

unfoldable pub report_text : ℕ → Times → ReportContext → List ℕ
unfolding report_json print_json
report_text clock times context =
    print_json json_char 0 (report_json clock times context) (b'\n' ∷ [])

module _ (os : Os) (stdio : Stdio os) where
  -- A text printed to a new file.
  unfoldable pub write_report : List ℕ → List ℕ → M os.World (Unit {0})
  write_report path text = do
    created ← call (stdio.create path)
    (if created then pure tt else throw err_open)
    printed ← call (stdio.print path text)
    closed ← call (stdio.fclose path)
    (if closed then pure tt else throw err_io)

  -- df_write_json_report
  unfoldable pub write_json_report : List ℕ → ℕ → Times → ReportContext → M os.World (Unit {0})
  unfolding report_text write_report
  write_json_report path clock times context = write_report path (report_text clock times context)
