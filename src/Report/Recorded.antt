-- ===== src/Report/Recorded.antt =====
-- What a reader finds in the file that `df_write_json_report` (src/report.c) has written.
use deadflash.Device.Stdio.{Stdio}
