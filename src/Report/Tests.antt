-- ===== src/Report/Tests.antt =====
-- The text of a report, and the theorems on src/report.c at concrete texts.
use deadflash.Base.{ℕ, ◌≡◌, refl, true, false, none, some, List, [], ◌∷◌, ◌++◌, ◌≤◌, arith}
use deadflash.Base.Texts.{codes}
use deadflash.Common.{err_io}
use deadflash.Device.Disk.{Disk}
use deadflash.Report.{json_string, json_char, clean_json_char}
use deadflash.Report.Evidence.{Times, ReportContext, report_text}
use deadflash.Report.Reader.{read_json, plain_json, size}
use deadflash.Report.Reader.Printed.{read_json-print_json}
use deadflash.Report.Text.{
  Json, text_value, number, truth, object, last, more, spread, in_line, print_json,
}

-- A text with a quote, a backslash, a control character and a byte beyond ASCII.
abbrev tricky : List ℕ
tricky = b'"' ∷ b'\\' ∷ 7 ∷ 8 ∷ 200 ∷ []

escaped : json_string json_char tricky [] ≡ codes "\"\\\"\\\\\\u0007\\b" ++ (200 ∷ b'"' ∷ [])
unfolding json_string json_char
escaped = refl

abbrev value : Json
value = object spread (
    more (codes "name") (text_value tricky) (
      more (codes "inner") (object in_line (last (codes "x") (number (codes "-1.5"))))
        (last (codes "ok") (truth true))))

printed :
    print_json json_char 0
      (object spread (more (codes "a") (number (codes "1")) (last (codes "b") (truth true))))
      []
    ≡ codes "{\n  \"a\": 1,\n  \"b\": true\n}"
unfolding print_json json_string json_char
printed = refl

enough : size value ≤ 9
unfolding size
enough = omega arith

read_json-print_json_example :
    (read_json 9 (print_json json_char 0 value (codes "\n")) ≡ some (plain_json value, codes "\n"))
    × (read_json 9 (print_json clean_json_char 0 value (codes "\n"))
        ≡ some (plain_json value, codes "\n"))
read_json-print_json_example =
    read_json-print_json 0 9 value (codes "\n") (ground arith) refl enough

abbrev times : Times
times = record {
  source_hash_ms = codes "1.000";
  write_ms = codes "2.500";
  flush_ms = codes "0.125";
  verify_ms = codes "3.000";
  total_ms = codes "6.625";
  write_mib_s = codes "12.000";
}

abbrev context : ReportContext
context = record {
  operation = some (codes "write");
  source_path = some (codes "a \"b\".img");
  target_path = some (codes "/dev/sdb");
  plan_seal = none;
  target = none;
  write_options = none;
  write_result = none;
  fat32_layout = none;
  status = err_io;
  error = some (record { code = err_io; negative = false; os_code = 5; message = codes "write" });
}

abbrev empty_disk : Disk
empty_disk = record { source = []; target = []; note = [] }

-- What the call leaves on the disk.
abbrev reported : Disk
reported = record empty_disk { note = report_text 99 times context }
