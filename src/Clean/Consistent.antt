-- ===== src/Clean/Consistent.antt =====
-- However `df_clean_disk` (src/clean.c) ends, its state, its outcome and its result agree.
use deadflash.Base.{◌≡◌, true}
use deadflash.Clean.{CleanRun, CleanResult, failed_during_clean, clean_unverified}
use deadflash.Common.{Outcome, done, failed}
use deadflash.Windows.{Win}

module _ (win : Win) where
  -- The end of the deletion, in the result.
  abbrev IsDeletion : CleanResult → Outcome (Unit {0}) × CleanRun win.World → Type 0
  IsDeletion result (failed e, run) =
      run.result ≡ record result { final_state = failed_during_clean }
  IsDeletion result (done u, run) =
      run.result ≡ record result { layout_deleted = true; final_state = clean_unverified }
