-- ===== src/Clean.antt =====
-- src/clean.c with include/deadflash/clean.h, in its Windows build, and src/clean_stub.c: the layout of
-- a disk, and the removal of its partitions. Times are left out.
pub mod Layout
pub mod Bounded
pub mod Disk
pub mod Looking
pub mod Safe
pub mod Guarded
pub mod States
pub mod Consistent
pub mod Report
mod Tests
use deadflash.Base.{ℕ, Bool, true, false, Option, none, some, List, [], ◌≡◌}
use deadflash.Base.Texts.{codes}
use deadflash.Common.{Outcome}
use deadflash.Common.Monad.{M, zoom}
use deadflash.Device.{TargetInfo, TargetKind, regular_file}
use deadflash.Windows.{Win}

-- df_clean_partition_style
pub data PartitionStyle : Type 0 where
  unknown_style raw mbr gpt : PartitionStyle

unfoldable pub partition_style_name : PartitionStyle → List ℕ
partition_style_name raw = codes "raw"
partition_style_name mbr = codes "mbr"
partition_style_name gpt = codes "gpt"
partition_style_name unknown_style = codes "unknown"

-- df_clean_layout_snapshot
pub record Snapshot : Type 0 where
  pub style : PartitionStyle
  pub partition_count : ℕ
  pub mbr_signature : ℕ
  pub gpt_disk_id : List ℕ

-- The texts of `final_state`; `unsupported` is that of src/clean_stub.c.
pub data CleanState : Type 0 where
  failed_before_clean success_already_clean failed_during_clean : CleanState
  clean_unverified success_clean_verified unsupported : CleanState

-- The text of a state.
unfoldable pub clean_state_text : CleanState → List ℕ
clean_state_text failed_before_clean = codes "failed_before_clean"
clean_state_text success_already_clean = codes "success_already_clean"
clean_state_text failed_during_clean = codes "failed_during_clean"
clean_state_text clean_unverified = codes "clean_unverified"
clean_state_text success_clean_verified = codes "success_clean_verified"
clean_state_text unsupported = codes "unsupported"

-- df_clean_result, but for the times
pub record CleanResult : Type 0 where
  pub final_state : CleanState
  pub disk_number : ℕ
  pub layout_deleted : Bool
  pub before_style : PartitionStyle
  pub after_style : PartitionStyle
  pub before_partition_count : ℕ
  pub after_partition_count : ℕ
  pub before_target : TargetInfo
  pub after_target : TargetInfo

-- A target all of whose bytes are 0.
abbrev pub zero_target : TargetInfo
zero_target = record {
  path = [];
  kind = regular_file;
  size_bytes = 0;
  logical_sector_size = 0;
  physical_sector_size = 0;
  removable = false;
  read_only = false;
  mounted = false;
  system_disk = false;
  descriptor_present = false;
  serial_bound = false;
  bus_type = [];
  vendor = [];
  product = [];
  revision = [];
  serial_sha256 = [];
  token = [];
}

unfoldable pub clean_result_reset : CleanResult
clean_result_reset = record {
  final_state = failed_before_clean;
  disk_number = 0;
  layout_deleted = false;
  before_style = unknown_style;
  after_style = unknown_style;
  before_partition_count = 0;
  after_partition_count = 0;
  before_target = zero_target;
  after_target = zero_target;
}

-- What a call of df_clean_disk changes: the world and its result.
pub record CleanRun (W : Type 0) : Type 0 where
  pub world : W
  pub result : CleanResult

abbrev pub on_world : {W A : Type 0} → M W A → M (CleanRun W) A
on_world m = zoom (λ run. run.world) (λ w run. record run { world = w }) m

abbrev pub set_result : {W : Type 0} → (CleanResult → CleanResult) → M (CleanRun W) (Unit {0})
set_result f run = (Outcome.done tt, record run { result = f run.result })
