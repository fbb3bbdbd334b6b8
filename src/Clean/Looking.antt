-- ===== src/Clean/Looking.antt =====
-- All of `df_clean_disk` but the deletion leaves what is seen of a disk as it was (src/clean.c).
use deadflash.Base.{
  ℕ, zero, suc, ◌*◌, Bool, true, false, Option, none, some, List, leb, if◌then◌else◌,
}
use deadflash.Clean.{Snapshot}
use deadflash.Clean.Disk.{
  numbered_drive, disk_for_drive_letter, program_disk, validate_target, check_locked,
  compare_locked, validate_kind, drive_letter,
}
use deadflash.Clean.Layout.{
  Query, query_answer, query_allocated, query_loop, query_layout_handle, query_opened,
  query_layout_path, capacity_limit, layout_equal,
}
use deadflash.Common.{done, failed}
use deadflash.Common.Monad.{M}
use deadflash.Device.{TargetInfo}
use deadflash.Windows.{Win, LayoutAnswer, layout_is, layout_larger, layout_absent, layout_failed}
use deadflash.Windows.Files.{TargetFile}
use deadflash.Windows.Kept.{
  Observed, Keeps, bind-Keeps, finally-Keeps, pure-Keeps, throw-Keeps, call-Keeps,
}
use deadflash.Windows.Observing.{close_file-seen}
use deadflash.Windows.Inspecting.{settle-Keeps}

module _ (win : Win) {X : Type 0} (o : Observed win X) where
  open o use {seen}

  query_answer-Keeps :
      {again : M win.World Query}
      → Keeps seen again
      → (answer : LayoutAnswer) → Keeps seen (query_answer win again answer)
  unfolding query_answer
  query_answer-Keeps k (layout_is layout) = pure-Keeps seen _
  query_answer-Keeps k layout_larger = k
  query_answer-Keeps k layout_absent = pure-Keeps seen _
  query_answer-Keeps k layout_failed = pure-Keeps seen _

  query_allocated-Keeps :
      (capacity handle : ℕ) {again : M win.World Query}
      → Keeps seen again
      → (allocated : Bool) → Keeps seen (query_allocated win capacity handle again allocated)
  unfolding query_allocated
  query_allocated-Keeps capacity handle k false = pure-Keeps seen _
  query_allocated-Keeps capacity handle k true =
      bind-Keeps seen (call-Keeps seen (o.drive_layout handle capacity)) (query_answer-Keeps k)

  if-Keeps :
      {A : Type 0} (b : Bool) {m m' : M win.World A}
      → Keeps seen m
      → Keeps seen m'
      → Keeps seen (if b then m else m')
  if-Keeps true h k = h
  if-Keeps false h k = k

  query_loop-Keeps : (n capacity handle : ℕ) → Keeps seen (query_loop win n capacity handle)
  unfolding query_loop
  query_loop-Keeps zero capacity handle = pure-Keeps seen _
  query_loop-Keeps (suc n) capacity handle =
      if-Keeps (leb capacity capacity_limit)
        (bind-Keeps seen (call-Keeps seen (o.calloc capacity))
          (query_allocated-Keeps capacity handle (query_loop-Keeps n (capacity * 2) handle)))
        (pure-Keeps seen _)

  query_layout_handle-Keeps : (handle : ℕ) → Keeps seen (query_layout_handle win handle)
  unfolding query_layout_handle
  query_layout_handle-Keeps handle = query_loop-Keeps 10 4096 handle

  query_opened-Keeps : (s : Snapshot) (h : Option ℕ) → Keeps seen (query_opened win s h)
  unfolding query_opened
  query_opened-Keeps s none = pure-Keeps seen _
  query_opened-Keeps s (some h) = finally-Keeps seen (query_layout_handle-Keeps h) (o.close h)

  pub query_layout_path-Keeps :
      (path : List ℕ) (s : Snapshot) → Keeps seen (query_layout_path win path s)
  unfolding query_layout_path
  query_layout_path-Keeps path s =
      bind-Keeps seen (call-Keeps seen (o.open_probe path)) (query_opened-Keeps s)

  numbered_drive-Keeps : (h : Option ℕ) → Keeps seen (numbered_drive win h)
  unfolding numbered_drive
  numbered_drive-Keeps none = pure-Keeps seen _
  numbered_drive-Keeps (some h) =
      finally-Keeps seen (call-Keeps seen (o.device_number h)) (o.close h)

  disk_for_drive_letter-Keeps : (c : Option ℕ) → Keeps seen (disk_for_drive_letter win c)
  unfolding disk_for_drive_letter
  disk_for_drive_letter-Keeps none = pure-Keeps seen _
  disk_for_drive_letter-Keeps (some c) =
      bind-Keeps seen (call-Keeps seen (o.open_query _)) numbered_drive-Keeps

  pub program_disk-Keeps : Keeps seen (program_disk win)
  unfolding program_disk
  program_disk-Keeps =
      bind-Keeps seen (call-Keeps seen o.module_path)
        (λ p. disk_for_drive_letter-Keeps (drive_letter p))

  pub validate_target-Keeps :
      (target : TargetInfo) (disk : ℕ) (token : Option (List ℕ))
      → Keeps seen (validate_target win target disk token)
  unfolding validate_target
  validate_target-Keeps target disk token =
      bind-Keeps seen (settle-Keeps win o (validate_kind target))
        (λ _. bind-Keeps seen program_disk-Keeps (λ p. settle-Keeps win o _))

  pub check_locked-Keeps :
      (planned : Snapshot) (handle : ℕ) (file : TargetFile)
      → Keeps seen (check_locked win planned handle file)
  unfolding check_locked compare_locked
  check_locked-Keeps planned handle file =
      bind-Keeps seen (query_layout_handle-Keeps handle) compared
    where
      compared : (answer : Query) → Keeps seen (compare_locked win planned file answer)
      compared (failed e, s) = finally-Keeps seen (throw-Keeps seen e) (close_file-seen win o file)
      compared (done u, s) =
          if-Keeps (layout_equal planned s) (pure-Keeps seen tt)
            (finally-Keeps seen (throw-Keeps seen _) (close_file-seen win o file))
