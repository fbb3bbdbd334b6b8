-- ===== src/Clean/Layout.antt =====
-- The partition layout of a disk as src/clean.c asks for it and compares it.
use deadflash.Base.{
  ℕ, zero, suc, ◌+◌, ◌*◌, Bool, true, false, not, ◌&&◌, ◌||◌, Option, none, some, List, [], ◌∷◌,
  leb, ◌==◌, if◌then◌else◌, take,
}
use deadflash.Base.Texts.{text_eq}
use deadflash.Clean.{PartitionStyle, unknown_style, raw, mbr, gpt, Snapshot}
use deadflash.Common.{err_open, err_io, err_no_memory, err_too_large, Outcome, done, failed}
use deadflash.Common.Monad.{M, ◌>>=◌, pure, call}
use deadflash.Windows.{
  Win, RawStyle, style_mbr, style_gpt, style_raw, style_other, PartitionEntry, DriveLayout,
  LayoutAnswer, layout_is, layout_larger, layout_absent, layout_failed, finally,
}

-- df_clean_map_partition_style
unfoldable pub map_partition_style : RawStyle → PartitionStyle
map_partition_style style_raw = raw
map_partition_style style_mbr = mbr
map_partition_style style_gpt = gpt
map_partition_style style_other = unknown_style

-- An entry that holds a partition; the type of an unused one is 0.
unfoldable pub is_partition : PartitionEntry → Bool
is_partition entry =
    if (entry.number == 0) || (entry.partition_length == 0)
    then false
    else if entry.is_mbr && (entry.mbr_type == 0)
    then false
    else true

unfoldable pub count_loop : List PartitionEntry → ℕ
unfolding is_partition
count_loop [] = 0
count_loop (entry ∷ entries) =
    let count = count_loop entries in if is_partition entry then count + 1 else count

-- df_clean_count_partitions: the entries that the header counts, as far as they were returned
unfoldable pub count_partitions : DriveLayout → ℕ
unfolding count_loop
count_partitions layout = count_loop (take layout.partition_count layout.entries)

-- The state of a snapshot before anything is known.
abbrev pub no_snapshot : Snapshot
no_snapshot = record {
  style = unknown_style;
  partition_count = 0;
  mbr_signature = 0;
  gpt_disk_id = [];
}

unfoldable pub snapshot_of : DriveLayout → Snapshot
unfolding map_partition_style count_partitions
snapshot_of layout = record {
  style = map_partition_style layout.style;
  partition_count = count_partitions layout;
  mbr_signature = elim layout.style [ style_mbr ↦ layout.signature | _ ↦ 0 ];
  gpt_disk_id = elim layout.style [ style_gpt ↦ layout.disk_id | _ ↦ [] ];
}

-- The result of a query, with the snapshot that it leaves also where it fails.
abbrev pub Query : Type 0
Query = Outcome (Unit {0}) × Snapshot

abbrev style_number : PartitionStyle → ℕ
style_number unknown_style = 0
style_number raw = 1
style_number mbr = 2
style_number gpt = 3

-- df_clean_layout_equal
unfoldable pub layout_equal : Snapshot → Snapshot → Bool
layout_equal left right =
    if not ((style_number left.style == style_number right.style))
      || not (left.partition_count == right.partition_count)
    then false
    else elim left.style [
      | mbr ↦ left.mbr_signature == right.mbr_signature
      | gpt ↦ text_eq left.gpt_disk_id right.gpt_disk_id
      | raw ↦ true
      | unknown_style ↦ true
    ]

-- The most room that a query asks for.
abbrev pub capacity_limit : ℕ
capacity_limit = 1024 * 1024

module _ (win : Win) where
  -- An answer, or another round.
  unfoldable pub query_answer : M win.World Query → LayoutAnswer → M win.World Query
  unfolding snapshot_of
  query_answer again (layout_is layout) = pure (done tt, snapshot_of layout)
  query_answer again layout_larger = again
  query_answer again layout_absent = pure (done tt, record no_snapshot { style = raw })
  query_answer again layout_failed = pure (failed err_io, no_snapshot)

  unfoldable pub query_allocated : ℕ → ℕ → M win.World Query → Bool → M win.World Query
  unfolding query_answer
  query_allocated capacity handle again false = pure (failed err_no_memory, no_snapshot)
  query_allocated capacity handle again true =
      call (win.drive_layout handle capacity) >>= query_answer again

  -- The loop of the query; each round has twice the room of the one before it.
  unfoldable pub query_loop : ℕ → ℕ → ℕ → M win.World Query
  unfolding query_allocated
  query_loop zero capacity handle = pure (failed err_too_large, no_snapshot)
  query_loop (suc n) capacity handle =
      if leb capacity capacity_limit
      then (call (win.calloc capacity)
          >>= query_allocated capacity handle (query_loop n (capacity * 2) handle))
      else pure (failed err_too_large, no_snapshot)

  -- df_clean_query_layout_handle: nine rounds reach the limit
  unfoldable pub query_layout_handle : ℕ → M win.World Query
  unfolding query_loop
  query_layout_handle handle = query_loop 10 4096 handle

  -- df_clean_query_layout_path, with what the snapshot was before: a disk that cannot be opened
  -- leaves it as it was
  unfoldable pub query_opened : Snapshot → Option ℕ → M win.World Query
  unfolding query_layout_handle
  query_opened previous none = pure (failed err_open, previous)
  query_opened previous (some handle) = finally (query_layout_handle handle) (win.close handle)

  unfoldable pub query_layout_path : List ℕ → Snapshot → M win.World Query
  unfolding query_opened
  query_layout_path path previous = call (win.open_probe path) >>= query_opened previous
