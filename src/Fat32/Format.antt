-- ===== src/Fat32/Format.antt =====
-- `df_format_fat32` and `df_verify_fat32` of src/fat32.c.
use deadflash.Base.{
  ℕ, zero, suc, ◌+◌, ◌-◌, ◌*◌, ◌%◌, ◌^◌, Bool, not, ◌&&◌, Option, none, some, List, [], replicate,
  length, bit_xor, shr, ltb, ◌==◌, if◌then◌else◌, add64,
}
use deadflash.Common.{Outcome, done, failed, err_format, verify_none}
use deadflash.Common.Monad.{M, ◌>>=◌, ◌>>◌, pure, throw, call}
use deadflash.Device.{File, TargetInfo, WriteOptions, is_regular_file}
use deadflash.Device.Exact.{write_exact}
use deadflash.Device.Files.{
  inspect_target, open_source, open_target, resize_regular_file, flush, read_at, close_file,
}
use deadflash.Device.Posix.{Os}
use deadflash.Fat32.{Options, Layout, compute_layout}
use deadflash.Fat32.Sectors.{
  normalize_label, build_mbr, build_boot_sector, build_fsinfo, first_entries, root_entry, read_mbr,
  read_boot,
}
use deadflash.Pipeline.{aligned_alloc}

-- The options, where NULL and a start of 0 stand for the defaults.
unfoldable pub effective : Option Options → Options
effective none = record {
  label = [];
  partition_start_lba = 2048;
  create_mbr = Bool.true;
  regular_file_size = 0;
  allow_device = Bool.false;
  force_mounted = Bool.false;
  force_system_disk = Bool.false;
  confirmation_token = none;
}
effective (some o) = record o {
  partition_start_lba = if o.partition_start_lba == 0 then 2048 else o.partition_start_lba;
}

abbrev pub format_options : Options → WriteOptions
format_options o = record {
  buffer_size = 0;
  write_retries = 0;
  verify_mode = verify_none;
  sample_count = 0;
  allow_device = o.allow_device;
  force_mounted = o.force_mounted;
  force_system_disk = o.force_system_disk;
  direct_io = Bool.false;
  truncate_regular_file = Bool.false;
  confirmation_token = o.confirmation_token;
}

-- The places of the parts of the volume, in bytes. The fields have 32 bits and there are two FATs, so
-- that nothing leaves 64 bits.
abbrev pub partition_offset : Layout → ℕ
partition_offset l = l.partition_start_lba * 512

abbrev pub metadata_bytes : Layout → ℕ
metadata_bytes l =
    (l.reserved_sectors + l.fat_count * l.sectors_per_fat + l.sectors_per_cluster) * 512

abbrev pub fat1_offset : Layout → ℕ
fat1_offset l = partition_offset l + l.reserved_sectors * 512

abbrev pub fat2_offset : Layout → ℕ
fat2_offset l = fat1_offset l + l.sectors_per_fat * 512

abbrev pub data_offset : Layout → ℕ
data_offset l = partition_offset l + (l.reserved_sectors + l.fat_count * l.sectors_per_fat) * 512

module _ (os : Os) where
  -- The loop of `zero_region`: each round writes a byte at least, so as many rounds as there are bytes
  -- are enough.
  unfoldable pub zero_loop : ℕ → File → ℕ → ℕ → M os.World (Unit {0})
  zero_loop zero file offset length = pure tt
  zero_loop (suc fuel) file offset length =
      let chunk = if ltb length (1024 * 1024) then length else 1024 * 1024 in
      elim (ltb 0 length) [
        | Bool.false ↦ pure tt
        | Bool.true ↦
            write_exact os file (replicate chunk 0) offset
            >> zero_loop fuel file (add64 offset chunk) (length - chunk)
      ]

  unfoldable pub zero_region : File → ℕ → ℕ → M os.World (Unit {0})
  unfolding zero_loop
  zero_region file offset length =
      aligned_alloc os 4096 (1024 * 1024) >> zero_loop length file offset length

  abbrev pub write_mbr : Bool → File → Layout → M os.World (Unit {0})
  write_mbr create file l = if create then write_exact os file (build_mbr l) 0 else pure tt

  -- The writes in their order. The volume id is taken of the clock, which is an argument.
  unfoldable pub write_volume :
      (os.World → ℕ × os.World) → Bool → File → Layout → List ℕ → ℕ → M os.World (Unit {0})
  unfolding zero_region build_mbr build_boot_sector build_fsinfo first_entries root_entry
  write_volume clock create file l label target_size = do
    zero_region file (partition_offset l) (metadata_bytes l)
    write_mbr create file l
    now ← call clock
    let boot =
        build_boot_sector l label (bit_xor (bit_xor now target_size) (shr target_size 32) % 2 ^ 32)
    write_exact os file boot (partition_offset l)
    write_exact os file boot (partition_offset l + 6 * 512)
    write_exact os file build_fsinfo (partition_offset l + 1 * 512)
    write_exact os file build_fsinfo (partition_offset l + 7 * 512)
    write_exact os file first_entries (fat1_offset l)
    write_exact os file first_entries (fat2_offset l)
    write_exact os file (root_entry label) (data_offset l)
    flush os file

  -- The file at its new size.
  abbrev pub resized : File → ℕ → M os.World File
  resized file target_size =
      if not file.is_device && not (file.size_bytes == target_size)
      then resize_regular_file os file target_size
      else pure file

  -- What is told of the target afterwards.
  abbrev pub refreshed : List ℕ → TargetInfo → M os.World TargetInfo
  refreshed path info w =
      let (r, w') = inspect_target os path w in
      (elim r [ done now ↦ done now | failed e ↦ done info ], w')

  -- Between the opening and the label `out`.
  abbrev pub format_body :
      (os.World → ℕ × os.World)
      → List ℕ
      → Options
      → TargetInfo
      → Layout
      → ℕ
      → File
      → M os.World (TargetInfo × Layout)
  format_body clock path o info l target_size file = do
    sized ← resized file target_size
    write_volume clock o.create_mbr sized l (normalize_label o.label) target_size
    now ← refreshed path info
    pure (now, l)

  abbrev pub closing : {A : Type 0} → File → Outcome A × os.World → Outcome A × os.World
  closing file (r, w) = (r, (close_file os file w).1)

  abbrev pub lift : {A : Type 0} → Outcome A → M os.World A
  lift r w = (r, w)

  abbrev pub format_size : Options → TargetInfo → ℕ
  format_size o info =
      if is_regular_file info.kind && not (o.regular_file_size == 0)
      then o.regular_file_size
      else info.size_bytes

  unfoldable pub format_fat32 :
      (os.World → ℕ × os.World) → List ℕ → Option Options → M os.World (TargetInfo × Layout)
  unfolding effective normalize_label inspect_target compute_layout open_target resize_regular_file
      write_volume close_file
  format_fat32 clock path options_in = do
    let o = effective options_in
    info ← inspect_target os path
    let target_size = format_size o info
    l ← lift (compute_layout target_size (some o))
    file ← open_target os path info (format_options o)
    λ w. closing file (format_body clock path o info l target_size file w)

  abbrev pub accepted : {A : Type 0} → Option A → M os.World A
  accepted none = throw err_format
  accepted (some a) = pure a

  -- A read that is not whole is answered like a sector with wrong contents.
  abbrev pub sector_at : File → ℕ → M os.World (List ℕ)
  sector_at file at = read_at os file 512 at >>= λ bytes.
      if length bytes == 512 then pure bytes else throw err_format

  abbrev pub verify_sectors : File → M os.World (Layout × List ℕ)
  verify_sectors file = do
    mbr ← sector_at file 0
    place ← accepted (read_mbr mbr)
    boot ← sector_at file (place.0 * 512)
    accepted (read_boot place.0 place.1 boot)

  unfoldable pub verify_fat32 : List ℕ → M os.World (Layout × List ℕ)
  unfolding inspect_target open_source read_at read_mbr read_boot close_file
  verify_fat32 path = do
    info ← inspect_target os path
    file ← open_source os path
    λ w. closing file (verify_sectors file w)
