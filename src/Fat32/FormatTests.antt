-- ===== src/Fat32/FormatTests.antt =====
-- Runs of the formatter of src/fat32.c on a medium in memory, and its theorems on them.
use deadflash.Base.{
  ℕ, ◌+◌, ◌≤◌, ◌≡◌, refl, sym, ap, ◌∙◌, some, true, false, List, [], ◌∷◌, length, take, drop,
  replicate, length-replicate, arith,
}
use deadflash.Base.Texts.{codes}
use deadflash.Common.{Outcome, done}
use deadflash.Common.Monad.{◌>>=◌}
use deadflash.Device.{File}
use deadflash.Device.Disk.{Disk, disk_os, disk_laws, disk_content}
use deadflash.Device.Exact.{write_exact}
use deadflash.Device.Files.{read_at, write_at, flush, pread_loop, pwrite_loop}
use deadflash.Fat32.{Layout}
use deadflash.Fat32.Format.{
  partition_offset, metadata_bytes, zero_loop, zero_region, write_volume, verify_sectors,
}
use deadflash.Fat32.Readback.{IsEncodable, counted, read_boot-build_boot_sector}
use deadflash.Fat32.Sectors.{
  normalize_label, build_mbr, build_boot_sector, build_fsinfo, first_entries, root_entry, read_mbr,
  read_boot,
}
use deadflash.Fat32.Verified.{ReadsWhole, verify_sectors-write_volume}
use deadflash.Fat32.Written.{write_volume-done}
use deadflash.Pipeline.{aligned_alloc}

-- A small volume behind the first sector, with one sector for each FAT.
abbrev small_layout : Layout
small_layout = record {
  bytes_per_sector = 512;
  sectors_per_cluster = 1;
  reserved_sectors = 8;
  fat_count = 2;
  sectors_per_fat = 1;
  partition_start_lba = 1;
  partition_sectors = 70000;
  data_clusters = 69990;
  root_cluster = 2;
}

small_layout-IsEncodable : IsEncodable small_layout
small_layout-IsEncodable = record {
  sector = refl;
  some_cluster = omega arith;
  small_cluster = omega arith;
  some_reserved = omega arith;
  few_reserved = omega arith;
  fats = refl;
  some_fat = omega arith;
  start_bits = omega arith;
  size_bits = omega arith;
  root_bits = omega arith;
  some_data = omega arith;
  is_fat32 = omega arith;
  below_limit = omega arith;
}

abbrev stick_label : List ℕ
stick_label = codes "my stick"

label_run : normalize_label (codes "a:b cdefghijk") ≡ codes "A_B CDEFGHI"
unfolding normalize_label
label_run = refl

read_boot-build_boot_sector_example :
    (read_mbr (build_mbr small_layout) ≡ some (1, 70000))
    × (read_boot 1 70000 (build_boot_sector small_layout (normalize_label stick_label) 7)
        ≡ some (counted small_layout, normalize_label stick_label))
read_boot-build_boot_sector_example =
    read_boot-build_boot_sector small_layout small_layout-IsEncodable stick_label 7

abbrev blank : Disk
blank = record { source = []; target = replicate 6144 1; note = [] }

abbrev medium : File
medium = record {
  handle = some 1;
  path = b't' ∷ [];
  size_bytes = 6144;
  alignment = 512;
  writable = true;
  direct_io = false;
  is_device = false;
}

abbrev stopped_clock : Disk → ℕ × Disk
stopped_clock d = (1000, d)

abbrev formatted : Outcome (Unit {0}) × Disk
formatted =
    write_volume disk_os stopped_clock true medium small_layout (normalize_label stick_label) 6144
      blank

formatted_done : formatted.0 ≡ done tt
unfolding write_volume zero_region zero_loop write_exact write_at pwrite_loop flush aligned_alloc
    build_mbr build_boot_sector build_fsinfo first_entries root_entry normalize_label ◌>>=◌
formatted_done = refl

blank_size :
    partition_offset small_layout + metadata_bytes small_layout ≤ length (disk_laws.content 1 blank)
blank_size = let one : ℕ = 1 in rw (disk_content 1 blank) (omega (arith, length-replicate 6144 one))

write_volume-done_example :
    (id : ℕ) × (take 512 (disk_laws.content 1 formatted.1) ≡ build_mbr small_layout)
    × (take 512 (drop 512 (disk_laws.content 1 formatted.1))
        ≡ build_boot_sector small_layout (normalize_label stick_label) id)
    × (1024 ≤ length (disk_laws.content 1 formatted.1))
write_volume-done_example =
    write_volume-done disk_os disk_laws medium 1 refl small_layout small_layout-IsEncodable
      (omega arith) (omega arith) stopped_clock (λ w. refl) stick_label 6144 blank formatted.1
      blank_size (omega arith) (λ i. (formatted_done i, formatted.1))

reads_whole : (w : Disk) → ReadsWhole disk_os disk_laws medium 1 w
unfolding read_at pread_loop
reads_whole w at v same inside =
    (v, ap (λ c. (done (take 512 (drop at c)), v)) (sym (disk_content 1 v) ∙ same))

verify_sectors-write_volume_example :
    (w2 : Disk) × (verify_sectors disk_os medium formatted.1
      ≡ (done (counted small_layout, normalize_label stick_label), w2))
verify_sectors-write_volume_example =
    verify_sectors-write_volume disk_os disk_laws medium 1 stopped_clock small_layout stick_label
      6144 blank formatted.1 refl (λ w. refl) small_layout-IsEncodable (omega arith) (omega arith)
      blank_size (omega arith) (λ i. (formatted_done i, formatted.1)) (reads_whole formatted.1)
