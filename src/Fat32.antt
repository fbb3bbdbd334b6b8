-- ===== src/Fat32.antt =====
-- src/fat32.c and include/deadflash/fat32.h: the layout of a FAT32 volume.
pub mod Computed
pub mod Settled
pub mod Short
pub mod Sectors
pub mod Readback
pub mod Format
pub mod Written
pub mod Verified
mod Tests
mod FormatTests
use deadflash.Base.{
  ℕ, zero, suc, ◌+◌, ◌-◌, ◌*◌, ◌/◌, ◌%◌, ◌^◌, ◌<◌, Bool, Option, none, some, not, ◌||◌, List, ltb,
  leb, ◌==◌, if◌then◌else◌, add32, sub32, mul32,
}
use deadflash.Common.{Outcome, done, failed, err_too_small, err_too_large}

-- df_fat32_options. `create_mbr` and the permissions of a device are used by the formatter.
pub record Options : Type 0 where
  pub label : List ℕ
  pub partition_start_lba : ℕ
  pub create_mbr : Bool
  pub regular_file_size : ℕ
  pub allow_device : Bool
  pub force_mounted : Bool
  pub force_system_disk : Bool
  pub confirmation_token : Option (List ℕ)

-- df_fat32_layout
pub record Layout : Type 0 where
  pub bytes_per_sector : ℕ
  pub sectors_per_cluster : ℕ
  pub reserved_sectors : ℕ
  pub fat_count : ℕ
  pub sectors_per_fat : ℕ
  pub partition_start_lba : ℕ
  pub partition_sectors : ℕ
  pub data_clusters : ℕ
  pub root_cluster : ℕ

abbrev pub min_clusters : ℕ
min_clusters = 65525

abbrev pub max_clusters : ℕ
max_clusters = 0x0ffffff5

unfoldable pub choose_sectors_per_cluster : ℕ → ℕ
choose_sectors_per_cluster bytes =
    if leb bytes (260 * 1024 * 1024)
    then 1
    else if leb bytes (8 * 1024 * 1024 * 1024)
    then 8
    else if leb bytes (16 * 1024 * 1024 * 1024)
    then 16
    else if leb bytes (32 * 1024 * 1024 * 1024)
    then 32
    else 64

-- The clusters that fit beside two FATs of `sectors_per_fat` sectors; on `uint32_t`.
abbrev pub clusters_beside : ℕ → ℕ → ℕ → ℕ
clusters_beside total spc sectors_per_fat = sub32 (sub32 total 32) (mul32 2 sectors_per_fat) / spc

-- The sectors that a FAT of so many clusters takes.
abbrev pub fat_sectors : ℕ → ℕ
fat_sectors clusters = ((clusters + 2) * 4 + 511) / 512 % 2 ^ 32

-- The loop on `iteration`: the rounds left, then `sectors_per_fat` and `clusters`. It ends when a
-- round leaves `sectors_per_fat` alone, and after 64 rounds in any case.
pub layout_loop : ℕ → ℕ → ℕ → ℕ → ℕ → Outcome (ℕ × ℕ)
layout_loop zero total spc sectors_per_fat clusters = done (sectors_per_fat, clusters)
layout_loop (suc rounds) total spc sectors_per_fat clusters =
    let clusters' = clusters_beside total spc sectors_per_fat in
    let next = fat_sectors clusters' in
    let rest = layout_loop rounds total spc next clusters' in
    if leb total (add32 32 (mul32 2 sectors_per_fat))
    then failed err_too_small
    else if next == sectors_per_fat
    then done (next, clusters')
    else rest

-- The checks on the cluster count, and the layout that is returned.
pub finish_layout : ℕ → ℕ → ℕ → ℕ × ℕ → Outcome Layout
finish_layout start total spc (sectors_per_fat, clusters) =
    if ltb clusters min_clusters
    then failed err_too_small
    else if leb max_clusters clusters
    then failed err_too_large
    else done (record {
      bytes_per_sector = 512;
      sectors_per_cluster = spc;
      reserved_sectors = 32;
      fat_count = 2;
      sectors_per_fat = sectors_per_fat;
      partition_start_lba = start;
      partition_sectors = total;
      data_clusters = clusters;
      root_cluster = 2;
    })

-- `options != NULL && options->partition_start_lba != 0 ? … : 2048`
abbrev pub start_lba : Option Options → ℕ
start_lba none = 2048
start_lba (some o) = if o.partition_start_lba == 0 then 2048 else o.partition_start_lba

infixl 5 ◌>>=◌
abbrev pub ◌>>=◌ {ℓ κ} : {A : Type ℓ} {B : Type κ} → Outcome A → (A → Outcome B) → Outcome B
done a >>= f = f a
failed s >>= f = failed s

-- `options` may be NULL.
unfoldable pub compute_layout : ℕ → Option Options → Outcome Layout
unfolding choose_sectors_per_cluster finish_layout
compute_layout target_size options =
    let start = start_lba options in
    let total64 = target_size / 512 in
    let total = (total64 - start) % 2 ^ 32 in
    let spc = choose_sectors_per_cluster (total * 512) in
    if ltb target_size (add32 start 131072 * 512)
    then failed err_too_small
    else if leb total64 start || ltb (2 ^ 32 - 1) (total64 - start)
    then failed err_too_large
    else (layout_loop 64 total spc 1 0 >>= finish_layout start total spc)
