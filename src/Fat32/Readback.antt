-- ===== src/Fat32/Readback.antt =====
-- The sectors that src/fat32.c builds are read back as the layout and the label that they were built
-- of.
use deadflash.Base.{
  ℕ, zero, suc, ◌+◌, ◌-◌, ◌*◌, ◌/◌, ◌%◌, ◌^◌, ◌≤◌, ◌<◌, ◌≡◌, refl, sym, ap, ap₂, false, not, ◌||◌,
  Option, some, List, [], ◌∷◌, get_or, take, drop, length, ltb, leb, ◌==◌, arith, add32, sub32,
  mul32,
}
use deadflash.Base.Texts.{codes}
use deadflash.Common.{done}
use deadflash.Fat32.Computed.{
  compute_layout-Computed, compute_layout-IsSound, finish_layout-layout_of,
}
use deadflash.Fat32.{
  Options, Layout, start_lba, choose_sectors_per_cluster, compute_layout, min_clusters,
  max_clusters,
}
use deadflash.Fat32.Sectors.{
  label_loop, normalize_label, build_mbr, build_boot_sector, read_mbr, read_boot, get_le16,
  get_le32,
}
use deadflash.Fat32.Settled.{disk_clusters, IsSettled}

-- A layout whose fields fit the places they have in the sectors, and that describes a FAT32 volume.
pub record IsEncodable (l : Layout) : Type 0 where
  pub sector : l.bytes_per_sector ≡ 512
  pub some_cluster : 0 < l.sectors_per_cluster
  pub small_cluster : l.sectors_per_cluster < 256
  pub some_reserved : 0 < l.reserved_sectors
  pub few_reserved : l.reserved_sectors < 2 ^ 16
  pub fats : l.fat_count ≡ 2
  pub some_fat : 0 < l.sectors_per_fat
  pub start_bits : l.partition_start_lba < 2 ^ 32
  pub size_bits : l.partition_sectors < 2 ^ 32
  pub root_bits : l.root_cluster < 2 ^ 32
  pub some_data : l.reserved_sectors + 2 * l.sectors_per_fat < l.partition_sectors
  pub is_fat32 : min_clusters ≤ disk_clusters l
  pub below_limit : disk_clusters l < max_clusters

le16 : (v : ℕ) → v < 2 ^ 16 → v % 256 + v / 2 ^ 8 % 256 * 2 ^ 8 ≡ v
le16 v h = omega arith

le32 :
    (v : ℕ)
    → v < 2 ^ 32
    → v % 256 + v / 2 ^ 8 % 256 * 2 ^ 8 + v / 2 ^ 16 % 256 * 2 ^ 16 + v / 2 ^ 24 % 256 * 2 ^ 24 ≡ v
le32 v h = omega arith

-- The first sector of a medium gives the place and the size of the partition.
pub read_mbr-build_mbr :
    (l : Layout)
    → l.partition_start_lba < 2 ^ 32
    → l.partition_sectors < 2 ^ 32
    → read_mbr (build_mbr l) ≡ some (l.partition_start_lba, l.partition_sectors)
unfolding read_mbr build_mbr
read_mbr-build_mbr l a b =
    ap₂ (λ x y. some (x, y)) (le32 l.partition_start_lba a) (le32 l.partition_sectors b)

module _ (l : Layout) (text : List ℕ) (id : ℕ) where
  abbrev boot : List ℕ
  boot = build_boot_sector l (label_loop 11 text) id

  boot_tests :
      (get_or boot 510 0 ≡ 0x55)
      × (get_or boot 511 0 ≡ 0xaa)
      × (get_le16 boot 11 ≡ 512)
      × (take 8 (drop 82 boot) ≡ codes "FAT32   ")
  unfolding build_boot_sector
  boot_tests = (refl, refl, refl, refl)

  boot_label : take 11 (drop 71 boot) ≡ label_loop 11 text
  unfolding build_boot_sector
  boot_label = refl

  module _ (ok : IsEncodable l) where
    boot_fields :
        (get_or boot 13 0 ≡ l.sectors_per_cluster)
        × (get_le16 boot 14 ≡ l.reserved_sectors)
        × (get_or boot 16 0 ≡ 2)
        × (get_le32 boot 36 ≡ l.sectors_per_fat)
        × (get_le32 boot 44 ≡ l.root_cluster)
    unfolding build_boot_sector
    boot_fields = (
      omega (arith, ok.small_cluster),
      le16 l.reserved_sectors ok.few_reserved,
      ap (λ n. n % 256) ok.fats,
      le32 l.sectors_per_fat (omega (arith, ok.some_data, ok.size_bits)),
      le32 l.root_cluster ok.root_bits,
    )

-- A layout that is read back, which counts the clusters itself.
abbrev pub counted : Layout → Layout
counted l = record l { data_clusters = disk_clusters l }

-- What follows the tests on the fields.
module _ (l : Layout) (ok : IsEncodable l) where
  abbrev data_sectors : ℕ
  data_sectors = sub32 (sub32 l.partition_sectors l.reserved_sectors) (mul32 2 l.sectors_per_fat)

  data_sectors_are :
      data_sectors ≡ l.partition_sectors - l.reserved_sectors - l.fat_count * l.sectors_per_fat
  data_sectors_are = rw ok.fats (omega (arith, ok.size_bits, ok.some_data))

  enough : leb l.partition_sectors (add32 l.reserved_sectors (mul32 2 l.sectors_per_fat)) ≡ false
  enough = few l.partition_sectors l.reserved_sectors l.sectors_per_fat ok.size_bits ok.some_data
    where
      few : (s r f : ℕ) → s < 2 ^ 32 → r + 2 * f < s → leb s (add32 r (mul32 2 f)) ≡ false
      few s r f a b = grind arith

  fields_accepted :
      ((l.sectors_per_cluster == 0)
        || ltb l.reserved_sectors 1
        || not (2 == 2)
        || (l.sectors_per_fat == 0)
        || leb l.partition_sectors (add32 l.reserved_sectors (mul32 2 l.sectors_per_fat)))
      ≡ false
  fields_accepted = rw enough (
      accepts l.sectors_per_cluster l.reserved_sectors l.sectors_per_fat ok.some_cluster
        ok.some_reserved ok.some_fat)
    where
      accepts :
          (c r f : ℕ)
          → 0 < c
          → 0 < r
          → 0 < f
          → ((c == 0) || ltb r 1 || not (2 == 2) || (f == 0) || false) ≡ false
      accepts c r f a b d = grind arith

  clusters_accepted :
      (ltb (data_sectors / l.sectors_per_cluster) min_clusters
        || leb max_clusters (data_sectors / l.sectors_per_cluster))
      ≡ false
  clusters_accepted = rw data_sectors_are (between (disk_clusters l) ok.is_fat32 ok.below_limit)
    where
      between :
          (c : ℕ)
          → min_clusters ≤ c
          → c < max_clusters
          → (ltb c min_clusters || leb max_clusters c) ≡ false
      between c a b = grind arith

  read_boot-boot :
      (text : List ℕ) (id : ℕ)
      → read_boot l.partition_start_lba l.partition_sectors (boot l text id)
        ≡ some (counted l, label_loop 11 text)
  unfolding read_boot
  read_boot-boot text id =
      let (t1, t2, t3, t4) = boot_tests l text id in
      let (f1, f2, f3, f4, f5) = boot_fields l text id ok in
      rw
        (
          t1,
          t2,
          t3,
          t4,
          f1,
          f2,
          f3,
          f4,
          f5,
          fields_accepted,
          clusters_accepted,
          boot_label l text id,
        )
        (λ i. some (
          record l {
            bytes_per_sector = sym ok.sector i;
            fat_count = sym ok.fats i;
            data_clusters = data_sectors_are i / l.sectors_per_cluster;
          },
          label_loop 11 text,
        ))

  -- The two sectors that `df_format_fat32` builds for an encodable layout and a label are accepted by
  -- the tests of `df_verify_fat32`, which read of them the layout, with the clusters that fit its
  -- partition, and the normalized label.
  pub read_boot-build_boot_sector :
      (input : List ℕ) (id : ℕ)
      → (read_mbr (build_mbr l) ≡ some (l.partition_start_lba, l.partition_sectors))
        × (read_boot l.partition_start_lba l.partition_sectors
              (build_boot_sector l (normalize_label input) id)
            ≡ some (counted l, normalize_label input))
  unfolding normalize_label
  read_boot-build_boot_sector [] id =
      (read_mbr-build_mbr l ok.start_bits ok.size_bits, read_boot-boot (codes "DEADFLASH") id)
  read_boot-build_boot_sector (c ∷ input) id =
      (read_mbr-build_mbr l ok.start_bits ok.size_bits, read_boot-boot (c ∷ input) id)

choose_sectors_per_cluster-bounds :
    (b : ℕ) → (0 < choose_sectors_per_cluster b) × (choose_sectors_per_cluster b < 256)
unfolding choose_sectors_per_cluster
choose_sectors_per_cluster-bounds b = ground arith

at_least_one : (c k : ℕ) → 0 < k → c ≤ c * k
at_least_one c zero h = absurd (omega arith)
at_least_one c (suc k) h = omega arith

-- A computed layout that is settled is encodable, for a partition that starts below 2 ^ 32: its fields
-- fit their places in the sectors, its data area is not empty, and the clusters that fit its partition
-- are as many as a FAT32 volume may have.
pub compute_layout-IsEncodable :
    (target_size : ℕ) (options : Option Options) (l : Layout)
    → start_lba options < 2 ^ 32
    → compute_layout target_size options ≡ done l
    → IsSettled l
    → IsEncodable l
compute_layout-IsEncodable target_size options l start_bits e settled =
    let c = compute_layout-Computed target_size options l e in
    let sound = compute_layout-IsSound target_size options l e in
    let spc = choose_sectors_per_cluster (c.total * 512) in
    let l' =
      finish_layout-layout_of (start_lba options) c.total spc c.sectors_per_fat c.clusters
        c.finish in
    let spc_is : l.sectors_per_cluster ≡ spc = ap (λ x. x.sectors_per_cluster) l' in
    let start_is : l.partition_start_lba ≡ start_lba options = ap (λ x. x.partition_start_lba) l' in
    let total_is : l.partition_sectors ≡ c.total = ap (λ x. x.partition_sectors) l' in
    let (positive, small) = choose_sectors_per_cluster-bounds (c.total * 512) in
    let some_cluster : 0 < l.sectors_per_cluster = rw spc_is positive in
    let more = at_least_one l.data_clusters l.sectors_per_cluster some_cluster in
    let two = ap (λ n. n * l.sectors_per_fat) sound.fats in
    record {
      sector = sound.sector;
      some_cluster = some_cluster;
      small_cluster = rw spc_is small;
      some_reserved = omega (arith, sound.reserved);
      few_reserved = omega (arith, sound.reserved);
      fats = sound.fats;
      some_fat = omega (arith, sound.entries);
      start_bits = rw start_is start_bits;
      size_bits = rw total_is c.small;
      root_bits = omega (arith, sound.root);
      some_data = omega (arith, settled.fits, more, two, sound.is_fat32);
      is_fat32 = rw (← settled.counted) sound.is_fat32;
      below_limit = rw (← settled.counted) sound.below_limit;
    }

length-boot : (l : Layout) (text : List ℕ) (id : ℕ) → length (boot l text id) ≡ 512
unfolding build_boot_sector
length-boot l text id = refl

pub length-build_boot_sector :
    (l : Layout) (input : List ℕ) (id : ℕ)
    → length (build_boot_sector l (normalize_label input) id) ≡ 512
unfolding normalize_label
length-build_boot_sector l [] id = length-boot l (codes "DEADFLASH") id
length-build_boot_sector l (c ∷ input) id = length-boot l (c ∷ input) id

pub length-build_mbr : (l : Layout) → length (build_mbr l) ≡ 512
unfolding build_mbr
length-build_mbr l = refl
