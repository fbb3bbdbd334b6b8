-- ===== src/Fat32/Computed.antt =====
-- What `df_fat32_compute_layout` promises on success, whether or not its loop settles.
use deadflash.Base.{
  ℕ, zero, suc, ◌+◌, ◌*◌, ◌/◌, ◌%◌, ◌^◌, ◌≤◌, ◌<◌, ◌≡◌, refl, Option, Bool-cases, inl, inr, ◌||◌,
  ◌-◌, false, arith, ltb, leb, add32,
}
use deadflash.Common.{Outcome, done, failed, failed≢done}
use deadflash.Fat32.{
  ◌>>=◌, start_lba, Options, Layout, min_clusters, max_clusters, choose_sectors_per_cluster,
  clusters_beside, fat_sectors, layout_loop, finish_layout, compute_layout,
}

pub clusters_beside-IsU32 : (total spc s : ℕ) → clusters_beside total spc s < 2 ^ 32
clusters_beside-IsU32 total spc s = omega arith

-- A FAT of `fat_sectors c` sectors has an entry for each cluster and the two reserved ones.
pub fat_sectors_bounds :
    (c : ℕ)
    → c < 2 ^ 32
    → (c + 2 ≤ 128 * fat_sectors c) × (128 * fat_sectors c < c + 130) × (fat_sectors c < 2 ^ 26)
fat_sectors_bounds c h = omega arith

pub layout_loop-entries :
    (rounds total spc s c s' c' : ℕ)
    → c + 2 ≤ 128 * s
    → layout_loop rounds total spc s c ≡ done (s', c')
    → c' + 2 ≤ 128 * s'
unfolding layout_loop
layout_loop-entries zero total spc s c s' c' h e = ground arith
layout_loop-entries (suc rounds) total spc s c s' c' h e = ground (
  arith,
  clusters_beside-IsU32 total spc s,
  fat_sectors_bounds (clusters_beside total spc s),
  layout_loop-entries rounds total spc (fat_sectors (clusters_beside total spc s))
      (clusters_beside total spc s) s' c',
)

-- What the layout of a volume must satisfy on a medium of `target_size` bytes.
pub record IsSound (target_size : ℕ) (l : Layout) : Type 0 where
  pub on_medium : (l.partition_start_lba + l.partition_sectors) * 512 ≤ target_size
  pub is_fat32 : min_clusters ≤ l.data_clusters
  pub below_limit : l.data_clusters < max_clusters
  pub entries : l.data_clusters + 2 ≤ 128 * l.sectors_per_fat
  pub sector : l.bytes_per_sector ≡ 512
  pub fats : l.fat_count ≡ 2
  pub reserved : l.reserved_sectors ≡ 32
  pub root : l.root_cluster ≡ 2

finish_layout-IsSound :
    (start total spc s c target_size : ℕ) {l : Layout}
    → (start + total) * 512 ≤ target_size
    → c + 2 ≤ 128 * s
    → finish_layout start total spc (s, c) ≡ done l
    → IsSound target_size l
unfolding finish_layout
finish_layout-IsSound start total spc s c target_size m h e = ground arith

-- The layout that a successful call returns.
abbrev pub layout_of : ℕ → ℕ → ℕ → ℕ → ℕ → Layout
layout_of start total spc s c = record {
  bytes_per_sector = 512;
  sectors_per_cluster = spc;
  reserved_sectors = 32;
  fat_count = 2;
  sectors_per_fat = s;
  partition_start_lba = start;
  partition_sectors = total;
  data_clusters = c;
  root_cluster = 2;
}

pub finish_layout-layout_of :
    (start total spc s c : ℕ) {l : Layout}
    → finish_layout start total spc (s, c) ≡ done l
    → l ≡ layout_of start total spc s c
unfolding finish_layout
finish_layout-layout_of start total spc s c e = ground arith

-- The computation that a successful call made.
pub record Computed (target_size : ℕ) (options : Option Options) (l : Layout) : Type 0 where
  pub total : ℕ
  pub sectors_per_fat : ℕ
  pub clusters : ℕ
  pub in_bounds : start_lba options < target_size / 512
  pub rest : start_lba options + total ≡ target_size / 512
  pub small : total < 2 ^ 32
  pub loop :
      layout_loop 64 total (choose_sectors_per_cluster (total * 512)) 1 0
      ≡ done (sectors_per_fat, clusters)
  pub finish :
      finish_layout
        (start_lba options)
        total
        (choose_sectors_per_cluster (total * 512))
        (sectors_per_fat, clusters)
      ≡ done l

loop_result :
    {l : Layout} (m : Outcome (ℕ × ℕ)) (f : ℕ × ℕ → Outcome Layout)
    → (m >>= f) ≡ done l
    → (s : ℕ) × (c : ℕ) × (m ≡ done (s, c)) × (f (s, c) ≡ done l)
loop_result (done (s, c)) f e = (s, c, refl, e)
loop_result (failed x) f e = absurd (failed≢done e)

in_range : (t s : ℕ) → (leb t s || ltb (2 ^ 32 - 1) (t - s)) ≡ false → (s < t) × (t - s < 2 ^ 32)
in_range t s e = ground arith

pub compute_layout-Computed :
    (target_size : ℕ) (options : Option Options) (l : Layout)
    → compute_layout target_size options ≡ done l
    → Computed target_size options l
unfolding compute_layout
compute_layout-Computed target_size options l e =
    elim (Bool-cases (ltb target_size (add32 (start_lba options) 131072 * 512))) [
      | inl p ↦ absurd (failed≢done (rw p at e))
      | inr p ↦ elim (Bool-cases (leb t64 s || ltb (2 ^ 32 - 1) (t64 - s))) [
        | inl q ↦ absurd (failed≢done (rw (p, q) at e))
        | inr q ↦
            let h : (s < t64) × (t64 - s < 2 ^ 32) = in_range t64 s q in
            let small : (t64 - s) % 2 ^ 32 < 2 ^ 32 = omega arith in
            let rest : s + (t64 - s) % 2 ^ 32 ≡ t64 = omega (arith, h) in
            let (spf, c, loop, finish) = loop_result _ _ (rw (p, q) at e) in
            record {
              total = (t64 - s) % 2 ^ 32;
              sectors_per_fat = spf;
              clusters = c;
              in_bounds = h.0;
              rest = rest;
              small = small;
              loop = loop;
              finish = finish;
            }
      ]
    ]
  where
    s : ℕ
    s = start_lba options

    t64 : ℕ
    t64 = target_size / 512

-- On success the partition lies on the medium, the cluster count is one of FAT32, and each FAT has
-- an entry for every cluster of the layout and the two reserved ones.
pub compute_layout-IsSound :
    (target_size : ℕ) (options : Option Options) (l : Layout)
    → compute_layout target_size options ≡ done l
    → IsSound target_size l
compute_layout-IsSound target_size options l e =
    let c = compute_layout-Computed target_size options l e in
    finish_layout-IsSound (start_lba options) c.total _ c.sectors_per_fat c.clusters target_size
      (omega (arith, c.rest))
      (layout_loop-entries 64 c.total _ 1 0 c.sectors_per_fat c.clusters (omega arith) c.loop)
      c.finish
