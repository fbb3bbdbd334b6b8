-- ===== src/Fat32/Settled.antt =====
-- Where the loop of `df_fat32_compute_layout` settles, the volume fits its partition and its FATs.
use deadflash.Base.{
  ℕ, zero, suc, ◌+◌, ◌-◌, ◌*◌, ◌/◌, ◌^◌, ◌≤◌, ◌<◌, ◌≡◌, ◌≢◌, refl, sym, ap, ◌∙◌, false, ==_iff,
  Option, Bool-cases, inl, inr, ◌⊎◌, arith, leb, ◌==◌, add32, mul32,
}
use deadflash.Common.{done, failed≢done, done_inj}
use deadflash.Fat32.{
  Options, Layout, start_lba, choose_sectors_per_cluster, clusters_beside, fat_sectors, layout_loop,
  compute_layout,
}
use deadflash.Fat32.Computed.{
  compute_layout-Computed, finish_layout-layout_of, layout_of, layout_loop-entries,
  fat_sectors_bounds, clusters_beside-IsU32,
}

-- The clusters that a reader of the volume counts, as `df_verify_fat32` does.
abbrev pub disk_clusters : Layout → ℕ
disk_clusters l =
    (l.partition_sectors - l.reserved_sectors - l.fat_count * l.sectors_per_fat)
    / l.sectors_per_cluster

-- The sizes of the FAT that the rounds come to, one after the other.
pub size_after : ℕ → ℕ → ℕ → ℕ → ℕ
size_after total spc s zero = s
size_after total spc s (suc n) = size_after total spc (fat_sectors (clusters_beside total spc s)) n

-- So many rounds, from a size on, each came to another size than the one before.
abbrev pub Changes : ℕ → ℕ → ℕ → ℕ → Type 0
Changes total spc s rounds =
    (i : ℕ) → i < rounds → size_after total spc s (suc i) ≢ size_after total spc s i

-- The loop was stopped by its bound: from the size 1 on none of its 64 rounds left the size alone, and
-- the layout has the size of the last round, with the clusters that fit beside the size before it.
abbrev pub IsUnsettled : Layout → Type 0
IsUnsettled l =
    Changes l.partition_sectors l.sectors_per_cluster 1 64
    × (l.sectors_per_fat ≡ size_after l.partition_sectors l.sectors_per_cluster 1 64)
    × (l.data_clusters
        ≡ clusters_beside l.partition_sectors l.sectors_per_cluster
            (size_after l.partition_sectors l.sectors_per_cluster 1 63))

pub sectors_per_cluster_pos : (b : ℕ) → 0 < choose_sectors_per_cluster b
unfolding choose_sectors_per_cluster
sectors_per_cluster_pos b = ground arith

-- How the loop ends: with a round that leaves the size alone, or after its last round.
abbrev Ends : ℕ → ℕ → ℕ → ℕ → ℕ → ℕ → Type 0
Ends rounds total spc s s' c' =
    ((c' ≡ clusters_beside total spc s') × (32 + 2 * s' < total))
    ⊎ (Changes total spc s (suc rounds)
        × (s' ≡ size_after total spc s (suc rounds))
        × (c' ≡ clusters_beside total spc (size_after total spc s rounds)))

below_total :
    (total s : ℕ) → s < 2 ^ 26 → leb total (add32 32 (mul32 2 s)) ≡ false → 32 + 2 * s < total
below_total total s hs p = ground arith

ne_of_test : {a b : ℕ} → (a == b) ≡ false → b ≢ a
ne_of_test h = ground arith

-- One more round in front.
longer :
    (rounds total spc s s' c' : ℕ)
    → fat_sectors (clusters_beside total spc s) ≢ s
    → Ends rounds total spc (fat_sectors (clusters_beside total spc s)) s' c'
    → Ends (suc rounds) total spc s s' c'
unfolding size_after
longer rounds total spc s s' c' ne (inl h) = inl h
longer rounds total spc s s' c' ne (inr (changes, size, clusters)) = inr (all, size, clusters)
  where
    all : Changes total spc s (suc (suc rounds))
    all zero lt = ne
    all (suc i) lt = changes i (omega arith)

-- One round, from what the rounds after it come to.
round-Ends :
    (rounds total spc s c s' c' : ℕ)
    → s < 2 ^ 26
    → (fat_sectors (clusters_beside total spc s) ≢ s
        → layout_loop rounds total spc
            (fat_sectors (clusters_beside total spc s))
            (clusters_beside total spc s)
          ≡ done (s', c')
        → Ends rounds total spc s s' c')
    → layout_loop (suc rounds) total spc s c ≡ done (s', c')
    → Ends rounds total spc s s' c'
unfolding layout_loop
round-Ends rounds total spc s c s' c' hs further e =
    elim (Bool-cases (leb total (add32 32 (mul32 2 s)))) [
      | inl p ↦ absurd (failed≢done (rw p at e))
      | inr p ↦ elim (Bool-cases (fat_sectors (clusters_beside total spc s) == s)) [
        | inl q ↦
            let r = done_inj (rw (p, q) at e) in
            let same : s ≡ s' = sym ((==_iff _ s).0 q) ∙ ap (λ (t : ℕ × ℕ). t.0) r in
            rw (← same, ← ap (λ (t : ℕ × ℕ). t.1) r) (inl (refl, below_total total s hs p))
        | inr q ↦ further (λ x. ne_of_test q (sym x)) (rw (p, q) at e)
      ]
    ]

-- The last round.
last-Ends :
    (total spc s s' c' : ℕ)
    → fat_sectors (clusters_beside total spc s) ≢ s
    → layout_loop 0 total spc
        (fat_sectors (clusters_beside total spc s))
        (clusters_beside total spc s)
      ≡ done (s', c')
    → Ends 0 total spc s s' c'
unfolding layout_loop size_after
last-Ends total spc s s' c' ne e =
    let p = done_inj e in
    inr (first, sym (ap (λ (t : ℕ × ℕ). t.0) p), sym (ap (λ (t : ℕ × ℕ). t.1) p))
  where
    first : Changes total spc s 1
    first zero lt = ne
    first (suc i) lt = absurd (omega arith)

layout_loop-Ends :
    (rounds total spc s c s' c' : ℕ)
    → s < 2 ^ 26
    → layout_loop (suc rounds) total spc s c ≡ done (s', c')
    → Ends rounds total spc s s' c'
layout_loop-Ends zero total spc s c s' c' hs e =
    round-Ends zero total spc s c s' c' hs (last-Ends total spc s s' c') e
layout_loop-Ends (suc n) total spc s c s' c' hs e =
    round-Ends (suc n) total spc s c s' c' hs
      (λ ne e'. longer n total spc s s' c' ne (
        layout_loop-Ends n total spc (fat_sectors (clusters_beside total spc s))
          (clusters_beside total spc s) s' c'
          (fat_sectors_bounds _ (clusters_beside-IsU32 total spc s)).2 e'))
      e

exact_clusters :
    (total spc s : ℕ)
    → total < 2 ^ 32
    → 32 + 2 * s < total
    → clusters_beside total spc s ≡ (total - 32 - 2 * s) / spc
exact_clusters total spc s ht h = ap (λ (t : ℕ). t / spc) (omega arith)

-- The volume and its FATs lie in the partition with less than a cluster left over, and each FAT has
-- an entry for every cluster that a reader counts, and the two reserved ones.
pub record IsSettled (l : Layout) : Type 0 where
  pub counted : l.data_clusters ≡ disk_clusters l
  pub fits :
      l.reserved_sectors + l.fat_count * l.sectors_per_fat + l.data_clusters * l.sectors_per_cluster
      ≤ l.partition_sectors
  pub full :
      l.partition_sectors
      < l.reserved_sectors
        + l.fat_count * l.sectors_per_fat
        + (l.data_clusters + 1) * l.sectors_per_cluster
  pub covered : disk_clusters l + 2 ≤ 128 * l.sectors_per_fat

div_bounds : (x d : ℕ) → 0 < d → (x / d * d ≤ x) × (x < (x / d + 1) * d)
div_bounds x d h = grind arith

settled :
    (l : Layout)
    → 0 < l.sectors_per_cluster
    → l.reserved_sectors ≡ 32
    → l.fat_count ≡ 2
    → 32 + 2 * l.sectors_per_fat < l.partition_sectors
    → l.data_clusters + 2 ≤ 128 * l.sectors_per_fat
    → l.data_clusters ≡ (l.partition_sectors - 32 - 2 * l.sectors_per_fat) / l.sectors_per_cluster
    → IsSettled l
settled l pos r f h e c = record {
  counted = counted;
  fits = bounds.0;
  full = bounds.1;
  covered = omega (arith, counted);
}
  where
    fats : l.fat_count * l.sectors_per_fat ≡ 2 * l.sectors_per_fat
    fats = ap (λ (t : ℕ). t * l.sectors_per_fat) f

    counted : l.data_clusters ≡ disk_clusters l
    counted = c ∙ ap (λ (t : ℕ). t / l.sectors_per_cluster) (omega (arith, fats))

    div :
        l.data_clusters * l.sectors_per_cluster
        ≡ (l.partition_sectors - 32 - 2 * l.sectors_per_fat)
          / l.sectors_per_cluster
          * l.sectors_per_cluster
    div = ap (λ (t : ℕ). t * l.sectors_per_cluster) c

    bounds :
        (l.reserved_sectors
            + l.fat_count * l.sectors_per_fat
            + l.data_clusters * l.sectors_per_cluster
          ≤ l.partition_sectors)
        × (l.partition_sectors
            < l.reserved_sectors
              + l.fat_count * l.sectors_per_fat
              + (l.data_clusters + 1) * l.sectors_per_cluster)
    bounds = omega (
      arith,
      fats,
      div,
      div_bounds (l.partition_sectors - 32 - 2 * l.sectors_per_fat) l.sectors_per_cluster pos,
    )

-- A computed layout is settled: it fits its partition with less than a cluster left over, and its FATs
-- cover every cluster on the volume. Or none of the 64 rounds of the loop came to the size of the FAT
-- that the round before it had come to, and the layout has the size of the last one.
pub compute_layout-settles :
    (target_size : ℕ) (options : Option Options) (l : Layout)
    → compute_layout target_size options ≡ done l
    → IsSettled l ⊎ IsUnsettled l
compute_layout-settles target_size options l e =
    let c = compute_layout-Computed target_size options l e in
    let spc = choose_sectors_per_cluster (c.total * 512) in
    let l' =
      finish_layout-layout_of (start_lba options) c.total spc c.sectors_per_fat c.clusters
        c.finish in
    let entries =
      layout_loop-entries 64 c.total spc 1 0 c.sectors_per_fat c.clusters (omega arith) c.loop in
    elim (layout_loop-Ends 63 c.total spc 1 0 c.sectors_per_fat c.clusters (omega arith) c.loop) [
      | inl h ↦ rw l' (
          inl (
            settled (layout_of (start_lba options) c.total spc c.sectors_per_fat c.clusters)
              (sectors_per_cluster_pos (c.total * 512)) refl refl h.1 entries
              (h.0 ∙ exact_clusters c.total spc c.sectors_per_fat c.small h.1)))
      | inr h ↦ rw l' (inr h)
    ]
