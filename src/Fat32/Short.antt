-- ===== src/Fat32/Short.antt =====
-- A class of media on which the loop of `df_fat32_compute_layout` goes to and fro between two sizes
-- of the FAT until its bound, and ends at the one that is too small.
use deadflash.Base.{
  ℕ, zero, suc, ◌+◌, ◌-◌, ◌*◌, ◌/◌, ◌%◌, ◌^◌, ◌≤◌, ◌<◌, ◌≡◌, refl, ◌∙◌, none, ◌⊎◌, inl, inr, arith,
}
use deadflash.Common.{done}
use deadflash.Fat32.{Layout, layout_loop, compute_layout}
use deadflash.Fat32.Settled.{disk_clusters}

-- The layout, whose FATs have 128 * s entries each.
abbrev pub short_layout : ℕ → Layout
short_layout s = record {
  bytes_per_sector = 512;
  sectors_per_cluster = 1;
  reserved_sectors = 32;
  fat_count = 2;
  sectors_per_fat = s;
  partition_start_lba = 2048;
  partition_sectors = 130 * s + 32;
  data_clusters = 130 * s - 2 * (s + 1);
  root_cluster = 2;
}

module _ (s : ℕ) (lo : 1008 ≤ s) (hi : s ≤ 4095) where
  -- One round, from the size `x` to the size `y`.
  round_to :
      (rounds x y c : ℕ)
      → x < 10000
      → 2 * x < 130 * s
      → y ≡ ((130 * s - 2 * x + 2) * 4 + 511) / 512
      → (x < y) ⊎ (y < x)
      → layout_loop (suc rounds) (130 * s + 32) 1 x c
        ≡ layout_loop rounds (130 * s + 32) 1 y (130 * s - 2 * x)
  unfolding layout_loop
  round_to rounds x y c hx h ey ne = ground arith

  -- Two rounds from `s` lead back to it.
  there_and_back :
      (rounds c : ℕ)
      → layout_loop (suc (suc rounds)) (130 * s + 32) 1 s c
        ≡ layout_loop rounds (130 * s + 32) 1 s (130 * s - 2 * (s + 1))
  there_and_back rounds c =
      round_to (suc rounds) s (s + 1) c (omega arith) (omega arith) (omega arith)
        (inl (omega arith))
      ∙ round_to rounds (s + 1) s (130 * s - 2 * s) (omega arith) (omega arith) (omega arith)
          (inr (omega arith))

  layout_loop-pairs :
      (n rounds c : ℕ)
      → rounds ≡ 2 * n
      → layout_loop (suc (suc rounds)) (130 * s + 32) 1 s c ≡ done (s, 130 * s - 2 * (s + 1))
  layout_loop-pairs zero zero c e = there_and_back zero c ∙ unfold layout_loop in refl
  layout_loop-pairs zero (suc rounds) c e = absurd (omega arith)
  layout_loop-pairs (suc n) zero c e = absurd (omega arith)
  layout_loop-pairs (suc n) (suc zero) c e = absurd (omega arith)
  layout_loop-pairs (suc n) (suc (suc rounds)) c e =
      there_and_back (suc (suc rounds)) c ∙ layout_loop-pairs n rounds _ (omega arith)

  -- From the start value 1 the loop is at `s` after two rounds.
  layout_loop-short : layout_loop 64 (130 * s + 32) 1 1 0 ≡ done (s, 130 * s - 2 * (s + 1))
  layout_loop-short =
      round_to 63 1 first 0 (omega arith) (omega arith) (omega arith) (inl (omega arith))
      ∙ round_to 62 first s (130 * s - 2 * 1) (omega arith) (omega arith) (omega arith)
          (inr (omega arith))
      ∙ layout_loop-pairs 30 60 _ (omega arith)
    where
      first : ℕ
      first = ((130 * s - 2 * 1 + 2) * 4 + 511) / 512

  -- On a medium of 2080 + 130 * s sectors, for s from 1008 to 4095, the layout with the default options
  -- succeeds, with one sector in a cluster, FATs of s sectors and 130 * s + 32 sectors in the partition.
  -- The FATs are two entries short of the clusters of the volume and the two reserved ones.
  pub compute_layout_short :
      (compute_layout ((2080 + 130 * s) * 512) none ≡ done (short_layout s))
      × (disk_clusters (short_layout s) + 2 ≡ 128 * s + 2)
  unfolding compute_layout
  compute_layout_short = (rw total (ground (arith, layout_loop-short)), omega arith)
    where
      total : ((2080 + 130 * s) * 512 / 512 - 2048) % 2 ^ 32 ≡ 130 * s + 32
      total = omega arith
