-- ===== src/Fat32/Tests.antt =====
-- Runs of the FAT32 layout, among them the image of tests/test_fat32.c, and its theorems at concrete
-- inputs.
use deadflash.Base.{ℕ, ◌+◌, ◌*◌, ◌≡◌, refl, ◌⊎◌, none, arith}
use deadflash.Common.{done, failed, err_too_small}
use deadflash.Fat32.{Layout, layout_loop, compute_layout}
use deadflash.Fat32.Computed.{IsSound, layout_of, compute_layout-IsSound}
use deadflash.Fat32.Settled.{IsSettled, IsUnsettled, disk_clusters, compute_layout-settles}
use deadflash.Fat32.Readback.{IsEncodable, compute_layout-IsEncodable}
use deadflash.Fat32.Short.{short_layout, compute_layout_short}

-- 128 MiB
abbrev image_size : ℕ
image_size = 128 * 1024 * 1024

abbrev image_layout : Layout
image_layout = layout_of 2048 260096 1 2001 256062

image_run : compute_layout image_size none ≡ done image_layout
unfolding compute_layout layout_loop
image_run = refl

too_small_run : compute_layout 1000000 none ≡ failed err_too_small
unfolding compute_layout layout_loop
too_small_run = refl

compute_layout-IsSound_example : IsSound image_size image_layout
compute_layout-IsSound_example = compute_layout-IsSound image_size none image_layout image_run

compute_layout-settles_example : IsSettled image_layout ⊎ IsUnsettled image_layout
compute_layout-settles_example = compute_layout-settles image_size none image_layout image_run

-- 65 MiB, the smallest medium that is accepted.
compute_layout_short_example :
    (compute_layout ((2080 + 130 * 1008) * 512) none ≡ done (short_layout 1008))
    × (disk_clusters (short_layout 1008) + 2 ≡ 128 * 1008 + 2)
compute_layout_short_example = compute_layout_short 1008 (omega arith) (omega arith)

image_layout-IsSettled : IsSettled image_layout
image_layout-IsSettled = record {
  counted = refl;
  fits = omega arith;
  full = omega arith;
  covered = omega arith;
}

compute_layout-IsEncodable_example : IsEncodable image_layout
compute_layout-IsEncodable_example =
    compute_layout-IsEncodable image_size none image_layout (omega arith) image_run
      image_layout-IsSettled
