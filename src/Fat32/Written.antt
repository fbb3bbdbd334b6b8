-- ===== src/Fat32/Written.antt =====
-- What stands on the medium after the writes of `df_format_fat32` of src/fat32.c.
use deadflash.Base.{
  ℕ, zero, suc, ◌+◌, ◌-◌, ◌*◌, ◌%◌, ◌^◌, ◌≤◌, ◌<◌, ◌≡◌, sym, ap, ◌∙◌, true, some, List, ◌++◌,
  length, take, drop, replicate, ltb, if◌then◌else◌, Bool-cases, inl, inr, arith, add64,
  length-take, take-add, drop-append, take-take, bit_xor, shr,
}
use deadflash.Common.{done}
use deadflash.Common.Monad.{◌>>◌, through, through_call, pure-done}
use deadflash.Device.{File}
use deadflash.Device.Exact.{write_exact, write_exact-done, write_exact-keeps}
use deadflash.Device.Files.{flush}
use deadflash.Device.Posix.{Os, Laws}
use deadflash.Fat32.{Layout}
use deadflash.Fat32.Format.{
  partition_offset, metadata_bytes, fat1_offset, fat2_offset, data_offset, zero_loop, zero_region,
  write_volume,
}
use deadflash.Fat32.Sectors.{
  normalize_label, build_mbr, build_boot_sector, build_fsinfo, first_entries, root_entry,
}
use deadflash.Fat32.Readback.{IsEncodable, length-build_boot_sector, length-build_mbr}
use deadflash.Pipeline.{aligned_alloc}
use deadflash.Pipeline.Readback.{aligned_alloc-content}

module _ (os : Os) (laws : Laws os) (file : File) (fd : ℕ) (open_fd : file.handle ≡ some fd) where
  open laws use {content}

  -- The file has kept its first `k` bytes and has not shrunk.
  abbrev pub Keeps : ℕ → os.World → os.World → Type 0
  Keeps k w w' =
      (take k (content fd w') ≡ take k (content fd w))
      × (length (content fd w) ≤ length (content fd w'))

  Keeps-trans : (k : ℕ) (w w1 w' : os.World) → Keeps k w w1 → Keeps k w1 w' → Keeps k w w'
  Keeps-trans k w w1 w' (a, l) (b, m) = (b ∙ a, omega arith)

  zero_loop-Keeps :
      (fuel k offset n : ℕ) (w w' : os.World)
      → k ≤ offset
      → offset + n ≤ length (content fd w)
      → offset + n < 2 ^ 64
      → zero_loop os fuel file offset n w ≡ (done tt, w')
      → Keeps k w w'
  unfolding zero_loop
  zero_loop-Keeps zero k offset n w w' le inside small e =
      let end = (pure-done e).1 in (ap (λ v. take k (content fd v)) (sym end), rw end (omega arith))
  zero_loop-Keeps (suc fuel) k offset n w w' le inside small e =
      let chunk = if ltb n (1024 * 1024) then n else 1024 * 1024 in
      let most : chunk ≤ n = grind arith in
      elim (Bool-cases (ltb 0 n)) [
        | inr p ↦
            let end = (pure-done (rw (p, zero_loop) at e)).1 in
            (ap (λ v. take k (content fd v)) (sym end), rw end (omega arith))
        | inl p ↦
            through (write_exact os file (replicate chunk 0) offset) _ (rw (p, zero_loop) at e)
              (λ u w1 e1 h1.
                let first =
                  write_exact-keeps os laws file fd open_fd (replicate chunk 0) k offset w w1 le
                    (omega arith) e1 in
                let next : add64 offset chunk ≡ offset + chunk = omega arith in
                Keeps-trans k w w1 w' first (
                  zero_loop-Keeps fuel k (offset + chunk) (n - chunk) w1 w' (omega arith)
                    (omega (arith, first.1)) (omega arith) (rw next at h1)))
      ]

  zero_region-Keeps :
      (k offset n : ℕ) (w w' : os.World)
      → k ≤ offset
      → offset + n ≤ length (content fd w)
      → offset + n < 2 ^ 64
      → zero_region os file offset n w ≡ (done tt, w')
      → Keeps k w w'
  unfolding zero_region
  zero_region-Keeps k offset n w w' le inside small e =
      through (aligned_alloc os 4096 (1024 * 1024)) _ e (λ u w1 e1 h1.
        let same : content fd w1 ≡ content fd w =
          ap (content fd) (sym (ap (λ r. r.1) e1))
          ∙ aligned_alloc-content os laws fd 4096 (1024 * 1024) w in
        rw same at (zero_loop-Keeps n k offset n w1 w' le (rw same inside) small h1))

  -- The bytes of a write stand at its offset, whatever is written behind them.
  written_at :
      (bytes : List ℕ) (at : ℕ) (w w1 w' : os.World)
      → at ≤ length (content fd w)
      → write_exact os file bytes at w ≡ (done tt, w1)
      → take (at + length bytes) (content fd w') ≡ take (at + length bytes) (content fd w1)
      → take (length bytes) (drop at (content fd w')) ≡ bytes
  written_at bytes at w w1 w' inside e kept =
      let (long, put) = write_exact-done os laws file fd open_fd bytes at w w1 inside e in
      let n = length bytes in
      let c = content fd w' in
      let whole : take at c ++ take n (drop at c) ≡ take at (content fd w) ++ bytes =
        sym (take-add at n c) ∙ kept ∙ put in
      let size = ap length kept in
      let shape = length-take (at + n) c in
      let shape1 = length-take (at + n) (content fd w1) in
      let front = length-take at c in
      let front' = length-take at (content fd w) in
      sym (drop-append (take at c) (take n (drop at c)) at (omega arith))
      ∙ ap (drop at) whole
      ∙ drop-append (take at (content fd w)) bytes at (omega arith)

  flush-content : (w w' : os.World) → flush os file w ≡ (done tt, w') → content fd w' ≡ content fd w
  unfolding flush
  flush-content w w' e =
      let e' = rw open_fd at e in
      ap (content fd) (sym (ap (λ r. r.1) e')) ∙ laws.fsync_content fd fd w

  module _ (l : Layout) (ok : IsEncodable l) (reserved : 8 ≤ l.reserved_sectors)
      (later : 0 < l.partition_start_lba) (clock : os.World → ℕ × os.World)
      (quiet : (w : os.World) → content fd (clock w).1 ≡ content fd w) where
    -- Everything that is written after the boot sector stands behind it.
    behind_boot :
        (label : List ℕ) (boot : List ℕ) (w w' : os.World)
        → partition_offset l + metadata_bytes l ≤ length (content fd w)
        → (write_exact os file boot (partition_offset l + 6 * 512)
              >> (write_exact os file build_fsinfo (partition_offset l + 1 * 512)
                  >> (write_exact os file build_fsinfo (partition_offset l + 7 * 512)
                      >> (write_exact os file first_entries (fat1_offset l)
                          >> (write_exact os file first_entries (fat2_offset l)
                              >> (write_exact os file (root_entry label) (data_offset l)
                                  >> flush os file))))))
            w
          ≡ (done tt, w')
        → take (partition_offset l + 512) (content fd w')
          ≡ take (partition_offset l + 512) (content fd w)
    behind_boot label boot w w' inside e =
        let k = partition_offset l + 512 in
        let two = ap (λ n. n * l.sectors_per_fat) ok.fats in
        through (write_exact os file boot (partition_offset l + 6 * 512)) _ e (λ u w1 e1 h1.
          let (t1, m1) =
            write_exact-keeps os laws file fd open_fd boot k _ w w1 (omega arith) (omega arith)
              e1 in
          through (write_exact os file build_fsinfo (partition_offset l + 1 * 512)) _ h1
            (λ u w2 e2 h2.
              let (t2, m2) =
                write_exact-keeps os laws file fd open_fd build_fsinfo k _ w1 w2 (omega arith)
                  (omega arith) e2 in
              through (write_exact os file build_fsinfo (partition_offset l + 7 * 512)) _ h2
                (λ u w3 e3 h3.
                  let (t3, m3) =
                    write_exact-keeps os laws file fd open_fd build_fsinfo k _ w2 w3 (omega arith)
                      (omega arith) e3 in
                  through (write_exact os file first_entries (fat1_offset l)) _ h3 (λ u w4 e4 h4.
                    let (t4, m4) =
                      write_exact-keeps os laws file fd open_fd first_entries k _ w3 w4
                        (omega arith) (omega arith) e4 in
                    through (write_exact os file first_entries (fat2_offset l)) _ h4 (λ u w5 e5 h5.
                      let (t5, m5) =
                        write_exact-keeps os laws file fd open_fd first_entries k _ w4 w5
                          (omega arith) (omega (arith, two)) e5 in
                      through (write_exact os file (root_entry label) (data_offset l)) _ h5
                        (λ u w6 e6 h6.
                          let (t6, m6) =
                            write_exact-keeps os laws file fd open_fd (root_entry label) k _ w5 w6
                              (omega arith) (omega arith) e6 in
                          let t7 = ap (take k) (flush-content w6 w' h6) in
                          t7 ∙ t6 ∙ t5 ∙ t4 ∙ t3 ∙ t2 ∙ t1))))))

    -- When the writes of `df_format_fat32` with a partition table succeed, for an encodable layout with
    -- at least 8 reserved sectors whose partition does not start at 0 and whose metadata lies inside
    -- the medium, then the medium starts with the partition table and has the boot sector with the
    -- normalized label where the partition starts. This is for a system that keeps the laws and a clock
    -- that changes no file.
    pub write_volume-done :
        (input : List ℕ) (target_size : ℕ) (w w' : os.World)
        → partition_offset l + metadata_bytes l ≤ length (content fd w)
        → partition_offset l + metadata_bytes l < 2 ^ 64
        → write_volume os clock true file l (normalize_label input) target_size w ≡ (done tt, w')
        → (id : ℕ) × (take 512 (content fd w') ≡ build_mbr l)
          × (take 512 (drop (partition_offset l) (content fd w'))
              ≡ build_boot_sector l (normalize_label input) id)
          × (partition_offset l + 512 ≤ length (content fd w'))
    unfolding write_volume
    write_volume-done input target_size w w' inside small e =
        let p = partition_offset l in
        let label = normalize_label input in
        through (zero_region os file p (metadata_bytes l)) _ e (λ u w1 e1 h1.
          let (kept1, m1) =
            zero_region-Keeps 0 p (metadata_bytes l) w w1 (omega arith) inside small e1 in
          through (write_exact os file (build_mbr l) 0) _ h1 (λ u w2 e2 h2.
            let (long, put) =
              write_exact-done os laws file fd open_fd (build_mbr l) 0 w1 w2 (omega arith) e2 in
            let (kept2, m2) =
              write_exact-keeps os laws file fd open_fd (build_mbr l) 0 0 w1 w2 (omega arith)
                (omega arith) e2 in
            through_call clock _ h2 (λ now w3 e3 h3.
              let ticked : content fd w3 ≡ content fd w2 =
                ap (content fd) (sym (ap (λ r. r.1) e3)) ∙ quiet w2 in
              let id = bit_xor (bit_xor now target_size) (shr target_size 32) % 2 ^ 32 in
              let boot = build_boot_sector l label id in
              let size = length-build_boot_sector l input id in
              let there : p ≤ length (content fd w3) = rw ticked (omega arith) in
              through (write_exact os file boot p) _ h3 (λ u w4 e4 h4.
                let (kept4, m4) =
                  write_exact-keeps os laws file fd open_fd boot p p w3 w4 (omega arith) there e4 in
                let room : p + metadata_bytes l ≤ length (content fd w4) =
                  omega (arith, ap length ticked) in
                let behind = behind_boot label boot w4 w' room h4 in
                let sector = written_at boot p w3 w4 w' there e4 (rw size behind) in
                let mbr = length-build_mbr l in
                let first : 512 ≤ p = omega (arith, later) in
                let first_there : take 512 (content fd w2) ≡ build_mbr l = put in
                let same = ap length behind in
                let shape = length-take (p + 512) (content fd w') in
                let shape4 = length-take (p + 512) (content fd w4) in
                (
                  id,
                  sym (take-take 512 (p + 512) (content fd w') (omega arith))
                      ∙ ap (take 512) behind
                      ∙ take-take 512 (p + 512) (content fd w4) (omega arith)
                      ∙ sym (take-take 512 p (content fd w4) first)
                      ∙ ap (take 512) kept4
                      ∙ take-take 512 p (content fd w3) first
                      ∙ ap (take 512) ticked
                      ∙ first_there,
                  sym (ap (λ n. take n (drop p (content fd w'))) size) ∙ sector,
                  omega (arith, ok.some_cluster, ok.some_reserved),
                )))))
