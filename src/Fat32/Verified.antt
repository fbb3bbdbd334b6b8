-- ===== src/Fat32/Verified.antt =====
-- `df_verify_fat32` of src/fat32.c reads back what `df_format_fat32` wrote.
use deadflash.Base.{
  ℕ, ◌+◌, ◌^◌, ◌≤◌, ◌<◌, ◌≡◌, refl, sym, ap, ◌∙◌, true, Option, some, List, length, take, drop,
  ==_iff, if◌then◌else◌, length-take, length-drop, arith,
}
use deadflash.Common.{done, err_format}
use deadflash.Common.Monad.{pure, throw, then_done}
use deadflash.Device.{File}
use deadflash.Device.Files.{read_at}
use deadflash.Device.Posix.{Os, Laws}
use deadflash.Device.Transfer.{read_at-content}
use deadflash.Fat32.{Layout}
use deadflash.Fat32.Format.{
  partition_offset, metadata_bytes, write_volume, sector_at, accepted, verify_sectors,
}
use deadflash.Fat32.Readback.{IsEncodable, counted, read_boot-build_boot_sector}
use deadflash.Fat32.Sectors.{normalize_label, build_mbr, build_boot_sector, read_mbr}
use deadflash.Fat32.Written.{write_volume-done}

module _ (os : Os) (laws : Laws os) (file : File) (fd : ℕ) where
  open laws use {content}

  -- Every read of a sector inside the file is whole, while the file is as it is in `w`.
  abbrev pub ReadsWhole : os.World → Type 0
  ReadsWhole w =
      (at : ℕ) (v : os.World)
      → content fd v ≡ content fd w
      → at + 512 ≤ length (content fd w)
      → (v' : os.World) × (read_at os file 512 at v
          ≡ (done (take 512 (drop at (content fd w))), v'))

  sector_at-done :
      (at : ℕ) (bytes : List ℕ) (w v : os.World)
      → ReadsWhole w
      → content fd v ≡ content fd w
      → at + 512 ≤ length (content fd w)
      → take 512 (drop at (content fd w)) ≡ bytes
      → (v' : os.World) × (content fd v' ≡ content fd w)
        × (sector_at os file at v ≡ (done bytes, v'))
  sector_at-done at bytes w v reads same inside e =
      let (v', r) = reads at v same inside in
      let shape = length-take 512 (drop at (content fd w)) in
      let left = length-drop at (content fd w) in
      let full : length bytes ≡ 512 = sym (ap length e) ∙ omega arith in
      let r' = rw e at r in
      (
        v',
        ap (content fd) (sym (ap (λ x. x.1) r)) ∙ read_at-content os laws fd file 512 at v ∙ same,
        then_done (read_at os file 512 at) _ {a = bytes} {s' = v'} r' (
            ap (λ c. (if c then pure bytes else throw err_format) v')
              ((==_iff (length bytes) 512).1 full)),
      )

  accepted-some :
      {A : Type 0} (o : Option A) (a : A) (v : os.World)
      → o ≡ some a
      → accepted os o v ≡ (done a, v)
  accepted-some o a v e = rw e refl

  pub verify_sectors-done :
      (l : Layout) (input : List ℕ) (id : ℕ) (w : os.World)
      → IsEncodable l
      → partition_offset l + 512 ≤ length (content fd w)
      → take 512 (content fd w) ≡ build_mbr l
      → take 512 (drop (partition_offset l) (content fd w))
        ≡ build_boot_sector l (normalize_label input) id
      → ReadsWhole w
      → (w' : os.World) × (verify_sectors os file w ≡ (done (counted l, normalize_label input), w'))
  verify_sectors-done l input id w ok inside first second reads =
      let (mbr_read, boot_read) = read_boot-build_boot_sector l ok input id in
      let (w1, same1, r1) = sector_at-done 0 (build_mbr l) w w reads refl (omega arith) first in
      let (w2, same2, r2) =
        sector_at-done (partition_offset l) (build_boot_sector l (normalize_label input) id) w w1
          reads same1 inside second in
      (
        w2,
        then_done (sector_at os file 0) _ r1 (
            then_done (accepted os (read_mbr (build_mbr l))) _ (accepted-some _ _ w1 mbr_read) (
              then_done (sector_at os file (partition_offset l)) _ r2
                (accepted-some _ _ w2 boot_read))),
      )

  -- When the writes of `df_format_fat32` with a partition table succeed, under the conditions under
  -- which they leave the two sectors, then the checks of `df_verify_fat32` on the same file succeed
  -- wherever their reads are whole: they find the layout, with the clusters that fit its partition, and
  -- the normalized label. This is for a system that keeps the laws and a clock that changes no file.
  pub verify_sectors-write_volume :
      (clock : os.World → ℕ × os.World) (l : Layout) (input : List ℕ) (target_size : ℕ)
      (w w' : os.World)
      → file.handle ≡ some fd
      → ((v : os.World) → content fd (clock v).1 ≡ content fd v)
      → IsEncodable l
      → 8 ≤ l.reserved_sectors
      → 0 < l.partition_start_lba
      → partition_offset l + metadata_bytes l ≤ length (content fd w)
      → partition_offset l + metadata_bytes l < 2 ^ 64
      → write_volume os clock true file l (normalize_label input) target_size w ≡ (done tt, w')
      → ReadsWhole w'
      → (w2 : os.World) × (verify_sectors os file w'
          ≡ (done (counted l, normalize_label input), w2))
  verify_sectors-write_volume clock l input target_size w w' open_fd quiet ok reserved later inside
        small e reads =
      let (id, first, second, long) =
        write_volume-done os laws file fd open_fd l ok reserved later clock quiet input target_size
          w w' inside small e in
      verify_sectors-done l input id w' ok long first second reads
