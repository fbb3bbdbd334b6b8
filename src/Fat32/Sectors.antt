-- ===== src/Fat32/Sectors.antt =====
-- The sectors that `df_format_fat32` of src/fat32.c writes, and what `df_verify_fat32` reads of them.
use deadflash.Base.{
  ℕ, zero, suc, ◌+◌, ◌-◌, ◌*◌, ◌/◌, ◌%◌, ◌^◌, Bool, not, ◌&&◌, ◌||◌, Option, none, some, List, [],
  ◌∷◌, get_elem?, get_or, set, take, drop, replicate, ltb, leb, ◌==◌, if◌then◌else◌, add32, sub32,
  mul32,
}
use deadflash.Base.Texts.{codes, text_eq}
use deadflash.Fat32.{Layout, min_clusters, max_clusters}

-- memcpy into a buffer
abbrev pub store : List ℕ → ℕ → List ℕ → List ℕ
store buffer i [] = buffer
store buffer i (b ∷ bytes) = store (set buffer i b) (i + 1) bytes

abbrev pub put_le16 : ℕ → ℕ → List ℕ → List ℕ
put_le16 i value buffer = store buffer i ((value % 256) ∷ (value / 2 ^ 8 % 256) ∷ [])

abbrev pub put_le32 : ℕ → ℕ → List ℕ → List ℕ
put_le32 i value buffer =
    store buffer i
      ((value % 256) ∷ (value / 2 ^ 8 % 256) ∷ (value / 2 ^ 16 % 256) ∷ (value / 2 ^ 24 % 256) ∷ [])

abbrev pub put_byte : ℕ → ℕ → List ℕ → List ℕ
put_byte i value buffer = set buffer i (value % 256)

-- The bytes have no common bits once they are shifted, so that `|` is a sum.
abbrev pub get_le16 : List ℕ → ℕ → ℕ
get_le16 buffer i = get_or buffer i 0 + get_or buffer (i + 1) 0 * 2 ^ 8

abbrev pub get_le32 : List ℕ → ℕ → ℕ
get_le32 buffer i =
    get_or buffer i 0
    + get_or buffer (i + 1) 0 * 2 ^ 8
    + get_or buffer (i + 2) 0 * 2 ^ 16
    + get_or buffer (i + 3) 0 * 2 ^ 24

-- strchr("\"*+,./:;<=>?[\\]|", c) != NULL, where c is no NUL
abbrev forbidden : List ℕ
forbidden = codes "\"*+,./:;<=>?[\\]|"

abbrev is_one_of : List ℕ → ℕ → Bool
is_one_of [] c = Bool.false
is_one_of (d ∷ chars) c = (c == d) || is_one_of chars c

-- toupper in the C locale
abbrev label_upper : ℕ → ℕ
label_upper c = if leb b'a' c && leb c b'z' then c - 32 else c

abbrev pub label_char : Option ℕ → ℕ
label_char none = b' '
label_char (some c) = if ltb c 0x20 || is_one_of forbidden c then b'_' else label_upper c

-- The loop over the places that are left, on the rest of the input; what the input does not reach
-- stays a blank.
abbrev pub label_loop : ℕ → List ℕ → List ℕ
label_loop zero input = []
label_loop (suc rounds) input = label_char (get_elem? input 0) ∷ label_loop rounds (drop 1 input)

-- The 11 characters, without the NUL after them.
unfoldable pub normalize_label : List ℕ → List ℕ
normalize_label [] = label_loop 11 (codes "DEADFLASH")
normalize_label (c ∷ input) = label_loop 11 (c ∷ input)

unfoldable pub build_mbr : Layout → List ℕ
build_mbr l =
    let start =
      store (replicate 512 0) 446 (0x00 ∷ 0xfe ∷ 0xff ∷ 0xff ∷ 0x0c ∷ 0xfe ∷ 0xff ∷ 0xff ∷ []) in
    let entry =
      put_le32 (446 + 12) l.partition_sectors (put_le32 (446 + 8) l.partition_start_lba start) in
    store entry 510 (0x55 ∷ 0xaa ∷ [])

-- The fields from the bytes per sector to the signature of the drive, in the order in which they are set.
unfoldable pub build_boot_sector : Layout → List ℕ → ℕ → List ℕ
build_boot_sector l label volume_id =
    let s0 = store (store (replicate 512 0) 0 (0xeb ∷ 0x58 ∷ 0x90 ∷ [])) 3 (codes "DEADBYTE") in
    let s1 = put_byte 13 l.sectors_per_cluster (put_le16 11 512 s0) in
    let s2 = put_byte 16 l.fat_count (put_le16 14 l.reserved_sectors s1) in
    let s3 = put_byte 21 0xf8 (put_le16 19 0 (put_le16 17 0 s2)) in
    let s4 = put_le16 26 255 (put_le16 24 63 (put_le16 22 0 s3)) in
    let s5 =
      put_le32 36 l.sectors_per_fat
        (put_le32 32 l.partition_sectors (put_le32 28 l.partition_start_lba s4)) in
    let s6 = put_le32 44 l.root_cluster (put_le16 42 0 (put_le16 40 0 s5)) in
    let s7 = put_byte 66 0x29 (put_byte 64 0x80 (put_le16 50 6 (put_le16 48 1 s6))) in
    let s8 = store (store (put_le32 67 volume_id s7) 71 label) 82 (codes "FAT32   ") in
    store s8 510 (0x55 ∷ 0xaa ∷ [])

unfoldable pub build_fsinfo : List ℕ
build_fsinfo = put_le32 508 0xaa550000 (
    put_le32 492 3
      (put_le32 488 0xffffffff (put_le32 484 0x61417272 (put_le32 0 0x41615252 (replicate 512 0)))))

-- The first sector of a FAT: the two reserved entries and the end of the root directory.
unfoldable pub first_entries : List ℕ
first_entries =
    put_le32 8 0x0fffffff (put_le32 4 0x0fffffff (put_le32 0 0x0ffffff8 (replicate 512 0)))

-- The first sector of the root directory: the label of the volume.
unfoldable pub root_entry : List ℕ → List ℕ
root_entry label = set (store (replicate 512 0) 0 label) 11 0x08

-- The tests of `df_verify_fat32` on the first sector, with the place and the size of the partition.
unfoldable pub read_mbr : List ℕ → Option (ℕ × ℕ)
read_mbr mbr =
    if not (get_or mbr 510 0 == 0x55)
      || not (get_or mbr 511 0 == 0xaa)
      || not (get_or mbr (446 + 4) 0 == 0x0c)
    then none
    else some (get_le32 mbr (446 + 8), get_le32 mbr (446 + 12))

-- Its tests on the boot sector, with the layout and the label; on `uint32_t`.
unfoldable pub read_boot : ℕ → ℕ → List ℕ → Option (Layout × List ℕ)
read_boot start_lba sectors boot =
    let spc = get_or boot 13 0 in
    let reserved = get_le16 boot 14 in
    let fats = get_or boot 16 0 in
    let fatsz = get_le32 boot 36 in
    let clusters = sub32 (sub32 sectors reserved) (mul32 fats fatsz) / spc in
    if not (get_or boot 510 0 == 0x55)
      || not (get_or boot 511 0 == 0xaa)
      || not (get_le16 boot 11 == 512)
      || not (text_eq (take 8 (drop 82 boot)) (codes "FAT32   "))
    then none
    else if (spc == 0)
        || ltb reserved 1
        || not (fats == 2)
        || (fatsz == 0)
        || leb sectors (add32 reserved (mul32 fats fatsz))
    then none
    else if ltb clusters min_clusters || leb max_clusters clusters
    then none
    else some (
      record {
        bytes_per_sector = 512;
        sectors_per_cluster = spc;
        reserved_sectors = reserved;
        fat_count = fats;
        sectors_per_fat = fatsz;
        partition_start_lba = start_lba;
        partition_sectors = sectors;
        data_clusters = clusters;
        root_cluster = get_le32 boot 44;
      },
      take 11 (drop 71 boot),
    )
