-- ===== src/Device/Posix.antt =====
-- The operating system under src/device.c, in the POSIX build: system calls are arguments of the
-- model, with what POSIX documents of them as separate laws.
use deadflash.Base.{ℕ, ◌+◌, ◌≤◌, ◌<◌, ◌≡◌, Bool, ◌^◌, Option, some, List, ◌++◌, length, take, drop}

-- pread and pwrite: a transfer, EINTR or another error.
pub data Io {ℓ} (A : Type ℓ) : Type ℓ where
  transferred : A → Io A
  interrupted : Io A
  io_failed : Io A

-- stat: ENOENT, another error, or the kind of the file with the size of a regular one.
pub data Stat : Type 0 where
  stat_missing stat_failed is_block is_char is_other : Stat
  is_regular : ℕ → Stat

-- open: a descriptor, EINVAL, or another error.
pub data Opened : Type 0 where
  opened : ℕ → Opened
  open_invalid open_failed : Opened

-- What the ioctl calls, mountinfo and sysfs tell of a block device. The sector sizes are what the
-- calls left in variables that started at 512.
pub record BlockProbe : Type 0 where
  pub can_open : Bool
  pub size : Option ℕ
  pub logical : ℕ
  pub physical : ℕ
  pub read_only : Bool
  pub mounted : Bool
  pub system_disk : Bool
  pub removable : Bool
  pub descriptor_present : Bool
  pub serial_bound : Bool
  pub bus_type : List ℕ
  pub vendor : List ℕ
  pub product : List ℕ
  pub revision : List ℕ
  pub serial_sha256 : List ℕ

-- The system calls, each on a world. The size of a device is unknown where its ioctl fails.
pub record Os : Type 1 where
  pub World : Type 0
  pub stat : List ℕ → World → Stat × World
  pub access_write : List ℕ → World → Bool × World
  pub probe : List ℕ → World → BlockProbe × World
  pub open_read : List ℕ → World → Opened × World
  -- the flags O_DIRECT and O_CREAT
  pub open_write : List ℕ → Bool → Bool → World → Opened × World
  pub fstat : ℕ → World → Stat × World
  pub block_size : ℕ → World → Option ℕ × World
  pub pread : ℕ → ℕ → ℕ → World → Io (List ℕ) × World
  pub pwrite : ℕ → List ℕ → ℕ → World → Io ℕ × World
  pub fsync : ℕ → World → Bool × World
  pub ftruncate : ℕ → ℕ → World → Bool × World
  pub close : ℕ → World → World
  pub memalign : ℕ → ℕ → World → Bool × World
  -- how many signals are still to interrupt a call
  pub interrupts : World → ℕ

-- The bytes behind a descriptor, and what the calls do to them. Nothing else writes to them.
pub record Laws (os : Os) : Type 1 where
  pub content : ℕ → os.World → List ℕ
  -- a file's size is an off_t, that of a device a uint64_t
  pub fstat_size :
      (fd size : ℕ) (w w' : os.World) → os.fstat fd w ≡ (is_regular size, w') → size < 2 ^ 63
  pub block_size_bits :
      (fd size : ℕ) (w w' : os.World) → os.block_size fd w ≡ (some size, w') → size < 2 ^ 64
  -- EINTR uses up a signal, and comes before any data is written
  pub pread_interrupted :
      (fd n at : ℕ) (w w' : os.World)
      → os.pread fd n at w ≡ (interrupted, w')
      → os.interrupts w' < os.interrupts w
  pub pwrite_interrupted :
      (fd at : ℕ) (bytes : List ℕ) (w w' : os.World)
      → os.pwrite fd bytes at w ≡ (interrupted, w')
      → (os.interrupts w' < os.interrupts w) × ((g : ℕ) → content g w' ≡ content g w)
  -- a read changes no file, and transfers what stands at the offset, perhaps less of it than asked
  pub pread_content :
      (g fd n at : ℕ) (w : os.World) → content g (os.pread fd n at w).1 ≡ content g w
  pub pread_data :
      (fd n at : ℕ) (bytes : List ℕ) (w w' : os.World)
      → os.pread fd n at w ≡ (transferred bytes, w')
      → (length bytes ≤ n) × (bytes ≡ take (length bytes) (drop at (content fd w)))
  -- a write leaves the bytes before the offset alone, and puts what it transfers at the offset
  pub pwrite_before :
      (fd at : ℕ) (bytes : List ℕ) (w : os.World)
      → at ≤ length (content fd w)
      → take at (content fd (os.pwrite fd bytes at w).1) ≡ take at (content fd w)
  pub pwrite_size :
      (fd at : ℕ) (bytes : List ℕ) (w : os.World)
      → length (content fd w) ≤ length (content fd (os.pwrite fd bytes at w).1)
  pub pwrite_data :
      (fd at n : ℕ) (bytes : List ℕ) (w w' : os.World)
      → at ≤ length (content fd w)
      → os.pwrite fd bytes at w ≡ (transferred n, w')
      → (n ≤ length bytes)
        × (at + n ≤ length (content fd w'))
        × (take (at + n) (content fd w') ≡ take at (content fd w) ++ take n bytes)
  pub fsync_content : (g fd : ℕ) (w : os.World) → content g (os.fsync fd w).1 ≡ content g w
  pub memalign_content : (g a n : ℕ) (w : os.World) → content g (os.memalign a n w).1 ≡ content g w
