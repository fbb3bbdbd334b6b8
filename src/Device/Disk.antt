-- ===== src/Device/Disk.antt =====
-- A system with two files and the text of a stream in memory that keeps the laws: descriptor 0 reads the source, each other
-- one the target.
use deadflash.Base.{
  ℕ, zero, suc, ◌+◌, ◌≤◌, ◌<◌, ◌^◌, ltb, ◌≢◌, take-length-take, ◌≡◌, refl, sym, ap, ◌∙◌, true,
  false, none, some, List, [], ◌∷◌, ◌++◌, length, take, drop, arith, length-append, length-take,
  length-drop, take-append, take_all, append_assoc, if◌then◌else◌,
}
use deadflash.Base.Texts.{text_eq}
use deadflash.Device.Posix.{
  Os, Laws, transferred, interrupted, Stat, is_regular, opened, BlockProbe,
}
use native.Mathlib.Nat.{le_refl}

pub record Disk : Type 0 where
  pub source : List ℕ
  pub target : List ℕ
  pub note : List ℕ

abbrev pub bytes_of : ℕ → Disk → List ℕ
bytes_of zero d = d.source
bytes_of (suc fd) d = d.target

abbrev pub overwrite : List ℕ → ℕ → List ℕ → List ℕ
overwrite c at bytes = (take at c ++ bytes) ++ drop (at + length bytes) c

abbrev write_disk : ℕ → List ℕ → ℕ → Disk → Disk
write_disk zero bytes at d = record d { source = overwrite d.source at bytes }
write_disk (suc fd) bytes at d = record d { target = overwrite d.target at bytes }

abbrev source_path : List ℕ
source_path = b's' ∷ []

abbrev descriptor : List ℕ → ℕ
descriptor path = if text_eq path source_path then 0 else 1

abbrev pub no_probe : BlockProbe
no_probe = record {
  can_open = false;
  size = none;
  logical = 0;
  physical = 0;
  read_only = false;
  mounted = false;
  system_disk = false;
  removable = false;
  descriptor_present = false;
  serial_bound = false;
  bus_type = [];
  vendor = [];
  product = [];
  revision = [];
  serial_sha256 = [];
}

abbrev cap : ℕ → Stat
cap n = is_regular (if ltb n (2 ^ 63) then n else 0)

abbrev pub disk_os : Os
disk_os = record {
  World = Disk;
  stat = λ path d. (cap (length (bytes_of (descriptor path) d)), d);
  access_write = λ path d. (true, d);
  probe = λ path d. (no_probe, d);
  open_read = λ path d. (opened (descriptor path), d);
  open_write = λ path direct create d. (opened (descriptor path), d);
  fstat = λ fd d. (cap (length (bytes_of fd d)), d);
  block_size = λ fd d. (none, d);
  pread = λ fd n at d. (transferred (take n (drop at (bytes_of fd d))), d);
  pwrite = λ fd bytes at d. (transferred (length bytes), write_disk fd bytes at d);
  fsync = λ fd d. (true, d);
  ftruncate = λ fd n d. (true, d);
  close = λ fd d. d;
  memalign = λ a n d. (true, d);
  interrupts = λ d. 0;
}

take-overwrite :
    (c bytes : List ℕ) (at : ℕ) → at ≤ length c → take at (overwrite c at bytes) ≡ take at c
take-overwrite c bytes at h =
    ap (take at) (append_assoc (take at c) bytes _)
    ∙ take-append (take at c) _ at (omega (arith, length-take at c))

length-overwrite : (c bytes : List ℕ) (at : ℕ) → length c ≤ length (overwrite c at bytes)
length-overwrite c bytes at = omega (
  arith,
  length-append (take at c ++ bytes) (drop (at + length bytes) c),
  length-append (take at c) bytes,
  length-take at c,
  length-drop (at + length bytes) c,
)

overwrite_put :
    (c bytes : List ℕ) (at : ℕ)
    → at ≤ length c
    → (at + length bytes ≤ length (overwrite c at bytes))
      × (take (at + length bytes) (overwrite c at bytes) ≡ take at c ++ bytes)
overwrite_put c bytes at h =
    let all = length-append (take at c ++ bytes) (drop (at + length bytes) c) in
    let front = length-append (take at c) bytes in
    let first = length-take at c in
    (omega arith, take-append (take at c ++ bytes) _ (at + length bytes) (omega arith))

regular_inj : {a b : ℕ} → is_regular a ≡ is_regular b → a ≡ b
regular_inj e = cc

transferred_inj : {A : Type 0} {a b : A} → transferred a ≡ transferred b → a ≡ b
transferred_inj e = cc

transferred≢interrupted : {A : Type 0} {a : A} → transferred a ≢ interrupted
transferred≢interrupted e = cc

none≢some_size : {n : ℕ} → none ≢ some n
none≢some_size e = cc

capped : (n : ℕ) → (if ltb n (2 ^ 63) then n else 0) < 2 ^ 63
capped n = grind arith

write_bytes :
    (fd at : ℕ) (bytes : List ℕ) (d : Disk)
    → bytes_of fd (write_disk fd bytes at d) ≡ overwrite (bytes_of fd d) at bytes
write_bytes zero at bytes d = refl
write_bytes (suc fd) at bytes d = refl

read_data :
    (n at : ℕ) (c bytes : List ℕ)
    → take n (drop at c) ≡ bytes
    → (length bytes ≤ n) × (bytes ≡ take (length bytes) (drop at c))
read_data n at c bytes e =
    let size = length-take n (drop at c) in
    let len = ap length e in
    (
      omega arith,
      sym e ∙ sym (take-length-take n (drop at c)) ∙ ap (λ b. take (length b) (drop at c)) e,
    )

put_data :
    (fd at n : ℕ) (bytes : List ℕ) (w w' : Disk)
    → at ≤ length (bytes_of fd w)
    → disk_os.pwrite fd bytes at w ≡ (transferred n, w')
    → (n ≤ length bytes)
      × (at + n ≤ length (bytes_of fd w'))
      × (take (at + n) (bytes_of fd w') ≡ take at (bytes_of fd w) ++ take n bytes)
put_data fd at n bytes w w' h e =
    let whole : length bytes ≡ n = transferred_inj (ap (λ p. p.0) e) in
    let end = sym (ap (λ p. bytes_of fd p.1) e) ∙ write_bytes fd at bytes w in
    let (lies, put) = overwrite_put (bytes_of fd w) bytes at h in
    (
      omega arith,
      rw (end, ← whole) lies,
      rw (end, ← whole)
          (put
            ∙ ap (λ t. take at (bytes_of fd w) ++ t)
                (sym (take_all (length bytes) bytes (le_refl _)))),
    )

pub disk_laws : Laws disk_os
disk_laws = record {
  content = bytes_of;
  fstat_size =
      λ fd size w w' e. rw (← regular_inj (ap (λ p. p.0) e)) (capped (length (bytes_of fd w)));
  block_size_bits = λ fd size w w' e. absurd (none≢some_size (ap (λ p. p.0) e));
  pread_interrupted = λ fd n at w w' e. absurd (transferred≢interrupted (ap (λ p. p.0) e));
  pwrite_interrupted = λ fd at bytes w w' e. absurd (transferred≢interrupted (ap (λ p. p.0) e));
  pread_content = λ g fd n at w. refl;
  pread_data = λ fd n at bytes w w' e.
      read_data n at (bytes_of fd w) bytes (transferred_inj (ap (λ p. p.0) e));
  pwrite_before = λ fd at bytes w h.
      ap (take at) (write_bytes fd at bytes w) ∙ take-overwrite (bytes_of fd w) bytes at h;
  pwrite_size =
      λ fd at bytes w. rw (write_bytes fd at bytes w) (length-overwrite (bytes_of fd w) bytes at);
  pwrite_data = λ fd at n bytes w w' h e. put_data fd at n bytes w w' h e;
  fsync_content = λ g fd w. refl;
  memalign_content = λ g a n w. refl;
}

pub disk_content : (fd : ℕ) (d : Disk) → disk_laws.content fd d ≡ bytes_of fd d
unfolding disk_laws
disk_content fd d = refl
