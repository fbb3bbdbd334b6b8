-- ===== src/Device/Transfer.antt =====
-- What `df_read_at` and `df_write_at` do to the bytes of a file, under the laws of the system.
use deadflash.Base.{
  ℕ, zero, suc, ◌+◌, ◌≤◌, ◌<◌, ◌≡◌, ◌≢◌, refl, sym, ap, ap₂, ◌∙◌, take_all, Option-cases, some,
  List, ◌++◌, length, take, drop, arith, Bool-cases, inl, inr,
}
use deadflash.Common.{done, failed≢done, done_inj}
use deadflash.Device.{File}
use deadflash.Device.Posix.{Os, Laws, Io, transferred, interrupted, io_failed}
use deadflash.Device.Files.{io_result, pread_loop, pwrite_loop, read_at, write_at}
use native.Mathlib.Nat.{le_refl}

io_result-state : {S A : Type 0} (r : Io A × S) → (io_result r).1 ≡ r.1
io_result-state (transferred a, w) = refl
io_result-state (interrupted, w) = refl
io_result-state (io_failed, w) = refl

io_result-done :
    {S A : Type 0} (r : Io A × S) {a : A} {w : S}
    → io_result r ≡ (done a, w)
    → r ≡ (transferred a, w)
io_result-done (transferred a, w) e =
    λ i. (transferred (done_inj (ap (λ p. p.0) e) i), ap (λ p. p.1) e i)
io_result-done (interrupted, w) e = absurd (failed≢done (ap (λ p. p.0) e))
io_result-done (io_failed, w) e = absurd (failed≢done (ap (λ p. p.0) e))

module _ (os : Os) (laws : Laws os) where
  open laws use {content}

  -- The loop on EINTR, given one round more than there are signals, ends with the answer of a call
  -- that is not interrupted.
  pub pread_loop-last :
      (fuel fd n at : ℕ) (w : os.World)
      → os.interrupts w < fuel
      → (w₀ : os.World) × ((g : ℕ) → content g w₀ ≡ content g w)
        × (pread_loop os fuel fd n at w ≡ os.pread fd n at w₀)
        × ((os.pread fd n at w₀).0 ≢ interrupted)
  unfolding pread_loop
  pread_loop-last zero fd n at w h = absurd (omega arith)
  pread_loop-last (suc fuel) fd n at w h =
      go (os.pread fd n at w) refl (pread_loop-last fuel fd n at)
    where
      go :
          (r : Io (List ℕ) × os.World)
          → os.pread fd n at w ≡ r
          → ((w' : os.World)
              → os.interrupts w' < fuel
              → (w₀ : os.World) × ((g : ℕ) → content g w₀ ≡ content g w')
                × (pread_loop os fuel fd n at w' ≡ os.pread fd n at w₀)
                × ((os.pread fd n at w₀).0 ≢ interrupted))
          → (w₀ : os.World) × ((g : ℕ) → content g w₀ ≡ content g w)
            × (pread_loop os (suc fuel) fd n at w ≡ os.pread fd n at w₀)
            × ((os.pread fd n at w₀).0 ≢ interrupted)
      go (interrupted, w') e ih =
          let fewer = laws.pread_interrupted fd n at w w' e in
          let (w₀, same, last, ended) = ih w' (omega (arith, fewer)) in
          (
            w₀,
            λ g. same g ∙ sym (ap (λ p. content g p.1) e) ∙ laws.pread_content g fd n at w,
            rw (e, pread_loop) (ap (λ v. pread_loop os fuel fd n at v) (ap (λ p. p.1) e) ∙ last),
            ended,
          )
      go (transferred bytes, w') e ih = (
        w,
        λ g. refl,
        rw (e, pread_loop) (ap (λ p. (transferred bytes, p.1)) e),
        λ z. cc (ap (λ p. p.0) e),
      )
      go (io_failed, w') e ih = (
        w,
        λ g. refl,
        rw (e, pread_loop) (ap (λ p. (io_failed, p.1)) e),
        λ z. cc (ap (λ p. p.0) e),
      )

  pub pwrite_loop-last :
      (fuel fd at : ℕ) (bytes : List ℕ) (w : os.World)
      → os.interrupts w < fuel
      → (w₀ : os.World) × ((g : ℕ) → content g w₀ ≡ content g w)
        × (pwrite_loop os fuel fd bytes at w ≡ os.pwrite fd bytes at w₀)
        × ((os.pwrite fd bytes at w₀).0 ≢ interrupted)
  unfolding pwrite_loop
  pwrite_loop-last zero fd at bytes w h = absurd (omega arith)
  pwrite_loop-last (suc fuel) fd at bytes w h =
      go (os.pwrite fd bytes at w) refl (λ w'. pwrite_loop-last fuel fd at bytes w')
    where
      go :
          (r : Io ℕ × os.World)
          → os.pwrite fd bytes at w ≡ r
          → ((w' : os.World)
              → os.interrupts w' < fuel
              → (w₀ : os.World) × ((g : ℕ) → content g w₀ ≡ content g w')
                × (pwrite_loop os fuel fd bytes at w' ≡ os.pwrite fd bytes at w₀)
                × ((os.pwrite fd bytes at w₀).0 ≢ interrupted))
          → (w₀ : os.World) × ((g : ℕ) → content g w₀ ≡ content g w)
            × (pwrite_loop os (suc fuel) fd bytes at w ≡ os.pwrite fd bytes at w₀)
            × ((os.pwrite fd bytes at w₀).0 ≢ interrupted)
      go (interrupted, w') e ih =
          let fewer = laws.pwrite_interrupted fd at bytes w w' e in
          let (w₀, same, last, ended) = ih w' (omega (arith, fewer.0)) in
          (
            w₀,
            λ g. same g ∙ fewer.1 g,
            rw (e, pwrite_loop)
                (ap (λ v. pwrite_loop os fuel fd bytes at v) (ap (λ p. p.1) e) ∙ last),
            ended,
          )
      go (transferred n, w') e ih = (
        w,
        λ g. refl,
        rw (e, pwrite_loop) (ap (λ p. (transferred n, p.1)) e),
        λ z. cc (ap (λ p. p.0) e),
      )
      go (io_failed, w') e ih = (
        w,
        λ g. refl,
        rw (e, pwrite_loop) (ap (λ p. (io_failed, p.1)) e),
        λ z. cc (ap (λ p. p.0) e),
      )

  -- A read changes no file.
  pub read_at-content :
      (g : ℕ) (file : File) (n at : ℕ) (w : os.World)
      → content g (read_at os file n at w).1 ≡ content g w
  unfolding read_at
  read_at-content g file n at w = elim (Option-cases file.handle) [
    | inl p ↦ rw (p, read_at)
    | inr (fd, p) ↦
        let (w₀, same, last, ended) =
          pread_loop-last (suc (os.interrupts w)) fd n at w (omega arith) in
        rw (p, read_at, last, io_result-state (os.pread fd n at w₀))
          (laws.pread_content g fd n at w₀ ∙ same g)
  ]

  -- What a successful read returns.
  pub read_at-done :
      (file : File) (n at : ℕ) (bytes : List ℕ) (w w' : os.World)
      → read_at os file n at w ≡ (done bytes, w')
      → (fd : ℕ) × (file.handle ≡ some fd)
        × (length bytes ≤ n)
        × (bytes ≡ take (length bytes) (drop at (content fd w)))
  unfolding read_at
  read_at-done file n at bytes w w' e = elim (Option-cases file.handle) [
    | inl p ↦ absurd (failed≢done (ap (λ p. p.0) (rw (p, read_at) at e)))
    | inr (fd, p) ↦
        let (w₀, same, last, ended) =
          pread_loop-last (suc (os.interrupts w)) fd n at w (omega arith) in
        let r = io_result-done (os.pread fd n at w₀) (rw (p, read_at, last) at e) in
        let d = laws.pread_data fd n at bytes w₀ w' r in
        (fd, p, d.0, d.1 ∙ ap (λ c. take (length bytes) (drop at c)) (same fd))
  ]

  module _ (file : File) (fd at : ℕ) (bytes : List ℕ) (w : os.World)
      (open_fd : file.handle ≡ some fd) (inside : at ≤ length (content fd w)) where
    -- Whatever a write does, it does not before its offset.
    pub write_at-before :
        (take at (content fd (write_at os file bytes at w).1) ≡ take at (content fd w))
        × (length (content fd w) ≤ length (content fd (write_at os file bytes at w).1))
    unfolding write_at
    write_at-before = elim (Bool-cases file.writable) [
      | inr q ↦ rw (open_fd, write_at, q) (refl, le_refl _)
      | inl q ↦
          let (w₀, same, last, ended) =
            pwrite_loop-last (suc (os.interrupts w)) fd at bytes w (omega arith) in
          let before = laws.pwrite_before fd at bytes w₀ (rw (same fd) inside) in
          let size = laws.pwrite_size fd at bytes w₀ in
          rw (open_fd, write_at, q, last, io_result-state (os.pwrite fd bytes at w₀), ← same fd)
            (before, size)
    ]

    -- A write of all bytes puts them at its offset.
    pub write_at-done :
        (w' : os.World)
        → write_at os file bytes at w ≡ (done (length bytes), w')
        → (at + length bytes ≤ length (content fd w'))
          × (take (at + length bytes) (content fd w') ≡ take at (content fd w) ++ bytes)
    unfolding write_at
    write_at-done w' e = elim (Bool-cases file.writable) [
      | inr q ↦ absurd (failed≢done (ap (λ p. p.0) (rw (open_fd, write_at, q) at e)))
      | inl q ↦
          let (w₀, same, last, ended) =
            pwrite_loop-last (suc (os.interrupts w)) fd at bytes w (omega arith) in
          let r =
            io_result-done (os.pwrite fd bytes at w₀) (rw (open_fd, write_at, q, last) at e) in
          let d = laws.pwrite_data fd at (length bytes) bytes w₀ w' (rw (same fd) inside) r in
          (
            d.1,
            d.2 ∙ ap₂ (λ c t. take at c ++ t) (same fd) (take_all (length bytes) bytes (le_refl _)),
          )
    ]
