-- ===== src/Device/Sources.antt =====
-- What the functions that open a file return: its handle, and for a source its size.
use deadflash.Base.{
  ℕ, ◌^◌, ◌<◌, ◌≡◌, sym, ap, Option, none, some, List, arith, Bool-cases, Option-cases, inl, inr,
  false, not,
}
use deadflash.Common.{done, failed≢done, done_inj}
use deadflash.Common.Monad.{through, through_call, pure-done}
use deadflash.Device.{File, TargetInfo, WriteOptions}
use deadflash.Device.Posix.{
  Os, Laws, Stat, stat_missing, stat_failed, is_block, is_char, is_other, is_regular, Opened,
  opened, open_invalid, open_failed,
}
use deadflash.Device.Files.{
  source_block, source_kind, source_opened, open_source, open_again, open_first, open_handle,
  target_file, open_target, resize_regular_file,
}

-- A file that is open, of a size below 2 ^ 64.
abbrev pub IsOpen : File → Type 0
IsOpen file = (fd : ℕ) × (file.handle ≡ some fd) × (file.size_bytes < 2 ^ 64)

module _ (os : Os) (laws : Laws os) (path : List ℕ) where
  source_block-done :
      (fd : ℕ) (size : Option ℕ) (file : File) (w w1 w' : os.World)
      → os.block_size fd w ≡ (size, w1)
      → source_block os fd path size w1 ≡ (done file, w')
      → IsOpen file
  unfolding source_block
  source_block-done fd none file w w1 w' e h = absurd (failed≢done (ap (λ p. p.0) h))
  source_block-done fd (some size) file w w1 w' e h =
      let (f, same) = pure-done h in
      let bound = laws.block_size_bits fd size w w1 e in
      (fd, sym (ap (λ x. x.handle) f), rw (← f) bound)

  source_kind-done :
      (fd : ℕ) (kind : Stat) (file : File) (w₀ w w' : os.World)
      → os.fstat fd w₀ ≡ (kind, w)
      → source_kind os fd path kind w ≡ (done file, w')
      → IsOpen file
  unfolding source_kind
  source_kind-done fd (is_regular size) file w₀ w w' e h =
      let (f, same) = pure-done h in
      let bound = laws.fstat_size fd size w₀ w e in
      (fd, sym (ap (λ x. x.handle) f), rw (← f) (omega arith))
  source_kind-done fd is_block file w₀ w w' e h =
      through_call (os.block_size fd) _ h
        (λ size w1 e1 h1. source_block-done fd size file w w1 w' e1 h1)
  source_kind-done fd stat_failed file w₀ w w' e h = absurd (failed≢done (ap (λ p. p.0) h))
  source_kind-done fd stat_missing file w₀ w w' e h = absurd (failed≢done (ap (λ p. p.0) h))
  source_kind-done fd is_char file w₀ w w' e h = absurd (failed≢done (ap (λ p. p.0) h))
  source_kind-done fd is_other file w₀ w w' e h = absurd (failed≢done (ap (λ p. p.0) h))

  source_opened-done :
      (handle : Opened) (file : File) (w w' : os.World)
      → source_opened os path handle w ≡ (done file, w')
      → IsOpen file
  unfolding source_opened
  source_opened-done (opened fd) file w w' h =
      through_call (os.fstat fd) _ h (λ kind w1 e1 h1. source_kind-done fd kind file w w1 w' e1 h1)
  source_opened-done open_invalid file w w' h = absurd (failed≢done (ap (λ p. p.0) h))
  source_opened-done open_failed file w w' h = absurd (failed≢done (ap (λ p. p.0) h))

  -- A source that was opened has a handle, and a size that fits 64 bits.
  pub open_source-done :
      (file : File) (w w' : os.World) → open_source os path w ≡ (done file, w') → IsOpen file
  unfolding open_source
  open_source-done file w w' h =
      through_call (os.open_read path) _ h
        (λ handle w1 e1 h1. source_opened-done handle file w1 w' h1)

module _ (os : Os) where
  abbrev pub HasHandle : File → Type 0
  HasHandle file = (fd : ℕ) × (file.handle ≡ some fd)

  open_again-done :
      (file f : File) (answer : Opened) (w w' : os.World)
      → open_again os file answer w ≡ (done f, w')
      → HasHandle f
  unfolding open_again
  open_again-done file f (opened fd) w w' h = (fd, sym (ap (λ x. x.handle) (pure-done h).0))
  open_again-done file f open_invalid w w' h = absurd (failed≢done (ap (λ p. p.0) h))
  open_again-done file f open_failed w w' h = absurd (failed≢done (ap (λ p. p.0) h))

  open_first-done :
      (file f : File) (answer : Opened) (w w' : os.World)
      → open_first os file answer w ≡ (done f, w')
      → HasHandle f
  unfolding open_first
  open_first-done file f (opened fd) w w' h = (fd, sym (ap (λ x. x.handle) (pure-done h).0))
  open_first-done file f open_failed w w' h = absurd (failed≢done (ap (λ p. p.0) h))
  open_first-done file f open_invalid w w' h = elim (Bool-cases file.direct_io) [
    | inl p ↦
        through_call (os.open_write file.path false (not file.is_device)) _
          (rw (p, open_first) at h) (λ answer w1 e1 h1. open_again-done file f answer w1 w' h1)
    | inr p ↦ absurd (failed≢done (ap (λ r. r.0) (rw (p, open_first) at h)))
  ]

  open_handle-done :
      (file f : File) (w w' : os.World) → open_handle os file w ≡ (done f, w') → HasHandle f
  unfolding open_handle
  open_handle-done file f w w' h =
      through_call (os.open_write file.path file.direct_io (not file.is_device)) _ h
        (λ answer w1 e1 h1. open_first-done file f answer w1 w' h1)

  -- A target that was opened has a handle.
  pub open_target-handle :
      (path : List ℕ) (expected : TargetInfo) (options : WriteOptions) (file : File)
      (w w' : os.World)
      → open_target os path expected options w ≡ (done file, w')
      → HasHandle file
  unfolding open_target
  open_target-handle path expected options file w w' e = through _ _ e (λ found w1 e1 h1.
      through _ _ h1 (λ u w2 e2 h2.
        through _ _ h2
          (λ u' w3 e3 h3. open_handle-done (target_file os path found options) file w3 w' h3)))

  -- A new size leaves the handle.
  pub resize_regular_file-handle :
      (file f : File) (size : ℕ) (w w' : os.World)
      → resize_regular_file os file size w ≡ (done f, w')
      → f.handle ≡ file.handle
  unfolding resize_regular_file
  resize_regular_file-handle file f size w w' h = elim (Option-cases file.handle) [
    | inl p ↦ absurd (failed≢done (ap (λ r. r.0) (rw (p, resize_regular_file) at h)))
    | inr (fd, p) ↦ elim (Bool-cases file.is_device) [
      | inl q ↦ absurd (failed≢done (ap (λ r. r.0) (rw (p, q, resize_regular_file) at h)))
      | inr q ↦ elim (Bool-cases (os.ftruncate fd size w).0) [
        | inl t ↦
            sym (
              ap (λ x. x.handle)
                (done_inj (ap (λ r. r.0) (rw (p, q, t, resize_regular_file) at h))))
        | inr t ↦ absurd (failed≢done (ap (λ r. r.0) (rw (p, q, t, resize_regular_file) at h)))
      ]
    ]
  ]
