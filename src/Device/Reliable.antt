-- ===== src/Device/Reliable.antt =====
-- A system whose reads and allocations succeed, and what `df_read_at` and `df_open_source` do then.
use deadflash.Base.{
  ℕ, suc, ◌+◌, ◌≤◌, ◌≡◌, ◌≢◌, refl, sym, ap, ◌∙◌, true, false, Option, none, some, List, length,
  arith,
}
use deadflash.Common.{done, failed≢done}
use deadflash.Common.Monad.{through_call, pure-done}
use deadflash.Device.{File}
use deadflash.Device.Posix.{
  Os, Laws, Io, transferred, interrupted, io_failed, Stat, stat_missing, stat_failed, is_block,
  is_char, is_other, is_regular, Opened, opened, open_invalid, open_failed,
}
use deadflash.Device.Files.{
  io_result, read_at, source_block, source_kind, source_opened, open_source,
}
use deadflash.Device.Transfer.{pread_loop-last}

-- A read that is not interrupted transfers all that was asked for, where the file has it, and there is
-- memory.
pub record Reliable (os : Os) (laws : Laws os) : Type 0 where
  pub pread_works : (fd n at : ℕ) (w : os.World) → (os.pread fd n at w).0 ≢ io_failed
  pub pread_whole :
      (fd n at : ℕ) (bytes : List ℕ) (w w' : os.World)
      → at + n ≤ length (laws.content fd w)
      → os.pread fd n at w ≡ (transferred bytes, w')
      → length bytes ≡ n
  pub memalign_works : (a n : ℕ) (w : os.World) → (os.memalign a n w).0 ≡ true

module _ (os : Os) (laws : Laws os) (reliable : Reliable os laws) where
  open laws use {content}

  -- A read inside a file returns as many bytes as were asked for.
  pub read_at-whole :
      (file : File) (fd n at : ℕ) (w : os.World)
      → file.handle ≡ some fd
      → at + n ≤ length (content fd w)
      → (bytes : List ℕ) × (w' : os.World) × (read_at os file n at w ≡ (done bytes, w'))
        × (length bytes ≡ n)
        × ((g : ℕ) → content g w' ≡ content g w)
  unfolding read_at
  read_at-whole file fd n at w open_fd inside =
      let (w₀, same, last, ended) =
        pread_loop-last os laws (suc (os.interrupts w)) fd n at w (omega arith) in
      rw (open_fd, read_at, last)
        (answer (os.pread fd n at w₀) refl (rw (same fd) inside) ended
          (λ g. laws.pread_content g fd n at w₀ ∙ same g))
    where
      answer :
          {w₀ : os.World} (r : Io (List ℕ) × os.World)
          → os.pread fd n at w₀ ≡ r
          → at + n ≤ length (content fd w₀)
          → (os.pread fd n at w₀).0 ≢ interrupted
          → ((g : ℕ) → content g (os.pread fd n at w₀).1 ≡ content g w)
          → (bytes : List ℕ) × (w' : os.World) × (io_result r ≡ (done bytes, w'))
            × (length bytes ≡ n)
            × ((g : ℕ) → content g w' ≡ content g w)
      answer {w₀} (transferred bytes, w') e fits ended same = (
        bytes,
        w',
        refl,
        reliable.pread_whole fd n at bytes w₀ w' fits e,
        λ g. ap (λ r. content g r.1) (sym e) ∙ same g,
      )
      answer (interrupted, w') e fits ended same = absurd (ended (ap (λ r. r.0) e))
      answer {w₀} (io_failed, w') e fits ended same =
          absurd (reliable.pread_works fd n at w₀ (ap (λ r. r.0) e))

-- What a source is opened with.
abbrev pub IsPlain : File → Type 0
IsPlain file = (file.alignment ≡ 512) × (file.direct_io ≡ false)

module _ (os : Os) (path : List ℕ) where
  source_block-IsPlain :
      (fd : ℕ) (size : Option ℕ) (file : File) (w w' : os.World)
      → source_block os fd path size w ≡ (done file, w')
      → IsPlain file
  unfolding source_block
  source_block-IsPlain fd none file w w' h = absurd (failed≢done (ap (λ p. p.0) h))
  source_block-IsPlain fd (some size) file w w' h =
      let same = (pure-done h).0 in
      (ap (λ f. f.alignment) (sym same), ap (λ f. f.direct_io) (sym same))

  source_kind-IsPlain :
      (fd : ℕ) (kind : Stat) (file : File) (w w' : os.World)
      → source_kind os fd path kind w ≡ (done file, w')
      → IsPlain file
  unfolding source_kind
  source_kind-IsPlain fd (is_regular size) file w w' h =
      let same = (pure-done h).0 in
      (ap (λ f. f.alignment) (sym same), ap (λ f. f.direct_io) (sym same))
  source_kind-IsPlain fd is_block file w w' h =
      through_call (os.block_size fd) _ h
        (λ size w1 e1 h1. source_block-IsPlain fd size file w1 w' h1)
  source_kind-IsPlain fd stat_failed file w w' h = absurd (failed≢done (ap (λ p. p.0) h))
  source_kind-IsPlain fd stat_missing file w w' h = absurd (failed≢done (ap (λ p. p.0) h))
  source_kind-IsPlain fd is_char file w w' h = absurd (failed≢done (ap (λ p. p.0) h))
  source_kind-IsPlain fd is_other file w w' h = absurd (failed≢done (ap (λ p. p.0) h))

  source_opened-IsPlain :
      (handle : Opened) (file : File) (w w' : os.World)
      → source_opened os path handle w ≡ (done file, w')
      → IsPlain file
  unfolding source_opened
  source_opened-IsPlain (opened fd) file w w' h =
      through_call (os.fstat fd) _ h (λ kind w1 e1 h1. source_kind-IsPlain fd kind file w1 w' h1)
  source_opened-IsPlain open_invalid file w w' h = absurd (failed≢done (ap (λ p. p.0) h))
  source_opened-IsPlain open_failed file w w' h = absurd (failed≢done (ap (λ p. p.0) h))

  -- A source is opened without direct I/O.
  pub open_source-IsPlain :
      (file : File) (w w' : os.World) → open_source os path w ≡ (done file, w') → IsPlain file
  unfolding open_source
  open_source-IsPlain file w w' h =
      through_call (os.open_read path) _ h
        (λ handle w1 e1 h1. source_opened-IsPlain handle file w1 w' h1)
