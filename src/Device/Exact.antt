-- ===== src/Device/Exact.antt =====
-- `read_exact` of src/proof.c and `write_exact` of src/fat32.c: transfers that must be whole.
use deadflash.Base.{
  ℕ, ◌+◌, ◌≤◌, ◌≡◌, sym, ap, ◌∙◌, some, List, ◌++◌, length, take, drop, take-take, ◌==◌, ==_iff,
  if◌then◌else◌, some_inj,
}
use deadflash.Common.{done, err_io}
use deadflash.Common.Monad.{
  M, ◌>>=◌, ◌>>◌, pure, throw, through, through_require, through_last, pure-done,
}
use deadflash.Device.{File}
use deadflash.Device.Posix.{Os, Laws}
use deadflash.Device.Files.{read_at, write_at}
use deadflash.Device.Transfer.{read_at-content, read_at-done, write_at-before, write_at-done}

module _ (os : Os) where
  unfoldable pub read_exact : File → ℕ → ℕ → M os.World (List ℕ)
  read_exact file n at = do
    bytes ← read_at os file n at
    (if length bytes == n then pure tt else throw err_io)
    pure bytes

  unfoldable pub write_exact : File → List ℕ → ℕ → M os.World (Unit {0})
  write_exact file bytes at = do
    written ← write_at os file bytes at
    (if written == length bytes then pure tt else throw err_io)

module _ (os : Os) (laws : Laws os) (file : File) (fd : ℕ) (open_fd : file.handle ≡ some fd) where
  open laws use {content}

  -- A whole read returns the bytes at the offset, which the file has, and changes no file.
  pub read_exact-done :
      (n at : ℕ) (bytes : List ℕ) (w w' : os.World)
      → read_exact os file n at w ≡ (done bytes, w')
      → (bytes ≡ take n (drop at (content fd w)))
        × (length bytes ≡ n)
        × ((g : ℕ) → content g w' ≡ content g w)
  unfolding read_exact
  read_exact-done n at bytes w w' e = through _ _ e (λ got w1 e1 h1.
      let (full, h2) = through_require (length got == n) _ _ h1 in
      let (same, world) = pure-done h2 in
      let len : length got ≡ n = (==_iff (length got) n).0 full in
      let (fd', p, most, stored) = read_at-done os laws file n at got w w1 e1 in
      let fd_same = some_inj (sym p ∙ open_fd) in
      (
        sym same
            ∙ stored
            ∙ ap (λ k. take k (drop at (content fd' w))) len
            ∙ ap (λ d. take n (drop at (content d w))) fd_same,
        ap length (sym same) ∙ len,
        λ g.
            ap (content g) (sym world ∙ sym (ap (λ r. r.1) e1))
            ∙ read_at-content os laws g file n at w,
      ))

  -- A whole write leaves what stood before it, and its bytes at the offset.
  pub write_exact-done :
      (bytes : List ℕ) (at : ℕ) (w w' : os.World)
      → at ≤ length (content fd w)
      → write_exact os file bytes at w ≡ (done tt, w')
      → (at + length bytes ≤ length (content fd w'))
        × (take (at + length bytes) (content fd w') ≡ take at (content fd w) ++ bytes)
  unfolding write_exact
  write_exact-done bytes at w w' inside e = through _ _ e (λ written w1 e1 h1.
      let (full, world) = through_last (written == length bytes) _ h1 in
      let all : written ≡ length bytes = (==_iff written (length bytes)).0 full in
      let d = write_at-done os laws file fd at bytes w open_fd inside w1 (rw all at e1) in
      rw world at d)

  -- A whole write keeps what stands before its offset, and the file does not shrink.
  pub write_exact-keeps :
      (bytes : List ℕ) (k at : ℕ) (w w' : os.World)
      → k ≤ at
      → at ≤ length (content fd w)
      → write_exact os file bytes at w ≡ (done tt, w')
      → (take k (content fd w') ≡ take k (content fd w))
        × (length (content fd w) ≤ length (content fd w'))
  unfolding write_exact
  write_exact-keeps bytes k at w w' le inside e =
      through (write_at os file bytes at) _ e (λ written w1 e1 h1.
        let (full, world) = through_last (written == length bytes) _ h1 in
        let (before, grows) = write_at-before os laws file fd at bytes w open_fd inside in
        let there : content fd w' ≡ content fd (write_at os file bytes at w).1 =
          ap (content fd) (sym world ∙ sym (ap (λ r. r.1) e1)) in
        (
          ap (take k) there ∙ sym (take-take k at _ le) ∙ ap (take k) before ∙ take-take k at _ le,
          rw there grows,
        ))
