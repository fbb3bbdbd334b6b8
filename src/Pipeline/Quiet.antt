-- ===== src/Pipeline/Quiet.antt =====
-- Opening and hashing a file does not fail with DF_ERR_VERIFY_MISMATCH (src/device.c, src/pipeline.c).
use deadflash.Base.{
  arith, ℕ, zero, suc, ◌==◌, ◌≡◌, ◌≢◌, sym, ap, false, true, Option, none, some, List, length,
  Bool-cases, Option-cases, inl, inr, if◌then◌else◌, ltb, Bool,
}
use deadflash.Common.{
  Status, done, failed, failed≢done, err_verify_mismatch, err_io, err_open, err_unsupported,
  err_invalid_argument, err_too_large,
}
use deadflash.Common.Avoids.{
  Avoids, bind-Avoids, zoom-Avoids, pure-Avoids, throw-Avoids, call-Avoids, past_zoom, failed_inj,
}
use deadflash.Common.Monad.{M, ◌>>=◌, ◌>>◌, throw, pure}
use deadflash.Device.{File}
use deadflash.Device.Posix.{
  Os, Io, transferred, interrupted, io_failed, Stat, stat_missing, stat_failed, is_block, is_char,
  is_other, is_regular, Opened, opened, open_invalid, open_failed,
}
use deadflash.Device.Files.{
  io_result, read_at, source_block, source_kind, source_opened, open_source,
}
use deadflash.Pipeline.{Run, Phase, io, notify, give, aligned_alloc, round_up}
use deadflash.Pipeline.Hash.{request_size, hash_round, hash_loop, hash_file_region_progress}
use deadflash.Sha256

abbrev pub Quiet : {S A : Type 0} → M S A → Type 0
Quiet m = Avoids err_verify_mismatch m

-- A call whose ends are all known.
io_result-Quiet : {S A : Type 0} (r : Io A × S) → (io_result r).0 ≢ failed err_verify_mismatch
io_result-Quiet (transferred a, w) e = failed≢done (sym e)
io_result-Quiet (interrupted, w) e = cc
io_result-Quiet (io_failed, w) e = cc

module _ (os : Os) where
  open_failure :
      {A : Type 0} (fd : ℕ) (x : Status)
      → x ≢ err_verify_mismatch
      → Quiet {A = A} (λ (w : os.World). (failed x, os.close fd w))
  open_failure fd x other = record { avoid = λ w e. other (failed_inj e) }

  source_block-Quiet :
      (fd : ℕ) (path : List ℕ) (size : Option ℕ) → Quiet (source_block os fd path size)
  unfolding source_block
  source_block-Quiet fd path none = open_failure fd err_io (λ e. cc)
  source_block-Quiet fd path (some bytes) = pure-Avoids _

  source_kind-Quiet : (fd : ℕ) (path : List ℕ) (kind : Stat) → Quiet (source_kind os fd path kind)
  unfolding source_kind
  source_kind-Quiet fd path (is_regular size) = pure-Avoids _
  source_kind-Quiet fd path is_block =
      bind-Avoids (call-Avoids (os.block_size fd)) (source_block-Quiet fd path)
  source_kind-Quiet fd path stat_failed = open_failure fd err_io (λ e. cc)
  source_kind-Quiet fd path stat_missing = open_failure fd err_io (λ e. cc)
  source_kind-Quiet fd path is_char = open_failure fd err_unsupported (λ e. cc)
  source_kind-Quiet fd path is_other = open_failure fd err_unsupported (λ e. cc)

  source_opened-Quiet : (path : List ℕ) (handle : Opened) → Quiet (source_opened os path handle)
  unfolding source_opened
  source_opened-Quiet path (opened fd) =
      bind-Avoids (call-Avoids (os.fstat fd)) (source_kind-Quiet fd path)
  source_opened-Quiet path open_invalid = throw-Avoids err_open (λ e. cc)
  source_opened-Quiet path open_failed = throw-Avoids err_open (λ e. cc)

  pub open_source-Quiet : (path : List ℕ) → Quiet (open_source os path)
  unfolding open_source
  open_source-Quiet path = bind-Avoids (call-Avoids (os.open_read path)) (source_opened-Quiet path)

  read_at-Quiet : (file : File) (n at : ℕ) → Quiet (read_at os file n at)
  unfolding read_at
  read_at-Quiet file n at = elim (Option-cases file.handle) [
    | inl p ↦ record { avoid = λ w e. cc (rw (p, read_at) at e) }
    | inr (fd, p) ↦ record { avoid = λ w. rw (p, read_at) (io_result-Quiet _) }
  ]

  aligned_alloc-Quiet : (a n : ℕ) → Quiet (aligned_alloc os a n)
  unfolding aligned_alloc
  aligned_alloc-Quiet a n = record { avoid = λ w. (λ e. ground arith) }

  pub io-Quiet : {A : Type 0} {m : M os.World A} → Quiet m → Quiet (io m)
  io-Quiet h = zoom-Avoids (λ run. run.world) (λ w run. record run { world = w }) h

  request_size-Quiet :
      (file : File) (alignment allocation wanted : ℕ)
      → Quiet {S = Run os.World} (give (request_size file alignment allocation wanted))
  unfolding request_size
  request_size-Quiet file alignment allocation wanted = record { avoid = λ w e. ground arith }

  guard-Quiet :
      {S : Type 0} (c : Bool) (x : Status)
      → x ≢ err_verify_mismatch
      → Quiet {S = S} (if c then throw x else pure tt)
  guard-Quiet true x other = throw-Avoids x other
  guard-Quiet false x other = pure-Avoids tt

  notify-Quiet :
      (phase : Phase) (completed total : ℕ)
      → Quiet {S = Run os.World} (notify phase completed total)
  notify-Quiet phase completed total = record { avoid = λ w e. failed≢done (sym e) }

  hash_round-Quiet :
      (file : File) (size alignment allocation : ℕ) (phase : Phase) (wanted offset : ℕ)
      (ctx : Sha256.Ctx)
      → Quiet (hash_round os file size alignment allocation phase wanted offset ctx)
  unfolding hash_round
  hash_round-Quiet file size alignment allocation phase wanted offset ctx =
      bind-Avoids (request_size-Quiet file alignment allocation wanted) (λ request.
        bind-Avoids (io-Quiet (read_at-Quiet file request offset)) (λ bytes.
          bind-Avoids (guard-Quiet (ltb (length bytes) wanted) err_io (λ e. cc))
            (λ u. bind-Avoids (notify-Quiet phase _ size) (λ u. pure-Avoids _))))

  hash_loop-Quiet :
      (fuel : ℕ) (file : File) (size buffer_size allocation : ℕ) (phase : Phase) (offset : ℕ)
      (ctx : Sha256.Ctx)
      → Quiet (hash_loop os fuel file size buffer_size allocation phase offset ctx)
  unfolding hash_loop
  hash_loop-Quiet zero file size buffer_size allocation phase offset ctx = pure-Avoids ctx
  hash_loop-Quiet (suc fuel) file size buffer_size allocation phase offset ctx =
      elim (Bool-cases (ltb offset size)) [
        | inr p ↦ rw (p, hash_loop) (pure-Avoids ctx)
        | inl p ↦
            rw (p, hash_loop)
              (bind-Avoids (hash_round-Quiet file size _ allocation phase _ offset ctx)
                (hash_loop-Quiet fuel file size buffer_size allocation phase _))
      ]

  pub hash_file_region_progress-Quiet :
      (file : File) (size buffer_size : ℕ) (phase : Phase)
      → Quiet (hash_file_region_progress os file size buffer_size phase)
  unfolding hash_file_region_progress
  hash_file_region_progress-Quiet file size buffer_size phase =
      elim (Bool-cases (buffer_size == 0)) [
        | inl p ↦ rw (p, hash_file_region_progress) (throw-Avoids err_invalid_argument (λ e. cc))
        | inr p ↦
            elim (Bool-cases
              (round_up buffer_size (if file.alignment == 0 then 512 else file.alignment) == 0)) [
                | inl q ↦
                    rw (p, q, hash_file_region_progress) (throw-Avoids err_too_large (λ e. cc))
                | inr q ↦
                    rw (p, q, hash_file_region_progress)
                      (bind-Avoids (io-Quiet (aligned_alloc-Quiet _ _)) (λ u.
                        bind-Avoids (notify-Quiet phase 0 size) (λ u.
                          bind-Avoids
                            (hash_loop-Quiet size file size buffer_size _ phase 0 Sha256.init)
                            (λ ctx. pure-Avoids _))))
              ]
      ]

-- What follows a call of the device layer, and a guard, in a run that ended in a mismatch.
pub past_io :
    {W A B P : Type 0} (m : M W A) (f : A → M (Run W) B) {run run' : Run W}
    → Quiet m
    → (io m >>= f) run ≡ (failed err_verify_mismatch, run')
    → ((a : A) (w : W)
        → m run.world ≡ (done a, w)
        → f a (record run { world = w }) ≡ (failed err_verify_mismatch, run')
        → P)
    → P
past_io = past_zoom (λ run. run.world) (λ w run. record run { world = w })

pub past_guard :
    {S B : Type 0} (c : Bool) (x : Status) (k : M S B) {s s' : S}
    → x ≢ err_verify_mismatch
    → ((if c then throw x else pure tt) >> k) s ≡ (failed err_verify_mismatch, s')
    → k s ≡ (failed err_verify_mismatch, s')
unfolding ◌>>=◌
past_guard true x k other e = absurd (other (failed_inj (ap (λ r. r.0) e)))
past_guard false x k other e = e
