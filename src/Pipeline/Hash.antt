-- ===== src/Pipeline/Hash.antt =====
-- `df_hash_file_region_progress` and `df_hash_source_path` of src/pipeline.c.
use deadflash.Base.{
  ℕ, zero, suc, ◌-◌, Bool, List, ◌||◌, take, length, ltb, ◌==◌, if◌then◌else◌, add64,
}
use deadflash.Common.{
  Outcome, done, failed, err_invalid_argument, err_too_large, err_io, err_internal,
}
use deadflash.Common.Monad.{M, ◌>>=◌, ◌>>◌, pure, throw}
use deadflash.Device.{File}
use deadflash.Device.Posix.{Os}
use deadflash.Device.Files.{read_at}
use deadflash.Pipeline.{Run, Phase, io, notify, give, round_up, aligned_alloc}
use deadflash.Sha256

-- What a round asks `df_read_at` for: whole sectors under direct I/O.
unfoldable pub request_size : File → ℕ → ℕ → ℕ → Outcome ℕ
request_size file alignment allocation wanted =
    if file.direct_io
    then (let request = round_up wanted alignment in
        if request == 0 || ltb allocation request then failed err_internal else done request)
    else done wanted

module _ (os : Os) where
  -- One round of the loop at `offset`, on `wanted` bytes.
  unfoldable pub hash_round :
      File → ℕ → ℕ → ℕ → Phase → ℕ → ℕ → Sha256.Ctx → M (Run os.World) Sha256.Ctx
  hash_round file size alignment allocation phase wanted offset ctx = do
    request ← give (request_size file alignment allocation wanted)
    bytes ← io (read_at os file request offset)
    (if ltb (length bytes) wanted then throw err_io else pure tt)
    notify phase (add64 offset wanted) size
    pure (Sha256.update ctx (take wanted bytes))

  -- `while (offset < length)` on the context so far. Each round takes a byte at least, so `length`
  -- rounds are enough.
  unfoldable pub hash_loop :
      ℕ → File → ℕ → ℕ → ℕ → Phase → ℕ → Sha256.Ctx → M (Run os.World) Sha256.Ctx
  hash_loop zero file size buffer_size allocation phase offset ctx = pure ctx
  hash_loop (suc fuel) file size buffer_size allocation phase offset ctx =
      let alignment = if file.alignment == 0 then 512 else file.alignment in
      let wanted = if ltb (size - offset) buffer_size then size - offset else buffer_size in
      elim (ltb offset size) [
        | Bool.false ↦ pure ctx
        | Bool.true ↦
            hash_round file size alignment allocation phase wanted offset ctx
            >>= hash_loop fuel file size buffer_size allocation phase (add64 offset wanted)
      ]

  unfoldable pub hash_file_region_progress : File → ℕ → ℕ → Phase → M (Run os.World) (List ℕ)
  unfolding hash_loop
  hash_file_region_progress file size buffer_size phase =
      let alignment = if file.alignment == 0 then 512 else file.alignment in
      let allocation = round_up buffer_size alignment in
      if buffer_size == 0
      then throw err_invalid_argument
      else if allocation == 0
      then throw err_too_large
      else do
        io (aligned_alloc os alignment allocation)
        notify phase 0 size
        ctx ← hash_loop size file size buffer_size allocation phase 0 Sha256.init
        pure (Sha256.final ctx)
