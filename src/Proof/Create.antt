-- ===== src/Proof/Create.antt =====
-- `df_proof_create` of src/proof.c.
use deadflash.Base.{
  ℕ, zero, suc, ◌+◌, ◌-◌, ◌*◌, ◌/◌, ◌^◌, Bool, ◌&&◌, ◌||◌, List, [], ◌∷◌, ◌++◌, get_or, ltb, ◌==◌,
  if◌then◌else◌, add64,
}
use deadflash.Common.{
  Outcome, done, failed, err_invalid_argument, err_too_small, err_too_large, err_open, err_io,
  err_no_memory,
}
use deadflash.Common.Monad.{M, ◌>>=◌, ◌>>◌, pure, throw, call}
use deadflash.Device.{File}
use deadflash.Device.Posix.{Os}
use deadflash.Device.Files.{open_source, close_file}
use deadflash.Device.Exact.{read_exact}
use deadflash.Device.Stdio.{Stdio}
use deadflash.Proof.{Summary, max_chunks, max_chunk_size, default_chunk_size, merkle_root}
use deadflash.Proof.Load.{chunks_of}
use deadflash.Proof.Print.{header_text, chunk_text, footer_text}
use deadflash.Sha256
use deadflash.Sha256.{sha256_buffer}

module _ (os : Os) (stdio : Stdio os) where
  -- The length of the chunk at an offset.
  abbrev pub piece : ℕ → ℕ → ℕ → ℕ
  piece size chunk_size offset =
      if ltb (size - offset) chunk_size then size - offset else chunk_size

  -- `while (offset < source.size_bytes)`, on the hashes so far. Each round takes a byte at least, so as
  -- many rounds as the source has bytes are enough.
  unfoldable pub create_loop :
      ℕ → File → ℕ → ℕ → Sha256.Ctx → List (List ℕ) → M os.World (Sha256.Ctx × List (List ℕ))
  create_loop zero source chunk_size offset ctx hashes = pure (ctx, hashes)
  create_loop (suc fuel) source chunk_size offset ctx hashes =
      let n = piece source.size_bytes chunk_size offset in
      elim (ltb offset source.size_bytes) [
        | Bool.false ↦ pure (ctx, hashes)
        | Bool.true ↦ read_exact os source n offset >>= λ bytes.
            create_loop fuel source chunk_size (add64 offset n) (Sha256.update ctx bytes)
              (hashes ++ sha256_buffer bytes ∷ [])
      ]

  unfoldable pub allocate_buffers : ℕ → ℕ → M os.World (Unit {0})
  allocate_buffers chunk_size count = do
    buffer ← call (stdio.malloc chunk_size)
    hashes ← call (stdio.malloc (count * 32))
    (if buffer && hashes then pure tt else throw err_no_memory)

  -- From the opened source to the root.
  unfoldable pub summarise : File → ℕ → M os.World (Summary × List (List ℕ))
  unfolding create_loop allocate_buffers merkle_root
  summarise source chunk_size = do
    (if source.size_bytes == 0 then throw err_too_small else pure tt)
    let count = chunks_of source.size_bytes chunk_size
    (if ltb max_chunks count || ltb ((2 ^ 64 - 1) / 32) count then throw err_too_large else pure tt)
    allocate_buffers chunk_size count
    hashed ← create_loop source.size_bytes source chunk_size 0 Sha256.init []
    root ← merkle_root os stdio hashed.1 count
    pure (
      record {
        source_size = source.size_bytes;
        chunk_size = chunk_size;
        chunk_count = count;
        source_sha256 = Sha256.final hashed.0;
        merkle_root = root;
      },
      hashed.1,
    )

  abbrev pub print_text : List ℕ → List ℕ → M os.World (Unit {0})
  print_text path text =
      call (stdio.print path text) >>= λ printed. if printed then pure tt else throw err_io

  -- The lines of the chunks from `i` on, as many as are left.
  unfoldable pub print_chunks : List ℕ → Summary → List (List ℕ) → ℕ → ℕ → M os.World (Unit {0})
  unfolding chunk_text
  print_chunks path s hashes zero i = pure tt
  print_chunks path s hashes (suc rounds) i =
      print_text path (chunk_text s i (get_or hashes i []) [])
      >> print_chunks path s hashes rounds (i + 1)

  unfoldable pub print_manifest : List ℕ → Summary → List (List ℕ) → M os.World (Unit {0})
  unfolding header_text print_chunks footer_text
  print_manifest path s hashes = do
    print_text path (header_text s [])
    print_chunks path s hashes s.chunk_count 0
    print_text path (footer_text s [])
    flushed ← call (stdio.fflush path)
    (if flushed then pure tt else throw err_io)

  -- The label `out` once the stream is open: it is closed, and its failure counts.
  unfoldable pub close_stream : List ℕ → Outcome (Unit {0}) → M os.World (Unit {0})
  close_stream path (failed e) w = (failed e, (stdio.fclose path w).1)
  close_stream path (done _) w =
      let (closed, w') = stdio.fclose path w in (if closed then done tt else failed err_io, w')

  unfoldable pub write_manifest : List ℕ → Summary → List (List ℕ) → M os.World (Unit {0})
  unfolding print_manifest close_stream
  write_manifest path s hashes = do
    created ← call (stdio.create path)
    (if created then pure tt else throw err_open)
    λ w. let (r, w') = print_manifest path s hashes w in close_stream path r w'

  -- The rest of the label `out`: a failure removes the file at the path, whoever wrote it.
  unfoldable pub clean_up : List ℕ → File → Outcome Summary × os.World → Outcome Summary × os.World
  unfolding close_file
  clean_up path source (failed e, w) = (failed e, (close_file os source (stdio.remove path w)).1)
  clean_up path source (done s, w) = (done s, (close_file os source w).1)

  abbrev pub created_proof : List ℕ → File → ℕ → M os.World Summary
  created_proof path source chunk_size = do
    summarised ← summarise source chunk_size
    write_manifest path summarised.0 summarised.1
    pure summarised.0

  unfoldable pub proof_create : List ℕ → List ℕ → ℕ → M os.World Summary
  unfolding open_source summarise write_manifest clean_up
  proof_create source_path manifest_path chunk_size_in =
      let chunk_size = if chunk_size_in == 0 then default_chunk_size else chunk_size_in in
      if ltb chunk_size 4096 || ltb max_chunk_size chunk_size
      then throw err_invalid_argument
      else (open_source os source_path >>= λ source w.
          clean_up manifest_path source (created_proof manifest_path source chunk_size w))
