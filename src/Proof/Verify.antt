-- ===== src/Proof/Verify.antt =====
-- `df_proof_verify` of src/proof.c: source and target are compared chunk by chunk with the manifest.
use deadflash.Base.{
  ℕ, zero, suc, ◌+◌, ◌-◌, ◌^◌, ◌≡◌, not, ◌&&◌, Option, none, some, List, [], ◌∷◌, get_or, replicate,
  ltb, ◌==◌, if◌then◌else◌, add64, mul64,
}
use deadflash.Common.{
  Outcome, done, err_identity_changed, err_verify_mismatch, err_too_small, err_too_large,
  err_no_memory, constant_time_equal,
}
use deadflash.Common.Monad.{M, ◌>>=◌, ◌>>◌, pure, throw, call, zoom, through_zoom}
use deadflash.Device.{File}
use deadflash.Device.Posix.{Os}
use deadflash.Device.Files.{open_source, close_file, file_reset}
use deadflash.Device.Exact.{read_exact}
use deadflash.Device.Stdio.{Stdio}
use deadflash.Proof.{Manifest}
use deadflash.Proof.Load.{manifest_load}
use deadflash.Sha256
use deadflash.Sha256.{sha256_buffer}

-- The texts of `final_state`.
pub data ProofState : Type 0 where
  failed_before_verify source_changed target_mismatch success_proven : ProofState

-- df_proof_result
pub record ProofResult : Type 0 where
  pub bytes_verified : ℕ
  pub chunks_verified : ℕ
  pub first_bad_chunk : ℕ
  pub first_bad_offset : ℕ
  pub expected_chunk_sha256 : List ℕ
  pub actual_chunk_sha256 : List ℕ
  pub final_state : ProofState

abbrev pub result_start : ProofResult
result_start = record {
  bytes_verified = 0;
  chunks_verified = 0;
  first_bad_chunk = 2 ^ 64 - 1;
  first_bad_offset = 2 ^ 64 - 1;
  expected_chunk_sha256 = replicate 32 0;
  actual_chunk_sha256 = replicate 32 0;
  final_state = failed_before_verify;
}

-- The local variables that outlive a failure, with the world.
pub record Check (W : Type 0) : Type 0 where
  pub world : W
  pub source : File
  pub target : File
  pub result : ProofResult

-- The first place where two buffers differ.
unfoldable pub first_difference : List ℕ → List ℕ → Option ℕ
first_difference [] right = none
first_difference (a ∷ left) [] = none
first_difference (a ∷ left) (b ∷ right) =
    if not (a == b)
    then some 0
    else elim (first_difference left right) [ none ↦ none | some i ↦ some (i + 1) ]

abbrev pub bad_offset : ℕ → Option ℕ → ℕ
bad_offset offset none = offset
bad_offset offset (some i) = add64 offset i

module _ {W : Type 0} where
  abbrev pub io : {A : Type 0} → M W A → M (Check W) A
  io = zoom (λ c. c.world) (λ w c. record c { world = w })

  pub through_io :
      {A B P : Type 0} (m : M W A) (f : A → M (Check W) B) {c c' : Check W} {b : B}
      → (io m >>= f) c ≡ (done b, c')
      → ((a : A) (w : W)
          → m c.world ≡ (done a, w)
          → f a (record c { world = w }) ≡ (done b, c')
          → P)
      → P
  through_io m f h k = through_zoom (λ c. c.world) (λ w c. record c { world = w }) m f h k

  abbrev pub set_result : (ProofResult → ProofResult) → M (Check W) (Unit {0})
  set_result f c = (done tt, record c { result = f c.result })

  abbrev pub set_source : File → M (Check W) (Unit {0})
  set_source file c = (done tt, record c { source = file })

  abbrev pub set_target : File → M (Check W) (Unit {0})
  set_target file c = (done tt, record c { target = file })

module _ (os : Os) where
  -- The chunk at `index`: the source against the manifest, then the target against the source.
  unfoldable pub check_source : File → ℕ → ℕ → ℕ → List ℕ → M (Check os.World) (List ℕ)
  check_source source index offset n expected = do
    bytes ← io (read_exact os source n offset)
    (if constant_time_equal (sha256_buffer bytes) expected
        then pure tt
        else (set_result (λ r. record r {
          first_bad_chunk = index;
          first_bad_offset = offset;
          final_state = source_changed;
        })
            >> throw err_identity_changed))
    pure bytes

  unfoldable pub check_target : File → ℕ → ℕ → ℕ → List ℕ → M (Check os.World) (Unit {0})
  unfolding first_difference
  check_target target index offset n bytes = do
    copy ← io (read_exact os target n offset)
    (if constant_time_equal (sha256_buffer bytes) (sha256_buffer copy)
        then pure tt
        else (set_result (λ r. record r {
          first_bad_chunk = index;
          expected_chunk_sha256 = sha256_buffer bytes;
          actual_chunk_sha256 = sha256_buffer copy;
          first_bad_offset = bad_offset offset (first_difference bytes copy);
          final_state = target_mismatch;
        })
            >> throw err_verify_mismatch))

  unfoldable pub check_chunk :
      File → File → Manifest → ℕ → Sha256.Ctx → M (Check os.World) Sha256.Ctx
  unfolding check_source check_target
  check_chunk source target m index ctx = do
    let offset = mul64 index m.summary.chunk_size
    let n = get_or m.chunk_lengths index 0
    bytes ← check_source source index offset n (get_or m.chunk_hashes index [])
    check_target target index offset n bytes
    set_result (λ r. record r {
      chunks_verified = r.chunks_verified + 1;
      bytes_verified = add64 r.bytes_verified n;
    })
    pure (Sha256.update ctx bytes)

  -- The chunks from `index` on, as many as are left.
  unfoldable pub check_chunks :
      File → File → Manifest → ℕ → ℕ → Sha256.Ctx → M (Check os.World) Sha256.Ctx
  unfolding check_chunk
  check_chunks source target m zero index ctx = pure ctx
  check_chunks source target m (suc rounds) index ctx =
      check_chunk source target m index ctx >>= check_chunks source target m rounds (index + 1)

  -- The hash of the whole source.
  unfoldable pub check_digest : List ℕ → List ℕ → M (Check os.World) (Unit {0})
  check_digest digest expected =
      if constant_time_equal digest expected
      then pure tt
      else (set_result (λ r. record r { final_state = source_changed })
          >> throw err_identity_changed)

  module _ (stdio : Stdio os) where
    unfoldable pub verify_buffers : ℕ → M os.World (Unit {0})
    verify_buffers chunk_size = do
      source_buffer ← call (stdio.malloc chunk_size)
      target_buffer ← call (stdio.malloc chunk_size)
      (if source_buffer && target_buffer then pure tt else throw err_no_memory)

    -- Once the manifest is loaded, up to the label `out`.
    unfoldable pub verify_loaded : List ℕ → List ℕ → Manifest → M (Check os.World) (Unit {0})
    unfolding check_chunks check_digest verify_buffers
    verify_loaded source_path target_path m = do
      source ← io (open_source os source_path)
      set_source source
      target ← io (open_source os target_path)
      set_target target
      (if source.size_bytes == m.summary.source_size then pure tt else throw err_identity_changed)
      (if not (target.size_bytes == 0) && ltb target.size_bytes m.summary.source_size
          then throw err_too_small
          else pure tt)
      (if ltb (2 ^ 64 - 1) m.summary.chunk_size then throw err_too_large else pure tt)
      io (verify_buffers m.summary.chunk_size)
      ctx ← check_chunks source target m m.summary.chunk_count 0 Sha256.init
      check_digest (Sha256.final ctx) m.summary.source_sha256
      set_result (λ r. record r { final_state = success_proven })

    abbrev pub proof_body : List ℕ → List ℕ → List ℕ → M (Check os.World) (Unit {0})
    proof_body manifest_path source_path target_path =
        io (manifest_load os stdio manifest_path) >>= verify_loaded source_path target_path

    -- The label `out`: both files are closed, whatever the outcome.
    unfoldable pub proof_verify :
        List ℕ → List ℕ → List ℕ → os.World → Outcome (Unit {0}) × Check os.World
    unfolding verify_loaded manifest_load close_file
    proof_verify manifest_path source_path target_path w =
        let start : Check os.World = record {
          world = w;
          source = file_reset;
          target = file_reset;
          result = result_start;
        } in
        let (r, c) = proof_body manifest_path source_path target_path start in
        let (source, w1) = close_file os c.source c.world in
        let (target, w2) = close_file os c.target w1 in
        (r, record c { world = w2; source = source; target = target })
