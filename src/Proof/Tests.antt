-- ===== src/Proof/Tests.antt =====
-- Runs of src/proof.c on files in memory, and its theorems on them.
use deadflash.Base.{
  ◌+◌, ℕ, zero, suc, ◌<◌, ◌≡◌, refl, List, [], ◌∷◌, ◌++◌, get_or, arith, ◌⊎◌, false, sym, ap, ◌∙◌,
  drop, take, some,
}
use mathlib.Core.Bool.{false≢true}
use deadflash.Base.Texts.{decimal, text_eq, text_eq_self}
use deadflash.Common.{
  Outcome, done, failed, err_identity_changed, hex_encode, constant_time_equal, err_verify_mismatch,
}
use deadflash.Common.Hex.{hex_decode_32}
use deadflash.Common.Monad.{◌>>=◌}
use deadflash.Common.Parse.{skip_spaces, read_digits}
use deadflash.Device.{File}
use deadflash.Device.Disk.{Disk, disk_os, disk_laws}
use deadflash.Device.Exact.{read_exact}
use deadflash.Device.Files.{
  open_source, read_at, close_file, pread_loop, source_kind, source_opened,
}
use deadflash.Device.Streams.{disk_stdio, disk_stdio_laws, disk_texts}
use deadflash.Proof.{Summary, Manifest, merkle_parent, merkle_level, merkle_loop, merkle_root}
use deadflash.Proof.Accepted.{manifest_load-IsSound}
use deadflash.Proof.Binding.{AreDigests, Collides, merkle_root_binds}
use deadflash.Proof.Create.{
  create_loop, allocate_buffers, summarise, print_chunks, print_manifest, close_stream,
  write_manifest, clean_up, proof_create,
}
use deadflash.Proof.Load.{
  take_word, scan_word, scan_digits, scan_sign, scan_u64, scan_keyed_u64, scan_keyed_digest,
  within_limits, scan_header, chunk_length, scan_chunk, scan_chunks, scan_footer, allocate_arrays,
  load_text, manifest_load,
}
use deadflash.Proof.Mismatch.{IsFirstDifference, check_target_mismatch}
use deadflash.Proof.Merkle.{parents, root, at, merkle_root-root}
use deadflash.Proof.Print.{keyed, header_text, chunk_text, chunks_text, footer_text}
use deadflash.Proof.Roundtrip.{manifest_text, load_text-manifest_text}
use deadflash.Proof.Verify.{
  result_start, ProofResult, target_mismatch, Check, first_difference, check_source, check_target,
  check_chunk, check_chunks, check_digest, verify_buffers, verify_loaded, proof_verify,
}
use deadflash.Pipeline.Checked.{sha256_buffer-IsDigest}
use deadflash.Proof.Proven.{IsProven, proof_verify-done}
use deadflash.Proof.Sound.{IsSound}
use deadflash.Proof.Stored.{IsManifestOf, proof_create-done, manifest_load-proof_create}
use deadflash.Sha256.{sha256_buffer, program}

-- A run names this on its `unfolding` line.
unfoldable whole_program : Unit {0}
unfolding take_word scan_word scan_digits scan_sign scan_u64 scan_keyed_u64 scan_keyed_digest
    within_limits scan_header chunk_length scan_chunk scan_chunks scan_footer allocate_arrays
    load_text manifest_load keyed header_text chunk_text chunks_text footer_text create_loop
    allocate_buffers summarise print_chunks print_manifest close_stream write_manifest clean_up
    proof_create first_difference check_source check_target check_chunk check_chunks check_digest
    verify_buffers verify_loaded proof_verify merkle_parent merkle_level merkle_loop merkle_root
    hex_decode_32 skip_spaces read_digits read_exact open_source read_at close_file pread_loop
    source_kind source_opened decimal hex_encode constant_time_equal ◌>>=◌ program
whole_program = tt

abbrev source_path : List ℕ
source_path = b's' ∷ []

abbrev target_path : List ℕ
target_path = b't' ∷ []

abbrev manifest_path : List ℕ
manifest_path = b'm' ∷ []

abbrev two_hashes : List (List ℕ)
two_hashes = sha256_buffer (1 ∷ 2 ∷ []) ∷ sha256_buffer (3 ∷ []) ∷ []

-- Three bytes in chunks of two.
abbrev two_chunks : Manifest
two_chunks = record {
  summary = record {
    source_size = 3;
    chunk_size = 2;
    chunk_count = 2;
    source_sha256 = sha256_buffer (1 ∷ 2 ∷ 3 ∷ []);
    merkle_root = merkle_parent (sha256_buffer (1 ∷ 2 ∷ [])) (sha256_buffer (3 ∷ []));
  };
  chunk_hashes = two_hashes;
  chunk_lengths = 2 ∷ 1 ∷ [];
}

abbrev written_before : Disk
written_before = record {
  source = 1 ∷ 2 ∷ 3 ∷ [];
  target = 1 ∷ 2 ∷ 3 ∷ 9 ∷ [];
  note = manifest_text two_chunks;
}

loaded_run :
    manifest_load disk_os disk_stdio manifest_path written_before
    ≡ (done two_chunks, written_before)
unfolding whole_program
loaded_run = refl

manifest_load-IsSound_example : IsSound two_chunks
manifest_load-IsSound_example =
    manifest_load-IsSound disk_os disk_stdio manifest_path two_chunks written_before written_before
      loaded_run

-- The same bytes in chunks of the least size that the format allows.
abbrev one_chunk : Manifest
one_chunk = record {
  summary = record {
    source_size = 3;
    chunk_size = 4096;
    chunk_count = 1;
    source_sha256 = sha256_buffer (1 ∷ 2 ∷ 3 ∷ []);
    merkle_root = sha256_buffer (1 ∷ 2 ∷ 3 ∷ []);
  };
  chunk_hashes = sha256_buffer (1 ∷ 2 ∷ 3 ∷ []) ∷ [];
  chunk_lengths = 3 ∷ [];
}

abbrev one_chunk_before : Disk
one_chunk_before = record written_before { note = manifest_text one_chunk }

one_chunk_run :
    manifest_load disk_os disk_stdio manifest_path one_chunk_before
    ≡ (done one_chunk, one_chunk_before)
unfolding whole_program
one_chunk_run = refl

load_text-manifest_text_example :
    (w' : Disk) × (load_text disk_os disk_stdio (manifest_text one_chunk) one_chunk_before
      ≡ (done one_chunk, w'))
load_text-manifest_text_example =
    load_text-manifest_text disk_os disk_stdio (λ n v. refl) one_chunk one_chunk_before
      (manifest_load-IsSound disk_os disk_stdio manifest_path one_chunk one_chunk_before
        one_chunk_before one_chunk_run)
      (omega arith)

abbrev proved : Outcome (Unit {0}) × Check Disk
proved = proof_verify disk_os disk_stdio manifest_path source_path target_path written_before

proved_done : proved.0 ≡ done tt
unfolding whole_program
proved_done = refl

proof_verify-done_example :
    (m : Manifest) × (source : File) × (target : File) × (w0 : Disk) × (w1 : Disk) × (w2 : Disk)
    × (manifest_load disk_os disk_stdio manifest_path written_before ≡ (done m, w0))
    × IsSound m
    × (open_source disk_os source_path w0 ≡ (done source, w1))
    × (open_source disk_os target_path w1 ≡ (done target, w2))
    × IsProven disk_os disk_laws disk_stdio disk_stdio_laws m source target w2 proved.1.result
proof_verify-done_example =
    proof_verify-done disk_os disk_laws disk_stdio disk_stdio_laws manifest_path source_path
      target_path written_before proved.1 (λ i. (proved_done i, proved.1))

-- A target that differs in the second chunk, and a source that does.
abbrev wrong_target : ProofResult
wrong_target =
    (proof_verify disk_os disk_stdio manifest_path source_path target_path
      (record written_before { target = 1 ∷ 2 ∷ 4 ∷ [] })).1.result

wrong_target_place :
    (wrong_target.first_bad_chunk ≡ 1)
    × (wrong_target.first_bad_offset ≡ 2)
    × (wrong_target.bytes_verified ≡ 2)
    × (wrong_target.final_state ≡ target_mismatch)
unfolding whole_program
wrong_target_place = (refl, refl, refl, refl)

wrong_source :
    (proof_verify disk_os disk_stdio manifest_path source_path target_path
      (record written_before { source = 1 ∷ 2 ∷ 4 ∷ [] })).0
    ≡ failed err_identity_changed
unfolding whole_program
wrong_source = refl

abbrev created : Outcome Summary × Disk
created = proof_create disk_os disk_stdio source_path manifest_path 4096 written_before

abbrev created_summary : Summary
created_summary = record {
  source_size = 3;
  chunk_size = 4096;
  chunk_count = 1;
  source_sha256 = sha256_buffer (1 ∷ 2 ∷ 3 ∷ []);
  merkle_root = sha256_buffer (1 ∷ 2 ∷ 3 ∷ []);
}

created_done : created.0 ≡ done created_summary
unfolding whole_program
created_done = refl

proof_create-done_example :
    (m : Manifest) × (w1 : Disk) × (m.summary ≡ created_summary)
    × IsManifestOf disk_laws m source_path 4096 written_before w1
    × (disk_texts.file manifest_path created.1 ≡ manifest_text m)
proof_create-done_example =
    proof_create-done disk_os disk_laws disk_stdio disk_stdio_laws disk_texts source_path
      manifest_path 4096 created_summary written_before created.1 (λ i. (created_done i, created.1))

manifest_load-proof_create_example :
    (m : Manifest) × (w1 : Disk) × (w3 : Disk) × (manifest_load disk_os disk_stdio manifest_path
        created.1
      ≡ (done m, w3))
    × (m.summary ≡ created_summary)
    × IsManifestOf disk_laws m source_path 4096 written_before w1
manifest_load-proof_create_example =
    manifest_load-proof_create disk_os disk_laws disk_stdio disk_stdio_laws disk_texts source_path
      manifest_path 4096 created_summary created.1.note written_before created.1 created.1
      (λ n v. refl) (λ i. (created_done i, created.1)) refl

-- Three leaves: the last one is its own neighbour.
abbrev three_leaves : List (List ℕ)
three_leaves = two_hashes ++ sha256_buffer [] ∷ []

abbrev three_root : List ℕ
three_root =
    merkle_parent (merkle_parent (sha256_buffer (1 ∷ 2 ∷ [])) (sha256_buffer (3 ∷ [])))
      (merkle_parent (sha256_buffer []) (sha256_buffer []))

three_run :
    merkle_root disk_os disk_stdio three_leaves 3 written_before ≡ (done three_root, written_before)
unfolding merkle_root merkle_loop merkle_level ◌>>=◌
three_run = refl

merkle_root-root_example :
    (three_root ≡ root 3 (at three_leaves))
    × (0 < 3)
    × (root 1 (at three_leaves) ≡ at three_leaves 0)
    × (1 < 3 → root 3 (at three_leaves) ≡ root 2 (parents 3 (at three_leaves)))
merkle_root-root_example =
    merkle_root-root disk_os disk_stdio three_leaves 3 three_root written_before written_before
      (omega arith) three_run

three_digests : AreDigests 3 (at three_leaves)
three_digests zero h = (sha256_buffer-IsDigest (1 ∷ 2 ∷ [])).0
three_digests (suc zero) h = (sha256_buffer-IsDigest (3 ∷ [])).0
three_digests (suc (suc zero)) h = (sha256_buffer-IsDigest []).0
three_digests (suc (suc (suc j))) h = absurd (omega arith)

merkle_root_binds_example :
    ((j : ℕ) → j < 3 → get_or three_leaves j [] ≡ get_or three_leaves j [])
    ⊎ Collides 3 3 (at three_leaves) (at three_leaves)
merkle_root_binds_example =
    merkle_root_binds disk_os disk_stdio 3 three_leaves three_leaves three_root written_before
      written_before written_before written_before (omega arith) (omega arith) three_digests
      three_digests three_run three_run

-- The second chunk of a target that differs in its only byte.
abbrev opened_target : File
opened_target = record {
  handle = some 1;
  path = target_path;
  size_bytes = 3;
  alignment = 512;
  writable = false;
  direct_io = false;
  is_device = false;
}

abbrev at_second_chunk : Check Disk
at_second_chunk = record {
  world = record written_before { target = 1 ∷ 2 ∷ 4 ∷ [] };
  source = opened_target;
  target = opened_target;
  result = result_start;
}

second_read :
    read_exact disk_os opened_target 1 2 at_second_chunk.world
    ≡ (done (4 ∷ []), at_second_chunk.world)
unfolding whole_program
second_read = refl

hashes_differ : text_eq (sha256_buffer (3 ∷ [])) (sha256_buffer (4 ∷ [])) ≡ false
unfolding whole_program
hashes_differ = refl

check_target_mismatch_example :
    (k : ℕ) × (c' : Check Disk) × (check_target disk_os opened_target 1 2 1 (3 ∷ []) at_second_chunk
      ≡ (failed err_verify_mismatch, c'))
    × IsFirstDifference (3 ∷ []) (take 1 (drop 2 (disk_laws.content 1 at_second_chunk.world))) k
    × (c'.result.first_bad_offset ≡ 2 + k)
    × (c'.result.first_bad_chunk ≡ 1)
    × (c'.result.expected_chunk_sha256 ≡ sha256_buffer (3 ∷ []))
    × (c'.result.actual_chunk_sha256
        ≡ sha256_buffer (take 1 (drop 2 (disk_laws.content 1 at_second_chunk.world))))
    × (c'.result.final_state ≡ target_mismatch)
    × (c'.result.bytes_verified ≡ 0)
check_target_mismatch_example =
    check_target_mismatch disk_os disk_laws opened_target 1 refl 1 2 1 (3 ∷ []) (4 ∷ [])
      at_second_chunk at_second_chunk.world refl (omega arith) second_read
      (λ e. false≢true (
        sym hashes_differ
        ∙ ap (text_eq (sha256_buffer (3 ∷ []))) (sym e)
        ∙ text_eq_self (sha256_buffer (3 ∷ []))))
