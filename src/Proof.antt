-- ===== src/Proof.antt =====
-- src/proof.c with include/deadflash/proof.h: a proof manifest holds the hash of each chunk of an image
-- under a Merkle root. A digest is a list of its 32 bytes, an array of digests a list of them.
pub mod Merkle
pub mod Binding
pub mod Load
pub mod Print
pub mod Create
pub mod Verify
pub mod Sound
pub mod Checked
pub mod Scanned
pub mod Accepted
pub mod Proven
pub mod Mismatch
pub mod Scan
pub mod Printed
pub mod Roundtrip
pub mod Hashed
pub mod Created
pub mod Stored
mod Tests
use deadflash.Base.{
  ℕ, zero, suc, ◌+◌, ◌-◌, ◌*◌, ◌/◌, ◌%◌, ◌^◌, ◌<◌, Bool, true, false, ◌||◌, not, List, [], ◌∷◌,
  ◌++◌, get_or, set, replicate, length, ltb, ◌==◌, if◌then◌else◌,
}
use deadflash.Common.{Outcome, done, failed, err_invalid_argument, err_too_large, err_no_memory}
use deadflash.Common.Monad.{M, ◌>>=◌, ◌>>◌, pure, throw, call}
use deadflash.Device.Posix.{Os}
use deadflash.Device.Stdio.{Stdio}
use deadflash.Sha256.{sha256_buffer}

-- DF_PROOF_MAX_CHUNKS and DF_PROOF_MAX_CHUNK_SIZE
abbrev pub max_chunks : ℕ
max_chunks = 4194304

abbrev pub max_chunk_size : ℕ
max_chunk_size = 1024 * 1024 * 1024

abbrev pub default_chunk_size : ℕ
default_chunk_size = 4 * 1024 * 1024

-- df_proof_summary
pub record Summary : Type 0 where
  pub source_size : ℕ
  pub chunk_size : ℕ
  pub chunk_count : ℕ
  pub source_sha256 : List ℕ
  pub merkle_root : List ℕ

-- df_proof_manifest
pub record Manifest : Type 0 where
  pub summary : Summary
  pub chunk_hashes : List (List ℕ)
  pub chunk_lengths : List ℕ

unfoldable pub merkle_parent : List ℕ → List ℕ → List ℕ
merkle_parent left right = sha256_buffer (0x01 ∷ left ++ right)

-- The inner loop of `merkle_root` from `i`, on the rounds that are left: the parents are written over
-- the front of the level that they are computed from.
unfoldable pub merkle_level : ℕ → ℕ → ℕ → List (List ℕ) → List (List ℕ)
unfolding merkle_parent
merkle_level zero i count level = level
merkle_level (suc rounds) i count level =
    let left = get_or level (i * 2) [] in
    let right = if ltb (i * 2 + 1) count then get_or level (i * 2 + 1) [] else left in
    merkle_level rounds (i + 1) count (set level i (merkle_parent left right))

-- `while (count > 1)`. A level with more than one node has fewer parents than nodes, so as many rounds
-- as there are leaves are enough.
unfoldable pub merkle_loop : ℕ → ℕ → List (List ℕ) → List (List ℕ)
unfolding merkle_level
merkle_loop zero count level = level
merkle_loop (suc fuel) count level = elim (ltb 1 count) [
  | Bool.true ↦ merkle_loop fuel ((count + 1) / 2) (merkle_level ((count + 1) / 2) 0 count level)
  | Bool.false ↦ level
]

module _ (os : Os) (stdio : Stdio os) where
  -- malloc that may return NULL
  abbrev pub allocate : ℕ → M os.World (Unit {0})
  allocate n = call (stdio.malloc n) >>= λ got. if got then pure tt else throw err_no_memory

  unfoldable pub merkle_root : List (List ℕ) → ℕ → M os.World (List ℕ)
  unfolding merkle_loop
  merkle_root leaves leaf_count =
      if leaf_count == 0 || ltb max_chunks leaf_count
      then throw err_invalid_argument
      else if ltb ((2 ^ 64 - 1) / 32) leaf_count
      then throw err_too_large
      else do
        allocate (leaf_count * 32)
        pure (get_or (merkle_loop leaf_count leaf_count leaves) 0 [])
