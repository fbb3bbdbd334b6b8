-- ===== src/Proof/Mismatch.antt =====
-- What `df_proof_verify` of src/proof.c reports of a target that differs.
use deadflash.Base.{
  ℕ, suc, ◌+◌, ◌^◌, ◌<◌, ◌≡◌, ◌≢◌, refl, sym, ap, ◌∙◌, Bool, false, some, List, [], ◌∷◌, length,
  take, drop, get_or, ◌==◌, ==_iff, if◌then◌else◌, Bool-cases, inl, inr, arith, add64,
}
use deadflash.Common.{Status, done, failed, err_verify_mismatch, constant_time_equal}
use deadflash.Common.Monad.{◌>>=◌, ◌>>◌, pure, throw, then_done}
use deadflash.Device.{File}
use deadflash.Device.Posix.{Os, Laws}
use deadflash.Device.Exact.{read_exact, read_exact-done}
use deadflash.Pipeline.Checked.{sha256_buffer-IsDigest}
use deadflash.Proof.Checked.{same_digest}
use deadflash.Proof.Verify.{
  ProofResult, Check, io, set_result, target_mismatch, first_difference, bad_offset, check_target,
}
use deadflash.Sha256.{sha256_buffer}

-- The first place at which two buffers differ.
abbrev pub IsFirstDifference : List ℕ → List ℕ → ℕ → Type 0
IsFirstDifference a b k = (k < length a) × (take k a ≡ take k b) × (get_or a k 0 ≢ get_or b k 0)

differ_here : (x y : ℕ) (a b : List ℕ) → (x == y) ≡ false → IsFirstDifference (x ∷ a) (y ∷ b) 0
differ_here x y a b p = (omega arith, refl, λ e. ne x y p e)
  where
    ne : (x y : ℕ) → (x == y) ≡ false → x ≢ y
    ne x y p e = ground arith

differ_later :
    (x y k : ℕ) (a b : List ℕ)
    → x ≡ y
    → IsFirstDifference a b k
    → IsFirstDifference (x ∷ a) (y ∷ b) (suc k)
differ_later x y k a b e (lt, same, ne) = (omega arith, rw e (ap (λ t. y ∷ t) same), ne)

first_difference_lem :
    (a b : List ℕ)
    → length a ≡ length b
    → a ≢ b
    → (k : ℕ) × (first_difference a b ≡ some k) × IsFirstDifference a b k
unfolding first_difference
first_difference_lem [] [] n ne = absurd (ne refl)
first_difference_lem [] (y ∷ b) n ne = absurd (omega arith)
first_difference_lem (x ∷ a) [] n ne = absurd (omega arith)
first_difference_lem (x ∷ a) (y ∷ b) n ne = elim (Bool-cases (x == y)) [
  | inr p ↦ (0, rw (p, first_difference) refl, differ_here x y a b p)
  | inl p ↦
      let e : x ≡ y = (==_iff x y).0 p in
      let (k, found, first) = first_difference_lem a b (omega arith) (λ q. ne (λ i. e i ∷ q i)) in
      let next : k + 1 ≡ suc k = omega arith in
      (suc k, rw (p, first_difference, found) (ap some next), differ_later x y k a b e first)
]

-- A failed test records something, and fails.
recorded :
    {W : Type 0} (test : Bool) (f : ProofResult → ProofResult) (e : Status) (c : Check W)
    → test ≡ false
    → (if test then pure tt else (set_result f >> throw e)) c
      ≡ (failed e, record c { result = f c.result })
unfolding ◌>>=◌
recorded test f e c h = rw h refl

module _ (os : Os) (laws : Laws os) (target : File) (ft : ℕ)
    (open_t : target.handle ≡ some ft) where
  open laws use {content}

  -- Where the target's chunk can be read and its hash is not that of the source's, the check of the
  -- chunk fails with a mismatch, and reports the chunk, both hashes, and the offset in the file of
  -- the first byte of the chunk in which the target differs. This is for a chunk that ends below
  -- 2 ^ 64 and a system that keeps the laws.
  pub check_target_mismatch :
      (i at n : ℕ) (bytes copy : List ℕ) (c : Check os.World) (w : os.World)
      → length bytes ≡ n
      → at + n < 2 ^ 64
      → read_exact os target n at c.world ≡ (done copy, w)
      → sha256_buffer bytes ≢ sha256_buffer copy
      → (k : ℕ) × (c' : Check os.World) × (check_target os target i at n bytes c
          ≡ (failed err_verify_mismatch, c'))
        × IsFirstDifference bytes (take n (drop at (content ft c.world))) k
        × (c'.result.first_bad_offset ≡ at + k)
        × (c'.result.first_bad_chunk ≡ i)
        × (c'.result.expected_chunk_sha256 ≡ sha256_buffer bytes)
        × (c'.result.actual_chunk_sha256 ≡ sha256_buffer (take n (drop at (content ft c.world))))
        × (c'.result.final_state ≡ target_mismatch)
        × (c'.result.bytes_verified ≡ c.result.bytes_verified)
  unfolding check_target
  check_target_mismatch i at n bytes copy c w size small e ne =
      let (stored, len, kept) = read_exact-done os laws target ft open_t n at copy c.world w e in
      let (k, found, first) =
        first_difference_lem bytes copy (size ∙ sym len) (λ q. ne (ap sha256_buffer q)) in
      let (inside, same, differs) = first in
      let place : add64 at k ≡ at + k = omega arith in
      let unequal : constant_time_equal (sha256_buffer bytes) (sha256_buffer copy) ≡ false =
        elim (Bool-cases (constant_time_equal (sha256_buffer bytes) (sha256_buffer copy))) [
          | inl p ↦
              absurd (
                ne (same_digest _ _ (sha256_buffer-IsDigest bytes) (sha256_buffer-IsDigest copy) p))
          | inr p ↦ p
        ] in
      let c' : Check os.World = record c {
        world = w;
        result = record (c.result) {
          first_bad_chunk = i;
          expected_chunk_sha256 = sha256_buffer bytes;
          actual_chunk_sha256 = sha256_buffer copy;
          first_bad_offset = bad_offset at (first_difference bytes copy);
          final_state = target_mismatch;
        };
      } in
      (
        k,
        c',
        then_done (io (read_exact os target n at)) _ (ap (λ r. (r.0, record c { world = r.1 })) e)
            (recorded _ _ err_verify_mismatch (record c { world = w }) unequal),
        rw (← stored) first,
        rw found place,
        refl,
        refl,
        ap sha256_buffer stored,
        refl,
        refl,
      )
