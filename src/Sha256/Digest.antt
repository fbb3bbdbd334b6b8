-- ===== src/Sha256/Digest.antt =====
-- The shape of a digest.
use deadflash.Base.{ℕ, ◌*◌, ◌≡◌, refl, ap, ◌∙◌, List, [], ◌∷◌, arith, length, All, IsByte}
use deadflash.Sha256.{Ctx, store_be32, digest_bytes, compress, final}

length-digest_bytes : (state : List ℕ) → length (digest_bytes state) ≡ 4 * length state
unfolding digest_bytes store_be32
length-digest_bytes [] = refl
length-digest_bytes (s ∷ state) = omega (arith, length-digest_bytes state)

digest_bytes-IsByte : (state : List ℕ) → All IsByte (digest_bytes state)
unfolding digest_bytes store_be32
digest_bytes-IsByte [] = tt
digest_bytes-IsByte (s ∷ state) =
    (omega arith, (omega arith, (omega arith, (omega arith, digest_bytes-IsByte state))))

length-compress : (state block : List ℕ) → length (compress state block) ≡ 8
unfolding compress
length-compress state block = refl

-- A digest has 32 bytes.
pub final-IsDigest : (ctx : Ctx) → (length (final ctx) ≡ 32) × All IsByte (final ctx)
unfolding final
final-IsDigest ctx =
    (length-digest_bytes _ ∙ ap (λ n. 4 * n) (length-compress _ _), digest_bytes-IsByte _)
