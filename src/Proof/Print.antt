-- ===== src/Proof/Print.antt =====
-- The texts that `df_proof_create` prints: a header, a line for each chunk, and a footer.
use deadflash.Base.{ℕ, zero, suc, ◌+◌, List, [], ◌∷◌, ◌++◌, get_or}
use deadflash.Base.Texts.{codes, decimal}
use deadflash.Common.{hex_encode}
use deadflash.Proof.{Summary}
use deadflash.Proof.Load.{magic, chunk_length}

-- A key, a blank, a value and the end of the line.
unfoldable pub keyed : List ℕ → List ℕ → List ℕ → List ℕ
keyed key value rest = key ++ (b' ' ∷ (value ++ (b'\n' ∷ rest)))

unfoldable pub header_text : Summary → List ℕ → List ℕ
unfolding keyed
header_text s rest =
    magic
    ++ (b'\n'
        ∷ keyed (codes "source_size") (decimal s.source_size) (
            keyed (codes "chunk_size") (decimal s.chunk_size) (
              keyed (codes "chunk_count") (decimal s.chunk_count)
                (keyed (codes "source_sha256") (hex_encode s.source_sha256) rest))))

unfoldable pub chunk_text : Summary → ℕ → List ℕ → List ℕ → List ℕ
unfolding chunk_length
chunk_text s i hash rest =
    codes "chunk"
    ++ (b' '
        ∷ (decimal i
            ++ (b' '
                ∷ (decimal (chunk_length s i) ++ (b' ' ∷ (hex_encode hash ++ (b'\n' ∷ rest)))))))

unfoldable pub footer_text : Summary → List ℕ → List ℕ
unfolding keyed
footer_text s rest =
    keyed (codes "merkle_root") (hex_encode s.merkle_root) (codes "END" ++ (b'\n' ∷ rest))

-- The lines of the chunks from `i` on, as many as are left.
unfoldable pub chunks_text : Summary → List (List ℕ) → ℕ → ℕ → List ℕ → List ℕ
unfolding chunk_text
chunks_text s hashes zero i rest = rest
chunks_text s hashes (suc rounds) i rest =
    chunk_text s i (get_or hashes i []) (chunks_text s hashes rounds (i + 1) rest)
