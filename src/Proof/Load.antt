-- ===== src/Proof/Load.antt =====
-- `manifest_load` of src/proof.c, with what fscanf does at %s and %lu. A number beyond 64 bits, which
-- the C standard leaves open in fscanf, is read as strtoull reads it.
use deadflash.Base.{
  ℕ, zero, suc, ◌+◌, ◌-◌, ◌*◌, ◌/◌, ◌%◌, ◌^◌, Bool, true, false, not, ◌&&◌, ◌||◌, Option, none,
  some, List, [], ◌∷◌, length, ltb, ◌==◌, if◌then◌else◌, add64, sub64, mul64,
}
use deadflash.Base.Texts.{codes, text_eq}
use deadflash.Common.{
  Outcome, done, failed, err_format, err_open, err_no_memory, err_too_large, constant_time_equal,
}
use deadflash.Common.Hex.{hex_decode_32}
use deadflash.Common.Monad.{M, ◌>>=◌, ◌>>◌, pure, throw, call}
use deadflash.Common.Parse.{is_space, is_digit, skip_spaces, read_digits}
use deadflash.Device.Posix.{Os}
use deadflash.Device.Stdio.{Stdio}
use deadflash.Proof.{Summary, Manifest, max_chunks, max_chunk_size, merkle_root}

-- The next characters that are no blanks, at most `most`, and what follows them.
unfoldable pub take_word : ℕ → List ℕ → List ℕ × List ℕ
take_word zero text = ([], text)
take_word (suc most) [] = ([], [])
take_word (suc most) (c ∷ text) = elim (is_space c) [
  | Bool.true ↦ ([], c ∷ text)
  | Bool.false ↦ let (word, rest) = take_word most text in (c ∷ word, rest)
]

abbrev pub filled : List ℕ × List ℕ → Outcome (List ℕ) × List ℕ
filled ([], rest) = (failed err_format, rest)
filled (c ∷ word, rest) = (done (c ∷ word), rest)

-- %s with a width, on the text that is left
unfoldable pub scan_word : ℕ → M (List ℕ) (List ℕ)
unfolding take_word skip_spaces
scan_word most text = filled (take_word most (skip_spaces text))

unfoldable pub scan_digits : Bool → M (List ℕ) ℕ
unfolding read_digits
scan_digits minus [] = (failed err_format, [])
scan_digits minus (c ∷ text) =
    let (n, rest) = read_digits 0 (c ∷ text) in
    if not (is_digit c)
    then (failed err_format, c ∷ text)
    else if not (ltb n (2 ^ 64))
    then (done (2 ^ 64 - 1), rest)
    else (done (if minus then (2 ^ 64 - n) % 2 ^ 64 else n), rest)

unfoldable pub scan_sign : M (List ℕ) ℕ
unfolding scan_digits
scan_sign [] = (failed err_format, [])
scan_sign (c ∷ text) =
    if c == b'+'
    then scan_digits false text
    else if c == b'-'
    then scan_digits true text
    else scan_digits false (c ∷ text)

-- %lu
unfoldable pub scan_u64 : M (List ℕ) ℕ
unfolding scan_sign skip_spaces
scan_u64 text = scan_sign (skip_spaces text)

abbrev pub require : {S : Type 0} → Bool → M S (Unit {0})
require c = if c then pure tt else throw err_format

abbrev pub decoded : {S : Type 0} → Option (List ℕ) → M S (List ℕ)
decoded none = throw err_format
decoded (some digest) = pure digest

-- "%63s %lu" and the comparison of the key
unfoldable pub scan_keyed_u64 : List ℕ → M (List ℕ) ℕ
unfolding scan_word scan_u64
scan_keyed_u64 expected = do
  key ← scan_word 63
  value ← scan_u64
  require (text_eq key expected)
  pure value

-- "%63s %127s", the comparison of the key and the decoding of the digest
unfoldable pub scan_keyed_digest : List ℕ → M (List ℕ) (List ℕ)
unfolding scan_word
scan_keyed_digest expected = do
  key ← scan_word 63
  text ← scan_word 127
  require (text_eq key expected)
  decoded (hex_decode_32 text)

abbrev pub scan_literal : List ℕ → M (List ℕ) (Unit {0})
scan_literal expected = scan_word 63 >>= λ text. require (text_eq text expected)

-- DF_PROOF_MAGIC
abbrev pub magic : List ℕ
magic = codes "DEADFLASH-PROOF-V1"

-- The limits that a header must keep.
unfoldable pub within_limits : Summary → Bool
within_limits s = not (
    s.source_size == 0
    || s.chunk_size == 0
    || ltb max_chunk_size s.chunk_size
    || s.chunk_count == 0
    || ltb max_chunks s.chunk_count)

abbrev pub chunks_of : ℕ → ℕ → ℕ
chunks_of size chunk_size = sub64 (add64 size chunk_size) 1 / chunk_size

-- Up to the checks of the limits; the root comes last in the text.
unfoldable pub scan_header : M (List ℕ) Summary
unfolding scan_keyed_u64 scan_keyed_digest within_limits
scan_header = do
  scan_literal magic
  source_size ← scan_keyed_u64 (codes "source_size")
  chunk_size ← scan_keyed_u64 (codes "chunk_size")
  chunk_count ← scan_keyed_u64 (codes "chunk_count")
  source_sha256 ← scan_keyed_digest (codes "source_sha256")
  let summary : Summary = record {
    source_size = source_size;
    chunk_size = chunk_size;
    chunk_count = chunk_count;
    source_sha256 = source_sha256;
    merkle_root = [];
  }
  require (within_limits summary)
  require (chunks_of source_size chunk_size == chunk_count)
  pure summary

-- The length that the chunk at `i` must have.
unfoldable pub chunk_length : Summary → ℕ → ℕ
chunk_length s i =
    if i + 1 == s.chunk_count then sub64 s.source_size (mul64 i s.chunk_size) else s.chunk_size

-- "%63s %lu %lu %127s" and the checks of one record
unfoldable pub scan_chunk : Summary → ℕ → M (List ℕ) (List ℕ × ℕ)
unfolding scan_word scan_u64 chunk_length
scan_chunk s i = do
  key ← scan_word 63
  index ← scan_u64
  length ← scan_u64
  text ← scan_word 127
  require (text_eq key (codes "chunk") && (index == i) && (length == chunk_length s i))
  digest ← decoded (hex_decode_32 text)
  pure (digest, length)

-- The records from `i` on, as many as are left.
unfoldable pub scan_chunks : Summary → ℕ → ℕ → M (List ℕ) (List (List ℕ) × List ℕ)
unfolding scan_chunk
scan_chunks s zero i = pure ([], [])
scan_chunks s (suc rounds) i = do
  chunk ← scan_chunk s i
  chunks ← scan_chunks s rounds (i + 1)
  pure (chunk.0 ∷ chunks.0, chunk.1 ∷ chunks.1)

-- The root and the end.
unfoldable pub scan_footer : M (List ℕ) (List ℕ)
unfolding scan_keyed_digest
scan_footer = do
  root ← scan_keyed_digest (codes "merkle_root")
  scan_literal (codes "END")
  pure root

-- A step of the scanner, with the text that it leaves.
abbrev pub scanned : {W A : Type 0} → M (List ℕ) A → List ℕ → M W (A × List ℕ)
scanned scanner text w =
    let (r, rest) = scanner text in (elim r [ done a ↦ done (a, rest) | failed e ↦ failed e ], w)

module _ (os : Os) (stdio : Stdio os) where
  -- Both arrays are allocated before either is tested.
  unfoldable pub allocate_arrays : ℕ → M os.World (Unit {0})
  allocate_arrays count = do
    hashes ← call (stdio.malloc (count * 32))
    lengths ← call (stdio.malloc (count * 8))
    (if hashes && lengths then pure tt else throw err_no_memory)

  abbrev pub opened_text : Option (List ℕ) → M os.World (List ℕ)
  opened_text none = throw err_open
  opened_text (some text) = pure text

  -- From the text on.
  unfoldable pub load_text : List ℕ → M os.World Manifest
  unfolding scan_header scan_chunks scan_footer allocate_arrays merkle_root
  load_text text = do
    header ← scanned scan_header text
    let summary = header.0
    (if ltb ((2 ^ 64 - 1) / 32) summary.chunk_count || ltb ((2 ^ 64 - 1) / 8) summary.chunk_count
        then throw err_too_large
        else pure tt)
    allocate_arrays summary.chunk_count
    chunks ← scanned (scan_chunks summary summary.chunk_count 0) header.1
    footer ← scanned scan_footer chunks.1
    computed ← merkle_root os stdio chunks.0.0 summary.chunk_count
    require (constant_time_equal computed footer.0)
    pure (record {
      summary = record summary { merkle_root = footer.0 };
      chunk_hashes = chunks.0.0;
      chunk_lengths = chunks.0.1;
    })

  unfoldable pub manifest_load : List ℕ → M os.World Manifest
  unfolding load_text
  manifest_load path = do
    stream ← call (stdio.read_text path)
    text ← opened_text stream
    load_text text
