-- ===== src/Sha256/Padding.antt =====
-- What `df_sha256_final` adds: the padding of FIPS 180-4, section 5.1.1, and the chain of blocks of
-- section 6.2.2, written down without a buffer.
use deadflash.Base.{
  ℕ, zero, suc, ◌+◌, ◌-◌, ◌*◌, ◌/◌, ◌%◌, ◌≡◌, refl, sym, ap, ap₂, ◌∙◌, List, [], ◌∷◌, ◌++◌, foldl,
  arith, take-set, append-nil, length, take, drop, set, replicate, add64, mul64, length-append,
  length-take, length-drop, take-append-drop, length-set, length-replicate, foldl-append,
  append_assoc, take_all,
}
use deadflash.Sha256.{
  Ctx, init, compress, memcpy, update, count_bytes, digest_bytes, final, sha256_buffer,
}
use deadflash.Sha256.Stream.{
  push_byte, update-foldl, foldl-push-IsReady, foldl-push_shape, bit_count-foldl, init-IsReady,
}
use deadflash.Sha256.Final.{length-count_bytes, foldl-push_block, final-push}

-- One bit 1, then zeros up to 8 bytes short of a block, then the length in bits.
pub padding : ℕ → List ℕ
padding n = 0x80 ∷ replicate ((119 - n % 64) % 64) 0 ++ count_bytes (mul64 n 8)

-- The first `n` blocks of 64 bytes.
pub blocks : ℕ → List ℕ → List (List ℕ)
blocks zero bytes = []
blocks (suc n) bytes = take 64 bytes ∷ blocks n (drop 64 bytes)

-- SHA-256 of a message: the padded message, block by block.
pub sha256_spec : List ℕ → List ℕ
unfolding padding blocks
sha256_spec message =
    let padded = message ++ padding (length message) in
    digest_bytes (foldl compress init.state (blocks (length padded / 64) padded))

memcpy_end :
    (buffer bytes : List ℕ) (at : ℕ)
    → length buffer ≡ at + length bytes
    → memcpy buffer at bytes ≡ take at buffer ++ bytes
unfolding memcpy
memcpy_end buffer [] at h = sym (rw append-nil (take_all at buffer (omega arith)))
memcpy_end buffer (b ∷ bytes) at h =
    memcpy_end (set buffer at b) bytes (at + 1) (omega (arith, length-set buffer at b))
    ∙ rw (take-set buffer at (at + 1) b refl (omega arith))
        (append_assoc (take at buffer) (b ∷ []) bytes)

whole_block :
    (ctx : Ctx) (bytes : List ℕ)
    → ctx.buffer_len ≡ 0
    → length ctx.buffer ≡ 64
    → length bytes ≡ 64
    → foldl push_byte ctx bytes
      ≡ record ctx { state = compress ctx.state bytes; buffer = bytes; buffer_len = 0 }
whole_block ctx [] e f h = absurd (omega arith)
whole_block ctx (b ∷ bytes) e f h =
    foldl-push_block ctx b bytes (omega arith)
    ∙ rw (e, memcpy_end ctx.buffer (b ∷ bytes) 0 (omega arith))

-- Whole blocks from an empty buffer on.
foldl-push-blocks :
    (n : ℕ) (ctx : Ctx) (bytes : List ℕ)
    → ctx.buffer_len ≡ 0
    → length ctx.buffer ≡ 64
    → length bytes ≡ 64 * n
    → (foldl push_byte ctx bytes).state ≡ foldl compress ctx.state (blocks n bytes)
unfolding blocks
foldl-push-blocks zero ctx [] e f h = refl
foldl-push-blocks zero ctx (b ∷ bytes) e f h = absurd (omega arith)
foldl-push-blocks (suc n) ctx bytes e f h =
    ap (λ (t : List ℕ). (foldl push_byte ctx t).state) (sym (take-append-drop 64 bytes))
    ∙ rw (foldl-append push_byte ctx (take 64 bytes), whole_block ctx (take 64 bytes) e f size)
        (foldl-push-blocks n _ (drop 64 bytes) refl size (omega (arith, length-drop 64 bytes)))
  where
    size : length (take 64 bytes) ≡ 64
    size = omega (arith, length-take 64 bytes)

length-padding : (n : ℕ) → length (padding n) ≡ 9 + (119 - n % 64) % 64
unfolding padding
length-padding n = omega (
  arith,
  length-append (replicate {A = ℕ} ((119 - n % 64) % 64) 0) (count_bytes (mul64 n 8)),
  length-replicate {A = ℕ} ((119 - n % 64) % 64) 0,
  length-count_bytes (mul64 n 8),
)

init_facts : (init.buffer_len ≡ 0) × (init.bit_count ≡ 0) × (length init.buffer ≡ 64)
unfolding init
init_facts = (refl, refl, refl)

-- What the pending bytes and the count are after a whole message.
final-update :
    (message : List ℕ)
    → final (update init message)
      ≡ digest_bytes (foldl push_byte init (message ++ padding (length message))).state
unfolding padding
final-update message =
    ap final (update-foldl init message init-IsReady)
    ∙ final-push (record s { bit_count = count }) (foldl-push-IsReady message init init-IsReady)
    ∙ ap (λ t. digest_bytes (foldl push_byte (record s { bit_count = count }) t).state)
        (ap₂ (λ (p c : ℕ). 0x80 ∷ replicate ((119 - p) % 64) 0 ++ count_bytes c) pending count_eq)
    ∙ ap (λ (c : Ctx). digest_bytes c.state)
        (bit_count-foldl (padding (length message)) s count ∙ (λ i.
          record (sym (foldl-append push_byte init message (padding (length message))) i) {
            bit_count = count;
          }))
  where
    s : Ctx
    s = foldl push_byte init message

    count : ℕ
    count = add64 init.bit_count (mul64 (length message) 8)

    pending : s.buffer_len ≡ length message % 64
    pending = omega (arith, foldl-push_shape message init init-IsReady, init_facts)

    count_eq : count ≡ mul64 (length message) 8
    count_eq = omega (arith, init_facts)

-- `df_sha256_buffer` computes SHA-256 as FIPS 180-4 defines it from the compression function: the
-- message is padded and chained through in blocks of 64 bytes.
pub sha256_buffer-sha256_spec : (message : List ℕ) → sha256_buffer message ≡ sha256_spec message
unfolding sha256_buffer sha256_spec
sha256_buffer-sha256_spec message =
    final-update message
    ∙ ap digest_bytes (
        foldl-push-blocks (length (message ++ padding n) / 64) init (message ++ padding n)
          init_facts.0 init_facts.2
          (omega (arith, length-append message (padding n), length-padding n)))
  where
    n : ℕ
    n = length message
