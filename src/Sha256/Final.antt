-- ===== src/Sha256/Final.antt =====
-- `df_sha256_final` absorbs a 1 bit, zeros and the length like bytes of the message, on both of its
-- branches.
use deadflash.Base.{
  ℕ, zero, suc, ◌+◌, ◌-◌, ◌%◌, ◌≤◌, ◌<◌, ◌≡◌, refl, sym, ap, ◌∙◌, List, [], ◌∷◌, ◌++◌, foldl, arith,
  ==_iff, ltb, le→ltb, lt→ltb, ltb→lt, ltb→le, Bool-cases, inl, inr, replicate-add, length, set,
  replicate, length-append, length-replicate, foldl-append, append_assoc,
}
use deadflash.Sha256.{Ctx, compress, memcpy, absorb, zero_fill, count_bytes, digest_bytes, final}
use deadflash.Sha256.Stream.{IsReady, push_byte, absorb-push}

memcpy-append :
    (buffer front back : List ℕ) (at end : ℕ)
    → end ≡ at + length front
    → memcpy buffer at (front ++ back) ≡ memcpy (memcpy buffer at front) end back
unfolding memcpy
memcpy-append buffer [] back at end h = let e : end ≡ at = omega arith in rw e
memcpy-append buffer (b ∷ front) back at end h =
    memcpy-append (set buffer at b) front back (at + 1) end (omega arith)

zero_fill-memcpy :
    (n : ℕ) (ctx : Ctx)
    → zero_fill n ctx ≡ record ctx {
      buffer = memcpy ctx.buffer ctx.buffer_len (replicate n 0);
      buffer_len = ctx.buffer_len + n;
    }
unfolding zero_fill memcpy
zero_fill-memcpy zero ctx = ground arith
zero_fill-memcpy (suc n) ctx = ground (
  arith,
  zero_fill-memcpy n
      (record ctx { buffer = set ctx.buffer ctx.buffer_len 0; buffer_len = ctx.buffer_len + 1 }),
)

pub length-count_bytes : (n : ℕ) → length (count_bytes n) ≡ 8
unfolding count_bytes
length-count_bytes n = refl

-- Bytes that fill the buffer exactly.
pub foldl-push_block :
    (ctx : Ctx) (b : ℕ) (bytes : List ℕ)
    → ctx.buffer_len + length (b ∷ bytes) ≡ 64
    → foldl push_byte ctx (b ∷ bytes) ≡ record ctx {
      state = compress ctx.state (memcpy ctx.buffer ctx.buffer_len (b ∷ bytes));
      buffer = memcpy ctx.buffer ctx.buffer_len (b ∷ bytes);
      buffer_len = 0;
    }
unfolding absorb
foldl-push_block ctx b bytes h =
    sym (absorb-push ctx b bytes (omega arith))
    ∙ rw ((==_iff (ctx.buffer_len + length (b ∷ bytes)) 64).1 h)

-- The mark, the zeros and the count are stored one after the other.
memcpy_tail :
    (buffer count : List ℕ) (x len at m end n : ℕ)
    → at ≡ len + 1
    → m ≡ n
    → end ≡ at + n
    → memcpy (memcpy (set buffer len x) at (replicate m 0)) end count
      ≡ memcpy buffer len (x ∷ (replicate n 0 ++ count))
memcpy_tail buffer count x len at m end n ea em ee = rw em (
    sym (
      memcpy-append (set buffer len x) (replicate n 0) count at end
        (omega (arith, length-replicate {A = ℕ} n 0)))
    ∙ rw ea (unfold memcpy in refl))

-- The bytes that `df_sha256_final` absorbs where the count fits the pending block.
final_short :
    (ctx : Ctx)
    → ctx.buffer_len < 56
    → final ctx
      ≡ digest_bytes
          (foldl push_byte ctx
            (0x80 ∷ replicate (55 - ctx.buffer_len) 0 ++ count_bytes ctx.bit_count)).state
unfolding final
final_short ctx h =
    rw
      (
        le→ltb 56 (ctx.buffer_len + 1) (omega arith),
        zero_fill-memcpy,
        foldl-push_block ctx 0x80 tail size,
      )
      (ap (λ m. digest_bytes (compress ctx.state m))
        (memcpy_tail ctx.buffer (count_bytes ctx.bit_count) 0x80 ctx.buffer_len _ _ 56
          (55 - ctx.buffer_len) refl (omega arith) (omega arith)))
  where
    zeros : List ℕ
    zeros = replicate (55 - ctx.buffer_len) 0

    tail : List ℕ
    tail = zeros ++ count_bytes ctx.bit_count

    size : ctx.buffer_len + length (0x80 ∷ tail) ≡ 64
    size = omega (
      arith,
      length-append zeros (count_bytes ctx.bit_count),
      length-replicate {A = ℕ} (55 - ctx.buffer_len) 0,
      length-count_bytes ctx.bit_count,
    )

memcpy-cons :
    (buffer bytes : List ℕ) (at b : ℕ)
    → memcpy buffer at (b ∷ bytes) ≡ memcpy (set buffer at b) (at + 1) bytes
unfolding memcpy
memcpy-cons buffer bytes at b = refl

-- Where it does not, the zeros run on through the next block.
module _ (ctx : Ctx) (h : 56 ≤ ctx.buffer_len) (v : ctx.buffer_len < 64) where
  long_zeros : List ℕ
  long_zeros = replicate (64 - (ctx.buffer_len + 1)) 0

  long_first : List ℕ
  unfolding long_zeros
  long_first = memcpy (set ctx.buffer ctx.buffer_len 0x80) (ctx.buffer_len + 1) long_zeros

  first_block :
      foldl push_byte ctx (0x80 ∷ long_zeros)
      ≡ record ctx { state = compress ctx.state long_first; buffer = long_first; buffer_len = 0 }
  unfolding long_first
  first_block = rw (← memcpy-cons ctx.buffer long_zeros ctx.buffer_len 0x80) (
      foldl-push_block ctx 0x80 long_zeros
        (omega (arith, length-replicate {A = ℕ} (64 - (ctx.buffer_len + 1)) 0)))

  long_split :
      0x80 ∷ replicate (119 - ctx.buffer_len) 0 ++ count_bytes ctx.bit_count
      ≡ (0x80 ∷ long_zeros) ++ (replicate 56 0 ++ count_bytes ctx.bit_count)
  unfolding long_zeros
  long_split =
      ap (λ (t : List ℕ). 0x80 ∷ (t ++ count_bytes ctx.bit_count))
        (replicate-add (119 - ctx.buffer_len) (64 - (ctx.buffer_len + 1)) 56 0 (omega arith))
      ∙ ap (λ (t : List ℕ). 0x80 ∷ t)
          (append_assoc long_zeros (replicate 56 0) (count_bytes ctx.bit_count))

  second_block :
      (one : Ctx)
      → one.buffer_len ≡ 0
      → (foldl push_byte one (replicate 56 0 ++ count_bytes ctx.bit_count)).state
        ≡ compress one.state
            (memcpy (memcpy one.buffer 0 (replicate 56 0)) 56 (count_bytes ctx.bit_count))
  second_block one e =
      ap (λ (c : Ctx). c.state)
        (foldl-push_block one 0 (replicate 55 0 ++ count_bytes ctx.bit_count)
          (omega (arith, length-count_bytes ctx.bit_count)))
      ∙ ap (compress one.state) (
          rw e (
            memcpy-append one.buffer (replicate 56 0) (count_bytes ctx.bit_count) 0 56
              (omega arith)))

  final_long :
      final ctx
      ≡ digest_bytes
          (foldl push_byte ctx
            (0x80 ∷ replicate (119 - ctx.buffer_len) 0 ++ count_bytes ctx.bit_count)).state
  unfolding final long_first
  final_long =
      rw (lt→ltb 56 (ctx.buffer_len + 1) (omega arith), zero_fill-memcpy, zero_fill-memcpy)
        (ap digest_bytes (
          sym (
            second_block
              (record ctx {
                state = compress ctx.state long_first;
                buffer = long_first;
                buffer_len = 0;
              })
              refl)
          ∙ ap (λ c. (foldl push_byte c (replicate 56 0 ++ count_bytes ctx.bit_count)).state)
              (sym first_block)
          ∙ ap (λ (c : Ctx). c.state)
              (sym (foldl-append push_byte ctx (0x80 ∷ long_zeros) _)
                ∙ ap (foldl push_byte ctx) (sym long_split))))

-- Both cases at once: how many zeros follow from the pending bytes alone.
pub final-push :
    (ctx : Ctx)
    → IsReady ctx
    → final ctx
      ≡ digest_bytes
          (foldl push_byte ctx
            (0x80 ∷ replicate ((119 - ctx.buffer_len) % 64) 0 ++ count_bytes ctx.bit_count)).state
final-push ctx v = elim (Bool-cases (ltb ctx.buffer_len 56)) [
  | inl p ↦
      let h : ctx.buffer_len < 56 = ltb→lt _ _ p in
      let e : (119 - ctx.buffer_len) % 64 ≡ 55 - ctx.buffer_len = omega arith in
      rw e (final_short ctx h)
  | inr p ↦
      let h : 56 ≤ ctx.buffer_len = ltb→le _ _ p in
      let e : (119 - ctx.buffer_len) % 64 ≡ 119 - ctx.buffer_len = omega arith in
      rw e (final_long ctx h v)
]
