-- ===== src/Sha256.antt =====
-- src/sha256.c. A `uint8_t` array is a list of bytes, a `uint32_t` array a list of words. Additions
-- of words are modulo 2 ^ 32.
pub mod Stream
pub mod Final
pub mod Padding
pub mod Digest
pub mod Collision
mod Tests
use deadflash.Base.{
  ℕ, zero, suc, ◌+◌, ◌-◌, ◌*◌, ◌/◌, ◌%◌, ◌^◌, ◌<◌, List, [], ◌∷◌, ◌++◌, Bool, min, ltb, ◌==◌,
  if◌then◌else◌, length, get_or, set, take, drop, replicate, shr, add32, add64, mul64, bit_and,
  bit_or, bit_xor,
}

abbrev pub rotr32 : ℕ → ℕ → ℕ
rotr32 x n = bit_or (shr x n) ((x * 2 ^ (32 - n)) % 2 ^ 32)

-- `~x` on 32 bits
abbrev pub not32 : ℕ → ℕ
not32 x = 2 ^ 32 - 1 - x

abbrev pub ch : ℕ → ℕ → ℕ → ℕ
ch x y z = bit_xor (bit_and x y) (bit_and (not32 x) z)

abbrev pub maj : ℕ → ℕ → ℕ → ℕ
maj x y z = bit_xor (bit_xor (bit_and x y) (bit_and x z)) (bit_and y z)

abbrev pub bsig0 : ℕ → ℕ
bsig0 x = bit_xor (bit_xor (rotr32 x 2) (rotr32 x 13)) (rotr32 x 22)

abbrev pub bsig1 : ℕ → ℕ
bsig1 x = bit_xor (bit_xor (rotr32 x 6) (rotr32 x 11)) (rotr32 x 25)

abbrev pub ssig0 : ℕ → ℕ
ssig0 x = bit_xor (bit_xor (rotr32 x 7) (rotr32 x 18)) (shr x 3)

abbrev pub ssig1 : ℕ → ℕ
ssig1 x = bit_xor (bit_xor (rotr32 x 17) (rotr32 x 19)) (shr x 10)

abbrev pub k : List ℕ
k =
    0x428a2f98 ∷ 0x71374491 ∷ 0xb5c0fbcf ∷ 0xe9b5dba5 ∷ 0x3956c25b ∷ 0x59f111f1 ∷ 0x923f82a4
    ∷ 0xab1c5ed5 ∷ 0xd807aa98 ∷ 0x12835b01 ∷ 0x243185be ∷ 0x550c7dc3 ∷ 0x72be5d74 ∷ 0x80deb1fe
    ∷ 0x9bdc06a7 ∷ 0xc19bf174 ∷ 0xe49b69c1 ∷ 0xefbe4786 ∷ 0x0fc19dc6 ∷ 0x240ca1cc ∷ 0x2de92c6f
    ∷ 0x4a7484aa ∷ 0x5cb0a9dc ∷ 0x76f988da ∷ 0x983e5152 ∷ 0xa831c66d ∷ 0xb00327c8 ∷ 0xbf597fc7
    ∷ 0xc6e00bf3 ∷ 0xd5a79147 ∷ 0x06ca6351 ∷ 0x14292967 ∷ 0x27b70a85 ∷ 0x2e1b2138 ∷ 0x4d2c6dfc
    ∷ 0x53380d13 ∷ 0x650a7354 ∷ 0x766a0abb ∷ 0x81c2c92e ∷ 0x92722c85 ∷ 0xa2bfe8a1 ∷ 0xa81a664b
    ∷ 0xc24b8b70 ∷ 0xc76c51a3 ∷ 0xd192e819 ∷ 0xd6990624 ∷ 0xf40e3585 ∷ 0x106aa070 ∷ 0x19a4c116
    ∷ 0x1e376c08 ∷ 0x2748774c ∷ 0x34b0bcb5 ∷ 0x391c0cb3 ∷ 0x4ed8aa4a ∷ 0x5b9cca4f ∷ 0x682e6ff3
    ∷ 0x748f82ee ∷ 0x78a5636f ∷ 0x84c87814 ∷ 0x8cc70208 ∷ 0x90befffa ∷ 0xa4506ceb ∷ 0xbef9a3f7
    ∷ 0xc67178f2 ∷ []

pub load_be32 : ℕ → ℕ → ℕ → ℕ → ℕ
load_be32 p0 p1 p2 p3 = bit_or (bit_or (bit_or (p0 * 2 ^ 24) (p1 * 2 ^ 16)) (p2 * 2 ^ 8)) p3

pub store_be32 : ℕ → List ℕ
store_be32 value = shr value 24 % 256 ∷ shr value 16 % 256 ∷ shr value 8 % 256 ∷ (value % 256) ∷ []

-- df_sha256_ctx. `buffer` always has 64 bytes, of which the first `buffer_len` are pending.
pub record Ctx : Type 0 where
  pub state : List ℕ
  pub bit_count : ℕ
  pub buffer : List ℕ
  pub buffer_len : ℕ

-- The eight variables of the rounds.
pub record Vars : Type 0 where
  pub a : ℕ
  pub b : ℕ
  pub c : ℕ
  pub d : ℕ
  pub e : ℕ
  pub f : ℕ
  pub g : ℕ
  pub h : ℕ

-- w[0..16) from the block
load_words : List ℕ → List ℕ
load_words (p0 ∷ p1 ∷ p2 ∷ p3 ∷ block) = load_be32 p0 p1 p2 p3 ∷ load_words block
load_words _ = []

-- The loop that fills w[i..64); `w` holds w[0..i).
schedule : ℕ → ℕ → List ℕ → List ℕ
schedule zero i w = w
schedule (suc rounds) i w = schedule rounds (i + 1) (
    w
    ++ (add32
          (add32 (add32 (ssig1 (get_or w (i - 2) 0)) (get_or w (i - 7) 0))
            (ssig0 (get_or w (i - 15) 0)))
          (get_or w (i - 16) 0)
        ∷ []))

-- One round, with k[i] and w[i].
round : ℕ → ℕ → Vars → Vars
round ki wi v =
    let t1 = add32 (add32 (add32 (add32 v.h (bsig1 v.e)) (ch v.e v.f v.g)) ki) wi in
    let t2 = add32 (bsig0 v.a) (maj v.a v.b v.c) in
    record {
      a = add32 t1 t2;
      b = v.a;
      c = v.b;
      d = v.c;
      e = add32 v.d t1;
      f = v.e;
      g = v.f;
      h = v.g;
    }

rounds_loop : List ℕ → List ℕ → Vars → Vars
rounds_loop [] w v = v
rounds_loop (ki ∷ ks) [] v = v
rounds_loop (ki ∷ ks) (wi ∷ w) v = rounds_loop ks w (round ki wi v)

-- The state after `transform`: the rounds, then the sums.
pub compress : List ℕ → List ℕ → List ℕ
unfolding load_be32 load_words schedule round rounds_loop
compress state block =
    let at = λ (i : ℕ). get_or state i 0 in
    let v =
      rounds_loop k (schedule 48 16 (load_words block)) (record {
        a = at 0;
        b = at 1;
        c = at 2;
        d = at 3;
        e = at 4;
        f = at 5;
        g = at 6;
        h = at 7;
      }) in
    add32 (at 0) v.a
    ∷ add32 (at 1) v.b
    ∷ add32 (at 2) v.c
    ∷ add32 (at 3) v.d
    ∷ add32 (at 4) v.e
    ∷ add32 (at 5) v.f
    ∷ add32 (at 6) v.g
    ∷ add32 (at 7) v.h
    ∷ []

-- `transform(ctx, ctx->buffer)`; each caller then sets `buffer_len`.
abbrev pub transform : Ctx → Ctx
transform ctx = record ctx { state = compress ctx.state ctx.buffer }

pub init : Ctx
init = record {
  state =
      0x6a09e667 ∷ 0xbb67ae85 ∷ 0x3c6ef372 ∷ 0xa54ff53a ∷ 0x510e527f ∷ 0x9b05688c ∷ 0x1f83d9ab
      ∷ 0x5be0cd19 ∷ [];
  bit_count = 0;
  buffer = replicate 64 0;
  buffer_len = 0;
}

-- memcpy of `bytes` to `buffer + at`
pub memcpy : List ℕ → ℕ → List ℕ → List ℕ
memcpy buffer at [] = buffer
memcpy buffer at (b ∷ bytes) = memcpy (set buffer at b) (at + 1) bytes

-- One round of the loop of `df_sha256_update`, on the bytes that it takes.
pub absorb : Ctx → List ℕ → Ctx
absorb ctx bytes =
    let filled = record ctx {
      buffer = memcpy ctx.buffer ctx.buffer_len bytes;
      buffer_len = ctx.buffer_len + length bytes;
    } in
    if filled.buffer_len == 64 then record (transform filled) { buffer_len = 0 } else filled

-- The loop, `input` being what is left. Each round takes a byte at least, so the length of the input
-- is enough fuel: `update_loop-push` holds at any such fuel.
pub update_loop : ℕ → Ctx → List ℕ → Ctx
update_loop zero ctx input = ctx
update_loop (suc fuel) ctx [] = ctx
update_loop (suc fuel) ctx (b ∷ input) =
    let n = min (64 - ctx.buffer_len) (length (b ∷ input)) in
    update_loop fuel (absorb ctx (take n (b ∷ input))) (drop n (b ∷ input))

unfoldable pub update : Ctx → List ℕ → Ctx
update ctx input =
    update_loop (length input)
      (record ctx { bit_count = add64 ctx.bit_count (mul64 (length input) 8) }) input

-- `while (ctx->buffer_len < limit) ctx->buffer[ctx->buffer_len++] = 0`, on the rounds that are left
pub zero_fill : ℕ → Ctx → Ctx
zero_fill zero ctx = ctx
zero_fill (suc rounds) ctx =
    zero_fill rounds
      (record ctx { buffer = set ctx.buffer ctx.buffer_len 0; buffer_len = ctx.buffer_len + 1 })

-- The big-endian bytes of the bit count; byte 63 - i is `bit_count >> (i * 8)`.
pub count_bytes : ℕ → List ℕ
count_bytes n =
    shr n 56 % 256
    ∷ shr n 48 % 256
    ∷ shr n 40 % 256
    ∷ shr n 32 % 256
    ∷ shr n 24 % 256
    ∷ shr n 16 % 256
    ∷ shr n 8 % 256
    ∷ (n % 256)
    ∷ []

pub digest_bytes : List ℕ → List ℕ
unfolding store_be32
digest_bytes [] = []
digest_bytes (s ∷ state) = store_be32 s ++ digest_bytes state

unfoldable pub final : Ctx → List ℕ
final ctx =
    let marked = record ctx {
      buffer = set ctx.buffer ctx.buffer_len 0x80;
      buffer_len = ctx.buffer_len + 1;
    } in
    let fitted =
      if ltb 56 marked.buffer_len
      then record (transform (zero_fill (64 - marked.buffer_len) marked)) { buffer_len = 0 }
      else marked in
    let filled = zero_fill (56 - fitted.buffer_len) fitted in
    digest_bytes
      (transform
        (record filled { buffer = memcpy filled.buffer 56 (count_bytes ctx.bit_count) })).state

unfoldable pub sha256_buffer : List ℕ → List ℕ
sha256_buffer input = final (update init input)

-- A run names this on its `unfolding` line.
unfoldable pub program : Unit {0}
unfolding compress memcpy absorb update_loop update zero_fill count_bytes digest_bytes final init
    sha256_buffer
program = tt
