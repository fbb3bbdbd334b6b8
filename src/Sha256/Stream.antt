-- ===== src/Sha256/Stream.antt =====
-- `df_sha256_update` absorbs one byte after the other: how the input is cut into calls and into
-- blocks makes no difference.
use deadflash.Base.{
  ℕ, zero, suc, ◌+◌, ◌-◌, ◌%◌, ◌≤◌, ◌<◌, ◌≡◌, refl, sym, ap, ◌∙◌, List, [], ◌∷◌, ◌++◌, min, foldl,
  arith, length, take, drop, add64, mul64, set, length-set, length-append, length-take, length-drop,
  take-append-drop, foldl-append, flatten, append-nil, append_assoc,
}
use deadflash.Sha256.{Ctx, init, memcpy, absorb, update_loop, update, final, sha256_buffer}

-- Between calls the pending bytes never fill the buffer.
abbrev pub IsReady : Ctx → Type 0
IsReady ctx = ctx.buffer_len < 64

-- The absorption of a single byte.
pub push_byte : Ctx → ℕ → Ctx
push_byte ctx b = absorb ctx (b ∷ [])

absorb-IsReady :
    (ctx : Ctx) (bytes : List ℕ) → ctx.buffer_len + length bytes ≤ 64 → IsReady (absorb ctx bytes)
unfolding absorb
absorb-IsReady ctx bytes h = ground arith

length-memcpy : (buffer bytes : List ℕ) (at : ℕ) → length (memcpy buffer at bytes) ≡ length buffer
unfolding memcpy
length-memcpy buffer [] at = refl
length-memcpy buffer (b ∷ bytes) at =
    length-memcpy (set buffer at b) bytes (at + 1) ∙ length-set buffer at b

-- The buffer keeps its 64 bytes, and the position goes round.
push_byte_shape :
    (ctx : Ctx) (b : ℕ)
    → IsReady ctx
    → (length (push_byte ctx b).buffer ≡ length ctx.buffer)
      × ((push_byte ctx b).buffer_len ≡ (ctx.buffer_len + 1) % 64)
unfolding push_byte absorb
push_byte_shape ctx b h = ground (arith, length-memcpy ctx.buffer (b ∷ []) ctx.buffer_len)

pub push_byte-IsReady : (ctx : Ctx) (b : ℕ) → IsReady ctx → IsReady (push_byte ctx b)
unfolding push_byte
push_byte-IsReady ctx b h = absorb-IsReady ctx (b ∷ []) (omega arith)

pub foldl-push-IsReady :
    (bytes : List ℕ) (ctx : Ctx) → IsReady ctx → IsReady (foldl push_byte ctx bytes)
foldl-push-IsReady [] ctx h = h
foldl-push-IsReady (b ∷ bytes) ctx h =
    foldl-push-IsReady bytes (push_byte ctx b) (push_byte-IsReady ctx b h)

pub foldl-push_shape :
    (bytes : List ℕ) (ctx : Ctx)
    → IsReady ctx
    → (length (foldl push_byte ctx bytes).buffer ≡ length ctx.buffer)
      × ((foldl push_byte ctx bytes).buffer_len ≡ (ctx.buffer_len + length bytes) % 64)
foldl-push_shape [] ctx h = omega arith
foldl-push_shape (b ∷ bytes) ctx h = omega (
  arith,
  push_byte_shape ctx b h,
  foldl-push_shape bytes (push_byte ctx b) (push_byte-IsReady ctx b h),
)

absorb-cons :
    (ctx : Ctx) (b c : ℕ) (bytes : List ℕ)
    → ctx.buffer_len + 1 < 64
    → absorb ctx (b ∷ c ∷ bytes) ≡ absorb (push_byte ctx b) (c ∷ bytes)
unfolding absorb push_byte memcpy
absorb-cons ctx b c bytes h = ground arith

buffer_len-push_byte :
    (ctx : Ctx) (b : ℕ) → ctx.buffer_len < 64 → (push_byte ctx b).buffer_len ≤ ctx.buffer_len + 1
unfolding push_byte absorb
buffer_len-push_byte ctx b h = ground arith

pub absorb-push :
    (ctx : Ctx) (b : ℕ) (bytes : List ℕ)
    → ctx.buffer_len + length (b ∷ bytes) ≤ 64
    → absorb ctx (b ∷ bytes) ≡ foldl push_byte ctx (b ∷ bytes)
absorb-push ctx b [] h = unfold push_byte in refl
absorb-push ctx b (c ∷ bytes) h =
    absorb-cons ctx b c bytes (omega arith)
    ∙ absorb-push (push_byte ctx b) c bytes (omega (arith, buffer_len-push_byte ctx b))

-- One round of the loop takes the first `suc m` bytes.
absorb-foldl :
    (ctx : Ctx) (b m : ℕ) (input : List ℕ)
    → ctx.buffer_len + suc m ≤ 64
    → foldl push_byte (absorb ctx (b ∷ take m input)) (drop m input)
      ≡ foldl push_byte ctx (b ∷ input)
absorb-foldl ctx b m input h =
    ap (λ c. foldl push_byte c (drop m input))
      (absorb-push ctx b (take m input) (omega (arith, length-take m input)))
    ∙ sym (foldl-append push_byte ctx (b ∷ take m input) (drop m input))
    ∙ ap (foldl push_byte (push_byte ctx b)) (take-append-drop m input)

-- The loop with enough fuel.
update_loop-push :
    (fuel : ℕ) (ctx : Ctx) (input : List ℕ)
    → IsReady ctx
    → length input ≤ fuel
    → update_loop fuel ctx input ≡ foldl push_byte ctx input
unfolding update_loop
update_loop-push zero ctx [] v h = refl
update_loop-push zero ctx (b ∷ input) v h = absurd (omega arith)
update_loop-push (suc fuel) ctx [] v h = refl
update_loop-push (suc fuel) ctx (b ∷ input) v h = rw e (
    update_loop-push fuel (absorb ctx (b ∷ take m input)) (drop m input)
      (absorb-IsReady ctx (b ∷ take m input) (omega (arith, length-take m input)))
      (omega (arith, length-drop m input))
    ∙ absorb-foldl ctx b m input (omega arith))
  where
    m : ℕ
    m = min (64 - ctx.buffer_len) (suc (length input)) - 1

    e : min (64 - ctx.buffer_len) (suc (length input)) ≡ suc m
    e = omega arith

bit_count-push :
    (ctx : Ctx) (b n : ℕ)
    → push_byte (record ctx { bit_count = n }) b ≡ record (push_byte ctx b) { bit_count = n }
unfolding push_byte absorb
bit_count-push ctx b n = ground arith

pub bit_count-foldl :
    (bytes : List ℕ) (ctx : Ctx) (n : ℕ)
    → foldl push_byte (record ctx { bit_count = n }) bytes
      ≡ record (foldl push_byte ctx bytes) { bit_count = n }
bit_count-foldl [] ctx n = refl
bit_count-foldl (b ∷ bytes) ctx n =
    ap (λ c. foldl push_byte c bytes) (bit_count-push ctx b n)
    ∙ bit_count-foldl bytes (push_byte ctx b) n

pub update-foldl :
    (ctx : Ctx) (input : List ℕ)
    → IsReady ctx
    → update ctx input ≡ record (foldl push_byte ctx input) {
      bit_count = add64 ctx.bit_count (mul64 (length input) 8);
    }
unfolding update
update-foldl ctx input h =
    update_loop-push (length input) _ input h (omega arith) ∙ bit_count-foldl input ctx _

pub update-IsReady : (ctx : Ctx) (input : List ℕ) → IsReady ctx → IsReady (update ctx input)
update-IsReady ctx input h = rw (update-foldl ctx input h) (foldl-push-IsReady input ctx h)

-- Two calls of `df_sha256_update` are one call on both inputs: the whole context is the same.
pub update-append :
    (ctx : Ctx) (front back : List ℕ)
    → IsReady ctx
    → update (update ctx front) back ≡ update ctx (front ++ back)
update-append ctx front back h =
    update-foldl (update ctx front) back (update-IsReady ctx front h)
    ∙ rw (update-foldl ctx front h, bit_count-foldl back, ← foldl-append)
        (λ i. record (foldl push_byte ctx (front ++ back)) { bit_count = count i })
    ∙ sym (update-foldl ctx (front ++ back) h)
  where
    count :
        add64 (add64 ctx.bit_count (mul64 (length front) 8)) (mul64 (length back) 8)
        ≡ add64 ctx.bit_count (mul64 (length (front ++ back)) 8)
    count = omega (arith, length-append front back)

pub init-IsReady : IsReady init
unfolding init
init-IsReady = omega arith

pub update-nil : update init [] ≡ init
unfolding update update_loop init
update-nil = refl

foldl-update :
    (pieces : List (List ℕ)) (front : List ℕ)
    → foldl update (update init front) pieces ≡ update init (front ++ flatten pieces)
foldl-update [] front = rw append-nil
foldl-update (piece ∷ pieces) front =
    ap (λ c. foldl update c pieces) (update-append init front piece init-IsReady)
    ∙ foldl-update pieces (front ++ piece)
    ∙ ap (update init) (append_assoc front piece (flatten pieces))

-- `df_sha256_init`, an update with each piece of a message in turn, and `df_sha256_final` give what
-- `df_sha256_buffer` gives on the whole message.
pub sha256_buffer-pieces :
    (pieces : List (List ℕ)) → final (foldl update init pieces) ≡ sha256_buffer (flatten pieces)
unfolding sha256_buffer
sha256_buffer-pieces pieces =
    ap final (ap (λ c. foldl update c pieces) (sym update-nil) ∙ foldl-update pieces [])
