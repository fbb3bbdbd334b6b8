-- ===== src/Pipeline/Live.antt =====
-- A full verification of equal files succeeds, on a system whose calls do (src/pipeline.c).
use deadflash.Base.{
  ℕ, ◌∷◌, zero, suc, ◌+◌, ◌-◌, ◌^◌, ◌≤◌, ◌<◌, ◌==◌, ◌≡◌, refl, sym, ap, ◌∙◌, false, some, length,
  take, arith, Bool-cases, inl, inr, if◌then◌else◌, ltb, ltb→lt, le→ltb, add64,
}
use deadflash.Common.{done}
use deadflash.Common.Monad.{M, then_done, pass_guard}
use deadflash.Device.{File}
use deadflash.Device.Posix.{Os, Laws}
use deadflash.Device.Reliable.{Reliable, IsPlain, read_at-whole}
use deadflash.Pipeline.{Run, Phase, aligned_alloc, round_up}
use deadflash.Pipeline.Hash.{request_size, hash_round, hash_loop, hash_file_region_progress}
use deadflash.Pipeline.Readback.{aligned_alloc-content}
use deadflash.Sha256

-- The call ends with a result.
abbrev pub Succeeds : {S A : Type 0} → M S A → S → Type 0
Succeeds {S} {A} m s = (a : A) × (s' : S) × (m s ≡ (done a, s'))

module _ (os : Os) (laws : Laws os) (reliable : Reliable os laws) (file : File) (fd : ℕ)
    (open_fd : file.handle ≡ some fd) (plain : IsPlain file) where
  open laws use {content}

  requested :
      (alignment allocation wanted : ℕ)
      → request_size file alignment allocation wanted ≡ done wanted
  unfolding request_size
  requested alignment allocation wanted = rw (plain.1, request_size) refl

  alignment_512 : (if file.alignment == 0 then 512 else file.alignment) ≡ 512
  alignment_512 = rw plain.0 refl

  hash_round_succeeds :
      (size alignment allocation : ℕ) (phase : Phase) (wanted offset : ℕ) (ctx : Sha256.Ctx)
      (run : Run os.World)
      → offset + wanted ≤ length (content fd run.world)
      → (ctx' : Sha256.Ctx) × (run' : Run os.World) × (hash_round os file size alignment allocation
            phase wanted offset ctx run
          ≡ (done ctx', run'))
        × ((g : ℕ) → content g run'.world ≡ content g run.world)
  unfolding hash_round
  hash_round_succeeds size alignment allocation phase wanted offset ctx run inside =
      let (bytes, w, read, len, same) =
        read_at-whole os laws reliable file fd wanted offset run.world open_fd inside in
      let enough : ltb (length bytes) wanted ≡ false = le→ltb _ _ (omega arith) in
      (
        Sha256.update ctx (take wanted bytes),
        record run {
          world = w;
          progress =
              record { phase = phase; completed = add64 offset wanted; total = size }
              ∷ run.progress;
        },
        (then_done _ _ (λ i. (requested alignment allocation wanted i, run))
            (then_done _ _ (λ i. ((read i).0, record run { world = (read i).1 }))
              (pass_guard _ _ _ enough (then_done _ _ refl refl)))),
        same,
      )

  -- However much of the file is left to hash, from whatever hash so far.
  hash_loop-Succeeds :
      (fuel size buffer_size allocation : ℕ) (phase : Phase) (offset : ℕ) (ctx : Sha256.Ctx)
      (run : Run os.World)
      → size < 2 ^ 64
      → offset ≤ size
      → size ≤ length (content fd run.world)
      → Succeeds (hash_loop os fuel file size buffer_size allocation phase offset ctx) run
  unfolding hash_loop
  hash_loop-Succeeds zero size buffer_size allocation phase offset ctx run small le inside =
      (ctx, run, refl)
  hash_loop-Succeeds (suc fuel) size buffer_size allocation phase offset ctx run small le inside =
      elim (Bool-cases (ltb offset size)) [
        | inr p ↦ (ctx, run, rw (p, hash_loop) refl)
        | inl p ↦
            let more = ltb→lt offset size p in
            let wanted = if ltb (size - offset) buffer_size then size - offset else buffer_size in
            let bound : offset + wanted ≤ size = grind arith in
            let next : add64 offset wanted ≡ offset + wanted = omega arith in
            let (ctx1, run1, one, same) =
              hash_round_succeeds size (if file.alignment == 0 then 512 else file.alignment)
                allocation phase wanted offset ctx run (omega arith) in
            let (ctx', run', rest) =
              hash_loop-Succeeds fuel size buffer_size allocation phase (add64 offset wanted) ctx1
                run1 small (omega arith) (rw (same fd) inside) in
            (ctx', run', rw (p, hash_loop) (then_done _ _ one rest))
      ]

  round_up_some : (n : ℕ) → 0 < n → n < 2 ^ 63 → (round_up n 512 == 0) ≡ false
  unfolding round_up
  round_up_some n some_bytes small = grind arith

  aligned_alloc-Succeeds : (n : ℕ) (w : os.World) → Succeeds (aligned_alloc os 512 n) w
  unfolding aligned_alloc
  aligned_alloc-Succeeds n w = (tt, (os.memalign 512 n w).1, rw (reliable.memalign_works 512 n w))

  -- A file that is long enough is hashed.
  pub hash_file_region_progress-Succeeds :
      (size buffer_size : ℕ) (phase : Phase) (run : Run os.World)
      → size < 2 ^ 64
      → 0 < buffer_size
      → buffer_size < 2 ^ 63
      → size ≤ length (content fd run.world)
      → Succeeds (hash_file_region_progress os file size buffer_size phase) run
  unfolding hash_file_region_progress
  hash_file_region_progress-Succeeds size buffer_size phase run small some_bytes fits inside =
      let given : (buffer_size == 0) ≡ false = grind arith in
      let allocation = round_up buffer_size 512 in
      let (u, w, alloc) = aligned_alloc-Succeeds allocation run.world in
      let kept : content fd w ≡ content fd run.world =
        ap (λ r. content fd r.1) (sym alloc)
        ∙ aligned_alloc-content os laws fd 512 allocation run.world in
      let start : Run os.World = record run {
        world = w;
        progress = record { phase = phase; completed = 0; total = size } ∷ run.progress;
      } in
      let (ctx, run', all) =
        hash_loop-Succeeds size size buffer_size allocation phase 0 Sha256.init start small
          (omega arith) (rw kept inside) in
      (
        Sha256.final ctx,
        run',
        rw (given, alignment_512, round_up_some buffer_size some_bytes fits)
            (then_done _ _ (λ i. ((alloc i).0, record run { world = (alloc i).1 }))
              (then_done _ _ refl (then_done _ _ all refl))),
      )
