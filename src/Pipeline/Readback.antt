-- ===== src/Pipeline/Readback.antt =====
-- What `df_hash_file_region_progress` hashes, under the laws of the system.
use deadflash.Base.{
  ℕ, zero, suc, ◌+◌, ◌-◌, ◌^◌, ◌≤◌, ◌<◌, ◌≡◌, refl, sym, ap, bit_and, ◌==◌, smaller_bounds, ap₂,
  ltb→le, some_inj, ◌∙◌, some, List, ◌∷◌, ◌++◌, length, take, drop, arith, Bool-cases, inl, inr,
  ltb, length-take, length-drop, add64, take-add, take-take, ltb→lt, if◌then◌else◌,
}
use deadflash.Common.{done, failed≢done}
use deadflash.Common.Monad.{through, after, through_guard, pure-done}
use deadflash.Device.{File}
use deadflash.Device.Posix.{Os, Laws}
use deadflash.Device.Files.{read_at}
use deadflash.Device.Transfer.{read_at-content, read_at-done}
use deadflash.Pipeline.{Run, Phase, through_io, round_up, aligned_alloc}
use deadflash.Pipeline.Hash.{hash_round, hash_loop, hash_file_region_progress}
use deadflash.Sha256
use deadflash.Sha256.Stream.{update-append, init-IsReady, update-nil}

-- The hash of a prefix, and of the bytes that follow it.
pub hashed :
    (offset wanted : ℕ) (c bytes : List ℕ)
    → bytes ≡ take wanted (drop offset c)
    → Sha256.update (Sha256.update Sha256.init (take offset c)) bytes
      ≡ Sha256.update Sha256.init (take (offset + wanted) c)
hashed offset wanted c bytes e =
    update-append Sha256.init (take offset c) bytes init-IsReady
    ∙ ap (Sha256.update Sha256.init)
        (ap (λ t. take offset c ++ t) e ∙ sym (take-add offset wanted c))

pub whole_message :
    (m : List ℕ) → Sha256.final (Sha256.update Sha256.init m) ≡ Sha256.sha256_buffer m
unfolding Sha256.sha256_buffer
whole_message m = refl

-- An allocation changes no file.
pub aligned_alloc-content :
    (os : Os) (laws : Laws os) (g alignment size : ℕ) (w : os.World)
    → laws.content g (aligned_alloc os alignment size w).1 ≡ laws.content g w
unfolding aligned_alloc
aligned_alloc-content os laws g alignment size w = elim (Bool-cases (bit_and a (a - 1) == 0)) [
  | inl p ↦ rw (p, aligned_alloc) (laws.memalign_content g a size w)
  | inr p ↦ rw (p, aligned_alloc) refl
]
  where
    a : ℕ
    a = if ltb alignment 8 then 8 else alignment

module _ (os : Os) (laws : Laws os) (file : File) (fd : ℕ) (open_fd : file.handle ≡ some fd) where
  open laws use {content}

  pub hash_round-done :
      (size alignment allocation : ℕ) (phase : Phase) (wanted offset : ℕ) (ctx ctx' : Sha256.Ctx)
      (run run' : Run os.World)
      → hash_round os file size alignment allocation phase wanted offset ctx run ≡ (done ctx', run')
      → (bytes : List ℕ) × (length bytes ≡ wanted)
        × (bytes ≡ take wanted (drop offset (content fd run.world)))
        × (ctx' ≡ Sha256.update ctx bytes)
        × ((g : ℕ) → content g run'.world ≡ content g run.world)
  unfolding hash_round
  hash_round-done size alignment allocation phase wanted offset ctx ctx' run run' e =
      through _ _ e (λ request run1 e1 h1.
        through_io (read_at os file request offset) _ h1 (λ bytes w e2 h2.
          let (enough, h3) = through_guard (ltb (length bytes) wanted) _ _ h2 in
          let (pure_ctx, pure_run) = pure-done (after _ _ refl h3) in
          let (fd', same_fd, most, stored) =
            read_at-done os laws file request offset bytes _ w e2 in
          let same_world : w ≡ (read_at os file request offset run1.world).1 =
            sym (ap (λ p. p.1) e2) in
          let start = ap (λ p. p.1) e1 in
          let full = ltb→le (length bytes) wanted enough in
          let fd_same = some_inj (sym same_fd ∙ open_fd) in
          (
            take wanted bytes,
            omega (arith, length-take wanted bytes),
            ap (take wanted) stored
                ∙ take-take wanted (length bytes) _ full
                ∙ ap₂ (λ d r. take wanted (drop offset (content d r.world))) fd_same (sym start),
            sym pure_ctx,
            λ g.
                ap (λ r. content g r.world) (sym pure_run)
                ∙ ap (content g) same_world
                ∙ read_at-content os laws g file request offset run1.world
                ∙ ap (λ r. content g r.world) (sym start),
          )))

  -- The rest of the loop, on the hash of what was read so far.
  pub hash_loop-done :
      (fuel size buffer_size allocation : ℕ) (phase : Phase) (offset : ℕ) (ctx : Sha256.Ctx)
      (run run' : Run os.World)
      → size < 2 ^ 64
      → 0 < buffer_size
      → size - offset ≤ fuel
      → offset ≤ size
      → offset ≤ length (content fd run.world)
      → hash_loop os fuel file size buffer_size allocation phase offset
          (Sha256.update Sha256.init (take offset (content fd run.world)))
          run
        ≡ (done ctx, run')
      → (ctx ≡ Sha256.update Sha256.init (take size (content fd run.world)))
        × (size ≤ length (content fd run.world))
        × ((g : ℕ) → content g run'.world ≡ content g run.world)
  unfolding hash_loop
  hash_loop-done zero size buffer_size allocation phase offset ctx run run' small b0 fuel_enough le
        has e =
      let whole : offset ≡ size = omega arith in
      let (c, r) = pure-done e in
      (rw (← whole) (sym c), omega arith, λ g. ap (λ s. content g s.world) (sym r))
  hash_loop-done (suc fuel) size buffer_size allocation phase offset ctx run run' small b0
        fuel_enough le has e =
      let wanted = if ltb (size - offset) buffer_size then size - offset else buffer_size in
      elim (Bool-cases (ltb offset size)) [
        | inr p ↦
            let whole : offset ≡ size = omega (arith, ltb→le offset size p) in
            let (c, r) = pure-done (rw (p, hash_loop) at e) in
            (rw (← whole) (sym c), omega arith, λ g. ap (λ s. content g s.world) (sym r))
        | inl p ↦
            let e' = rw (p, hash_loop) at e in
            through _ _ e' (λ ctx1 run1 e1 h1.
              let (bytes, len, stored, upd, same) =
                hash_round-done size _ allocation phase wanted offset _ ctx1 run run1 e1 in
              let there = length-take wanted (drop offset (content fd run.world)) in
              let beyond = length-drop offset (content fd run.world) in
              let lens = ap length stored in
              let more = ltb→lt offset size p in
              let some_left : 0 < size - offset = omega arith in
              let bounds = smaller_bounds (size - offset) buffer_size some_left b0 in
              let next : add64 offset wanted ≡ offset + wanted = omega arith in
              let ctx_next =
                upd
                ∙ hashed offset wanted (content fd run.world) bytes stored
                ∙ ap (λ c. Sha256.update Sha256.init (take (offset + wanted) c)) (sym (same fd)) in
              let (a, b, c) =
                hash_loop-done fuel size buffer_size allocation phase (offset + wanted) ctx run1
                  run' small b0 (omega arith) (omega arith) (rw (same fd) (omega arith))
                  (rw (next, ctx_next) at h1) in
              (
                a ∙ ap (λ x. Sha256.update Sha256.init (take size x)) (same fd),
                rw (same fd) at b,
                λ g. c g ∙ same g,
              ))
      ]

  -- What the whole function hashes.
  pub hash_file_region_progress-done :
      (size buffer_size : ℕ) (phase : Phase) (digest : List ℕ) (run run' : Run os.World)
      → size < 2 ^ 64
      → hash_file_region_progress os file size buffer_size phase run ≡ (done digest, run')
      → (digest ≡ Sha256.sha256_buffer (take size (content fd run.world)))
        × (size ≤ length (content fd run.world))
        × ((g : ℕ) → content g run'.world ≡ content g run.world)
  unfolding hash_file_region_progress
  hash_file_region_progress-done size buffer_size phase digest run run' small e =
      elim (Bool-cases (buffer_size == 0)) [
        | inl p ↦ absurd (failed≢done (ap (λ r. r.0) (rw (p, hash_file_region_progress) at e)))
        | inr p ↦
            elim (Bool-cases
              (round_up buffer_size (if file.alignment == 0 then 512 else file.alignment) == 0)) [
                | inl q ↦
                    absurd (failed≢done (ap (λ r. r.0) (rw (p, q, hash_file_region_progress) at e)))
                | inr q ↦
                    through_io (aligned_alloc os _ _) _ (rw (p, q, hash_file_region_progress) at e)
                      (λ u w e1 h1. through _ _ (after _ _ refl h1) (λ ctx run2 e2 h2.
                        let same : (g : ℕ) → content g w ≡ content g run.world = λ g.
                          ap (λ r. content g r.1) (sym e1)
                          ∙ aligned_alloc-content os laws g _ _ run.world in
                        let run1 : Run os.World = record run {
                          world = w;
                          progress =
                              record { phase = phase; completed = 0; total = size } ∷ run.progress;
                        } in
                        let b0 : 0 < buffer_size = grind (arith, p) in
                        let (a, b, c) =
                          hash_loop-done size size buffer_size
                            (round_up buffer_size
                              (if file.alignment == 0 then 512 else file.alignment))
                            phase 0 ctx run1 run2 small b0 (omega arith) (omega arith) (omega arith)
                            (rw update-nil e2) in
                        let (d, f) = pure-done h2 in
                        (
                          sym d
                              ∙ ap Sha256.final
                                  (a ∙ ap (λ x. Sha256.update Sha256.init (take size x)) (same fd))
                              ∙ whole_message _,
                          rw (same fd) at b,
                          λ g. ap (λ r. content g r.world) (sym f) ∙ c g ∙ same g,
                        )))
              ]
      ]
