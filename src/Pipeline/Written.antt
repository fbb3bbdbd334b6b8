-- ===== src/Pipeline/Written.antt =====
-- What a successful `df_write_image` leaves on the target, under the laws of the system.
use deadflash.Base.{
  ℕ, zero, suc, ◌+◌, ◌-◌, ◌^◌, ◌%◌, ◌≤◌, ◌<◌, ◌==◌, ◌&&◌, ◌||◌, ◌≡◌, refl, sym, ap, ◌∙◌, some, List,
  [], ◌++◌, length, take, replicate, arith, Bool-cases, inl, inr, not, ltb, length-take, add64,
  take-take, take-append, length-append, ltb→lt, ltb→le, ==_iff, smaller_bounds, append_assoc,
  append-nil, if◌then◌else◌,
}
use deadflash.Common.{Outcome, done, failed, Status, ok, failed≢done, done_inj, err_io}
use deadflash.Common.Monad.{M, through, after, through_require, pure-done}
use deadflash.Device.{File}
use deadflash.Device.Posix.{Os, Laws}
use deadflash.Device.Files.{read_at, write_at}
use deadflash.Device.Transfer.{read_at-content, write_at-before, write_at-done}
use deadflash.Pipeline.{Run, through_io, round_up}
use deadflash.Pipeline.Write.{padded, judge, write_attempts, write_round, write_loop}
use deadflash.Sha256
use deadflash.Sha256.Stream.{update-append, init-IsReady}

-- What is written starts with what was read.
pub padded-done :
    (target : File) (buffer_size : ℕ) (bytes out : List ℕ)
    → padded target buffer_size bytes ≡ done out
    → (zeros : List ℕ) × (out ≡ bytes ++ zeros)
unfolding padded
padded-done target buffer_size bytes out e =
    elim (Bool-cases (target.is_device && not (length bytes % target.alignment == 0))) [
      | inr p ↦ ([], sym (done_inj (rw (p, padded) at e)) ∙ sym (append-nil bytes))
      | inl p ↦
          let size = round_up (length bytes) target.alignment in
          elim (Bool-cases (size == 0 || ltb buffer_size size)) [
            | inl q ↦ absurd (failed≢done (rw (p, q, padded) at e))
            | inr q ↦ (replicate (size - length bytes) 0, sym (done_inj (rw (p, q, padded) at e)))
          ]
    ]

put_prefix :
    (offset : ℕ) (bytes zeros front c : List ℕ)
    → length front ≡ offset
    → offset + length (bytes ++ zeros) ≤ length c
    → take (offset + length (bytes ++ zeros)) c ≡ front ++ (bytes ++ zeros)
    → (offset + length bytes ≤ length c) × (take (offset + length bytes) c ≡ front ++ bytes)
put_prefix offset bytes zeros front c at inside e =
    let parts = length-append bytes zeros in
    let whole = length-append front bytes in
    (
      omega arith,
      sym (take-take (offset + length bytes) (offset + length (bytes ++ zeros)) c (omega arith))
          ∙ ap (take (offset + length bytes)) (e ∙ sym (append_assoc front bytes zeros))
          ∙ take-append (front ++ bytes) zeros (offset + length bytes) (omega arith),
    )

module _ (os : Os) (laws : Laws os) (target : File) (fd : ℕ)
    (open_fd : target.handle ≡ some fd) where
  open laws use {content}

  -- All bytes stand at the offset, and what stood before it still does.
  abbrev pub IsPut : List ℕ → ℕ → os.World → os.World → Type 0
  IsPut bytes offset w w' =
      (offset + length bytes ≤ length (content fd w'))
      × (take (offset + length bytes) (content fd w') ≡ take offset (content fd w) ++ bytes)

  -- A retry that puts the bytes there does so after any attempt.
  IsPut-after :
      (bytes : List ℕ) (offset : ℕ) {outcome : Outcome ℕ} (w w1 w' : os.World)
      → offset ≤ length (content fd w)
      → write_at os target bytes offset w ≡ (outcome, w1)
      → (offset ≤ length (content fd w1) → IsPut bytes offset w1 w')
      → IsPut bytes offset w w'
  IsPut-after bytes offset w w1 w' inside e again =
      let (kept, longer) = write_at-before os laws target fd offset bytes w open_fd inside in
      let kept1 = rw e at kept in
      let longer1 = rw e at longer in
      let (a, b) = again (omega arith) in (a, b ∙ ap (λ t. t ++ bytes) kept1)

  judge-done :
      (bytes : List ℕ) (offset : ℕ) (retry : Status → M (Run os.World) (Unit {0}))
      (outcome : Outcome ℕ) (w : os.World) (run1 run' : Run os.World)
      → offset ≤ length (content fd w)
      → write_at os target bytes offset w ≡ (outcome, run1.world)
      → ((s : Status) (r : Run os.World)
          → offset ≤ length (content fd r.world)
          → retry s r ≡ (done tt, run')
          → IsPut bytes offset r.world run'.world)
      → judge bytes retry outcome run1 ≡ (done tt, run')
      → IsPut bytes offset w run'.world
  unfolding judge
  judge-done bytes offset retry (failed s) w run1 run' inside e again h =
      IsPut-after bytes offset w run1.world run'.world inside e
        (λ i. again s _ i (after _ _ refl h))
  judge-done bytes offset retry (done n) w run1 run' inside e again h =
      elim (Bool-cases (n == length bytes)) [
        | inl p ↦
            let all : n ≡ length bytes = (==_iff n (length bytes)).0 p in
            let (v, last) = pure-done (rw (p, judge) at h) in
            let (a, b) =
              write_at-done os laws target fd offset bytes w open_fd inside run1.world
                (rw all at e) in
            (rw (← last) a, rw (← last) b)
        | inr p ↦
            IsPut-after bytes offset w run1.world run'.world inside e
              (λ i. again err_io _ i (after _ _ refl (rw (p, judge) at h)))
      ]

  -- Attempts that end well leave all bytes at the offset, whatever failed attempts wrote there.
  pub write_attempts-done :
      (left : ℕ) (s : Status) (bytes : List ℕ) (offset : ℕ) (run run' : Run os.World)
      → offset ≤ length (content fd run.world)
      → write_attempts os left s target bytes offset run ≡ (done tt, run')
      → IsPut bytes offset run.world run'.world
  unfolding write_attempts
  write_attempts-done zero s bytes offset run run' inside e = absurd (failed≢done (ap (λ p. p.0) e))
  write_attempts-done (suc left) s bytes offset run run' inside e =
      through _ _ e (λ outcome run1 e1 h1.
        judge-done bytes offset _ outcome run.world run1 run' inside
          (λ i. (done_inj (ap (λ p. p.0) e1) i, (e1 i).1.world))
          (λ s' r i h. write_attempts-done left s' bytes offset r run' i h) h1)

  -- One round: the bytes read are put at the offset, and hashed.
  pub write_round-done :
      (source : File) (buffer_size retries wanted offset : ℕ) (ctx ctx' : Sha256.Ctx)
      (run run' : Run os.World)
      → offset ≤ length (content fd run.world)
      → write_round os source target buffer_size retries wanted offset ctx run ≡ (done ctx', run')
      → (bytes : List ℕ) × (length bytes ≡ wanted)
        × (ctx' ≡ Sha256.update ctx bytes)
        × (offset + wanted ≤ length (content fd run'.world))
        × (take (offset + wanted) (content fd run'.world)
            ≡ take offset (content fd run.world) ++ bytes)
  unfolding write_round
  write_round-done source buffer_size retries wanted offset ctx ctx' run run' inside e =
      through_io (read_at os source wanted offset) _ e (λ bytes w e1 h1.
        let (full, h2) = through_require (length bytes == wanted) _ _ h1 in
        through _ _ h2 (λ out run2 e2 h3. through _ _ h3 (λ u run3 e3 h4.
          let len : length bytes ≡ wanted = (==_iff (length bytes) wanted).0 full in
          let same : content fd run2.world ≡ content fd run.world =
            ap (λ r. content fd r.1.world) (sym e2)
            ∙ ap (λ r. content fd r.1) (sym e1)
            ∙ read_at-content os laws fd source wanted offset run.world in
          let (zeros, out_is) = padded-done target buffer_size bytes out (ap (λ p. p.0) e2) in
          let (a, b) = write_attempts-done retries ok out offset run2 run3 (rw same inside) e3 in
          let (c, last) = pure-done (after _ _ refl (after _ _ refl (after _ _ refl h4))) in
          let (lies, put) =
            put_prefix offset bytes zeros (take offset (content fd run.world))
              (content fd run3.world)
              (omega (arith, length-take offset (content fd run.world), inside)) (rw out_is at a)
              (rw (out_is, same) at b) in
          let end = ap (λ r. content fd r.world) last in
          (bytes, len, sym c, rw (← end, ← len) lies, rw (← end, ← len) put))))

  -- The rest of the loop, where the first `offset` bytes of the target are those hashed so far.
  pub write_loop-done :
      (fuel : ℕ) (source : File) (buffer_size retries offset : ℕ) (ctx : Sha256.Ctx)
      (run run' : Run os.World)
      → source.size_bytes < 2 ^ 64
      → 0 < buffer_size
      → source.size_bytes - offset ≤ fuel
      → offset ≤ source.size_bytes
      → offset ≤ length (content fd run.world)
      → write_loop os fuel source target buffer_size retries offset
          (Sha256.update Sha256.init (take offset (content fd run.world)))
          run
        ≡ (done ctx, run')
      → (ctx ≡ Sha256.update Sha256.init (take source.size_bytes (content fd run'.world)))
        × (source.size_bytes ≤ length (content fd run'.world))
  unfolding write_loop
  write_loop-done zero source buffer_size retries offset ctx run run' small b0 enough le has e =
      let whole : offset ≡ source.size_bytes = omega arith in
      let (c, r) = pure-done e in
      let end = ap (λ s. content fd s.world) r in
      (rw (← whole, ← end) (sym c), rw (← end) (omega arith))
  write_loop-done (suc fuel) source buffer_size retries offset ctx run run' small b0 enough le has
        e =
      let left = source.size_bytes - offset in
      let wanted = if ltb left buffer_size then left else buffer_size in
      elim (Bool-cases (ltb offset source.size_bytes)) [
        | inr p ↦
            let whole : offset ≡ source.size_bytes =
              omega (arith, ltb→le offset source.size_bytes p) in
            let (c, r) = pure-done (rw (p, write_loop) at e) in
            let end = ap (λ s. content fd s.world) r in
            (rw (← whole, ← end) (sym c), rw (← end) (omega arith))
        | inl p ↦ through _ _ (rw (p, write_loop) at e) (λ ctx1 run1 e1 h1.
            let (bytes, len, upd, lies, put) =
              write_round-done source buffer_size retries wanted offset _ ctx1 run run1 has e1 in
            let more = ltb→lt offset source.size_bytes p in
            let some_left : 0 < left = omega arith in
            let bounds = smaller_bounds left buffer_size some_left b0 in
            let next : add64 offset wanted ≡ offset + wanted = omega arith in
            let ctx_next =
              upd
              ∙ update-append Sha256.init (take offset (content fd run.world)) bytes init-IsReady
              ∙ ap (Sha256.update Sha256.init) (sym put) in
            write_loop-done fuel source buffer_size retries (offset + wanted) ctx run1 run' small b0
              (omega arith) (omega arith) lies (rw (next, ctx_next) at h1))
      ]
