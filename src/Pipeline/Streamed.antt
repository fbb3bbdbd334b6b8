-- ===== src/Pipeline/Streamed.antt =====
-- The write phase of `df_write_image`: what was planned is what the target holds.
use deadflash.Base.{
  ℕ, ◌^◌, ◌≤◌, ◌<◌, ◌==◌, ◌≡◌, refl, sym, ap, ◌∙◌, some, List, ◌∷◌, length, take, arith, Bool-cases,
  inl, inr, ltb, if◌then◌else◌, All, IsByte,
}
use deadflash.Common.{done, failed≢done, constant_time_equal}
use deadflash.Common.Compare.{constant_time_equal_iff}
use deadflash.Common.Monad.{through, after, through_last}
use deadflash.Device.{File, WriteOptions}
use deadflash.Device.Posix.{Os, Laws}
use deadflash.Pipeline.{Run, write_phase, through_io, round_up, aligned_alloc}
use deadflash.Pipeline.Readback.{whole_message}
use deadflash.Pipeline.Written.{write_loop-done}
use deadflash.Pipeline.Write.{stream_phase}
use deadflash.Sha256
use deadflash.Sha256.Digest.{final-IsDigest}
use deadflash.Sha256.Stream.{update-nil}

-- Once the write phase has succeeded, the target holds at least as many bytes as the source has, and
-- its first bytes, as many as the source has, have the planned hash. This is for a source below
-- 2 ^ 64 bytes and a planned hash of 32 bytes, with the handle of the target open, on a system that
-- keeps the laws; the source may have changed since it was hashed.
pub stream_phase-done :
    (os : Os) (laws : Laws os) (source target : File) (fd : ℕ) (options : WriteOptions)
    (planned : List ℕ) (run run' : Run os.World)
    → target.handle ≡ some fd
    → source.size_bytes < 2 ^ 64
    → length planned ≡ 32
    → All IsByte planned
    → stream_phase os source target options planned run ≡ (done tt, run')
    → (Sha256.sha256_buffer (take source.size_bytes (laws.content fd run'.world)) ≡ planned)
      × (source.size_bytes ≤ length (laws.content fd run'.world))
unfolding stream_phase
stream_phase-done os laws source target fd options planned run run' open_fd small size bytes e =
    let alignment = if ltb 4096 target.alignment then target.alignment else 4096 in
    let buffer_size = round_up options.buffer_size alignment in
    elim (Bool-cases (buffer_size == 0)) [
      | inl p ↦ absurd (failed≢done (ap (λ r. r.0) (rw (p, stream_phase) at e)))
      | inr p ↦
          through_io (aligned_alloc os alignment buffer_size) _ (rw (p, stream_phase) at e)
            (λ u w e1 h1. through _ _ (after _ _ refl h1) (λ ctx run2 e2 h2.
              let run1 : Run os.World = record run {
                world = w;
                progress =
                    record { phase = write_phase; completed = 0; total = source.size_bytes }
                    ∷ run.progress;
              } in
              let some_buffer : 0 < buffer_size = grind (arith, p) in
              let (hashed, long) =
                write_loop-done os laws target fd open_fd source.size_bytes source buffer_size
                  options.write_retries 0 ctx run1 run2 small some_buffer (omega arith)
                  (omega arith) (omega arith) (rw update-nil e2) in
              let (equal, last) =
                through_last (constant_time_equal planned (Sha256.final ctx)) _ h2 in
              let end = ap (λ r. laws.content fd r.world) last in
              let (n, b) = final-IsDigest ctx in
              let same =
                (constant_time_equal_iff planned (Sha256.final ctx) bytes b (size ∙ sym n)).0
                  equal in
              (
                rw (← end) (sym (whole_message _) ∙ ap Sha256.final (sym hashed) ∙ sym same),
                rw (← end) long,
              )))
    ]
