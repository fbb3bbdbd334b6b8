-- ===== src/Cli/Exits.antt =====
-- What the exit status of deadflash-proof (src/proof_main.c) says of what was done.
use deadflash.Attest.{attest_plan, write_image_attested}
use deadflash.Base.{
  ℕ, ◌≡◌, refl, Bool, true, false, Option, none, some, List, [], ◌∷◌, if◌then◌else◌, arith,
}
use deadflash.Base.Texts.{codes, text_eq}
use deadflash.Cli.{Args, parse_options}
use deadflash.Cli.Options.{SealArgs, seal_round, seal_defaults, size_round}
use deadflash.Cli.Seal.{
  Exit, status_of, command_seal, command_manifest, command_verify, prove, write_sealed,
  command_write, proof_main,
}
use deadflash.Common.{Outcome, done, failed}
use deadflash.Device.Posix.{Os}
use deadflash.Device.Stdio.{Stdio}
use deadflash.Pipeline.{Run, run_reset}
use deadflash.Proof.{Summary, default_chunk_size}
use deadflash.Proof.Create.{proof_create}
use deadflash.Proof.Verify.{proof_verify}

pub status-ne-two : {A : Type 0} (r : Outcome A) → status_of r ≡ 2 → ⊥
status-ne-two (done a) h = absurd (omega arith)
status-ne-two (failed e) h = absurd (omega arith)

module _ (os : Os) where
  -- With the status 2 nothing was called.
  abbrev pub IsUntouched : os.World → Exit os.World → Type 0
  IsUntouched w (status, w') = status ≡ 2 → w' ≡ w

  pub parsed :
      {S : Type 0} (w : os.World) (o : Option S) (goes : S → Exit os.World)
      → ((s : S) → IsUntouched w (goes s))
      → IsUntouched w (elim o as (λ _. Exit os.World) [ none ↦ (2, w) | some s ↦ goes s ])
  parsed w none goes h e = refl
  parsed w (some s) goes h e = h s e

  pub either :
      (b : Bool) {w : os.World} (r r' : Exit os.World)
      → IsUntouched w r
      → IsUntouched w r'
      → IsUntouched w (if b then r else r')
  either true r r' h k = h
  either false r r' h k = k

  command_seal-IsUntouched : (args : Args) (w : os.World) → IsUntouched w (command_seal os args w)
  unfolding command_seal
  command_seal-IsUntouched [] w e = refl
  command_seal-IsUntouched (image ∷ []) w e = refl
  command_seal-IsUntouched (image ∷ target ∷ rest) w e =
      parsed w (parse_options (seal_round false) seal_defaults rest) _
        (λ a e.
          absurd
            (status-ne-two (attest_plan os image target (some a.options) (run_reset w [])).0 e))
        e

  module _ (stdio : Stdio os) where
    command_manifest-IsUntouched :
        (args : Args) (w : os.World) → IsUntouched w (command_manifest os stdio args w)
    unfolding command_manifest
    command_manifest-IsUntouched [] w e = refl
    command_manifest-IsUntouched (image ∷ []) w e = refl
    command_manifest-IsUntouched (image ∷ proof ∷ rest) w e =
        parsed w (parse_options (size_round (codes "--chunk")) default_chunk_size rest) _
          (λ chunk_size e.
            absurd (status-ne-two (proof_create os stdio image proof chunk_size w).0 e))
          e

    command_verify-IsUntouched :
        (args : Args) (w : os.World) → IsUntouched w (command_verify os stdio args w)
    unfolding command_verify
    command_verify-IsUntouched (proof ∷ image ∷ target ∷ []) w e =
        absurd (status-ne-two (proof_verify os stdio proof image target w).0 e)
    command_verify-IsUntouched [] w e = refl
    command_verify-IsUntouched (a ∷ []) w e = refl
    command_verify-IsUntouched (a ∷ b ∷ []) w e = refl
    command_verify-IsUntouched (a ∷ b ∷ c ∷ d ∷ rest) w e = refl

    prove-ne-two :
        (image target : List ℕ) (path : Option (List ℕ)) (chunk : ℕ) (w : os.World)
        → (prove os stdio image target path chunk w).0 ≡ 2
        → ⊥
    unfolding prove
    prove-ne-two image target none chunk w e = absurd (omega arith)
    prove-ne-two image target (some path) chunk w e =
        ends (proof_create os stdio image path chunk w) e
      where
        ends :
            (r : Outcome Summary × os.World)
            → (let (x, w1) = r in
                elim x as (λ _. Exit os.World) [
                  | failed e ↦ (1, w1)
                  | done s ↦
                      let (r', c) = proof_verify os stdio path image target w1 in
                      (status_of r', c.world)
                ]).0
              ≡ 2
            → ⊥
        ends (failed x, w1) e = absurd (omega arith)
        ends (done s, w1) e = status-ne-two (proof_verify os stdio path image target w1).0 e

    write_sealed-IsUntouched :
        (image target : List ℕ) (a : SealArgs) (seal : Option (List ℕ)) (w : os.World)
        → IsUntouched w (write_sealed os stdio image target a seal w)
    unfolding write_sealed
    write_sealed-IsUntouched image target a none w e = refl
    write_sealed-IsUntouched image target a (some seal) w e =
        ends (write_image_attested os image target a.options seal w) e
      where
        ends :
            (r : Outcome (Unit {0}) × Run os.World)
            → (let (x, run) = r in
                elim x as (λ _. Exit os.World) [
                  | failed e ↦ (1, run.world)
                  | done u ↦ prove os stdio image target a.proof_path a.proof_chunk run.world
                ]).0
              ≡ 2
            → (let (x, run) = r in
                elim x as (λ _. Exit os.World) [
                  | failed e ↦ (1, run.world)
                  | done u ↦ prove os stdio image target a.proof_path a.proof_chunk run.world
                ]).1
              ≡ w
        ends (failed x, run) e = absurd (omega arith)
        ends (done u, run) e =
            absurd (prove-ne-two image target a.proof_path a.proof_chunk run.world e)

    command_write-IsUntouched :
        (args : Args) (w : os.World) → IsUntouched w (command_write os stdio args w)
    unfolding command_write
    command_write-IsUntouched [] w e = refl
    command_write-IsUntouched (image ∷ []) w e = refl
    command_write-IsUntouched (image ∷ target ∷ rest) w e =
        parsed w (parse_options (seal_round true) seal_defaults rest) _
          (λ a. write_sealed-IsUntouched image target a a.seal w) e

-- When deadflash-proof exits with the status 2, for any arguments, it has called nothing: the world is as
-- it was.
pub proof_main-two :
    (os : Os) (stdio : Stdio os) (args : Args) (w : os.World)
    → (proof_main os stdio args w).0 ≡ 2
    → (proof_main os stdio args w).1 ≡ w
unfolding proof_main
proof_main-two os stdio [] w e = refl
proof_main-two os stdio (command ∷ args) w e =
    either os (text_eq command (codes "seal")) _ _ (command_seal-IsUntouched os args w)
      (either os (text_eq command (codes "write")) _ _ (command_write-IsUntouched os stdio args w) (
        either os (text_eq command (codes "manifest")) _ _
          (command_manifest-IsUntouched os stdio args w)
          (either os (text_eq command (codes "verify")) _ _
            (command_verify-IsUntouched os stdio args w)
            (either os (text_eq command (codes "version")) _ _ (λ h. refl) (λ h. refl)))))
      e
