-- ===== src/Cli/Seal.antt =====
-- The program deadflash-proof: src/proof_main.c.
use deadflash.Attest.{attest_plan, write_image_attested}
use deadflash.Base.{ℕ, true, false, Option, none, some, List, [], ◌∷◌, if◌then◌else◌}
use deadflash.Base.Texts.{codes, text_eq}
use deadflash.Cli.{Args, parse_options}
use deadflash.Cli.Options.{SealArgs, seal_round, seal_defaults, size_round}
use deadflash.Common.{Outcome, done, failed}
use deadflash.Device.Posix.{Os}
use deadflash.Device.Stdio.{Stdio}
use deadflash.Pipeline.{run_reset}
use deadflash.Proof.{default_chunk_size}
use deadflash.Proof.Create.{proof_create}
use deadflash.Proof.Verify.{proof_verify}

-- The exit status, with the world reached.
abbrev pub Exit : Type 0 → Type 0
Exit W = ℕ × W

-- `fail` gives the status 1.
abbrev pub status_of : {A : Type 0} → Outcome A → ℕ
status_of (done a) = 0
status_of (failed e) = 1

abbrev pub exit_of : {A W : Type 0} → Outcome A × W → Exit W
exit_of (r, w) = (status_of r, w)

module _ (os : Os) where
  unfoldable pub command_seal : Args → os.World → Exit os.World
  command_seal [] w = (2, w)
  command_seal (image ∷ []) w = (2, w)
  command_seal (image ∷ target ∷ rest) w =
      elim (parse_options (seal_round false) seal_defaults rest) [
        | none ↦ (2, w)
        | some a ↦
            let (r, run) = attest_plan os image target (some a.options) (run_reset w []) in
            (status_of r, run.world)
      ]

  module _ (stdio : Stdio os) where
    unfoldable pub command_manifest : Args → os.World → Exit os.World
    command_manifest [] w = (2, w)
    command_manifest (image ∷ []) w = (2, w)
    command_manifest (image ∷ proof ∷ rest) w =
        elim (parse_options (size_round (codes "--chunk")) default_chunk_size rest) [
          | none ↦ (2, w)
          | some chunk_size ↦ exit_of (proof_create os stdio image proof chunk_size w)
        ]

    unfoldable pub command_verify : Args → os.World → Exit os.World
    command_verify (proof ∷ image ∷ target ∷ []) w =
        let (r, c) = proof_verify os stdio proof image target w in (status_of r, c.world)
    command_verify [] w = (2, w)
    command_verify (a ∷ []) w = (2, w)
    command_verify (a ∷ b ∷ []) w = (2, w)
    command_verify (a ∷ b ∷ c ∷ d ∷ rest) w = (2, w)

    -- The proof after a write: made, and verified against the target.
    unfoldable pub prove : List ℕ → List ℕ → Option (List ℕ) → ℕ → os.World → Exit os.World
    prove image target none chunk w = (0, w)
    prove image target (some path) chunk w =
        let (r, w1) = proof_create os stdio image path chunk w in
        elim r [
          | failed e ↦ (1, w1)
          | done s ↦
              let (r', c) = proof_verify os stdio path image target w1 in (status_of r', c.world)
        ]

    unfoldable pub write_sealed :
        List ℕ → List ℕ → SealArgs → Option (List ℕ) → os.World → Exit os.World
    write_sealed image target a none w = (2, w)
    write_sealed image target a (some seal) w =
        let (r, run) = write_image_attested os image target a.options seal w in
        elim r [
          | failed e ↦ (1, run.world)
          | done u ↦ prove image target a.proof_path a.proof_chunk run.world
        ]

    unfoldable pub command_write : Args → os.World → Exit os.World
    command_write [] w = (2, w)
    command_write (image ∷ []) w = (2, w)
    command_write (image ∷ target ∷ rest) w =
        elim (parse_options (seal_round true) seal_defaults rest) [
          | none ↦ (2, w)
          | some a ↦ write_sealed image target a a.seal w
        ]

    -- `main`
    unfoldable pub proof_main : Args → os.World → Exit os.World
    proof_main [] w = (2, w)
    proof_main (command ∷ args) w =
        if text_eq command (codes "seal")
        then command_seal args w
        else if text_eq command (codes "write")
        then command_write args w
        else if text_eq command (codes "manifest")
        then command_manifest args w
        else if text_eq command (codes "verify")
        then command_verify args w
        else if text_eq command (codes "version")
        then (0, w)
        else (2, w)
