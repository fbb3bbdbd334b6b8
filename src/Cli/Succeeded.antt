-- ===== src/Cli/Succeeded.antt =====
-- What has been done when `deadflash-proof write` (src/proof_main.c) succeeds.
use deadflash.Attest.{write_image_attested}
use deadflash.Base.{ℕ, ◌≡◌, refl, ap, Option, none, some, List, ◌∷◌, arith, true}
use deadflash.Cli.{Args, parse_options}
use deadflash.Cli.Options.{SealArgs, seal_round, seal_defaults}
use deadflash.Cli.Seal.{Exit, status_of, prove, write_sealed, command_write}
use deadflash.Common.{Outcome, done, failed}
use deadflash.Device.Posix.{Os}
use deadflash.Device.Stdio.{Stdio}
use deadflash.Pipeline.{Run}
use deadflash.Proof.{Summary}
use deadflash.Proof.Create.{proof_create}
use deadflash.Proof.Verify.{Check, proof_verify}

status-zero : (r : Outcome (Unit {0})) → status_of r ≡ 0 → r ≡ done tt
status-zero (done u) e = refl
status-zero (failed x) e = absurd (omega arith)

module _ (os : Os) (stdio : Stdio os) where
  -- Where a proof was asked for, it was made and the target verified against it.
  abbrev pub IsProvenBy : List ℕ → List ℕ → Option (List ℕ) → ℕ → os.World → os.World → Type 0
  IsProvenBy image target none chunk w w' = w ≡ w'
  IsProvenBy image target (some path) chunk w w' =
      (s : Summary) × (w1 : os.World) × (c : Check os.World) × (proof_create os stdio image path
          chunk w
        ≡ (done s, w1))
      × (proof_verify os stdio path image target w1 ≡ (done tt, c))
      × (c.world ≡ w')

  prove-IsProvenBy :
      (image target : List ℕ) (path : Option (List ℕ)) (chunk : ℕ) (w w' : os.World)
      → prove os stdio image target path chunk w ≡ (0, w')
      → IsProvenBy image target path chunk w w'
  unfolding prove
  prove-IsProvenBy image target none chunk w w' e = ap (λ r. r.1) e
  prove-IsProvenBy image target (some path) chunk w w' e =
      ends (proof_create os stdio image path chunk w) refl e
    where
      ends :
          (r : Outcome Summary × os.World)
          → proof_create os stdio image path chunk w ≡ r
          → (let (x, w1) = r in
              elim x as (λ _. Exit os.World) [
                | failed e ↦ (1, w1)
                | done s ↦
                    let (r', c) = proof_verify os stdio path image target w1 in
                    (status_of r', c.world)
              ])
            ≡ (0, w')
          → IsProvenBy image target (some path) chunk w w'
      ends (failed x, w1) eq e = absurd (omega (arith, ap (λ r. r.0) e))
      ends (done s, w1) eq e =
          let verified = proof_verify os stdio path image target w1 in
          (
            s,
            w1,
            verified.1,
            eq,
            ap (λ r. (r, verified.1)) (status-zero verified.0 (ap (λ r. r.0) e)),
            ap (λ r. r.1) e,
          )

  -- The write was held to the seal given.
  abbrev pub IsSealed : List ℕ → List ℕ → Args → os.World → os.World → Type 0
  IsSealed image target rest w w' =
      (a : SealArgs) × (seal : List ℕ) × (run : Run os.World) × (parse_options (seal_round true)
          seal_defaults rest
        ≡ some a)
      × (a.seal ≡ some seal)
      × (write_image_attested os image target a.options seal w ≡ (done tt, run))
      × IsProvenBy image target a.proof_path a.proof_chunk run.world w'

  write_sealed-done :
      (image target : List ℕ) (a : SealArgs) (seal : Option (List ℕ)) (w w' : os.World)
      → write_sealed os stdio image target a seal w ≡ (0, w')
      → (given : List ℕ) × (run : Run os.World) × (seal ≡ some given)
        × (write_image_attested os image target a.options given w ≡ (done tt, run))
        × IsProvenBy image target a.proof_path a.proof_chunk run.world w'
  unfolding write_sealed
  write_sealed-done image target a none w w' e = absurd (omega (arith, ap (λ r. r.0) e))
  write_sealed-done image target a (some seal) w w' e =
      ends (write_image_attested os image target a.options seal w) refl e
    where
      ends :
          (r : Outcome (Unit {0}) × Run os.World)
          → write_image_attested os image target a.options seal w ≡ r
          → (let (x, run) = r in
              elim x as (λ _. Exit os.World) [
                | failed e ↦ (1, run.world)
                | done u ↦ prove os stdio image target a.proof_path a.proof_chunk run.world
              ])
            ≡ (0, w')
          → (given : List ℕ) × (run : Run os.World) × (some seal ≡ some given)
            × (write_image_attested os image target a.options given w ≡ (done tt, run))
            × IsProvenBy image target a.proof_path a.proof_chunk run.world w'
      ends (failed x, run) eq e = absurd (omega (arith, ap (λ r. r.0) e))
      ends (done tt, run) eq e = (
        seal,
        run,
        refl,
        eq,
        prove-IsProvenBy image target a.proof_path a.proof_chunk run.world w' e,
      )

-- When `deadflash-proof write`, given the paths of an image and a target, exits with the status 0, its
-- options could be read and give a seal; df_write_image_attested succeeded with these options and
-- this seal; and where a path for a proof was given, df_proof_create succeeded in the world that the
-- write left, and df_proof_verify of the proof, the image and the target succeeded after that.
pub command_write-zero :
    (os : Os) (stdio : Stdio os) (image target : List ℕ) (rest : Args) (w w' : os.World)
    → command_write os stdio (image ∷ target ∷ rest) w ≡ (0, w')
    → IsSealed os stdio image target rest w w'
unfolding command_write
command_write-zero os stdio image target rest w w' e =
    ends (parse_options (seal_round true) seal_defaults rest) refl e
  where
    ends :
        (o : Option SealArgs)
        → parse_options (seal_round true) seal_defaults rest ≡ o
        → (elim o as (λ _. Exit os.World) [
          | none ↦ (2, w)
          | some a ↦ write_sealed os stdio image target a a.seal w
        ])
          ≡ (0, w')
        → IsSealed os stdio image target rest w w'
    ends none eq e = absurd (omega (arith, ap (λ r. r.0) e))
    ends (some a) eq e =
        let (seal, run, given, wrote, proven) =
          write_sealed-done os stdio image target a a.seal w w' e in
        (a, seal, run, eq, given, wrote, proven)
