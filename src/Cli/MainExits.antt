-- ===== src/Cli/MainExits.antt =====
-- What the exit status of deadflash (src/main.c) says of what was done.
use deadflash.Base.{
  ℕ, zero, suc, ◌*◌, ◌≡◌, refl, Bool, true, false, Option, none, some, List, [], ◌∷◌, ◌||◌, arith,
}
use deadflash.Base.Texts.{codes, text_eq}
use deadflash.Cli.{Args, parse_options}
use deadflash.Cli.Bench.{
  bench_source, bench_chunk, bench_options, fill_loop, run_loop, bench_runs, bench_filled,
  bench_created, command_bench,
}
use deadflash.Cli.Exits.{IsUntouched, parsed, either, status-ne-two}
use deadflash.Cli.Flash.{
  command_inspect, plan_image, command_plan, command_write_image, command_verify_image,
  command_verify_fat32,
}
use deadflash.Cli.Format.{command_format_fat32}
use deadflash.Cli.Main.{with_path, flash_main}
use deadflash.Cli.Options.{
  BenchArgs, bench_round, bench_defaults, size_round, write_round, verify_round, format_round,
  format_defaults, default_options,
}
use deadflash.Cli.Seal.{Exit}
use deadflash.Common.{Status, Outcome, done, failed, verify_full}
use deadflash.Device.Files.{inspect_target}
use deadflash.Device.Listing.{list_targets}
use deadflash.Device.Posix.{Os}
use deadflash.Device.Stdio.{Stdio}
use deadflash.Fat32.Format.{format_fat32, verify_fat32}
use deadflash.Pipeline.{Run, run_reset, default_buffer_size}
use deadflash.Pipeline.Verify.{verify_image}
use deadflash.Pipeline.Write.{write_image}
use deadflash.Report.Evidence.{Error, Times}

module _ (os : Os) where
  -- A status that is not 2 says nothing.
  abbrev IsRun : Exit os.World → Type 0
  IsRun e = e.0 ≡ 2 → ⊥

  run-IsUntouched : (w : os.World) (e : Exit os.World) → IsRun e → IsUntouched os w e
  run-IsUntouched w e h two = absurd (h two)

  with_path-IsUntouched :
      (command : List ℕ → os.World → Exit os.World)
      → ((path : List ℕ) (w : os.World) → IsRun (command path w))
      → (args : Args) (w : os.World) → IsUntouched os w (with_path command args w)
  with_path-IsUntouched command h [] w e = refl
  with_path-IsUntouched command h (path ∷ []) w e = absurd (h path w e)
  with_path-IsUntouched command h (path ∷ other ∷ rest) w e = refl

  command_inspect-IsRun : (path : List ℕ) (w : os.World) → IsRun (command_inspect os path w)
  unfolding command_inspect
  command_inspect-IsRun path w = status-ne-two (inspect_target os path w).0

  command_verify_fat32-IsRun :
      (path : List ℕ) (w : os.World) → IsRun (command_verify_fat32 os path w)
  unfolding command_verify_fat32
  command_verify_fat32-IsRun path w = status-ne-two (verify_fat32 os path w).0

  command_plan-IsUntouched :
      (args : Args) (w : os.World) → IsUntouched os w (command_plan os args w)
  unfolding command_plan
  command_plan-IsUntouched [] w e = refl
  command_plan-IsUntouched (image ∷ []) w e = refl
  command_plan-IsUntouched (image ∷ target ∷ rest) w e =
      parsed os w (parse_options (size_round (codes "--buffer")) default_buffer_size rest) _
        (λ n. run-IsUntouched w _ (status-ne-two (plan_image os image target n (run_reset w [])).0))
        e

  command_verify_image-IsUntouched :
      (args : Args) (w : os.World) → IsUntouched os w (command_verify_image os args w)
  unfolding command_verify_image
  command_verify_image-IsUntouched [] w e = refl
  command_verify_image-IsUntouched (image ∷ []) w e = refl
  command_verify_image-IsUntouched (image ∷ target ∷ rest) w e =
      parsed os w
        (parse_options verify_round
          (record { mode = verify_full; samples = 64; buffer_size = default_buffer_size }) rest)
        _
        (λ a.
          run-IsUntouched w _
            (status-ne-two (verify_image os image target a.mode a.samples a.buffer_size w).0))
        e

  module _ (stdio : Stdio os) where
    -- A call with two ways on.
    tested-IsRun :
        (r : Bool × os.World) (fails goes : os.World → Exit os.World)
        → ((w : os.World) → IsRun (fails w))
        → ((w : os.World) → IsRun (goes w))
        → IsRun (
            let (b, w1) = r in elim b as (λ _. Exit os.World) [ false ↦ fails w1 | true ↦ goes w1 ])
    tested-IsRun (false, w1) fails goes h k = h w1
    tested-IsRun (true, w1) fails goes h k = k w1

    one-IsRun : (f : os.World → os.World) (w : os.World) → IsRun (1, f w)
    one-IsRun f w e = absurd (omega arith)

    run_loop-IsRun :
        (n : ℕ) (path target : List ℕ) (w : os.World) → IsRun (run_loop os stdio n path target w)
    unfolding run_loop
    run_loop-IsRun zero path target w e = absurd (omega arith)
    run_loop-IsRun (suc n) path target w e =
        ends (write_image os path target (some bench_options) w) (run_loop-IsRun n path target) e
      where
        ends :
            (r : Outcome (Unit {0}) × Run os.World)
            → ((w : os.World) → IsRun (run_loop os stdio n path target w))
            → IsRun (
                let (x, run) = r in
                elim x as (λ _. Exit os.World) [
                  | failed e ↦ (1, stdio.remove path run.world)
                  | done u ↦ run_loop os stdio n path target run.world
                ])
        ends (failed x, run) ih e = absurd (omega arith)
        ends (done u, run) ih e = ih run.world e

    bench_runs-IsRun :
        (n : ℕ) (path target : List ℕ) (w : os.World) → IsRun (bench_runs os stdio n path target w)
    unfolding bench_runs
    bench_runs-IsRun n path target w =
        tested-IsRun (stdio.malloc (n * 8) w) (λ w. (1, stdio.remove path w))
          (run_loop os stdio n path target) (one-IsRun (stdio.remove path))
          (run_loop-IsRun n path target)

    bench_filled-IsRun :
        (a : BenchArgs) (path target : List ℕ) (r : Bool × os.World)
        → IsRun (bench_filled os stdio a path target r)
    unfolding bench_filled
    bench_filled-IsRun a path target (false, w) = one-IsRun (λ w. (stdio.fclose path w).1) w
    bench_filled-IsRun a path target (true, w) =
        tested-IsRun (stdio.fclose path w) (λ w. (1, w)) (bench_runs os stdio a.runs path target)
          (one-IsRun (λ w. w)) (bench_runs-IsRun a.runs path target)

    bench_created-IsRun :
        (a : BenchArgs) (path target : List ℕ) (w : os.World)
        → IsRun (bench_created os stdio a path target w)
    unfolding bench_created
    bench_created-IsRun a path target w =
        tested-IsRun (stdio.malloc bench_chunk w) (λ w. (1, (stdio.fclose path w).1))
          (λ w. bench_filled os stdio a path target (fill_loop os stdio a.size path a.size 0 w))
          (one-IsRun (λ w. (stdio.fclose path w).1))
          (λ w. bench_filled-IsRun a path target (fill_loop os stdio a.size path a.size 0 w))

    command_bench-IsUntouched :
        (args : Args) (w : os.World) → IsUntouched os w (command_bench os stdio args w)
    unfolding command_bench
    command_bench-IsUntouched [] w e = refl
    command_bench-IsUntouched (target ∷ rest) w e =
        parsed os w (parse_options bench_round bench_defaults rest) _
          (λ a. run-IsUntouched w _ (
            tested-IsRun (stdio.create (bench_source target) w) (λ w. (1, w))
              (bench_created os stdio a (bench_source target) target) (one-IsRun (λ w. w))
              (bench_created-IsRun a (bench_source target) target)))
          e

    module _ (clock : ℕ) (times : Times) (error_of : Status → Error) where
      command_write_image-IsUntouched :
          (args : Args) (w : os.World)
          → IsUntouched os w (command_write_image os stdio clock times error_of args w)
      unfolding command_write_image
      command_write_image-IsUntouched [] w e = refl
      command_write_image-IsUntouched (source ∷ []) w e = refl
      command_write_image-IsUntouched (source ∷ target ∷ rest) w e =
          parsed os w
            (parse_options write_round (record { options = default_options; report_path = none })
              rest)
            _
            (λ a.
              run-IsUntouched w _
                (status-ne-two (write_image os source target (some a.options) w).0))
            e

      command_format_fat32-IsUntouched :
          (volume_clock : os.World → ℕ × os.World) (args : Args) (w : os.World)
          → IsUntouched os w
              (command_format_fat32 os stdio volume_clock clock times error_of args w)
      unfolding command_format_fat32
      command_format_fat32-IsUntouched volume_clock [] w e = refl
      command_format_fat32-IsUntouched volume_clock (target ∷ rest) w e =
          parsed os w (parse_options format_round format_defaults rest) _
            (λ a.
              run-IsUntouched w _
                (status-ne-two (format_fat32 os volume_clock target (some a.options) w).0))
            e

-- When deadflash exits with the status 2, for any arguments, it has called nothing: the world is as it was.
pub flash_main-two :
    (os : Os) (stdio : Stdio os) (read_dir : os.World → Option (List (List ℕ)) × os.World)
    (volume_clock : os.World → ℕ × os.World) (clock : ℕ) (times : Times) (error_of : Status → Error)
    (args : Args) (w : os.World)
    → (flash_main os stdio read_dir volume_clock clock times error_of args w).0 ≡ 2
    → (flash_main os stdio read_dir volume_clock clock times error_of args w).1 ≡ w
unfolding flash_main
flash_main-two os stdio read_dir volume_clock clock times error_of [] w e = refl
flash_main-two os stdio read_dir volume_clock clock times error_of (command ∷ args) w e =
    either os (text_eq command (codes "version") || text_eq command (codes "--version")) _ _
      (λ h. refl)
      (either os (text_eq command (codes "list")) _ _
        (run-IsUntouched os w _ (status-ne-two (list_targets os read_dir w).0))
        (either os (text_eq command (codes "inspect")) _ _
          (with_path-IsUntouched os (command_inspect os) (command_inspect-IsRun os) args w)
          (either os (text_eq command (codes "plan")) _ _ (command_plan-IsUntouched os args w) (
            either os (text_eq command (codes "write")) _ _
              (command_write_image-IsUntouched os stdio clock times error_of args w)
              (either os (text_eq command (codes "verify")) _ _
                (command_verify_image-IsUntouched os args w)
                (either os (text_eq command (codes "format-fat32")) _ _
                  (command_format_fat32-IsUntouched os stdio clock times error_of volume_clock args
                    w)
                  (either os (text_eq command (codes "verify-fat32")) _ _
                    (with_path-IsUntouched os (command_verify_fat32 os)
                      (command_verify_fat32-IsRun os) args w)
                    (either os (text_eq command (codes "bench")) _ _
                      (command_bench-IsUntouched os stdio args w) (λ h. refl)))))))))
      e
