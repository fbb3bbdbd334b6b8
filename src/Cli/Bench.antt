-- ===== src/Cli/Bench.antt =====
-- The command `bench` of src/main.c, but for the times, which it measures, sorts and prints.
use deadflash.Base.{
  ℕ, zero, suc, ◌+◌, ◌-◌, ◌*◌, ◌%◌, Bool, true, false, none, some, List, [], ◌∷◌, ◌++◌, ltb, take,
  if◌then◌else◌,
}
use deadflash.Base.Texts.{codes}
use deadflash.Cli.{Args, parse_options}
use deadflash.Cli.Options.{BenchArgs, bench_round, bench_defaults}
use deadflash.Cli.Seal.{Exit}
use deadflash.Common.{done, failed, verify_full}
use deadflash.Device.{WriteOptions}
use deadflash.Device.Posix.{Os}
use deadflash.Device.Stdio.{Stdio}
use deadflash.Pipeline.{default_buffer_size}
use deadflash.Pipeline.Write.{write_image}

-- `snprintf(source_path, 4096, "%s.deadflash-bench-source", target)`
unfoldable pub bench_source : List ℕ → List ℕ
bench_source target = take 4095 (target ++ codes ".deadflash-bench-source")

abbrev pub bench_chunk : ℕ
bench_chunk = 1024 * 1024

-- `buffer[i] = (i * 131 + 17) & 0xff`, from a number on.
unfoldable pub bench_pattern : ℕ → ℕ → List ℕ
bench_pattern zero i = []
bench_pattern (suc n) i = (i * 131 + 17) % 256 ∷ bench_pattern n (i + 1)

abbrev pub bench_options : WriteOptions
bench_options = record {
  buffer_size = default_buffer_size;
  write_retries = 4;
  verify_mode = verify_full;
  sample_count = 0;
  allow_device = false;
  force_mounted = false;
  force_system_disk = false;
  direct_io = false;
  truncate_regular_file = true;
  confirmation_token = none;
}

module _ (os : Os) (stdio : Stdio os) where
  -- The source is written chunk by chunk; each round writes a byte at least, so as many rounds as there are
  -- bytes are enough.
  unfoldable pub fill_loop : ℕ → List ℕ → ℕ → ℕ → os.World → Bool × os.World
  fill_loop zero path size written w = (true, w)
  fill_loop (suc fuel) path size written w =
      let n = if ltb (size - written) bench_chunk then size - written else bench_chunk in
      elim (ltb written size) [
        | false ↦ (true, w)
        | true ↦
            let (printed, w1) = stdio.print path (take n (bench_pattern bench_chunk 0)) w in
            elim printed [ false ↦ (false, w1) | true ↦ fill_loop fuel path size (written + n) w1 ]
      ]

  -- The runs that are left; the source is removed at the end, and where one fails.
  unfoldable pub run_loop : ℕ → List ℕ → List ℕ → os.World → Exit os.World
  run_loop zero path target w = (0, stdio.remove path w)
  run_loop (suc n) path target w =
      let (r, run) = write_image os path target (some bench_options) w in
      elim r [
        | failed e ↦ (1, stdio.remove path run.world)
        | done u ↦ run_loop n path target run.world
      ]

  -- The room for the times, and the runs.
  unfoldable pub bench_runs : ℕ → List ℕ → List ℕ → os.World → Exit os.World
  unfolding run_loop
  bench_runs runs path target w =
      let (room, w1) = stdio.malloc (runs * 8) w in
      elim room [ false ↦ (1, stdio.remove path w1) | true ↦ run_loop runs path target w1 ]

  -- The stream is closed whether or not it could be written.
  unfoldable pub bench_filled : BenchArgs → List ℕ → List ℕ → Bool × os.World → Exit os.World
  unfolding bench_runs
  bench_filled a path target (false, w) = (1, (stdio.fclose path w).1)
  bench_filled a path target (true, w) =
      let (closed, w1) = stdio.fclose path w in
      elim closed [ false ↦ (1, w1) | true ↦ bench_runs a.runs path target w1 ]

  unfoldable pub bench_created : BenchArgs → List ℕ → List ℕ → os.World → Exit os.World
  unfolding fill_loop bench_filled
  bench_created a path target w =
      let (room, w1) = stdio.malloc bench_chunk w in
      elim room [
        | false ↦ (1, (stdio.fclose path w1).1)
        | true ↦ bench_filled a path target (fill_loop a.size path a.size 0 w1)
      ]

  unfoldable pub command_bench : Args → os.World → Exit os.World
  unfolding bench_source bench_created
  command_bench [] w = (2, w)
  command_bench (target ∷ rest) w = elim (parse_options bench_round bench_defaults rest) [
    | none ↦ (2, w)
    | some a ↦
        let (created, w1) = stdio.create (bench_source target) w in
        elim created [ false ↦ (1, w1) | true ↦ bench_created a (bench_source target) target w1 ]
  ]
