-- ===== src/Cli/Tests.antt =====
-- Command lines of deadflash-proof, and the theorems on src/main.c and src/proof_main.c at them.
use deadflash.Attest.{attest_plan, attested_start}
use deadflash.Attest.Tests.{whole_program, before, seal_of}
use deadflash.Base.{ℕ, ◌≡◌, refl, Bool, false, some, List, [], ◌∷◌}
use deadflash.Base.Texts.{codes}
use deadflash.Cli.{Args, parse_options, valued, switch, unknown_option}
use deadflash.Cli.Bench.{command_bench}
use deadflash.Cli.Exits.{proof_main-two}
use deadflash.Cli.Main.{flash_main}
use deadflash.Cli.MainExits.{flash_main-two}
use deadflash.Cli.Options.{
  SealArgs, WriteArgs, VerifyArgs, FormatArgs, BenchArgs, seal_round, seal_defaults, size_round,
  write_round, verify_round, format_round, bench_round, default_options,
}
use deadflash.Cli.Parsed.{Finishes, parse_options_ends}
use deadflash.Cli.Seal.{Exit, command_write, write_sealed, prove, proof_main}
use deadflash.Cli.Succeeded.{IsSealed, command_write-zero}
use deadflash.Common.{Status}
use deadflash.Common.Parse.{parse_size, parse_u64}
use deadflash.Device.Disk.{Disk, disk_os}
use deadflash.Device.Files.{resize_regular_file}
use deadflash.Device.Streams.{disk_stdio}
use deadflash.Report.Evidence.{Error, Times}

abbrev rest : Args
rest = codes "--buffer=512" ∷ codes "--direct" ∷ []

parse_options_ends_example :
    ((takes_proof : Bool) (set : SealArgs)
      → Finishes
          (seal_round takes_proof)
          set
          rest
          (parse_options (seal_round takes_proof) set rest))
    × ((name : List ℕ) (set : ℕ)
        → Finishes (size_round name) set rest (parse_options (size_round name) set rest))
    × ((set : WriteArgs) → Finishes write_round set rest (parse_options write_round set rest))
    × ((set : VerifyArgs) → Finishes verify_round set rest (parse_options verify_round set rest))
    × ((set : FormatArgs) → Finishes format_round set rest (parse_options format_round set rest))
    × ((set : BenchArgs) → Finishes bench_round set rest (parse_options bench_round set rest))
parse_options_ends_example = parse_options_ends rest

-- `seal` takes no proof.
misplaced :
    (proof_main disk_os disk_stdio
      (codes "write" ∷ codes "s" ∷ codes "t" ∷ codes "--proof" ∷ [])
      before).0
    ≡ 2
unfolding proof_main command_write parse_options seal_round valued switch unknown_option
misplaced = refl

proof_main-two_example :
    (proof_main disk_os disk_stdio
      (codes "write" ∷ codes "s" ∷ codes "t" ∷ codes "--proof" ∷ [])
      before).1
    ≡ before
proof_main-two_example =
    proof_main-two disk_os disk_stdio (codes "write" ∷ codes "s" ∷ codes "t" ∷ codes "--proof" ∷ [])
      before misplaced

-- The runs of `bench` are from 1 to 100.
abbrev bench_args : Args
bench_args = codes "bench" ∷ codes "t" ∷ codes "--runs" ∷ codes "101" ∷ []

abbrev no_times : Times
no_times = record {
  source_hash_ms = codes "0";
  write_ms = codes "0";
  flush_ms = codes "0";
  verify_ms = codes "0";
  total_ms = codes "0";
  write_mib_s = codes "0";
}

abbrev error_of : Status → Error
error_of status = record { code = status; negative = false; os_code = 0; message = [] }

abbrev ended : Exit Disk
ended =
    flash_main disk_os disk_stdio (λ w. (some [], w)) (λ w. (0, w)) 0 no_times error_of bench_args
      before

too_many : ended.0 ≡ 2
unfolding flash_main command_bench parse_options bench_round valued switch unknown_option parse_u64
too_many = refl

flash_main-two_example : ended.1 ≡ before
flash_main-two_example =
    flash_main-two disk_os disk_stdio (λ w. (some [], w)) (λ w. (0, w)) 0 no_times error_of
      bench_args before too_many

abbrev seal : List ℕ
seal =
    seal_of
      (attest_plan disk_os (codes "s") (codes "t")
        (some (record default_options { buffer_size = 512 })) (attested_start disk_os before)).0

abbrev write_args : Args
write_args = codes "--buffer=512" ∷ codes "--seal" ∷ seal ∷ []

abbrev after : Disk
after = (command_write disk_os disk_stdio (codes "s" ∷ codes "t" ∷ write_args) before).1

writes : (command_write disk_os disk_stdio (codes "s" ∷ codes "t" ∷ write_args) before).0 ≡ 0
unfolding command_write write_sealed prove parse_options seal_round seal_defaults valued switch
    unknown_option parse_size whole_program resize_regular_file
writes = refl

command_write-zero_example :
    IsSealed disk_os disk_stdio (codes "s") (codes "t") write_args before after
command_write-zero_example =
    command_write-zero disk_os disk_stdio (codes "s") (codes "t") write_args before after
      (λ i. (writes i, after))
