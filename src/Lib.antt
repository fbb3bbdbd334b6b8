-- ===== src/Lib.antt =====
-- DEADFLASH writes disk images to files and devices, verifies them, formats FAT32 media and makes
-- proofs of what it wrote. This library models its core, function by function, and proves what the
-- functions promise.
--
-- The parts, and the files that model them:
--
--   src/common.c, include/deadflash/common.h     Common: status codes, digests, hexadecimal, numbers (Parse)
--   src/sha256.c, include/deadflash/sha256.h     Sha256: the whole file, executable
--   src/fat32.c, include/deadflash/fat32.h       Fat32: the layout, the sectors and the label (Sectors), the
--                                                formatter and the check (Format)
--   src/device.c, include/deadflash/io.h         Device: targets, tokens, guards, input and output (Files),
--                                                the list of targets (Listing)
--     in the Windows build                       Windows: physical drives; Identity, Volumes (mounts and
--                                                locks), Files (inspecting, opening, closing a target),
--                                                Listing
--   src/pipeline.c, include/deadflash/io.h       Pipeline: hashing (Hash), verification (Verify), writing (Write)
--   src/attest.c, include/deadflash/attest.h     Attest: the seal of a plan and the write that is held to it
--   src/proof.c, include/deadflash/proof.h       Proof: the Merkle root, the reader of manifests (Load), the
--                                                texts (Print), Create, Verify; Common/Hex: hex_decode_32
--   src/clean.c, include/deadflash/clean.h       Clean: the result; Layout (the query), Disk (df_clean_disk),
--                                                Report, with src/clean_stub.c
--   src/report.c, include/deadflash/report.h     Report: the JSON texts (Text), the evidence (Evidence); a reader
--                                                of JSON to state what is printed (Json, Reader)
--   src/proof_main.c, src/main.c                 Cli: options (Options), deadflash-proof (Seal), deadflash (Flash,
--                                                Format, Bench, and Main, its `main`)
--
-- A function keeps its name without the prefix df_. A handler of several steps that end at one label
-- is a `do` block over a state and an outcome (Common/Monad): `failed` is a status other than DF_OK, and
-- the state reached is kept. `df_write_image` calls the device layer to inspect and open its target
-- (Device/Files), the hash functions on each buffer, and `df_verify_image_internal` on files that it
-- opens again; `Run` (Pipeline) has the local variables that outlive a failure, the result and the
-- calls of the progress callback, in reverse. Pipeline/Forward follows the callback through the phases, and
-- Pipeline/States the final state and the counts. A bool is a Bool, a NUL-terminated string or a byte array a
-- list of bytes, an unsigned integer a native number with its wrap-around written out (Base/Words).
--
-- The operating system is an argument, the record `Os` of Device/Posix: each system call is a function on
-- a type of worlds. What POSIX documents of the calls is the record `Laws`, which the theorems on
-- bytes take: an interrupted call (EINTR) uses up one of finitely many signals, a read returns
-- what stands at its offset, perhaps less than asked, a write leaves the bytes before its offset alone
-- and puts what it transfers at the offset, and no other program writes to the files. Device/Disk is a
-- system in memory that keeps the laws. That equal files are accepted needs more, the record `Reliable` of
-- Device/Reliable: reads inside a file and allocations succeed. The streams and the allocator of the C
-- library are the record `Stdio` of Device/Stdio with laws of the same kind (Device/Streams has one in memory); what fscanf does at
-- %s and %lu is written out in Proof/Load.
--
-- The Windows calls of src/device.c and src/clean.c are the record `Win` of Windows, functions on a type of
-- worlds again, without laws: the theorems on cleaning assume nothing of the disk but what is meant by seeing
-- it, `Observed` (Windows/Kept), something that every call but the one that deletes a layout leaves as it is.
-- df_clean_disk uses the inspection, the opening with its locks and the closing of Windows/Files. The
-- commands of Cli call the operations of the other parts and give the exit status; arguments are
-- lists of texts without the name of the program, and behind the choice of a command without its name.
--
-- Loops run on fuel. The loops of src/sha256.c take a byte in each round, so the length of the input is
-- enough (Sha256/Stream); so do the loops over a file, which get its length, and the levels
-- of the Merkle root, which get the number of leaves; the loop on EINTR gets one
-- round more than there are signals; the loop of the FAT32 layout has the bound of 64 rounds of the source;
-- the loop that asks for a layout doubles its room from 4096 to 1048576, nine rounds, and runs with ten; the
-- verification of a cleaning has the 20 rounds of the source; the loops over options get the number of
-- arguments; the loop that writes the source of a benchmark gets its size; the reader of JSON gets the size of the value.
--
-- Not modelled: checks of out-parameters against NULL, error messages and system error numbers, clocks and
-- the times of a result (a report takes them as texts), with those that the command bench sorts for its print, the
-- reading of mountinfo and sysfs (their answers enter as `BlockProbe`, and the names in /sys/class/block as an
-- argument), what the programs print on the standard streams, and the graphical interface. In
-- the Windows build, df_open_source, reading, writing, flushing and resizing are left out, so the pipeline is
-- that of the POSIX build. The clock of the formatter is an argument, and so are the prints of a report
-- as one call.
pub mod Attest
pub mod Base
pub mod Clean
pub mod Cli
pub mod Common
pub mod Device
pub mod Fat32
pub mod Pipeline
pub mod Proof
pub mod Report
pub mod Sha256
pub mod Windows
