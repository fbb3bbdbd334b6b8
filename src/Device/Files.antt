-- ===== src/Device/Files.antt =====
-- Inspection of a target, and the operations on open files. The handle of a closed file is `none`.
use deadflash.Base.{
  ℕ, zero, suc, true, false, not, ◌&&◌, Option, none, some, List, [], ◌∷◌, ◌==◌, if◌then◌else◌,
}
use deadflash.Base.Texts.{text_eq}
use deadflash.Common.{
  err_invalid_argument, err_open, err_io, err_unsupported, err_identity_changed, Outcome, done,
  failed,
}
use deadflash.Common.Monad.{M, ◌>>=◌, ◌>>◌, pure, throw, call}
use deadflash.Device.{
  TargetInfo, File, WriteOptions, regular_file, block_device, char_device, is_regular_file,
  make_token, target_info_defaults, validate_destructive_target,
}
use deadflash.Device.Posix.{
  Os, Io, transferred, interrupted, io_failed, Stat, stat_missing, stat_failed, is_block, is_char,
  is_other, is_regular, Opened, opened, open_invalid, open_failed, BlockProbe,
}

-- df_file_reset
abbrev pub file_reset : File
file_reset = record {
  handle = none;
  path = [];
  size_bytes = 0;
  alignment = 512;
  writable = false;
  direct_io = false;
  is_device = false;
}

-- The branch of a block device, on what the system tells of it.
pub block_target : TargetInfo → BlockProbe → Outcome TargetInfo
block_target info p =
    let logical = if p.logical == 0 then 512 else p.logical in
    if not p.can_open then failed err_open else elim p.size [
      | none ↦ failed err_io
      | some bytes ↦ done (record info {
        kind = block_device;
        size_bytes = bytes;
        logical_sector_size = logical;
        physical_sector_size = if p.physical == 0 then logical else p.physical;
        read_only = p.read_only;
        removable = p.removable;
        mounted = p.mounted;
        system_disk = p.system_disk;
        descriptor_present = p.descriptor_present;
        serial_bound = p.serial_bound;
        bus_type = p.bus_type;
        vendor = p.vendor;
        product = p.product;
        revision = p.revision;
        serial_sha256 = p.serial_sha256;
      })
    ]

-- What a transfer is to the caller: an error other than EINTR is an input/output error.
abbrev pub io_result : {S A : Type 0} → Io A × S → Outcome A × S
io_result (transferred a, w) = (done a, w)
io_result (interrupted, w) = (failed err_io, w)
io_result (io_failed, w) = (failed err_io, w)

abbrev lift : {S A : Type 0} → Outcome A → M S A
lift r s = (r, s)

module _ (os : Os) where
  pub inspect_kind : TargetInfo → Stat → M os.World TargetInfo
  unfolding block_target
  inspect_kind info (is_regular size) = do
    writable ← call (os.access_write info.path)
    pure (
        make_token
          (record info { kind = regular_file; size_bytes = size; read_only = not writable }))
  inspect_kind info is_block = do
    p ← call (os.probe info.path)
    found ← lift (block_target info p)
    pure (make_token found)
  inspect_kind info is_char = pure (make_token (record info { kind = char_device; size_bytes = 0 }))
  inspect_kind info stat_missing =
      pure (make_token (record info { kind = regular_file; size_bytes = 0 }))
  inspect_kind info stat_failed = throw err_open
  inspect_kind info is_other = throw err_unsupported

  unfoldable pub inspect_target : List ℕ → M os.World TargetInfo
  unfolding inspect_kind target_info_defaults
  inspect_target [] = throw err_invalid_argument
  inspect_target (c ∷ path) = do
    kind ← call (os.stat (c ∷ path))
    inspect_kind (target_info_defaults (c ∷ path)) kind

  unfoldable pub close_file : File → os.World → File × os.World
  close_file file w = elim file.handle [
    | none ↦ (file, w)
    | some fd ↦ (record file { handle = none }, os.close fd w)
  ]

  unfoldable pub source_block : ℕ → List ℕ → Option ℕ → M os.World File
  source_block fd path none = λ w. (failed err_io, os.close fd w)
  source_block fd path (some bytes) =
      pure
        (record file_reset { handle = some fd; path = path; size_bytes = bytes; is_device = true })

  -- The kind of what was opened, with its size.
  unfoldable pub source_kind : ℕ → List ℕ → Stat → M os.World File
  unfolding source_block
  source_kind fd path (is_regular size) =
      pure (record file_reset { handle = some fd; path = path; size_bytes = size })
  source_kind fd path is_block = call (os.block_size fd) >>= source_block fd path
  source_kind fd path stat_failed = λ w. (failed err_io, os.close fd w)
  source_kind fd path stat_missing = λ w. (failed err_io, os.close fd w)
  source_kind fd path is_char = λ w. (failed err_unsupported, os.close fd w)
  source_kind fd path is_other = λ w. (failed err_unsupported, os.close fd w)

  unfoldable pub source_opened : List ℕ → Opened → M os.World File
  source_opened path (opened fd) = call (os.fstat fd) >>= source_kind fd path
  source_opened path open_invalid = throw err_open
  source_opened path open_failed = throw err_open

  unfoldable pub open_source : List ℕ → M os.World File
  unfolding source_kind source_opened
  open_source path = call (os.open_read path) >>= source_opened path

  -- The target before it is opened.
  abbrev pub target_file : List ℕ → TargetInfo → WriteOptions → File
  target_file path current options = record file_reset {
    path = path;
    size_bytes = current.size_bytes;
    alignment = if current.logical_sector_size == 0 then 512 else current.logical_sector_size;
    is_device = not (is_regular_file current.kind);
    writable = true;
    direct_io = options.direct_io && not (is_regular_file current.kind);
  }

  -- The second call of open, without O_DIRECT.
  unfoldable pub open_again : File → Opened → M os.World File
  open_again file (opened fd) = pure (record file { handle = some fd; direct_io = false })
  open_again file open_invalid = throw err_open
  open_again file open_failed = throw err_open

  -- The answer to the first call; the file system may have refused O_DIRECT.
  unfoldable pub open_first : File → Opened → M os.World File
  unfolding open_again
  open_first file (opened fd) = pure (record file { handle = some fd })
  open_first file open_failed = throw err_open
  open_first file open_invalid =
      if file.direct_io
      then (call (os.open_write file.path false (not file.is_device)) >>= open_again file)
      else throw err_open

  unfoldable pub open_handle : File → M os.World File
  unfolding open_first
  open_handle file =
      call (os.open_write file.path file.direct_io (not file.is_device)) >>= open_first file

  unfoldable pub open_target : List ℕ → TargetInfo → WriteOptions → M os.World File
  unfolding inspect_target validate_destructive_target open_handle
  open_target path expected options = do
    current ← inspect_target path
    (if text_eq current.token expected.token then pure tt else throw err_identity_changed)
    lift (validate_destructive_target current options)
    open_handle (target_file path current options)

  -- `do … while (result < 0 && errno == EINTR)`: one call more than there are signals is enough fuel.
  unfoldable pub pread_loop : ℕ → ℕ → ℕ → ℕ → os.World → Io (List ℕ) × os.World
  pread_loop zero fd n at w = (interrupted, w)
  pread_loop (suc fuel) fd n at w =
      let (r, w') = os.pread fd n at w in
      elim r [
        | interrupted ↦ pread_loop fuel fd n at w'
        | transferred bytes ↦ (transferred bytes, w')
        | io_failed ↦ (io_failed, w')
      ]

  unfoldable pub pwrite_loop : ℕ → ℕ → List ℕ → ℕ → os.World → Io ℕ × os.World
  pwrite_loop zero fd bytes at w = (interrupted, w)
  pwrite_loop (suc fuel) fd bytes at w =
      let (r, w') = os.pwrite fd bytes at w in
      elim r [
        | interrupted ↦ pwrite_loop fuel fd bytes at w'
        | transferred n ↦ (transferred n, w')
        | io_failed ↦ (io_failed, w')
      ]

  -- The bytes read are the result; there may be fewer than `n`.
  unfoldable pub read_at : File → ℕ → ℕ → M os.World (List ℕ)
  read_at file n at w = elim file.handle [
    | none ↦ (failed err_invalid_argument, w)
    | some fd ↦ io_result (pread_loop (suc (os.interrupts w)) fd n at w)
  ]

  unfoldable pub write_at : File → List ℕ → ℕ → M os.World ℕ
  write_at file bytes at w = elim file.handle [
    | none ↦ (failed err_invalid_argument, w)
    | some fd ↦
        if not file.writable
        then (failed err_invalid_argument, w)
        else io_result (pwrite_loop (suc (os.interrupts w)) fd bytes at w)
  ]

  unfoldable pub flush : File → M os.World (Unit {0})
  flush file w = elim file.handle [
    | none ↦ (failed err_invalid_argument, w)
    | some fd ↦ let (r, w') = os.fsync fd w in (if r then done tt else failed err_io, w')
  ]

  -- The file is returned with its new size.
  unfoldable pub resize_regular_file : File → ℕ → M os.World File
  resize_regular_file file size w = elim file.handle [
    | none ↦ (failed err_invalid_argument, w)
    | some fd ↦
        let (r, w') = os.ftruncate fd size w in
        if file.is_device
        then (failed err_invalid_argument, w)
        else (if r then done (record file { size_bytes = size }) else failed err_io, w')
  ]
