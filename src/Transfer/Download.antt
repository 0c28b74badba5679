-- ===== src/Transfer/Download.antt =====
-- internal/transfer/download.go: the handle of one RETR.
pub mod Laws
pub mod Asks
use ftp2sftp.Base.{
  ℕ, suc, ◌+◌, List, [], ◌∷◌, ◌++◌, Bool, true, false, not, ◌&&◌, ◌≡◌, Option, none, some, Bytes,
  length, if◌then◌else◌,
}
use ftp2sftp.Errors.{Kind, Error, new, Result, ok, err, is_eof}
use ftp2sftp.Effects.{ret, bind}
use ftp2sftp.Remote.{Io, ◌>>=◌, ◌>>◌}
use ftp2sftp.Transfer.{RemoteFs, Phase, TransferResult, Callback, completed, released}

pub record DownloadOptions : Type 0 where
  pub session_id : Bytes
  pub transfer_id : Bytes
  pub virtual_path : Bytes
  pub calculate_sha256 : Bool
  pub reports : Bool
  pub releases : Bool

pub record DownloadHandle : Type 0 where
  pub file : ℕ
  pub hashed : Option Bytes
  pub remote_path : Bytes
  pub opts : DownloadOptions
  pub bytes_read : ℕ
  pub failed : Bool
  pub fail_err : Option Error
  pub closed : Bool

abbrev pub no_write : Error
no_write = new Kind.internal "transfer.Write" "operación no soportada durante una descarga"

new_handle : Bytes → DownloadOptions → ℕ → DownloadHandle
new_handle path opts file = record {
  file = file;
  hashed = if opts.calculate_sha256 then some [] else none;
  remote_path = path;
  opts = opts;
  bytes_read = 0;
  failed = false;
  fail_err = none;
  closed = false;
}

abbrev opened : Bytes → DownloadOptions → Result ℕ → Result DownloadHandle
opened path opts (err e) = err e
opened path opts (ok file) = ok (new_handle path opts file)

-- `NewDownload`.
unfoldable pub new_download : RemoteFs → Bytes → DownloadOptions → Io (Result DownloadHandle)
unfolding new_handle
new_download fs path opts = fs.open_read path >>= λ r. ret (opened path opts r)

abbrev hash_more : Bytes → Option Bytes → Option Bytes
hash_more p none = none
hash_more p (some b) = some (b ++ p)

-- `if err != nil && !errors.Is(err, io.EOF)`.
abbrev note_failure : Option Error → DownloadHandle → DownloadHandle
note_failure none d = d
note_failure (some e) d = if is_eof e then d else record d { failed = true; fail_err = some e }

-- The handle after a read that gave the bytes `p` and ended in `e`.
unfoldable pub after_read : DownloadHandle → Bytes → Option Error → DownloadHandle
after_read d p e =
    note_failure e
      (record d { bytes_read = d.bytes_read + length p; hashed = hash_more p d.hashed })

-- `Read` into a buffer of `n` bytes.
unfoldable pub read : RemoteFs → DownloadHandle → ℕ → Io (DownloadHandle × Bytes × Option Error)
unfolding after_read
read fs d n = fs.file_read d.file n >>= λ r. ret (after_read d r.0 r.1, r.0, r.1)

-- `Write`.
unfoldable pub write : DownloadHandle → ℕ × Option Error
write d = (0, some no_write)

-- `Seek`.
unfoldable pub seek : RemoteFs → DownloadHandle → ℕ → ℕ → Io (Result ℕ)
seek fs d offset whence = fs.file_seek d.file offset whence

abbrev first_failure : Option Error → Error → Option Error
first_failure none e = some e
first_failure (some d) e = some d

-- `TransferError`.
unfoldable pub transfer_error : DownloadHandle → Error → DownloadHandle
transfer_error d e = record d { failed = true; fail_err = first_failure d.fail_err e }

abbrev digest_of : (Bytes → Bytes) → Option Bytes → Bytes
digest_of digest none = []
digest_of digest (some b) = digest b

-- The error that `Close` returns and reports: a failure of the transfer before that of the file.
abbrev pub outcome : DownloadHandle → Option Error → Option Error
outcome d close_err = if d.failed then d.fail_err else close_err

abbrev phase_of : DownloadHandle → Option Error → Phase
phase_of d none = if d.failed then Phase.failed_transfer else Phase.committed
phase_of d (some e) = Phase.failed_transfer

-- What the FTP library does with a handle.
pub data DownloadCall : Type 0 where
  reads : ℕ → DownloadCall
  seeks : ℕ → ℕ → DownloadCall
  fails : Error → DownloadCall
  closes : DownloadCall

module _ (digest : Bytes → Bytes) where
  unfoldable pub result : DownloadHandle → Option Error → TransferResult
  result d close_err = record {
    transfer_id = d.opts.transfer_id;
    session_id = d.opts.session_id;
    virtual_path = d.opts.virtual_path;
    remote_path = d.remote_path;
    bytes = d.bytes_read;
    sha256 = digest_of digest d.hashed;
    phase = phase_of d close_err;
    error = outcome d close_err;
  }

  unfoldable pub callbacks : DownloadHandle → TransferResult → List Callback
  callbacks d r =
      (if d.opts.reports then completed r ∷ [] else [])
      ++ (if d.opts.releases then released ∷ [] else [])

  finish : DownloadHandle → Option Error → DownloadHandle × Option Error × List Callback
  unfolding result callbacks
  finish d close_err = (d, outcome d close_err, callbacks d (result d close_err))

  -- `Close`.
  unfoldable pub close :
      RemoteFs → DownloadHandle → Io (DownloadHandle × Option Error × List Callback)
  unfolding finish
  close fs d =
      if d.closed
      then ret (d, none, [])
      else (fs.file_close d.file >>= λ e. ret (finish (record d { closed = true }) e))

  unfoldable pub step :
      RemoteFs → DownloadHandle → DownloadCall → Io (DownloadHandle × List Callback)
  unfolding read seek transfer_error close
  step fs d (reads n) = read fs d n >>= λ r. ret (r.0, [])
  step fs d (seeks o w) = seek fs d o w >>= λ r. ret (d, [])
  step fs d (fails e) = ret (transfer_error d e, [])
  step fs d closes = close fs d >>= λ r. ret (r.0, r.2)

  unfoldable pub run :
      RemoteFs → DownloadHandle → List DownloadCall → Io (DownloadHandle × List Callback)
  run fs d [] = ret (d, [])
  run fs d (k ∷ ks) = do r ← step fs d k; s ← run fs r.0 ks; ret (s.0, r.1 ++ s.1)
