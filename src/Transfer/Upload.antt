-- ===== src/Transfer/Upload.antt =====
-- internal/transfer/upload.go: the handle of one STOR.
pub mod Sound
pub mod Reports
pub mod Invariant
pub mod Failure
pub mod Requests
pub mod Success
pub mod Aims
use ftp2sftp.Base.{
  ℕ, zero, suc, ◌+◌, List, [], ◌∷◌, ◌++◌, Bool, true, false, not, ◌&&◌, ◌||◌, ◌≡◌, Option, none,
  some, Bytes, length, take, ltb, ◌==◌, if◌then◌else◌,
}
use ftp2sftp.Errors.{Kind, Error, new, Result, ok, err}
use ftp2sftp.Effects.{ret, bind}
use ftp2sftp.Remote.{FileInfo, Io, ◌>>=◌, ◌>>◌}
use ftp2sftp.Transfer.{
  RemoteFs, Phase, TransferResult, Callback, completed, released, temp_path, is_not_found,
}

-- `max_size` 0 stands for every value that is not positive: no limit. `reports` and `releases` say
-- whether `OnComplete` and `Release` are given.
pub record UploadOptions : Type 0 where
  pub session_id : Bytes
  pub transfer_id : Bytes
  pub virtual_path : Bytes
  pub max_size : ℕ
  pub overwrite : Bool
  pub calculate_sha256 : Bool
  pub temporary_suffix : Bytes
  pub reports : Bool
  pub releases : Bool

-- `hashed` holds the bytes that were written to the hash, if there is one.
pub record UploadHandle : Type 0 where
  pub file : ℕ
  pub hashed : Option Bytes
  pub temp : Bytes
  pub final : Bytes
  pub opts : UploadOptions
  pub written : ℕ
  pub failed : Bool
  pub fail_err : Option Error
  pub closed : Bool

abbrev pub target_exists : Error
target_exists = new Kind.conflict "transfer.NewUpload" "el archivo destino ya existe"

abbrev pub too_large : Error
too_large = new Kind.authorization "transfer.Write" "el archivo excede el tamaño máximo permitido"

abbrev pub no_read : Error
no_read = new Kind.internal "transfer.Read" "operación no soportada durante una subida"

abbrev pub no_resume : Error
no_resume = new Kind.unsupported_command "transfer.Seek" "reanudar subidas (REST) no está soportado"

new_handle : Bytes → UploadOptions → ℕ → UploadHandle
new_handle final opts file = record {
  file = file;
  hashed = if opts.calculate_sha256 then some [] else none;
  temp = temp_path final opts.session_id opts.temporary_suffix;
  final = final;
  opts = opts;
  written = 0;
  failed = false;
  fail_err = none;
  closed = false;
}

-- What `Stat` of the target says, if the target may not be replaced.
existing : Result FileInfo → Option Error
existing (ok info) = some target_exists
existing (err e) = if is_not_found e then none else some e

opened : Bytes → UploadOptions → Result ℕ → Result UploadHandle
unfolding new_handle
opened final opts (err e) = err e
opened final opts (ok file) = ok (new_handle final opts file)

begin : RemoteFs → Bytes → UploadOptions → Option Error → Io (Result UploadHandle)
unfolding opened
begin fs final opts (some e) = ret (err e)
begin fs final opts none =
    fs.create_temp (temp_path final opts.session_id opts.temporary_suffix) >>= λ r.
    ret (opened final opts r)

-- `NewUpload`.
unfoldable pub new_upload : RemoteFs → Bytes → UploadOptions → Io (Result UploadHandle)
unfolding begin existing
new_upload fs final opts =
    (if opts.overwrite then ret none else (fs.stat final >>= λ r. ret (existing r)))
    >>= begin fs final opts

abbrev hash_more : ℕ → Bytes → Option Bytes → Option Bytes
hash_more n p none = none
hash_more n p (some b) = some (b ++ take n p)

-- `if err != nil { u.failed = true; u.failErr = err }`.
abbrev pub note_failure : Option Error → UploadHandle → UploadHandle
note_failure none u = u
note_failure (some e) u = record u { failed = true; fail_err = some e }

-- The same, where an error that is there already stays.
abbrev pub first_failure : Option Error → Error → Option Error
first_failure none e = some e
first_failure (some d) e = some d

-- The handle after a write of `p` that took `n` bytes and ended in `e`.
unfoldable pub after_write : UploadHandle → Bytes → ℕ → Option Error → UploadHandle
after_write u p n e = note_failure e (record u {
  written = u.written + n;
  hashed = if ltb 0 n then hash_more n p u.hashed else u.hashed;
})

-- `u.opts.MaxSize > 0 && u.written+int64(len(p)) > u.opts.MaxSize`.
abbrev pub exceeds : UploadHandle → Bytes → Bool
exceeds u p = ltb 0 u.opts.max_size && ltb u.opts.max_size (u.written + length p)

-- `Write`: the handle, the count that is returned, and the error.
unfoldable pub write : RemoteFs → UploadHandle → Bytes → Io (UploadHandle × ℕ × Option Error)
unfolding after_write
write fs u p =
    if exceeds u p
    then ret (record u { failed = true; fail_err = some too_large }, 0, some too_large)
    else (fs.file_write u.file p >>= λ r. ret (after_write u p r.0 r.1, r.0, r.1))

-- `Read`.
unfoldable pub read : UploadHandle → ℕ × Option Error
read u = (0, some no_read)

-- `Seek`: 0 is `io.SeekStart`.
unfoldable pub seek : UploadHandle → ℕ → ℕ → ℕ × Option Error
seek u offset whence = if offset == 0 && whence == 0 then (0, none) else (0, some no_resume)

-- `TransferError`.
unfoldable pub transfer_error : UploadHandle → Error → UploadHandle
transfer_error u e = record u { failed = true; fail_err = first_failure u.fail_err e }

-- What `Close` of the remote file adds to the handle's failure.
unfoldable pub after_close : UploadHandle → Option Error → UploadHandle
unfolding transfer_error
after_close u none = u
after_close u (some e) = transfer_error u e

abbrev digest_of : (Bytes → Bytes) → Option Bytes → Bytes
digest_of digest none = []
digest_of digest (some b) = digest b

-- What the FTP library does with a handle.
pub data UploadCall : Type 0 where
  writes : Bytes → UploadCall
  fails : Error → UploadCall
  closes : UploadCall

module _ (digest : Bytes → Bytes) where
  -- The result that is reported: `digest` is the hex form of SHA-256.
  unfoldable pub result : UploadHandle → Phase → Option Error → TransferResult
  result u phase e = record {
    transfer_id = u.opts.transfer_id;
    session_id = u.opts.session_id;
    virtual_path = u.opts.virtual_path;
    remote_path = u.final;
    bytes = u.written;
    sha256 = digest_of digest u.hashed;
    phase = phase;
    error = e;
  }

  -- `OnComplete` runs in the body of `Close`, `Release` when it returns.
  unfoldable pub callbacks : UploadHandle → TransferResult → List Callback
  callbacks u r =
      (if u.opts.reports then completed r ∷ [] else [])
      ++ (if u.opts.releases then released ∷ [] else [])

  -- The temporary file goes, the failure is reported and returned.
  discard :
      RemoteFs → UploadHandle → Option Error → Io (UploadHandle × Option Error × List Callback)
  unfolding result callbacks
  discard fs u e = do
    _ ← fs.remove u.temp
    ret (u, e, callbacks u (result u Phase.failed_transfer e))

  settle : RemoteFs → UploadHandle → Option Error → Io (UploadHandle × Option Error × List Callback)
  unfolding discard
  settle fs u none = ret (u, none, callbacks u (result u Phase.committed none))
  settle fs u (some e) = discard fs u (some e)

  finish : RemoteFs → UploadHandle → Io (UploadHandle × Option Error × List Callback)
  unfolding settle
  finish fs u =
      if u.failed
      then discard fs u u.fail_err
      else (fs.commit u.temp u.final u.opts.overwrite >>= settle fs u)

  -- `Close`: the handle, the error that is returned, and the calls back in order.
  unfoldable pub close : RemoteFs → UploadHandle → Io (UploadHandle × Option Error × List Callback)
  unfolding finish after_close
  close fs u =
      if u.closed
      then ret (u, none, [])
      else (fs.file_close u.file >>= λ e. finish fs (after_close (record u { closed = true }) e))

  unfoldable pub step : RemoteFs → UploadHandle → UploadCall → Io (UploadHandle × List Callback)
  step fs u (writes p) = write fs u p >>= λ r. ret (r.0, [])
  step fs u (fails e) = ret (transfer_error u e, [])
  step fs u closes = close fs u >>= λ r. ret (r.0, r.2)

  unfoldable pub run : RemoteFs → UploadHandle → List UploadCall → Io (UploadHandle × List Callback)
  run fs u [] = ret (u, [])
  run fs u (c ∷ cs) = do r ← step fs u c; s ← run fs r.0 cs; ret (s.0, r.1 ++ s.1)
