-- ===== src/Transfer.antt =====
-- internal/transfer: one upload or download. transfer.go is here, and each handle in a child.
pub mod TempName
pub mod Upload
pub mod Download
use ftp2sftp.Base.{ℕ, List, [], ◌∷◌, ◌++◌, Bool, Option, none, some, Bytes, ◌≡◌}
use ftp2sftp.Errors.{Kind, Fault, Error, external, Result, ok, err, is}
use ftp2sftp.GoPath.{dir, base, join}
use ftp2sftp.Effects.{ret, bind}
use ftp2sftp.Remote.{Answer, done, failed, FileInfo, Op, Request, Io, ◌>>=◌, call}
use ftp2sftp.SftpClient
use ftp2sftp.SftpClient.{Client}

-- `RemoteFS` and the files that it opens: what a transfer needs of the SFTP client. A write returns
-- how many bytes it took; a read returns the bytes that it put into the buffer.
pub record RemoteFs : Type 0 where
  pub stat : Bytes → Io (Result FileInfo)
  pub open_read : Bytes → Io (Result ℕ)
  pub create_temp : Bytes → Io (Result ℕ)
  pub commit : Bytes → Bytes → Bool → Io (Option Error)
  pub remove : Bytes → Io (Option Error)
  pub file_write : ℕ → Bytes → Io (ℕ × Option Error)
  pub file_read : ℕ → ℕ → Io (Bytes × Option Error)
  pub file_seek : ℕ → ℕ → ℕ → Io (Result ℕ)
  pub file_close : ℕ → Io (Option Error)

abbrev pub foreign : Option Fault → Option Error
foreign none = none
foreign (some f) = some (external f)

abbrev pub foreign_answer : {A : Type 0} → Answer A → Result A
foreign_answer (done a) = ok a
foreign_answer (failed f) = err (external f)

-- The one production implementation, `sftpclient.Client`.
abbrev pub client_fs : Client → RemoteFs
client_fs c = record {
  stat = SftpClient.stat c;
  open_read = SftpClient.open_read c;
  create_temp = SftpClient.create_temp c;
  commit = SftpClient.commit c;
  remove = SftpClient.remove c;
  file_write =
      λ f p. call (Request.sftp c.conn (Op.file_write f p)) >>= λ r. ret (r.0, foreign r.1);
  file_read = λ f n. call (Request.sftp c.conn (Op.file_read f n)) >>= λ r. ret (r.0, foreign r.1);
  file_seek =
      λ f o w. call (Request.sftp c.conn (Op.file_seek f o w)) >>= λ r. ret (foreign_answer r);
  file_close = λ f. call (Request.sftp c.conn (Op.file_close f)) >>= λ r. ret (foreign r);
}

pub data Phase : Type 0 where
  started written committed failed_transfer : Phase

-- `Result`.
pub record TransferResult : Type 0 where
  pub transfer_id : Bytes
  pub session_id : Bytes
  pub virtual_path : Bytes
  pub remote_path : Bytes
  pub bytes : ℕ
  pub sha256 : Bytes
  pub phase : Phase
  pub error : Option Error

-- The calls that a handle makes back into the server: `OnComplete` and `Release`.
pub data Callback : Type 0 where
  completed : TransferResult → Callback
  released : Callback

-- `TempPath`.
unfoldable pub temp_path : Bytes → Bytes → Bytes → Bytes
temp_path final session_id suffix = join (dir final) (base final ++ suffix ++ b'-' ∷ session_id)

-- `isNotFound`.
unfoldable pub is_not_found : Error → Bool
is_not_found e = is e Kind.not_found
