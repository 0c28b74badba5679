-- ===== src/Driver/Protocol.antt =====
-- The commands of one FTP connection that reach the driver.
use ftp2sftp.Base.{true, false, Option, none, some, List, [], ◌∷◌, Bytes}
use ftp2sftp.Remote.{Io, ◌>>=◌}
use ftp2sftp.Effects.{ret}
use ftp2sftp.Errors.{Result, ok, err}
use ftp2sftp.SftpClient.{Client}
use ftp2sftp.Transfer.{client_fs}
use ftp2sftp.Transfer.Upload
use ftp2sftp.Transfer.Upload.{UploadCall}
use ftp2sftp.Transfer.Download
use ftp2sftp.Transfer.Download.{DownloadCall}
use ftp2sftp.Driver.{Env, World, handle_callbacks}
use ftp2sftp.Driver.Commands
use ftp2sftp.Driver.Handles.{Flags, Handle, upload, download, get_handle}

-- What the FTP library does with the handle of a transfer, and the hex form of SHA-256.
pub record Driving : Type 0 where
  pub digest : Bytes → Bytes
  pub uploads : List UploadCall
  pub downloads : List DownloadCall

-- `opens` is the whole of a transfer, as far as it comes.
pub data Command : Type 0 where
  stats lists makes deletes removes_dir : Bytes → Command
  renames : Bytes → Bytes → Command
  opens : Bytes → Flags → Bytes → Driving → Command

-- The FTP library calls the handle, over the connection of the session that opened it, and the handle
-- calls back.
abbrev pub drive_on : Driving → World → Handle → Option Client → Io World
drive_on d w h none = ret w
drive_on d w (upload u) (some c) =
    Upload.run d.digest (client_fs c) u d.uploads >>= λ r. ret (handle_callbacks "STOR" true r.1 w)
drive_on d w (download x) (some c) = Download.run d.digest (client_fs c) x d.downloads >>= λ r.
    ret (handle_callbacks "RETR" false r.1 w)

unfoldable pub drive : Driving → World × Result Handle → Io World
drive d (w, err e) = ret w
drive d (w, ok h) = drive_on d w h w.session.sftp

-- The call of the driver, of which only the state that it leaves is kept.
unfoldable pub perform : Env → Command → World → Io World
unfolding drive
perform env (stats name) w = Commands.stat env name w >>= λ r. ret r.0
perform env (lists name) w = Commands.read_dir env name w >>= λ r. ret r.0
perform env (makes name) w = Commands.mkdir env name w >>= λ r. ret r.0
perform env (deletes name) w = Commands.remove env name w >>= λ r. ret r.0
perform env (removes_dir name) w = Commands.remove_dir env name w >>= λ r. ret r.0
perform env (renames old new) w = Commands.rename env old new w >>= λ r. ret r.0
perform env (opens name flags fresh d) w = get_handle env name flags fresh w >>= drive d

-- The calls of the driver of one connection, one after the other.
unfoldable pub perform_all : Env → List Command → World → Io World
perform_all env [] w = ret w
perform_all env (c ∷ cs) w = perform env c w >>= perform_all env cs
