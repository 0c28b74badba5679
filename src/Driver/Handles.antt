-- ===== src/Driver/Handles.antt =====
-- `GetHandle`, `beginUpload` and `beginDownload` of internal/ftpserver/clientdriver.go: STOR and RETR.
use ftp2sftp.Base.{Bool, true, false, String, some, Bytes, if◌then◌else◌}
use ftp2sftp.Errors.{Kind, Error, new, Result, ok, err}
use ftp2sftp.Authorization.{Gate, check_upload, check_download, try_acquire}
use ftp2sftp.Effects.{ret}
use ftp2sftp.Remote.{Io, ◌>>=◌}
use ftp2sftp.SftpClient.{Client}
use ftp2sftp.Metrics.{inc, dec}
use ftp2sftp.Transfer.{client_fs}
use ftp2sftp.Transfer.Upload.{UploadOptions, UploadHandle, new_upload}
use ftp2sftp.Transfer.Download.{DownloadOptions, DownloadHandle, new_download}
use ftp2sftp.Driver.{
  Env, World, audit, remote_path, on_path, permit, refuse, with_client, release_slot,
}

pub data Handle : Type 0 where
  upload : UploadHandle → Handle
  download : DownloadHandle → Handle

-- The bits of the flags that are tested: `os.O_WRONLY` and `os.O_APPEND`.
pub record Flags : Type 0 where
  pub wronly : Bool
  pub append : Bool

abbrev pub no_append : Error
no_append = new Kind.unsupported_command "ftpserver.GetHandle" "la operación APPE no está soportada"

abbrev pub too_many_transfers : Error
too_many_transfers =
    new Kind.rate_limited "ftpserver.GetHandle"
      "límite de transferencias concurrentes del usuario alcanzado"

-- `if !gate.TryAcquire() { … }`.
unfoldable pub with_slot :
    {A : Type 0}
    → String
    → Bytes
    → World
    → Gate × Bool
    → (World → Io (World × Result A))
    → Io (World × Result A)
with_slot command v w (g, true) k = k (record w { gate = g })
with_slot command v w (g, false) k = refuse command v too_many_transfers (record w { gate = g })

-- The gauges and counters that a transfer moves when it begins.
unfoldable pub started_transfer : Bool → World → World
started_transfer is_upload w =
    let m = w.metrics in
    record w {
      metrics = record m {
        transfer_active = inc m.transfer_active;
        transfer_total = inc m.transfer_total;
        temporary_files_pending =
            if is_upload then inc m.temporary_files_pending else m.temporary_files_pending;
      };
    }

unfoldable pub no_temporary_file : World → World
no_temporary_file w =
    let m = w.metrics in
    record w { metrics = record m { temporary_files_pending = dec m.temporary_files_pending } }

-- The options that `beginUpload` passes on; `fresh` is the new correlation id.
unfoldable pub upload_options : Env → World → Bytes → Bytes → UploadOptions
upload_options env w v fresh = record {
  session_id = w.session.id;
  transfer_id = fresh;
  virtual_path = v;
  max_size = w.session.policy.max_file_size;
  overwrite = w.session.policy.allow_overwrite;
  calculate_sha256 = env.calculate_sha256;
  temporary_suffix = env.temporary_suffix;
  reports = true;
  releases = true;
}

unfoldable pub download_options : Env → World → Bytes → Bytes → DownloadOptions
download_options env w v fresh = record {
  session_id = w.session.id;
  transfer_id = fresh;
  virtual_path = v;
  calculate_sha256 = env.calculate_sha256;
  reports = true;
  releases = true;
}

unfoldable pub upload_begun : Bytes → World → Result UploadHandle → World × Result Handle
unfolding no_temporary_file
upload_begun v w (ok u) = (w, ok (upload u))
upload_begun v w (err e) = (audit "STOR" v (some e) (release_slot (no_temporary_file w)), err e)

unfoldable pub download_begun : Bytes → World → Result DownloadHandle → World × Result Handle
download_begun v w (ok d) = (w, ok (download d))
download_begun v w (err e) = (audit "RETR" v (some e) (release_slot w), err e)

-- The rest of `beginUpload`, with a slot taken.
unfoldable pub upload_in_slot :
    Env → Client → Bytes → Bytes → Bytes → World → Io (World × Result Handle)
unfolding started_transfer upload_begun upload_options
upload_in_slot env c v remote fresh w =
    let w' = started_transfer true w in
    new_upload (client_fs c) remote (upload_options env w v fresh) >>= λ r.
    ret (upload_begun v w' r)

-- `beginUpload`.
unfoldable pub begin_upload :
    Env → Client → Bytes → Bytes → Flags → Bytes → World → Io (World × Result Handle)
begin_upload env c v remote flags fresh w =
    if flags.append
    then ret (w, err no_append)
    else permit "STOR" v w (check_upload w.session.policy)
        (with_slot "STOR" v w (try_acquire w.gate) (upload_in_slot env c v remote fresh))

-- The rest of `beginDownload`, with a slot taken.
unfoldable pub download_in_slot :
    Env → Client → Bytes → Bytes → Bytes → World → Io (World × Result Handle)
unfolding started_transfer download_begun download_options
download_in_slot env c v remote fresh w =
    let w' = started_transfer false w in
    new_download (client_fs c) remote (download_options env w v fresh) >>= λ r.
    ret (download_begun v w' r)

-- `beginDownload`.
unfoldable pub begin_download :
    Env → Client → Bytes → Bytes → Bytes → World → Io (World × Result Handle)
begin_download env c v remote fresh w =
    permit "RETR" v w (check_download w.session.policy)
      (with_slot "RETR" v w (try_acquire w.gate) (download_in_slot env c v remote fresh))

-- `GetHandle`. (The offset is not used.)
unfoldable pub get_handle : Env → Bytes → Flags → Bytes → World → Io (World × Result Handle)
get_handle env name flags fresh w =
    let command : String = if flags.wronly then "STOR" else "RETR" in
    on_path command name w (remote_path w.session.mapper name) λ v remote.
      with_client env command v w λ w c.
        if flags.wronly
        then begin_upload env c v remote flags fresh w
        else begin_download env c v remote fresh w
