-- ===== src/Resources/Driving.antt =====
-- The session's connection while a transfer runs (internal/ftpserver/clientdriver.go with
-- internal/transfer).
use ftp2sftp.Base.{refl, true, false, ℕ, ◌<◌, List, [], ◌∷◌, Bool, Option, none, some, String}
use ftp2sftp.Errors.{Result, ok, err}
use ftp2sftp.Effects.{Always-mono}
use ftp2sftp.Metrics.{word}
use ftp2sftp.SftpClient.{Client}
use ftp2sftp.SftpClient.Calls.{Calls, IsCall, remove-Calls, commit-Calls}
use ftp2sftp.SftpClient.Requests.{Anything, Whatever}
use ftp2sftp.Session.{Session}
use ftp2sftp.Transfer.{client_fs, Callback, completed, released}
use ftp2sftp.Transfer.Upload
use ftp2sftp.Transfer.Upload.{UploadHandle}
use ftp2sftp.Transfer.Upload.Aims.{Aims, run-Aims}
use ftp2sftp.Transfer.Download
use ftp2sftp.Transfer.Download.{DownloadHandle}
use ftp2sftp.Transfer.Download.Asks.{run-Asks}
use ftp2sftp.Driver.{World, handle_callbacks, record_transfer, release_slot}
use ftp2sftp.Driver.Handles.{Handle, upload, download}
use ftp2sftp.Driver.Protocol.{Driving, drive_on, drive}
use ftp2sftp.Resources.{Open, Holds, Holds-bind}
use ftp2sftp.Resources.Dialling.{Unchanged}
use ftp2sftp.Resources.Sessions.{Tracked, InWorld, Calls-Unchanged}

-- The calls back of a transfer do not touch the connection.
pub handle_callbacks-Tracked :
    (n : Open) (base : ℕ) (small : base < word) (s : Session) (command : String) (is_upload : Bool)
    (calls : List Callback) (w : World) (k : Open)
    → Tracked n base small s w k
    → Tracked n base small s (handle_callbacks command is_upload calls w) k
unfolding handle_callbacks record_transfer release_slot
handle_callbacks-Tracked n base small s command u [] w k t = t
handle_callbacks-Tracked n base small s command u (completed r ∷ cs) w k t =
    handle_callbacks-Tracked n base small s command u cs (record_transfer command u r w) k (record {
      open_eq = t.open_eq;
      gauge_eq = t.gauge_eq;
      same = t.same;
      closed_eq = t.closed_eq;
    })
handle_callbacks-Tracked n base small s command u (released ∷ cs) w k t =
    handle_callbacks-Tracked n base small s command u cs (release_slot w) k (record {
      open_eq = t.open_eq;
      gauge_eq = t.gauge_eq;
      same = t.same;
      closed_eq = t.closed_eq;
    })

upload_run-Calls :
    (c : Client) (d : Driving) (u : UploadHandle)
    → Calls (Upload.run d.digest (client_fs c) u d.uploads)
upload_run-Calls c d u =
    Always-mono Anything IsCall (λ r. Aims u.temp u.final r.0) Whatever _ (λ r a. tt)
      (run-Aims IsCall c u.temp u.final (λ h b. tt) (λ h. tt) (remove-Calls c u.temp)
        (λ o. commit-Calls c u.temp u.final o) d.digest u d.uploads
        (record { temp_eq = refl; final_eq = refl }))

download_run-Calls :
    (c : Client) (d : Driving) (x : DownloadHandle)
    → Calls (Download.run d.digest (client_fs c) x d.downloads)
download_run-Calls c d x =
    run-Asks IsCall c (λ h n. tt) (λ h o w. tt) (λ h. tt) d.digest x d.downloads

module _ (n : Open) (base : ℕ) (small : base < word) (s : Session) where
  drive_on-Tracked :
      (d : Driving) (w : World) (h : Handle) (o : Option Client) (k : Open)
      → Tracked n base small s w k
      → Holds (Tracked n base small s) k (drive_on d w h o)
  drive_on-Tracked d w h none k t = t
  drive_on-Tracked d w (upload u) (some c) k t =
      Holds-bind (Unchanged k) (Tracked n base small s) k
        (Upload.run d.digest (client_fs c) u d.uploads) _
        (Calls-Unchanged k _ (upload_run-Calls c d u))
        (λ r j e. rw e (handle_callbacks-Tracked n base small s "STOR" true r.1 w k t))
  drive_on-Tracked d w (download x) (some c) k t =
      Holds-bind (Unchanged k) (Tracked n base small s) k
        (Download.run d.digest (client_fs c) x d.downloads) _
        (Calls-Unchanged k _ (download_run-Calls c d x))
        (λ r j e. rw e (handle_callbacks-Tracked n base small s "RETR" false r.1 w k t))

  pub drive-Tracked :
      (d : Driving) (r : World × Result Handle) (k : Open)
      → InWorld n base small s r k
      → Holds (Tracked n base small s) k (drive d r)
  unfolding drive
  drive-Tracked d (w, err e) k t = t
  drive-Tracked d (w, ok h) k t = drive_on-Tracked d w h w.session.sftp k t
