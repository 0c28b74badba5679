-- ===== src/Driver/Driving.antt =====
-- The requests of a transfer, from `GetHandle` to the last call on its handle
-- (internal/ftpserver/clientdriver.go with internal/transfer).
use ftp2sftp.Base.{refl, Option, none, some, Bytes}
use ftp2sftp.Errors.{Result, ok, err}
use ftp2sftp.Effects.{bind, Always-bind}
use ftp2sftp.Remote.{Io}
use ftp2sftp.SftpClient.{Client}
use ftp2sftp.SftpClient.Requests.{
  Anything, Within, Whatever, Keeps, Keeps-bind, remove-Keeps, commit-Keeps,
}
use ftp2sftp.Transfer.Upload.Aims.{Aims, run-Aims}
use ftp2sftp.Transfer.Download.Asks.{run-Asks}
use ftp2sftp.Driver.{World}
use ftp2sftp.Driver.Handles.{Handle, upload, download}
use ftp2sftp.Driver.Protocol.{Driving, drive_on, drive}
use ftp2sftp.Driver.Opening.{Aimed, Opens}

module _ (Reads Writes : Bytes → Type 0) where
  drive_on-Within :
      (d : Driving) (w : World) (h : Handle) (o : Option Client)
      → Aimed Reads Writes (ok h)
      → Keeps Reads Writes (drive_on d w h o)
  drive_on-Within d w h none a = tt
  drive_on-Within d w (upload u) (some c) a =
      Always-bind Anything (Within Reads Writes) (λ r. Aims u.temp u.final r.0) Whatever _ _
        (run-Aims (Within Reads Writes) c u.temp u.final (λ h b. tt) (λ h. tt)
          (remove-Keeps Reads Writes c u.temp a.0)
          (λ o. commit-Keeps Reads Writes c u.temp u.final o a.0 a.1 a.2) d.digest u d.uploads
          (record { temp_eq = refl; final_eq = refl }))
        (λ r _. tt)
  drive_on-Within d w (download x) (some c) a =
      Keeps-bind Reads Writes _ _
        (run-Asks (Within Reads Writes) c (λ h n. tt) (λ h o w. tt) (λ h. tt) d.digest x
          d.downloads)
        (λ r. tt)

  pub transfer-Within :
      (d : Driving) (m : Io (World × Result Handle))
      → Opens Reads Writes m
      → Keeps Reads Writes (bind m (drive d))
  unfolding drive
  transfer-Within d m h =
      Always-bind Anything (Within Reads Writes) (λ r. Aimed Reads Writes r.1) Whatever m (drive d)
        h (λ r a. driven r a)
    where
      driven : (r : World × Result Handle) → Aimed Reads Writes r.1 → Keeps Reads Writes (drive d r)
      driven (w, err e) a = tt
      driven (w, ok h) a = drive_on-Within d w h w.session.sftp a
