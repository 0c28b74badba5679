-- ===== src/Driver/RootUpload.antt =====
-- STOR onto the remote root itself: NewUpload and TempPath of internal/transfer.
use ftp2sftp.Base.{◌≡◌, Bytes}
use ftp2sftp.Effects.{ret, ask}
use ftp2sftp.Remote.{OpenMode, Op, Request, Io}
use ftp2sftp.SftpClient.{Client}

-- The first request of a program.
abbrev pub StartsWith : {A : Type 0} → Request → Io A → Type 0
StartsWith q (ret a) = ⊥
StartsWith q (ask p k) = p ≡ q

abbrev create : Client → Bytes → Request
create c path = Request.sftp c.conn (Op.open_file path OpenMode.write_truncate)
