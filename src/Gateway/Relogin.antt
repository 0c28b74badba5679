-- ===== src/Gateway/Relogin.antt =====
-- AuthUser of internal/ftpserver/gateway.go on a connection that has a session already.
use ftp2sftp.Session.{Session}
use ftp2sftp.Gateway.{Gateway}
