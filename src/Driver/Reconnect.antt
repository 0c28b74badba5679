-- ===== src/Driver/Reconnect.antt =====
-- maybeInvalidate of internal/ftpserver/clientdriver.go and the errors of internal/sftpclient.
use ftp2sftp.Base.{false, ◌≡◌, String, some, arith, if◌then◌else◌}
use ftp2sftp.Errors.{Kind, Fault, kind_of}
use ftp2sftp.Effects.{ret}
use ftp2sftp.SftpClient.{translate_error}
use ftp2sftp.Driver.{World, maybe_invalidate}

-- The kind that an error of the SFTP library gets, by what the error answers to.
pub kind_of-translate_error :
    (op : String) (f : Fault)
    → kind_of (translate_error op f) ≡ (
        if f.is_eof
        then Kind.internal
        else if f.is_deadline
        then Kind.timeout
        else if f.is_not_exist
        then Kind.not_found
        else if f.is_permission
        then Kind.remote_permission_denied
        else if f.times_out
        then Kind.timeout
        else Kind.internal)
unfolding kind_of translate_error
kind_of-translate_error op f = ground arith

-- An error of the SFTP library makes the driver give the connection up only if it is a timeout: after
-- any other, a lost connection (`io.EOF`, or the library's own error for it) included, the session
-- keeps the connection and the driver asks for nothing.
pub maybe_invalidate-keeps :
    (op : String) (f : Fault) (w : World)
    → f.is_deadline ≡ false
    → f.times_out ≡ false
    → maybe_invalidate (some (translate_error op f)) w ≡ ret w
unfolding maybe_invalidate translate_error kind_of
maybe_invalidate-keeps op f w hd ht = ground arith
