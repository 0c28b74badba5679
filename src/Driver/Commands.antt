-- ===== src/Driver/Commands.antt =====
-- The commands of internal/ftpserver/clientdriver.go but STOR and RETR.
use ftp2sftp.Base.{List, [], ◌∷◌, ◌++◌, Option, none, some, Bytes, codes, contains, if◌then◌else◌}
use ftp2sftp.Errors.{Kind, Error, new, Result, ok, err}
use ftp2sftp.Authorization.{check_delete, check_mkdir, check_rename}
use ftp2sftp.Effects.{ret}
use ftp2sftp.Remote.{FileInfo, Io, ◌>>=◌}
use ftp2sftp.SftpClient
use ftp2sftp.SftpClient.{Client}
use ftp2sftp.Driver.{
  Env, World, audit, maybe_invalidate, remote_path, on_path, permit, with_client, conclude,
}

abbrev pub not_implemented : Error
not_implemented = new Kind.unsupported_command "ftpserver.ClientDriver" "operación no soportada"

abbrev pub error_of : {A : Type 0} → Result A → Option Error
error_of (ok a) = none
error_of (err e) = some e

-- `Stat`: a failure of the remote operation itself is not audited.
unfoldable pub stat : Env → Bytes → World → Io (World × Result FileInfo)
stat env name w = on_path "STAT" name w (remote_path w.session.mapper name) λ v remote.
    with_client env "STAT" v w
      λ w c. SftpClient.stat c remote >>= λ r. maybe_invalidate (error_of r) w >>= λ w. ret (w, r)

-- `Mkdir`.
unfoldable pub mkdir : Env → Bytes → World → Io (World × Result (Unit {0}))
mkdir env name w = on_path "MKD" name w (remote_path w.session.mapper name) λ v remote.
    permit "MKD" v w (check_mkdir w.session.policy)
      (with_client env "MKD" v w λ w c. SftpClient.mkdir c remote >>= conclude "MKD" v w)

-- `Remove`.
unfoldable pub remove : Env → Bytes → World → Io (World × Result (Unit {0}))
remove env name w = on_path "DELE" name w (remote_path w.session.mapper name) λ v remote.
    permit "DELE" v w (check_delete w.session.policy)
      (with_client env "DELE" v w λ w c. SftpClient.remove c remote >>= conclude "DELE" v w)

-- `RemoveDir`.
unfoldable pub remove_dir : Env → Bytes → World → Io (World × Result (Unit {0}))
remove_dir env name w = on_path "RMD" name w (remote_path w.session.mapper name) λ v remote.
    permit "RMD" v w (check_delete w.session.policy)
      (with_client env "RMD" v w λ w c. SftpClient.remove_directory c remote >>= conclude "RMD" v w)

abbrev arrow : Bytes → Bytes → Bytes
arrow a b = a ++ codes " -> " ++ b

-- `Rename`.
unfoldable pub rename : Env → Bytes → Bytes → World → Io (World × Result (Unit {0}))
rename env old_name new_name w =
    on_path "RNTO" (arrow old_name new_name) w (remote_path w.session.mapper old_name)
      λ old_v old_remote.
        on_path "RNTO" (arrow old_v new_name) w (remote_path w.session.mapper new_name)
          λ new_v new_remote. permit "RNTO" (arrow old_v new_v) w (check_rename w.session.policy) (
            with_client env "RNTO" (arrow old_v new_v) w λ w c.
              SftpClient.rename c old_remote new_remote w.session.policy.allow_overwrite
              >>= conclude "RNTO" (arrow old_v new_v) w)

-- `MkdirAll`, `RemoveAll`, `Open`, `OpenFile`, `Create`, `Chmod`, `Chown` and `Chtimes`.
unfoldable pub not_offered : {A : Type 0} → World → Io (World × Result A)
not_offered w = ret (w, err not_implemented)

-- The entries that do not have the marker in their names.
unfoldable pub visible : Bytes → List FileInfo → List FileInfo
visible marker [] = []
visible marker (e ∷ es) =
    let rest = visible marker es in if contains e.name marker then rest else e ∷ rest

abbrev pub shown : Bytes → Result (List FileInfo) → Result (List FileInfo)
shown suffix (err e) = err e
shown suffix (ok es) = ok (visible (suffix ++ b'-' ∷ []) es)

-- `ReadDir`.
unfoldable pub read_dir : Env → Bytes → World → Io (World × Result (List FileInfo))
unfolding visible
read_dir env name w = on_path "LIST" name w (remote_path w.session.mapper name) λ v remote.
    with_client env "LIST" v w λ w c. SftpClient.read_dir c remote env.read_dir_timeout >>= λ r.
    maybe_invalidate (error_of r) w >>= λ w.
    ret (audit "LIST" v (error_of r) w, shown env.temporary_suffix r)
