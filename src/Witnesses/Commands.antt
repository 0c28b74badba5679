-- ===== src/Witnesses/Commands.antt =====
-- The driver.
use ftp2sftp.Base.{[], ◌∷◌, ◌++◌, true, false, ◌≡◌, refl, String, some, codes, arith, if◌then◌else◌}
use ftp2sftp.Remote.{FileInfo}
use ftp2sftp.Errors.{Result, ok}
use ftp2sftp.GoPath.{clean, rooted}
use ftp2sftp.Filesystem.{resolve_virtual, to_remote}
use ftp2sftp.Driver.{remote_path}
use ftp2sftp.Base.{◌≢◌, Bytes, sym, ap, ◌∙◌}
use ftp2sftp.Effects.{Always}
use ftp2sftp.SftpClient.Requests.{Anything}
use ftp2sftp.Driver.Commands.{visible}
use ftp2sftp.Driver.Handles.{begin_upload, begin_download}
use ftp2sftp.Transfer.Upload.{writes, closes}
use ftp2sftp.Driver.Protocol.{Driving}
use ftp2sftp.Driver.Listing.{ListsSettled, read_dir-ListsSettled}
use ftp2sftp.Driver.Commands
use ftp2sftp.Driver.Accounting.{Accounts, begin_upload-Accounts, begin_download-Accounts}
use ftp2sftp.Witnesses.{client, report}
use ftp2sftp.Errors.{Kind, Fault, kind_of}
use ftp2sftp.GoPath.Clean.{walk}
use ftp2sftp.Authorization.{Policy, new_gate}
use ftp2sftp.Metrics.{new_metrics}
use ftp2sftp.Filesystem.{new_mapper}
use ftp2sftp.Filesystem.Confinement.{Inside}
use ftp2sftp.Effects.{ret}
use ftp2sftp.Session.{new_session}
use ftp2sftp.SftpClient.{translate_error}
use ftp2sftp.SftpClient.Requests.{Keeps}
use ftp2sftp.Driver.{Env, World, maybe_invalidate}
use ftp2sftp.Driver.Handles.{Flags}
use ftp2sftp.Driver.Protocol.{opens, perform}
use ftp2sftp.Driver.Confinement.{perform-Inside}
use ftp2sftp.Driver.Permissions.{perform-denied}
use ftp2sftp.Driver.Reconnect.{kind_of-translate_error, maybe_invalidate-keeps}
use ftp2sftp.Witnesses.{virtual_root, remote_root, suffix, session_id}

abbrev read_only_user : Policy
read_only_user = record {
  allow_upload = false;
  allow_download = true;
  allow_delete = false;
  allow_mkdir = false;
  allow_rename = false;
  allow_overwrite = false;
  max_file_size = 0;
}

abbrev pub env : Env
env = record {
  target = record {
    host = codes "sftp";
    port = 22;
    username = codes "gw";
    private_key_file = codes "/key";
    private_key_passphrase_file = [];
    password = [];
    known_hosts_file = codes "/hosts";
    connect_timeout = 0;
  };
  root_path = codes "/srv/data";
  read_dir_timeout = 30;
  temporary_suffix = suffix;
  calculate_sha256 = true;
}

abbrev pub world : World
world = record {
  session =
      new_session session_id (codes "ana") (codes "::1") (new_mapper virtual_root remote_root)
        read_only_user;
  gate = new_gate 2;
  metrics = new_metrics;
  log = [];
}

abbrev download_flags : Flags
download_flags = record { wronly = false; append = false }

abbrev upload_flags : Flags
upload_flags = record { wronly = true; append = false }

abbrev remote_report : Bytes
remote_report = codes "/srv/data/a/report.txt"

mapped_report :
    remote_path world.session.mapper (codes "/files/a/report.txt") ≡ ok (report, remote_report)
unfolding remote_path resolve_virtual new_session new_mapper clean rooted ftp2sftp.GoPath.glue
    ftp2sftp.GoPath.push_all ftp2sftp.GoPath.elements ftp2sftp.GoPath.push to_remote
    ftp2sftp.GoPath.join
mapped_report = refl

report-ne-root : remote_report ≢ rooted (walk [] remote_root)
unfolding rooted walk ftp2sftp.GoPath.glue ftp2sftp.GoPath.push_all ftp2sftp.GoPath.elements
    ftp2sftp.GoPath.push
report-ne-root = ground arith

off_root :
    (p : Bytes × Bytes)
    → remote_path world.session.mapper (codes "/files/a/report.txt") ≡ ok p
    → p.1 ≢ rooted (walk [] remote_root)
off_root p e h =
    report-ne-root (ap (λ (q : Bytes × Bytes). q.1) (ok-injective (sym mapped_report ∙ e)) ∙ h)
  where
    ok-injective : {x y : Bytes × Bytes} → ◌≡◌ {A = Result (Bytes × Bytes)} (ok x) (ok y) → x ≡ y
    ok-injective e = cc

-- A transfer of two bytes to its end.
abbrev whole : Driving
whole = record { digest = λ b. b; uploads = writes (codes "ab") ∷ closes ∷ []; downloads = [] }

perform-Inside_example :
    Keeps
      (Inside (walk [] remote_root))
      (Inside (walk [] remote_root))
      (perform env (opens (codes "/files/a/report.txt") upload_flags (codes "t1") whole) world)
unfolding new_session
perform-Inside_example =
    perform-Inside virtual_root remote_root env world refl (ground arith) (ground arith)
      (opens (codes "/files/a/report.txt") upload_flags (codes "t1") whole) (λ e p h. off_root p h)

perform-denied_example :
    Keeps
      (λ p. Unit {0})
      (λ p. ⊥)
      (perform env (opens (codes "/files/a/report.txt") upload_flags (codes "t1") whole) world)
unfolding new_session
perform-denied_example =
    perform-denied env world (opens (codes "/files/a/report.txt") upload_flags (codes "t1") whole)
      refl

-- The connection is lost.
abbrev lost : Fault
lost = record {
  is_eof = true;
  is_deadline = false;
  is_not_exist = false;
  is_permission = false;
  times_out = false;
  text = "EOF";
}

maybe_invalidate-keeps_example :
    maybe_invalidate (some (translate_error "sftp.Stat" lost)) world ≡ ret world
maybe_invalidate-keeps_example = maybe_invalidate-keeps "sftp.Stat" lost world refl refl

kind_of-translate_error_example : kind_of (translate_error "sftp.Stat" lost) ≡ (
    if lost.is_eof
    then Kind.internal
    else if lost.is_deadline
    then Kind.timeout
    else if lost.is_not_exist
    then Kind.not_found
    else if lost.is_permission
    then Kind.remote_permission_denied
    else if lost.times_out
    then Kind.timeout
    else Kind.internal)
kind_of-translate_error_example = kind_of-translate_error "sftp.Stat" lost

abbrev entry : String → FileInfo
entry name = record { name = codes name; is_symlink = false; size = 1 }

read_dir-ListsSettled_example :
    Always Anything
      (λ q. Unit {0})
      (λ r. ListsSettled env.temporary_suffix r.1)
      (Commands.read_dir env (codes "/reports") world)
read_dir-ListsSettled_example = read_dir-ListsSettled env (codes "/reports") world

shown_entries :
    visible (suffix ++ b'-' ∷ []) (entry "report.txt" ∷ entry "report.txt.part-7f" ∷ [])
    ≡ entry "report.txt" ∷ []
unfolding visible
shown_entries = refl

begin_upload-Accounts_example :
    Always Anything
      (λ q. Unit {0})
      (Accounts world)
      (begin_upload env client
        (codes "/files/a")
        (codes "/srv/data/a")
        upload_flags
        (codes "t1")
        world)
begin_upload-Accounts_example =
    begin_upload-Accounts env client (codes "/files/a") (codes "/srv/data/a") upload_flags
      (codes "t1") world (ground arith) (ground arith)

begin_download-Accounts_example :
    Always Anything
      (λ q. Unit {0})
      (Accounts world)
      (begin_download env client (codes "/files/a") (codes "/srv/data/a") (codes "t1") world)
begin_download-Accounts_example =
    begin_download-Accounts env client (codes "/files/a") (codes "/srv/data/a") (codes "t1") world
      (ground arith)
