-- ===== src/Driver.antt =====
-- internal/ftpserver/clientdriver.go, with `connector` and `recordTransfer` of gateway.go: what the FTP
-- library calls for one authenticated connection.
pub mod Commands
pub mod Handles
pub mod Requests
pub mod Opening
pub mod Driving
pub mod Protocol
pub mod Confinement
pub mod RootUpload
pub mod Permissions
pub mod Reconnect
pub mod Listing
pub mod Accounting
use ftp2sftp.Base.{
  ℕ, List, [], ◌∷◌, ◌++◌, Bool, true, false, ◌≡◌, String, Option, none, some, Bytes, codes,
  if◌then◌else◌,
}
use ftp2sftp.Errors.{Kind, Error, new, Result, ok, err, kind_of}
use ftp2sftp.GoPath.{slash}
use ftp2sftp.Authorization.{Policy, Gate}
use ftp2sftp.Authorization
use ftp2sftp.Filesystem.{Mapper, resolve_virtual, to_remote}
use ftp2sftp.Effects.{ret, bind}
use ftp2sftp.Remote.{Io, ◌>>=◌, ◌>>◌}
use ftp2sftp.SftpClient
use ftp2sftp.SftpClient.{Client}
use ftp2sftp.SshClient.{SshConfig, dial}
use ftp2sftp.Session.{Session, connection, is_connected, invalidate_sftp}
use ftp2sftp.Metrics.{Metrics, add, inc, dec}
use ftp2sftp.Transfer.{Phase, TransferResult, Callback, completed, released}

-- The configuration of the user and of the gateway, as far as the driver reads it.
pub record Env : Type 0 where
  pub target : SshConfig
  pub root_path : Bytes
  pub read_dir_timeout : ℕ
  pub temporary_suffix : Bytes
  pub calculate_sha256 : Bool

-- What is logged: a command with its virtual path and error, or the result of a transfer.
pub data Event : Type 0 where
  audited : String → Bytes → Option Error → Event
  transferred : String → TransferResult → Event

-- The session, the gate of its user, the gateway's metrics and its log, newest first.
pub record World : Type 0 where
  pub session : Session
  pub gate : Gate
  pub metrics : Metrics
  pub log : List Event

-- `audit`.
unfoldable pub audit : String → Bytes → Option Error → World → World
audit command path e w =
    let m = w.metrics in
    record w {
      metrics = record m { ftp_commands_total = inc m.ftp_commands_total };
      log = audited command path e ∷ w.log;
    }

unfoldable pub connected_client : Metrics → Result Client → Metrics × Result Client
connected_client m (ok c) =
    (record m { sftp_connections_active = inc m.sftp_connections_active }, ok c)
connected_client m (err e) =
    (record m { sftp_connection_failures_total = inc m.sftp_connection_failures_total }, err e)

unfoldable pub open_channel : Env → Metrics → Result ℕ → Io (Metrics × Result Client)
unfolding connected_client
open_channel env m (ok ssh) =
    SftpClient.new_client ssh env.root_path >>= λ r. ret (connected_client m r)
open_channel env m (err e) =
    ret (record m { sftp_connection_failures_total = inc m.sftp_connection_failures_total }, err e)

-- `connector`.
unfoldable pub connector : Env → Metrics → Io (Metrics × Result Client)
unfolding open_channel
connector env m = dial env.target >>= open_channel env m

-- `sftp`: the session's connection, dialled if there is none.
unfoldable pub sftp : Env → World → Io (World × Result Client)
sftp env w = connection (connector env) w.session w.metrics >>= λ r.
    ret (record w { session = r.0; metrics = r.1 }, r.2)

-- The kinds for which the connection is given up.
abbrev pub is_connection_error : Kind → Bool
is_connection_error Kind.ssh_connection = true
is_connection_error Kind.timeout = true
is_connection_error Kind.disconnected = true
is_connection_error k = false

unfoldable pub drop_connection : World → Io World
drop_connection w =
    let m = w.metrics in
    invalidate_sftp w.session >>= λ s. ret (record w {
      session = s;
      metrics = record m { sftp_connections_active = dec m.sftp_connections_active };
    })

-- `maybeInvalidate`.
unfoldable pub maybe_invalidate : Option Error → World → Io World
unfolding drop_connection
maybe_invalidate none w = ret w
maybe_invalidate (some e) w =
    if is_connection_error (kind_of e)
    then (if is_connected w.session then drop_connection w else ret w)
    else ret w

to_remote_of : Mapper → Result Bytes → Result (Bytes × Bytes)
to_remote_of m (err e) = err e
to_remote_of m (ok v) = elim (to_remote m v) [ err e ↦ err e | ok r ↦ ok (v, r) ]

-- `remotePath`, with `resolveAndContain`: the virtual and the remote path.
unfoldable pub remote_path : Mapper → Bytes → Result (Bytes × Bytes)
unfolding to_remote_of
remote_path m name = to_remote_of m (resolve_virtual m (slash ∷ []) name)

-- A refusal is audited and returned.
abbrev pub refuse : {A : Type 0} → String → Bytes → Error → World → Io (World × Result A)
refuse command path e w = ret (audit command path (some e) w, err e)

-- The three guards that most commands begin with: the path, the permission and the connection.
abbrev pub on_path :
    {A : Type 0}
    → String
    → Bytes
    → World
    → Result (Bytes × Bytes)
    → (Bytes → Bytes → Io (World × Result A))
    → Io (World × Result A)
on_path command name w (err e) k = refuse command name e w
on_path command name w (ok p) k = k p.0 p.1

abbrev pub permit :
    {A : Type 0}
    → String
    → Bytes
    → World
    → Option Error
    → Io (World × Result A)
    → Io (World × Result A)
permit command path w none k = k
permit command path w (some e) k = refuse command path e w

abbrev pub on_client :
    {A : Type 0}
    → String
    → Bytes
    → (World → Client → Io (World × Result A))
    → World × Result Client
    → Io (World × Result A)
on_client command path k (w, err e) = refuse command path e w
on_client command path k (w, ok c) = k w c

-- `sc, err := d.sftp(); if err != nil { d.audit(…); return err }`.
abbrev pub with_client :
    {A : Type 0}
    → Env
    → String
    → Bytes
    → World
    → (World → Client → Io (World × Result A))
    → Io (World × Result A)
with_client env command path w k = sftp env w >>= on_client command path k

-- A result that is an error or nothing.
abbrev pub result_unit : Option Error → Result (Unit {0})
result_unit none = ok tt
result_unit (some e) = err e

-- `d.maybeInvalidate(err); d.audit(…); return err`.
abbrev pub conclude : String → Bytes → World → Option Error → Io (World × Result (Unit {0}))
conclude command path w e =
    maybe_invalidate e w >>= λ w'. ret (audit command path e w', result_unit e)

-- `recordTransfer`.
unfoldable pub record_transfer : String → Bool → TransferResult → World → World
record_transfer command is_upload r w =
    let m = w.metrics in
    record w {
      metrics = record m {
        temporary_files_pending =
            if is_upload then dec m.temporary_files_pending else m.temporary_files_pending;
        transfer_bytes_total = add m.transfer_bytes_total r.bytes;
        transfer_failures_total = elim r.phase [
          | Phase.failed_transfer ↦ inc m.transfer_failures_total
          | _ ↦ m.transfer_failures_total
        ];
      };
      log = transferred command r ∷ w.log;
    }

-- The release of a transfer's slot, which `GetHandle` hands to the transfer.
unfoldable pub release_slot : World → World
release_slot w =
    let m = w.metrics in
    record w {
      gate = Authorization.release w.gate;
      metrics = record m { transfer_active = dec m.transfer_active };
    }

-- What the calls back of a handle do. (`Release` is called once by a handle, so the flag that makes a
-- second call do nothing has no effect.)
unfoldable pub handle_callbacks : String → Bool → List Callback → World → World
handle_callbacks command is_upload [] w = w
handle_callbacks command is_upload (completed r ∷ cs) w =
    handle_callbacks command is_upload cs (record_transfer command is_upload r w)
handle_callbacks command is_upload (released ∷ cs) w =
    handle_callbacks command is_upload cs (release_slot w)
