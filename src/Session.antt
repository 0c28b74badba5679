-- ===== src/Session.antt =====
-- internal/session/session.go: the state of one authenticated FTP connection, with an SFTP connection
-- that is dialled on first use.
pub mod Requests
use ftp2sftp.Base.{Bool, true, false, Option, none, some, Bytes, if◌then◌else◌}
use ftp2sftp.Errors.{Kind, Error, new, Result, ok, err}
use ftp2sftp.Authorization.{Policy}
use ftp2sftp.Filesystem.{Mapper}
use ftp2sftp.Effects.{ret, bind}
use ftp2sftp.Remote.{Io, ◌>>=◌, ◌>>◌}
use ftp2sftp.SftpClient
use ftp2sftp.SftpClient.{Client}

-- The start time, which nothing but a getter reads, is left out; the user's gate is shared by the
-- user's sessions and stands beside them.
pub record Session : Type 0 where
  pub id : Bytes
  pub username : Bytes
  pub client_ip : Bytes
  pub mapper : Mapper
  pub policy : Policy
  pub sftp : Option Client
  pub closed : Bool

-- `New`.
unfoldable pub new_session : Bytes → Bytes → Bytes → Mapper → Policy → Session
new_session id username client_ip mapper policy = record {
  id = id;
  username = username;
  client_ip = client_ip;
  mapper = mapper;
  policy = policy;
  sftp = none;
  closed = false;
}

abbrev pub closed_session : Error
closed_session = new Kind.disconnected "session.SFTP" "la sesión ya fue cerrada"

-- `IsConnected`.
unfoldable pub is_connected : Session → Bool
is_connected s = elim s.sftp [ none ↦ false | some c ↦ true ]

module _ {S : Type 0} (connect : S → Io (S × Result Client)) where
  unfoldable pub dialled : Session → S × Result Client → Session × S × Result Client
  dialled s (w, ok c) = (record s { sftp = some c }, w, ok c)
  dialled s (w, err e) = (s, w, err e)

  unfoldable pub reuse : Session → S → Option Client → Io (Session × S × Result Client)
  unfolding dialled
  reuse s w (some c) = ret (s, w, ok c)
  reuse s w none = connect w >>= λ r. ret (dialled s r)

  -- `SFTP`. `S` is what the connector changes besides.
  unfoldable pub connection : Session → S → Io (Session × S × Result Client)
  unfolding reuse
  connection s w = if s.closed then ret (s, w, err closed_session) else reuse s w s.sftp

-- The connection, if there is one, is closed and forgotten.
unfoldable pub drop_client : Session → Option Client → Io (Session × Option Error)
drop_client s none = ret (s, none)
drop_client s (some c) = SftpClient.close c >>= λ e. ret (record s { sftp = none }, e)

-- `InvalidateSFTP`.
unfoldable pub invalidate_sftp : Session → Io Session
unfolding drop_client
invalidate_sftp s = drop_client s s.sftp >>= λ r. ret r.0

-- `Close`.
unfoldable pub close : Session → Io (Session × Option Error)
unfolding drop_client
close s = if s.closed then ret (s, none) else drop_client (record s { closed = true }) s.sftp
