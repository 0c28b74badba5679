-- ===== src/Health.antt =====
-- internal/health/server.go: the liveness and readiness endpoints.
use ftp2sftp.Base.{ℕ, Bool, false, Option, none, some, Bytes, codes, if◌then◌else◌}
use ftp2sftp.Errors.{Error}
use ftp2sftp.Effects.{ret}
use ftp2sftp.Remote.{Io, ◌>>=◌}

pub record Response : Type 0 where
  pub status : ℕ
  pub body : Bytes

-- The HTTP server, the metrics and the log are left out. `check` is the call of the readiness check
-- under the server's timeout.
pub record Server : Type 0 where
  pub alive : Bool
  pub readiness_requires_check : Bool
  pub check : Option (Io (Option Error))

-- `NewServer`.
abbrev pub new_server : Bool → Option (Io (Option Error)) → Server
new_server requires check = record {
  alive = false;
  readiness_requires_check = requires;
  check = check;
}

-- `SetAlive`.
unfoldable pub set_alive : Bool → Server → Server
set_alive b s = record s { alive = b }

abbrev pub ok_status : ℕ
ok_status = 200

abbrev pub not_alive : Response
not_alive = record { status = 503; body = codes "not alive\n" }

-- `handleHealthz`.
unfoldable pub handle_healthz : Server → Response
handle_healthz s = if s.alive then record { status = ok_status; body = codes "ok\n" } else not_alive

abbrev pub ready : Response
ready = record { status = ok_status; body = codes "ready\n" }

abbrev pub readiness : Option Error → Response
readiness none = ready
readiness (some e) = record { status = 503; body = codes "not ready: dependency check failed\n" }

abbrev pub checked : Option (Io (Option Error)) → Io Response
checked none = ret ready
checked (some check) = check >>= λ e. ret (readiness e)

-- `handleReadyz`.
unfoldable pub handle_readyz : Server → Io Response
handle_readyz s =
    if s.alive
    then if s.readiness_requires_check then checked s.check else ret ready
    else ret not_alive
