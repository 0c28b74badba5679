-- ===== src/Gateway.antt =====
-- internal/ftpserver/gateway.go: the connections of the gateway, their admission and their logins.
pub mod Connections
pub mod Events
pub mod Accounted
pub mod Departure
pub mod Admission
pub mod Relogin
pub mod Startup
pub mod Accounts
pub mod Configured
pub mod Logins
pub mod Served
pub mod Limits
use ftp2sftp.Base.{
  ℕ, ◌+◌, ◌-◌, ◌*◌, ◌^◌, List, [], ◌∷◌, Bool, true, false, ◌&&◌, ◌||◌, Option, none, some, Bytes,
  ltb, ◌==◌, if◌then◌else◌,
}
use ftp2sftp.Errors.{Kind, Error, new, Result, ok, err, is}
use ftp2sftp.Authorization.{Policy}
use ftp2sftp.Filesystem.{Mapper}
use ftp2sftp.Auth.Limiter.{new_limiter}
use ftp2sftp.Auth.Store.{UserRecord, new_store}
use ftp2sftp.Auth.Authenticator.{Authenticator, LoginTimes, authenticate}
use ftp2sftp.Metrics.{Metrics, inc, dec}
use ftp2sftp.Session
use ftp2sftp.Session.{Session, new_session, is_connected}
use ftp2sftp.Effects.{ret, bind}
use ftp2sftp.Remote.{Io, ◌>>=◌}
use ftp2sftp.Gateway.Connections.{ConnState, Conns, find, put}

-- `userRuntime`, without the gate and the target, which the driver's world holds.
pub record UserRuntime : Type 0 where
  pub mapper : Mapper
  pub policy : Policy

-- `active` is the 64-bit pattern of the count of connections, `sessions` the count of the wait group,
-- `tracked` the keys of `conns`, and `extras` what `SetExtra` stores with each connection. `panicked`
-- is set by a `Done` at a count of 0.
pub record Gateway : Type 0 where
  pub users : Bytes → Option UserRuntime
  pub authent : Authenticator
  pub max_connections : ℕ
  pub active : ℕ
  pub shutting_down : Bool
  pub sessions : ℕ
  pub panicked : Bool
  pub tracked : ℕ → Bool
  pub extras : Conns
  pub metrics : Metrics

-- The end of `New`, given the users' runtimes and records: five failures in a minute lock a
-- key out for ten seconds.
unfoldable pub new_gateway : (Bytes → Option UserRuntime) → List UserRecord → ℕ → Metrics → Gateway
new_gateway users records max_connections metrics = record {
  users = users;
  authent = record {
    store = new_store records;
    by_ip = new_limiter 5 (60 * 10 ^ 9) (10 * 10 ^ 9);
    by_user = new_limiter 5 (60 * 10 ^ 9) (10 * 10 ^ 9);
  };
  max_connections = max_connections;
  active = 0;
  shutting_down = false;
  sessions = 0;
  panicked = false;
  tracked = λ id. false;
  extras = [];
  metrics = metrics;
}

abbrev pub shutting_down_error : Error
shutting_down_error =
    new Kind.disconnected "ftpserver.ClientConnected" "el servicio está cerrando, intente más tarde"

abbrev pub too_many_connections : Error
too_many_connections =
    new Kind.rate_limited "ftpserver.ClientConnected"
      "demasiadas conexiones activas, intente más tarde"

abbrev pub no_user_runtime : Error
no_user_runtime = new Kind.internal "ftpserver.AuthUser" "error interno de configuración"

abbrev pub track : ℕ → Bool → (ℕ → Bool) → ℕ → Bool
track id b tracked k = if k == id then b else tracked k

-- `int(active) > g.cfg.Server.MaxConnections`, on a signed pattern.
abbrev pub above : ℕ → ℕ → Bool
above active max = ltb active (2 ^ 63) && ltb max active

abbrev pub counted_connection : Metrics → Metrics
counted_connection m = record m { ftp_connections_total = inc m.ftp_connections_total }

abbrev pub admit : Gateway → ℕ → Gateway
admit g id =
    let m = g.metrics in
    record g {
      active = inc g.active;
      extras = put id (record { admitted = true; sess = none }) g.extras;
      tracked = track id true g.tracked;
      metrics = record m { ftp_connections_active = inc m.ftp_connections_active };
    }

-- `ClientConnected`.
unfoldable pub client_connected : Gateway → ℕ → Gateway × Option Error
client_connected g id =
    let g' : Gateway = record g { metrics = counted_connection g.metrics } in
    if g.shutting_down
    then (g', some shutting_down_error)
    else if above (inc g.active) g.max_connections
    then (record g' { active = dec (inc g.active) }, some too_many_connections)
    else (admit g' id, none)

-- `if cs.admitted { … }`.
abbrev pub leave : Gateway → ConnState → Gateway
leave g cs =
    let m = g.metrics in
    if cs.admitted
    then record g {
      active = dec g.active;
      metrics = record m { ftp_connections_active = dec m.ftp_connections_active };
    }
    else g

-- What `ClientDisconnected` does once the session is closed: `connected` says whether it was.
abbrev pub session_done : Gateway → ℕ → ConnState → Bool → Session → Gateway
session_done g id cs connected s =
    let m = g.metrics in
    record g {
      extras = put id (record cs { sess = some s }) g.extras;
      sessions = g.sessions - 1;
      panicked = g.panicked || g.sessions == 0;
      metrics = record m {
        sftp_connections_active =
            if connected then dec m.sftp_connections_active else m.sftp_connections_active;
      };
    }

abbrev pub close_session : Gateway → ℕ → ConnState → Option Session → Io Gateway
close_session g id cs none = ret g
close_session g id cs (some s) =
    Session.close s >>= λ r. ret (session_done g id cs (is_connected s) r.0)

abbrev pub disconnected : Gateway → ℕ → Option ConnState → Io Gateway
disconnected g id none = ret g
disconnected g id (some cs) = close_session (leave g cs) id cs cs.sess

-- `ClientDisconnected`.
unfoldable pub client_disconnected : Gateway → ℕ → Io Gateway
client_disconnected g id =
    disconnected (record g { tracked = track id false g.tracked }) id (find id g.extras)

abbrev pub failed_login : Gateway → Error → Gateway
failed_login g e =
    let m = g.metrics in
    record g {
      metrics = record m {
        ftp_auth_failures_total = inc m.ftp_auth_failures_total;
        rate_limit_rejections_total =
            if is e Kind.rate_limited
            then inc m.rate_limit_rejections_total
            else m.rate_limit_rejections_total;
      };
    }

-- `cs.sess = sess`, if the connection has its state.
abbrev pub attach : Conns → ℕ → Session → Option ConnState → Conns
attach extras id s none = extras
attach extras id s (some cs) = put id (record cs { sess = some s }) extras

abbrev pub begin_session :
    Gateway → ℕ → Bytes → Bytes → Bytes → Option UserRuntime → Gateway × Result Session
begin_session g id ip user fresh none = (g, err no_user_runtime)
begin_session g id ip user fresh (some rt) =
    let s = new_session fresh user ip rt.mapper rt.policy in
    (record g { extras = attach g.extras id s (find id g.extras); sessions = g.sessions + 1 }, ok s)

abbrev pub logged_in : Gateway → ℕ → Bytes → Bytes → Bytes → Option Error → Gateway × Result Session
logged_in g id ip user fresh (some e) = (failed_login g e, err e)
logged_in g id ip user fresh none = begin_session g id ip user fresh (g.users user)

abbrev pub attempted : Gateway → Authenticator → Gateway
attempted g a =
    let m = g.metrics in
    record g {
      authent = a;
      metrics = record m {
        ftp_commands_total = inc m.ftp_commands_total;
        ftp_auth_attempts_total = inc m.ftp_auth_attempts_total;
      };
    }

-- `AuthUser`; `fresh` is the new correlation id. (`SetPath`, which sets the directory that the FTP
-- library keeps, is left out.)
unfoldable pub auth_user :
    (Bytes → Bytes → Bool)
    → Bytes
    → Gateway
    → ℕ
    → Bytes
    → Bytes
    → Bytes
    → LoginTimes
    → Bytes
    → Gateway × Result Session
auth_user matches dummy g id ip user password t fresh =
    let r = authenticate matches dummy g.authent ip user password t in
    logged_in (attempted g r.0) id ip user fresh r.1

-- `PrepareShutdown`.
unfoldable pub prepare_shutdown : Gateway → Gateway
prepare_shutdown g = record g { shutting_down = true }
