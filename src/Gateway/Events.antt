-- ===== src/Gateway/Events.antt =====
-- The life of the gateway as a sequence of events.
use ftp2sftp.Base.{ℕ, List, [], ◌∷◌, Bool, Option, none, some, Bytes}
use ftp2sftp.Auth.Authenticator.{LoginTimes}
use ftp2sftp.Session.{Session}
use ftp2sftp.Effects.{ret}
use ftp2sftp.Remote.{Io, ◌>>=◌}
use ftp2sftp.Gateway.Connections.{ConnState, find, put, remove}
use ftp2sftp.Gateway.{Gateway, client_connected, client_disconnected, auth_user, prepare_shutdown}

-- What the FTP library and the sessions do. `works` is any change that commands make to the session of
-- a connection.
pub data Event : Type 0 where
  connects : ℕ → Event
  logs_in : ℕ → Bytes → Bytes → Bytes → LoginTimes → Bytes → Event
  works : ℕ → Session → Event
  disconnects : ℕ → Event
  shuts_down : Event

abbrev pub connect_new : Gateway → ℕ → Option ConnState → Gateway
connect_new g id none = (client_connected g id).0
connect_new g id (some cs) = g

abbrev pub resumed : Session → Option Session → Option Session
resumed s none = none
resumed s (some d) = some s

abbrev pub rework : Gateway → ℕ → Session → Option ConnState → Gateway
rework g id s none = g
rework g id s (some cs) = record g {
  extras = put id (record cs { sess = resumed s cs.sess }) g.extras;
}

abbrev pub forget : Gateway → ℕ → Gateway
forget g id = record g { extras = remove id g.extras }

module _ (matches : Bytes → Bytes → Bool) (dummy : Bytes) where
  -- The number of a live connection is not given to a new one, and a connection's state goes with it.
  unfoldable pub gateway_step : Gateway → Event → Io Gateway
  gateway_step g (connects id) = ret (connect_new g id (find id g.extras))
  gateway_step g (logs_in id ip user password t fresh) =
      ret (auth_user matches dummy g id ip user password t fresh).0
  gateway_step g (works id s) = ret (rework g id s (find id g.extras))
  gateway_step g (disconnects id) = client_disconnected g id >>= λ h. ret (forget h id)
  gateway_step g shuts_down = ret (prepare_shutdown g)

  unfoldable pub gateway_run : Gateway → List Event → Io Gateway
  gateway_run g [] = ret g
  gateway_run g (e ∷ es) = gateway_step g e >>= λ h. gateway_run h es
