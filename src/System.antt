-- ===== src/System.antt =====
-- The gateway with its sessions: the callbacks of internal/ftpserver/gateway.go and the commands of
-- internal/ftpserver/clientdriver.go, interleaved over the connections, on the state that they share.
pub mod Connections
pub mod Counts
pub mod Commands
pub mod Departure
pub mod Gauge
use ftp2sftp.Base.{
  ℕ, List, [], ◌∷◌, Bool, String, Option, none, some, Bytes, eq_bytes, if◌then◌else◌,
}
use ftp2sftp.Authorization.{Gate}
use ftp2sftp.Auth.Authenticator.{LoginTimes}
use ftp2sftp.Effects.{ret}
use ftp2sftp.Remote.{Io, ◌>>=◌}
use ftp2sftp.Session.{Session}
use ftp2sftp.Transfer.{Callback}
use ftp2sftp.Driver.{Env, World, Event, handle_callbacks}
use ftp2sftp.Driver.Protocol.{Command, perform}
use ftp2sftp.Gateway.Connections.{ConnState, find, put}
use ftp2sftp.Gateway.{Gateway, auth_user, client_disconnected, prepare_shutdown}
use ftp2sftp.Gateway.Events.{connect_new, forget}

-- The gates stand by the user's name; a user's sessions share one.
pub record System : Type 0 where
  pub gateway : Gateway
  pub gates : Bytes → Gate
  pub log : List Event

-- What the FTP library does. `settles` are the calls back of a transfer that was opened before.
pub data Action : Type 0 where
  connects : ℕ → Action
  logs_in : ℕ → Bytes → Bytes → Bytes → LoginTimes → Bytes → Action
  requests : ℕ → Command → Action
  settles : ℕ → String → Bool → List Callback → Action
  disconnects : ℕ → Action
  shuts_down : Action

abbrev pub with_gateway : System → Gateway → System
with_gateway y g = record y { gateway = g }

-- What the driver of a session sees of the system.
abbrev pub world_in : System → Session → World
world_in y s = record {
  session = s;
  gate = y.gates s.username;
  metrics = y.gateway.metrics;
  log = y.log;
}

abbrev pub set_gate : Bytes → Gate → (Bytes → Gate) → Bytes → Gate
set_gate name gate gates k = if eq_bytes name k then gate else gates k

-- What the driver leaves.
abbrev pub stored : System → ℕ → ConnState → Bytes → World → System
stored y id cs name w =
    let g = y.gateway in
    record {
      gateway = record g {
        metrics = w.metrics;
        extras = put id (record cs { sess = some w.session }) g.extras;
      };
      gates = set_gate name w.gate y.gates;
      log = w.log;
    }

abbrev pub in_session :
    System → ℕ → ConnState → Option Session → (Session → World → Io World) → Io System
in_session y id cs none f = ret y
in_session y id cs (some s) f = f s (world_in y s) >>= λ w. ret (stored y id cs s.username w)

abbrev pub on_connection : System → ℕ → Option ConnState → (Session → World → Io World) → Io System
on_connection y id none f = ret y
on_connection y id (some cs) f = in_session y id cs cs.sess f

-- `env` gives what the driver of a user's session reads of the configuration.
module _ (matches : Bytes → Bytes → Bool) (dummy : Bytes) (env : Bytes → Env) where
  unfoldable pub system_step : System → Action → Io System
  system_step y (connects id) =
      ret (with_gateway y (connect_new y.gateway id (find id y.gateway.extras)))
  system_step y (logs_in id ip user password t fresh) =
      ret (with_gateway y (auth_user matches dummy y.gateway id ip user password t fresh).0)
  system_step y (requests id c) =
      on_connection y id (find id y.gateway.extras) (λ s w. perform (env s.username) c w)
  system_step y (settles id command is_upload calls) =
      on_connection y id (find id y.gateway.extras)
        (λ s w. ret (handle_callbacks command is_upload calls w))
  system_step y (disconnects id) =
      client_disconnected y.gateway id >>= λ g. ret (with_gateway y (forget g id))
  system_step y shuts_down = ret (with_gateway y (prepare_shutdown y.gateway))

  unfoldable pub system_run : System → List Action → Io System
  system_run y [] = ret y
  system_run y (a ∷ rest) = system_step y a >>= λ z. system_run z rest
