-- ===== src/Gateway/Configured.antt =====
-- Logins of a gateway that comes from a configuration (internal/ftpserver/gateway.go).
use ftp2sftp.Base.{
  ℕ, Bool, true, false, ◌≡◌, refl, ◌∙◌, Option, none, some, map, to_nat, if◌then◌else◌, Bool-cases,
  inl, inr,
}
use ftp2sftp.Errors.{Error}
use ftp2sftp.Auth.Store.{new_store}
use ftp2sftp.Config.{Config}
use ftp2sftp.Metrics.{Metrics}
use ftp2sftp.Session.{Session}
use ftp2sftp.Session
use ftp2sftp.Effects.{Always, Always-bind, Always-trivial}
use ftp2sftp.Remote.{Io}
use ftp2sftp.SftpClient.Requests.{Anything}
use ftp2sftp.Gateway.Connections.{ConnState}
use ftp2sftp.Gateway.{Gateway, new_gateway, leave, close_session, disconnected, client_connected}
use ftp2sftp.Gateway.Events.{connect_new, rework}
use ftp2sftp.Gateway.Startup.{record_of, add_runtimes, build}

-- The gateway has the users of the configuration, with their hashes, and its limit.
pub record Serves (c : Config) (g : Gateway) : Type 0 where
  pub users_eq : g.users ≡ add_runtimes (λ name. none) c.users
  pub store_eq : g.authent.store ≡ new_store (map record_of c.users)
  pub limit_eq : g.max_connections ≡ to_nat c.server.max_connections

pub build-Serves : (c : Config) (m : Metrics) → Serves c (build c m)
unfolding build new_gateway
build-Serves c m = record { users_eq = refl; store_eq = refl; limit_eq = refl }

-- The rest of the state does not matter.
pub same-Serves :
    (c : Config) (g h : Gateway)
    → h.users ≡ g.users
    → h.authent.store ≡ g.authent.store
    → h.max_connections ≡ g.max_connections
    → Serves c g
    → Serves c h
same-Serves c g h u s l v = record {
  users_eq = u ∙ v.users_eq;
  store_eq = s ∙ v.store_eq;
  limit_eq = l ∙ v.limit_eq;
}

abbrev pub Serving : Config → Io Gateway → Type 0
Serving c m = Always Anything (λ q. Unit {0}) (Serves c) m

if-Serves :
    (c : Config) (b : Bool) (x y : Gateway × Option Error)
    → Serves c x.0
    → Serves c y.0
    → Serves c (if b then x else y).0
if-Serves c true x y h k = h
if-Serves c false x y h k = k

client_connected-Serves :
    (c : Config) (g : Gateway) (id : ℕ) → Serves c g → Serves c (client_connected g id).0
unfolding client_connected
client_connected-Serves c g id v =
    if-Serves c g.shutting_down _ _ (same-Serves c g _ refl refl refl v)
      (if-Serves c _ _ _ (same-Serves c g _ refl refl refl v) (same-Serves c g _ refl refl refl v))

pub connect_new-Serves :
    (c : Config) (g : Gateway) (id : ℕ) (o : Option ConnState)
    → Serves c g
    → Serves c (connect_new g id o)
connect_new-Serves c g id none v = client_connected-Serves c g id v
connect_new-Serves c g id (some cs) v = v

pub rework-Serves :
    (c : Config) (g : Gateway) (id : ℕ) (s : Session) (o : Option ConnState)
    → Serves c g
    → Serves c (rework g id s o)
rework-Serves c g id s none v = v
rework-Serves c g id s (some cs) v = same-Serves c g _ refl refl refl v

leave-Serves : (c : Config) (g : Gateway) (cs : ConnState) → Serves c g → Serves c (leave g cs)
leave-Serves c g cs v = elim (Bool-cases cs.admitted) [
  | inl b ↦ rw b (same-Serves c g _ refl refl refl v)
  | inr b ↦ rw b v
]

close_session-Serves :
    (c : Config) (g : Gateway) (id : ℕ) (cs : ConnState) (o : Option Session)
    → Serves c g
    → Serving c (close_session g id cs o)
close_session-Serves c g id cs none v = v
close_session-Serves c g id cs (some x) v =
    Always-bind Anything (λ q. Unit {0}) (λ r. Unit {0}) (Serves c) (Session.close x) _
      (Always-trivial Anything (λ q. Unit {0}) (Session.close x) (λ q. tt))
      (λ r t. same-Serves c g _ refl refl refl v)

pub disconnected-Serves :
    (c : Config) (g : Gateway) (id : ℕ) (o : Option ConnState)
    → Serves c g
    → Serving c (disconnected g id o)
disconnected-Serves c g id none v = v
disconnected-Serves c g id (some cs) v =
    close_session-Serves c (leave g cs) id cs cs.sess (leave-Serves c g cs v)
