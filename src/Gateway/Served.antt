-- ===== src/Gateway/Served.antt =====
-- From the configuration to the remote files: what the sessions of a gateway touch
-- (internal/ftpserver/gateway.go with internal/ftpserver/clientdriver.go).
use ftp2sftp.Base.{
  ℕ, ◌<◌, List, [], ◌∷◌, Bool, ◌≡◌, refl, sym, ◌∙◌, subst, true, Bytes, Option, All,
}
use mathlib.Core.List.{Mem}
use ftp2sftp.Errors.{Result, ok, err}
use ftp2sftp.GoPath.Clean.{walk}
use ftp2sftp.GoPath.Elements.{Plain}
use ftp2sftp.Authorization.{Gate}
use ftp2sftp.Filesystem.{new_mapper}
use ftp2sftp.Filesystem.Confinement.{Inside}
use ftp2sftp.Effects.{Always, Always-bind, Always-mono}
use ftp2sftp.SftpClient.Requests.{Anything, Within, Keeps}
use ftp2sftp.Metrics.{Metrics, word}
use ftp2sftp.Auth.Authenticator.{LoginTimes}
use ftp2sftp.Config.{UserConfig, Config}
use ftp2sftp.Session.{Session}
use ftp2sftp.Driver.{Env, World, Event}
use ftp2sftp.Driver.Protocol.{Command, perform, perform_all}
use ftp2sftp.Driver.Confinement.{AvoidsRoot, perform-Inside}
use ftp2sftp.Resources.{Open, nothing, Always-Holds}
use ftp2sftp.Resources.Sessions.{Tracked}
use ftp2sftp.Resources.Commands.{perform-Tracked}
use ftp2sftp.Identifiers.{new_correlation_id, new_correlation_id-Plain}
use ftp2sftp.Gateway.{Gateway, auth_user}
use ftp2sftp.Gateway.Startup.{env_of, build}
use ftp2sftp.Gateway.Events.{gateway_run}
use ftp2sftp.Gateway.Events
use ftp2sftp.Gateway.Logins.{LoginOf, Outcome, LoginsAreConfigured, build-LoginsAreConfigured}

-- The command uploads nothing onto the remote root itself.
abbrev pub SparesRoot : Bytes → Bytes → Command → Type 0
SparesRoot v r c = (w : World) → w.session.mapper ≡ new_mapper v r → AvoidsRoot (walk [] r) w c

abbrev pub In : Bytes → Bytes → Type 0
In r = Inside (walk [] r)

module _ (v r : Bytes) (env : Env) (suffix : Plain env.temporary_suffix) (base : ℕ)
    (small : base < word) (s : Session) (mapped : s.mapper ≡ new_mapper v r)
    (sid : Plain s.id) where
  perform_all-Inside :
      (cs : List Command) (w : World) (k : Open)
      → All (SparesRoot v r) cs
      → Tracked nothing base small s w k
      → Keeps (In r) (In r) (perform_all env cs w)
  unfolding perform_all
  perform_all-Inside [] w k a h = tt
  perform_all-Inside (c ∷ cs) w k a h =
      let m = h.same.mapper_eq ∙ mapped in
      let p : Plain w.session.id = subst Plain (sym h.same.id_eq) sid in
      Always-bind Anything (Within (In r) (In r))
        (λ w. (k : Open) × Tracked nothing base small s w k) (λ w. Unit {0}) (perform env c w)
        (perform_all env cs)
        (Always-Holds (Within (In r) (In r)) (Tracked nothing base small s) k (perform env c w)
          (perform-Inside v r env w m p suffix c (a.0 w m))
          (perform-Tracked nothing base small s env c w k h))
        (λ w d. perform_all-Inside cs w d.0 a.1 d.1)

-- A session's world at its login, with whatever gate, metrics and log.
abbrev pub world_of : Session → Gate → Metrics → List Event → World
world_of s gate m log = record { session = s; gate = gate; metrics = m; log = log }

-- Any commands of the session stay inside the configured remote root of the account.
abbrev pub StaysInside : Config → UserConfig → Session → Type 0
StaysInside c u s =
    (cs : List Command) (gate : Gate) (m : Metrics) (log : List Event)
    → m.sftp_connections_active < word
    → All (SparesRoot u.virtual_root u.sftp.root_path) cs
    → Keeps (In u.sftp.root_path) (In u.sftp.root_path)
        (perform_all (env_of c u) cs (world_of s gate m log))

LoginOf-StaysInside :
    (matches : Bytes → Bytes → Bool) (dummy : Bytes) (c : Config) (user password fresh : Bytes)
    (s : Session)
    → Plain c.transfer.temporary_suffix
    → Plain fresh
    → (l : LoginOf matches dummy c user password fresh s) → StaysInside c l.account s
unfolding env_of
LoginOf-StaysInside matches dummy c user password fresh s x f l cs gate m log small a =
    let u = l.account in
    perform_all-Inside u.virtual_root u.sftp.root_path (env_of c u) x m.sftp_connections_active
      small s l.mapped (subst Plain (sym l.numbered) f) cs (world_of s gate m log) nothing a
      (record {
        open_eq = rw l.unconnected refl;
        gauge_eq = rw l.unconnected refl;
        same = record { id_eq = refl; mapper_eq = refl; policy_eq = refl };
        closed_eq = refl;
      })

-- A login that fails gives no session; one that succeeds gives a session of an account with this name
-- and password, which stays inside it.
abbrev pub ConfinedLogin : (Bytes → Bytes → Bool) → Config → Bytes → Bytes → Result Session → Type 0
ConfinedLogin matches c user password (err e) = Unit {0}
ConfinedLogin matches c user password (ok s) =
    (u : UserConfig) × Mem u c.users
    × (u.username ≡ user)
    × (matches u.password_hash password ≡ true)
    × StaysInside c u s

-- Every login, at any time.
abbrev pub Confines : (Bytes → Bytes → Bool) → Bytes → Config → Gateway → Type 0
Confines matches dummy c g =
    (id : ℕ) (ip user password : Bytes) (t : LoginTimes) (random : Option Bytes) (now count : ℕ)
    → ConfinedLogin matches c user password
        (auth_user matches dummy g id ip user password t (new_correlation_id random now count)).1

Outcome-ConfinedLogin :
    (matches : Bytes → Bytes → Bool) (dummy : Bytes) (c : Config) (user password fresh : Bytes)
    (r : Result Session)
    → Plain c.transfer.temporary_suffix
    → Plain fresh
    → Outcome matches dummy c user password fresh r
    → ConfinedLogin matches c user password r
Outcome-ConfinedLogin matches dummy c user password fresh (err e) x f l = tt
Outcome-ConfinedLogin matches dummy c user password fresh (ok s) x f l = (
  l.account,
  l.configured,
  l.named,
  l.matched,
  LoginOf-StaysInside matches dummy c user password fresh s x f l,
)

-- End to end: a gateway is built from a configuration whose temporary suffix has no slash. At any
-- time, whatever connections, logins and commands came before and whatever the remote side answered,
-- a login that succeeds is that of a configured account with this name and password; and whatever
-- that session is asked for, one command after the other, transfers with their commit or clean-up
-- included, it reads, lists, creates, truncates, moves and removes only paths inside that account's
-- remote root, unless it is asked to upload onto the root itself. Paths are taken by their names, and
-- the inspection of a link itself (Lstat and ReadLink) is not restricted. The gauge of connections is a 64-bit pattern.
pub build-Confines :
    (matches : Bytes → Bytes → Bool) (dummy : Bytes) (c : Config) (m : Metrics)
    (es : List Events.Event)
    → Plain c.transfer.temporary_suffix
    → Always Anything
        (λ q. Unit {0})
        (Confines matches dummy c)
        (gateway_run matches dummy (build c m) es)
build-Confines matches dummy c m es x =
    Always-mono Anything (λ q. Unit {0}) (LoginsAreConfigured matches dummy c)
      (Confines matches dummy c) (gateway_run matches dummy (build c m) es)
      (λ g h id ip user password t random now count.
        let fresh = new_correlation_id random now count in
        Outcome-ConfinedLogin matches dummy c user password fresh _ x
          (new_correlation_id-Plain random now count) (h id ip user password t fresh))
      (build-LoginsAreConfigured matches dummy c m es)
