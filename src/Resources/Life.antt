-- ===== src/Resources/Life.antt =====
-- The connections of a session from its login to its end: the commands of
-- internal/ftpserver/clientdriver.go, then ClientDisconnected of internal/ftpserver/gateway.go.
use ftp2sftp.Base.{
  ℕ, ◌<◌, List, [], ◌∷◌, true, false, ◌≡◌, refl, ap, ◌∙◌, Option, none, some, if◌then◌else◌,
}
use ftp2sftp.Remote.{Io, ◌>>=◌}
use ftp2sftp.SftpClient.{Client}
use ftp2sftp.Metrics.{Metrics, dec, dec-inc, word}
use ftp2sftp.Session
use ftp2sftp.Session.{Session, is_connected, drop_client}
use ftp2sftp.Driver.{Env, World}
use ftp2sftp.Driver.Protocol.{Command, perform, perform_all}
use ftp2sftp.Gateway.Connections.{ConnState}
use ftp2sftp.Gateway.{Gateway, close_session}
use ftp2sftp.Resources.{Open, add_ssh, Holds, Holds-bind}
use ftp2sftp.Resources.Dialling.{Unchanged, close-Unchanged}
use ftp2sftp.Resources.Sessions.{Tracks, Tracked, shown}
use ftp2sftp.Resources.Commands.{perform-Tracked}

module _ (n : Open) (base : ℕ) (small : base < word) (s : Session) where
  pub perform_all-Tracked :
      (env : Env) (cs : List Command) (w : World) (k : Open)
      → Tracked n base small s w k
      → Holds (Tracked n base small s) k (perform_all env cs w)
  unfolding perform_all
  perform_all-Tracked env [] w k h = h
  perform_all-Tracked env (c ∷ cs) w k h =
      Holds-bind (Tracked n base small s) (Tracked n base small s) k (perform env c w) _
        (perform-Tracked n base small s env c w k h) (λ w k d. perform_all-Tracked env cs w k d)

  dropping :
      (t : Session) (k : Open) (o : Option Client)
      → k ≡ (elim o [ none ↦ n | some c ↦ add_ssh c.ssh n ])
      → Holds (Unchanged n) k (drop_client t o)
  unfolding drop_client
  dropping t k none e = e
  dropping t k (some c) e = rw e (
      Holds-bind (Unchanged n) (Unchanged n) (add_ssh c.ssh n) _ _ (close-Unchanged n c)
        (λ r k h. h))

  pub closing :
      (t : Session) (m : Metrics) (k : Open)
      → Tracks n base s t m k
      → s.closed ≡ false
      → Holds (Unchanged n) k (Session.close t)
  unfolding Session.close
  closing t m k h c = rw (h.closed_eq, c) (dropping (record t { closed = true }) k t.sftp h.open_eq)

  pub closed_gauge :
      (t : Session) (o : Option Client) (a : ℕ)
      → t.sftp ≡ o
      → a ≡ shown base t
      → (if is_connected t then dec a else a) ≡ base
  unfolding is_connected
  closed_gauge t none a e h = rw e (h ∙ rw e refl)
  closed_gauge t (some c) a e h = rw e (ap dec (h ∙ rw e refl) ∙ (dec-inc base small).0)

  abbrev pub Restored : Gateway → Open → Type 0
  Restored g k = (k ≡ n) × (g.metrics.sftp_connections_active ≡ base)

  close_session-Restored :
      (g : Gateway) (id : ℕ) (cs : ConnState) (w : World) (k : Open)
      → s.closed ≡ false
      → Tracked n base small s w k
      → Holds Restored k (close_session (record g { metrics = w.metrics }) id cs (some w.session))
  close_session-Restored g id cs w k c h =
      Holds-bind (Unchanged n) Restored k (Session.close w.session) _
        (closing w.session w.metrics k h c)
        (λ r k e. (e, closed_gauge w.session w.session.sftp _ refl h.gauge_eq))

-- The life of a session: its commands, then the end of its connection.
abbrev pub life : Env → List Command → World → Gateway → ℕ → ConnState → Io Gateway
life env commands w g id cs = perform_all env commands w >>= λ v.
    close_session (record g { metrics = v.metrics }) id cs (some v.session)

-- A session that starts without a connection and runs any commands, transfers included, until its client
-- leaves, or the gateway closes it, leaves just those network connections open that were open before,
-- so that, from nothing, it closes only what it opened itself and has not closed yet, and leaves the
-- gauge of SFTP connections where it was: whatever the server and the network answer.
pub life-Restored :
    (n : Open) (env : Env) (commands : List Command) (w : World) (g : Gateway) (id : ℕ)
    (cs : ConnState)
    → w.metrics.sftp_connections_active < word
    → w.session.sftp ≡ none
    → w.session.closed ≡ false
    → Holds
        (λ h k. (k ≡ n) × (h.metrics.sftp_connections_active ≡ w.metrics.sftp_connections_active))
        n
        (life env commands w g id cs)
life-Restored n env commands w g id cs l e c =
    let base = w.metrics.sftp_connections_active in
    Holds-bind (Tracked n base l w.session) _ n (perform_all env commands w) _
      (perform_all-Tracked n base l w.session env commands w n (record {
        open_eq = rw e refl;
        gauge_eq = rw e refl;
        same = record { id_eq = refl; mapper_eq = refl; policy_eq = refl };
        closed_eq = refl;
      }))
      (λ v k h. close_session-Restored n base l w.session g id cs v k c h)
