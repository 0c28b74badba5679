-- ===== src/Process/Drain.antt =====
-- The drain of a shutdown: `shutdown` of cmd/ftp2sftp/main.go, with PrepareShutdown, WaitForSessions and
-- ClientDisconnected of internal/ftpserver/gateway.go.
use ftp2sftp.Base.{
  ℕ, ◌-◌, List, [], ◌∷◌, Bool, true, false, ◌≡◌, refl, sym, ap, ◌∙◌, subst, Option, none, some,
  Bytes, map, arith,
}
use ftp2sftp.Effects.{ret, bind, Always, Always-bind, Always-trivial}
use ftp2sftp.SftpClient.Requests.{Anything}
use ftp2sftp.Session
use ftp2sftp.Session.{Session, is_connected}
use ftp2sftp.Health.{Server, handle_healthz, set_alive}
use ftp2sftp.Gateway.Connections.{
  ConnState, Conns, find, remove, sessions_in, sessions_of, count_sessions, count_sessions-remove,
  remove-put,
}
use ftp2sftp.Gateway.{
  Gateway, track, leave, close_session, disconnected, client_disconnected, prepare_shutdown,
  client_connected, shutting_down_error,
}
use ftp2sftp.Gateway.Events.{disconnects, forget, gateway_step, gateway_run}
use ftp2sftp.Process.{begin_shutdown, wait_for_sessions}

-- Every live connection is in the list, as often as it stands in the table.
abbrev pub Covers : List ℕ → Conns → Type 0
Covers [] l = l ≡ []
Covers (id ∷ ids) l = Covers ids (remove id l)

-- What the end of a connection leaves.
abbrev Left : ℕ → Conns → ℕ → Gateway → Type 0
Left id l n h = (h.extras ≡ remove id l) × (h.sessions ≡ n - sessions_of (find id l))

leave_same :
    (g : Gateway) (cs : ConnState)
    → ((leave g cs).extras ≡ g.extras) × ((leave g cs).sessions ≡ g.sessions)
leave_same g cs = ground arith

closed-Left :
    (g : Gateway) (id : ℕ) (cs : ConnState) (l : Conns) (n : ℕ) (o : Option Session)
    → g.extras ≡ l
    → g.sessions ≡ n
    → Always Anything
        (λ q. Unit {0})
        (λ h. ((forget h id).extras ≡ remove id l) × (h.sessions ≡ n - sessions_in o))
        (close_session g id cs o)
closed-Left g id cs l n none e m = (ap (remove id) e, m ∙ omega arith)
closed-Left g id cs l n (some x) e m =
    Always-bind Anything (λ q. Unit {0}) (λ r. Unit {0}) _ (Session.close x) _
      (Always-trivial Anything (λ q. Unit {0}) (Session.close x) (λ q. tt))
      (λ r t. (remove-put id _ g.extras ∙ ap (remove id) e, ap (λ k. k - 1) m))

disconnects-Left :
    (g : Gateway) (id : ℕ) (o : Option ConnState)
    → find id g.extras ≡ o
    → Always Anything
        (λ q. Unit {0})
        (Left id g.extras g.sessions)
        (bind
          (disconnected (record g { tracked = track id false g.tracked }) id o)
          (λ h. ret (forget h id)))
disconnects-Left g id none e = (refl, rw e (omega arith))
disconnects-Left g id (some cs) e =
    let g' : Gateway = record g { tracked = track id false g.tracked } in
    let (x, n) = leave_same g' cs in
    Always-bind Anything (λ q. Unit {0})
      (λ h.
        ((forget h id).extras ≡ remove id g.extras)
        × (h.sessions ≡ g.sessions - sessions_in cs.sess))
      (Left id g.extras g.sessions) (close_session (leave g' cs) id cs cs.sess) _
      (closed-Left (leave g' cs) id cs g.extras g.sessions cs.sess x n)
      (λ h p. (p.0, p.1 ∙ ap (λ (o : Option ConnState). g.sessions - sessions_of o) (sym e)))

module _ (matches : Bytes → Bytes → Bool) (dummy : Bytes) where
  -- No session is left, and the wait for them ends.
  abbrev pub Drained : Gateway → Type 0
  Drained h = (h.extras ≡ []) × (h.sessions ≡ 0) × (wait_for_sessions h false ≡ true)

  drain :
      (g : Gateway) (ids : List ℕ)
      → Covers ids g.extras
      → count_sessions g.extras ≡ g.sessions
      → Always Anything (λ q. Unit {0}) Drained (gateway_run matches dummy g (map disconnects ids))
  unfolding gateway_run gateway_step client_disconnected wait_for_sessions
  drain g [] c e =
      let none_left : g.sessions ≡ 0 = sym e ∙ ap count_sessions c in
      (c, none_left, rw none_left refl)
  drain g (id ∷ ids) c e =
      Always-bind Anything (λ q. Unit {0}) (Left id g.extras g.sessions) Drained
        (gateway_step matches dummy g (disconnects id)) _
        (disconnects-Left g id (find id g.extras) refl)
        (λ h p.
          drain h ids (subst (Covers ids) (sym p.0) c)
            (ap count_sessions p.0 ∙ omega (arith, count_sessions-remove id g.extras, e, p.1)))

  -- Once a shutdown has begun, /healthz reports that the process is not alive, the gateway refuses new
  -- connections, and when every connection has ended, in any order and whatever the remote side
  -- answers when its session is closed, no session is left and the wait for the sessions ends without
  -- the deadline. No session has been put in another's place by a second login on its connection.
  pub begin_shutdown-Drained :
      (s : Server) (g : Gateway) (ids : List ℕ)
      → Covers ids g.extras
      → count_sessions g.extras ≡ g.sessions
      → let (s', g') = begin_shutdown (s, g) in
        ((handle_healthz s').status ≡ 503)
        × ((id : ℕ) → (client_connected g' id).1 ≡ some shutting_down_error)
        × Always Anything
            (λ q. Unit {0})
            Drained
            (gateway_run matches dummy g' (map disconnects ids))
  unfolding begin_shutdown handle_healthz set_alive prepare_shutdown client_connected
  begin_shutdown-Drained s g ids c e =
      (refl, λ id. refl, drain (record g { shutting_down = true }) ids c e)
