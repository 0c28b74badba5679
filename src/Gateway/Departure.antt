-- ===== src/Gateway/Departure.antt =====
-- What the end of a connection does to the accounting.
use ftp2sftp.Base.{
  ℕ, ◌+◌, ◌-◌, ◌^◌, ◌≤◌, ◌<◌, Bool, true, false, ◌||◌, ◌≡◌, refl, sym, ap, ◌∙◌, subst, Option, none,
  some, All, arith, length, ◌==◌,
}
use ftp2sftp.Metrics.{dec}
use ftp2sftp.Session
use ftp2sftp.Session.{Session, new_session, is_connected}
use ftp2sftp.Effects.{ret, bind, Always, Always-bind, Always-trivial}
use ftp2sftp.Remote.{Io}
use ftp2sftp.SftpClient.Requests.{Anything}
use ftp2sftp.Gateway.Connections.{
  ConnState, Conns, find, remove, sessions_in, sessions_of, count_sessions, IsAdmitted,
  find-IsAdmitted, length-remove, count_sessions-remove, remove-IsAdmitted, remove_absent,
  remove-put,
}
use ftp2sftp.Gateway.{Gateway, leave, session_done, close_session, disconnected}
use ftp2sftp.Gateway.Events.{forget}
use ftp2sftp.Gateway.Accounted.{IsAccounted, dec_positive}

-- The connection's state goes, and its session has left the wait group.
forgotten-IsAccounted :
    (max : ℕ) (g h : Gateway) (id : ℕ) (cs : ConnState)
    → max + 1 < 2 ^ 63
    → IsAccounted max g
    → find id g.extras ≡ some cs
    → h.max_connections ≡ g.max_connections
    → h.active ≡ dec g.active
    → h.metrics.ftp_connections_active ≡ dec g.metrics.ftp_connections_active
    → remove id h.extras ≡ remove id g.extras
    → h.sessions ≡ g.sessions - sessions_in cs.sess
    → h.panicked ≡ false
    → IsAccounted max (forget h id)
forgotten-IsAccounted max g h id cs k s f m a v x w p =
    let r = length-remove id cs g.extras f in
    let d =
      dec_positive g.active (length (remove id g.extras)) max (s.counted ∙ sym r) s.bounded k in
    let c = count_sessions-remove id g.extras in
    let e = ap sessions_of f in
    record {
      max_eq = m ∙ s.max_eq;
      counted = a ∙ d ∙ sym (ap (λ (l : Conns). length l) x);
      bounded = omega (arith, a, d, r, s.counted, s.bounded);
      shown = v ∙ ap dec s.shown ∙ sym a;
      all_admitted = subst (All IsAdmitted) (sym x) (remove-IsAdmitted id g.extras s.all_admitted);
      awaited = omega (arith, ap count_sessions x, c, e, w, s.awaited);
      running = p;
    }

-- Whatever the answers.
abbrev pub Afterwards : ℕ → Io Gateway → Type 0
Afterwards max m = Always Anything (λ q. Unit {0}) (IsAccounted max) m

session_there :
    (g : Gateway) (max id : ℕ) (cs : ConnState) (x : Session)
    → IsAccounted max g
    → find id g.extras ≡ some cs
    → cs.sess ≡ some x
    → (g.sessions == 0) ≡ false
session_there g max id cs x s f e =
    let c = count_sessions-remove id g.extras in
    let d = ap sessions_of f ∙ ap sessions_in e in
    positive g.sessions (omega (arith, c, d, s.awaited))
  where
    positive : (n : ℕ) → 1 ≤ n → (n == 0) ≡ false
    positive n h = ground arith

-- The connection's session, if it has one, is closed; then the connection is forgotten.
closed-IsAccounted :
    (max : ℕ) (g h : Gateway) (id : ℕ) (cs : ConnState) (o : Option Session)
    → max + 1 < 2 ^ 63
    → IsAccounted max g
    → find id g.extras ≡ some cs
    → cs.sess ≡ o
    → h ≡ leave g (record cs { admitted = true })
    → Afterwards max (bind (close_session h id cs o) (λ h. ret (forget h id)))
closed-IsAccounted max g h id cs none k s f e l =
    forgotten-IsAccounted max g h id cs k s f (ap (λ (h : Gateway). h.max_connections) l)
      (ap (λ (h : Gateway). h.active) l) (ap (λ (h : Gateway). h.metrics.ftp_connections_active) l)
      (ap (λ (h : Gateway). remove id h.extras) l)
      (ap (λ (h : Gateway). h.sessions) l ∙ omega (arith, ap sessions_in e))
      (ap (λ (h : Gateway). h.panicked) l ∙ s.running)
closed-IsAccounted max g h id cs (some x) k s f e l =
    Always-bind Anything (λ q. Unit {0}) (λ h'. IsAccounted max (forget h' id)) (IsAccounted max)
      (close_session h id cs (some x)) (λ h'. ret (forget h' id))
      (Always-bind Anything (λ q. Unit {0}) (λ _. Unit {0}) (λ h'. IsAccounted max (forget h' id))
        (Session.close x) (λ r. ret (session_done h id cs (is_connected x) r.0))
        (Always-trivial Anything (λ q. Unit {0}) (Session.close x) (λ q. tt))
        (λ r _.
          forgotten-IsAccounted max g (session_done h id cs (is_connected x) r.0) id cs k s f
            (ap (λ (h : Gateway). h.max_connections) l) (ap (λ (h : Gateway). h.active) l)
            (ap (λ (h : Gateway). h.metrics.ftp_connections_active) l)
            (remove-put id _ h.extras ∙ ap (λ (h : Gateway). remove id h.extras) l)
            (ap (λ (h : Gateway). h.sessions - 1) l
              ∙ ap (λ (n : ℕ). g.sessions - n) (sym (ap sessions_in e)))
            (still_running r.0)))
      (λ h' m. m)
  where
    still_running : (y : Session) → (session_done h id cs (is_connected x) y).panicked ≡ false
    still_running y =
        ap (λ (h : Gateway). h.panicked || h.sessions == 0) l
        ∙ ap (λ (b : Bool). b || g.sessions == 0) s.running
        ∙ session_there g max id cs x s f e

leave_admitted :
    (g : Gateway) (cs : ConnState)
    → cs.admitted ≡ true
    → leave g cs ≡ leave g (record cs { admitted = true })
leave_admitted g cs h = rw h refl

pub disconnected-IsAccounted :
    (max : ℕ) (g : Gateway) (id : ℕ) (o : Option ConnState)
    → max + 1 < 2 ^ 63
    → IsAccounted max g
    → find id g.extras ≡ o
    → Afterwards max (bind (disconnected g id o) (λ h. ret (forget h id)))
disconnected-IsAccounted max g id none k s f = record {
  max_eq = s.max_eq;
  counted = s.counted ∙ sym (ap (λ (l : Conns). length l) (remove_absent id g.extras f));
  bounded = s.bounded;
  shown = s.shown;
  all_admitted = remove-IsAdmitted id g.extras s.all_admitted;
  awaited =
      subst (λ (l : Conns). count_sessions l ≤ g.sessions) (sym (remove_absent id g.extras f))
        s.awaited;
  running = s.running;
}
disconnected-IsAccounted max g id (some cs) k s f =
    closed-IsAccounted max g (leave g cs) id cs cs.sess k s f refl
      (leave_admitted g cs (find-IsAdmitted id cs g.extras f s.all_admitted))
