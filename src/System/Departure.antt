-- ===== src/System/Departure.antt =====
-- The gauge of SFTP connections when a connection ends (internal/ftpserver/gateway.go).
use ftp2sftp.Base.{
  ◌+◌, ℕ, ◌%◌, ◌≤◌, false, ◌≡◌, refl, sym, ap, ◌∙◌, subst, Option, none, some, All, arith,
}
use ftp2sftp.Metrics.{word}
use ftp2sftp.Session
use ftp2sftp.Session.{Session, new_session, is_connected}
use ftp2sftp.Gateway.Connections.{ConnState, find, remove, remove-put}
use ftp2sftp.Gateway.{Gateway, track, leave, session_done, close_session, disconnected}
use ftp2sftp.Gateway.Events.{forget}
use ftp2sftp.Resources.{Open, Holds, Holds-bind}
use ftp2sftp.Resources.Dialling.{Unchanged}
use ftp2sftp.Resources.Life.{closing, closed_gauge}
use ftp2sftp.System.Connections.{
  uses_by, uses_of, uses_in, uses_in-remove, held_by, held_of, held_in, held_in-remove, StillOpen,
  IsOpen, remove-IsOpen, find-IsOpen,
}
use ftp2sftp.System.Counts.{Counts}
use ftp2sftp.System.Commands.{
  residue, without, gauge_without, find-IsAmong, without-total, without-ssh, tracked_session,
}

leave_kept :
    (g : Gateway) (cs : ConnState)
    → ((leave g cs).metrics.sftp_connections_active ≡ g.metrics.sftp_connections_active)
      × ((leave g cs).extras ≡ g.extras)
leave_kept g cs = ground arith

-- What is open when a session, if there is one, has closed its connection.
abbrev pub left : Option Session → Open → Open
left none k = k
left (some s) k = without s k

-- The end of a connection: its session is closed, and its state forgotten.
gone-Counts :
    (g h : Gateway) (k : Open) (id : ℕ) (cs : Option ConnState) (o : Option Session)
    → find id g.extras ≡ cs
    → held_of cs ≡ held_by o
    → ((x : ℕ) → uses_of x cs ≡ uses_by x o)
    → k.total ≡ (left o k).total + held_by o
    → ((x : ℕ) → k.ssh x ≡ (left o k).ssh x + uses_by x o)
    → h.metrics.sftp_connections_active ≡ (left o k).total % word
    → remove id h.extras ≡ remove id g.extras
    → Counts g k
    → Counts (forget h id) (left o k)
gone-Counts g h k id cs o f z u t s e x c = record {
  gauge = e;
  among =
      subst (λ l. held_in l ≤ (left o k).total) (sym x)
        (omega (arith, held_in-remove id g.extras, ap held_of f, z, t, c.among));
  each = λ y.
      subst (λ l. uses_in y l ≤ (left o k).ssh y) (sym x)
        (omega (arith, uses_in-remove y id g.extras, ap (uses_of y) f, u y, s y, c.each y));
  all_open = subst (All IsOpen) (sym x) (remove-IsOpen id g.extras c.all_open);
}

-- Without a session nothing is closed.
unheld-Counts :
    (g h : Gateway) (k : Open) (id : ℕ) (cs : Option ConnState)
    → find id g.extras ≡ cs
    → held_of cs ≡ 0
    → ((x : ℕ) → uses_of x cs ≡ 0)
    → h.metrics.sftp_connections_active ≡ g.metrics.sftp_connections_active
    → remove id h.extras ≡ remove id g.extras
    → Counts g k
    → Counts (forget h id) k
unheld-Counts g h k id cs f z u m x c =
    gone-Counts g h k id cs none f z u (omega arith) (λ x. omega arith) (m ∙ c.gauge) x c

closed-Counts :
    (g h : Gateway) (k : Open) (id : ℕ) (cs : ConnState) (o : Option Session)
    → find id g.extras ≡ some cs
    → cs.sess ≡ o
    → h.metrics.sftp_connections_active ≡ g.metrics.sftp_connections_active
    → h.extras ≡ g.extras
    → Counts g k
    → Holds (λ h j. Counts (forget h id) j) k (close_session h id cs o)
closed-Counts g h k id cs none f e m x c =
    unheld-Counts g h k id (some cs) f (ap held_by e) (λ y. ap (uses_by y) e) m (ap (remove id) x) c
closed-Counts g h k id cs (some s) f e m x c =
    let a = find-IsAmong g k id cs s f e c in
    let n = without s k in
    let b = gauge_without s k in
    let o = subst StillOpen e (find-IsOpen id cs g.extras f c.all_open) in
    let t = tracked_session g k s a c in
    Holds-bind (Unchanged n) (λ h j. Counts (forget h id) j) k (Session.close s) _
      (closing n b (residue n.total) s s g.metrics k t o)
      (λ r j u.
        let d = session_done h id cs (is_connected s) r.0 in
        subst (λ j. Counts (forget d id) j) (sym u)
          (gone-Counts g d k id (some cs) (some s) f (ap held_by e) (λ y. ap (uses_by y) e)
            (without-total s k a) (λ y. without-ssh s k y a)
            (closed_gauge n b (residue n.total) s s s.sftp _ refl (m ∙ t.gauge_eq))
            (remove-put id _ h.extras ∙ ap (remove id) x) c))

pub disconnected-Counts :
    (g : Gateway) (k : Open) (id : ℕ) (o : Option ConnState)
    → find id g.extras ≡ o
    → Counts g k
    → Holds
        (λ h j. Counts (forget h id) j)
        k
        (disconnected (record g { tracked = track id false g.tracked }) id o)
disconnected-Counts g k id none f c =
    unheld-Counts g (record g { tracked = track id false g.tracked }) k id none f refl (λ x. refl)
      refl refl c
disconnected-Counts g k id (some cs) f c =
    let g' : Gateway = record g { tracked = track id false g.tracked } in
    let (m, x) = leave_kept g' cs in closed-Counts g (leave g' cs) k id cs cs.sess f refl m x c
