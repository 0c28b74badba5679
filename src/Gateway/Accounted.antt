-- ===== src/Gateway/Accounted.antt =====
-- The invariant of the connections and sessions, and what arrivals, logins and commands do to it.
use ftp2sftp.Base.{
  ℕ, suc, ◌+◌, ◌^◌, ◌≤◌, ◌<◌, Bool, true, false, ◌≡◌, refl, sym, ap, ◌∙◌, subst, Option, none, some,
  Bytes, All, arith, length, if◌then◌else◌,
}
use ftp2sftp.Errors.{Error}
use ftp2sftp.Auth.Authenticator.{LoginTimes, authenticate}
use ftp2sftp.Metrics.{Metrics, inc, dec, dec-inc}
use ftp2sftp.Session.{Session, new_session}
use ftp2sftp.Gateway.Connections.{
  ConnState, find, put, sessions_in, sessions_of, count_sessions, IsAdmitted, length_put,
  length-put, count_sessions-put, put-IsAdmitted, find-IsAdmitted,
}
use ftp2sftp.Gateway.{
  attempted, counted_connection, failed_login, UserRuntime, Gateway, above, admit, client_connected,
  attach, begin_session, logged_in, auth_user,
}
use ftp2sftp.Gateway.Events.{connect_new, resumed, rework}

-- The count of connections is that of the connections with a state, all admitted, within the limit, and
-- the gauge shows it; no session is missing in the wait group.
pub record IsAccounted (max : ℕ) (g : Gateway) : Type 0 where
  pub max_eq : g.max_connections ≡ max
  pub counted : g.active ≡ length g.extras
  pub bounded : g.active ≤ max
  pub shown : g.metrics.ftp_connections_active ≡ g.active
  pub all_admitted : All IsAdmitted g.extras
  pub awaited : count_sessions g.extras ≤ g.sessions
  pub running : g.panicked ≡ false

admitted_lem :
    (a max : ℕ)
    → a ≤ max
    → max + 1 < 2 ^ 63
    → above (inc a) max ≡ false
    → (inc a ≡ a + 1) × (a + 1 ≤ max)
unfolding inc
admitted_lem a max h k e = ground arith

inc-dec_small : (a max : ℕ) → a ≤ max → max + 1 < 2 ^ 63 → dec (inc a) ≡ a
inc-dec_small a max h k = (dec-inc a (omega arith)).0

pub dec_positive : (a n max : ℕ) → a ≡ suc n → a ≤ max → max + 1 < 2 ^ 63 → dec a ≡ n
unfolding dec
dec_positive a n max e h k = omega arith

admit-IsAccounted :
    (max : ℕ) (g : Gateway) (id : ℕ)
    → max + 1 < 2 ^ 63
    → IsAccounted max g
    → find id g.extras ≡ none
    → above (inc g.active) g.max_connections ≡ false
    → IsAccounted max (admit g id)
admit-IsAccounted max g id k s f e =
    let (i, l) =
      admitted_lem g.active max s.bounded k
        (subst (λ (m : ℕ). above (inc g.active) m ≡ false) s.max_eq e) in
    let n = length-put id (record { admitted = true; sess = none }) g.extras in
    let c = count_sessions-put id (record { admitted = true; sess = none }) g.extras in
    record {
      max_eq = s.max_eq;
      counted = i ∙ ap (λ (a : ℕ). a + 1) s.counted ∙ sym (n ∙ ap (length_put (length g.extras)) f);
      bounded = rw i l;
      shown = ap inc s.shown;
      all_admitted = put-IsAdmitted id _ g.extras refl s.all_admitted;
      awaited = omega (arith, c, s.awaited);
      running = s.running;
    }

-- A change of the other metrics, of the limiters and of the tracked connections has no effect.
metrics-IsAccounted :
    (max : ℕ) (g : Gateway) (m : Metrics)
    → m.ftp_connections_active ≡ g.metrics.ftp_connections_active
    → IsAccounted max g
    → IsAccounted max (record g { metrics = m })
metrics-IsAccounted max g m e s = record {
  max_eq = s.max_eq;
  counted = s.counted;
  bounded = s.bounded;
  shown = e ∙ s.shown;
  all_admitted = s.all_admitted;
  awaited = s.awaited;
  running = s.running;
}

active-IsAccounted :
    (max : ℕ) (g : Gateway) (a : ℕ)
    → a ≡ g.active
    → IsAccounted max g
    → IsAccounted max (record g { active = a })
active-IsAccounted max g a e s = record {
  max_eq = s.max_eq;
  counted = e ∙ s.counted;
  bounded = rw e s.bounded;
  shown = s.shown ∙ sym e;
  all_admitted = s.all_admitted;
  awaited = s.awaited;
  running = s.running;
}

if-IsAccounted :
    (max : ℕ) (b : Bool) (x y : Gateway × Option Error)
    → (b ≡ true → IsAccounted max x.0)
    → (b ≡ false → IsAccounted max y.0)
    → IsAccounted max (if b then x else y).0
if-IsAccounted max true x y h k = h refl
if-IsAccounted max false x y h k = k refl

connected-IsAccounted :
    (max : ℕ) (g : Gateway) (id : ℕ)
    → max + 1 < 2 ^ 63
    → IsAccounted max g
    → find id g.extras ≡ none
    → IsAccounted max (client_connected g id).0
unfolding client_connected
connected-IsAccounted max g id k s f =
    let g' : Gateway = record g { metrics = counted_connection g.metrics } in
    let s' = metrics-IsAccounted max g (counted_connection g.metrics) refl s in
    if-IsAccounted max g.shutting_down _ _ (λ _. s')
      (λ _.
        if-IsAccounted max (above (inc g.active) g.max_connections) _ _
          (λ _.
            active-IsAccounted max g' (dec (inc g.active)) (inc-dec_small g.active max s.bounded k)
              s')
          (λ e. admit-IsAccounted max g' id k s' f e))

pub connect_new-IsAccounted :
    (max : ℕ) (g : Gateway) (id : ℕ) (o : Option ConnState)
    → max + 1 < 2 ^ 63
    → IsAccounted max g
    → find id g.extras ≡ o
    → IsAccounted max (connect_new g id o)
connect_new-IsAccounted max g id none k s f = connected-IsAccounted max g id k s f
connect_new-IsAccounted max g id (some cs) k s f = s

-- The state of a live connection is replaced, and a session more is awaited if it has one more.
replaced-IsAccounted :
    (max : ℕ) (g : Gateway) (id n : ℕ) (cs d : ConnState)
    → IsAccounted max g
    → find id g.extras ≡ some cs
    → d.admitted ≡ true
    → g.sessions + sessions_in d.sess ≤ n + sessions_in cs.sess
    → IsAccounted max (record g { extras = put id d g.extras; sessions = n })
replaced-IsAccounted max g id n cs d s f h l =
    let c = count_sessions-put id d g.extras in
    let e = ap sessions_of f in
    record {
      max_eq = s.max_eq;
      counted = s.counted ∙ sym (length-put id d g.extras ∙ ap (length_put (length g.extras)) f);
      bounded = s.bounded;
      shown = s.shown;
      all_admitted = put-IsAdmitted id d g.extras h s.all_admitted;
      awaited = omega (arith, c, e, l, s.awaited);
      running = s.running;
    }

attached-IsAccounted :
    (max : ℕ) (g : Gateway) (id : ℕ) (x : Session) (o : Option ConnState)
    → IsAccounted max g
    → find id g.extras ≡ o
    → IsAccounted max (record g { extras = attach g.extras id x o; sessions = g.sessions + 1 })
attached-IsAccounted max g id x none s f = record {
  max_eq = s.max_eq;
  counted = s.counted;
  bounded = s.bounded;
  shown = s.shown;
  all_admitted = s.all_admitted;
  awaited = omega (arith, s.awaited);
  running = s.running;
}
attached-IsAccounted max g id x (some cs) s f =
    replaced-IsAccounted max g id (g.sessions + 1) cs (record cs { sess = some x }) s f
      (find-IsAdmitted id cs g.extras f s.all_admitted) (omega arith)

logged_in-IsAccounted :
    (max : ℕ) (g : Gateway) (id : ℕ) (ip user fresh : Bytes) (x : Option Error)
    → IsAccounted max g
    → IsAccounted max (logged_in g id ip user fresh x).0
unfolding new_session
logged_in-IsAccounted max g id ip user fresh (some e) s =
    metrics-IsAccounted max g (failed_login g e).metrics refl s
logged_in-IsAccounted max g id ip user fresh none s = known (g.users user)
  where
    known : (o : Option UserRuntime) → IsAccounted max (begin_session g id ip user fresh o).0
    known none = s
    known (some rt) = attached-IsAccounted max g id _ (find id g.extras) s refl

pub auth_user-IsAccounted :
    (matches : Bytes → Bytes → Bool) (dummy : Bytes) (max : ℕ) (g : Gateway) (id : ℕ)
    (ip user password : Bytes) (t : LoginTimes) (fresh : Bytes)
    → IsAccounted max g
    → IsAccounted max (auth_user matches dummy g id ip user password t fresh).0
unfolding auth_user
auth_user-IsAccounted matches dummy max g id ip user password t fresh s =
    logged_in-IsAccounted max
      (attempted g (authenticate matches dummy g.authent ip user password t).0) id ip user fresh
      (authenticate matches dummy g.authent ip user password t).1
      (record {
        max_eq = s.max_eq;
        counted = s.counted;
        bounded = s.bounded;
        shown = s.shown;
        all_admitted = s.all_admitted;
        awaited = s.awaited;
        running = s.running;
      })

pub rework-IsAccounted :
    (max : ℕ) (g : Gateway) (id : ℕ) (x : Session) (o : Option ConnState)
    → IsAccounted max g
    → find id g.extras ≡ o
    → IsAccounted max (rework g id x o)
rework-IsAccounted max g id x none s f = s
rework-IsAccounted max g id x (some cs) s f =
    replaced-IsAccounted max g id g.sessions cs (record cs { sess = resumed x cs.sess }) s f
      (find-IsAdmitted id cs g.extras f s.all_admitted) (as_many cs.sess)
  where
    as_many :
        (o : Option Session) → g.sessions + sessions_in (resumed x o) ≤ g.sessions + sessions_in o
    as_many none = omega arith
    as_many (some d) = omega arith
