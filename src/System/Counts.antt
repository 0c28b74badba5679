-- ===== src/System/Counts.antt =====
-- The gauge of SFTP connections when connections arrive and log in (internal/ftpserver/gateway.go).
use ftp2sftp.Base.{
  ℕ, ◌+◌, ◌%◌, ◌≤◌, Bool, true, false, ◌≡◌, refl, sym, ◌∙◌, subst, Option, none, some, Bytes, All,
  arith, if◌then◌else◌,
}
use ftp2sftp.Errors.{Error}
use ftp2sftp.Auth.Authenticator.{LoginTimes, authenticate}
use ftp2sftp.Metrics.{inc, dec, word}
use ftp2sftp.Session.{Session, new_session}
use ftp2sftp.Gateway.Connections.{ConnState, find, put}
use ftp2sftp.Gateway.{
  UserRuntime, Gateway, admit, above, counted_connection, too_many_connections, shutting_down_error,
  client_connected, attempted, attach, begin_session, logged_in, auth_user,
}
use ftp2sftp.Gateway.Events.{connect_new}
use ftp2sftp.Resources.{Open}
use ftp2sftp.Resources.Sessions.{held}
use ftp2sftp.System.{System}
use ftp2sftp.System.Connections.{
  held_by, held_in, held_in-put, uses_in, uses_in-put, unheld_uses, StillOpen, IsOpen, put-IsOpen,
}

-- The gauge shows how many connections are open, and the sessions' connections are among them, one for
-- each session that is connected.
pub record Counts (g : Gateway) (k : Open) : Type 0 where
  pub gauge : g.metrics.sftp_connections_active ≡ k.total % word
  pub among : held_in g.extras ≤ k.total
  pub each : (x : ℕ) → uses_in x g.extras ≤ k.ssh x
  pub all_open : All IsOpen g.extras

abbrev pub InSystem : System → Open → Type 0
InSystem y k = Counts y.gateway k

-- The rest of the gateway does not matter.
pub same-Counts :
    (g h : Gateway) (k : Open)
    → h.metrics.sftp_connections_active ≡ g.metrics.sftp_connections_active
    → h.extras ≡ g.extras
    → Counts g k
    → Counts h k
same-Counts g h k e x c = record {
  gauge = e ∙ c.gauge;
  among = subst (λ l. held_in l ≤ k.total) (sym x) c.among;
  each = λ y. subst (λ l. uses_in y l ≤ k.ssh y) (sym x) (c.each y);
  all_open = subst (All IsOpen) (sym x) c.all_open;
}

-- A state without a connection is put in place of another.
put-Counts :
    (g h : Gateway) (k : Open) (id : ℕ) (cs : ConnState)
    → h.metrics.sftp_connections_active ≡ g.metrics.sftp_connections_active
    → h.extras ≡ put id cs g.extras
    → held_by cs.sess ≡ 0
    → StillOpen cs.sess
    → Counts g k
    → Counts h k
put-Counts g h k id cs e x z o c = record {
  gauge = e ∙ c.gauge;
  among =
      subst (λ l. held_in l ≤ k.total) (sym x)
        (omega (arith, held_in-put id cs g.extras, z, c.among));
  each = λ y.
      subst (λ l. uses_in y l ≤ k.ssh y) (sym x)
        (omega (arith, uses_in-put y id cs g.extras, unheld_uses y cs.sess z, c.each y));
  all_open = subst (All IsOpen) (sym x) (put-IsOpen id cs g.extras o c.all_open);
}

if-Counts :
    (b : Bool) (x y : Gateway × Option Error) (k : Open)
    → Counts x.0 k
    → Counts y.0 k
    → Counts (if b then x else y).0 k
if-Counts true x y k h g = h
if-Counts false x y k h g = g

client_connected-Counts :
    (g : Gateway) (id : ℕ) (k : Open) → Counts g k → Counts (client_connected g id).0 k
unfolding client_connected
client_connected-Counts g id k c =
    let g' : Gateway = record g { metrics = counted_connection g.metrics } in
    let back : Gateway = record g' { active = dec (inc g.active) } in
    let refused : Gateway × Option Error = (back, some too_many_connections) in
    let admitted : Gateway × Option Error = (admit g' id, none) in
    let full = above (inc g.active) g.max_connections in
    if-Counts g.shutting_down (g', some shutting_down_error) (if full then refused else admitted) k
      (same-Counts g g' k refl refl c)
      (if-Counts full refused admitted k (same-Counts g back k refl refl c) (
        put-Counts g (admit g' id) k id (record { admitted = true; sess = none }) refl refl refl tt
          c))

pub connect_new-Counts :
    (g : Gateway) (id : ℕ) (k : Open) (o : Option ConnState)
    → Counts g k
    → Counts (connect_new g id o) k
connect_new-Counts g id k none c = client_connected-Counts g id k c
connect_new-Counts g id k (some cs) c = c

attach-Counts :
    (g : Gateway) (id : ℕ) (k : Open) (s : Session) (n : ℕ) (o : Option ConnState)
    → held s ≡ 0
    → s.closed ≡ false
    → Counts g k
    → Counts (record g { extras = attach g.extras id s o; sessions = n }) k
attach-Counts g id k s n none z f c = same-Counts g _ k refl refl c
attach-Counts g id k s n (some cs) z f c =
    put-Counts g _ k id (record cs { sess = some s }) refl refl z f c

begin_session-Counts :
    (g : Gateway) (id : ℕ) (k : Open) (ip user fresh : Bytes) (o : Option UserRuntime)
    → Counts g k
    → Counts (begin_session g id ip user fresh o).0 k
unfolding new_session
begin_session-Counts g id k ip user fresh none c = c
begin_session-Counts g id k ip user fresh (some rt) c =
    attach-Counts g id k (new_session fresh user ip rt.mapper rt.policy) (g.sessions + 1)
      (find id g.extras) refl refl c

logged_in-Counts :
    (g : Gateway) (id : ℕ) (k : Open) (ip user fresh : Bytes) (o : Option Error)
    → Counts g k
    → Counts (logged_in g id ip user fresh o).0 k
logged_in-Counts g id k ip user fresh (some e) c = same-Counts g _ k refl refl c
logged_in-Counts g id k ip user fresh none c =
    begin_session-Counts g id k ip user fresh (g.users user) c

pub auth_user-Counts :
    (matches : Bytes → Bytes → Bool) (dummy : Bytes) (g : Gateway) (id : ℕ) (k : Open)
    (ip user password : Bytes) (t : LoginTimes) (fresh : Bytes)
    → Counts g k
    → Counts (auth_user matches dummy g id ip user password t fresh).0 k
unfolding auth_user
auth_user-Counts matches dummy g id k ip user password t fresh c =
    let r = authenticate matches dummy g.authent ip user password t in
    let h : Gateway = attempted g r.0 in
    logged_in-Counts h id k ip user fresh r.1 (same-Counts g h k refl refl c)
