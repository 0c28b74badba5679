-- ===== src/Resources/Sessions.antt =====
-- The connection of a session (internal/session/session.go), as the commands of
-- internal/ftpserver/clientdriver.go use it.
use ftp2sftp.Base.{
  ℕ, ◌<◌, Bool, true, false, ◌≡◌, refl, sym, ap, ◌∙◌, Option, none, some, arith, if◌then◌else◌,
  subst,
}
use ftp2sftp.Errors.{Error, Result, ok, err, kind_of}
use ftp2sftp.Effects.{ret, ask}
use ftp2sftp.Remote.{Request, Io}
use ftp2sftp.SftpClient.{Client}
use ftp2sftp.SftpClient.Calls.{Calls}
use ftp2sftp.Metrics.{Metrics, inc, dec, dec-inc, word}
use ftp2sftp.Session.{
  Session, is_connected, connection, reuse, dialled, drop_client, invalidate_sftp,
}
use ftp2sftp.Session.Requests.{Same}
use ftp2sftp.Driver.{
  Env, World, connected_client, open_channel, connector, sftp, drop_connection, maybe_invalidate,
  is_connection_error,
}
use ftp2sftp.Resources.{Open, add_ssh, Holds, Holds-bind, Holds-if}
use ftp2sftp.Resources.Dialling.{
  OneIfOk, ClientIfOk, Unchanged, dial-OneIfOk, new_client-ClientIfOk, close-Unchanged,
}

-- Calls over an SFTP channel open and close no connection.
pub Calls-Unchanged : {A : Type 0} (n : Open) (m : Io A) → Calls m → Holds (Unchanged n) n m
Calls-Unchanged n (ret a) h = refl
Calls-Unchanged n (ask (Request.sftp c o) k) h = (tt, λ r. Calls-Unchanged n (k r) (h.1 r tt))
Calls-Unchanged n (ask (Request.new_sftp s) k) h = absurd h.0
Calls-Unchanged n (ask (Request.close_ssh s) k) h = absurd h.0
Calls-Unchanged n (ask (Request.load_known_hosts p) k) h = absurd h.0
Calls-Unchanged n (ask (Request.read_file p) k) h = absurd h.0
Calls-Unchanged n (ask (Request.parse_key b) k) h = absurd h.0
Calls-Unchanged n (ask (Request.parse_key_with b p) k) h = absurd h.0
Calls-Unchanged n (ask (Request.dial_tcp a p t) k) h = absurd h.0
Calls-Unchanged n (ask (Request.handshake c u a t) k) h = absurd h.0
Calls-Unchanged n (ask (Request.close_tcp c) k) h = absurd h.0

-- The connections of a session.
abbrev pub held : Session → ℕ
held s = elim s.sftp [ none ↦ 0 | some c ↦ 1 ]

-- What is open with the session's connection, beside what is open without it.
abbrev pub with_held : Session → Open → Open
with_held s n = elim s.sftp [ none ↦ n | some c ↦ add_ssh c.ssh n ]

-- The gauge, when it is `base` without the session's connection.
abbrev pub shown : ℕ → Session → ℕ
shown base s = elim s.sftp [ none ↦ base | some c ↦ inc base ]

-- Beside the other connections `n`, the session has its own open if it is connected, which the gauge shows, and
-- it is still the session that `s` was.
pub record Tracks (n : Open) (base : ℕ) (s : Session) (t : Session) (m : Metrics) (k : Open)
    : Type 0 where
  pub open_eq : k ≡ with_held t n
  pub gauge_eq : m.sftp_connections_active ≡ shown base t
  pub same : Same s t
  pub closed_eq : t.closed ≡ s.closed

-- What a dial adds, to the connections and to the gauge.
abbrev Dialled : Open → Metrics → Metrics × Result Client → Open → Type 0
Dialled n m (m', ok c) k =
    (k ≡ add_ssh c.ssh n) × (m'.sftp_connections_active ≡ inc m.sftp_connections_active)
Dialled n m (m', err e) k = (k ≡ n) × (m'.sftp_connections_active ≡ m.sftp_connections_active)

connected_client-Dialled :
    (n k : Open) (m : Metrics) (r : Result Client)
    → ClientIfOk n r k
    → Dialled n m (connected_client m r) k
unfolding connected_client
connected_client-Dialled n k m (ok c) h = (h, refl)
connected_client-Dialled n k m (err e) h = (h, refl)

open_channel-Dialled :
    (n k : Open) (env : Env) (m : Metrics) (r : Result ℕ)
    → OneIfOk n r k
    → Holds (Dialled n m) k (open_channel env m r)
unfolding open_channel
open_channel-Dialled n k env m (err e) h = (h, refl)
open_channel-Dialled n k env m (ok ssh) h = rw h (
    Holds-bind (ClientIfOk n) (Dialled n m) (add_ssh ssh n) _ _
      (new_client-ClientIfOk n ssh env.root_path) (λ r k h. connected_client-Dialled n k m r h))

connector-Dialled : (n : Open) (env : Env) (m : Metrics) → Holds (Dialled n m) n (connector env m)
unfolding connector
connector-Dialled n env m =
    Holds-bind (OneIfOk n) (Dialled n m) n _ _ (dial-OneIfOk n env.target)
      (λ r k h. open_channel-Dialled n k env m r h)

module _ (n : Open) (base : ℕ) (small : base < word) (s : Session) where
  abbrev Triple : {A : Type 0} → Session × Metrics × A → Open → Type 0
  Triple r k = Tracks n base s r.0 r.1 k

  dialled-Tracks :
      (env : Env) (t : Session) (m : Metrics) (k : Open) (r : Metrics × Result Client)
      → t.sftp ≡ none
      → Same s t
      → t.closed ≡ s.closed
      → m.sftp_connections_active ≡ base
      → Dialled n m r k
      → Triple (dialled (connector env) t r) k
  unfolding dialled
  dialled-Tracks env t m k (m', ok c) e v z g h = record {
    open_eq = h.0;
    gauge_eq = h.1 ∙ ap inc g;
    same = record { id_eq = v.id_eq; mapper_eq = v.mapper_eq; policy_eq = v.policy_eq };
    closed_eq = z;
  }
  dialled-Tracks env t m k (m', err e') e v z g h = record {
    open_eq = rw e h.0;
    gauge_eq = rw e (h.1 ∙ g);
    same = v;
    closed_eq = z;
  }

  reuse-Tracks :
      (env : Env) (t : Session) (m : Metrics) (k : Open) (o : Option Client)
      → t.sftp ≡ o
      → Tracks n base s t m k
      → Holds Triple k (reuse (connector env) t m o)
  unfolding reuse
  reuse-Tracks env t m k (some c) e h = h
  reuse-Tracks env t m k none e h =
      let none_open : k ≡ n = h.open_eq ∙ rw e refl in
      let gauge : m.sftp_connections_active ≡ base = h.gauge_eq ∙ rw e refl in
      rw none_open (
        Holds-bind (Dialled n m) Triple n _ _ (connector-Dialled n env m)
          (λ r k d. dialled-Tracks env t m k r e h.same h.closed_eq gauge d))

  abbrev pub InWorld : {A : Type 0} → World × A → Open → Type 0
  InWorld r k = Tracks n base s r.0.session r.0.metrics k

  pub sftp-Tracks :
      (env : Env) (w : World) (k : Open)
      → Tracks n base s w.session w.metrics k
      → Holds InWorld k (sftp env w)
  unfolding sftp connection
  sftp-Tracks env w k h =
      Holds-bind Triple InWorld k _ _
        (Holds-if Triple k w.session.closed _ _ (λ _. h)
          (λ _. reuse-Tracks env w.session w.metrics k w.session.sftp refl h))
        (λ r k d. d)

  abbrev pub Tracked : World → Open → Type 0
  Tracked w k = Tracks n base s w.session w.metrics k

  not_both : (b : Bool) → b ≡ true → b ≡ false → ⊥
  not_both b h g = ground arith

  unconnected : (t : Session) → t.sftp ≡ none → is_connected t ≡ false
  unfolding is_connected
  unconnected t e = rw e refl

  abbrev Without : Session → Session → Open → Type 0
  Without t r k = (k ≡ n) × (r ≡ record t { sftp = none })

  drop_client-Without :
      (t : Session) (x : Client)
      → Holds (λ r k. Without t r.0 k) (add_ssh x.ssh n) (drop_client t (some x))
  unfolding drop_client
  drop_client-Without t x =
      Holds-bind (Unchanged n) (λ r k. Without t r.0 k) (add_ssh x.ssh n) _ _ (close-Unchanged n x)
        (λ e k h. (h, refl))

  dropped :
      (w : World) (k : Open) (o : Option Client)
      → w.session.sftp ≡ o
      → is_connected w.session ≡ true
      → Tracked w k
      → Holds Tracked k (drop_connection w)
  unfolding drop_connection invalidate_sftp
  dropped w k none e c h = absurd (not_both (is_connected w.session) c (unconnected w.session e))
  dropped w k (some x) e c h =
      let one_open : k ≡ add_ssh x.ssh n = h.open_eq ∙ rw e refl in
      let gauge : w.metrics.sftp_connections_active ≡ inc base = h.gauge_eq ∙ rw e refl in
      rw (one_open, e)
        (Holds-bind (Without w.session) Tracked (add_ssh x.ssh n) _ _
          (Holds-bind (λ r k. Without w.session r.0 k) (Without w.session) (add_ssh x.ssh n) _ _
            (drop_client-Without w.session x) (λ r k h. h))
          (λ t k d. record {
            open_eq = d.0 ∙ sym (ap (λ (t : Session). with_held t n) d.1);
            gauge_eq =
                ap dec gauge
                ∙ (dec-inc base small).0
                ∙ sym (ap (λ (t : Session). shown base t) d.1);
            same = subst (Same s) (sym d.1) (record {
              id_eq = h.same.id_eq;
              mapper_eq = h.same.mapper_eq;
              policy_eq = h.same.policy_eq;
            });
            closed_eq = ap (λ (t : Session). t.closed) d.1 ∙ h.closed_eq;
          }))

  pub maybe_invalidate-Tracked :
      (e : Option Error) (w : World) (k : Open)
      → Tracked w k
      → Holds Tracked k (maybe_invalidate e w)
  unfolding maybe_invalidate
  maybe_invalidate-Tracked none w k h = h
  maybe_invalidate-Tracked (some e) w k h =
      let drop = if is_connected w.session then drop_connection w else ret w in
      Holds-if Tracked k (is_connection_error (kind_of e)) drop (ret w)
        (λ _.
          Holds-if Tracked k (is_connected w.session) (drop_connection w) (ret w)
            (λ c. dropped w k w.session.sftp refl c h) (λ _. h))
        (λ _. h)
