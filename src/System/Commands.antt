-- ===== src/System/Commands.antt =====
-- The gauge of SFTP connections when a session runs a command (internal/ftpserver/clientdriver.go).
use ftp2sftp.Base.{
  ℕ, ◌+◌, ◌%◌, ◌≤◌, ◌<◌, false, ◌≡◌, refl, sym, ap, ◌∙◌, subst, Option, none, some, arith,
}
use ftp2sftp.Remote.{Io}
use ftp2sftp.Metrics.{inc, word}
use ftp2sftp.Session.{Session}
use ftp2sftp.SftpClient.{Client}
use ftp2sftp.Driver.{World}
use ftp2sftp.Gateway.Connections.{ConnState, find}
use ftp2sftp.Gateway.{Gateway}
use ftp2sftp.Resources.{Open, drop_ssh, add_ssh-drop_ssh, Holds, Holds-bind}
use ftp2sftp.Resources.Sessions.{Tracks, Tracked, held, shown, with_held}
use ftp2sftp.System.{System, world_in, stored, in_session, on_connection}
use ftp2sftp.System.Connections.{
  uses, uses_by, uses_of, uses_in-put, uses_in-remove, held_by, held_of, held_in-put,
  held_in-remove, StillOpen, put-IsOpen, find-IsOpen,
}
use ftp2sftp.System.Counts.{Counts, InSystem}

-- One connection more or less, on the gauge.
inc-residue : (n : ℕ) → inc (n % word) ≡ (n + 1) % word
unfolding inc
inc-residue n = omega arith

shown-held :
    (n : ℕ) (s : Session) (o : Option Client)
    → s.sftp ≡ o
    → shown (n % word) s ≡ (n + held s) % word
shown-held n s none e = rw e (omega arith)
shown-held n s (some c) e = rw e (inc-residue n)

pub residue : (n : ℕ) → n % word < word
residue n = omega arith

-- What is open without the session's connection.
abbrev pub without : Session → Open → Open
without s k = elim s.sftp [ none ↦ k | some c ↦ drop_ssh c.ssh k ]

with_held-total :
    (t : Session) (n : Open) (o : Option Client)
    → t.sftp ≡ o
    → (with_held t n).total ≡ n.total + held t
with_held-total t n none e = rw e (omega arith)
with_held-total t n (some c) e = rw e refl

with_held-ssh :
    (t : Session) (n : Open) (x : ℕ) (o : Option Client)
    → t.sftp ≡ o
    → (with_held t n).ssh x ≡ n.ssh x + uses x t
with_held-ssh t n x none e = rw e (omega arith)
with_held-ssh t n x (some c) e = rw e (ground arith)

-- The session's connection is among those that are open.
pub record IsAmong (s : Session) (k : Open) : Type 0 where
  pub counted : held s ≤ k.total
  pub listed : (x : ℕ) → uses x s ≤ k.ssh x

with_held-without :
    (s : Session) (k : Open) (o : Option Client)
    → s.sftp ≡ o
    → IsAmong s k
    → k ≡ with_held s (without s k)
with_held-without s k none e h = rw e refl
with_held-without s k (some c) e h = rw e (
    sym (
      add_ssh-drop_ssh c.ssh k (subst (λ n. n ≤ k.total) one h.counted)
        (subst (λ n. n ≤ k.ssh c.ssh) used (h.listed c.ssh))))
  where
    one : held s ≡ 1
    one = rw e refl

    used : uses c.ssh s ≡ 1
    used = rw e (ground arith)

pub find-IsAmong :
    (g : Gateway) (k : Open) (id : ℕ) (cs : ConnState) (s : Session)
    → find id g.extras ≡ some cs
    → cs.sess ≡ some s
    → Counts g k
    → IsAmong s k
find-IsAmong g k id cs s f e c = record {
  counted = omega (arith, held_in-remove id g.extras, ap held_of f, ap held_by e, c.among);
  listed = λ x.
      omega (arith, uses_in-remove x id g.extras, ap (uses_of x) f, ap (uses_by x) e, c.each x);
}

-- How many are open without the session's connection, with it.
pub without-total : (s : Session) (k : Open) → IsAmong s k → k.total ≡ (without s k).total + held s
without-total s k a =
    ap (λ (n : Open). n.total) (with_held-without s k s.sftp refl a)
    ∙ with_held-total s (without s k) s.sftp refl

pub without-ssh :
    (s : Session) (k : Open) (x : ℕ) → IsAmong s k → k.ssh x ≡ (without s k).ssh x + uses x s
without-ssh s k x a =
    ap (λ (n : Open). n.ssh x) (with_held-without s k s.sftp refl a)
    ∙ with_held-ssh s (without s k) x s.sftp refl

-- The gauge without the session's connection.
abbrev pub gauge_without : Session → Open → ℕ
gauge_without s k = (without s k).total % word

-- A session of the system, as its own commands see it.
pub tracked_session :
    (g : Gateway) (k : Open) (s : Session)
    → IsAmong s k
    → Counts g k
    → Tracks (without s k) (gauge_without s k) s s g.metrics k
tracked_session g k s a c = record {
  open_eq = with_held-without s k s.sftp refl a;
  gauge_eq =
      c.gauge
      ∙ ap (λ n. n % word) (without-total s k a)
      ∙ sym (shown-held (without s k).total s s.sftp refl);
  same = record { id_eq = refl; mapper_eq = refl; policy_eq = refl };
  closed_eq = refl;
}

stored-InSystem :
    (y : System) (k j : Open) (id : ℕ) (cs : ConnState) (s : Session) (w : World)
    → find id y.gateway.extras ≡ some cs
    → cs.sess ≡ some s
    → IsAmong s k
    → s.closed ≡ false
    → Counts y.gateway k
    → Tracked (without s k) (gauge_without s k) (residue (without s k).total) s w j
    → InSystem (stored y id cs s.username w) j
stored-InSystem y k j id cs s w f e a o c t =
    let n = without s k in
    let total : j.total ≡ n.total + held w.session =
      ap (λ (n : Open). n.total) t.open_eq ∙ with_held-total w.session n w.session.sftp refl in
    let put_in = record cs { sess = some w.session } in
    record {
      gauge =
          t.gauge_eq
          ∙ shown-held n.total w.session w.session.sftp refl
          ∙ ap (λ m. m % word) (sym total);
      among = omega (
        arith,
        held_in-put id put_in y.gateway.extras,
        ap held_of f,
        ap held_by e,
        total,
        c.among,
        without-total s k a,
      );
      each = λ x.
          let of_session : j.ssh x ≡ n.ssh x + uses x w.session =
            ap (λ (n : Open). n.ssh x) t.open_eq
            ∙ with_held-ssh w.session n x w.session.sftp refl in
          omega (
            arith,
            uses_in-put x id put_in y.gateway.extras,
            ap (uses_of x) f,
            ap (uses_by x) e,
            of_session,
            c.each x,
            without-ssh s k x a,
          );
      all_open = put-IsOpen id put_in y.gateway.extras (t.closed_eq ∙ o) c.all_open;
    }

-- What a session does with its world keeps the count, if it keeps its own.
abbrev Tracking : (Session → World → Io World) → Type 0
Tracking f =
    (n : Open) (base : ℕ) (small : base < word) (s : Session) (w : World) (k : Open)
    → Tracked n base small s w k
    → Holds (Tracked n base small s) k (f s w)

in_session-InSystem :
    (y : System) (k : Open) (id : ℕ) (cs : ConnState) (o : Option Session)
    (f : Session → World → Io World)
    → find id y.gateway.extras ≡ some cs
    → cs.sess ≡ o
    → Tracking f
    → Counts y.gateway k
    → Holds InSystem k (in_session y id cs o f)
in_session-InSystem y k id cs none f i e g c = c
in_session-InSystem y k id cs (some s) f i e g c =
    let a = find-IsAmong y.gateway k id cs s i e c in
    let n = without s k in
    let b = gauge_without s k in
    let o = subst StillOpen e (find-IsOpen id cs y.gateway.extras i c.all_open) in
    Holds-bind (Tracked n b (residue n.total) s) InSystem k (f s (world_in y s)) _
      (g n b (residue n.total) s (world_in y s) k (tracked_session y.gateway k s a c))
      (λ w j t. stored-InSystem y k j id cs s w i e a o c t)

pub on_connection-InSystem :
    (y : System) (k : Open) (id : ℕ) (o : Option ConnState) (f : Session → World → Io World)
    → find id y.gateway.extras ≡ o
    → Tracking f
    → Counts y.gateway k
    → Holds InSystem k (on_connection y id o f)
on_connection-InSystem y k id none f i g c = c
on_connection-InSystem y k id (some cs) f i g c = in_session-InSystem y k id cs cs.sess f i refl g c
