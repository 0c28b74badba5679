-- ===== src/Resources.antt =====
-- The network connections that a program opens and closes, each by its number: those that `net.DialTimeout` returns, until
-- they are closed, by themselves or with the SSH connection that a handshake makes of them.
pub mod Dialling
pub mod Sessions
pub mod Driving
pub mod Commands
pub mod Life
use ftp2sftp.Base.{
  ◌==◌, ap₂, fun_ext, subst, arith, Bool-cases, inl, inr, ℕ, ◌+◌, ◌-◌, ◌≤◌, Bool, true, false, ◌≡◌,
  refl, if◌then◌else◌,
}
use ftp2sftp.Effects.{ret, ask, bind, Always}
use ftp2sftp.Remote.{
  Answer, done, failed, Handshake, connected, key_error, refused, Request, Reply, Io,
}
use ftp2sftp.SftpClient.Requests.{Anything}

-- What is open: how many connections, and of each TCP and each SSH connection, by its number, how
-- often.
pub record Open : Type 0 where
  pub total : ℕ
  pub tcp : ℕ → ℕ
  pub ssh : ℕ → ℕ

abbrev pub nothing : Open
nothing = record { total = 0; tcp = λ c. 0; ssh = λ s. 0 }

abbrev pub bump : ℕ → (ℕ → ℕ) → ℕ → ℕ
bump c f x = if c == x then f x + 1 else f x

abbrev pub lower : ℕ → (ℕ → ℕ) → ℕ → ℕ
lower c f x = if c == x then f x - 1 else f x

abbrev pub add_tcp : ℕ → Open → Open
add_tcp c n = record { total = n.total + 1; tcp = bump c n.tcp; ssh = n.ssh }

abbrev pub drop_tcp : ℕ → Open → Open
drop_tcp c n = record { total = n.total - 1; tcp = lower c n.tcp; ssh = n.ssh }

abbrev pub add_ssh : ℕ → Open → Open
add_ssh s n = record { total = n.total + 1; tcp = n.tcp; ssh = bump s n.ssh }

abbrev pub drop_ssh : ℕ → Open → Open
drop_ssh s n = record { total = n.total - 1; tcp = n.tcp; ssh = lower s n.ssh }

lower-bump : (c : ℕ) (f : ℕ → ℕ) → lower c (bump c f) ≡ f
lower-bump c f = fun_ext (λ x. ground arith)

bump-lower : (c : ℕ) (f : ℕ → ℕ) → 1 ≤ f c → bump c (lower c f) ≡ f
bump-lower c f h = fun_ext (λ x. at x)
  where
    at : (x : ℕ) → bump c (lower c f) x ≡ f x
    at x = elim (Bool-cases (c == x)) [
      | inl e ↦
          let same : c ≡ x = ground (arith, e) in rw e (omega (arith, subst (λ y. 1 ≤ f y) same h))
      | inr e ↦ rw e refl
    ]

pub bump_open : (c : ℕ) (f : ℕ → ℕ) → 1 ≤ bump c f c
bump_open c f = ground arith

pub drop_tcp-add_tcp : (c : ℕ) (n : Open) → drop_tcp c (add_tcp c n) ≡ n
drop_tcp-add_tcp c n =
    ap₂ (λ (t : ℕ) (f : ℕ → ℕ). record n { total = t; tcp = f }) (omega arith) (lower-bump c n.tcp)

pub drop_ssh-add_ssh : (s : ℕ) (n : Open) → drop_ssh s (add_ssh s n) ≡ n
drop_ssh-add_ssh s n =
    ap₂ (λ (t : ℕ) (f : ℕ → ℕ). record n { total = t; ssh = f }) (omega arith) (lower-bump s n.ssh)

pub add_ssh-drop_ssh : (s : ℕ) (n : Open) → 1 ≤ n.total → 1 ≤ n.ssh s → add_ssh s (drop_ssh s n) ≡ n
add_ssh-drop_ssh s n h g =
    ap₂ (λ (t : ℕ) (f : ℕ → ℕ). record n { total = t; ssh = f }) (omega (arith, h))
      (bump-lower s n.ssh g)

-- What is open after a request and its answer.
abbrev pub opened_by : Answer ℕ → Open → Open
opened_by (done c) n = add_tcp c n
opened_by (failed f) n = n

-- A handshake makes an SSH connection of a TCP connection.
abbrev pub shaken : ℕ → Handshake → Open → Open
shaken c (connected s) n = add_ssh s (drop_tcp c n)
shaken c (key_error f) n = n
shaken c (refused f) n = n

abbrev pub after : (q : Request) → Reply q → Open → Open
after (Request.dial_tcp h p t) r n = opened_by r n
after (Request.handshake c u a t) r n = shaken c r n
after (Request.close_tcp c) r n = drop_tcp c n
after (Request.close_ssh s) r n = drop_ssh s n
after (Request.sftp c o) r n = n
after (Request.new_sftp s) r n = n
after (Request.load_known_hosts p) r n = n
after (Request.read_file p) r n = n
after (Request.parse_key b) r n = n
after (Request.parse_key_with b p) r n = n

-- Only an open connection is closed, or given to a handshake.
abbrev pub MayAsk : Request → Open → Type 0
MayAsk (Request.close_tcp c) n = 1 ≤ n.tcp c
MayAsk (Request.close_ssh s) n = 1 ≤ n.ssh s
MayAsk (Request.handshake c u a t) n = 1 ≤ n.tcp c
MayAsk (Request.dial_tcp h p t) n = Unit {0}
MayAsk (Request.sftp c o) n = Unit {0}
MayAsk (Request.new_sftp s) n = Unit {0}
MayAsk (Request.load_known_hosts p) n = Unit {0}
MayAsk (Request.read_file p) n = Unit {0}
MayAsk (Request.parse_key b) n = Unit {0}
MayAsk (Request.parse_key_with b p) n = Unit {0}

-- From the open connections `n`, whatever is answered, only what is open is closed, and the result and
-- the connections that are then open satisfy `Post`.
abbrev pub Holds : {A : Type 0} → (A → Open → Type 0) → Open → Io A → Type 0
Holds Post n (ret a) = Post a n
Holds Post n (ask q k) = MayAsk q n × ((r : Reply q) → Holds Post (after q r n) (k r))

pub Holds-bind :
    {A B : Type 0} (Mid : A → Open → Type 0) (Post : B → Open → Type 0) (n : Open) (m : Io A)
    (f : A → Io B)
    → Holds Mid n m
    → ((a : A) (k : Open) → Mid a k → Holds Post k (f a))
    → Holds Post n (bind m f)
Holds-bind Mid Post n (ret a) f h g = g a n h
Holds-bind Mid Post n (ask q k) f h g =
    (h.0, λ r. Holds-bind Mid Post (after q r n) (k r) f (h.1 r) g)

pub Holds-if :
    {A : Type 0} (Post : A → Open → Type 0) (n : Open) (b : Bool) (x y : Io A)
    → (b ≡ true → Holds Post n x)
    → (b ≡ false → Holds Post n y)
    → Holds Post n (if b then x else y)
Holds-if Post n true x y h g = h refl
Holds-if Post n false x y h g = g refl

-- What holds of the results carries over to a statement about the requests.
pub Always-Holds :
    {A : Type 0} (P : Request → Type 0) (Post : A → Open → Type 0) (n : Open) (m : Io A)
    → Always Anything P (λ a. Unit {0}) m
    → Holds Post n m
    → Always Anything P (λ a. (k : Open) × Post a k) m
Always-Holds P Post n (ret a) h g = (n, g)
Always-Holds P Post n (ask q k) h g =
    (h.0, λ r i. Always-Holds P Post (after q r n) (k r) (h.1 r i) (g.1 r))
