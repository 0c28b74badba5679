-- ===== src/Process/Password/Login.antt =====
-- What `ftp2sftp config hash-password` (cmd/ftp2sftp/cli.go) prints, as the hash of a user who logs in.
use ftp2sftp.Base.{
  ℕ, [], ◌∷◌, ◌++◌, Bool, true, false, ◌||◌, ◌==◌, ◌≡◌, refl, ap, subst, ◌↔◌, ◌⊎◌, inl, inr, Option,
  none, some, Bytes, eq_bytes_iff, arith, Bool-cases, All,
}
use ftp2sftp.Errors.{Fault}
use ftp2sftp.Remote.{Answer, done, failed}
use ftp2sftp.Auth.Limiter.{allow}
use ftp2sftp.Auth.Store.{UserRecord, lookup}
use ftp2sftp.Auth.Authenticator.{Authenticator, LoginTimes, authenticate}
use ftp2sftp.Auth.Authenticator.Laws.{authenticate_iff}
use ftp2sftp.Process.Password.{
  Input, piped, asked, ReadError, trim_line, read_password, print_hash, hash_read, hash_password,
}

abbrev pub is_break : ℕ → Bool
is_break c = c == 13 || c == 10

abbrev pub ends_break : Bytes → Bool
ends_break [] = false
ends_break (c ∷ []) = is_break c
ends_break (c ∷ d ∷ s) = ends_break (d ∷ s)

-- What the operator entered: the line without the line breaks at its end, or the same twice.
abbrev pub IsEntered : Input → Bytes → Type 0
IsEntered (piped line e) p =
    (ends : Bytes) × (line ≡ p ++ ends) × All (λ c. is_break c ≡ true) ends × (ends_break p ≡ false)
IsEntered (asked first second) p = (first ≡ done p) × (second ≡ done p)

trim_line-breaks : (ends : Bytes) → All (λ c. is_break c ≡ true) ends → trim_line ends ≡ []
unfolding trim_line
trim_line-breaks [] h = refl
trim_line-breaks (c ∷ s) h = rw (trim_line-breaks s h.1, h.0) refl

trim_line-cons :
    (c : ℕ) (t : Bytes) (d : ℕ) (s : Bytes) → trim_line t ≡ d ∷ s → trim_line (c ∷ t) ≡ c ∷ d ∷ s
unfolding trim_line
trim_line-cons c t d s e = rw e (ground arith)

trim_line-append :
    (p ends : Bytes)
    → All (λ c. is_break c ≡ true) ends
    → ends_break p ≡ false
    → trim_line (p ++ ends) ≡ p
trim_line-append [] ends h k = trim_line-breaks ends h
trim_line-append (c ∷ []) ends h k = unfold trim_line in rw (trim_line-breaks ends h, k) refl
trim_line-append (c ∷ d ∷ s) ends h k =
    trim_line-cons c (d ∷ s ++ ends) d s (trim_line-append (d ∷ s) ends h k)

IsEntered-cons :
    (c : ℕ) (s : Bytes) (e : Option Fault) (t ends : Bytes)
    → trim_line s ≡ t
    → s ≡ t ++ ends
    → All (λ c. is_break c ≡ true) ends
    → ends_break t ≡ false
    → IsEntered (piped (c ∷ s) e) (trim_line (c ∷ s))
unfolding trim_line
IsEntered-cons c s e [] ends r q h k = elim (Bool-cases (is_break c)) [
  | inl b ↦ rw (r, b) (c ∷ ends, ap (◌∷◌ c) q, (b, h), refl)
  | inr b ↦ rw (r, b) (ends, ap (◌∷◌ c) q, h, b)
]
IsEntered-cons c s e (d ∷ t) ends r q h k = rw (trim_line-cons c s d t r) (ends, ap (◌∷◌ c) q, h, k)

trim_line-IsEntered : (line : Bytes) (e : Option Fault) → IsEntered (piped line e) (trim_line line)
unfolding trim_line
trim_line-IsEntered [] e = ([], refl, tt, refl)
trim_line-IsEntered (c ∷ s) e =
    let (ends, q, h, k) = trim_line-IsEntered s e in
    IsEntered-cons c s e (trim_line s) ends refl q h k

trimmed_iff :
    (line : Bytes) (e : Option Fault) (p : Bytes)
    → (trim_line line ≡ p) ↔ IsEntered (piped line e) p
trimmed_iff line e p = (
  λ q. subst (IsEntered (piped line e)) q (trim_line-IsEntered line e),
  λ h. let (ends, q, b, k) = h in rw q (trim_line-append p ends b k),
)

inr_iff : (a b : Bytes) → (◌≡◌ {A = ReadError ⊎ Bytes} (inr a) (inr b)) ↔ (a ≡ b)
inr_iff a b = ground arith

-- On a password that is not empty.
read_password_iff :
    (input : Input) (c : ℕ) (p : Bytes)
    → (read_password input ≡ inr (c ∷ p)) ↔ IsEntered input (c ∷ p)
unfolding read_password
read_password_iff (piped line none) c p = (
  λ e. (trimmed_iff line none (c ∷ p)).0 ((inr_iff (trim_line line) (c ∷ p)).0 e),
  λ h. ap inr ((trimmed_iff line none (c ∷ p)).1 h),
)
read_password_iff (piped [] (some f)) c p =
    (λ e. ground arith, λ h. let (ends, q, b, k) = h in ground arith)
read_password_iff (piped (d ∷ line) (some f)) c p = (
  λ e. (trimmed_iff (d ∷ line) (some f) (c ∷ p)).0 ((inr_iff (trim_line (d ∷ line)) (c ∷ p)).0 e),
  λ h. ap inr ((trimmed_iff (d ∷ line) (some f) (c ∷ p)).1 h),
)
read_password_iff (asked (failed f) second) c p = ground arith
read_password_iff (asked (done first) (failed f)) c p = ground arith
read_password_iff (asked (done first) (done second)) c p = ground (arith, eq_bytes_iff first second)

module _ (generate : Bytes → Answer Bytes) where
  print_hash_iff :
      (a : Answer Bytes) (h : Bytes) → (print_hash generate a ≡ (0, some h)) ↔ (a ≡ done h)
  print_hash_iff (failed f) h = ground arith
  print_hash_iff (done k) h = ground arith

  hash_read_inverse :
      (r : ReadError ⊎ Bytes) (h : Bytes)
      → hash_read generate r ≡ (0, some h)
      → (c : ℕ) × (p : Bytes) × (r ≡ inr (c ∷ p)) × (generate (c ∷ p) ≡ done h)
  hash_read_inverse (inl e) h q = ground arith
  hash_read_inverse (inr []) h q = ground arith
  hash_read_inverse (inr (c ∷ p)) h q = (c, p, refl, (print_hash_iff (generate (c ∷ p)) h).0 q)

  -- The hash of what was entered, which is not empty.
  abbrev pub IsHashed : Input → Bytes → ℕ → Bytes → Type 0
  IsHashed input h c p = IsEntered input (c ∷ p) × (generate (c ∷ p) ≡ done h)

  hash_password_inverse :
      (input : Input) (h : Bytes)
      → hash_password generate input ≡ (0, some h)
      → (c : ℕ) × (p : Bytes) × IsHashed input h c p
  unfolding hash_password
  hash_password_inverse input h e =
      let (c, p, q, g) = hash_read_inverse (read_password input) h e in
      (c, p, ((read_password_iff input c p).0 q, g))

  hash_password-IsHashed :
      (input : Input) (h : Bytes) (c : ℕ) (p : Bytes)
      → IsHashed input h c p
      → hash_password generate input ≡ (0, some h)
  unfolding hash_password
  hash_password-IsHashed input h c p k =
      rw ((read_password_iff input c p).1 k.0) ((print_hash_iff (generate (c ∷ p)) h).1 k.1)

module _ (generate : Bytes → Answer Bytes) (matches : Bytes → Bytes → Bool)
    (sound : (p h : Bytes) → generate p ≡ done h → matches h p ≡ true) (dummy : Bytes) where
  -- The hash of a user is the one that `config hash-password` prints exactly if the operator entered
  -- a password that is not empty, on a line or twice the same at a terminal, and bcrypt hashes it to
  -- that; and with the password the user gets in. bcrypt's comparison accepts the hash that bcrypt
  -- made of a password, and the limiters let the attempt through.
  pub hash_password_iff :
      (input : Input) (a : Authenticator) (ip user : Bytes) (t : LoginTimes) (r : UserRecord)
      → lookup a.store user ≡ some r
      → (allow a.by_ip ip t.ip_check).1 ≡ true
      → (allow a.by_user user t.user_check).1 ≡ true
      → (hash_password generate input ≡ (0, some r.password_hash)) ↔ (
          (c : ℕ) × (p : Bytes) × IsHashed generate input r.password_hash c p
          × ((authenticate matches dummy a ip user (c ∷ p) t).1 ≡ none))
  hash_password_iff input a ip user t r e i u = (
    λ q.
        let (c, p, k) = hash_password_inverse generate input r.password_hash q in
        (
          c,
          p,
          k,
          (authenticate_iff matches dummy a ip user (c ∷ p) t).1
              (i, u, rw e (sound (c ∷ p) r.password_hash k.1)),
        ),
    λ s. let (c, p, k, n) = s in hash_password-IsHashed generate input r.password_hash c p k,
  )
