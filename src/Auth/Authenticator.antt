-- ===== src/Auth/Authenticator.antt =====
-- internal/auth/authenticator.go: a user name and a password against the store, behind two limiters.
pub mod Laws
use ftp2sftp.Base.{
  ℕ, List, [], ◌∷◌, Bool, true, false, not, ◌&&◌, ◌||◌, ◌≡◌, Option, none, some, Bytes,
  if◌then◌else◌,
}
use ftp2sftp.Errors.{Kind, Error, new}
use ftp2sftp.Auth.Limiter.{Limiter, Readings, allow, record_failure, record_success}
use ftp2sftp.Auth.Store.{UserRecord, Store, lookup}

pub record Authenticator : Type 0 where
  pub store : Store
  pub by_ip : Limiter
  pub by_user : Limiter

abbrev pub invalid_credentials : Error
invalid_credentials = new Kind.authentication "auth.Authenticate" "credenciales inválidas"

abbrev pub rate_limited_login : Error
rate_limited_login =
    new Kind.rate_limited "auth.Authenticate" "demasiados intentos fallidos, intente más tarde"

-- The clock's readings in one call: of the two checks and of the two records.
pub record LoginTimes : Type 0 where
  pub ip_check : Readings
  pub user_check : Readings
  pub ip_record : ℕ
  pub user_record : ℕ

-- `matches hash password` is what bcrypt answers, and `dummy` the hash that stands for an unknown user's.
module _ (matches : Bytes → Bytes → Bool) (dummy : Bytes) where
  abbrev pub hash_of : Option UserRecord → Bytes
  hash_of none = dummy
  hash_of (some r) = r.password_hash

  abbrev found : Option UserRecord → Bool
  found none = false
  found (some r) = true

  rejected : Authenticator → Bytes → Bytes → LoginTimes → Authenticator × Option Error
  rejected a client_ip username t = (
    record a {
      by_ip = record_failure a.by_ip client_ip t.ip_record;
      by_user = record_failure a.by_user username t.user_record;
    },
    some invalid_credentials,
  )

  accepted : Authenticator → Bytes → Bytes → Authenticator × Option Error
  accepted a client_ip username = (
    record a {
      by_ip = record_success a.by_ip client_ip;
      by_user = record_success a.by_user username;
    },
    none,
  )

  -- Behind the limiters: the hash is compared whether or not there is such a user.
  check_password : Authenticator → Bytes → Bytes → Bytes → LoginTimes → Authenticator × Option Error
  unfolding rejected accepted
  check_password a client_ip username password t =
      let r = lookup a.store username in
      let same = matches (hash_of r) password in
      if not (found r) || not same
      then rejected a client_ip username t
      else accepted a client_ip username

  check_user :
      Authenticator
      → Bytes
      → Bytes
      → Bytes
      → LoginTimes
      → Limiter × Bool
      → Authenticator × Option Error
  unfolding check_password
  check_user a client_ip username password t (l, true) =
      check_password (record a { by_user = l }) client_ip username password t
  check_user a client_ip username password t (l, false) =
      (record a { by_user = l }, some rate_limited_login)

  check_ip :
      Authenticator
      → Bytes
      → Bytes
      → Bytes
      → LoginTimes
      → Limiter × Bool
      → Authenticator × Option Error
  unfolding check_user
  check_ip a client_ip username password t (l, true) =
      check_user (record a { by_ip = l }) client_ip username password t
        (allow a.by_user username t.user_check)
  check_ip a client_ip username password t (l, false) =
      (record a { by_ip = l }, some rate_limited_login)

  -- `Authenticate`: the user's limiter is asked only if the address's lets the attempt through.
  unfoldable pub authenticate :
      Authenticator → Bytes → Bytes → Bytes → LoginTimes → Authenticator × Option Error
  unfolding check_ip
  authenticate a client_ip username password t =
      check_ip a client_ip username password t (allow a.by_ip client_ip t.ip_check)
