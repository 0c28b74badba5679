-- ===== src/Auth/Authenticator/Laws.antt =====
-- Laws of Authenticate (internal/auth/authenticator.go).
use ftp2sftp.Base.{Bool, true, false, ◌≡◌, ◌↔◌, Option, none, some, Bytes, arith}
use ftp2sftp.Auth.Limiter.{allow}
use ftp2sftp.Auth.Store.{UserRecord, lookup}
use ftp2sftp.Auth.Authenticator.{Authenticator, LoginTimes, authenticate}

module _ (matches : Bytes → Bytes → Bool) (dummy : Bytes) where
  -- A user with this password is configured.
  abbrev pub accepts : Option UserRecord → Bytes → Bool
  accepts none password = false
  accepts (some r) password = matches r.password_hash password

  -- A login succeeds exactly if both limiters let the attempt through and the configured user's hash
  -- matches the password; an unknown user never gets in, not even with a password that matches the
  -- dummy hash.
  pub authenticate_iff :
      (a : Authenticator) (ip user password : Bytes) (t : LoginTimes)
      → ((authenticate matches dummy a ip user password t).1 ≡ none)
        ↔ ((allow a.by_ip ip t.ip_check).1 ≡ true)
          × ((allow a.by_user user t.user_check).1 ≡ true)
          × (accepts (lookup a.store user) password ≡ true)
  unfolding authenticate
  authenticate_iff a ip user password t = ground arith

  -- A failed login does not tell an unknown user from a wrong password: with the same limiters, two
  -- stores that both refuse the login give the same error and leave the same limiters.
  pub authenticate-uniform :
      (a b : Authenticator) (ip user password : Bytes) (t : LoginTimes)
      → a.by_ip ≡ b.by_ip
      → a.by_user ≡ b.by_user
      → accepts (lookup a.store user) password ≡ false
      → accepts (lookup b.store user) password ≡ false
      → let r = authenticate matches dummy a ip user password t in
        let s = authenticate matches dummy b ip user password t in
        (r.1 ≡ s.1) × (r.0.by_ip ≡ s.0.by_ip) × (r.0.by_user ≡ s.0.by_user)
  unfolding authenticate
  authenticate-uniform a b ip user password t e f h k = ground arith
