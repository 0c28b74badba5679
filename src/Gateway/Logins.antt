-- ===== src/Gateway/Logins.antt =====
-- AuthUser of internal/ftpserver/gateway.go on a gateway that comes from a configuration.
use ftp2sftp.Base.{
  to_nat, ℕ, List, [], ◌∷◌, Bool, true, false, ◌≡◌, refl, ap, ◌∙◌, subst, Option, none, some, Bytes,
  arith, ◌⊎◌, inl, inr,
}
use mathlib.Core.List.{Mem}
use ftp2sftp.Errors.{Error, Result, ok, err}
use ftp2sftp.Filesystem.{new_mapper}
use ftp2sftp.Authorization.{Policy}
use ftp2sftp.Auth.Store.{lookup, new_store}
use ftp2sftp.Auth.Authenticator.{
  Authenticator, LoginTimes, authenticate, rate_limited_login, invalid_credentials,
}
use ftp2sftp.Auth.Authenticator.Laws.{accepts}
use ftp2sftp.Config.{UserConfig, Config}
use ftp2sftp.Metrics.{Metrics}
use ftp2sftp.Session.{Session, new_session}
use ftp2sftp.Effects.{ret, Always, Always-bind, Always-mono}
use ftp2sftp.SftpClient.Requests.{Anything}
use ftp2sftp.Gateway.Connections.{find}
use ftp2sftp.Gateway.{
  UserRuntime, Gateway, disconnected, track, attempted, begin_session, logged_in, auth_user,
  client_disconnected, prepare_shutdown,
}
use ftp2sftp.Gateway.Events.{
  Event, connects, logs_in, works, disconnects, shuts_down, forget, gateway_step, gateway_run,
}
use ftp2sftp.Gateway.Startup.{policy_of, runtime_of, build}
use ftp2sftp.Gateway.Accounts.{
  last_named, runtime_for, record_for, add_runtimes-last, store_all-last, Known, last_named-Known,
}
use ftp2sftp.Gateway.Configured.{
  Serves, Serving, build-Serves, same-Serves, connect_new-Serves, rework-Serves,
  disconnected-Serves,
}

-- The permissions of the account, one by one, and its limit; a negative one stands for none.
pub record Grants (u : UserConfig) (p : Policy) : Type 0 where
  pub upload : p.allow_upload ≡ u.permissions.allow_upload
  pub download : p.allow_download ≡ u.permissions.allow_download
  pub delete : p.allow_delete ≡ u.permissions.allow_delete
  pub mkdir : p.allow_mkdir ≡ u.permissions.allow_mkdir
  pub rename : p.allow_rename ≡ u.permissions.allow_rename
  pub overwrite : p.allow_overwrite ≡ u.permissions.allow_overwrite
  pub size : p.max_file_size ≡ to_nat u.max_file_size

policy_of-Grants : (u : UserConfig) → Grants u (policy_of u)
policy_of-Grants u = record {
  upload = refl;
  download = refl;
  delete = refl;
  mkdir = refl;
  rename = refl;
  overwrite = refl;
  size = refl;
}

module _ (matches : Bytes → Bytes → Bool) (dummy : Bytes) where
  -- The session is of a configured user with this name and password, under that user's roots and
  -- permissions.
  pub record LoginOf (c : Config) (user password fresh : Bytes) (s : Session) : Type 0 where
    pub account : UserConfig
    pub configured : Mem account c.users
    pub named : account.username ≡ user
    pub matched : matches account.password_hash password ≡ true
    pub owner : s.username ≡ user
    pub numbered : s.id ≡ fresh
    pub unconnected : s.sftp ≡ none
    pub still_open : s.closed ≡ false
    pub mapped : s.mapper ≡ new_mapper account.virtual_root account.sftp.root_path
    pub permitted : Grants account s.policy

  abbrev pub Outcome : Config → Bytes → Bytes → Bytes → Result Session → Type 0
  Outcome c user password fresh (err e) = (e ≡ rate_limited_login) ⊎ (e ≡ invalid_credentials)
  Outcome c user password fresh (ok s) = LoginOf c user password fresh s

  authenticate-store :
      (a : Authenticator) (ip user password : Bytes) (t : LoginTimes)
      → (authenticate matches dummy a ip user password t).0.store ≡ a.store
  unfolding authenticate
  authenticate-store a ip user password t = ground arith

  authenticate_cases :
      (a : Authenticator) (ip user password : Bytes) (t : LoginTimes)
      → let r = (authenticate matches dummy a ip user password t).1 in
        ((r ≡ none) × (accepts matches dummy (lookup a.store user) password ≡ true))
        ⊎ ((r ≡ some rate_limited_login) ⊎ (r ≡ some invalid_credentials))
  unfolding authenticate
  authenticate_cases a ip user password t = ground arith

  abbrev Verdict : Authenticator → Bytes → Bytes → Option Error → Type 0
  Verdict a user password none = accepts matches dummy (lookup a.store user) password ≡ true
  Verdict a user password (some e) = (e ≡ rate_limited_login) ⊎ (e ≡ invalid_credentials)

  authenticate-Verdict :
      (a : Authenticator) (ip user password : Bytes) (t : LoginTimes)
      → Verdict a user password (authenticate matches dummy a ip user password t).1
  authenticate-Verdict a ip user password t = elim (authenticate_cases a ip user password t) [
    | inl (e, h) ↦ rw e h
    | inr (inl e) ↦ rw e (inl refl)
    | inr (inr e) ↦ rw e (inr refl)
  ]

  logged_in-Outcome :
      (c : Config) (g : Gateway) (id : ℕ) (ip user password fresh : Bytes) (o : Option UserConfig)
      → accepts matches dummy (record_for o) password ≡ true
      → Known c.users user o
      → Outcome c user password fresh (begin_session g id ip user fresh (runtime_for o)).1
  unfolding new_session runtime_of
  logged_in-Outcome c g id ip user password fresh none h k = ground arith
  logged_in-Outcome c g id ip user password fresh (some u) h k = record {
    account = u;
    configured = k.0;
    named = k.1;
    matched = h;
    owner = refl;
    numbered = refl;
    unconnected = refl;
    still_open = refl;
    mapped = refl;
    permitted = policy_of-Grants _;
  }

  answered :
      (c : Config) (g : Gateway) (a : Authenticator) (id : ℕ) (ip user password fresh : Bytes)
      (o : Option Error)
      → Serves c g
      → Verdict g.authent user password o
      → Outcome c user password fresh (logged_in (attempted g a) id ip user fresh o).1
  unfolding new_store
  answered c g a id ip user password fresh (some e) v h = h
  answered c g a id ip user password fresh none v h =
      let who = last_named none c.users user in
      let r = store_all-last (λ name. none) none c.users user refl in
      let found = ap (λ f. lookup f user) v.store_eq ∙ r in
      let runtime =
        ap (λ f. f user) v.users_eq ∙ add_runtimes-last (λ name. none) none c.users user refl in
      rw runtime (
        logged_in-Outcome c (attempted g a) id ip user password fresh who
          (subst (λ o. accepts matches dummy o password ≡ true) found h)
          (last_named-Known c.users none c.users user (λ u m. m) tt))

  auth_user-Outcome :
      (c : Config) (g : Gateway) (id : ℕ) (ip user password : Bytes) (t : LoginTimes)
      (fresh : Bytes)
      → Serves c g
      → Outcome c user password fresh (auth_user matches dummy g id ip user password t fresh).1
  unfolding auth_user
  auth_user-Outcome c g id ip user password t fresh v =
      answered c g _ id ip user password fresh _ v
        (authenticate-Verdict g.authent ip user password t)

  auth_user-Serves :
      (c : Config) (g : Gateway) (id : ℕ) (ip user password : Bytes) (t : LoginTimes)
      (fresh : Bytes)
      → Serves c g
      → Serves c (auth_user matches dummy g id ip user password t fresh).0
  unfolding auth_user
  auth_user-Serves c g id ip user password t fresh v =
      logged_in-Serves (attempted g _) id ip user fresh _
        (same-Serves c g _ refl (authenticate-store g.authent ip user password t) refl v)
    where
      begin_session-Serves :
          (h : Gateway) (id : ℕ) (ip user fresh : Bytes) (o : Option UserRuntime)
          → Serves c h
          → Serves c (begin_session h id ip user fresh o).0
      begin_session-Serves h id ip user fresh none v = v
      begin_session-Serves h id ip user fresh (some rt) v = same-Serves c h _ refl refl refl v

      logged_in-Serves :
          (h : Gateway) (id : ℕ) (ip user fresh : Bytes) (o : Option Error)
          → Serves c h
          → Serves c (logged_in h id ip user fresh o).0
      logged_in-Serves h id ip user fresh (some e) v = same-Serves c h _ refl refl refl v
      logged_in-Serves h id ip user fresh none v =
          begin_session-Serves h id ip user fresh (h.users user) v

  gateway_step-Serves :
      (c : Config) (g : Gateway) (e : Event)
      → Serves c g
      → Serving c (gateway_step matches dummy g e)
  unfolding gateway_step prepare_shutdown client_disconnected
  gateway_step-Serves c g (connects id) v = connect_new-Serves c g id (find id g.extras) v
  gateway_step-Serves c g (logs_in id ip user password t fresh) v =
      auth_user-Serves c g id ip user password t fresh v
  gateway_step-Serves c g (works id x) v = rework-Serves c g id x (find id g.extras) v
  gateway_step-Serves c g (disconnects id) v =
      Always-bind Anything (λ q. Unit {0}) (Serves c) (Serves c)
        (disconnected (record g { tracked = track id false g.tracked }) id (find id g.extras))
        (λ h. ret (forget h id))
        (disconnected-Serves c (record g { tracked = track id false g.tracked }) id
          (find id g.extras) (same-Serves c g _ refl refl refl v))
        (λ h w. same-Serves c h _ refl refl refl w)
  gateway_step-Serves c g shuts_down v = same-Serves c g _ refl refl refl v

  gateway_run-Serves :
      (c : Config) (g : Gateway) (es : List Event)
      → Serves c g
      → Serving c (gateway_run matches dummy g es)
  unfolding gateway_run
  gateway_run-Serves c g [] v = v
  gateway_run-Serves c g (e ∷ es) v =
      Always-bind Anything (λ q. Unit {0}) (Serves c) (Serves c) (gateway_step matches dummy g e)
        (λ h. gateway_run matches dummy h es) (gateway_step-Serves c g e v)
        (λ h w. gateway_run-Serves c h es w)

  -- Any login, at any time.
  abbrev pub LoginsAreConfigured : Config → Gateway → Type 0
  LoginsAreConfigured c g =
      (id : ℕ) (ip user password : Bytes) (t : LoginTimes) (fresh : Bytes)
      → Outcome c user password fresh (auth_user matches dummy g id ip user password t fresh).1

  -- A gateway that is built from a configuration, after any sequence of connections, logins, commands,
  -- disconnections and shutdowns, whatever the remote side answers: a login that succeeds gives a
  -- session of a configured user whose name was sent and whose hash matches the password, with that
  -- user's virtual root, remote root and permissions; one that fails does so as rate limited or for
  -- invalid credentials, never because the user has no runtime.
  pub build-LoginsAreConfigured :
      (c : Config) (m : Metrics) (es : List Event)
      → Always Anything
          (λ q. Unit {0})
          (LoginsAreConfigured c)
          (gateway_run matches dummy (build c m) es)
  build-LoginsAreConfigured c m es =
      Always-mono Anything (λ q. Unit {0}) (Serves c) (LoginsAreConfigured c)
        (gateway_run matches dummy (build c m) es)
        (λ g v id ip user password t fresh. auth_user-Outcome c g id ip user password t fresh v)
        (gateway_run-Serves c (build c m) es (build-Serves c m))
