-- ===== src/Config/Validate/Valid.antt =====
-- Which configurations have no problem (internal/config/validate.go).
use ftp2sftp.Base.{
  ℕ, ◌+◌, ◌≤◌, ◌<◌, List, [], ◌∷◌, ◌++◌, Bool, true, false, ◌≡◌, ◌≢◌, ◌⊎◌, ◌↔◌, refl, Bytes, codes,
  eq_bytes_iff, has_prefix, contains, ℤ, pos, to_nat, All, arith,
}
use ftp2sftp.Remote.{Answer, done}
use ftp2sftp.GoPath.{slash, dotdot}
use ftp2sftp.Config.{
  ServerConfig, SftpTargetConfig, UserConfig, TransferConfig, ObservabilityConfig, Config,
}
use ftp2sftp.Config.Validate.{
  UserProblem, no_users, when, validate_range, validate_server, validate_transfer,
  validate_observability, validate_target, validate_account, prefixed, validate_user, mark,
  validate_users, no_user, validate,
}

abbrev pub IsPort : ℤ → Type 0
IsPort z = (n : ℕ) × (z ≡ pos n) × (1 ≤ n) × (n ≤ 65535)

-- The listener has an address, and a range of ports in order that serves every connection.
pub record ValidServer (s : ServerConfig) : Type 0 where
  pub listens : s.listen_address ≢ []
  pub control : IsPort s.control_port
  pub announces : s.passive_address ≢ []
  pub first : IsPort s.passive_port_start
  pub last : IsPort s.passive_port_end
  pub ordered : to_nat s.passive_port_start < to_nat s.passive_port_end
  pub enough :
      to_nat s.max_connections + to_nat s.passive_port_start ≤ to_nat s.passive_port_end + 1
  pub admits : 1 ≤ to_nat s.max_connections

pub record ValidTransfer (t : TransferConfig) : Type 0 where
  pub buffer : 4096 ≤ to_nat t.buffer_size
  pub suffix : t.temporary_suffix ≢ []

pub record ValidObservability (o : ObservabilityConfig) : Type 0 where
  pub format : (o.log_format ≡ codes "json") ⊎ (o.log_format ≡ codes "text")
  pub level :
      (o.log_level ≡ codes "debug")
      ⊎ ((o.log_level ≡ codes "info")
          ⊎ ((o.log_level ≡ codes "warn") ⊎ (o.log_level ≡ codes "error")))

pub append-nil_iff : {A : Type 0} (xs ys : List A) → (xs ++ ys ≡ []) ↔ ((xs ≡ []) × (ys ≡ []))
append-nil_iff [] ys = ground arith
append-nil_iff (x ∷ xs) ys = ground arith

pub when-nil_iff : {A : Type 0} (b : Bool) (p : A) → (when b p ≡ []) ↔ (b ≡ false)
when-nil_iff true p = ground arith
when-nil_iff false p = ground arith

transfer_iff : (t : TransferConfig) → (validate_transfer t ≡ []) ↔ ValidTransfer t
unfolding validate_transfer
transfer_iff t = ground arith

server_iff : (s : ServerConfig) → (validate_server s ≡ []) ↔ ValidServer s
unfolding validate_server validate_range
server_iff s = ground arith

observability_iff :
    (o : ObservabilityConfig) → (validate_observability o ≡ []) ↔ ValidObservability o
unfolding validate_observability
observability_iff o = ground (
  arith,
  eq_bytes_iff o.log_format (codes "json"),
  eq_bytes_iff o.log_format (codes "text"),
  eq_bytes_iff o.log_level (codes "debug"),
  eq_bytes_iff o.log_level (codes "info"),
  eq_bytes_iff o.log_level (codes "warn"),
  eq_bytes_iff o.log_level (codes "error"),
)

abbrev pub IsAbsolute : Bytes → Type 0
IsAbsolute p = (rest : Bytes) × (p ≡ slash ∷ rest)

IsAbsolute-iff : (p : Bytes) → (has_prefix p (slash ∷ []) ≡ true) ↔ IsAbsolute p
IsAbsolute-iff [] = ground arith
IsAbsolute-iff (c ∷ p) = ground arith

module _ (is_bcrypt : Bytes → Bool) (stat : Bytes → Answer Bool) where
  -- The path names a file that is there and is no directory.
  abbrev pub IsFile : Bytes → Type 0
  IsFile p = (p ≢ []) × (stat p ≡ done false)

  -- There is exactly one credential, a key file or a password, and the server's key is pinned.
  pub record ValidTarget (t : SftpTargetConfig) : Type 0 where
    pub host : t.host ≢ []
    pub port : IsPort t.port
    pub user : t.username ≢ []
    pub root : IsAbsolute t.root_path
    pub pinned : IsFile t.known_hosts_file
    pub credential :
        (IsFile t.private_key_file × (t.password ≡ []))
        ⊎ ((t.private_key_file ≡ []) × (t.password ≢ []))

  pub record ValidUser (u : UserConfig) : Type 0 where
    pub named : u.username ≢ []
    pub hashed : (u.password_hash ≢ []) × (is_bcrypt u.password_hash ≡ true)
    pub root : IsAbsolute u.virtual_root
    pub no_climb : contains u.virtual_root dotdot ≡ false
    pub limited : 1 ≤ to_nat u.max_file_size
    pub transfers : 1 ≤ to_nat u.max_concurrent_transfers
    pub target : ValidTarget u.sftp

  target_iff : (t : SftpTargetConfig) → (validate_target is_bcrypt stat t ≡ []) ↔ ValidTarget t
  unfolding validate_target
  target_iff t = ground (arith, IsAbsolute-iff t.root_path)

  prefixed_iff :
      (i : ℕ) (name : Bytes) (ps : List UserProblem)
      → (prefixed is_bcrypt stat i name ps ≡ []) ↔ (ps ≡ [])
  prefixed_iff i name [] = ground arith
  prefixed_iff i name (p ∷ ps) = ground arith

  user_iff : (i : ℕ) (u : UserConfig) → (validate_user is_bcrypt stat i u ≡ []) ↔ ValidUser u
  unfolding validate_user validate_account
  user_iff i u = ground (
    arith,
    target_iff u.sftp,
    IsAbsolute-iff u.virtual_root,
    prefixed_iff i u.username (validate_account is_bcrypt stat u),
  )

  -- No two users share a name.
  abbrev pub Distinct : List UserConfig → Type 0
  Distinct [] = Unit {0}
  Distinct (u ∷ us) = All (λ (w : UserConfig). u.username ≢ w.username) us × Distinct us

  abbrev Unseen : (Bytes → Bool) → List UserConfig → Type 0
  Unseen seen us = All (λ (w : UserConfig). seen w.username ≡ false) us

  Unseen-iff :
      (name : Bytes) (seen : Bytes → Bool) (us : List UserConfig)
      → Unseen (mark is_bcrypt stat name seen) us
        ↔ (All (λ (w : UserConfig). name ≢ w.username) us × Unseen seen us)
  Unseen-iff name seen [] = ground arith
  Unseen-iff name seen (u ∷ us) =
      ground (arith, Unseen-iff name seen us, eq_bytes_iff name u.username)

  users_iff :
      (seen : Bytes → Bool) (i : ℕ) (us : List UserConfig)
      → (validate_users is_bcrypt stat seen i us ≡ [])
        ↔ (All ValidUser us × (Unseen seen us × Distinct us))
  unfolding validate_users
  users_iff seen i [] = ground arith
  users_iff seen i (u ∷ us) =
      let rest = validate_users is_bcrypt stat (mark is_bcrypt stat u.username seen) (i + 1) us in
      ground (
        arith,
        user_iff i u,
        users_iff (mark is_bcrypt stat u.username seen) (i + 1) us,
        Unseen-iff u.username seen us,
        append-nil_iff (validate_user is_bcrypt stat i u) rest,
      )

  pub record IsValid (c : Config) : Type 0 where
    pub server : ValidServer c.server
    pub transfer : ValidTransfer c.transfer
    pub observability : ValidObservability c.observability
    pub populated : c.users ≢ []
    pub all_users : All ValidUser c.users
    pub distinct : Distinct c.users

  Unseen-none : (us : List UserConfig) → Unseen (λ name. false) us
  Unseen-none [] = tt
  Unseen-none (u ∷ us) = (refl, Unseen-none us)

  no_user_iff : (us : List UserConfig) → (no_user is_bcrypt stat us ≡ false) ↔ (us ≢ [])
  no_user_iff [] = ground arith
  no_user_iff (u ∷ us) = ground arith

  -- `Validate` returns nil exactly for the valid configurations: the ports are ports, the passive range
  -- is in order and serves every connection, users have distinct names, each with a hash, absolute
  -- roots, positive limits, a pinned host key and exactly one credential, and the files that they name
  -- are there.
  pub validate_iff : (c : Config) → (validate is_bcrypt stat c ≡ []) ↔ IsValid c
  unfolding validate
  validate_iff c =
      let none_seen = λ (name : Bytes). false in
      let users = validate_users is_bcrypt stat none_seen 0 c.users in
      let rest = when (no_user is_bcrypt stat c.users) no_users ++ users in
      let tail = validate_observability c.observability ++ rest in
      ground (
        arith,
        server_iff c.server,
        transfer_iff c.transfer,
        observability_iff c.observability,
        no_user_iff c.users,
        when-nil_iff (no_user is_bcrypt stat c.users) no_users,
        users_iff none_seen 0 c.users,
        Unseen-none c.users,
        append-nil_iff (validate_server c.server) (validate_transfer c.transfer ++ tail),
        append-nil_iff (validate_transfer c.transfer) tail,
        append-nil_iff (validate_observability c.observability) rest,
        append-nil_iff (when (no_user is_bcrypt stat c.users) no_users) users,
      )
