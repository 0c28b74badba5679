-- ===== src/Config/Validate.antt =====
-- internal/config/validate.go: the problems of a configuration. A problem stands for its text.
pub mod Valid
use ftp2sftp.Base.{
  ℕ, ◌+◌, ◌-◌, List, [], ◌∷◌, ◌++◌, Bool, true, false, not, ◌&&◌, ◌||◌, Bytes, codes, eq_bytes,
  has_prefix, contains, ℤ, pos, negsuc, ltb_ℤ, leb_ℤ, to_nat, if◌then◌else◌,
}
use ftp2sftp.Errors.{Fault}
use ftp2sftp.Remote.{Answer, done, failed}
use ftp2sftp.GoPath.{slash, dotdot}
use ftp2sftp.Config.{
  ServerConfig, SftpTargetConfig, UserConfig, TransferConfig, ObservabilityConfig, Config,
}

pub data UserProblem : Type 0 where
  no_password_hash bad_password_hash relative_virtual_root climbing_virtual_root : UserProblem
  no_max_file_size no_max_concurrent_transfers : UserProblem
  no_host bad_port no_sftp_username relative_root_path : UserProblem
  no_known_hosts known_hosts_is_directory : UserProblem
  known_hosts_inaccessible private_key_inaccessible : Fault → UserProblem
  private_key_is_directory no_credential two_credentials : UserProblem

pub data Problem : Type 0 where
  no_listen_address bad_control_port no_passive_address : Problem
  bad_passive_port_start bad_passive_port_end empty_passive_range : Problem
  short_passive_range : ℤ → ℤ → Problem
  no_max_connections small_buffer no_temporary_suffix : Problem
  bad_log_format bad_log_level : Bytes → Problem
  no_users : Problem
  duplicate_user : ℕ → Bytes → Problem
  no_username : ℕ → Problem
  of_user : ℕ → Bytes → UserProblem → Problem

abbrev pub when : {A : Type 0} → Bool → A → List A
when b p = if b then p ∷ [] else []

abbrev pub is_empty : Bytes → Bool
is_empty [] = true
is_empty (c ∷ s) = false

-- `p < 1 || p > 65535`.
abbrev pub bad_range : ℤ → Bool
bad_range p = ltb_ℤ p (pos 1) || ltb_ℤ (pos 65535) p

-- `PassivePortEnd - PassivePortStart + 1`, of two positive ports in order.
abbrev pub range_size : ℤ → ℤ → ℤ
range_size first last = pos (to_nat last - to_nat first + 1)

unfoldable pub validate_range : ServerConfig → List Problem
validate_range s =
    if ltb_ℤ (pos 0) s.passive_port_start && ltb_ℤ (pos 0) s.passive_port_end
    then if leb_ℤ s.passive_port_end s.passive_port_start
      then empty_passive_range ∷ []
      else when (ltb_ℤ (range_size s.passive_port_start s.passive_port_end) s.max_connections) (
          short_passive_range (range_size s.passive_port_start s.passive_port_end)
            s.max_connections)
    else []

-- `validateServer`.
unfoldable pub validate_server : ServerConfig → List Problem
validate_server s =
    when (is_empty s.listen_address) no_listen_address
    ++ (when (bad_range s.control_port) bad_control_port
        ++ (when (is_empty s.passive_address) no_passive_address
            ++ (when (bad_range s.passive_port_start) bad_passive_port_start
                ++ (when (bad_range s.passive_port_end) bad_passive_port_end
                    ++ (validate_range s
                        ++ when (ltb_ℤ s.max_connections (pos 1)) no_max_connections)))))

-- `validateTransfer`.
unfoldable pub validate_transfer : TransferConfig → List Problem
validate_transfer t =
    when (ltb_ℤ t.buffer_size (pos 4096)) small_buffer
    ++ when (is_empty t.temporary_suffix) no_temporary_suffix

abbrev pub known_format : Bytes → Bool
known_format s = eq_bytes s (codes "json") || eq_bytes s (codes "text")

abbrev pub known_level : Bytes → Bool
known_level s =
    eq_bytes s (codes "debug")
    || (eq_bytes s (codes "info") || (eq_bytes s (codes "warn") || eq_bytes s (codes "error")))

-- `validateObservability`.
unfoldable pub validate_observability : ObservabilityConfig → List Problem
validate_observability o =
    when (not (known_format o.log_format)) (bad_log_format o.log_format)
    ++ when (not (known_level o.log_level)) (bad_log_level o.log_level)

-- `is_bcrypt` is whether `bcrypt.Cost` accepts a hash; `stat` is what `os.Stat` answers for a path:
-- whether it is a directory, or an error.
module _ (is_bcrypt : Bytes → Bool) (stat : Bytes → Answer Bool) where
  abbrev pub file_problems : (Fault → UserProblem) → UserProblem → Answer Bool → List UserProblem
  file_problems inaccessible directory (failed f) = inaccessible f ∷ []
  file_problems inaccessible directory (done is_dir) = when is_dir directory

  abbrev pub validate_known_hosts : Bytes → List UserProblem
  validate_known_hosts [] = no_known_hosts ∷ []
  validate_known_hosts (c ∷ path) =
      file_problems known_hosts_inaccessible known_hosts_is_directory (stat (c ∷ path))

  abbrev pub validate_credentials : Bytes → Bytes → List UserProblem
  validate_credentials [] [] = no_credential ∷ []
  validate_credentials [] (c ∷ password) = []
  validate_credentials (c ∷ key) [] =
      file_problems private_key_inaccessible private_key_is_directory (stat (c ∷ key))
  validate_credentials (c ∷ key) (d ∷ password) = two_credentials ∷ []

  -- `validateSFTPTarget`.
  unfoldable pub validate_target : SftpTargetConfig → List UserProblem
  validate_target s =
      when (is_empty s.host) no_host
      ++ (when (bad_range s.port) bad_port
          ++ (when (is_empty s.username) no_sftp_username
              ++ (when (not (has_prefix s.root_path (slash ∷ []))) relative_root_path
                  ++ (validate_known_hosts s.known_hosts_file
                      ++ validate_credentials s.private_key_file s.password))))

  abbrev pub validate_hash : Bytes → List UserProblem
  validate_hash [] = no_password_hash ∷ []
  validate_hash (c ∷ hash) = when (not (is_bcrypt (c ∷ hash))) bad_password_hash

  -- What `validateUser` finds under the user's prefix.
  unfoldable pub validate_account : UserConfig → List UserProblem
  validate_account u =
      validate_hash u.password_hash
      ++ (when (not (has_prefix u.virtual_root (slash ∷ []))) relative_virtual_root
          ++ (when (contains u.virtual_root dotdot) climbing_virtual_root
              ++ (when (leb_ℤ u.max_file_size (pos 0)) no_max_file_size
                  ++ (when (leb_ℤ u.max_concurrent_transfers (pos 0)) no_max_concurrent_transfers
                      ++ validate_target u.sftp))))

  abbrev pub prefixed : ℕ → Bytes → List UserProblem → List Problem
  prefixed i name [] = []
  prefixed i name (p ∷ ps) = of_user i name p ∷ prefixed i name ps

  -- `validateUser`.
  unfoldable pub validate_user : ℕ → UserConfig → List Problem
  validate_user i u =
      when (is_empty u.username) (no_username i) ++ prefixed i u.username (validate_account u)

  abbrev pub mark : Bytes → (Bytes → Bool) → Bytes → Bool
  mark name seen k = if eq_bytes name k then true else seen k

  -- The loop over the users, from the `i`th on.
  unfoldable pub validate_users : (Bytes → Bool) → ℕ → List UserConfig → List Problem
  validate_users seen i [] = []
  validate_users seen i (u ∷ us) =
      when (seen u.username) (duplicate_user i u.username)
      ++ (validate_user i u ++ validate_users (mark u.username seen) (i + 1) us)

  abbrev pub no_user : List UserConfig → Bool
  no_user [] = true
  no_user (u ∷ us) = false

  -- `Validate`: the problems that its error lists, none of them if it returns nil.
  unfoldable pub validate : Config → List Problem
  validate c =
      validate_server c.server
      ++ (validate_transfer c.transfer
          ++ (validate_observability c.observability
              ++ (when (no_user c.users) no_users ++ validate_users (λ name. false) 0 c.users)))
