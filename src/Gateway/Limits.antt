-- ===== src/Gateway/Limits.antt =====
-- What a configuration that Load accepts means for the gateway that New builds from it
-- (internal/config with internal/ftpserver/gateway.go).
use ftp2sftp.Base.{ℕ, ◌≤◌, Bool, Bytes}
use ftp2sftp.Remote.{Answer}
use ftp2sftp.Config.{UserConfig, Config}
use ftp2sftp.Gateway.Startup.{policy_of, gate_of, target_of}

-- The user can transfer something, to a port that there is.
pub record IsUsable (u : UserConfig) : Type 0 where
  pub slots : 1 ≤ (gate_of u).max
  pub size : 1 ≤ (policy_of u).max_file_size
  pub port_least : 1 ≤ (target_of u).port
  pub port_most : (target_of u).port ≤ 65535

module _ (is_bcrypt : Bytes → Bool) (stat : Bytes → Answer Bool) where
  -- Between 1 and 65535.
  abbrev pub IsLimit : ℕ → Type 0
  IsLimit n = (1 ≤ n) × (n ≤ 65535)
