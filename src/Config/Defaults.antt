-- ===== src/Config/Defaults.antt =====
-- `applyDefaults` of internal/config/load.go.
use ftp2sftp.Base.{
  ◌⊎◌, ℕ, ◌*◌, ◌^◌, List, [], ◌∷◌, ◌≡◌, Bytes, codes, map, ℤ, pos, is_zero, if◌then◌else◌,
}
use ftp2sftp.Config.{
  ServerConfig, SftpTargetConfig, UserConfig, TransferConfig, ObservabilityConfig, HealthConfig,
  Config,
}

abbrev pub default_int : ℕ → ℤ → ℤ
default_int d z = if is_zero z then pos d else z

abbrev pub default_text : Bytes → Bytes → Bytes
default_text d [] = d
default_text d (c ∷ s) = c ∷ s

abbrev pub second : ℕ
second = 10 ^ 9

unfoldable pub default_server : ServerConfig → ServerConfig
default_server s = record s {
  idle_timeout = default_int (300 * second) s.idle_timeout;
  data_connection_timeout = default_int (30 * second) s.data_connection_timeout;
  shutdown_timeout = default_int (15 * second) s.shutdown_timeout;
}

unfoldable pub default_transfer : TransferConfig → TransferConfig
default_transfer t = record t {
  buffer_size = default_int (64 * 1024) t.buffer_size;
  temporary_suffix = default_text (codes ".part") t.temporary_suffix;
}

unfoldable pub default_observability : ObservabilityConfig → ObservabilityConfig
default_observability o = record {
  log_level = default_text (codes "info") o.log_level;
  log_format = default_text (codes "json") o.log_format;
}

unfoldable pub default_health : HealthConfig → HealthConfig
default_health h = record h { listen_address = default_text (codes ":8080") h.listen_address }

unfoldable pub default_target : SftpTargetConfig → SftpTargetConfig
default_target t = record t {
  port = default_int 22 t.port;
  connect_timeout = default_int (10 * second) t.connect_timeout;
  read_dir_timeout = default_int (60 * second) t.read_dir_timeout;
}

unfoldable pub default_user : UserConfig → UserConfig
default_user u = record u {
  virtual_root = default_text (codes "/") u.virtual_root;
  sftp = default_target u.sftp;
  max_concurrent_transfers = default_int 4 u.max_concurrent_transfers;
}

-- `applyDefaults`.
unfoldable pub apply_defaults : Config → Config
apply_defaults c = record {
  server = default_server c.server;
  users = map default_user c.users;
  transfer = default_transfer c.transfer;
  observability = default_observability c.observability;
  health = default_health c.health;
}

-- A configuration without the settings that may be defaulted.
abbrev pub fixed_user : UserConfig → UserConfig
fixed_user u =
    let t = u.sftp in
    record u {
      virtual_root = [];
      sftp = record t { port = pos 0; connect_timeout = pos 0; read_dir_timeout = pos 0 };
      max_concurrent_transfers = pos 0;
    }

abbrev pub fixed_settings : Config → Config
fixed_settings c =
    let s = c.server in
    let t = c.transfer in
    let h = c.health in
    record {
      server = record s {
        idle_timeout = pos 0;
        data_connection_timeout = pos 0;
        shutdown_timeout = pos 0;
      };
      users = map fixed_user c.users;
      transfer = record t { buffer_size = pos 0; temporary_suffix = [] };
      observability = record { log_level = []; log_format = [] };
      health = record h { listen_address = [] };
    }

-- A setting stays as it is, unless it was not given: then it has the default.
abbrev pub Filled : {A : Type 0} → A → A → A → A → Type 0
Filled unset default old new = (new ≡ old) ⊎ ((old ≡ unset) × (new ≡ default))

abbrev pub FilledInt : ℕ → ℤ → ℤ → Type 0
FilledInt default = Filled (pos 0) (pos default)

abbrev pub FilledText : Bytes → Bytes → Bytes → Type 0
FilledText = Filled []

-- The user's settings, old and new.
pub record FilledUser (u v : UserConfig) : Type 0 where
  pub virtual_root : FilledText (codes "/") u.virtual_root v.virtual_root
  pub transfers : FilledInt 4 u.max_concurrent_transfers v.max_concurrent_transfers
  pub port : FilledInt 22 u.sftp.port v.sftp.port
  pub connecting : FilledInt (10 * 10 ^ 9) u.sftp.connect_timeout v.sftp.connect_timeout
  pub listing : FilledInt (60 * 10 ^ 9) u.sftp.read_dir_timeout v.sftp.read_dir_timeout

abbrev pub FilledUsers : List UserConfig → List UserConfig → Type 0
FilledUsers [] [] = Unit {0}
FilledUsers [] (v ∷ vs) = ⊥
FilledUsers (u ∷ us) [] = ⊥
FilledUsers (u ∷ us) (v ∷ vs) = FilledUser u v × FilledUsers us vs

-- All settings that have a default, old and new.
pub record FilledConfig (c d : Config) : Type 0 where
  pub idle : FilledInt (300 * 10 ^ 9) c.server.idle_timeout d.server.idle_timeout
  pub data_connection :
      FilledInt (30 * 10 ^ 9) c.server.data_connection_timeout d.server.data_connection_timeout
  pub shutdown : FilledInt (15 * 10 ^ 9) c.server.shutdown_timeout d.server.shutdown_timeout
  pub users : FilledUsers c.users d.users
  pub buffer : FilledInt (64 * 1024) c.transfer.buffer_size d.transfer.buffer_size
  pub suffix : FilledText (codes ".part") c.transfer.temporary_suffix d.transfer.temporary_suffix
  pub level : FilledText (codes "info") c.observability.log_level d.observability.log_level
  pub format : FilledText (codes "json") c.observability.log_format d.observability.log_format
  pub listener : FilledText (codes ":8080") c.health.listen_address d.health.listen_address
