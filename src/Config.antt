-- ===== src/Config.antt =====
-- internal/config/types.go: the configuration as it is decoded. Durations are in nanoseconds.
pub mod Defaults
pub mod Validate
pub mod Load
use ftp2sftp.Base.{List, Bool, Bytes, ℤ}

pub record ServerConfig : Type 0 where
  pub listen_address : Bytes
  pub control_port : ℤ
  pub passive_address : Bytes
  pub passive_port_start : ℤ
  pub passive_port_end : ℤ
  pub max_connections : ℤ
  pub idle_timeout : ℤ
  pub data_connection_timeout : ℤ
  pub shutdown_timeout : ℤ

pub record PermissionsConfig : Type 0 where
  pub allow_upload : Bool
  pub allow_download : Bool
  pub allow_delete : Bool
  pub allow_mkdir : Bool
  pub allow_rename : Bool
  pub allow_overwrite : Bool

pub record SftpTargetConfig : Type 0 where
  pub host : Bytes
  pub port : ℤ
  pub username : Bytes
  pub private_key_file : Bytes
  pub private_key_passphrase_file : Bytes
  pub password : Bytes
  pub known_hosts_file : Bytes
  pub root_path : Bytes
  pub connect_timeout : ℤ
  pub read_dir_timeout : ℤ

pub record UserConfig : Type 0 where
  pub username : Bytes
  pub password_hash : Bytes
  pub virtual_root : Bytes
  pub sftp : SftpTargetConfig
  pub permissions : PermissionsConfig
  pub max_file_size : ℤ
  pub max_concurrent_transfers : ℤ

pub record TransferConfig : Type 0 where
  pub buffer_size : ℤ
  pub temporary_suffix : Bytes
  pub calculate_sha256 : Bool

pub record ObservabilityConfig : Type 0 where
  pub log_level : Bytes
  pub log_format : Bytes

pub record HealthConfig : Type 0 where
  pub listen_address : Bytes
  pub readiness_requires_sftp : Bool

pub record Config : Type 0 where
  pub server : ServerConfig
  pub users : List UserConfig
  pub transfer : TransferConfig
  pub observability : ObservabilityConfig
  pub health : HealthConfig
