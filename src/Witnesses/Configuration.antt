-- ===== src/Witnesses/Configuration.antt =====
-- A configuration, and the gateway that is built from it.
use ftp2sftp.Base.{
  [], ◌∷◌, Bool, true, false, ◌≡◌, refl, ◌↔◌, inr, Bytes, codes, eq_bytes, pos, arith, map,
}
use ftp2sftp.Effects.{Always}
use ftp2sftp.Remote.{Answer, done}
use ftp2sftp.SftpClient.Requests.{Anything}
use ftp2sftp.Metrics.{new_metrics}
use ftp2sftp.Config.{UserConfig, Config}
use ftp2sftp.Config.Defaults.{apply_defaults, default_user}
use ftp2sftp.Config.Validate.{
  duplicate_user, validate, validate_server, validate_range, validate_transfer,
  validate_observability, validate_users, validate_user, validate_account, validate_target,
}
use ftp2sftp.Config.Validate.Valid.{IsValid, validate_iff}
use ftp2sftp.Config.Load.{load, Defaulted, load_iff}
use ftp2sftp.Gateway.Events.{gateway_run}
use ftp2sftp.Gateway.Startup.{build}
use ftp2sftp.Gateway.Logins.{LoginsAreConfigured, build-LoginsAreConfigured}
use ftp2sftp.Gateway.Served.{Confines, build-Confines}
use ftp2sftp.Witnesses.Connections.{day, same_bytes}

abbrev pub ana : UserConfig
ana = record {
  username = codes "ana";
  password_hash = codes "s3";
  virtual_root = codes "/files";
  sftp = record {
    host = codes "sftp";
    port = pos 0;
    username = codes "gw";
    private_key_file = codes "/key";
    private_key_passphrase_file = [];
    password = [];
    known_hosts_file = codes "/hosts";
    root_path = codes "/srv/data";
    connect_timeout = pos 0;
    read_dir_timeout = pos 0;
  };
  permissions = record {
    allow_upload = true;
    allow_download = true;
    allow_delete = false;
    allow_mkdir = false;
    allow_rename = false;
    allow_overwrite = false;
  };
  max_file_size = pos 1024;
  max_concurrent_transfers = pos 0;
}

-- As it is decoded, without the settings that have defaults.
abbrev pub decoded : Config
decoded = record {
  server = record {
    listen_address = codes "0.0.0.0";
    control_port = pos 2121;
    passive_address = codes "10.0.0.1";
    passive_port_start = pos 30000;
    passive_port_end = pos 30009;
    max_connections = pos 10;
    idle_timeout = pos 0;
    data_connection_timeout = pos 0;
    shutdown_timeout = pos 0;
  };
  users = ana ∷ [];
  transfer = record { buffer_size = pos 0; temporary_suffix = []; calculate_sha256 = true };
  observability = record { log_level = []; log_format = [] };
  health = record { listen_address = []; readiness_requires_sftp = true };
}

abbrev pub sample : Config
sample = apply_defaults decoded

abbrev pub is_hash : Bytes → Bool
is_hash h = eq_bytes h (codes "s3")

abbrev pub a_file : Bytes → Answer Bool
a_file p = done false

-- The sample has no problem; without defaults, or with two users of a name, there are some.
pub sample_valid : validate is_hash a_file sample ≡ []
unfolding validate validate_server validate_range validate_transfer validate_observability
    validate_users validate_user validate_account validate_target apply_defaults
    ftp2sftp.Config.Defaults.default_server ftp2sftp.Config.Defaults.default_transfer
    ftp2sftp.Config.Defaults.default_observability ftp2sftp.Config.Defaults.default_health
    ftp2sftp.Config.Defaults.default_user ftp2sftp.Config.Defaults.default_target
sample_valid = refl

twice_ana :
    validate is_hash a_file (record sample { users = map default_user (ana ∷ ana ∷ []) })
    ≡ duplicate_user 1 (codes "ana") ∷ []
unfolding validate validate_server validate_range validate_transfer validate_observability
    validate_users validate_user validate_account validate_target apply_defaults
    ftp2sftp.Config.Defaults.default_server ftp2sftp.Config.Defaults.default_transfer
    ftp2sftp.Config.Defaults.default_observability ftp2sftp.Config.Defaults.default_health
    ftp2sftp.Config.Defaults.default_user ftp2sftp.Config.Defaults.default_target
twice_ana = refl

validate_iff_example : (validate is_hash a_file sample ≡ []) ↔ IsValid is_hash a_file sample
validate_iff_example = validate_iff is_hash a_file sample

load_iff_example :
    (load is_hash a_file (λ path. done []) (λ raw. done decoded) (codes "/c") ≡ inr sample) ↔ (
      Defaulted is_hash a_file (λ path. done []) (λ raw. done decoded) (codes "/c") sample
      × IsValid is_hash a_file sample)
load_iff_example =
    load_iff is_hash a_file (λ path. done []) (λ raw. done decoded) (codes "/c") sample

build-LoginsAreConfigured_example :
    Always Anything
      (λ q. Unit {0})
      (LoginsAreConfigured same_bytes (codes "x") sample)
      (gateway_run same_bytes (codes "x") (build sample new_metrics) day)
build-LoginsAreConfigured_example =
    build-LoginsAreConfigured same_bytes (codes "x") sample new_metrics day

build-Confines_example :
    Always Anything
      (λ q. Unit {0})
      (Confines same_bytes (codes "x") sample)
      (gateway_run same_bytes (codes "x") (build sample new_metrics) day)
unfolding apply_defaults ftp2sftp.Config.Defaults.default_transfer
build-Confines_example = build-Confines same_bytes (codes "x") sample new_metrics day (ground arith)
