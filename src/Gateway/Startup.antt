-- ===== src/Gateway/Startup.antt =====
-- How a gateway comes from its configuration: New and the target of connector in
-- internal/ftpserver/gateway.go, and what clientdriver.go reads of the configuration.
use ftp2sftp.Base.{List, [], ◌∷◌, Option, none, some, Bytes, map, eq_bytes, to_nat, if◌then◌else◌}
use ftp2sftp.Authorization.{Policy, Gate, new_gate}
use ftp2sftp.Filesystem.{new_mapper}
use ftp2sftp.Auth.Store.{UserRecord}
use ftp2sftp.Config.{UserConfig, Config}
use ftp2sftp.SshClient.{SshConfig}
use ftp2sftp.Driver.{Env}
use ftp2sftp.Metrics.{Metrics}
use ftp2sftp.Gateway.{UserRuntime, Gateway, new_gateway}

abbrev pub policy_of : UserConfig → Policy
policy_of u =
    let p = u.permissions in
    record {
      allow_upload = p.allow_upload;
      allow_download = p.allow_download;
      allow_delete = p.allow_delete;
      allow_mkdir = p.allow_mkdir;
      allow_rename = p.allow_rename;
      allow_overwrite = p.allow_overwrite;
      max_file_size = to_nat u.max_file_size;
    }

-- One user of the loop: the runtime, the gate and the record.
unfoldable pub runtime_of : UserConfig → UserRuntime
runtime_of u = record { mapper = new_mapper u.virtual_root u.sftp.root_path; policy = policy_of u }

-- A number below 0, with which `make` panics, is not valid.
unfoldable pub gate_of : UserConfig → Gate
gate_of u = new_gate (to_nat u.max_concurrent_transfers)

abbrev pub record_of : UserConfig → UserRecord
record_of u = record { username = u.username; password_hash = u.password_hash }

abbrev pub add_runtime : (Bytes → Option UserRuntime) → UserConfig → Bytes → Option UserRuntime
add_runtime users u name = if eq_bytes u.username name then some (runtime_of u) else users name

-- `users[u.Username] = …` for each user: a later one replaces an earlier one of the same name.
unfoldable pub add_runtimes :
    (Bytes → Option UserRuntime) → List UserConfig → Bytes → Option UserRuntime
add_runtimes users [] = users
add_runtimes users (u ∷ us) = add_runtimes (add_runtime users u) us

-- `New`.
unfoldable pub build : Config → Metrics → Gateway
build c m =
    new_gateway (add_runtimes (λ name. none) c.users) (map record_of c.users)
      (to_nat c.server.max_connections) m

-- The configuration of the dial in `connector`; a timeout below 0 is treated as 0 is.
unfoldable pub target_of : UserConfig → SshConfig
target_of u =
    let s = u.sftp in
    record {
      host = s.host;
      port = to_nat s.port;
      username = s.username;
      private_key_file = s.private_key_file;
      private_key_passphrase_file = s.private_key_passphrase_file;
      password = s.password;
      known_hosts_file = s.known_hosts_file;
      connect_timeout = to_nat s.connect_timeout;
    }

-- What the driver of a user's session reads.
unfoldable pub env_of : Config → UserConfig → Env
env_of c u = record {
  target = target_of u;
  root_path = u.sftp.root_path;
  read_dir_timeout = to_nat u.sftp.read_dir_timeout;
  temporary_suffix = c.transfer.temporary_suffix;
  calculate_sha256 = c.transfer.calculate_sha256;
}
