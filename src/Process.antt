-- ===== src/Process.antt =====
-- cmd/ftp2sftp/main.go and cli.go: the readiness check, the shutdown and the operator's commands.
pub mod Probe
pub mod Readiness
pub mod Connectivity
pub mod Drain
pub mod Password
use ftp2sftp.Base.{
  ℕ, ◌+◌, ◌*◌, ◌^◌, List, [], ◌∷◌, Bool, true, false, not, ◌&&◌, ◌||◌, ◌==◌, ◌⊎◌, inl, inr, Option,
  none, some, Bytes, codes, eq_bytes, if◌then◌else◌,
}
use ftp2sftp.Errors.{Error, external, Result, ok, err}
use ftp2sftp.Effects.{ret, bind}
use ftp2sftp.Remote.{Answer, done, failed, FileInfo, Op, Request, Io, ◌>>=◌, call}
use ftp2sftp.SftpClient
use ftp2sftp.SftpClient.{Client, new_client, on}
use ftp2sftp.SshClient.{SshConfig, dial}
use ftp2sftp.Config.{UserConfig, Config}
use ftp2sftp.Config.Load.{LoadError}
use ftp2sftp.Health.{Server, set_alive}
use ftp2sftp.Gateway.{Gateway, prepare_shutdown}
use ftp2sftp.Gateway.Startup.{target_of}

unfoldable pub pinged : Result Client → Io (Option Error)
pinged (err e) = ret (some e)
pinged (ok c) = do e ← SftpClient.ping c; _ ← SftpClient.close c; ret e

unfoldable pub probe_channel : Bytes → Result ℕ → Io (Option Error)
probe_channel root (err e) = ret (some e)
probe_channel root (ok ssh) = new_client ssh root >>= pinged

-- The target of a user with the probe's own timeout.
abbrev pub probe_target : UserConfig → ℕ → SshConfig
probe_target u timeout = let t = target_of u in record t { connect_timeout = timeout }

-- `probeUserSFTP`.
unfoldable pub probe_user : UserConfig → ℕ → Io (Option Error)
probe_user u timeout = dial (probe_target u timeout) >>= probe_channel u.sftp.root_path

-- Go on if there is no error.
abbrev pub or_error : Option Error → Io (Option Error) → Io (Option Error)
or_error none k = k
or_error (some e) k = ret (some e)

-- The loop of `readinessCheck`, from the `i`th user on. The error that `fmt.Errorf` gives the user's
-- name stands for its cause.
unfoldable pub readiness_from : (ℕ → Option Error) → ℕ → List UserConfig → Io (Option Error)
readiness_from expired i [] = ret none
readiness_from expired i (u ∷ us) =
    let rest = readiness_from expired (i + 1) us in
    or_error (expired i) (probe_user u (3 * 10 ^ 9) >>= λ e. or_error e rest)

-- `readinessCheck`; `expired i` is what `ctx.Err()` answers before the `i`th user.
unfoldable pub readiness_check : Config → (ℕ → Option Error) → Io (Option Error)
readiness_check c expired = readiness_from expired 0 c.users

-- `cmdConfigValidate`, after its flags: the exit code.
unfoldable pub config_validate : LoadError ⊎ Config → ℕ
config_validate (inl e) = 1
config_validate (inr c) = 0

-- `*username != "" && u.Username != *username`.
abbrev pub skipped : Bytes → UserConfig → Bool
skipped only u = not (eq_bytes only []) && not (eq_bytes u.username only)

-- The loop of `cmdConfigCheckConnectivity`: the users that were probed, with the verdicts.
unfoldable pub check_users : Bytes → ℕ → List UserConfig → Io (List (UserConfig × Option Error))
check_users only timeout [] = ret []
check_users only timeout (u ∷ us) =
    let rest = check_users only timeout us in
    if skipped only u then rest else probe_user u timeout >>= λ e. rest >>= λ rs. ret ((u, e) ∷ rs)

abbrev pub is_failure : Option Error → Bool
is_failure none = false
is_failure (some e) = true

abbrev pub any_failed : List (UserConfig × Option Error) → Bool
any_failed [] = false
any_failed ((u, e) ∷ rs) = is_failure e || any_failed rs

abbrev pub none_matched : List (UserConfig × Option Error) → Bool
none_matched [] = true
none_matched (r ∷ rs) = false

-- The exit code, given the verdicts.
unfoldable pub connectivity_code : Bytes → List (UserConfig × Option Error) → ℕ
connectivity_code only rs =
    if not (eq_bytes only []) && none_matched rs then 2 else if any_failed rs then 1 else 0

-- `cmdConfigCheckConnectivity`, after its flags.
unfoldable pub check_connectivity : LoadError ⊎ Config → Bytes → ℕ → Io ℕ
check_connectivity (inl e) only timeout = ret 1
check_connectivity (inr c) only timeout =
    check_users only timeout c.users >>= λ rs. ret (connectivity_code only rs)

-- The host that `runHealthcheck` asks.
abbrev pub local_host : Bytes → Bytes
local_host host =
    if eq_bytes host [] || eq_bytes host (codes "0.0.0.0") then codes "127.0.0.1" else host

-- `split` is `net.SplitHostPort` and `get` the status of the answer to the request for /healthz at a
-- host and port.
module _ (split : Bytes → Answer (Bytes × Bytes)) (get : Bytes → Bytes → Answer ℕ) where
  abbrev pub status_code : Answer ℕ → ℕ
  status_code (failed f) = 1
  status_code (done status) = if status == 200 then 0 else 1

  abbrev pub ask_health : Answer (Bytes × Bytes) → ℕ
  ask_health (failed f) = 1
  ask_health (done (host, port)) = status_code (get (local_host host) port)

  -- `runHealthcheck`.
  unfoldable pub run_healthcheck : LoadError ⊎ Config → ℕ
  run_healthcheck (inl e) = 1
  run_healthcheck (inr c) = ask_health (split c.health.listen_address)

-- The start of `shutdown`, which all that follows it waits for.
unfoldable pub begin_shutdown : Server × Gateway → Server × Gateway
begin_shutdown (s, g) = (set_alive false s, prepare_shutdown g)

-- `WaitForSessions`: whether it returns, for the deadline's channel open or closed.
unfoldable pub wait_for_sessions : Gateway → Bool → Bool
wait_for_sessions g expired = g.sessions == 0 || expired
