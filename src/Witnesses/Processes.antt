-- ===== src/Witnesses/Processes.antt =====
-- The process: its log, its checks, its shutdown and the connections of a session.
use ftp2sftp.Base.{
  ℕ, ◌+◌, ◌^◌, ◌≤◌, [], ◌∷◌, ◌++◌, true, false, ◌≡◌, ◌≢◌, refl, ◌↔◌, ◌⊎◌, inl, inr, Bytes, codes,
  arith, Option, none, some, All, map,
}
use ftp2sftp.Errors.{Error, Fault}
use ftp2sftp.Effects.{Always}
use ftp2sftp.Remote.{done, FileInfo, Op, Request, OpReply, Reply, connected}
use ftp2sftp.SftpClient.Requests.{Anything}
use ftp2sftp.Config.Load.{unreadable}
use ftp2sftp.Health.{Server, new_server, set_alive, handle_healthz, handle_readyz}
use ftp2sftp.Process.{probe_user, readiness_check, begin_shutdown}
use ftp2sftp.Process.Readiness.{result, AllReachable, handle_readyz_iff}
use ftp2sftp.Process.Connectivity.{has_user, Reached, exit_code, check_connectivity_iff}
use ftp2sftp.Process.Drain.{Drained, begin_shutdown-Drained}
use ftp2sftp.Logging.{
  handle, redact_if_sensitive, trim_space, strip, first_space, last_space, equal_fold,
}
use ftp2sftp.Logging.Redaction.{IsDiscreet, pass_line, traced, handle-IsDiscreet}
use ftp2sftp.Session.{new_session}
use ftp2sftp.Driver.Protocol.{stats}
use ftp2sftp.Gateway.{client_connected, shutting_down_error}
use ftp2sftp.Gateway.Events.{disconnects, gateway_run}
use ftp2sftp.Gateway.Connections.{remove}
use ftp2sftp.Resources.{nothing, Holds}
use ftp2sftp.Resources.Dialling.{Unchanged, probe_user-Unchanged}
use ftp2sftp.Resources.Life.{life, life-Restored}
use ftp2sftp.Identifiers.{hex, new_correlation_id}
use ftp2sftp.Identifiers.Unique.{fallback_id_injective}
use ftp2sftp.Witnesses.Commands.{env, world}
use ftp2sftp.Witnesses.Connections.{fresh_gateway, logged_once, earlier, same_bytes}
use ftp2sftp.Witnesses.Configuration.{ana, sample}

-- An environment where everything succeeds.
abbrev entry : FileInfo
entry = record { name = codes "a"; is_symlink = false; size = 1 }

abbrev op_reply : (o : Op) → OpReply o
op_reply (Op.stat p) = done entry
op_reply (Op.lstat p) = done entry
op_reply (Op.read_link p) = done p
op_reply (Op.read_dir p t) = done []
op_reply (Op.open_file p m) = done 3
op_reply (Op.posix_rename a b) = none
op_reply (Op.rename a b) = none
op_reply (Op.remove p) = none
op_reply (Op.remove_directory p) = none
op_reply (Op.mkdir p) = none
op_reply Op.has_posix_rename = true
op_reply Op.close_client = none
op_reply (Op.file_read f n) = ([], none)
op_reply (Op.file_write f p) = (0, none)
op_reply (Op.file_seek f o w) = done o
op_reply (Op.file_close f) = none

abbrev pub reachable : (q : Request) → Reply q
reachable (Request.sftp c o) = op_reply o
reachable (Request.new_sftp s) = done 2
reachable (Request.close_ssh s) = none
reachable (Request.load_known_hosts p) = none
reachable (Request.read_file p) = done p
reachable (Request.parse_key b) = done 5
reachable (Request.parse_key_with b p) = done 5
reachable (Request.dial_tcp h p t) = done 1
reachable (Request.handshake c u a t) = connected 1
reachable (Request.close_tcp c) = none

abbrev in_time : ℕ → Option Error
in_time i = none

abbrev health_server : Server
health_server = set_alive true (new_server true (some (readiness_check sample in_time)))

handle_readyz_iff_example : ((result reachable (handle_readyz health_server)).status ≡ 200) ↔ (
    (health_server.alive ≡ true)
    × ((health_server.readiness_requires_check ≡ false)
        ⊎ AllReachable reachable in_time 0 sample.users))
unfolding set_alive
handle_readyz_iff_example = handle_readyz_iff reachable sample in_time health_server refl

abbrev missing : Fault
missing = record {
  is_eof = false;
  is_deadline = false;
  is_not_exist = true;
  is_permission = false;
  times_out = false;
  text = "no such file";
}

check_connectivity_iff_example :
    ((exit_code reachable (inr sample) (codes "ana") 10 ≡ 0) ↔ (
      ((codes "ana" ≡ []) ⊎ (has_user (codes "ana") sample.users ≡ true))
      × All (Reached reachable (codes "ana") 10) sample.users))
    × ((exit_code reachable (inr sample) (codes "ana") 10 ≡ 2)
        ↔ ((codes "ana" ≢ []) × (has_user (codes "ana") sample.users ≡ false)))
    × (exit_code reachable (inl (unreadable missing)) (codes "ana") 10 ≡ 1)
    × (exit_code reachable (inr sample) (codes "ana") 10 ≤ 2)
check_connectivity_iff_example =
    check_connectivity_iff reachable (unreadable missing) sample (codes "ana") 10

begin_shutdown-Drained_example :
    let (s', g') = begin_shutdown (health_server, logged_once) in
    ((handle_healthz s').status ≡ 503)
    × ((id : ℕ) → (client_connected g' id).1 ≡ some shutting_down_error)
    × Always Anything
        (λ q. Unit {0})
        (Drained same_bytes (codes "x"))
        (gateway_run same_bytes (codes "x") g' (map disconnects (1 ∷ [])))
unfolding remove
begin_shutdown-Drained_example =
    begin_shutdown-Drained same_bytes (codes "x") health_server logged_once (1 ∷ []) refl refl

abbrev received : Bytes
received = codes "Received line"

handle-IsDiscreet_example :
    (v : Bytes) × IsDiscreet v
    × (handle (traced 0 received [] (pass_line [] (codes "pass") (codes "hunter2")) [])
        ≡ handle (traced 0 received [] v []))
handle-IsDiscreet_example =
    handle-IsDiscreet 0 received [] [] (codes "pass") (codes "hunter2") [] (inl refl) tt refl

probe_user-Unchanged_example : Holds (Unchanged nothing) nothing (probe_user ana 3)
probe_user-Unchanged_example = probe_user-Unchanged nothing ana 3

life-Restored_example :
    Holds
      (λ h k.
        (k ≡ nothing) × (h.metrics.sftp_connections_active ≡ world.metrics.sftp_connections_active))
      nothing
      (life env
        (stats (codes "/files/a") ∷ [])
        world
        fresh_gateway
        1
        (record { admitted = true; sess = some earlier }))
unfolding new_session
life-Restored_example =
    life-Restored nothing env (stats (codes "/files/a") ∷ []) world fresh_gateway 1
      (record { admitted = true; sess = some earlier }) (omega arith) refl refl

abbrev moment : ℕ
moment = 16 ^ 15 + 1

abbrev attempt : ℕ
attempt = 7

fallback_id_injective_example : (moment ≡ moment) × (attempt ≡ attempt)
fallback_id_injective_example =
    fallback_id_injective moment moment attempt attempt (omega arith) (omega arith) (omega arith)
      (omega arith) (omega arith) (omega arith) refl

abbrev abc : Bytes
abc = new_correlation_id none 4096 10

fallback_text : abc ≡ codes "f1000a"
unfolding new_correlation_id ftp2sftp.Identifiers.fallback_id ftp2sftp.Identifiers.hex_digits
fallback_text = refl

-- A blank cuts the command off, a tab does not.
blank_and_tab :
    (redact_if_sensitive (codes "pass s3") ≡ codes "PASS ***REDACTED***")
    × (redact_if_sensitive (codes "PASS" ++ 9 ∷ codes "s3") ≡ codes "PASS" ++ 9 ∷ codes "s3")
unfolding redact_if_sensitive trim_space strip first_space last_space equal_fold
blank_and_tab = (refl, refl)
