-- ===== src/Witnesses/Systems.antt =====
-- The gateway with its sessions.
use ftp2sftp.Base.{◌-◌, List, [], ◌∷◌, ◌≡◌, refl, codes, arith}
use ftp2sftp.Authorization.{new_gate}
use ftp2sftp.Metrics.{Metrics, word, new_metrics}
use ftp2sftp.Metrics.Text.{unsigned, signed, metrics, write_text}
use ftp2sftp.Metrics.Lines.{samples}
use ftp2sftp.Metrics.Numbers.{read_number, read_pattern, digits_line}
use ftp2sftp.Metrics.Reading.{expected, write_text-samples}
use ftp2sftp.Driver.Protocol.{stats}
use ftp2sftp.Gateway.{new_gateway}
use ftp2sftp.Gateway.Startup.{build}
use ftp2sftp.Resources.{nothing, Holds}
use ftp2sftp.System.{
  System, Action, connects, logs_in, requests, disconnects, shuts_down, system_run,
}
use ftp2sftp.System.Counts.{InSystem}
use ftp2sftp.System.Gauge.{system_run-InSystem}
use ftp2sftp.Witnesses.{session_id}
use ftp2sftp.Witnesses.Commands.{env}
use ftp2sftp.Witnesses.Connections.{same_bytes, login_times}
use ftp2sftp.Witnesses.Configuration.{sample}

abbrev start : System
start = record { gateway = build sample new_metrics; gates = λ name. new_gate 4; log = [] }

abbrev visit : List Action
visit =
    connects 1
    ∷ logs_in 1 (codes "::1") (codes "ana") (codes "s3") login_times session_id
    ∷ requests 1 (stats (codes "/files/a"))
    ∷ disconnects 1
    ∷ shuts_down
    ∷ []

system_run-InSystem_example :
    Holds InSystem nothing (system_run same_bytes (codes "x") (λ name. env) start visit)
unfolding build new_gateway
system_run-InSystem_example =
    system_run-InSystem same_bytes (codes "x") (λ name. env) start visit nothing
      (record { gauge = omega arith; among = omega arith; each = λ x. omega arith; all_open = tt })

abbrev busy : Metrics
busy = record new_metrics { transfer_total = 12; temporary_files_pending = word - 1 }

write_text-samples_example :
    (samples (write_text unsigned busy) ≡ expected unsigned (λ n. digits_line 20 n [] refl) busy)
    × (read_number 0 (unsigned 12) ≡ 12)
    × (read_pattern (signed 12) ≡ 12)
write_text-samples_example =
    write_text-samples unsigned (λ n. digits_line 20 n [] refl) busy 12 (omega arith)

below_zero : signed (word - 1) ≡ codes "-1"
unfolding ftp2sftp.Metrics.Text.digits
below_zero = refl
