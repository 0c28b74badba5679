-- ===== src/Metrics/Text.antt =====
-- `WriteText` of internal/observability/metrics.go.
use ftp2sftp.Base.{
  ℕ, zero, suc, ◌+◌, ◌-◌, ◌/◌, ◌%◌, ◌^◌, List, [], ◌∷◌, ◌++◌, Bytes, String, codes, ltb,
  if◌then◌else◌,
}
use ftp2sftp.Metrics.{Metrics, word}

-- One metric of the table.
pub record Metric : Type 0 where
  pub name : Bytes
  pub help : Bytes
  pub kind : Bytes
  pub value : Bytes

-- The digits of `%d`, before `acc`; at most as many as the first argument says.
unfoldable pub digits : ℕ → ℕ → Bytes → Bytes
digits zero n acc = acc
digits (suc k) n acc =
    let more = digits k (n / 10) ((48 + n % 10) ∷ acc) in if ltb n 10 then (48 + n) ∷ acc else more

-- `u`: 20 digits are enough for 64 bits.
abbrev pub unsigned : ℕ → Bytes
unsigned v = digits 20 v []

-- `i`, of the 64-bit pattern of a gauge.
abbrev pub signed : ℕ → Bytes
signed v = if ltb v (2 ^ 63) then unsigned v else 45 ∷ unsigned (word - v)

abbrev pub metric : String → String → String → Bytes → Metric
metric name help kind value = record {
  name = codes name;
  help = codes help;
  kind = codes kind;
  value = value;
}

-- What `fmt.Fprintf` writes of a metric.
unfoldable pub write_metric : Metric → Bytes
write_metric l =
    (codes "# HELP " ++ l.name ++ 32 ∷ l.help)
    ++ 10
      ∷ ((codes "# TYPE " ++ l.name ++ 32 ∷ l.kind) ++ 10 ∷ ((l.name ++ 32 ∷ l.value) ++ 10 ∷ []))

abbrev pub write_all : List Metric → Bytes
write_all [] = []
write_all (l ∷ ls) = write_metric l ++ write_all ls

-- `seconds` is `millisToSeconds`: the standard library's `%.3f` of a floating-point number.
module _ (seconds : ℕ → Bytes) where
  unfoldable pub metrics : Metrics → List Metric
  metrics m =
      metric "ftp_connections_total" "Total FTP control connections accepted." "counter"
        (unsigned m.ftp_connections_total)
      ∷ metric "ftp_connections_active" "FTP control connections currently open." "gauge"
          (signed m.ftp_connections_active)
      ∷ metric "ftp_auth_attempts_total" "Total FTP authentication attempts." "counter"
          (unsigned m.ftp_auth_attempts_total)
      ∷ metric "ftp_auth_failures_total" "Total failed FTP authentication attempts." "counter"
          (unsigned m.ftp_auth_failures_total)
      ∷ metric "ftp_commands_total" "Total FTP commands processed." "counter"
          (unsigned m.ftp_commands_total)
      ∷ metric "ftp_sessions_duration_seconds_sum" "Sum of FTP session durations." "counter"
          (seconds m.ftp_session_duration_millis_sum)
      ∷ metric "ftp_sessions_duration_seconds_count" "Count of completed FTP sessions." "counter"
          (unsigned m.ftp_session_duration_count)
      ∷ metric "transfer_total" "Total transfers attempted (STOR+RETR)." "counter"
          (unsigned m.transfer_total)
      ∷ metric "transfer_active" "Transfers currently in flight." "gauge" (signed m.transfer_active)
      ∷ metric "transfer_bytes_total" "Total bytes transferred." "counter"
          (unsigned m.transfer_bytes_total)
      ∷ metric "transfer_duration_seconds_sum" "Sum of transfer durations." "counter"
          (seconds m.transfer_duration_millis_sum)
      ∷ metric "transfer_duration_seconds_count" "Count of completed transfers." "counter"
          (unsigned m.transfer_duration_count)
      ∷ metric "transfer_failures_total" "Total failed transfers." "counter"
          (unsigned m.transfer_failures_total)
      ∷ metric "sftp_connections_active" "SFTP/SSH connections currently open." "gauge"
          (signed m.sftp_connections_active)
      ∷ metric "sftp_connection_failures_total" "Total failed SFTP/SSH connection attempts."
          "counter" (unsigned m.sftp_connection_failures_total)
      ∷ metric "sftp_operation_duration_seconds_sum" "Sum of SFTP operation durations." "counter"
          (seconds m.sftp_operation_duration_millis_sum)
      ∷ metric "sftp_operation_duration_seconds_count" "Count of completed SFTP operations."
          "counter" (unsigned m.sftp_operation_duration_count)
      ∷ metric "temporary_files_pending" "Temporary upload files not yet committed or cleaned up."
          "gauge" (signed m.temporary_files_pending)
      ∷ metric "rate_limit_rejections_total"
          "Total authentication attempts rejected by rate limiting." "counter"
          (unsigned m.rate_limit_rejections_total)
      ∷ []

  -- `WriteText`, to a writer that takes everything.
  unfoldable pub write_text : Metrics → Bytes
  write_text m = write_all (metrics m)
