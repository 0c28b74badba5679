-- ===== src/Metrics.antt =====
-- internal/observability/metrics.go: counters and gauges. A counter is an `atomic.Uint64`; a gauge is
-- an `atomic.Int64`, held as its 64-bit pattern. Both wrap around.
pub mod Text
pub mod Lines
pub mod Numbers
pub mod Reading
use ftp2sftp.Base.{ℕ, ◌+◌, ◌-◌, ◌%◌, ◌^◌, ◌<◌, ◌≡◌, arith}

abbrev pub word : ℕ
word = 2 ^ 64

-- `(*Counter).Add`, and `Inc` of both kinds.
unfoldable pub add : ℕ → ℕ → ℕ
add v n = (v + n) % word

unfoldable pub inc : ℕ → ℕ
inc v = (v + 1) % word

-- `(*Gauge).Dec`: 2^64 - 1 is the pattern of -1.
unfoldable pub dec : ℕ → ℕ
dec v = (v + (word - 1)) % word

pub record Metrics : Type 0 where
  pub ftp_connections_total : ℕ
  pub ftp_connections_active : ℕ
  pub ftp_auth_attempts_total : ℕ
  pub ftp_auth_failures_total : ℕ
  pub ftp_commands_total : ℕ
  pub ftp_session_duration_millis_sum : ℕ
  pub ftp_session_duration_count : ℕ
  pub transfer_total : ℕ
  pub transfer_active : ℕ
  pub transfer_bytes_total : ℕ
  pub transfer_failures_total : ℕ
  pub transfer_duration_millis_sum : ℕ
  pub transfer_duration_count : ℕ
  pub sftp_connections_active : ℕ
  pub sftp_connection_failures_total : ℕ
  pub sftp_operation_duration_millis_sum : ℕ
  pub sftp_operation_duration_count : ℕ
  pub temporary_files_pending : ℕ
  pub rate_limit_rejections_total : ℕ

-- `NewMetrics`.
abbrev pub new_metrics : Metrics
new_metrics = record {
  ftp_connections_total = 0;
  ftp_connections_active = 0;
  ftp_auth_attempts_total = 0;
  ftp_auth_failures_total = 0;
  ftp_commands_total = 0;
  ftp_session_duration_millis_sum = 0;
  ftp_session_duration_count = 0;
  transfer_total = 0;
  transfer_active = 0;
  transfer_bytes_total = 0;
  transfer_failures_total = 0;
  transfer_duration_millis_sum = 0;
  transfer_duration_count = 0;
  sftp_connections_active = 0;
  sftp_connection_failures_total = 0;
  sftp_operation_duration_millis_sum = 0;
  sftp_operation_duration_count = 0;
  temporary_files_pending = 0;
  rate_limit_rejections_total = 0;
}

-- A gauge that goes up and down again is where it was, and the other way round.
pub dec-inc : (v : ℕ) → v < word → (dec (inc v) ≡ v) × (inc (dec v) ≡ v)
unfolding dec inc
dec-inc v h = (omega arith, omega arith)
