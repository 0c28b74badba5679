-- ===== src/Metrics/Reading.antt =====
-- Reading what WriteText of internal/observability/metrics.go writes.
use ftp2sftp.Base.{
  List, [], ◌∙◌, refl, ◌∷◌, codes, ℕ, ◌-◌, ◌<◌, [], false, ◌≡◌, refl, Bytes, String, codes,
  contains_byte, All, arith,
}
use ftp2sftp.Metrics.{Metrics, word}
use ftp2sftp.Metrics.Text.{unsigned, signed, metric, metrics, write_text}
use ftp2sftp.Metrics.Lines.{samples, IsClean, write_all-samples}
use ftp2sftp.Metrics.Numbers.{
  read_number, read_pattern, digits_line, read_number-unsigned, read_pattern-signed,
}

known :
    (name help kind : String) (value : Bytes)
    → contains_byte 10 (codes name) ≡ false
    → contains_byte 32 (codes name) ≡ false
    → contains_byte 35 (codes name) ≡ false
    → contains_byte 10 (codes help) ≡ false
    → contains_byte 10 (codes kind) ≡ false
    → contains_byte 10 value ≡ false
    → IsClean (metric name help kind value)
known name help kind value a b c d e f = record {
  name_line = a;
  name_word = b;
  name_plain = c;
  help_line = d;
  kind_line = e;
  value_line = f;
}

module _ (seconds : ℕ → Bytes) (plain : (n : ℕ) → contains_byte 10 (seconds n) ≡ false) where
  signed_line : (v : ℕ) → contains_byte 10 (signed v) ≡ false
  signed_line v = ground (arith, digits_line 20 v [] refl, digits_line 20 (word - v) [] refl)

  metrics-IsClean : (m : Metrics) → All IsClean (metrics seconds m)
  unfolding metrics
  metrics-IsClean m = (
    known "ftp_connections_total" "Total FTP control connections accepted." "counter" _ refl refl
        refl refl refl (digits_line 20 m.ftp_connections_total [] refl),
    (
      known "ftp_connections_active" "FTP control connections currently open." "gauge" _ refl refl
          refl refl refl (signed_line m.ftp_connections_active),
      (
        known "ftp_auth_attempts_total" "Total FTP authentication attempts." "counter" _ refl refl
            refl refl refl (digits_line 20 m.ftp_auth_attempts_total [] refl),
        (
          known "ftp_auth_failures_total" "Total failed FTP authentication attempts." "counter" _
              refl refl refl refl refl (digits_line 20 m.ftp_auth_failures_total [] refl),
          (
            known "ftp_commands_total" "Total FTP commands processed." "counter" _ refl refl refl
                refl refl (digits_line 20 m.ftp_commands_total [] refl),
            (
              known "ftp_sessions_duration_seconds_sum" "Sum of FTP session durations." "counter" _
                  refl refl refl refl refl (plain m.ftp_session_duration_millis_sum),
              (
                known "ftp_sessions_duration_seconds_count" "Count of completed FTP sessions."
                    "counter" _ refl refl refl refl refl
                    (digits_line 20 m.ftp_session_duration_count [] refl),
                (
                  known "transfer_total" "Total transfers attempted (STOR+RETR)." "counter" _ refl
                      refl refl refl refl (digits_line 20 m.transfer_total [] refl),
                  (
                    known "transfer_active" "Transfers currently in flight." "gauge" _ refl refl
                        refl refl refl (signed_line m.transfer_active),
                    (
                      known "transfer_bytes_total" "Total bytes transferred." "counter" _ refl refl
                          refl refl refl (digits_line 20 m.transfer_bytes_total [] refl),
                      (
                        known "transfer_duration_seconds_sum" "Sum of transfer durations." "counter"
                            _ refl refl refl refl refl (plain m.transfer_duration_millis_sum),
                        (
                          known "transfer_duration_seconds_count" "Count of completed transfers."
                              "counter" _ refl refl refl refl refl
                              (digits_line 20 m.transfer_duration_count [] refl),
                          (
                            known "transfer_failures_total" "Total failed transfers." "counter" _
                                refl refl refl refl refl
                                (digits_line 20 m.transfer_failures_total [] refl),
                            (
                              known "sftp_connections_active" "SFTP/SSH connections currently open."
                                  "gauge" _ refl refl refl refl refl
                                  (signed_line m.sftp_connections_active),
                              (
                                known "sftp_connection_failures_total"
                                    "Total failed SFTP/SSH connection attempts." "counter" _ refl
                                    refl refl refl refl
                                    (digits_line 20 m.sftp_connection_failures_total [] refl),
                                (
                                  known "sftp_operation_duration_seconds_sum"
                                      "Sum of SFTP operation durations." "counter" _ refl refl refl
                                      refl refl (plain m.sftp_operation_duration_millis_sum),
                                  (
                                    known "sftp_operation_duration_seconds_count"
                                        "Count of completed SFTP operations." "counter" _ refl refl
                                        refl refl refl
                                        (digits_line 20 m.sftp_operation_duration_count [] refl),
                                    (
                                      known "temporary_files_pending"
                                          "Temporary upload files not yet committed or cleaned up."
                                          "gauge" _ refl refl refl refl refl
                                          (signed_line m.temporary_files_pending),
                                      (
                                        known "rate_limit_rejections_total"
                                            "Total authentication attempts rejected by rate limiting."
                                            "counter" _ refl refl refl refl refl
                                            (digits_line 20 m.rate_limit_rejections_total [] refl),
                                        tt,
                                      ),
                                    ),
                                  ),
                                ),
                              ),
                            ),
                          ),
                        ),
                      ),
                    ),
                  ),
                ),
              ),
            ),
          ),
        ),
      ),
    ),
  )

  -- Every metric by its name and its counter.
  abbrev pub expected : Metrics → List (Bytes × Bytes)
  expected m =
      (codes "ftp_connections_total", unsigned m.ftp_connections_total)
      ∷ (codes "ftp_connections_active", signed m.ftp_connections_active)
      ∷ (codes "ftp_auth_attempts_total", unsigned m.ftp_auth_attempts_total)
      ∷ (codes "ftp_auth_failures_total", unsigned m.ftp_auth_failures_total)
      ∷ (codes "ftp_commands_total", unsigned m.ftp_commands_total)
      ∷ (codes "ftp_sessions_duration_seconds_sum", seconds m.ftp_session_duration_millis_sum)
      ∷ (codes "ftp_sessions_duration_seconds_count", unsigned m.ftp_session_duration_count)
      ∷ (codes "transfer_total", unsigned m.transfer_total)
      ∷ (codes "transfer_active", signed m.transfer_active)
      ∷ (codes "transfer_bytes_total", unsigned m.transfer_bytes_total)
      ∷ (codes "transfer_duration_seconds_sum", seconds m.transfer_duration_millis_sum)
      ∷ (codes "transfer_duration_seconds_count", unsigned m.transfer_duration_count)
      ∷ (codes "transfer_failures_total", unsigned m.transfer_failures_total)
      ∷ (codes "sftp_connections_active", signed m.sftp_connections_active)
      ∷ (codes "sftp_connection_failures_total", unsigned m.sftp_connection_failures_total)
      ∷ (codes "sftp_operation_duration_seconds_sum", seconds m.sftp_operation_duration_millis_sum)
      ∷ (codes "sftp_operation_duration_seconds_count", unsigned m.sftp_operation_duration_count)
      ∷ (codes "temporary_files_pending", signed m.temporary_files_pending)
      ∷ (codes "rate_limit_rejections_total", unsigned m.rate_limit_rejections_total)
      ∷ []

  -- `WriteText` in the text format of Prometheus loses nothing: a reader that takes the lines apart,
  -- skips comments and cuts a line at its first blank gets every metric once, in order, with its name
  -- and value, and the decimal text of a counter or a gauge stands for its value, a pattern of 64 bits.
  -- What `%.3f` prints has no line break.
  pub write_text-samples :
      (m : Metrics) (v : ℕ)
      → v < word
      → (samples (write_text seconds m) ≡ expected m)
        × (read_number 0 (unsigned v) ≡ v)
        × (read_pattern (signed v) ≡ v)
  unfolding write_text
  write_text-samples m v h = (
    write_all-samples (metrics seconds m) (metrics-IsClean m) ∙ unfold metrics in refl,
    read_number-unsigned v h,
    read_pattern-signed v h,
  )
