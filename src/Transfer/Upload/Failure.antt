-- ===== src/Transfer/Upload/Failure.antt =====
-- An upload handle after a failure (internal/transfer/upload.go), over the production client.
use ftp2sftp.Base.{
  ℕ, List, [], ◌∷◌, ◌++◌, Bool, true, false, ◌≡◌, refl, map, Option, none, some, All, All-append,
  Bytes, if◌then◌else◌,
}
use ftp2sftp.Errors.{Error}
use ftp2sftp.Effects.{Always, Always-bind, Always-if}
use ftp2sftp.Remote.{Io}
use ftp2sftp.SftpClient.{Client}
use ftp2sftp.SftpClient.Requests.{Anything, Within, Whatever, remove-Keeps}
use ftp2sftp.Transfer.{client_fs, Phase, Callback, completed, released}
use ftp2sftp.Transfer.Upload.{
  UploadHandle, exceeds, after_write, write, transfer_error, after_close, discard, finish, close,
  callbacks, result, UploadCall, writes, fails, closes, step, run,
}

abbrev pub ReportsFailure : Callback → Type 0
ReportsFailure (completed r) = r.phase ≡ Phase.failed_transfer
ReportsFailure released = Unit {0}

-- A failed handle with the temporary file `t`.
pub record FailedAt (t : Bytes) (u : UploadHandle) : Type 0 where
  pub temp_eq : u.temp ≡ t
  pub has_failed : u.failed ≡ true

after_write-At :
    (t : Bytes) (u : UploadHandle) (p : Bytes) (n : ℕ) (e : Option Error)
    → u.temp ≡ t
    → (after_write u p n e).temp ≡ t
unfolding after_write
after_write-At t u p n none h = h
after_write-At t u p n (some e) h = h

after_write-failed :
    (u : UploadHandle) (p : Bytes) (n : ℕ) (e : Option Error)
    → u.failed ≡ true
    → (after_write u p n e).failed ≡ true
unfolding after_write
after_write-failed u p n none h = h
after_write-failed u p n (some e) h = refl

after_close-FailedAt :
    (t : Bytes) (u : UploadHandle) (e : Option Error) → FailedAt t u → FailedAt t (after_close u e)
unfolding after_close
after_close-FailedAt t u none h = h
after_close-FailedAt t u (some e) h = record { temp_eq = h.temp_eq; has_failed = refl }

module _ (c : Client) (digest : Bytes → Bytes) (t : Bytes) where
  -- Nothing is created, truncated, moved or removed but `t`.
  abbrev OnlyTemp : {A : Type 0} → (A → Type 0) → Io A → Type 0
  OnlyTemp Post m = Always Anything (Within (λ p. Unit {0}) (λ p. p ≡ t)) Post m

  abbrev Failing : UploadHandle × List Callback → Type 0
  Failing r = FailedAt t r.0 × All ReportsFailure r.1

  write-At :
      (u : UploadHandle) (p : Bytes)
      → u.temp ≡ t
      → OnlyTemp (λ r. r.0.temp ≡ t) (write (client_fs c) u p)
  unfolding write
  write-At u p h =
      Always-if Anything _ (λ r. r.0.temp ≡ t) (exceeds u p) _ _ (λ _. h)
        (λ _. (tt, λ r i. after_write-At t u p r.0 _ h))

  write-FailedAt :
      (u : UploadHandle) (p : Bytes)
      → FailedAt t u
      → OnlyTemp (λ r. FailedAt t r.0) (write (client_fs c) u p)
  unfolding write
  write-FailedAt u p h =
      Always-if Anything _ (λ r. FailedAt t r.0) (exceeds u p) _ _
        (λ _. record { temp_eq = h.temp_eq; has_failed = refl })
        (λ _. (
          tt,
          λ r i. record {
            temp_eq = after_write-At t u p r.0 _ h.temp_eq;
            has_failed = after_write-failed u p r.0 _ h.has_failed;
          },
        ))

  reports_failure :
      (v : UploadHandle) (e : Option Error)
      → All ReportsFailure (callbacks digest v (result digest v Phase.failed_transfer e))
  unfolding callbacks result
  reports_failure v e = both v.opts.reports v.opts.releases
    where
      both :
          (a b : Bool)
          → All ReportsFailure (
              (if a then completed (result digest v Phase.failed_transfer e) ∷ [] else [])
              ++ (if b then released ∷ [] else []))
      both true true = (refl, (tt, tt))
      both true false = (refl, tt)
      both false true = (tt, tt)
      both false false = tt

  discard-Failing :
      (v : UploadHandle) (e : Option Error)
      → FailedAt t v
      → OnlyTemp (λ r. Failing (r.0, r.2)) (discard digest (client_fs c) v e)
  unfolding discard
  discard-Failing v e h =
      Always-bind Anything _ Whatever (λ r. Failing (r.0, r.2)) _ _
        (remove-Keeps (λ p. Unit {0}) (λ p. p ≡ t) c v.temp h.temp_eq)
        (λ _ _. (h, reports_failure v e))

  finish-Failing :
      (v : UploadHandle)
      → FailedAt t v
      → OnlyTemp (λ r. Failing (r.0, r.2)) (finish digest (client_fs c) v)
  unfolding finish
  finish-Failing v h =
      Always-if Anything _ (λ r. Failing (r.0, r.2)) v.failed _ _
        (λ _. discard-Failing v v.fail_err h) (λ ok. absurd (never ok))
    where
      never : v.failed ≡ false → ⊥
      never ok = let k = h.has_failed in cc

  close-Failing :
      (u : UploadHandle)
      → FailedAt t u
      → OnlyTemp (λ r. Failing (r.0, r.2)) (close digest (client_fs c) u)
  unfolding close
  close-Failing u h =
      Always-if Anything _ (λ r. Failing (r.0, r.2)) u.closed _ _ (λ _. (h, tt))
        (λ _. (tt, λ r i. finish-Failing _ (after_close-FailedAt t _ _ closed_now)))
    where
      closed_now : FailedAt t (record u { closed = true })
      closed_now = record { temp_eq = h.temp_eq; has_failed = h.has_failed }

  step-Failing :
      (u : UploadHandle) (k : UploadCall)
      → FailedAt t u
      → OnlyTemp Failing (step digest (client_fs c) u k)
  unfolding step
  step-Failing u (writes p) h =
      Always-bind Anything _ (λ r. FailedAt t r.0) Failing _ _ (write-FailedAt u p h)
        (λ r k. (k, tt))
  step-Failing u (fails e) h =
      (unfold transfer_error in record { temp_eq = h.temp_eq; has_failed = refl }, tt)
  step-Failing u closes h =
      Always-bind Anything _ (λ r. Failing (r.0, r.2)) Failing _ _ (close-Failing u h) (λ r k. k)

  -- After a failure nothing but the temporary file is touched any more, and only failures are
  -- reported, whatever calls follow and whatever the server answers.
  pub run-Failing :
      (u : UploadHandle) (ks : List UploadCall)
      → FailedAt t u
      → OnlyTemp Failing (run digest (client_fs c) u ks)
  unfolding run
  run-Failing u [] h = (h, tt)
  run-Failing u (k ∷ ks) h = Always-bind Anything _ Failing Failing _ _ (step-Failing u k h) (λ r f.
      Always-bind Anything _ Failing Failing _ _ (run-Failing r.0 ks f.0)
        (λ s g. (g.0, All-append ReportsFailure r.1 s.1 f.1 g.1)))

  -- An upload that is interrupted after any number of writes, whatever calls follow and whatever the
  -- server answers, creates, truncates, moves and removes nothing but its temporary file, and reports
  -- no commit.
  pub run_interrupted :
      (u : UploadHandle) (ps : List Bytes) (e : Error) (ks : List UploadCall)
      → u.temp ≡ t
      → OnlyTemp Failing (run digest (client_fs c) u (map writes ps ++ fails e ∷ ks))
  unfolding run step
  run_interrupted u [] e ks h =
      Always-bind Anything _ Failing Failing _ _
        (run-Failing (transfer_error u e) ks
          (unfold transfer_error in record { temp_eq = h; has_failed = refl }))
        (λ s g. g)
  run_interrupted u (p ∷ ps) e ks h =
      Always-bind Anything _ (λ r. (r.0.temp ≡ t) × All ReportsFailure r.1) Failing _ _
        (Always-bind Anything _ (λ r. r.0.temp ≡ t) (λ r. (r.0.temp ≡ t) × All ReportsFailure r.1) _
          _ (write-At u p h) (λ r k. (k, tt)))
        (λ r f.
          Always-bind Anything _ Failing Failing _ _ (run_interrupted r.0 ps e ks f.0)
            (λ s g. (g.0, All-append ReportsFailure r.1 s.1 f.1 g.1)))
