-- ===== src/Transfer/Upload/Invariant.antt =====
-- Sequences of calls on an upload handle (internal/transfer/upload.go), over any remote side.
use ftp2sftp.Base.{
  ℕ, ◌≤◌, List, [], ◌∷◌, true, false, ◌≡◌, refl, ap, ◌∙◌, subst, Option, none, some, arith, Bytes,
  length,
}
use ftp2sftp.Errors.{Error}
use ftp2sftp.Effects.{Always, Always-bind, Always-if, Always-mono, Always-trivial}
use ftp2sftp.Remote.{Request, Reply, Io}
use ftp2sftp.Transfer.{RemoteFs, Phase}
use ftp2sftp.Transfer.Upload.{
  UploadOptions, UploadHandle, exceeds, after_write, write, transfer_error, after_close, discard,
  settle, finish, close, UploadCall, writes, fails, closes, step, run,
}
use ftp2sftp.Transfer.Upload.Sound.{
  Fits, HasError, IsSound, after_close-IsSound, after_write-IsSound, after_write-same,
  transfer_error-IsSound,
}
use ftp2sftp.Transfer.Upload.Reports.{
  Closes, Closes-Evolves, Evolves, Evolves-trans, callbacks-Closes, unchanged-Evolves,
}

module _ (Rely : (q : Request) → Reply q → Type 0) (fs : RemoteFs)
    (contract : (f : ℕ) (p : Bytes)
      → Always Rely (λ q. Unit {0}) (λ r. r.0 ≤ length p) (fs.file_write f p))
    (digest : Bytes → Bytes) where
  abbrev Holds : {A : Type 0} → (A → Type 0) → Io A → Type 0
  Holds Post m = Always Rely (λ q. Unit {0}) Post m

  trivially : {A : Type 0} (m : Io A) → Holds (λ a. Unit {0}) m
  trivially m = Always-trivial Rely (λ q. Unit {0}) m (λ q. tt)

  discard-Closes :
      (v : UploadHandle) (e : Option Error)
      → v.opts.reports ≡ true
      → v.opts.releases ≡ true
      → Fits v.opts.max_size v.written
      → HasError true e
      → Holds (Closes v) (discard digest fs v e)
  unfolding discard
  discard-Closes v none hr hl hf he = absurd he
  discard-Closes v (some e) hr hl hf he =
      Always-bind Rely _ (λ _. Unit {0}) (Closes v) (fs.remove v.temp) _
        (trivially (fs.remove v.temp))
        (λ _ _. callbacks-Closes digest v Phase.failed_transfer (some e) (some e) hr hl hf tt)

  settle-Closes :
      (v : UploadHandle) (e : Option Error)
      → v.opts.reports ≡ true
      → v.opts.releases ≡ true
      → Fits v.opts.max_size v.written
      → Holds (Closes v) (settle digest fs v e)
  unfolding settle
  settle-Closes v none hr hl hf = callbacks-Closes digest v Phase.committed none none hr hl hf tt
  settle-Closes v (some e) hr hl hf = discard-Closes v (some e) hr hl hf tt

  finish-Closes :
      (v : UploadHandle)
      → v.opts.reports ≡ true
      → v.opts.releases ≡ true
      → IsSound v
      → Holds (Closes v) (finish digest fs v)
  unfolding finish
  finish-Closes v hr hl s =
      Always-if Rely _ (Closes v) v.failed _ _
        (λ h. discard-Closes v v.fail_err hr hl s.fits (has_error h))
        (λ h.
          Always-bind Rely _ (λ _. Unit {0}) (Closes v) (fs.commit v.temp v.final v.opts.overwrite)
            _ (trivially (fs.commit v.temp v.final v.opts.overwrite))
            (λ e _. settle-Closes v e hr hl s.fits))
    where
      has_error : v.failed ≡ true → HasError true v.fail_err
      has_error h = subst (λ b. HasError b v.fail_err) h s.explained

  after_close-same :
      (u : UploadHandle) (e : Option Error)
      → ((after_close u e).opts ≡ u.opts) × ((after_close u e).closed ≡ u.closed)
  unfolding after_close
  after_close-same u none = (refl, refl)
  after_close-same u (some e) = (refl, refl)

  closed-IsSound : (u : UploadHandle) → IsSound u → IsSound (record u { closed = true })
  closed-IsSound u s = record { fits = s.fits; counted = s.counted; explained = s.explained }

  close-Evolves :
      (u : UploadHandle)
      → u.opts.reports ≡ true
      → u.opts.releases ≡ true
      → IsSound u
      → Holds (λ r. Evolves u (r.0, r.2)) (close digest fs u)
  unfolding close
  close-Evolves u hr hl s =
      Always-if Rely _ (λ r. Evolves u (r.0, r.2)) u.closed _ _ (λ h. unchanged-Evolves u s)
        (λ h.
          Always-bind Rely _ (λ _. Unit {0}) (λ r. Evolves u (r.0, r.2)) (fs.file_close u.file) _
            (trivially (fs.file_close u.file)) (λ e _. closing h e))
    where
      closing :
          u.closed ≡ false
          → (e : Option Error)
          → Holds
              (λ r. Evolves u (r.0, r.2))
              (finish digest fs (after_close (record u { closed = true }) e))
      closing h e =
          let v = after_close (record u { closed = true }) e in
          let same = after_close-same (record u { closed = true }) e in
          let sv = after_close-IsSound (record u { closed = true }) e (closed-IsSound u s) in
          Always-mono Rely _ (Closes v) (λ r. Evolves u (r.0, r.2)) (finish digest fs v)
            (λ r c. Closes-Evolves u v r h same.1 same.0 sv c)
            (finish-Closes v (ap (λ (o : UploadOptions). o.reports) same.0 ∙ hr)
              (ap (λ (o : UploadOptions). o.releases) same.0 ∙ hl) sv)

  write-Evolves :
      (u : UploadHandle) (p : Bytes) → IsSound u → Holds (λ r. Evolves u (r.0, [])) (write fs u p)
  unfolding write
  write-Evolves u p s =
      Always-if Rely _ (λ r. Evolves u (r.0, [])) (exceeds u p) _ _
        (λ h. record {
          opts_eq = refl;
          sound = record { fits = s.fits; counted = s.counted; explained = tt };
          released_eq = omega arith;
          completed_eq = omega arith;
          reports_fit = tt;
        })
        (λ h.
          Always-bind Rely _ (λ r. r.0 ≤ length p) (λ r. Evolves u (r.0, []))
            (fs.file_write u.file p) _ (contract u.file p) (λ r n. wrote h r n))
    where
      wrote :
          exceeds u p ≡ false
          → (r : ℕ × Option Error) → r.0 ≤ length p
          → Evolves u (after_write u p r.0 r.1, [])
      wrote h r n =
          let same = after_write-same u p r.0 r.1 in
          record {
            opts_eq = same.0;
            sound = after_write-IsSound u p r.0 r.1 h n s;
            released_eq = rw same.1 (omega arith);
            completed_eq = rw same.1 (omega arith);
            reports_fit = tt;
          }

  step-Evolves :
      (u : UploadHandle) (c : UploadCall)
      → u.opts.reports ≡ true
      → u.opts.releases ≡ true
      → IsSound u
      → Holds (Evolves u) (step digest fs u c)
  unfolding step
  step-Evolves u (writes p) hr hl s =
      Always-bind Rely _ (λ r. Evolves u (r.0, [])) (Evolves u) (write fs u p) _
        (write-Evolves u p s) (λ r e. e)
  step-Evolves u (fails e) hr hl s = record {
    opts_eq = unfold transfer_error in refl;
    sound = transfer_error-IsSound u e s;
    released_eq = unfold transfer_error in omega arith;
    completed_eq = unfold transfer_error in omega arith;
    reports_fit = tt;
  }
  step-Evolves u closes hr hl s =
      Always-bind Rely _ (λ r. Evolves u (r.0, r.2)) (Evolves u) (close digest fs u) _
        (close-Evolves u hr hl s) (λ r e. e)

  -- If a write of the remote file takes no more bytes than it is given, and a sound handle has both
  -- callbacks, then over any sequence of writes, transfer errors and closes, whatever the remote side
  -- answers: the bytes taken stay within the limit, the hash has seen as many bytes as are counted,
  -- `OnComplete` and `Release` run once if the sequence closes an open handle and not at all otherwise,
  -- and each report is within the limit and either a commit without an error or a failure with one.
  pub run-Evolves :
      (u : UploadHandle) (cs : List UploadCall)
      → u.opts.reports ≡ true
      → u.opts.releases ≡ true
      → IsSound u
      → Holds (Evolves u) (run digest fs u cs)
  unfolding run
  run-Evolves u [] hr hl s = unchanged-Evolves u s
  run-Evolves u (c ∷ cs) hr hl s =
      Always-bind Rely _ (Evolves u) (Evolves u) (step digest fs u c) _ (step-Evolves u c hr hl s)
        (λ r e.
          Always-bind Rely _ (Evolves r.0) (Evolves u) (run digest fs r.0 cs) _
            (run-Evolves r.0 cs (ap (λ (o : UploadOptions). o.reports) e.opts_eq ∙ hr)
              (ap (λ (o : UploadOptions). o.releases) e.opts_eq ∙ hl) e.sound)
            (λ t f. Evolves-trans u r t e f))
