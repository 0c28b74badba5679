-- ===== src/Transfer/Download/Laws.antt =====
-- Sequences of calls on a download handle (internal/transfer/download.go).
use ftp2sftp.Base.{
  ℕ, ◌+◌, List, [], ◌∷◌, Bool, true, false, ◌≡◌, refl, ap, ◌∙◌, Option, none, some, arith, All,
  All-append, Bytes, length, length-append, if◌then◌else◌, Bool-cases, inl, inr,
}
use ftp2sftp.Errors.{Error, is_eof}
use ftp2sftp.Effects.{Always, Always-bind, Always-if}
use ftp2sftp.Remote.{Io}
use ftp2sftp.SftpClient.{Client}
use ftp2sftp.SftpClient.Requests.{Anything, Within}
use ftp2sftp.Transfer.{client_fs, Phase, Callback, completed, released}
use ftp2sftp.Transfer.Upload.Sound.{Counts, HasError}
use ftp2sftp.Transfer.Upload.Reports.{
  Consistent, count_released, count_completed, count_released-append, count_completed-append,
}
use ftp2sftp.Transfer.Download.{
  DownloadOptions, DownloadHandle, hash_more, after_read, transfer_error, finish, close,
  DownloadCall, reads, seeks, fails, closes, step, run, first_failure,
}

pub record IsSound (d : DownloadHandle) : Type 0 where
  pub counted : Counts d.hashed d.bytes_read
  pub explained : HasError d.failed d.fail_err

abbrev pub spent : DownloadHandle → ℕ
spent d = if d.closed then 1 else 0

abbrev pub IsConsistent : Callback → Type 0
IsConsistent (completed r) = Consistent r.phase r.error
IsConsistent released = Unit {0}

pub record Evolves (d : DownloadHandle) (r : DownloadHandle × List Callback) : Type 0 where
  pub opts_eq : r.0.opts ≡ d.opts
  pub sound : IsSound r.0
  pub released_eq : count_released r.1 + spent d ≡ spent r.0
  pub completed_eq : count_completed r.1 + spent d ≡ spent r.0
  pub consistent : All IsConsistent r.1

Counts-more :
    (p : Bytes) (b : Option Bytes) (n : ℕ) → Counts b n → Counts (hash_more p b) (n + length p)
Counts-more p none n h = tt
Counts-more p (some b) n h = omega (arith, length-append b p, h)

quiet :
    (d e : DownloadHandle) → e.opts ≡ d.opts → e.closed ≡ d.closed → IsSound e → Evolves d (e, [])
quiet d e ho hc s = record {
  opts_eq = ho;
  sound = s;
  released_eq = rw hc (omega arith);
  completed_eq = rw hc (omega arith);
  consistent = tt;
}

after_read-Evolves :
    (d : DownloadHandle) (p : Bytes) (e : Option Error)
    → IsSound d
    → Evolves d (after_read d p e, [])
unfolding after_read
after_read-Evolves d p none s =
    quiet d _ refl refl
      (record { counted = Counts-more p d.hashed d.bytes_read s.counted; explained = s.explained })
after_read-Evolves d p (some e) s = elim (Bool-cases (is_eof e)) [
  | inl h ↦ rw h (
      quiet d _ refl refl (record {
        counted = Counts-more p d.hashed d.bytes_read s.counted;
        explained = s.explained;
      }))
  | inr h ↦ rw h (
      quiet d _ refl refl
        (record { counted = Counts-more p d.hashed d.bytes_read s.counted; explained = tt }))
]

transfer_error-Evolves :
    (d : DownloadHandle) (e : Error) → IsSound d → Evolves d (transfer_error d e, [])
unfolding transfer_error
transfer_error-Evolves d e s =
    quiet d _ refl refl (record { counted = s.counted; explained = explained d.fail_err })
  where
    explained : (x : Option Error) → HasError true (first_failure x e)
    explained none = tt
    explained (some x) = tt

finish-Consistent :
    (failed : Bool) (x e : Option Error)
    → HasError failed x
    → Consistent
        (elim e [
          | none ↦ (if failed then Phase.failed_transfer else Phase.committed)
          | some _ ↦ Phase.failed_transfer
        ])
        (if failed then x else e)
finish-Consistent true none e h = absurd h
finish-Consistent true (some x) none h = tt
finish-Consistent true (some x) (some e) h = tt
finish-Consistent false x none h = tt
finish-Consistent false x (some e) h = tt

module _ (digest : Bytes → Bytes) where
  finish-Evolves :
      (d : DownloadHandle) (e : Option Error)
      → d.opts.reports ≡ true
      → d.opts.releases ≡ true
      → d.closed ≡ false
      → IsSound d
      → let r = finish digest (record d { closed = true }) e in Evolves d (r.0, r.2)
  unfolding finish
  finish-Evolves d e hr hl hc s = record {
    opts_eq = refl;
    sound = record { counted = s.counted; explained = s.explained };
    released_eq = rw (hr, hl, hc) refl;
    completed_eq = rw (hr, hl, hc) refl;
    consistent = rw (hr, hl) (finish-Consistent d.failed d.fail_err e s.explained, (tt, tt));
  }

module _ (c : Client) (digest : Bytes → Bytes) where
  -- No request creates, truncates, moves or removes anything.
  abbrev ReadsOnly : {A : Type 0} → (A → Type 0) → Io A → Type 0
  ReadsOnly Post m = Always Anything (Within (λ p. Unit {0}) (λ p. ⊥)) Post m

  step-Evolves :
      (d : DownloadHandle) (k : DownloadCall)
      → d.opts.reports ≡ true
      → d.opts.releases ≡ true
      → IsSound d
      → ReadsOnly (Evolves d) (step digest (client_fs c) d k)
  unfolding step
  step-Evolves d (reads n) hr hl s = (tt, λ r i. after_read-Evolves d r.0 _ s)
  step-Evolves d (seeks o w) hr hl s = (tt, λ r i. quiet d d refl refl s)
  step-Evolves d (fails e) hr hl s = transfer_error-Evolves d e s
  step-Evolves d closes hr hl s =
      Always-bind Anything _ (λ r. Evolves d (r.0, r.2)) (Evolves d) (close digest (client_fs c) d)
        _
        (Always-if Anything _ (λ r. Evolves d (r.0, r.2)) d.closed _ _ (λ _. quiet d d refl refl s)
          (λ h. (tt, λ r i. finish-Evolves digest d _ hr hl h s)))
        (λ r e. e)

  -- If a sound handle has both callbacks, then over any sequence of reads, seeks, transfer errors and
  -- closes, whatever the server answers: a download changes nothing on the server, its hash has seen as
  -- many bytes as are counted, `OnComplete` and `Release` run once if the sequence closes an open handle
  -- and not at all otherwise, and a report is either a success without an error or a failure with one.
  pub download-Evolves :
      (d : DownloadHandle) (ks : List DownloadCall)
      → d.opts.reports ≡ true
      → d.opts.releases ≡ true
      → IsSound d
      → ReadsOnly (Evolves d) (run digest (client_fs c) d ks)
  unfolding run
  download-Evolves d [] hr hl s = quiet d d refl refl s
  download-Evolves d (k ∷ ks) hr hl s =
      Always-bind Anything _ (Evolves d) (Evolves d) (step digest (client_fs c) d k) _
        (step-Evolves d k hr hl s)
        (λ r e.
          Always-bind Anything _ (Evolves r.0) (Evolves d) (run digest (client_fs c) r.0 ks) _
            (download-Evolves r.0 ks (ap (λ (o : DownloadOptions). o.reports) e.opts_eq ∙ hr)
              (ap (λ (o : DownloadOptions). o.releases) e.opts_eq ∙ hl) e.sound)
            (λ t f. record {
              opts_eq = f.opts_eq ∙ e.opts_eq;
              sound = f.sound;
              released_eq =
                  omega (arith, count_released-append r.1 t.1, e.released_eq, f.released_eq);
              completed_eq =
                  omega (arith, count_completed-append r.1 t.1, e.completed_eq, f.completed_eq);
              consistent = All-append IsConsistent r.1 t.1 e.consistent f.consistent;
            }))
