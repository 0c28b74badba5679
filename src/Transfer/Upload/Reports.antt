-- ===== src/Transfer/Upload/Reports.antt =====
-- The calls of an upload handle back into the server (internal/transfer/upload.go), counted.
use ftp2sftp.Base.{
  ℕ, suc, ◌+◌, List, [], ◌∷◌, ◌++◌, true, false, ◌≡◌, refl, sym, ap, ◌∙◌, subst, Option, none, some,
  arith, All, All-append, Bytes, if◌then◌else◌,
}
use ftp2sftp.Errors.{Error}
use ftp2sftp.Transfer.{Phase, Callback, completed, released}
use ftp2sftp.Transfer.Upload.{UploadOptions, UploadHandle, result, callbacks}
use ftp2sftp.Transfer.Upload.Sound.{Fits, IsSound}

-- Only two reports are made: a commit without an error, and a failure with one.
abbrev pub Consistent : Phase → Option Error → Type 0
Consistent Phase.committed none = Unit {0}
Consistent Phase.failed_transfer (some e) = Unit {0}
Consistent p e = ⊥

-- A report's byte count is within the limit, and its phase fits its error.
abbrev pub ReportFits : ℕ → Callback → Type 0
ReportFits max (completed r) = Fits max r.bytes × Consistent r.phase r.error
ReportFits max released = Unit {0}

abbrev pub count_released : List Callback → ℕ
count_released [] = 0
count_released (completed r ∷ cs) = count_released cs
count_released (released ∷ cs) = suc (count_released cs)

abbrev pub count_completed : List Callback → ℕ
count_completed [] = 0
count_completed (completed r ∷ cs) = suc (count_completed cs)
count_completed (released ∷ cs) = count_completed cs

-- 1 once the handle is closed.
abbrev pub spent : UploadHandle → ℕ
spent u = if u.closed then 1 else 0

-- From `u` to the handle and the calls back of `r`.
pub record Evolves (u : UploadHandle) (r : UploadHandle × List Callback) : Type 0 where
  pub opts_eq : r.0.opts ≡ u.opts
  pub sound : IsSound r.0
  pub released_eq : count_released r.1 + spent u ≡ spent r.0
  pub completed_eq : count_completed r.1 + spent u ≡ spent r.0
  pub reports_fit : All (ReportFits u.opts.max_size) r.1

-- The handle after a close, and what a close calls back.
pub record Closes (v : UploadHandle) (r : UploadHandle × Option Error × List Callback)
    : Type 0 where
  kept : r.0 ≡ v
  released_once : count_released r.2 ≡ 1
  completed_once : count_completed r.2 ≡ 1
  pub reports_fit : All (ReportFits v.opts.max_size) r.2

pub Closes-Evolves :
    (u v : UploadHandle) (r : UploadHandle × Option Error × List Callback)
    → u.closed ≡ false
    → v.closed ≡ true
    → v.opts ≡ u.opts
    → IsSound v
    → Closes v r
    → Evolves u (r.0, r.2)
Closes-Evolves u v r hu hv ho s c = record {
  opts_eq = ap (λ (t : UploadHandle). t.opts) c.kept ∙ ho;
  sound = subst IsSound (sym c.kept) s;
  released_eq = rw (hu, c.kept, hv, c.released_once) refl;
  completed_eq = rw (hu, c.kept, hv, c.completed_once) refl;
  reports_fit = subst (λ (o : UploadOptions). All (ReportFits o.max_size) r.2) ho c.reports_fit;
}

pub unchanged-Evolves : (u : UploadHandle) → IsSound u → Evolves u (u, [])
unchanged-Evolves u s = record {
  opts_eq = refl;
  sound = s;
  released_eq = omega arith;
  completed_eq = omega arith;
  reports_fit = tt;
}

pub count_released-append :
    (xs ys : List Callback) → count_released (xs ++ ys) ≡ count_released xs + count_released ys
count_released-append [] ys = omega arith
count_released-append (completed r ∷ xs) ys = count_released-append xs ys
count_released-append (released ∷ xs) ys = omega (arith, count_released-append xs ys)

pub count_completed-append :
    (xs ys : List Callback) → count_completed (xs ++ ys) ≡ count_completed xs + count_completed ys
count_completed-append [] ys = omega arith
count_completed-append (completed r ∷ xs) ys = omega (arith, count_completed-append xs ys)
count_completed-append (released ∷ xs) ys = count_completed-append xs ys

pub Evolves-trans :
    (u : UploadHandle) (r t : UploadHandle × List Callback)
    → Evolves u r
    → Evolves r.0 t
    → Evolves u (t.0, r.1 ++ t.1)
Evolves-trans u r t e f = record {
  opts_eq = f.opts_eq ∙ e.opts_eq;
  sound = f.sound;
  released_eq = omega (arith, count_released-append r.1 t.1, e.released_eq, f.released_eq);
  completed_eq = omega (arith, count_completed-append r.1 t.1, e.completed_eq, f.completed_eq);
  reports_fit =
      All-append (ReportFits u.opts.max_size) r.1 t.1 e.reports_fit
        (subst (λ (o : UploadOptions). All (ReportFits o.max_size) t.1) e.opts_eq f.reports_fit);
}

module _ (digest : Bytes → Bytes) where
  pub callbacks-Closes :
      (v : UploadHandle) (phase : Phase) (e x : Option Error)
      → v.opts.reports ≡ true
      → v.opts.releases ≡ true
      → Fits v.opts.max_size v.written
      → Consistent phase e
      → Closes v (v, x, callbacks digest v (result digest v phase e))
  unfolding callbacks result
  callbacks-Closes v phase e x hr hl hf hc = record {
    kept = refl;
    released_once = rw (hr, hl) refl;
    completed_once = rw (hr, hl) refl;
    reports_fit = rw (hr, hl) ((hf, hc), (tt, tt));
  }
