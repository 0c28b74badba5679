-- ===== src/Transfer/Upload/Sound.antt =====
-- The size bound and the accounting of bytes of an upload handle (internal/transfer/upload.go).
use ftp2sftp.Base.{
  ℕ, zero, suc, ◌+◌, ◌≤◌, List, [], ◌∷◌, Bool, true, false, ◌≡◌, ◌⊎◌, inl, inr, refl, Option, none,
  some, arith, Bytes, length, length-append, take, ltb, if◌then◌else◌, Bool-cases,
}
use ftp2sftp.Errors.{Error}
use ftp2sftp.Transfer.Upload.{
  UploadHandle, exceeds, after_write, transfer_error, after_close, hash_more, first_failure,
}

-- No limit, or not above it.
abbrev pub Fits : ℕ → ℕ → Type 0
Fits max n = (max ≡ 0) ⊎ (n ≤ max)

-- The hash has been fed as many bytes as were written.
abbrev pub Counts : Option Bytes → ℕ → Type 0
Counts none n = Unit {0}
Counts (some b) n = length b ≡ n

abbrev pub HasError : Bool → Option Error → Type 0
HasError true none = ⊥
HasError true (some e) = Unit {0}
HasError false e = Unit {0}

-- What holds of a handle between any two calls.
pub record IsSound (u : UploadHandle) : Type 0 where
  pub fits : Fits u.opts.max_size u.written
  pub counted : Counts u.hashed u.written
  pub explained : HasError u.failed u.fail_err

length-take : {A : Type 0} (n : ℕ) (xs : List A) → n ≤ length xs → length (take n xs) ≡ n
length-take zero xs h = omega arith
length-take (suc n) [] h = absurd (omega arith)
length-take (suc n) (x ∷ xs) h = omega (arith, length-take n xs)

Counts-more :
    (n w : ℕ) (p : Bytes) (b : Option Bytes)
    → n ≤ length p
    → Counts b w
    → Counts (if ltb 0 n then hash_more n p b else b) (w + n)
Counts-more n w p none h c = elim (Bool-cases (ltb 0 n)) [ inl e ↦ rw e tt | inr e ↦ rw e tt ]
Counts-more n w p (some b) h c = elim (Bool-cases (ltb 0 n)) [
  | inl e ↦ rw e (omega (arith, length-append b (take n p), length-take n p h))
  | inr e ↦ rw e (ground arith)
]

Fits-more :
    (u : UploadHandle) (p : Bytes) (n : ℕ)
    → exceeds u p ≡ false
    → n ≤ length p
    → Fits u.opts.max_size u.written
    → Fits u.opts.max_size (u.written + n)
Fits-more u p n x h f = ground arith

pub after_write-IsSound :
    (u : UploadHandle) (p : Bytes) (n : ℕ) (e : Option Error)
    → exceeds u p ≡ false
    → n ≤ length p
    → IsSound u
    → IsSound (after_write u p n e)
unfolding after_write
after_write-IsSound u p n none x h s = record {
  fits = Fits-more u p n x h s.fits;
  counted = Counts-more n u.written p u.hashed h s.counted;
  explained = s.explained;
}
after_write-IsSound u p n (some e) x h s = record {
  fits = Fits-more u p n x h s.fits;
  counted = Counts-more n u.written p u.hashed h s.counted;
  explained = tt;
}

pub after_write-same :
    (u : UploadHandle) (p : Bytes) (n : ℕ) (e : Option Error)
    → ((after_write u p n e).opts ≡ u.opts) × ((after_write u p n e).closed ≡ u.closed)
unfolding after_write
after_write-same u p n none = (refl, refl)
after_write-same u p n (some e) = (refl, refl)

pub transfer_error-IsSound :
    (u : UploadHandle) (e : Error) → IsSound u → IsSound (transfer_error u e)
unfolding transfer_error
transfer_error-IsSound u e s = record {
  fits = s.fits;
  counted = s.counted;
  explained = explained u.fail_err;
}
  where
    explained : (d : Option Error) → HasError true (first_failure d e)
    explained none = tt
    explained (some d) = tt

pub after_close-IsSound :
    (u : UploadHandle) (e : Option Error) → IsSound u → IsSound (after_close u e)
unfolding after_close
after_close-IsSound u none s = s
after_close-IsSound u (some e) s = unfold transfer_error in transfer_error-IsSound u e s
