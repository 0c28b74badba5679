-- ===== src/Config/Load.antt =====
-- `Load` of internal/config/load.go.
use ftp2sftp.Base.{List, [], subst, ◌∷◌, Bool, Bytes, ◌≡◌, ◌⊎◌, inl, inr, refl, ◌↔◌, arith}
use ftp2sftp.Errors.{Fault}
use ftp2sftp.Remote.{Answer, done, failed}
use ftp2sftp.Config.{Config}
use ftp2sftp.Config.Defaults.{apply_defaults}
use ftp2sftp.Config.Validate.{Problem, validate}
use ftp2sftp.Config.Validate.Valid.{IsValid, validate_iff}

pub data LoadError : Type 0 where
  unreadable unparsable : Fault → LoadError
  invalid : Problem → List Problem → LoadError

-- What `Validate`'s verdict makes of the configuration.
abbrev pub judged : Config → List Problem → LoadError ⊎ Config
judged c [] = inr c
judged c (p ∷ ps) = inl (invalid p ps)

-- `read` is `os.ReadFile` and `decode` is `yaml.Unmarshal`.
module _ (is_bcrypt : Bytes → Bool) (stat : Bytes → Answer Bool) where
  abbrev pub checked : Answer Config → LoadError ⊎ Config
  checked (failed f) = inl (unparsable f)
  checked (done c) = judged (apply_defaults c) (validate is_bcrypt stat (apply_defaults c))

  abbrev pub decoded : (Bytes → Answer Config) → Answer Bytes → LoadError ⊎ Config
  decoded decode (failed f) = inl (unreadable f)
  decoded decode (done raw) = checked (decode raw)

  -- `Load`.
  unfoldable pub load :
      (Bytes → Answer Bytes) → (Bytes → Answer Config) → Bytes → LoadError ⊎ Config
  load read decode path = decoded decode (read path)

  judged_iff : (c d : Config) (ps : List Problem) → (judged c ps ≡ inr d) ↔ ((ps ≡ []) × (c ≡ d))
  judged_iff c d [] = ground arith
  judged_iff c d (p ∷ ps) = ground arith

  -- The file at the path decodes to the configuration.
  abbrev pub Decodes : (Bytes → Answer Bytes) → (Bytes → Answer Config) → Bytes → Config → Type 0
  Decodes read decode path c = (raw : Bytes) × (read path ≡ done raw) × (decode raw ≡ done c)

  -- What the file holds, with its defaults.
  abbrev pub Defaulted : (Bytes → Answer Bytes) → (Bytes → Answer Config) → Bytes → Config → Type 0
  Defaulted read decode path d = (c : Config) × Decodes read decode path c × (apply_defaults c ≡ d)

  decoded_inverse :
      (decode : Bytes → Answer Config) (a : Answer Bytes) (d : Config)
      → decoded decode a ≡ inr d
      → (raw : Bytes) × (a ≡ done raw) × (checked (decode raw) ≡ inr d)
  decoded_inverse decode (failed f) d e = ground arith
  decoded_inverse decode (done raw) d e = (raw, refl, e)

  checked_inverse :
      (a : Answer Config) (d : Config)
      → checked a ≡ inr d
      → (c : Config) × (a ≡ done c) × (apply_defaults c ≡ d) × IsValid is_bcrypt stat d
  checked_inverse (failed f) d e = ground arith
  checked_inverse (done c) d e =
      let c' = apply_defaults c in
      let (v, q) = (judged_iff c' d (validate is_bcrypt stat c')).0 e in
      (c, refl, q, subst (IsValid is_bcrypt stat) q ((validate_iff is_bcrypt stat c').0 v))

  -- `Load` returns a configuration exactly when the file can be read and decoded and what it decodes
  -- to is valid once the defaults are filled in; it returns that defaulted configuration.
  pub load_iff :
      (read : Bytes → Answer Bytes) (decode : Bytes → Answer Config) (path : Bytes) (d : Config)
      → (load read decode path ≡ inr d) ↔ (Defaulted read decode path d × IsValid is_bcrypt stat d)
  unfolding load
  load_iff read decode path d = (
    λ e.
        let (raw, r, e') = decoded_inverse decode (read path) d e in
        let (c, k, q, v) = checked_inverse (decode raw) d e' in ((c, (raw, r, k), q), v),
    λ h.
        let ((c, (raw, r, k), q), v) = h in
        let none_found = (validate_iff is_bcrypt stat d).1 v in
        rw (r, k, q) ((judged_iff d d (validate is_bcrypt stat d)).1 (none_found, refl)),
  )
