-- ===== src/Process/Connectivity.antt =====
-- The exit code of `ftp2sftp config check-connectivity` (cmd/ftp2sftp/cli.go).
use ftp2sftp.Base.{
  ℕ, List, [], ◌∷◌, Bool, true, false, ◌||◌, ◌≡◌, refl, ◌∙◌, ◌⊎◌, ◌↔◌, inl, inr, Option, none, some,
  arith, Bytes, eq_bytes, eq_bytes_iff, All, ◌≢◌, ◌≤◌, Bool-cases,
}
use ftp2sftp.Errors.{Error}
use ftp2sftp.Effects.{ret, bind}
use ftp2sftp.Remote.{Request, Reply}
use ftp2sftp.Config.{UserConfig, Config}
use ftp2sftp.Config.Load.{LoadError}
use ftp2sftp.Process.{
  probe_user, skipped, check_users, is_failure, any_failed, none_matched, connectivity_code,
  check_connectivity,
}
use ftp2sftp.Process.Readiness.{result, result-bind}

-- There is a user of this name.
abbrev pub has_user : Bytes → List UserConfig → Bool
has_user only [] = false
has_user only (u ∷ us) = eq_bytes u.username only || has_user only us

module _ (env : (q : Request) → Reply q) where
  -- The user's target can be reached, if the user is asked for.
  abbrev pub Reached : Bytes → ℕ → UserConfig → Type 0
  Reached only timeout u =
      (only ≡ []) ⊎ (u.username ≡ only) → result env (probe_user u timeout) ≡ none

  skipped_iff :
      (only : Bytes) (u : UserConfig)
      → (skipped only u ≡ false) ↔ ((only ≡ []) ⊎ (u.username ≡ only))
  skipped_iff only u = ground (arith, eq_bytes_iff only [], eq_bytes_iff u.username only)

  abbrev verdicts : Bytes → ℕ → List UserConfig → List (UserConfig × Option Error)
  verdicts only timeout us = result env (check_users only timeout us)

  abbrev with_verdict :
      Bool
      → UserConfig
      → Option Error
      → List (UserConfig × Option Error)
      → List (UserConfig × Option Error)
  with_verdict true u e rs = rs
  with_verdict false u e rs = (u, e) ∷ rs

  verdicts-cons :
      (only : Bytes) (timeout : ℕ) (u : UserConfig) (us : List UserConfig) (b : Bool)
      → skipped only u ≡ b
      → verdicts only timeout (u ∷ us)
        ≡ with_verdict b u (result env (probe_user u timeout)) (verdicts only timeout us)
  unfolding check_users
  verdicts-cons only timeout u us true e = rw e refl
  verdicts-cons only timeout u us false e =
      let rest = check_users only timeout us in
      rw e (
        result-bind env (probe_user u timeout) (λ e. bind rest (λ rs. ret ((u, e) ∷ rs)))
        ∙ result-bind env rest (λ rs. ret ((u, result env (probe_user u timeout)) ∷ rs)))

  matched_iff :
      (only : Bytes) (timeout : ℕ) (us : List UserConfig)
      → only ≢ []
      → (none_matched (verdicts only timeout us) ≡ false) ↔ (has_user only us ≡ true)
  unfolding check_users
  matched_iff only timeout [] n = ground arith
  matched_iff only timeout (u ∷ us) n =
      let rs = verdicts only timeout us in
      let e = result env (probe_user u timeout) in
      elim (Bool-cases (skipped only u)) [
        | inl b ↦
            let v = verdicts-cons only timeout u us true b in
            rw v (
              ground (
                arith,
                b,
                skipped_iff only u,
                eq_bytes_iff u.username only,
                matched_iff only timeout us n,
              ))
        | inr b ↦
            let v = verdicts-cons only timeout u us false b in
            rw v (ground (arith, b, skipped_iff only u, eq_bytes_iff u.username only))
      ]

  is_failure_iff : (e : Option Error) → (is_failure e ≡ false) ↔ (e ≡ none)
  is_failure_iff none = ground arith
  is_failure_iff (some e) = ground arith

  failed_iff :
      (only : Bytes) (timeout : ℕ) (us : List UserConfig)
      → (any_failed (verdicts only timeout us) ≡ false) ↔ All (Reached only timeout) us
  unfolding check_users
  failed_iff only timeout [] = ground arith
  failed_iff only timeout (u ∷ us) = elim (Bool-cases (skipped only u)) [
    | inl b ↦
        let v = verdicts-cons only timeout u us true b in
        rw v (ground (arith, b, skipped_iff only u, failed_iff only timeout us))
    | inr b ↦
        let v = verdicts-cons only timeout u us false b in
        rw v (
          ground (
            arith,
            b,
            skipped_iff only u,
            failed_iff only timeout us,
            is_failure_iff (result env (probe_user u timeout)),
          ))
  ]

  connectivity_code_iff :
      (only : Bytes) (rs : List (UserConfig × Option Error))
      → ((connectivity_code only rs ≡ 0)
          ↔ (((only ≡ []) ⊎ (none_matched rs ≡ false)) × (any_failed rs ≡ false)))
        × ((connectivity_code only rs ≡ 2) ↔ ((only ≢ []) × (none_matched rs ≡ true)))
  unfolding connectivity_code
  connectivity_code_iff only rs = ground (arith, eq_bytes_iff only [])

  abbrev pub exit_code : LoadError ⊎ Config → Bytes → ℕ → ℕ
  exit_code loaded only timeout = result env (check_connectivity loaded only timeout)

  -- The exit code of `config check-connectivity` is 0 exactly if the user that is asked for, if any,
  -- is configured and the targets of all users asked for can be reached; it is 2 exactly if a user is
  -- asked for and none has the name; and it is 1 if the configuration does not load, and never
  -- above 2.
  pub check_connectivity_iff :
      (e : LoadError) (c : Config) (only : Bytes) (timeout : ℕ)
      → ((exit_code (inr c) only timeout ≡ 0)
          ↔ (((only ≡ []) ⊎ (has_user only c.users ≡ true)) × All (Reached only timeout) c.users))
        × ((exit_code (inr c) only timeout ≡ 2) ↔ ((only ≢ []) × (has_user only c.users ≡ false)))
        × (exit_code (inl e) only timeout ≡ 1)
        × (exit_code (inr c) only timeout ≤ 2)
  unfolding check_connectivity connectivity_code
  check_connectivity_iff e c only timeout =
      let rs = verdicts only timeout c.users in
      rw
        (result-bind env (check_users only timeout c.users) (λ rs. ret (connectivity_code only rs)))
        (ground (
          arith,
          connectivity_code_iff only rs,
          matched_iff only timeout c.users,
          failed_iff only timeout c.users,
        ))
