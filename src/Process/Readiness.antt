-- ===== src/Process/Readiness.antt =====
-- When the gateway is ready: handleReadyz of internal/health/server.go with the readiness check of
-- cmd/ftp2sftp/main.go.
use ftp2sftp.Base.{
  ℕ, ◌+◌, ◌*◌, ◌^◌, List, [], ◌∷◌, true, false, ◌≡◌, refl, ◌⊎◌, ◌↔◌, Option, none, some, arith,
}
use ftp2sftp.Errors.{Error}
use ftp2sftp.Effects.{ret, ask, bind, run}
use ftp2sftp.Remote.{Request, Reply, Io}
use ftp2sftp.Config.{UserConfig, Config}
use ftp2sftp.Health.{Server, handle_readyz, readiness, checked}
use ftp2sftp.Process.{probe_user, or_error, readiness_from, readiness_check}

module _ (env : (q : Request) → Reply q) where
  -- The result of a program in an environment.
  abbrev pub result : {A : Type 0} → Io A → A
  result m = (run env m).0

  pub result-bind :
      {A B : Type 0} (m : Io A) (f : A → Io B) → result (bind m f) ≡ result (f (result m))
  result-bind (ret a) f = refl
  result-bind (ask q k) f = result-bind (k (env q)) f

  result-or_error :
      (e : Option Error) (k : Io (Option Error))
      → (result (or_error e k) ≡ none) ↔ ((e ≡ none) × (result k ≡ none))
  result-or_error none k = ground arith
  result-or_error (some e) k = ground arith

  -- Each user's target answers a probe of three seconds, which begins before the time is up.
  abbrev pub AllReachable : (ℕ → Option Error) → ℕ → List UserConfig → Type 0
  AllReachable expired i [] = Unit {0}
  AllReachable expired i (u ∷ us) =
      (expired i ≡ none)
      × (result (probe_user u (3 * 10 ^ 9)) ≡ none)
      × AllReachable expired (i + 1) us

  readiness_from_iff :
      (expired : ℕ → Option Error) (i : ℕ) (us : List UserConfig)
      → (result (readiness_from expired i us) ≡ none) ↔ AllReachable expired i us
  unfolding readiness_from
  readiness_from_iff expired i [] = ground arith
  readiness_from_iff expired i (u ∷ us) =
      let probe = probe_user u (3 * 10 ^ 9) in
      let rest = readiness_from expired (i + 1) us in
      ground (
        arith,
        result-or_error (expired i) (bind probe (λ e. or_error e rest)),
        result-bind probe (λ e. or_error e rest),
        result-or_error (result probe) rest,
        readiness_from_iff expired (i + 1) us,
      )

  result-checked :
      (check : Io (Option Error)) → (result (checked (some check))) ≡ readiness (result check)
  result-checked check = result-bind check (λ e. ret (readiness e))

  readiness_status : (e : Option Error) → ((readiness e).status ≡ 200) ↔ (e ≡ none)
  readiness_status none = ground arith
  readiness_status (some e) = ground arith

  -- The server answers /readyz with 200 exactly if it is alive and either the configuration does not
  -- ask for the check or, user by user, the time is not up when the probe of the user's target begins
  -- and the probe succeeds. How long the last probe takes does not matter.
  pub handle_readyz_iff :
      (c : Config) (expired : ℕ → Option Error) (s : Server)
      → s.check ≡ some (readiness_check c expired)
      → ((result (handle_readyz s)).status ≡ 200) ↔ (
          (s.alive ≡ true)
          × ((s.readiness_requires_check ≡ false) ⊎ AllReachable expired 0 c.users))
  unfolding handle_readyz readiness_check
  handle_readyz_iff c expired s e =
      let check = readiness_check c expired in
      rw e (
        ground (
          arith,
          result-checked check,
          readiness_status (result check),
          readiness_from_iff expired 0 c.users,
        ))
