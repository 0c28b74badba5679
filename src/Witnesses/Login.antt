-- ===== src/Witnesses/Login.antt =====
-- The limiter, the authenticator, the gate, errors and gauges.
use ftp2sftp.Base.{
  ◌-◌, eq_bytes_iff, some, ℕ, ◌+◌, ◌*◌, ◌≤◌, List, [], ◌∷◌, Bool, true, false, not, ◌&&◌, ◌≡◌, ◌↔◌,
  refl, none, Bytes, codes, arith, length, ltb, leb, eq_bytes,
}
use ftp2sftp.Errors.{Kind, Error, new, wrap, annotated, is, kind_of, error_text}
use ftp2sftp.Errors.Laws.{HasKind, is_iff, error_text-wrap}
use ftp2sftp.Auth.Limiter.{Limiter, Readings, new_limiter, is_open, multiplier, allow}
use ftp2sftp.Auth.Limiter.Sweep.{
  Call, allows, fails, succeeds, answers, ideal_answers, Monotone, answers-ideal_answers,
}
use ftp2sftp.Auth.Limiter.Lockout.{fail_all, last_time, is_open-fail_all, at_most}
use ftp2sftp.Auth.Store.{UserRecord, new_store, lookup}
use ftp2sftp.Auth.Authenticator.{Authenticator, LoginTimes, authenticate}
use ftp2sftp.Remote.{Answer, done}
use ftp2sftp.Process.Password.{Input, asked, hash_password}
use ftp2sftp.Process.Password.Login.{IsHashed, hash_password_iff}
use ftp2sftp.Auth.Authenticator.Laws.{accepts, authenticate_iff, authenticate-uniform}
use ftp2sftp.Authorization.{new_gate}
use ftp2sftp.Authorization.Laws.{GateCall, gate_run, acquired, releases_of, gate_run_lem}
use ftp2sftp.Metrics.{inc, dec, dec-inc}

abbrev ana : Bytes
ana = codes "ana"

abbrev bob : Bytes
bob = codes "bob"

abbrev read_at : ℕ → Readings
read_at t = record { swept_at = t; seen_at = λ k. t; now = t }

abbrev history : List Call
history = fails ana 10 ∷ fails ana 12 ∷ allows ana (read_at 13) ∷ allows bob (read_at 14) ∷ []

answers-ideal_answers_example :
    answers (new_limiter 2 60 5) history ≡ ideal_answers (new_limiter 2 60 5) history
answers-ideal_answers_example = answers-ideal_answers 2 60 5 history (
  omega arith,
  (
    omega arith,
    (
      omega arith,
      (
        (λ k. (omega arith, omega arith)),
        (omega arith, (omega arith, ((λ k. (omega arith, omega arith)), (omega arith, tt)))),
      ),
    ),
  ),
)

history-answers : answers (new_limiter 2 60 5) history ≡ false ∷ true ∷ []
unfolding answers ftp2sftp.Auth.Limiter.Sweep.step allow ftp2sftp.Auth.Limiter.sweep_occasionally
    ftp2sftp.Auth.Limiter.record_failure new_limiter
history-answers = refl

abbrev more : List ℕ
more = 12 ∷ []

is_open-fail_all_example :
    is_open 14 ((fail_all (new_limiter 2 60 5) ana (10 ∷ more)).state ana)
    ≡ not (
        leb (new_limiter 2 60 5).max_failures (length (10 ∷ more))
        && ltb 14 (
            last_time 10 more
            + (new_limiter 2 60 5).lockout
              * at_most 32 (length (10 ∷ more) + 1 - (new_limiter 2 60 5).max_failures)))
unfolding new_limiter
is_open-fail_all_example =
    is_open-fail_all (new_limiter 2 60 5) ana 10 more 14 refl (omega arith, tt)

abbrev same_text : Bytes → Bytes → Bool
same_text hash password = eq_bytes hash password

abbrev with_users : List UserRecord → Authenticator
with_users rs = record {
  store = new_store rs;
  by_ip = new_limiter 2 60 5;
  by_user = new_limiter 2 60 5;
}

abbrev known : Authenticator
known = with_users (record { username = ana; password_hash = codes "s3" } ∷ [])

abbrev unknown : Authenticator
unknown = with_users []

abbrev at_once : LoginTimes
at_once = record {
  ip_check = read_at 20;
  user_check = read_at 20;
  ip_record = 20;
  user_record = 20;
}

authenticate_iff_example :
    ((authenticate same_text (codes "x") known (codes "::1") ana (codes "s3") at_once).1 ≡ none)
    ↔ ((allow known.by_ip (codes "::1") at_once.ip_check).1 ≡ true)
      × ((allow known.by_user ana at_once.user_check).1 ≡ true)
      × (accepts same_text (codes "x") (lookup known.store ana) (codes "s3") ≡ true)
authenticate_iff_example =
    authenticate_iff same_text (codes "x") known (codes "::1") ana (codes "s3") at_once

login : (authenticate same_text (codes "x") known (codes "::1") ana (codes "s3") at_once).1 ≡ none
unfolding authenticate allow ftp2sftp.Auth.Limiter.sweep_occasionally new_limiter new_store
login = refl

-- The operator types "s3" twice; the hash holds the password itself.
abbrev as_it_is : Bytes → Answer Bytes
as_it_is password = done password

as_it_is-same : (p h : Bytes) → as_it_is p ≡ done h → same_text h p ≡ true
as_it_is-same p h e = ground (arith, e, eq_bytes_iff h p)

abbrev typed_twice : Input
typed_twice = asked (done (codes "s3")) (done (codes "s3"))

hash_password_iff_example : (hash_password as_it_is typed_twice ≡ (0, some (codes "s3"))) ↔ (
    (c : ℕ) × (p : Bytes) × IsHashed as_it_is typed_twice (codes "s3") c p
    × ((authenticate same_text (codes "x") known (codes "::1") ana (c ∷ p) at_once).1 ≡ none))
unfolding allow ftp2sftp.Auth.Limiter.sweep_occasionally new_limiter new_store
hash_password_iff_example =
    hash_password_iff as_it_is same_text as_it_is-same (codes "x") typed_twice known (codes "::1")
      ana at_once (record { username = ana; password_hash = codes "s3" }) refl refl refl

authenticate-uniform_example :
    ((authenticate same_text (codes "x") known (codes "::1") ana (codes "no") at_once).1
      ≡ (authenticate same_text (codes "x") unknown (codes "::1") ana (codes "no") at_once).1)
    × ((authenticate same_text (codes "x") known (codes "::1") ana (codes "no") at_once).0.by_ip
        ≡ (authenticate same_text
            (codes "x")
            unknown
            (codes "::1")
            ana
            (codes "no")
            at_once).0.by_ip)
    × ((authenticate same_text (codes "x") known (codes "::1") ana (codes "no") at_once).0.by_user
        ≡ (authenticate same_text
            (codes "x")
            unknown
            (codes "::1")
            ana
            (codes "no")
            at_once).0.by_user)
unfolding new_store
authenticate-uniform_example =
    authenticate-uniform same_text (codes "x") known unknown (codes "::1") ana (codes "no") at_once
      refl refl refl refl

abbrev calls : List GateCall
calls = GateCall.acquires ∷ GateCall.acquires ∷ GateCall.acquires ∷ GateCall.releases ∷ []

gate_run_lem_example :
    ((gate_run (new_gate 2) calls).in_use ≤ 2)
    × (acquired (new_gate 2) calls ≤ (gate_run (new_gate 2) calls).in_use + releases_of calls)
    × ((gate_run (new_gate 2) calls).in_use ≤ acquired (new_gate 2) calls)
gate_run_lem_example = gate_run_lem 2 calls

abbrev cause : Error
cause = new Kind.timeout "sftp.Write" "deadline"

is_iff_example :
    (is (annotated "close" cause) Kind.timeout ≡ true)
    ↔ HasKind (annotated "close" cause) Kind.timeout
is_iff_example = is_iff (annotated "close" cause) Kind.timeout

error_text-wrap_example :
    (error_text (wrap Kind.internal "sftp.Stat" "error" cause)
      ≡ error_text (new Kind.internal "sftp.Stat" "error"))
    × (kind_of (annotated "stat" (wrap Kind.internal "sftp.Stat" "error" cause)) ≡ Kind.internal)
error_text-wrap_example = error_text-wrap Kind.internal "sftp.Stat" "error" "stat" cause

dec-inc_example : (dec (inc 3) ≡ 3) × (inc (dec 3) ≡ 3)
dec-inc_example = dec-inc 3 (ground arith)
