-- ===== src/Auth/Limiter.antt =====
-- internal/auth/limiter.go: failures per key in a sliding window, with a growing lockout. A time is a
-- number of nanoseconds, 0 the zero time; each reading of the clock is an argument.
pub mod Sweep
pub mod Lockout
use ftp2sftp.Base.{
  ℕ, zero, suc, ◌+◌, ◌-◌, ◌*◌, ◌%◌, ◌^◌, List, [], ◌∷◌, Bool, true, false, not, ◌&&◌, ◌||◌, ◌≡◌,
  refl, Option, none, some, Bytes, eq_bytes, ltb, leb, ◌==◌, if◌then◌else◌,
}

pub record AttemptState : Type 0 where
  pub failures : ℕ
  pub window_start : ℕ
  pub locked_until : ℕ
  pub last_activity : ℕ

-- The map of attempts by key.
abbrev pub Attempts : Type 0
Attempts = Bytes → Option AttemptState

pub record Limiter : Type 0 where
  pub state : Attempts
  pub max_failures : ℕ
  pub window : ℕ
  pub lockout : ℕ
  pub calls : ℕ

-- `NewLimiter`.
unfoldable pub new_limiter : ℕ → ℕ → ℕ → Limiter
new_limiter max_failures window lockout = record {
  state = λ k. none;
  max_failures = max_failures;
  window = window;
  lockout = lockout;
  calls = 0;
}

-- `l.state[key] = s`, or a deletion.
abbrev pub update : Attempts → Bytes → Option AttemptState → Attempts
update m key o k = if eq_bytes key k then o else m k

-- The readings of the clock in one call of `Allow`: for the cutoff, at each entry that the sweep
-- visits, and for the decision.
pub record Readings : Type 0 where
  pub swept_at : ℕ
  pub seen_at : Bytes → ℕ
  pub now : ℕ

-- `l.window + l.lockout*32`.
abbrev pub retention : Limiter → ℕ
retention l = l.window + l.lockout * 32

-- `s.lastActivity.Before(cutoff) && time.Now().After(s.lockedUntil)`.
abbrev pub is_stale : Limiter → ℕ → ℕ → AttemptState → Bool
is_stale l swept_at seen s = ltb (s.last_activity + retention l) swept_at && ltb s.locked_until seen

abbrev pub retain : Limiter → ℕ → ℕ → Option AttemptState → Option AttemptState
retain l swept_at seen none = none
retain l swept_at seen (some s) = if is_stale l swept_at seen s then none else some s

abbrev pub sweep : Limiter → Readings → Attempts
sweep l t k = retain l t.swept_at (t.seen_at k) (l.state k)

-- `sweepOccasionally`: every 256th call.
unfoldable pub sweep_occasionally : Limiter → Readings → Limiter
sweep_occasionally l t =
    let calls = (l.calls + 1) % 2 ^ 64 in
    record l { state = if calls % 256 == 0 then sweep l t else l.state; calls = calls }

-- The decision of `Allow` on an entry.
abbrev pub is_open : ℕ → Option AttemptState → Bool
is_open now none = true
is_open now (some s) = not (not (s.locked_until == 0) && ltb now s.locked_until)

-- `Allow`.
unfoldable pub allow : Limiter → Bytes → Readings → Limiter × Bool
allow l key t = let l' = sweep_occasionally l t in (l', is_open t.now (l'.state key))

abbrev pub fresh_attempts : ℕ → AttemptState
fresh_attempts now = record {
  failures = 0;
  window_start = now;
  locked_until = 0;
  last_activity = 0;
}

-- The entry that a failure is counted in: a new one, if there is none or its window has passed.
abbrev pub current : Limiter → ℕ → Option AttemptState → AttemptState
current l now none = fresh_attempts now
current l now (some s) = if ltb l.window (now - s.window_start) then fresh_attempts now else s

-- The lockout's multiple: one more for each failure beyond the threshold, 32 at most.
abbrev pub multiplier : Limiter → ℕ → ℕ
multiplier l failures = let m = failures - l.max_failures + 1 in if ltb 32 m then 32 else m

abbrev pub count_failure : Limiter → ℕ → AttemptState → AttemptState
count_failure l now s =
    let failures = s.failures + 1 in
    record s {
      failures = failures;
      last_activity = now;
      locked_until =
          if leb l.max_failures failures
          then now + l.lockout * multiplier l failures
          else s.locked_until;
    }

-- `RecordFailure`.
unfoldable pub record_failure : Limiter → Bytes → ℕ → Limiter
record_failure l key now = record l {
  state = update l.state key (some (count_failure l now (current l now (l.state key))));
}

-- `RecordSuccess`.
unfoldable pub record_success : Limiter → Bytes → Limiter
record_success l key = record l { state = update l.state key none }
