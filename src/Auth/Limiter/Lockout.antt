-- ===== src/Auth/Limiter/Lockout.antt =====
-- The lockout of a key (RecordFailure and Allow of internal/auth/limiter.go).
use ftp2sftp.Base.{
  Bool-cases, ◌-◌, if◌then◌else◌, inl, inr, true, ℕ, ◌+◌, ◌*◌, ◌≤◌, List, [], ◌∷◌, not, ◌&&◌, ◌≡◌,
  ◌≢◌, refl, ap, ◌∙◌, none, some, Bytes, arith, All, length, eq_bytes_iff, eq_bytes_refl, ltb, leb,
  if◌then◌else◌,
}
use ftp2sftp.Auth.Limiter.{
  AttemptState, Limiter, is_open, current, count_failure, multiplier, record_failure,
}

-- Failures of one key, one after the other.
unfoldable pub fail_all : Limiter → Bytes → List ℕ → Limiter
fail_all l key [] = l
fail_all l key (t ∷ ts) = fail_all (record_failure l key t) key ts

-- The time of the last failure.
abbrev pub last_time : ℕ → List ℕ → ℕ
last_time t [] = t
last_time t (u ∷ ts) = last_time u ts

-- The entry after `n` failures from `first` on, the last of them at `last`.
abbrev entry : Limiter → ℕ → ℕ → ℕ → AttemptState
entry l first last n = record {
  failures = n;
  window_start = first;
  locked_until = if leb l.max_failures n then last + l.lockout * multiplier l n else 0;
  last_activity = last;
}

count_failure-entry :
    (l : Limiter) (first last u n : ℕ)
    → u ≤ first + l.window
    → count_failure l u (current l u (some (entry l first last n))) ≡ entry l first u (n + 1)
count_failure-entry l first last u n h = ground arith

record_failure-entry :
    (l : Limiter) (key : Bytes) (first last u n : ℕ)
    → u ≤ first + l.window
    → l.state key ≡ some (entry l first last n)
    → (record_failure l key u).state key ≡ some (entry l first u (n + 1))
unfolding record_failure
record_failure-entry l key first last u n h e =
    rw (eq_bytes_refl key, e) (ap some (count_failure-entry l first last u n h))

record_failure-first :
    (l : Limiter) (key : Bytes) (u : ℕ)
    → l.state key ≡ none
    → (record_failure l key u).state key ≡ some (entry l u u 1)
unfolding record_failure
record_failure-first l key u e = rw (eq_bytes_refl key, e) (ap some (ground arith))

record_failure-config :
    (l : Limiter) (key : Bytes) (u : ℕ)
    → ((record_failure l key u).max_failures ≡ l.max_failures)
      × ((record_failure l key u).window ≡ l.window)
      × ((record_failure l key u).lockout ≡ l.lockout)
unfolding record_failure
record_failure-config l key u = (refl, refl, refl)

fail_all-entry :
    (l : Limiter) (key : Bytes) (first last n : ℕ) (ts : List ℕ)
    → All (λ u. u ≤ first + l.window) ts
    → l.state key ≡ some (entry l first last n)
    → (fail_all l key ts).state key ≡ some (entry l first (last_time last ts) (n + length ts))
unfolding fail_all record_failure
fail_all-entry l key first last n [] h e =
    e ∙ ap (λ (k : ℕ). some (entry l first last k)) (omega arith)
fail_all-entry l key first last n (u ∷ ts) h e =
    fail_all-entry (record_failure l key u) key first u (n + 1) ts h.1
      (record_failure-entry l key first last u n h.0 e)
    ∙ ap (λ (k : ℕ). some (entry l first (last_time u ts) k)) (omega arith)

is_open-entry :
    (l : Limiter) (first last n now : ℕ)
    → is_open now (some (entry l first last n))
      ≡ not (leb l.max_failures n && ltb now (last + l.lockout * multiplier l n))
is_open-entry l first last n now = ground arith

-- The smaller of the two.
abbrev pub at_most : ℕ → ℕ → ℕ
at_most m n = if leb m n then m else n

times_locked :
    (l : Limiter) (n now last : ℕ)
    → not (leb l.max_failures n && ltb now (last + l.lockout * multiplier l n))
      ≡ not
          (leb l.max_failures n && ltb now (last + l.lockout * at_most 32 (n + 1 - l.max_failures)))
times_locked l n now last = elim (Bool-cases (leb l.max_failures n)) [
  | inl b ↦ rw (b, multiplied l n b) refl
  | inr b ↦ rw b refl
]
  where
    multiplied :
        (l : Limiter) (n : ℕ)
        → leb l.max_failures n ≡ true
        → multiplier l n ≡ at_most 32 (n + 1 - l.max_failures)
    multiplied l n b = ground arith

-- After failures in one window on a key with no record, an attempt is refused exactly if the threshold
-- is reached and the lockout runs: from the last failure on, the configured time, once more for each
-- failure beyond the threshold, and 32 times at most.
pub is_open-fail_all :
    (l : Limiter) (key : Bytes) (t : ℕ) (ts : List ℕ) (now : ℕ)
    → l.state key ≡ none
    → All (λ u. u ≤ t + l.window) ts
    → let n = length (t ∷ ts) in
      (is_open now ((fail_all l key (t ∷ ts)).state key)
        ≡ not (
            leb l.max_failures n
            && ltb now (last_time t ts + l.lockout * at_most 32 (n + 1 - l.max_failures))))
unfolding fail_all record_failure
is_open-fail_all l key t ts now e h =
    ap (is_open now) (
      fail_all-entry (record_failure l key t) key t t 1 ts h (record_failure-first l key t e)
      ∙ ap (λ (k : ℕ). some (entry l t (last_time t ts) k)) (omega arith))
    ∙ is_open-entry l t (last_time t ts) (length (t ∷ ts)) now
    ∙ times_locked l (length (t ∷ ts)) now (last_time t ts)

record_failure-other :
    (l : Limiter) (key other : Bytes) (t : ℕ)
    → key ≢ other
    → (record_failure l key t).state other ≡ l.state other
unfolding record_failure
record_failure-other l key other t h = ground (arith, eq_bytes_iff key other)

-- Failures of one key leave every other key as it was.
fail_all-other :
    (l : Limiter) (key other : Bytes) (ts : List ℕ)
    → key ≢ other
    → (fail_all l key ts).state other ≡ l.state other
unfolding fail_all
fail_all-other l key other [] h = refl
fail_all-other l key other (t ∷ ts) h =
    fail_all-other (record_failure l key t) key other ts h ∙ record_failure-other l key other t h
