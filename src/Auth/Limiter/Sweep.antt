-- ===== src/Auth/Limiter/Sweep.antt =====
-- The sweep of the limiter (internal/auth/limiter.go) beside a limiter that never forgets.
use ftp2sftp.Base.{
  ℕ, ◌+◌, ◌-◌, ◌*◌, ◌%◌, ◌^◌, ◌≤◌, ◌<◌, List, [], ◌∷◌, ◌++◌, Bool, true, ◌≡◌, refl, ap₂, inl, inr,
  Option, none, some, Bytes, arith, eq_bytes, ltb, ◌==◌, Bool-cases,
}
use ftp2sftp.Auth.Limiter.{
  AttemptState, Attempts, Limiter, Readings, new_limiter, update, is_stale, retain,
  sweep_occasionally, is_open, allow, current, count_failure, record_failure, record_success,
}

-- The calls that the authenticator makes of a limiter.
pub data Call : Type 0 where
  allows : Bytes → Readings → Call
  fails : Bytes → ℕ → Call
  succeeds : Bytes → Call

unfoldable pub step : Limiter → Call → Limiter × List Bool
step l (allows key t) = let r = allow l key t in (r.0, r.1 ∷ [])
step l (fails key now) = (record_failure l key now, [])
step l (succeeds key) = (record_success l key, [])

-- The same with no sweep.
unfoldable pub ideal_step : Limiter → Call → Limiter × List Bool
ideal_step l (allows key t) = (l, is_open t.now (l.state key) ∷ [])
ideal_step l (fails key now) = (record_failure l key now, [])
ideal_step l (succeeds key) = (record_success l key, [])

-- The answers of `Allow` in a history.
unfoldable pub answers : Limiter → List Call → List Bool
answers l [] = []
answers l (c ∷ cs) = let (l', out) = step l c in out ++ answers l' cs

unfoldable pub ideal_answers : Limiter → List Call → List Bool
ideal_answers l [] = []
ideal_answers l (c ∷ cs) = let (l', out) = ideal_step l c in out ++ ideal_answers l' cs

-- The clock does not go back from `now` on: the readings of each call are in order, and after those of
-- the calls before.
abbrev pub Monotone : ℕ → List Call → Type 0
Monotone now [] = Unit {0}
Monotone now (allows key t ∷ cs) =
    (now ≤ t.swept_at)
    × (((k : Bytes) → (t.swept_at ≤ t.seen_at k) × (t.seen_at k ≤ t.now))
        × ((t.swept_at ≤ t.now) × Monotone t.now cs))
Monotone now (fails key t ∷ cs) = (now ≤ t) × Monotone t cs
Monotone now (succeeds key ∷ cs) = Monotone now cs

-- What is true of an entry that a sweep may have taken before `now`.
pub record Stale (window lockout now : ℕ) (s : AttemptState) : Type 0 where
  pub idle : s.last_activity + (window + lockout * 32) < now
  pub unlocked : s.locked_until < now
  pub ordered : s.window_start ≤ s.last_activity

-- The entry of the ideal limiter beside that of the real one.
data Related (window lockout now : ℕ) : Option AttemptState → Option AttemptState → Type 0 where
  absent : Related window lockout now none none
  kept :
      (s : AttemptState)
      → s.window_start ≤ s.last_activity
      → s.last_activity ≤ now
      → Related window lockout now (some s) (some s)
  swept : (s : AttemptState) → Stale window lockout now s → Related window lockout now (some s) none

record Simulates (now : ℕ) (i l : Limiter) : Type 0 where
  max_eq : i.max_failures ≡ l.max_failures
  window_eq : i.window ≡ l.window
  lockout_eq : i.lockout ≡ l.lockout
  related : (k : Bytes) → Related l.window l.lockout now (i.state k) (l.state k)

later :
    {a b : Option AttemptState} (window lockout now now' : ℕ)
    → now ≤ now'
    → Related window lockout now a b
    → Related window lockout now' a b
later window lockout now now' h absent = absent
later window lockout now now' h (kept s o p) = kept s o (omega arith)
later window lockout now now' h (swept s st) =
    swept s (record { idle = omega arith; unlocked = omega arith; ordered = st.ordered })
  where
    open st use {idle, unlocked}

-- A sweep at `swept_at` and `seen` keeps the relation.
retain-Related :
    {a b : Option AttemptState} (l : Limiter) (now swept_at seen now' : ℕ)
    → now ≤ swept_at
    → swept_at ≤ seen
    → seen ≤ now'
    → Related l.window l.lockout now a b
    → Related l.window l.lockout now' a (retain l swept_at seen b)
retain-Related l now swept_at seen now' h k j absent = absent
retain-Related l now swept_at seen now' h k j (kept s o p) =
    elim (Bool-cases (is_stale l swept_at seen s)) [
      | inl e ↦
          rw e (swept s (record { idle = ground arith; unlocked = ground arith; ordered = o }))
      | inr e ↦ rw e (kept s o (omega arith))
    ]
retain-Related l now swept_at seen now' h k j (swept s st) =
    later l.window l.lockout now now' (omega arith) (swept s st)

-- Related entries are open alike.
is_open-Related :
    {a b : Option AttemptState} (window lockout now now' : ℕ)
    → now ≤ now'
    → Related window lockout now a b
    → is_open now' b ≡ is_open now' a
is_open-Related window lockout now now' h absent = refl
is_open-Related window lockout now now' h (kept s o p) = refl
is_open-Related window lockout now now' h (swept s st) = let u = st.unlocked in ground arith

-- A failure is counted in the same entry on both sides.
current-Related :
    {a b : Option AttemptState} (i l : Limiter) (now now' : ℕ)
    → i.window ≡ l.window
    → now ≤ now'
    → Related l.window l.lockout now a b
    → current i now' a ≡ current l now' b
current-Related i l now now' e h absent = refl
current-Related i l now now' e h (kept s o p) = rw e refl
current-Related i l now now' e h (swept s st) =
    let idle = st.idle in let ordered = st.ordered in rw (late (omega arith)) refl
  where
    late : l.window < now' - s.window_start → ltb i.window (now' - s.window_start) ≡ true
    late h = ground arith

current-ordered :
    {a b : Option AttemptState} (l : Limiter) (now now' : ℕ)
    → now ≤ now'
    → Related l.window l.lockout now a b
    → (current l now' b).window_start ≤ now'
current-ordered l now now' h absent = omega arith
current-ordered l now now' h (kept s o p) =
    elim (Bool-cases (ltb l.window (now' - s.window_start))) [
      | inl e ↦ rw e (omega arith)
      | inr e ↦ rw e (omega arith)
    ]
current-ordered l now now' h (swept s st) = omega arith

count_failure-Related :
    (i l : Limiter) (now : ℕ) (s : AttemptState)
    → i.max_failures ≡ l.max_failures
    → i.lockout ≡ l.lockout
    → s.window_start ≤ now
    → Related l.window l.lockout now (some (count_failure i now s)) (some (count_failure l now s))
count_failure-Related i l now s hm hl o = rw (hm, hl) (kept (count_failure l now s) o (omega arith))

update-Related :
    (window lockout now : ℕ) (m n : Attempts) (key : Bytes) (a b : Option AttemptState)
    → ((k : Bytes) → Related window lockout now (m k) (n k))
    → Related window lockout now a b
    → (k : Bytes) → Related window lockout now (update m key a k) (update n key b k)
update-Related window lockout now m n key a b h g k = elim (Bool-cases (eq_bytes key k)) [
  | inl e ↦ rw e g
  | inr e ↦ rw e (h k)
]

sweep-Simulates :
    (now : ℕ) (i l : Limiter) (t : Readings)
    → now ≤ t.swept_at
    → ((k : Bytes) → (t.swept_at ≤ t.seen_at k) × (t.seen_at k ≤ t.now))
    → t.swept_at ≤ t.now
    → Simulates now i l
    → Simulates t.now i (sweep_occasionally l t)
unfolding sweep_occasionally
sweep-Simulates now i l t h g j s = record {
  max_eq = s.max_eq;
  window_eq = s.window_eq;
  lockout_eq = s.lockout_eq;
  related = λ k. elim (Bool-cases ((l.calls + 1) % 2 ^ 64 % 256 == 0)) [
    | inl e ↦
        rw e (retain-Related l now t.swept_at (t.seen_at k) t.now h (g k).0 (g k).1 (s.related k))
    | inr e ↦ rw e (later l.window l.lockout now t.now (omega arith) (s.related k))
  ];
}

fail-Simulates :
    (now now' : ℕ) (i l : Limiter) (key : Bytes)
    → now ≤ now'
    → Simulates now i l
    → Simulates now' (record_failure i key now') (record_failure l key now')
unfolding record_failure
fail-Simulates now now' i l key h s = record {
  max_eq = s.max_eq;
  window_eq = s.window_eq;
  lockout_eq = s.lockout_eq;
  related =
      update-Related l.window l.lockout now' i.state l.state key _ _
        (λ k. later l.window l.lockout now now' h (s.related k))
        (rw (current-Related i l now now' s.window_eq h (s.related key)) (
          count_failure-Related i l now' (current l now' (l.state key)) s.max_eq s.lockout_eq
            (current-ordered l now now' h (s.related key))));
}

succeed-Simulates :
    (now : ℕ) (i l : Limiter) (key : Bytes)
    → Simulates now i l
    → Simulates now (record_success i key) (record_success l key)
unfolding record_success
succeed-Simulates now i l key s = record {
  max_eq = s.max_eq;
  window_eq = s.window_eq;
  lockout_eq = s.lockout_eq;
  related = update-Related l.window l.lockout now i.state l.state key none none s.related absent;
}

allow-is_open :
    (now : ℕ) (i l : Limiter) (key : Bytes) (t : Readings)
    → Simulates t.now i (sweep_occasionally l t)
    → (allow l key t).1 ≡ is_open t.now (i.state key)
unfolding allow
allow-is_open now i l key t s = is_open-Related _ _ t.now t.now (omega arith) (s.related key)

answers-Simulates :
    (now : ℕ) (i l : Limiter) (cs : List Call)
    → Monotone now cs
    → Simulates now i l
    → answers l cs ≡ ideal_answers i cs
unfolding answers ideal_answers step ideal_step
answers-Simulates now i l [] m s = refl
answers-Simulates now i l (allows key t ∷ cs) (h, (g, (j, m))) s =
    let s' = sweep-Simulates now i l t h g j s in
    ap₂ (λ (b : Bool) (r : List Bool). b ∷ r) (allow-is_open now i l key t s')
      (answers-Simulates t.now i (allow l key t).0 cs m (unfold allow in s'))
answers-Simulates now i l (fails key t ∷ cs) (h, m) s =
    answers-Simulates t _ _ cs m (fail-Simulates now t i l key h s)
answers-Simulates now i l (succeeds key ∷ cs) m s =
    answers-Simulates now _ _ cs m (succeed-Simulates now i l key s)

-- Forgetting stale entries changes no answer: over every history of calls with a clock that does not
-- go back, `Allow` answers as it would with no sweep at all.
pub answers-ideal_answers :
    (max_failures window lockout : ℕ) (cs : List Call)
    → Monotone 0 cs
    → answers (new_limiter max_failures window lockout) cs
      ≡ ideal_answers (new_limiter max_failures window lockout) cs
answers-ideal_answers max_failures window lockout cs m = answers-Simulates 0 _ _ cs m (
    unfold new_limiter in
    record { max_eq = refl; window_eq = refl; lockout_eq = refl; related = λ k. absent })
