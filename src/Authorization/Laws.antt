-- ===== src/Authorization/Laws.antt =====
-- Runs of the transfer gate (internal/authorization/concurrency.go).
use ftp2sftp.Base.{ℕ, suc, ◌+◌, ◌≤◌, ◌≡◌, refl, List, [], ◌∷◌, arith, if◌then◌else◌}
use ftp2sftp.Authorization.{Gate, new_gate, try_acquire, release}

-- What a session does to its user's gate.
pub data GateCall : Type 0 where
  acquires releases : GateCall

unfoldable pub gate_step : Gate → GateCall → Gate
gate_step g acquires = (try_acquire g).0
gate_step g releases = release g

unfoldable pub gate_run : Gate → List GateCall → Gate
gate_run g [] = g
gate_run g (c ∷ cs) = gate_run (gate_step g c) cs

-- The acquisitions that succeed in the run.
unfoldable pub acquired : Gate → List GateCall → ℕ
acquired g [] = 0
acquired g (acquires ∷ cs) =
    (if (try_acquire g).1 then 1 else 0) + acquired (gate_step g acquires) cs
acquired g (releases ∷ cs) = acquired (gate_step g releases) cs

abbrev pub releases_of : List GateCall → ℕ
releases_of [] = 0
releases_of (acquires ∷ cs) = releases_of cs
releases_of (releases ∷ cs) = suc (releases_of cs)

gate_step-le :
    (g : Gate) (c : GateCall) → g.in_use ≤ g.max → (gate_step g c).in_use ≤ (gate_step g c).max
unfolding gate_step try_acquire release
gate_step-le g acquires h = ground arith
gate_step-le g releases h = ground arith

gate_step-max : (g : Gate) (c : GateCall) → (gate_step g c).max ≡ g.max
unfolding gate_step try_acquire release
gate_step-max g acquires = ground arith
gate_step-max g releases = ground arith

gate_run-bounded :
    (g : Gate) (cs : List GateCall)
    → g.in_use ≤ g.max
    → ((gate_run g cs).in_use ≤ (gate_run g cs).max) × ((gate_run g cs).max ≡ g.max)
unfolding gate_run
gate_run-bounded g [] h = (h, refl)
gate_run-bounded g (c ∷ cs) h =
    omega (arith, gate_run-bounded (gate_step g c) cs (gate_step-le g c h), gate_step-max g c)

gate_run-le : (max : ℕ) (cs : List GateCall) → (gate_run (new_gate max) cs).in_use ≤ max
gate_run-le max cs = omega (arith, gate_run-bounded (new_gate max) cs (starts max), starts_max max)
  where
    starts : (max : ℕ) → (new_gate max).in_use ≤ (new_gate max).max
    starts max = unfold new_gate in omega arith

    starts_max : (max : ℕ) → (new_gate max).max ≡ max
    starts_max max = unfold new_gate in refl

acquire_count :
    (g : Gate) → (gate_step g acquires).in_use ≡ g.in_use + (if (try_acquire g).1 then 1 else 0)
unfolding gate_step try_acquire
acquire_count g = ground arith

release_count :
    (g : Gate)
    → (g.in_use ≤ (gate_step g releases).in_use + 1) × ((gate_step g releases).in_use ≤ g.in_use)
unfolding gate_step release
release_count g = ground arith

gate_run-acquired :
    (g : Gate) (cs : List GateCall)
    → (g.in_use + acquired g cs ≤ (gate_run g cs).in_use + releases_of cs)
      × ((gate_run g cs).in_use ≤ g.in_use + acquired g cs)
unfolding gate_run acquired
gate_run-acquired g [] = omega arith
gate_run-acquired g (acquires ∷ cs) =
    omega (arith, gate_run-acquired (gate_step g acquires) cs, acquire_count g)
gate_run-acquired g (releases ∷ cs) =
    omega (arith, gate_run-acquired (gate_step g releases) cs, release_count g)

-- Whatever order acquisitions and releases come in, a user of a new gate never holds more slots than
-- configured; and the slots held at the end are at most those acquired, and at least that number less
-- one for each release.
pub gate_run_lem :
    (max : ℕ) (cs : List GateCall)
    → let g = new_gate max in
      ((gate_run g cs).in_use ≤ max)
      × (acquired g cs ≤ (gate_run g cs).in_use + releases_of cs)
      × ((gate_run g cs).in_use ≤ acquired g cs)
gate_run_lem max cs = (
  gate_run-le max cs,
  omega (arith, gate_run-acquired (new_gate max) cs, empty max),
  omega (arith, gate_run-acquired (new_gate max) cs, empty max),
)
  where
    empty : (max : ℕ) → (new_gate max).in_use ≡ 0
    empty max = unfold new_gate in refl
