-- ===== src/System/Connections.antt =====
-- The SFTP connections that the sessions of the gateway hold (internal/ftpserver/gateway.go).
use ftp2sftp.Base.{
  refl, if◌then◌else◌, ℕ, ◌+◌, [], ◌∷◌, ◌≡◌, Option, none, some, All, arith, Bool-cases, inl, inr,
  ◌==◌, false, subst,
}
use ftp2sftp.SftpClient.{Client}
use ftp2sftp.Session.{Session}
use ftp2sftp.Gateway.Connections.{ConnState, Conns, find, put, remove}
use ftp2sftp.Resources.Sessions.{held}

abbrev pub held_by : Option Session → ℕ
held_by none = 0
held_by (some s) = held s

abbrev pub held_of : Option ConnState → ℕ
held_of none = 0
held_of (some cs) = held_by cs.sess

abbrev pub held_in : Conns → ℕ
held_in [] = 0
held_in ((k, cs) ∷ l) = held_by cs.sess + held_in l

pub held_in-put :
    (id : ℕ) (cs : ConnState) (l : Conns)
    → held_in (put id cs l) + held_of (find id l) ≡ held_in l + held_by cs.sess
unfolding put find
held_in-put id cs [] = omega arith
held_in-put id cs ((k, d) ∷ l) = ground (arith, held_in-put id cs l)

pub held_in-remove : (id : ℕ) (l : Conns) → held_in (remove id l) + held_of (find id l) ≡ held_in l
unfolding find remove
held_in-remove id [] = omega arith
held_in-remove id ((k, d) ∷ l) = ground (arith, held_in-remove id l)

-- No live connection has a closed session.
abbrev pub StillOpen : Option Session → Type 0
StillOpen none = Unit {0}
StillOpen (some s) = s.closed ≡ false

abbrev pub IsOpen : ℕ × ConnState → Type 0
IsOpen e = StillOpen e.1.sess

pub put-IsOpen :
    (id : ℕ) (cs : ConnState) (l : Conns)
    → StillOpen cs.sess
    → All IsOpen l
    → All IsOpen (put id cs l)
unfolding put
put-IsOpen id cs [] h a = (h, tt)
put-IsOpen id cs ((k, d) ∷ l) h a = elim (Bool-cases (k == id)) [
  | inl e ↦ rw e (h, a.1)
  | inr e ↦ rw e (a.0, put-IsOpen id cs l h a.1)
]

pub remove-IsOpen : (id : ℕ) (l : Conns) → All IsOpen l → All IsOpen (remove id l)
unfolding remove
remove-IsOpen id [] a = tt
remove-IsOpen id ((k, d) ∷ l) a = elim (Bool-cases (k == id)) [
  | inl e ↦ rw e a.1
  | inr e ↦ rw e (a.0, remove-IsOpen id l a.1)
]

-- The state that is found is one of the table's.
abbrev FoundOpen : Option ConnState → Type 0
FoundOpen none = Unit {0}
FoundOpen (some cs) = StillOpen cs.sess

find-FoundOpen : (id : ℕ) (l : Conns) → All IsOpen l → FoundOpen (find id l)
unfolding find
find-FoundOpen id [] a = tt
find-FoundOpen id ((k, d) ∷ l) a = elim (Bool-cases (k == id)) [
  | inl b ↦ rw b a.0
  | inr b ↦ rw b (find-FoundOpen id l a.1)
]

pub find-IsOpen :
    (id : ℕ) (cs : ConnState) (l : Conns) → find id l ≡ some cs → All IsOpen l → StillOpen cs.sess
find-IsOpen id cs l e a = subst FoundOpen e (find-FoundOpen id l a)

-- How many sessions have this SSH connection.
abbrev pub uses : ℕ → Session → ℕ
uses x s = elim s.sftp [ none ↦ 0 | some c ↦ if c.ssh == x then 1 else 0 ]

abbrev pub uses_by : ℕ → Option Session → ℕ
uses_by x none = 0
uses_by x (some s) = uses x s

abbrev pub uses_of : ℕ → Option ConnState → ℕ
uses_of x none = 0
uses_of x (some cs) = uses_by x cs.sess

abbrev pub uses_in : ℕ → Conns → ℕ
uses_in x [] = 0
uses_in x ((k, cs) ∷ l) = uses_by x cs.sess + uses_in x l

pub uses_in-put :
    (x id : ℕ) (cs : ConnState) (l : Conns)
    → uses_in x (put id cs l) + uses_of x (find id l) ≡ uses_in x l + uses_by x cs.sess
unfolding put find
uses_in-put x id cs [] = omega arith
uses_in-put x id cs ((k, d) ∷ l) = ground (arith, uses_in-put x id cs l)

pub uses_in-remove :
    (x id : ℕ) (l : Conns) → uses_in x (remove id l) + uses_of x (find id l) ≡ uses_in x l
unfolding find remove
uses_in-remove x id [] = omega arith
uses_in-remove x id ((k, d) ∷ l) = ground (arith, uses_in-remove x id l)

of_client : (x : ℕ) (s : Session) (o : Option Client) → s.sftp ≡ o → held s ≡ 0 → uses x s ≡ 0
of_client x s none e h = rw e refl
of_client x s (some c) e h = absurd (contrary (held s) (rw e refl) h)
  where
    contrary : (n : ℕ) → n ≡ 1 → n ≡ 0 → ⊥
    contrary n k l = omega arith

-- A session that is not connected has no connection.
pub unheld_uses : (x : ℕ) (o : Option Session) → held_by o ≡ 0 → uses_by x o ≡ 0
unheld_uses x none h = refl
unheld_uses x (some s) h = of_client x s s.sftp refl h
