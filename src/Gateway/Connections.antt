-- ===== src/Gateway/Connections.antt =====
-- The state that internal/ftpserver/gateway.go keeps with each connection: `connState` by the
-- connection's number.
use ftp2sftp.Base.{
  ℕ, suc, ◌+◌, List, [], ◌∷◌, Bool, true, ◌≡◌, refl, Option, none, some, All, arith, length, ◌==◌,
  if◌then◌else◌, Bool-cases, inl, inr,
}
use ftp2sftp.Session.{Session}

pub record ConnState : Type 0 where
  pub admitted : Bool
  pub sess : Option Session

abbrev pub Conns : Type 0
Conns = List (ℕ × ConnState)

unfoldable pub find : ℕ → Conns → Option ConnState
find id [] = none
find id ((k, cs) ∷ l) = let rest = find id l in if k == id then some cs else rest

-- The state of `id` is replaced, or added.
unfoldable pub put : ℕ → ConnState → Conns → Conns
put id cs [] = (id, cs) ∷ []
put id cs ((k, d) ∷ l) = let rest = put id cs l in if k == id then (id, cs) ∷ l else (k, d) ∷ rest

unfoldable pub remove : ℕ → Conns → Conns
remove id [] = []
remove id ((k, d) ∷ l) = let rest = remove id l in if k == id then l else (k, d) ∷ rest

abbrev pub sessions_in : Option Session → ℕ
sessions_in none = 0
sessions_in (some s) = 1

-- The connections with a session.
abbrev pub count_sessions : Conns → ℕ
count_sessions [] = 0
count_sessions ((k, cs) ∷ l) = sessions_in cs.sess + count_sessions l

abbrev pub IsAdmitted : ℕ × ConnState → Type 0
IsAdmitted e = e.1.admitted ≡ true

-- The length after a replacement or an addition.
abbrev pub length_put : ℕ → Option ConnState → ℕ
length_put n none = n + 1
length_put n (some d) = n

pub length-put :
    (id : ℕ) (cs : ConnState) (l : Conns) → length (put id cs l) ≡ length_put (length l) (find id l)
unfolding put find
length-put id cs [] = refl
length-put id cs ((k, d) ∷ l) = ground (arith, length-put id cs l)

abbrev pub sessions_of : Option ConnState → ℕ
sessions_of none = 0
sessions_of (some cs) = sessions_in cs.sess

pub count_sessions-put :
    (id : ℕ) (cs : ConnState) (l : Conns)
    → count_sessions (put id cs l) + sessions_of (find id l)
      ≡ count_sessions l + sessions_in cs.sess
unfolding put find
count_sessions-put id cs [] = omega arith
count_sessions-put id cs ((k, d) ∷ l) = ground (arith, count_sessions-put id cs l)

pub put-IsAdmitted :
    (id : ℕ) (cs : ConnState) (l : Conns)
    → cs.admitted ≡ true
    → All IsAdmitted l
    → All IsAdmitted (put id cs l)
unfolding put
put-IsAdmitted id cs [] h a = (h, tt)
put-IsAdmitted id cs ((k, d) ∷ l) h a = elim (Bool-cases (k == id)) [
  | inl e ↦ rw e (h, a.1)
  | inr e ↦ rw e (a.0, put-IsAdmitted id cs l h a.1)
]

pub find-IsAdmitted :
    (id : ℕ) (cs : ConnState) (l : Conns)
    → find id l ≡ some cs
    → All IsAdmitted l
    → cs.admitted ≡ true
unfolding find
find-IsAdmitted id cs [] e a = ground arith
find-IsAdmitted id cs ((k, d) ∷ l) e a = ground (arith, find-IsAdmitted id cs l)

pub length-remove :
    (id : ℕ) (cs : ConnState) (l : Conns)
    → find id l ≡ some cs
    → suc (length (remove id l)) ≡ length l
unfolding find remove
length-remove id cs [] e = ground arith
length-remove id cs ((k, d) ∷ l) e = ground (arith, length-remove id cs l)

pub count_sessions-remove :
    (id : ℕ) (l : Conns) → count_sessions (remove id l) + sessions_of (find id l) ≡ count_sessions l
unfolding find remove
count_sessions-remove id [] = omega arith
count_sessions-remove id ((k, d) ∷ l) = ground (arith, count_sessions-remove id l)

pub remove-IsAdmitted : (id : ℕ) (l : Conns) → All IsAdmitted l → All IsAdmitted (remove id l)
unfolding remove
remove-IsAdmitted id [] a = tt
remove-IsAdmitted id ((k, d) ∷ l) a = elim (Bool-cases (k == id)) [
  | inl e ↦ rw e a.1
  | inr e ↦ rw e (a.0, remove-IsAdmitted id l a.1)
]

pub remove_absent : (id : ℕ) (l : Conns) → find id l ≡ none → remove id l ≡ l
unfolding find remove
remove_absent id [] e = refl
remove_absent id ((k, d) ∷ l) e = ground (arith, remove_absent id l)

pub remove-put : (id : ℕ) (cs : ConnState) (l : Conns) → remove id (put id cs l) ≡ remove id l
unfolding put remove
remove-put id cs [] = ground arith
remove-put id cs ((k, d) ∷ l) = ground (arith, remove-put id cs l)
