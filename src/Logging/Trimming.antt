-- ===== src/Logging/Trimming.antt =====
-- What TrimSpace leaves of a command line (internal/observability/protocol_logger.go).
use ftp2sftp.Base.{
  ℕ, zero, suc, ◌≤◌, ◌<◌, [], ◌∷◌, ◌++◌, true, ◌≡◌, refl, sym, ap, ◌∙◌, ◌⊎◌, inl, inr, ◌≢◌, Bytes,
  length, All, arith, append_assoc,
}
use mathlib.Core.List.{reverse, reverse-append, reverse-cons, reverse-reverse}
use ftp2sftp.Logging.{is_space1, first_space, last_space, strip, trim_space}

-- A character that is no white space, alone or with the bytes beside it.
abbrev pub Visible : ℕ → Type 0
Visible b = (32 < b) × (b < 127)

abbrev pub Blank : Bytes → Type 0
Blank s = All (λ c. is_space1 c ≡ true) s

last_space-short : (x : ℕ) (r w : Bytes) → last_space (x ∷ r ++ 32 ∷ w) ≤ suc (length r)
unfolding last_space
last_space-short x [] [] = ground arith
last_space-short x [] (b ∷ w) = ground arith
last_space-short x (y ∷ []) w = ground arith
last_space-short x (y ∷ z ∷ r) w = ground arith

last_space-Visible : (b : ℕ) (w : Bytes) → Visible b → last_space (b ∷ w) ≡ 0
unfolding last_space
last_space-Visible b [] v = ground arith
last_space-Visible b (c ∷ []) v = ground arith
last_space-Visible b (c ∷ d ∷ w) v = ground arith

last_space_blank : (w : Bytes) → last_space (32 ∷ w) ≡ 1
unfolding last_space
last_space_blank [] = refl
last_space_blank (c ∷ []) = refl
last_space_blank (c ∷ d ∷ w) = refl

first_space-Visible : (b : ℕ) (w : Bytes) → Visible b → first_space (b ∷ w) ≡ 0
unfolding first_space
first_space-Visible b [] v = ground arith
first_space-Visible b (c ∷ []) v = ground arith
first_space-Visible b (c ∷ d ∷ w) v = ground arith

first_space_blank : (b : ℕ) (w : Bytes) → is_space1 b ≡ true → first_space (b ∷ w) ≡ 1
unfolding first_space
first_space_blank b [] v = ground arith
first_space_blank b (c ∷ []) v = ground arith
first_space_blank b (c ∷ d ∷ w) v = ground arith

strip-Blank :
    (s : Bytes) (b : ℕ) (w : Bytes) → Blank s → Visible b → strip first_space 0 (s ++ b ∷ w) ≡ b ∷ w
unfolding strip
strip-Blank [] b w h v = rw (first_space-Visible b w v) refl
strip-Blank (c ∷ s) b w h v = rw (first_space_blank c (s ++ b ∷ w) h.0) (strip-Blank s b w h.1 v)

-- Going back from the end, the blank before a word goes only with all that follows it.
abbrev Stops : Bytes → Bytes → Type 0
Stops t w = (t ≡ w) ⊎ ((x : ℕ) × (r : Bytes) × (t ≡ x ∷ r ++ 32 ∷ w))

nat_cases : (n : ℕ) → (n ≡ 0) ⊎ ((m : ℕ) × (n ≡ suc m))
nat_cases zero = inl refl
nat_cases (suc m) = inr (m, refl)

strip_back :
    (k : ℕ) (r : Bytes) (b : ℕ) (w : Bytes)
    → k ≤ length r
    → Visible b
    → Stops (strip last_space k (r ++ 32 ∷ b ∷ w)) (b ∷ w)
unfolding strip
strip_back zero [] b w h v = rw (last_space_blank (b ∷ w), last_space-Visible b w v) (inl refl)
strip_back (suc k) [] b w h v = ground arith
strip_back zero (x ∷ r) b w h v = elim (nat_cases (last_space (x ∷ r ++ 32 ∷ b ∷ w))) [
  | inl e ↦ rw e (inr (x, r, refl))
  | inr (m, e) ↦ rw e (strip_back m r b w (omega (arith, last_space-short x r (b ∷ w), e)) v)
]
strip_back (suc k) (x ∷ r) b w h v = strip_back k r b w (omega (arith, h)) v

-- With the blank before it, a word stays; without, it is the end.
pub strip_front :
    (r : Bytes) (b : ℕ) (w : Bytes)
    → Visible b
    → Stops (strip last_space 0 (r ++ 32 ∷ b ∷ w)) (b ∷ w)
strip_front r b w v = strip_back 0 r b w (omega arith) v

-- What is left of a line of a word and an argument is the word, or the word, a blank and more.
abbrev pub Remains : Bytes → Bytes → Type 0
Remains t w = (t ≡ w) ⊎ ((x : ℕ) × (s : Bytes) × (t ≡ w ++ 32 ∷ x ∷ s))

reverse-blank : (s t : Bytes) → reverse (s ++ 32 ∷ t) ≡ reverse t ++ 32 ∷ reverse s
reverse-blank s t =
    reverse-append s (32 ∷ t)
    ∙ ap (λ u. u ++ reverse s) (reverse-cons 32 t)
    ∙ append_assoc (reverse t) (32 ∷ []) (reverse s)

list_cases : (l : Bytes) → (l ≡ []) ⊎ ((y : ℕ) × (s : Bytes) × (l ≡ y ∷ s))
list_cases [] = inl refl
list_cases (y ∷ s) = inr (y, s, refl)

reverse_nonempty : (x : ℕ) (r : Bytes) → (y : ℕ) × (s : Bytes) × (reverse (x ∷ r) ≡ y ∷ s)
reverse_nonempty x r = elim (list_cases (reverse (x ∷ r))) [
  | inl e ↦ absurd (cons-ne-nil (sym (reverse-reverse (x ∷ r)) ∙ ap reverse e))
  | inr c ↦ c
]
  where
    cons-ne-nil : x ∷ r ≢ []
    cons-ne-nil = ground arith

reversed-Remains : (t w : Bytes) → Stops t (reverse w) → Remains (reverse t) w
reversed-Remains t w (inl e) = inl (ap reverse e ∙ reverse-reverse w)
reversed-Remains t w (inr (x, r, e)) =
    let (y, s, q) = reverse_nonempty x r in
    inr (
      y,
      s,
      ap reverse e
          ∙ reverse-blank (x ∷ r) (reverse w)
          ∙ ap (λ u. u ++ 32 ∷ reverse (x ∷ r)) (reverse-reverse w)
          ∙ ap (λ u. w ++ 32 ∷ u) q,
    )

reverse-ends : (w : Bytes) (c : ℕ) → reverse (w ++ c ∷ []) ≡ c ∷ reverse w
reverse-ends w c = reverse-append w (c ∷ [])

-- `TrimSpace` of a blank start, a word that begins and ends in a visible character, a blank and an
-- argument.
pub trim_space-Remains :
    (s w arg : Bytes) (b c : ℕ)
    → Blank s
    → Visible b
    → Visible c
    → Remains (trim_space (s ++ ((b ∷ w ++ c ∷ []) ++ (32 ∷ arg)))) (b ∷ w ++ c ∷ [])
unfolding trim_space
trim_space-Remains s w arg b c h v u =
    let word : Bytes = b ∷ w ++ c ∷ [] in
    rw (strip-Blank s b ((w ++ c ∷ []) ++ 32 ∷ arg) h v) (
      reversed-Remains (strip last_space 0 (reverse (word ++ 32 ∷ arg))) word (
        rw (reverse-blank word arg, reverse-ends (b ∷ w) c)
          (strip_front (reverse arg) c (reverse (b ∷ w)) u)))
