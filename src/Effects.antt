-- ===== src/Effects.antt =====
-- Programs that ask their environment: a finite tree of requests, with a branch for every answer
-- that the environment may give. A property of the tree holds whatever the environment answers,
-- within what is relied on.
use ftp2sftp.Base.{List, [], ◌∷◌, All, Bool, true, false, ◌≡◌, refl, ap, ◌∙◌, ◌++◌, if◌then◌else◌}

pub data Prog (Q : Type 0) (R : Q → Type 0) (A : Type 0) : Type 0 where
  ret : A → Prog Q R A
  ask : (q : Q) → (R q → Prog Q R A) → Prog Q R A

module _ {Q : Type 0} {R : Q → Type 0} where
  abbrev pub bind : {A B : Type 0} → Prog Q R A → (A → Prog Q R B) → Prog Q R B
  bind (ret a) f = f a
  bind (ask q k) f = ask q (λ r. bind (k r) f)

  -- What the program returns, with its requests in order, for a given environment.
  abbrev pub run : {A : Type 0} → ((q : Q) → R q) → Prog Q R A → A × List Q
  run env (ret a) = (a, [])
  run env (ask q k) = let (a, qs) = run env (k (env q)) in (a, q ∷ qs)

  run_split :
      {A B : Type 0} (env : (q : Q) → R q) (m : Prog Q R A) (f : A → Prog Q R B)
      → run env (bind m f)
        ≡ ((run env (f (run env m).0)).0, (run env m).1 ++ (run env (f (run env m).0)).1)
  run_split env (ret a) f = refl
  run_split env (ask q k) f = ap (λ r. (r.0, q ∷ r.1)) (run_split env (k (env q)) f)

  -- A run of the first part, and what follows.
  pub run-bind :
      {A B : Type 0} (env : (q : Q) → R q) (m : Prog Q R A) (f : A → Prog Q R B) (a : A) (b : B)
      (qs rs : List Q)
      → run env m ≡ (a, qs)
      → run env (f a) ≡ (b, rs)
      → run env (bind m f) ≡ (b, qs ++ rs)
  run-bind env m f a b qs rs e g =
      run_split env m f
      ∙ ap (λ r. ((run env (f r.0)).0, r.1 ++ (run env (f r.0)).1)) e
      ∙ ap (λ s. (s.0, qs ++ s.1)) g

module _ {Q : Type 0} {R : Q → Type 0} (Rely : (q : Q) → R q → Type 0) (P : Q → Type 0) where
  -- While the answers keep to `Rely`, every request satisfies `P`, and the result `Post`.
  abbrev pub Always : {A : Type 0} → (A → Type 0) → Prog Q R A → Type 0
  Always Post (ret a) = Post a
  Always Post (ask q k) = P q × ((r : R q) → Rely q r → Always Post (k r))

  pub Always-bind :
      {A B : Type 0} (Mid : A → Type 0) (Post : B → Type 0) (m : Prog Q R A) (f : A → Prog Q R B)
      → Always Mid m
      → ((a : A) → Mid a → Always Post (f a))
      → Always Post (bind m f)
  Always-bind Mid Post (ret a) f h g = g a h
  Always-bind Mid Post (ask q k) f h g = (h.0, λ r i. Always-bind Mid Post (k r) f (h.1 r i) g)

  -- With nothing to show, nothing is left to show.
  pub Always-trivial : {A : Type 0} (m : Prog Q R A) → ((q : Q) → P q) → Always (λ a. Unit {0}) m
  Always-trivial (ret a) h = tt
  Always-trivial (ask q k) h = (h q, λ r i. Always-trivial (k r) h)

  pub Always-mono :
      {A : Type 0} (Post Post' : A → Type 0) (m : Prog Q R A)
      → ((a : A) → Post a → Post' a)
      → Always Post m
      → Always Post' m
  Always-mono Post Post' (ret a) g h = g a h
  Always-mono Post Post' (ask q k) g h = (h.0, λ r i. Always-mono Post Post' (k r) g (h.1 r i))

  pub Always-if :
      {A : Type 0} (Post : A → Type 0) (b : Bool) (m n : Prog Q R A)
      → (b ≡ true → Always Post m)
      → (b ≡ false → Always Post n)
      → Always Post (if b then m else n)
  Always-if Post true m n h g = h refl
  Always-if Post false m n h g = g refl

  -- What holds of every run holds of the run in an environment that keeps to `Rely`.
  pub Always-run :
      {A : Type 0} (Post : A → Type 0) (env : (q : Q) → R q) (m : Prog Q R A)
      → ((q : Q) → Rely q (env q))
      → Always Post m
      → Post (run env m).0 × All P (run env m).1
  Always-run Post env (ret a) i h = (h, tt)
  Always-run Post env (ask q k) i h =
      let (p, qs) = Always-run Post env (k (env q)) i (h.1 (env q) (i q)) in (p, (h.0, qs))
