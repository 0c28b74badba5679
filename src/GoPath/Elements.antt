-- ===== src/GoPath/Elements.antt =====
-- The elements of a slash-separated path, cut and glued.
use ftp2sftp.Base.{
  ℕ, List, [], ◌∷◌, ◌++◌, ◌≡◌, ◌≢◌, refl, sym, ap, ◌∙◌, append-nil, append_assoc, arith, Bytes, All,
}
use ftp2sftp.GoPath.{slash, dot, dotdot, elements, glue}

-- No byte is a slash.
abbrev pub Plain : Bytes → Type 0
Plain = All (λ c. c ≢ slash)

-- A path element that stands for itself: a proper file name.
pub record IsName (s : Bytes) : Type 0 where
  pub nonempty : s ≢ []
  pub not_dot : s ≢ dot
  pub not_dotdot : s ≢ dotdot
  pub plain : Plain s

abbrev pub Names : List Bytes → Type 0
Names = All IsName

pub elements-append :
    (p cur q : Bytes) → elements cur (p ++ slash ∷ q) ≡ elements cur p ++ elements [] q
unfolding elements
elements-append [] cur q = refl
elements-append (c ∷ p) cur q =
    ground (arith, elements-append p [] q, elements-append p (cur ++ c ∷ []) q)

pub elements_whole : (s cur : Bytes) → Plain s → elements cur s ≡ (cur ++ s) ∷ []
unfolding elements
elements_whole [] cur h = rw append-nil
elements_whole (c ∷ s) cur h =
    ground (arith, elements_whole s (cur ++ c ∷ []) h.1, append_assoc cur (c ∷ []) s)

Plain-snoc : (c : ℕ) (cur : Bytes) → Plain cur → c ≢ slash → Plain (cur ++ c ∷ [])
Plain-snoc c [] h k = (k, tt)
Plain-snoc c (x ∷ cur) h k = (h.0, Plain-snoc c cur h.1 k)

-- Every element lacks the slash.
pub elements-Plain : (p cur : Bytes) → Plain cur → All Plain (elements cur p)
unfolding elements
elements-Plain [] cur h = (h, tt)
elements-Plain (c ∷ p) cur h =
    ground (arith, elements-Plain p [] tt, elements-Plain p (cur ++ c ∷ []), Plain-snoc c cur h)

pub elements-glue :
    (s : Bytes) (ss : List Bytes) → All Plain (s ∷ ss) → elements [] (glue (s ∷ ss)) ≡ s ∷ ss
unfolding glue
elements-glue s [] h = elements_whole s [] h.0
elements-glue s (t ∷ ss) h =
    rw (elements-append s [] (glue (t ∷ ss)), elements_whole s [] h.0, elements-glue t ss h.1)

pub Names-Plain : (ss : List Bytes) → Names ss → All Plain ss
Names-Plain [] h = tt
Names-Plain (s ∷ ss) h = (h.0.plain, Names-Plain ss h.1)

pub glue-append :
    (s t : Bytes) (ss ts : List Bytes)
    → glue ((s ∷ ss) ++ t ∷ ts) ≡ glue (s ∷ ss) ++ slash ∷ glue (t ∷ ts)
unfolding glue
glue-append s t [] ts = refl
glue-append s t (x ∷ ss) ts =
    rw (glue-append x t ss ts, append_assoc s (slash ∷ glue (x ∷ ss)) (slash ∷ glue (t ∷ ts)))

pub glue-ne-nil : (s : Bytes) (ss : List Bytes) → s ≢ [] → glue (s ∷ ss) ≢ []
unfolding glue
glue-ne-nil [] ss h = absurd (h refl)
glue-ne-nil (c ∷ s) [] h = λ k. cc
glue-ne-nil (c ∷ s) (t ∷ ss) h = λ k. cc

-- A list of names is read back from the path that they spell.
pub glue-injective : (ss ts : List Bytes) → Names ss → Names ts → glue ss ≡ glue ts → ss ≡ ts
glue-injective [] [] hs ht e = refl
glue-injective [] (t ∷ ts) hs ht e = absurd (glue-ne-nil t ts ht.0.nonempty (unfold glue in sym e))
glue-injective (s ∷ ss) [] hs ht e = absurd (glue-ne-nil s ss hs.0.nonempty (unfold glue in e))
glue-injective (s ∷ ss) (t ∷ ts) hs ht e =
    sym (elements-glue s ss (Names-Plain (s ∷ ss) hs))
    ∙ ap (elements []) e
    ∙ elements-glue t ts (Names-Plain (t ∷ ts) ht)
