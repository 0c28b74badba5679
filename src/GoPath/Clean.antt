-- ===== src/GoPath/Clean.antt =====
-- What path.Clean computes on rooted paths: the stack of names that a walk from the root leaves.
use mathlib.Core.List.{reverse, reverse-reverse, reverse-append, reverse-cons}
use ftp2sftp.Base.{
  List, [], ◌∷◌, ◌++◌, ◌≡◌, refl, sym, ap, ◌∙◌, append-nil, append_assoc, Bool, true, arith, Bytes,
  All, All-append, eq_bytes_iff,
}
use ftp2sftp.GoPath.{slash, dot, dotdot, elements, back, push, push_all, glue, rooted, clean, join}
use ftp2sftp.GoPath.Elements.{
  Plain, IsName, Names, elements-append, elements-glue, elements-Plain, Names-Plain, glue-injective,
}

-- A walk from the directory `cs` along the elements of `p`.
unfoldable pub walk : List Bytes → Bytes → List Bytes
walk cs p = reverse (push_all true (elements [] p) (reverse cs))

pub push_all-append :
    (r : Bool) (a b st : List Bytes) → push_all r (a ++ b) st ≡ push_all r b (push_all r a st)
unfolding push_all
push_all-append r [] b st = refl
push_all-append r (s ∷ a) b st = push_all-append r a b (push r s st)

push-name : (r : Bool) (s : Bytes) (st : List Bytes) → IsName s → push r s st ≡ s ∷ st
unfolding push
push-name r s st h = ground (arith, eq_bytes_iff s [], eq_bytes_iff s dot, eq_bytes_iff s dotdot)

-- Names are pushed as they stand.
pub push_all_proper :
    (r : Bool) (ss st : List Bytes) → Names ss → push_all r ss st ≡ reverse ss ++ st
unfolding push_all
push_all_proper r [] st h = refl
push_all_proper r (s ∷ ss) st h =
    rw (push-name r s st h.0, push_all_proper r ss (s ∷ st) h.1, reverse-cons s ss)
      (sym (append_assoc (reverse ss) (s ∷ []) st))

push-Names : (s : Bytes) (st : List Bytes) → Plain s → Names st → Names (push true s st)
unfolding push back
push-Names s [] h n = ground (arith, eq_bytes_iff s [], eq_bytes_iff s dot, eq_bytes_iff s dotdot)
push-Names s (x ∷ st) h n =
    ground
      (arith, eq_bytes_iff s [], eq_bytes_iff s dot, eq_bytes_iff s dotdot, eq_bytes_iff x dotdot)

push_all-Names : (ss st : List Bytes) → All Plain ss → Names st → Names (push_all true ss st)
unfolding push_all
push_all-Names [] st h n = n
push_all-Names (s ∷ ss) st h n = push_all-Names ss (push true s st) h.1 (push-Names s st h.0 n)

pub Names-reverse : (ss : List Bytes) → Names ss → Names (reverse ss)
Names-reverse [] h = tt
Names-reverse (s ∷ ss) h =
    rw (reverse-cons s ss)
      (All-append IsName (reverse ss) (s ∷ []) (Names-reverse ss h.1) (h.0, tt))

-- Whatever the path holds, a walk leads to a list of proper names.
pub walk-Names : (cs : List Bytes) (p : Bytes) → Names cs → Names (walk cs p)
unfolding walk
walk-Names cs p h =
    Names-reverse _ (push_all-Names (elements [] p) _ (elements-Plain p [] tt) (Names-reverse cs h))

pub clean-rooted-walk : (p : Bytes) → clean (slash ∷ p) ≡ rooted (walk [] p)
unfolding clean walk
clean-rooted-walk p = refl

pub walk-append : (cs : List Bytes) (p q : Bytes) → walk cs (p ++ slash ∷ q) ≡ walk (walk cs p) q
unfolding walk
walk-append cs p q =
    rw (elements-append p [] q, push_all-append true (elements [] p), reverse-reverse)

pub walk-glue : (cs ss : List Bytes) → Names ss → walk cs (glue ss) ≡ cs ++ ss
walk-glue cs [] h = unfold walk glue elements push_all push in rw (reverse-reverse, append-nil)
walk-glue cs (s ∷ ss) h =
    unfold walk in
    rw (
      elements-glue s ss (Names-Plain (s ∷ ss) h),
      push_all_proper true (s ∷ ss) _ h,
      reverse-append (reverse (s ∷ ss)) (reverse cs),
      reverse-reverse,
      reverse-reverse,
    )

pub rooted-injective : (ss ts : List Bytes) → Names ss → Names ts → rooted ss ≡ rooted ts → ss ≡ ts
unfolding rooted
rooted-injective ss ts hs ht e = glue-injective ss ts hs ht (cc)

pub walk-nil : (cs : List Bytes) → walk cs [] ≡ cs
unfolding walk elements push_all push
walk-nil cs = reverse-reverse cs

pub walk-slash : (cs : List Bytes) (p : Bytes) → walk cs (slash ∷ p) ≡ walk cs p
walk-slash cs p = walk-append cs [] p ∙ ap (λ t. walk t p) (walk-nil cs)

-- A clean rooted path is its own clean form.
pub clean-rooted : (ss : List Bytes) → Names ss → clean (rooted ss) ≡ rooted ss
clean-rooted ss h =
    ap clean (rooted_text ss) ∙ clean-rooted-walk (glue ss) ∙ ap rooted (walk-glue [] ss h)
  where
    rooted_text : (ss : List Bytes) → rooted ss ≡ slash ∷ glue ss
    rooted_text ss = unfold rooted in refl

pub clean-slash-rooted : (ss : List Bytes) → Names ss → clean (slash ∷ rooted ss) ≡ rooted ss
clean-slash-rooted ss h =
    clean-rooted-walk (rooted ss)
    ∙ ap rooted (unfold rooted in walk-slash [] (glue ss) ∙ walk-glue [] ss h)

-- Joining a path to a clean directory is a walk from it.
pub join-rooted : (cs : List Bytes) (p : Bytes) → Names cs → join (rooted cs) p ≡ rooted (walk cs p)
join-rooted cs p h =
    joined cs p
    ∙ clean-rooted-walk (glue cs ++ slash ∷ p)
    ∙ ap rooted (walk-append [] (glue cs) p ∙ ap (λ t. walk t p) (walk-glue [] cs h))
  where
    joined :
        (cs : List Bytes) (p : Bytes) → join (rooted cs) p ≡ clean (slash ∷ glue cs ++ slash ∷ p)
    joined cs p = unfold join rooted in refl
