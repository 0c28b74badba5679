-- ===== src/GoPath/Last.antt =====
-- path.Dir and path.Base on a clean rooted path: its names but the last, and the last.
use mathlib.Core.List.{reverse, reverse-append, reverse-reverse, reverse-cons}
use ftp2sftp.Base.{
  List, [], ◌∷◌, ◌++◌, ◌≡◌, ◌≢◌, refl, sym, ap, ◌∙◌, append-nil, append_assoc, arith, Bytes,
  All-append,
}
use ftp2sftp.GoPath.{slash, glue, rooted, clean, split_last, dir, base, base_name, strip_slashes}
use ftp2sftp.GoPath.Elements.{Plain, IsName, Names, glue-append}
use ftp2sftp.GoPath.Clean.{walk-append, walk-nil, walk-glue, clean-rooted-walk}

split_last-Plain : (b seen cur : Bytes) → Plain b → split_last seen cur b ≡ (seen, cur ++ b)
unfolding split_last
split_last-Plain [] seen cur h = rw append-nil
split_last-Plain (c ∷ b) seen cur h =
    ground (arith, split_last-Plain b seen (cur ++ c ∷ []) h.1, append_assoc cur (c ∷ []) b)

split_last-append :
    (p seen cur q : Bytes)
    → split_last seen cur (p ++ slash ∷ q) ≡ split_last (seen ++ (cur ++ (p ++ slash ∷ []))) [] q
unfolding split_last
split_last-append [] seen cur q = rw (append_assoc seen cur (slash ∷ []))
split_last-append (c ∷ p) seen cur q = ground (
  arith,
  split_last-append p (seen ++ cur ++ c ∷ []) [] q,
  split_last-append p seen (cur ++ c ∷ []) q,
  append_assoc (seen ++ cur) (c ∷ []) (p ++ slash ∷ []),
  append_assoc seen cur (c ∷ (p ++ slash ∷ [])),
  append_assoc cur (c ∷ []) (p ++ slash ∷ []),
)

split_last-name :
    (pre b : Bytes) → Plain b → split_last [] [] (pre ++ slash ∷ b) ≡ (pre ++ slash ∷ [], b)
split_last-name pre b h =
    split_last-append pre [] [] b ∙ split_last-Plain b (pre ++ slash ∷ []) [] h

Plain-reverse : (b : Bytes) → Plain b → Plain (reverse b)
Plain-reverse [] h = tt
Plain-reverse (c ∷ b) h =
    rw (reverse-cons c b)
      (All-append (λ x. x ≢ slash) (reverse b) (c ∷ []) (Plain-reverse b h.1) (h.0, tt))

strip_slashes-Plain : (b rest : Bytes) → b ≢ [] → Plain b → strip_slashes (b ++ rest) ≡ b ++ rest
unfolding strip_slashes
strip_slashes-Plain [] rest ne h = absurd (ne refl)
strip_slashes-Plain (c ∷ b) rest ne h = let k = h.0 in ground arith

reverse-ne-nil : (b : Bytes) → b ≢ [] → reverse b ≢ []
reverse-ne-nil b h e = h (sym (reverse-reverse b) ∙ ap reverse e)

base-split :
    (p : Bytes)
    → p ≢ []
    → base p ≡ base_name (split_last [] [] (reverse (strip_slashes (reverse p)))).1
unfolding base
base-split [] h = absurd (h refl)
base-split (c ∷ p) h = refl

base_name-ne : (b : Bytes) → b ≢ [] → base_name b ≡ b
base_name-ne [] h = absurd (h refl)
base_name-ne (c ∷ b) h = refl

append-ne-nil : (pre b : Bytes) → pre ++ slash ∷ b ≢ []
append-ne-nil [] b e = cc
append-ne-nil (c ∷ pre) b e = cc

kept :
    (pre b : Bytes)
    → IsName b
    → strip_slashes (reverse (pre ++ slash ∷ b)) ≡ reverse (pre ++ slash ∷ b)
kept pre b h =
    rw
      (
        reverse-append pre (slash ∷ b),
        reverse-cons slash b,
        append_assoc (reverse b) (slash ∷ []) (reverse pre),
      )
      (strip_slashes-Plain (reverse b) _ (reverse-ne-nil b h.nonempty) (Plain-reverse b h.plain))

base-name : (pre b : Bytes) → IsName b → base (pre ++ slash ∷ b) ≡ b
base-name pre b h =
    base-split (pre ++ slash ∷ b) (append-ne-nil pre b)
    ∙ rw (kept pre b h, reverse-reverse (pre ++ slash ∷ b), split_last-name pre b h.plain)
        (base_name-ne b h.nonempty)

dir-name : (pre b : Bytes) → IsName b → dir (pre ++ slash ∷ b) ≡ clean (pre ++ slash ∷ [])
unfolding dir
dir-name pre b h = rw (split_last-name pre b h.plain)

-- The text before the last slash of a rooted path.
before_last : List Bytes → Bytes
before_last [] = []
before_last (d ∷ ds) = slash ∷ glue (d ∷ ds)

rooted-snoc : (ds : List Bytes) (b : Bytes) → rooted (ds ++ b ∷ []) ≡ before_last ds ++ slash ∷ b
unfolding rooted before_last
rooted-snoc [] b = unfold glue in refl
rooted-snoc (d ∷ ds) b =
    ap (◌∷◌ slash)
      (glue-append d b ds [] ∙ ap (λ t. glue (d ∷ ds) ++ slash ∷ t) (unfold glue in refl))

clean-before_last : (ds : List Bytes) → Names ds → clean (before_last ds ++ slash ∷ []) ≡ rooted ds
unfolding before_last
clean-before_last [] h = clean-rooted-walk [] ∙ ap rooted (walk-nil [])
clean-before_last (d ∷ ds) h =
    clean-rooted-walk (glue (d ∷ ds) ++ slash ∷ [])
    ∙ ap rooted (walk-append [] (glue (d ∷ ds)) [] ∙ walk-nil _ ∙ walk-glue [] (d ∷ ds) h)

pub base-rooted : (ds : List Bytes) (b : Bytes) → IsName b → base (rooted (ds ++ b ∷ [])) ≡ b
base-rooted ds b h = ap base (rooted-snoc ds b) ∙ base-name (before_last ds) b h

pub dir-rooted :
    (ds : List Bytes) (b : Bytes) → Names ds → IsName b → dir (rooted (ds ++ b ∷ [])) ≡ rooted ds
dir-rooted ds b hd h =
    ap dir (rooted-snoc ds b) ∙ dir-name (before_last ds) b h ∙ clean-before_last ds hd
