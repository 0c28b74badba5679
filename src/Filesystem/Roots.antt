-- ===== src/Filesystem/Roots.antt =====
-- WithinRoot and the roots (internal/filesystem/mapper.go) by the names of clean paths.
use ftp2sftp.Base.{
  List, [], ◌∷◌, ◌++◌, true, false, ◌≡◌, ◌≢◌, ◌↔◌, ◌⊎◌, inl, inr, refl, sym, ap, ◌∙◌, append-nil,
  append_assoc, arith, Bytes, eq_bytes, eq_bytes_iff, eq_bytes_refl, has_prefix, has_prefix-append,
  drop_prefix, has_prefix_split, trim_prefix, trim_prefix-append,
}
use ftp2sftp.GoPath.{slash, elements, glue, rooted}
use ftp2sftp.GoPath.Elements.{
  Names, Names-Plain, elements-append, elements-glue, glue-append, glue-ne-nil,
}
use ftp2sftp.GoPath.Clean.{walk, walk-slash, clean-rooted-walk, rooted-injective}
use ftp2sftp.Filesystem.{clean_root, new_mapper, within_root, below}

-- The names of `ps` begin with those of `rs`.
abbrev pub Extends : List Bytes → List Bytes → Type 0
Extends rs ps = (xs : List Bytes) × (ps ≡ rs ++ xs)

-- A root with a name in it is not "/".
rooted-ne-slash :
    (s : Bytes) (ss : List Bytes) → s ≢ [] → eq_bytes (rooted (s ∷ ss)) (slash ∷ []) ≡ false
unfolding rooted
rooted-ne-slash s ss h = ground (arith, glue-ne-nil s ss h, eq_bytes_iff (glue (s ∷ ss)) [])

within_root_cases :
    (root p : Bytes)
    → eq_bytes root (slash ∷ []) ≡ false
    → within_root root p ≡ true
    → (p ≡ root) ⊎ (has_prefix p (root ++ slash ∷ []) ≡ true)
unfolding within_root
within_root_cases root p e w = ground (arith, eq_bytes_iff p root)

within_root-prefix :
    (root p : Bytes)
    → eq_bytes root (slash ∷ []) ≡ false
    → has_prefix p (root ++ slash ∷ []) ≡ true
    → within_root root p ≡ true
unfolding within_root
within_root-prefix root p e w = ground arith

within_root_refl :
    (root : Bytes) → eq_bytes root (slash ∷ []) ≡ false → within_root root root ≡ true
unfolding within_root
within_root_refl root e = ground (arith, eq_bytes_refl root)

pub rooted-append :
    (s x : Bytes) (rs xs : List Bytes)
    → rooted ((s ∷ rs) ++ x ∷ xs) ≡ (rooted (s ∷ rs) ++ slash ∷ []) ++ glue (x ∷ xs)
unfolding rooted
rooted-append s x rs xs =
    ap (◌∷◌ slash)
      (glue-append s x rs xs ∙ sym (append_assoc (glue (s ∷ rs)) (slash ∷ []) (glue (x ∷ xs))))

pub within_root-append :
    (rs xs : List Bytes) → Names rs → within_root (rooted rs) (rooted (rs ++ xs)) ≡ true
within_root-append [] xs h = unfold within_root rooted glue in refl
within_root-append (s ∷ rs) [] h =
    rw (append-nil (s ∷ rs)) (within_root_refl _ (rooted-ne-slash s rs h.0.nonempty))
within_root-append (s ∷ rs) (x ∷ xs) h =
    within_root-prefix _ _ (rooted-ne-slash s rs h.0.nonempty)
      (rw (rooted-append s x rs xs) (has_prefix-append (rooted (s ∷ rs) ++ slash ∷ []) _))

-- A path whose text begins with a root and a slash has that root's names.
glue-Extends :
    (s : Bytes) (rs ps : List Bytes) (d : Bytes)
    → Names (s ∷ rs)
    → Names ps
    → glue ps ≡ glue (s ∷ rs) ++ slash ∷ d
    → Extends (s ∷ rs) ps
glue-Extends s rs [] d hr hp e = absurd (nil-ne-append (glue (s ∷ rs)) (unfold glue in e))
  where
    nil-ne-append : (a : Bytes) → [] ≢ a ++ slash ∷ d
    nil-ne-append [] k = cc
    nil-ne-append (c ∷ a) k = cc
glue-Extends s rs (p ∷ ps) d hr hp e = (
  elements [] d,
  sym (elements-glue p ps (Names-Plain (p ∷ ps) hp))
      ∙ ap (elements []) e
      ∙ elements-append (glue (s ∷ rs)) [] d
      ∙ ap (λ t. t ++ elements [] d) (elements-glue s rs (Names-Plain (s ∷ rs) hr)),
)

rooted-split :
    (rs ps : List Bytes) (b : Bytes)
    → rooted ps ≡ (rooted rs ++ slash ∷ []) ++ b
    → glue ps ≡ glue rs ++ slash ∷ b
unfolding rooted
rooted-split rs ps b e = cc (append_assoc (glue rs) (slash ∷ []) b)

pub within_root_sound :
    (rs ps : List Bytes)
    → Names rs
    → Names ps
    → within_root (rooted rs) (rooted ps) ≡ true
    → Extends rs ps
within_root_sound [] ps hr hp w = (ps, refl)
within_root_sound (s ∷ rs) ps hr hp w =
    elim (within_root_cases _ _ (rooted-ne-slash s rs hr.0.nonempty) w) [
      | inl e ↦ ([], rooted-injective ps (s ∷ rs) hp hr e ∙ sym (append-nil (s ∷ rs)))
      | inr e ↦
          glue-Extends s rs ps (drop_prefix (rooted ps) (rooted (s ∷ rs) ++ slash ∷ [])) hr hp (
            rooted-split (s ∷ rs) ps _
              (has_prefix_split (rooted ps) (rooted (s ∷ rs) ++ slash ∷ []) e))
    ]

-- On clean paths, being within a root is having the root's names as the first names: `WithinRoot`
-- never takes a sibling such as "/data2" for something inside "/data".
pub within_root_iff :
    (rs ps : List Bytes)
    → Names rs
    → Names ps
    → (within_root (rooted rs) (rooted ps) ≡ true) ↔ Extends rs ps
within_root_iff rs ps hr hp =
    (within_root_sound rs ps hr hp, λ (xs, e). rw e (within_root-append rs xs hr))

-- A path of names does not begin with a slash.
trim_prefix-glue : (xs : List Bytes) → Names xs → trim_prefix (glue xs) (slash ∷ []) ≡ glue xs
unfolding glue
trim_prefix-glue [] h = refl
trim_prefix-glue ([] ∷ xs) h = absurd (h.0.nonempty refl)
trim_prefix-glue ((c ∷ x) ∷ []) h = let ne = h.0.plain.0 in ground arith
trim_prefix-glue ((c ∷ x) ∷ y ∷ xs) h = let ne = h.0.plain.0 in ground arith

trim_prefix-rooted : (xs : List Bytes) → trim_prefix (rooted xs) (slash ∷ []) ≡ glue xs
unfolding rooted
trim_prefix-rooted xs = refl

trim_prefix_self : (p : Bytes) → trim_prefix p p ≡ []
trim_prefix_self p = rw (ap (λ t. trim_prefix t p) (sym (append-nil p))) (trim_prefix-append p [])

-- The text below a root is that of the remaining names.
pub below-append :
    (rs xs : List Bytes) → Names rs → Names xs → below (rooted (rs ++ xs)) (rooted rs) ≡ glue xs
below-append [] xs hr hx =
    rw (ap (trim_prefix (rooted xs)) root_text, trim_prefix-rooted xs) (trim_prefix-glue xs hx)
  where
    root_text : rooted [] ≡ slash ∷ []
    root_text = unfold rooted glue in refl
below-append (s ∷ rs) [] hr hx =
    rw (append-nil (s ∷ rs), trim_prefix_self (rooted (s ∷ rs))) (unfold glue in refl)
below-append (s ∷ rs) (x ∷ xs) hr hx =
    rw
      (
        rooted-append s x rs xs,
        append_assoc (rooted (s ∷ rs)) (slash ∷ []) (glue (x ∷ xs)),
        trim_prefix-append (rooted (s ∷ rs)) (slash ∷ glue (x ∷ xs)),
      )
      refl

-- The root of a mapper is the clean rooted path of the names that the configured text leads to.
pub clean_root-walk : (p : Bytes) → clean_root p ≡ rooted (walk [] p)
unfolding clean_root
clean_root-walk [] = clean-rooted-walk (slash ∷ []) ∙ ap rooted (walk-slash [] [])
clean_root-walk (c ∷ p) = clean-rooted-walk (c ∷ p)

pub virtual_root-walk : (v r : Bytes) → (new_mapper v r).virtual_root ≡ rooted (walk [] v)
unfolding new_mapper
virtual_root-walk v r = unfold clean_root in clean_root-walk v

pub remote_root-walk : (v r : Bytes) → (new_mapper v r).remote_root ≡ rooted (walk [] r)
unfolding new_mapper
remote_root-walk v r = unfold clean_root in clean_root-walk r
