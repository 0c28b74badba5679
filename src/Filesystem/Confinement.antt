-- ===== src/Filesystem/Confinement.antt =====
-- ResolveVirtual (internal/filesystem/mapper.go) and the virtual root.
use ftp2sftp.Base.{
  zero, List, [], ◌∷◌, ◌++◌, true, ◌≡◌, refl, sym, ap, ◌∙◌, arith, Bytes, contains_byte,
  if◌then◌else◌, Bool-cases, inl, inr,
}
use ftp2sftp.Errors.{ok, err}
use ftp2sftp.GoPath.{slash, is_abs, rooted, clean, join}
use ftp2sftp.GoPath.Elements.{Names}
use ftp2sftp.GoPath.Clean.{walk, walk-Names, clean-rooted-walk, clean-slash-rooted, join-rooted}
use ftp2sftp.Filesystem.{
  Mapper, new_mapper, within_root, resolve_virtual, cwd_or_root, nul_byte, outside_virtual,
}
use ftp2sftp.Filesystem.Roots.{within_root_iff, virtual_root-walk}

-- A path of proper names (none empty, ".", ".." or with a slash in it) that lies in the directory
-- with the names `rs`.
pub record Inside (rs : List Bytes) (p : Bytes) : Type 0 where
  pub rest : List Bytes
  pub names : Names (rs ++ rest)
  pub spelled : p ≡ rooted (rs ++ rest)

abbrev joined : Mapper → Bytes → Bytes → Bytes
joined m cwd arg = if is_abs arg then arg else join (cwd_or_root m cwd) arg

-- Success means that the text was clean and the test passed.
resolve_virtual_ok :
    (m : Mapper) (cwd arg p : Bytes)
    → resolve_virtual m cwd arg ≡ ok p
    → (p ≡ clean (slash ∷ joined m cwd arg)) × (within_root m.virtual_root p ≡ true)
unfolding resolve_virtual
resolve_virtual_ok m cwd arg p h = ground arith

Inside-within_root :
    (rs : List Bytes) (q p : Bytes)
    → Names rs
    → p ≡ clean (slash ∷ q)
    → within_root (rooted rs) p ≡ true
    → Inside rs p
Inside-within_root rs q p hr e w =
    let e' = e ∙ clean-rooted-walk q in
    let ns = walk-Names [] q tt in
    let (xs, f) = (within_root_iff rs (walk [] q) hr ns).0 (rw (sym e') w) in
    record { rest = xs; names = subst_names f ns; spelled = e' ∙ ap rooted f }
  where
    subst_names : {a b : List Bytes} → a ≡ b → Names a → Names b
    subst_names f n = rw (sym f) n

-- Whatever the current directory and the argument are, a path that `ResolveVirtual` returns is clean
-- and lies in the user's virtual root, name by name.
pub resolve_virtual-Inside :
    (v r cwd arg p : Bytes) → resolve_virtual (new_mapper v r) cwd arg ≡ ok p → Inside (walk [] v) p
resolve_virtual-Inside v r cwd arg p h =
    let (e, w) = resolve_virtual_ok (new_mapper v r) cwd arg p h in
    Inside-within_root (walk [] v) (joined (new_mapper v r) cwd arg) p (walk-Names [] v tt) e
      (rw (sym (virtual_root-walk v r)) w)

-- The directory or file that an argument names, seen from the directory with the names `cs`.
abbrev pub target : List Bytes → Bytes → List Bytes
target cs arg = if is_abs arg then walk [] arg else walk cs arg

cwd_or_root-rooted : (m : Mapper) (cs : List Bytes) → cwd_or_root m (rooted cs) ≡ rooted cs
unfolding rooted
cwd_or_root-rooted m cs = refl

joined-target :
    (m : Mapper) (cs : List Bytes) (arg : Bytes)
    → Names cs
    → clean (slash ∷ joined m (rooted cs) arg) ≡ rooted (target cs arg)
joined-target m cs arg h = elim (Bool-cases (is_abs arg)) [
  | inl e ↦ rw (e, clean-rooted-walk arg) refl
  | inr e ↦
      rw (e, cwd_or_root-rooted m cs, join-rooted cs arg h)
        (clean-slash-rooted (walk cs arg) (walk-Names cs arg h))
]

-- From a clean current directory the path text is the walk along the argument's elements: cleaning
-- twice and joining add nothing. The argument is refused for a NUL byte, and then exactly if the
-- walk ends outside the virtual root.
pub resolve_virtual-target :
    (v r arg : Bytes) (cs : List Bytes)
    → Names cs
    → resolve_virtual (new_mapper v r) (rooted cs) arg ≡ (
        if contains_byte zero arg
        then err nul_byte
        else if within_root (rooted (walk [] v)) (rooted (target cs arg))
        then ok (rooted (target cs arg))
        else err outside_virtual)
unfolding resolve_virtual
resolve_virtual-target v r arg cs h =
    rw (joined-target (new_mapper v r) cs arg h, virtual_root-walk v r) refl
