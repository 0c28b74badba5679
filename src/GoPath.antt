-- ===== src/GoPath.antt =====
-- Go's standard package `path`, as internal/filesystem, internal/transfer and internal/sftpclient
-- use it: Clean, Join, IsAbs, Dir and Base on slash-separated byte strings.
pub mod Elements
pub mod Clean
pub mod Last
use ftp2sftp.Base.{
  ℕ, List, [], ◌∷◌, ◌++◌, Bool, true, false, ◌||◌, ◌≡◌, refl, Bytes, codes, ◌==◌, eq_bytes,
  if◌then◌else◌,
}
use mathlib.Core.List.{reverse}

abbrev pub slash : ℕ
slash = b'/'

abbrev pub dot : Bytes
dot = b'.' ∷ []

abbrev pub dotdot : Bytes
dotdot = b'.' ∷ b'.' ∷ []

-- `path.IsAbs(p)`.
abbrev pub is_abs : Bytes → Bool
is_abs [] = false
is_abs (c ∷ p) = c == slash

-- The elements between slashes, empty ones included; `cur` is the element being read.
unfoldable pub elements : Bytes → Bytes → List Bytes
elements cur [] = cur ∷ []
elements cur (c ∷ p) = elim (c == slash) [
  | true ↦ cur ∷ elements [] p
  | false ↦ elements (cur ++ c ∷ []) p
]

-- `..` removes the element before it; at the start it vanishes in a rooted path and stays in a
-- relative one. The newest element stands first.
unfoldable pub back : Bool → List Bytes → List Bytes
back true [] = []
back false [] = dotdot ∷ []
back r (s ∷ st) = if eq_bytes s dotdot then dotdot ∷ s ∷ st else st

unfoldable pub push : Bool → Bytes → List Bytes → List Bytes
unfolding back
push r s st =
    if eq_bytes s [] || eq_bytes s dot then st else if eq_bytes s dotdot then back r st else s ∷ st

unfoldable pub push_all : Bool → List Bytes → List Bytes → List Bytes
push_all r [] st = st
push_all r (s ∷ ss) st = push_all r ss (push r s st)

unfoldable pub glue : List Bytes → Bytes
glue [] = []
glue (s ∷ []) = s
glue (s ∷ t ∷ ss) = s ++ slash ∷ glue (t ∷ ss)

-- A rooted path from its elements.
unfoldable pub rooted : List Bytes → Bytes
rooted ss = slash ∷ glue ss

unfoldable pub relative : List Bytes → Bytes
relative [] = dot
relative (s ∷ ss) = glue (s ∷ ss)

-- `path.Clean(p)`.
unfoldable pub clean : Bytes → Bytes
clean [] = dot
clean (c ∷ p) =
    if c == slash
    then rooted (reverse (push_all true (elements [] p) []))
    else relative (reverse (push_all false (elements [] (c ∷ p)) []))

-- `path.Join(a, b)`.
unfoldable pub join : Bytes → Bytes → Bytes
join [] [] = []
join [] (c ∷ b) = clean (c ∷ b)
join (c ∷ a) b = clean (c ∷ a ++ slash ∷ b)

-- The text behind the last slash of `p`, and the text up to and with it; `cur` and `seen` hold
-- what has been read.
unfoldable pub split_last : Bytes → Bytes → Bytes → Bytes × Bytes
split_last seen cur [] = (seen, cur)
split_last seen cur (c ∷ p) = elim (c == slash) [
  | true ↦ split_last (seen ++ cur ++ c ∷ []) [] p
  | false ↦ split_last seen (cur ++ c ∷ []) p
]

-- `path.Dir(p)`.
unfoldable pub dir : Bytes → Bytes
dir p = clean (split_last [] [] p).0

unfoldable pub strip_slashes : Bytes → Bytes
strip_slashes [] = []
strip_slashes (c ∷ p) = elim (c == slash) [ true ↦ strip_slashes p | false ↦ c ∷ p ]

abbrev base_name : Bytes → Bytes
base_name [] = slash ∷ []
base_name (c ∷ p) = c ∷ p

-- `path.Base(p)`: trailing slashes go, then all up to the last slash.
unfoldable pub base : Bytes → Bytes
unfolding strip_slashes split_last
base [] = dot
base (c ∷ p) = base_name (split_last [] [] (reverse (strip_slashes (reverse (c ∷ p))))).1

clean_tests :
    (clean (codes "") ≡ codes ".")
    × (clean (codes "/../a//b/./c/..") ≡ codes "/a/b")
    × (clean (codes "a/../../b/") ≡ codes "../b")
    × (clean (codes "/") ≡ codes "/")
    × (join (codes "/srv") (codes "") ≡ codes "/srv")
    × (dir (codes "/a/b.xml") ≡ codes "/a")
    × (dir (codes "/b.xml") ≡ codes "/")
    × (base (codes "/a/b.xml//") ≡ codes "b.xml")
    × (base (codes "/") ≡ codes "/")
unfolding clean elements push_all push back rooted relative glue join dir base
clean_tests = (refl, refl, refl, refl, refl, refl, refl, refl, refl)
