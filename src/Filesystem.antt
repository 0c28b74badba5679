-- ===== src/Filesystem.antt =====
-- internal/filesystem/mapper.go: the virtual paths of one FTP user and the remote paths that they
-- stand for.
pub mod Roots
pub mod Confinement
pub mod RoundTrip
use ftp2sftp.Base.{
  ℕ, zero, List, [], ◌∷◌, ◌++◌, Bool, true, false, not, ◌≡◌, refl, Bytes, codes, eq_bytes,
  has_prefix, trim_prefix, contains_byte, if◌then◌else◌,
}
use ftp2sftp.Errors.{Kind, Error, new, Result, ok, err}
use ftp2sftp.GoPath.{slash, is_abs, clean, join}

pub record Mapper : Type 0 where
  pub virtual_root : Bytes
  pub remote_root : Bytes

-- `cleanRoot`.
unfoldable pub clean_root : Bytes → Bytes
clean_root [] = clean (slash ∷ slash ∷ [])
clean_root (c ∷ p) = clean (slash ∷ c ∷ p)

-- `NewMapper`.
unfoldable pub new_mapper : Bytes → Bytes → Mapper
unfolding clean_root
new_mapper virtual_root remote_root = record {
  virtual_root = clean_root virtual_root;
  remote_root = clean_root remote_root;
}

-- `WithinRoot`.
unfoldable pub within_root : Bytes → Bytes → Bool
within_root root p =
    if eq_bytes root (slash ∷ [])
    then is_abs p
    else if eq_bytes p root
    then true
    else has_prefix p (root ++ slash ∷ [])

abbrev pub nul_byte : Error
nul_byte = new Kind.invalid_path "filesystem.ResolveVirtual" "ruta inválida"

abbrev pub outside_virtual : Error
outside_virtual =
    new Kind.invalid_path "filesystem.ResolveVirtual" "ruta fuera de la raíz permitida"

abbrev pub not_virtual : Error
not_virtual = new Kind.invalid_path "filesystem.ToRemote" "ruta fuera de la raíz permitida"

abbrev pub outside_remote : Error
outside_remote =
    new Kind.invalid_path "filesystem.ToRemote" "ruta remota fuera de la raíz permitida"

abbrev pub not_remote : Error
not_remote = new Kind.invalid_path "filesystem.ToVirtual" "ruta remota fuera de la raíz permitida"

-- `if cwd == "" { cwd = m.virtualRoot }`.
abbrev pub cwd_or_root : Mapper → Bytes → Bytes
cwd_or_root m [] = m.virtual_root
cwd_or_root m (c ∷ cwd) = c ∷ cwd

-- `ResolveVirtual`.
unfoldable pub resolve_virtual : Mapper → Bytes → Bytes → Result Bytes
unfolding within_root
resolve_virtual m cwd arg =
    if contains_byte zero arg
    then err nul_byte
    else let joined = if is_abs arg then arg else join (cwd_or_root m cwd) arg in
      let resolved = clean (slash ∷ joined) in
      if within_root m.virtual_root resolved then ok resolved else err outside_virtual

-- The path below `root`: the root's text goes, and then one slash.
abbrev pub below : Bytes → Bytes → Bytes
below p root = trim_prefix (trim_prefix p root) (slash ∷ [])

-- `ToRemote`.
unfoldable pub to_remote : Mapper → Bytes → Result Bytes
unfolding within_root
to_remote m p =
    let remote = clean (join m.remote_root (below p m.virtual_root)) in
    if not (within_root m.virtual_root p)
    then err not_virtual
    else if within_root m.remote_root remote
    then ok remote
    else err outside_remote

-- `ToVirtual`.
unfoldable pub to_virtual : Mapper → Bytes → Result Bytes
unfolding within_root
to_virtual m p =
    let cleaned = clean (slash ∷ p) in
    if within_root m.remote_root cleaned
    then ok (clean (join m.virtual_root (below cleaned m.remote_root)))
    else err not_remote
