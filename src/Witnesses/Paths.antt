-- ===== src/Witnesses/Paths.antt =====
-- Paths.
use ftp2sftp.Base.{
  [], ◌∷◌, ◌++◌, true, ◌≡◌, ◌≢◌, ◌↔◌, refl, codes, if◌then◌else◌, contains, contains_byte, zero,
}
use ftp2sftp.Errors.{ok, err}
use ftp2sftp.GoPath.{slash, rooted, clean}
use ftp2sftp.GoPath.Clean.{walk}
use ftp2sftp.Filesystem.{new_mapper, within_root, resolve_virtual, nul_byte, outside_virtual}
use ftp2sftp.Filesystem.Roots.{Extends, within_root_iff}
use ftp2sftp.Filesystem.Confinement.{Inside, target, resolve_virtual-Inside, resolve_virtual-target}
use ftp2sftp.Transfer.TempName.{temp_name, temp_name-marked}
use ftp2sftp.Witnesses.{
  virtual_root, remote_root, report, suffix, session_id, data-IsName, srv-IsName,
}

resolved_report :
    resolve_virtual
      (new_mapper virtual_root remote_root)
      (codes "/files/b")
      (codes "../a//x/../report.txt")
    ≡ ok report
unfolding resolve_virtual new_mapper clean rooted ftp2sftp.GoPath.glue ftp2sftp.GoPath.push_all
    ftp2sftp.GoPath.elements ftp2sftp.GoPath.push ftp2sftp.GoPath.join
resolved_report = refl

refused_climb :
    resolve_virtual
      (new_mapper virtual_root remote_root)
      (codes "/files/b")
      (codes "../../files2/x")
    ≡ err outside_virtual
unfolding resolve_virtual new_mapper clean rooted ftp2sftp.GoPath.glue ftp2sftp.GoPath.push_all
    ftp2sftp.GoPath.elements ftp2sftp.GoPath.push ftp2sftp.GoPath.join
refused_climb = refl

resolve_virtual-Inside_example : Inside (walk [] virtual_root) report
resolve_virtual-Inside_example =
    resolve_virtual-Inside virtual_root remote_root (codes "/files/b")
      (codes "../a//x/../report.txt") report resolved_report

within_root_iff_example :
    (within_root (rooted (codes "srv" ∷ [])) (rooted (codes "srv" ∷ codes "data" ∷ [])) ≡ true)
    ↔ Extends (codes "srv" ∷ []) (codes "srv" ∷ codes "data" ∷ [])
within_root_iff_example =
    within_root_iff (codes "srv" ∷ []) (codes "srv" ∷ codes "data" ∷ []) (srv-IsName, tt)
      (srv-IsName, (data-IsName, tt))

resolve_virtual-target_example :
    resolve_virtual
      (new_mapper virtual_root remote_root)
      (rooted (codes "data" ∷ []))
      (codes "../x")
    ≡ (if contains_byte zero (codes "../x")
        then err nul_byte
        else if within_root
            (rooted (walk [] virtual_root))
            (rooted (target (codes "data" ∷ []) (codes "../x")))
        then ok (rooted (target (codes "data" ∷ []) (codes "../x")))
        else err outside_virtual)
resolve_virtual-target_example =
    resolve_virtual-target virtual_root remote_root (codes "../x") (codes "data" ∷ [])
      (data-IsName, tt)

temp_name-marked_example :
    (contains (temp_name (codes "data") session_id suffix) (suffix ++ b'-' ∷ []) ≡ true)
    × (temp_name (codes "data") session_id suffix ≢ codes "data")
temp_name-marked_example = temp_name-marked (codes "data") session_id suffix
