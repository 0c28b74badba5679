-- ===== src/Filesystem/RoundTrip.antt =====
-- ToRemote and ToVirtual (internal/filesystem/mapper.go), one after the other.
use ftp2sftp.Base.{List, [], ◌++◌, ◌≡◌, refl, Bytes, All-append, All-right}
use ftp2sftp.Errors.{ok}
use ftp2sftp.GoPath.{rooted, clean, join}
use ftp2sftp.GoPath.Elements.{IsName, Names}
use ftp2sftp.GoPath.Clean.{
  walk, walk-Names, walk-glue, clean-rooted, clean-slash-rooted, join-rooted,
}
use ftp2sftp.Filesystem.{new_mapper, resolve_virtual, to_remote, to_virtual, below}
use ftp2sftp.Filesystem.Roots.{
  within_root-append, below-append, virtual_root-walk, remote_root-walk,
}
use ftp2sftp.Filesystem.Confinement.{Inside, resolve_virtual-Inside}

-- The names of `xs` below the root `rs`, as the mapper joins and cleans them.
moved :
    (vs rs xs : List Bytes)
    → Names vs
    → Names rs
    → Names xs
    → clean (join (rooted rs) (below (rooted (vs ++ xs)) (rooted vs))) ≡ rooted (rs ++ xs)
moved vs rs xs hv hr hx =
    rw (below-append vs xs hv hx, join-rooted rs _ hr, walk-glue rs xs hx)
      (clean-rooted (rs ++ xs) (All-append IsName rs xs hr hx))

module _ (v r : Bytes) where
  -- `ToRemote` never fails on a path inside the virtual root, and keeps the names below it.
  pub to_remote_lem :
      (xs : List Bytes)
      → Names xs
      → to_remote (new_mapper v r) (rooted (walk [] v ++ xs)) ≡ ok (rooted (walk [] r ++ xs))
  unfolding to_remote
  to_remote_lem xs hx =
      let hv = walk-Names [] v tt in
      let hr = walk-Names [] r tt in
      rw
        (
          virtual_root-walk v r,
          remote_root-walk v r,
          moved (walk [] v) (walk [] r) xs hv hr hx,
          within_root-append (walk [] v) xs hv,
          within_root-append (walk [] r) xs hr,
        )
        refl

  pub to_virtual_lem :
      (xs : List Bytes)
      → Names xs
      → to_virtual (new_mapper v r) (rooted (walk [] r ++ xs)) ≡ ok (rooted (walk [] v ++ xs))
  unfolding to_virtual
  to_virtual_lem xs hx =
      let hv = walk-Names [] v tt in
      let hr = walk-Names [] r tt in
      rw
        (
          virtual_root-walk v r,
          remote_root-walk v r,
          clean-slash-rooted (walk [] r ++ xs) (All-append IsName (walk [] r) xs hr hx),
          moved (walk [] r) (walk [] v) xs hr hv hx,
          within_root-append (walk [] r) xs hr,
        )
        refl

pub to_virtual-to_remote :
    (v r cwd arg p : Bytes)
    → resolve_virtual (new_mapper v r) cwd arg ≡ ok p
    → (q : Bytes) × (to_remote (new_mapper v r) p ≡ ok q)
      × Inside (walk [] r) q
      × (to_virtual (new_mapper v r) q ≡ ok p)
to_virtual-to_remote v r cwd arg p h =
    let i = resolve_virtual-Inside v r cwd arg p h in
    let hx = All-right IsName (walk [] v) i.rest i.names in
    (
      rooted (walk [] r ++ i.rest),
      rw i.spelled (to_remote_lem v r i.rest hx),
      record {
        rest = i.rest;
        names = All-append IsName (walk [] r) i.rest (walk-Names [] r tt) hx;
        spelled = refl;
      },
      rw i.spelled (to_virtual_lem v r i.rest hx),
    )
