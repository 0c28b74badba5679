-- ===== src/Driver/Confinement.antt =====
-- The remote paths that the commands of internal/ftpserver/clientdriver.go reach.
use ftp2sftp.Base.{
  List, [], ◌∷◌, ◌++◌, true, ◌≡◌, ◌≢◌, ◌⊎◌, inl, inr, refl, sym, ap, ◌∙◌, subst, append-nil,
  append_assoc, Bytes, All-append, All-left, All-right, arith,
}
use ftp2sftp.Errors.{Result, ok}
use ftp2sftp.GoPath.{slash, rooted}
use ftp2sftp.GoPath.Elements.{Plain, IsName, Names}
use ftp2sftp.GoPath.Clean.{walk, walk-Names}
use ftp2sftp.Effects.{ret, bind}
use ftp2sftp.Remote.{Io}
use ftp2sftp.SftpClient.Requests.{Keeps, Keeps-bind}
use ftp2sftp.Filesystem.{Mapper, new_mapper, resolve_virtual, to_remote}
use ftp2sftp.Filesystem.Confinement.{Inside}
use ftp2sftp.Filesystem.RoundTrip.{to_virtual-to_remote}
use ftp2sftp.Transfer.{temp_path}
use ftp2sftp.Transfer.TempName.{temp_name, temp_name-IsName, temp_path-rooted}
use ftp2sftp.Driver.{Env, World, remote_path}
use ftp2sftp.Driver.Requests.{
  stat-Within, read_dir-Within, mkdir-Within, remove-Within, remove_dir-Within, rename-Within,
}
use ftp2sftp.Driver.Opening.{get_handle-Opens}
use ftp2sftp.Driver.Driving.{transfer-Within}
use ftp2sftp.Driver.Protocol.{
  Command, stats, lists, makes, deletes, removes_dir, renames, opens, perform,
}

pub remote_path_ok :
    (m : Mapper) (name : Bytes) (p : Bytes × Bytes)
    → remote_path m name ≡ ok p
    → (resolve_virtual m (slash ∷ []) name ≡ ok p.0) × (to_remote m p.0 ≡ ok p.1)
unfolding remote_path
remote_path_ok m name p h = ground arith

pub remote_path-Inside :
    (v r name : Bytes) (p : Bytes × Bytes)
    → remote_path (new_mapper v r) name ≡ ok p
    → Inside (walk [] r) p.1
remote_path-Inside v r name p h =
    let (a, b) = remote_path_ok (new_mapper v r) name p h in
    let (q, c, i, d) = to_virtual-to_remote v r (slash ∷ []) name p.0 a in
    subst (Inside (walk [] r)) (ok-injective (sym c ∙ b)) i
  where
    ok-injective : {x y : Bytes} → ◌≡◌ {A = Result Bytes} (ok x) (ok y) → x ≡ y
    ok-injective e = cc

-- A list is empty or has a last entry.
snoc_cases :
    {A : Type 0} (xs : List A) → (xs ≡ []) ⊎ ((ys : List A) × (b : A) × (xs ≡ ys ++ b ∷ []))
snoc_cases [] = inl refl
snoc_cases (x ∷ xs) = elim (snoc_cases xs) [
  | inl e ↦ inr ([], x, ap (◌∷◌ x) e)
  | inr (ys, b, e) ↦ inr (x ∷ ys, b, ap (◌∷◌ x) e)
]

-- The temporary file of a path below the root is inside the root.
temp_path-Inside :
    (rs : List Bytes) (q sid suffix : Bytes)
    → Names rs
    → Plain sid
    → Plain suffix
    → Inside rs q
    → q ≢ rooted rs
    → Inside rs (temp_path q sid suffix)
temp_path-Inside rs q sid suffix hr hs hx i ne = elim (snoc_cases i.rest) [
  | inl e ↦ absurd (ne (i.spelled ∙ ap rooted (ap (◌++◌ rs) e ∙ append-nil rs)))
  | inr (ys, b, e) ↦
      let regroup = ap (◌++◌ rs) e ∙ sym (append_assoc rs ys (b ∷ [])) in
      let ns = subst Names regroup i.names in
      let nd = All-left IsName (rs ++ ys) (b ∷ []) ns in
      let nb = (All-right IsName (rs ++ ys) (b ∷ []) ns).0 in
      let t = temp_name b sid suffix in
      record {
        rest = ys ++ t ∷ [];
        names =
            subst Names (append_assoc rs ys (t ∷ [])) (
              All-append IsName (rs ++ ys) (t ∷ []) nd
                (temp_name-IsName b sid suffix nb hs hx, tt));
        spelled =
            ap (λ p. temp_path p sid suffix) (i.spelled ∙ ap rooted regroup)
            ∙ temp_path-rooted (rs ++ ys) b sid suffix nd nb hs hx
            ∙ ap rooted (append_assoc rs ys (t ∷ []));
      }
]

-- The command is no upload onto the remote root itself.
abbrev pub AvoidsRoot : List Bytes → World → Command → Type 0
AvoidsRoot rs w (opens name flags fresh d) =
    flags.wronly ≡ true
    → (p : Bytes × Bytes) → remote_path w.session.mapper name ≡ ok p
    → p.1 ≢ rooted rs
AvoidsRoot rs w (stats name) = Unit {0}
AvoidsRoot rs w (lists name) = Unit {0}
AvoidsRoot rs w (makes name) = Unit {0}
AvoidsRoot rs w (deletes name) = Unit {0}
AvoidsRoot rs w (removes_dir name) = Unit {0}
AvoidsRoot rs w (renames old new) = Unit {0}

module _ (v r : Bytes) (env : Env) (w : World) (mapped : w.session.mapper ≡ new_mapper v r)
    (sid : Plain w.session.id) (suffix : Plain env.temporary_suffix) where
  abbrev In : Bytes → Type 0
  In = Inside (walk [] r)

  covered : (name : Bytes) (p : Bytes × Bytes) → remote_path w.session.mapper name ≡ ok p → In p.1
  covered name p e = remote_path-Inside v r name p (sym (ap (λ m. remote_path m name) mapped) ∙ e)

  result_only :
      {A : Type 0} (m : Io (World × A)) → Keeps In In m → Keeps In In (bind m (λ r. ret r.0))
  result_only m h = Keeps-bind In In m _ h (λ r. tt)

  -- Whatever name a client sends and whatever the server answers, a command reads, lists, creates,
  -- truncates, moves and removes only paths inside the user's remote root, unless it is an upload onto
  -- the root itself. A transfer is taken from its beginning over any calls on its handle, with the
  -- commit or the removal of the temporary file. Paths are taken by their names, and the inspection of
  -- a link itself (Lstat and ReadLink) is not restricted. The mapper is the user's, and the session's
  -- id and the configured suffix hold no slash.
  pub perform-Inside : (c : Command) → AvoidsRoot (walk [] r) w c → Keeps In In (perform env c w)
  unfolding perform
  perform-Inside (stats name) a = result_only _ (stat-Within In In env name w (covered name))
  perform-Inside (lists name) a = result_only _ (read_dir-Within In In env name w (covered name))
  perform-Inside (makes name) a = result_only _ (mkdir-Within In In env name w (λ _. covered name))
  perform-Inside (deletes name) a =
      result_only _ (remove-Within In In env name w (λ _. covered name))
  perform-Inside (removes_dir name) a =
      result_only _ (remove_dir-Within In In env name w (λ _. covered name))
  perform-Inside (renames old new) a =
      result_only _
        (rename-Within In In env old new w (covered new) (λ _. (covered old, covered new)))
  perform-Inside (opens name flags fresh d) a = transfer-Within In In d _ (
      get_handle-Opens In In env name flags fresh w (covered name) (λ f _ p e. (
        temp_path-Inside (walk [] r) p.1 w.session.id env.temporary_suffix (walk-Names [] r tt) sid
            suffix (covered name p e) (a f p e),
        covered name p e,
        covered name p e,
      )))
