-- ===== src/Driver/Listing.antt =====
-- What ReadDir of internal/ftpserver/clientdriver.go leaves out.
use ftp2sftp.Base.{
  String, List, [], ◌∷◌, ◌++◌, true, false, ◌≡◌, ◌≢◌, sym, ap, ◌∙◌, Bytes, All, contains,
  Bool-cases, inl, inr,
}
use ftp2sftp.Errors.{Result, ok, err}
use ftp2sftp.Effects.{ret, bind, Always, Always-bind, Always-trivial}
use ftp2sftp.Remote.{FileInfo, Io, ◌>>=◌}
use ftp2sftp.SftpClient
use ftp2sftp.SftpClient.{Client}
use ftp2sftp.SftpClient.Requests.{Anything}
use ftp2sftp.Driver.{
  Env, World, on_path, on_client, with_client, sftp, maybe_invalidate, audit, remote_path,
}
use ftp2sftp.Driver.Commands
use ftp2sftp.Transfer.TempName.{temp_name, temp_name-marked}
use ftp2sftp.Driver.Commands.{visible, shown, error_of}

-- The entry is the temporary file of no upload, whatever its final name and its session.
abbrev pub IsSettled : Bytes → FileInfo → Type 0
IsSettled suffix e = (b sid : Bytes) → e.name ≢ temp_name b sid suffix

unmarked-IsSettled :
    (suffix : Bytes) (e : FileInfo)
    → contains e.name (suffix ++ b'-' ∷ []) ≡ false
    → IsSettled suffix e
unmarked-IsSettled suffix e h b sid k = true-ne-false (
    sym (temp_name-marked b sid suffix).0
    ∙ ap (λ (n : Bytes). contains n (suffix ++ b'-' ∷ [])) (sym k)
    ∙ h)
  where
    true-ne-false : true ≢ false
    true-ne-false e = cc

visible-IsSettled :
    (suffix : Bytes) (es : List FileInfo)
    → All (IsSettled suffix) (visible (suffix ++ b'-' ∷ []) es)
unfolding visible
visible-IsSettled suffix [] = tt
visible-IsSettled suffix (e ∷ es) = elim (Bool-cases (contains e.name (suffix ++ b'-' ∷ []))) [
  | inl h ↦ rw h (visible-IsSettled suffix es)
  | inr h ↦ rw h (unmarked-IsSettled suffix e h, visible-IsSettled suffix es)
]

-- What is listed, if anything is.
abbrev pub ListsSettled : Bytes → Result (List FileInfo) → Type 0
ListsSettled suffix (err e) = Unit {0}
ListsSettled suffix (ok es) = All (IsSettled suffix) es

-- The program's result lists settled entries.
abbrev Settles : Bytes → Io (World × Result (List FileInfo)) → Type 0
Settles suffix m = Always Anything (λ q. Unit {0}) (λ r. ListsSettled suffix r.1) m

shown-ListsSettled :
    (suffix : Bytes) (r : Result (List FileInfo)) → ListsSettled suffix (shown suffix r)
shown-ListsSettled suffix (err e) = tt
shown-ListsSettled suffix (ok es) = visible-IsSettled suffix es

on_path-Settles :
    (suffix : Bytes) (command : String) (name : Bytes) (w : World) (p : Result (Bytes × Bytes))
    (f : Bytes → Bytes → Io (World × Result (List FileInfo)))
    → ((v r : Bytes) → Settles suffix (f v r))
    → Settles suffix (on_path command name w p f)
on_path-Settles suffix command name w (err e) f h = tt
on_path-Settles suffix command name w (ok p) f h = h p.0 p.1

on_client-Settles :
    (suffix : Bytes) (command : String) (path : Bytes)
    (f : World → Client → Io (World × Result (List FileInfo))) (r : World × Result Client)
    → ((w : World) (c : Client) → Settles suffix (f w c))
    → Settles suffix (on_client command path f r)
on_client-Settles suffix command path f (w, err e) h = tt
on_client-Settles suffix command path f (w, ok c) h = h w c

-- Whatever comes first, the rest decides.
after-Settles :
    {A : Type 0} (suffix : Bytes) (m : Io A) (f : A → Io (World × Result (List FileInfo)))
    → ((a : A) → Settles suffix (f a))
    → Settles suffix (bind m f)
after-Settles suffix m f h =
    Always-bind Anything (λ q. Unit {0}) (λ a. Unit {0}) _ m f
      (Always-trivial Anything (λ q. Unit {0}) m (λ q. tt)) (λ a _. h a)

-- Whatever a directory holds and whatever the server answers, what `ReadDir` returns never has the
-- temporary file of an upload.
pub read_dir-ListsSettled :
    (env : Env) (name : Bytes) (w : World)
    → Always Anything
        (λ q. Unit {0})
        (λ r. ListsSettled env.temporary_suffix r.1)
        (Commands.read_dir env name w)
unfolding Commands.read_dir
read_dir-ListsSettled env name w =
    let x = env.temporary_suffix in
    let listed = λ (v : Bytes) (a : Result (List FileInfo)) (w : World).
      ret (audit "LIST" v (error_of a) w, shown x a) in
    let read = λ (v remote : Bytes) (w : World) (c : Client).
      SftpClient.read_dir c remote env.read_dir_timeout >>= λ a.
      maybe_invalidate (error_of a) w >>= listed v a in
    on_path-Settles x "LIST" name w (remote_path w.session.mapper name)
      (λ v remote. with_client env "LIST" v w (read v remote))
      (λ v remote. after-Settles x (sftp env w) (on_client "LIST" v (read v remote)) (λ r.
        on_client-Settles x "LIST" v (read v remote) r (λ w c.
          after-Settles x (SftpClient.read_dir c remote env.read_dir_timeout)
            (λ a. maybe_invalidate (error_of a) w >>= listed v a)
            (λ a.
              after-Settles x (maybe_invalidate (error_of a) w) (listed v a)
                (λ w. shown-ListsSettled x a)))))
