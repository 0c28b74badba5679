-- ===== src/SftpClient.antt =====
-- internal/sftpclient/client.go: the SFTP client of one session, confined to a remote root.
pub mod Requests
pub mod Calls
use ftp2sftp.Base.{
  ℕ, zero, List, [], ◌∷◌, ◌++◌, Bool, true, false, not, ◌&&◌, ◌≡◌, refl, String, Option, none, some,
  Bytes, if◌then◌else◌,
}
use ftp2sftp.Errors.{Kind, Fault, Error, new, wrap, external, Result, ok, err}
use ftp2sftp.GoPath.{slash, is_abs, clean, join, dir}
use ftp2sftp.Filesystem.{within_root}
use ftp2sftp.Effects.{Prog, ret, ask, bind}
use ftp2sftp.Remote.{
  Answer, done, failed, FileInfo, OpenMode, Op, Request, OpReply, Io, ◌>>=◌, ◌>>◌, call,
}

-- The SSH connection and the SFTP channel that the client owns, and its confined root.
pub record Client : Type 0 where
  pub ssh : ℕ
  pub conn : ℕ
  pub root : Bytes

-- `translateError` on an error that is not nil.
unfoldable pub translate_error : String → Fault → Error
translate_error op f =
    if f.is_eof
    then external f
    else if f.is_deadline
    then wrap Kind.timeout op "tiempo de espera agotado en la operación SFTP remota" (external f)
    else if f.is_not_exist
    then wrap Kind.not_found op "ruta remota no encontrada" (external f)
    else if f.is_permission
    then wrap Kind.remote_permission_denied op "permiso denegado en el servidor remoto" (external f)
    else if f.times_out
    then wrap Kind.timeout op "tiempo de espera agotado en el servidor remoto" (external f)
    else wrap Kind.internal op "error en la operación SFTP remota" (external f)

-- The error that a method passes on, for one whose only result is an error.
abbrev pub translated : String → Option Fault → Option Error
translated op none = none
translated op (some f) = some (translate_error op f)

abbrev pub result_of : {A : Type 0} → String → Answer A → Result A
result_of op (done a) = ok a
result_of op (failed f) = err (translate_error op f)

-- `if err := m; err != nil { return err }`, in a function that returns an error alone.
abbrev pub unless : Option Error → Io (Option Error) → Io (Option Error)
unless none k = k
unless (some e) k = ret (some e)

infixr 6 ◌then_ok◌
abbrev pub ◌then_ok◌ : Io (Option Error) → Io (Option Error) → Io (Option Error)
m then_ok k = bind m (λ e. unless e k)

-- The same in a function that returns a value with the error.
abbrev pub unless_value : {A : Type 0} → Option Error → Io (Result A) → Io (Result A)
unless_value none k = k
unless_value (some e) k = ret (err e)

infixr 6 ◌then_get◌
abbrev pub ◌then_get◌ : {A : Type 0} → Io (Option Error) → Io (Result A) → Io (Result A)
m then_get k = bind m (λ e. unless_value e k)

-- `c.sftp.M(…)`.
abbrev pub on : Client → (o : Op) → Io (OpReply o)
on c o = call (Request.sftp c.conn o)

unfoldable pub opened : ℕ → Bytes → Answer ℕ → Io (Result Client)
opened ssh root (done conn) =
    ret (ok (record { ssh = ssh; conn = conn; root = clean (slash ∷ root) }))
opened ssh root (failed f) = do
  _ ← call (Request.close_ssh ssh)
  ret (
      err (wrap Kind.ssh_connection "sftpclient.New" "no se pudo abrir el canal SFTP" (external f)))

-- `New` takes the SSH connection over, and closes it if the SFTP channel cannot be opened.
unfoldable pub new_client : ℕ → Bytes → Io (Result Client)
unfolding opened
new_client ssh root = call (Request.new_sftp ssh) >>= opened ssh root

abbrev either_error : Option Fault → Option Fault → Option Error
either_error none none = none
either_error none (some f) = some (external f)
either_error (some f) g = some (external f)

-- `Close` closes both channels, and reports the first failure. (A client that `New` returned has
-- both.)
unfoldable pub close : Client → Io (Option Error)
close c = do a ← on c Op.close_client; b ← call (Request.close_ssh c.ssh); ret (either_error a b)

abbrev pub escaping_link : Error
escaping_link =
    new Kind.invalid_path "sftpclient.checkNoEscapingSymlink"
      "la ruta remota es un enlace simbólico fuera de la raíz permitida"

-- The path that a link at `p` leads to.
abbrev pub link_target : Bytes → Bytes → Bytes
link_target p target = clean (if is_abs target then target else join (dir p) target)

after_read_link : Client → Bytes → Answer Bytes → Option Error
after_read_link c p (done target) =
    if within_root c.root (link_target p target) then none else some escaping_link
after_read_link c p (failed f) = some (translate_error "sftpclient.checkNoEscapingSymlink" f)

after_lstat : Client → Bytes → Answer FileInfo → Io (Option Error)
unfolding after_read_link
after_lstat c p (failed f) =
    ret (
      if f.is_not_exist then none else some (translate_error "sftpclient.checkNoEscapingSymlink" f))
after_lstat c p (done info) =
    if info.is_symlink
    then on c (Op.read_link p) >>= (λ a. ret (after_read_link c p a))
    else ret none

-- `checkNoEscapingSymlink`.
unfoldable pub check_no_escaping_symlink : Client → Bytes → Io (Option Error)
unfolding after_lstat
check_no_escaping_symlink c p = on c (Op.lstat p) >>= after_lstat c p

-- `Stat`.
unfoldable pub stat : Client → Bytes → Io (Result FileInfo)
stat c p =
    check_no_escaping_symlink c p
    then_get (on c (Op.stat p) >>= λ a. ret (result_of "sftpclient.Stat" a))

-- One round of the loop of `ReadDir`: a link that leads out of the root is left out.
keep_entry : Client → Bytes → FileInfo → Io Bool
keep_entry c p e =
    if e.is_symlink
    then (check_no_escaping_symlink c (join p e.name) >>= λ x.
        ret (elim x [ none ↦ true | some _ ↦ false ]))
    else ret true

unfoldable pub safe_entries : Client → Bytes → List FileInfo → Io (List FileInfo)
unfolding keep_entry
safe_entries c p [] = ret []
safe_entries c p (e ∷ es) = do
  keep ← keep_entry c p e
  rest ← safe_entries c p es
  ret (if keep then e ∷ rest else rest)

list_entries : Client → Bytes → Answer (List FileInfo) → Io (Result (List FileInfo))
list_entries c p (done es) = safe_entries c p es >>= λ safe. ret (ok safe)
list_entries c p (failed f) = ret (err (translate_error "sftpclient.ReadDir" f))

-- `ReadDir`.
unfoldable pub read_dir : Client → Bytes → ℕ → Io (Result (List FileInfo))
unfolding list_entries
read_dir c p timeout =
    check_no_escaping_symlink c p then_get (on c (Op.read_dir p timeout) >>= list_entries c p)

-- `OpenRead`.
unfoldable pub open_read : Client → Bytes → Io (Result ℕ)
open_read c p =
    check_no_escaping_symlink c p
    then_get (on c (Op.open_file p OpenMode.read_only) >>= λ a.
        ret (result_of "sftpclient.OpenRead" a))

-- `CreateTemp`.
unfoldable pub create_temp : Client → Bytes → Io (Result ℕ)
create_temp c p =
    on c (Op.open_file p OpenMode.write_truncate) >>= λ a. ret (result_of "sftpclient.CreateTemp" a)

abbrev pub exists_at : Answer FileInfo → Bool
exists_at (done info) = true
exists_at (failed f) = false

-- `rejectIfExists`.
unfoldable pub reject_if_exists : Client → Bytes → Io (Option Error)
reject_if_exists c p = on c (Op.stat p) >>= λ a. ret (
    if exists_at a
    then some (new Kind.conflict "sftpclient.Commit" "el archivo destino ya existe")
    else none)

-- What `Commit` and `Rename` do behind their symlink checks: they differ in the operation and in
-- the message of a conflict.
module _ (op message : String) (c : Client) (from to : Bytes) (overwrite : Bool) where
  posix_move : Io (Option Error)
  posix_move =
      (if overwrite then ret none else reject_if_exists c to)
      then_ok (on c (Op.posix_rename from to) >>= λ r. ret (translated op r))

  remove_existing : Bool → Io (Option Error)
  remove_existing true = on c (Op.remove to) >>= λ r. ret (translated op r)
  remove_existing false = ret none

  plain_move : Answer FileInfo → Io (Option Error)
  unfolding remove_existing
  plain_move a =
      if exists_at a && not overwrite
      then ret (some (new Kind.conflict op message))
      else (remove_existing (exists_at a)
          then_ok (on c (Op.rename from to) >>= λ r. ret (translated op r)))

  unfoldable pub move : Io (Option Error)
  unfolding posix_move plain_move
  move = on c Op.has_posix_rename >>= λ has.
      if has then posix_move else (on c (Op.stat to) >>= plain_move)

-- `Commit`.
unfoldable pub commit : Client → Bytes → Bytes → Bool → Io (Option Error)
unfolding move
commit c temp final overwrite =
    check_no_escaping_symlink c final
    then_ok move "sftpclient.Commit" "el archivo destino ya existe" c temp final overwrite

-- `Rename`.
unfoldable pub rename : Client → Bytes → Bytes → Bool → Io (Option Error)
unfolding move
rename c from to overwrite =
    check_no_escaping_symlink c from
    then_ok check_no_escaping_symlink c to
    then_ok move "sftpclient.Rename" "el destino del renombrado ya existe" c from to overwrite

-- `Remove`.
unfoldable pub remove : Client → Bytes → Io (Option Error)
remove c p =
    check_no_escaping_symlink c p
    then_ok (on c (Op.remove p) >>= λ r. ret (translated "sftpclient.Remove" r))

-- `RemoveDirectory`.
unfoldable pub remove_directory : Client → Bytes → Io (Option Error)
remove_directory c p =
    check_no_escaping_symlink c p
    then_ok (on c (Op.remove_directory p) >>= λ r. ret (translated "sftpclient.RemoveDirectory" r))

-- `Mkdir`.
unfoldable pub mkdir : Client → Bytes → Io (Option Error)
mkdir c p = on c (Op.mkdir p) >>= λ r. ret (translated "sftpclient.Mkdir" r)

-- `Ping`.
unfoldable pub ping : Client → Io (Option Error)
ping c =
    on c (Op.stat c.root) >>= λ a. ret (elim a [ done _ ↦ none | failed f ↦ some (external f) ])
