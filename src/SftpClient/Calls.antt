-- ===== src/SftpClient/Calls.antt =====
-- The operations of a client on paths ask for nothing but calls over an SFTP channel
-- (internal/sftpclient/client.go).
use ftp2sftp.Base.{
  ℕ, List, [], ◌∷◌, Bool, true, false, not, ◌&&◌, String, Option, none, some, Bytes, if◌then◌else◌,
}
use ftp2sftp.Errors.{Error, Result}
use ftp2sftp.GoPath.{join}
use ftp2sftp.Effects.{bind, Always, Always-bind, Always-if}
use ftp2sftp.Remote.{Answer, done, failed, FileInfo, Request, Io}
use ftp2sftp.SftpClient.{
  Client, unless, unless_value, ◌then_ok◌, ◌then_get◌, after_lstat, check_no_escaping_symlink, stat,
  keep_entry, safe_entries, list_entries, read_dir, open_read, create_temp, exists_at,
  reject_if_exists, posix_move, remove_existing, plain_move, move, commit, rename, remove,
  remove_directory, mkdir,
}
use ftp2sftp.SftpClient.Requests.{Anything, Whatever}

-- A call over an SFTP channel.
abbrev pub IsCall : Request → Type 0
IsCall (Request.sftp c o) = Unit {0}
IsCall (Request.new_sftp s) = ⊥
IsCall (Request.close_ssh s) = ⊥
IsCall (Request.load_known_hosts p) = ⊥
IsCall (Request.read_file p) = ⊥
IsCall (Request.parse_key b) = ⊥
IsCall (Request.parse_key_with b p) = ⊥
IsCall (Request.dial_tcp h p t) = ⊥
IsCall (Request.handshake c u a t) = ⊥
IsCall (Request.close_tcp c) = ⊥

abbrev pub Calls : {A : Type 0} → Io A → Type 0
Calls m = Always Anything IsCall Whatever m

pub Calls-bind :
    {A B : Type 0} (m : Io A) (f : A → Io B) → Calls m → ((a : A) → Calls (f a)) → Calls (bind m f)
Calls-bind m f h g = Always-bind Anything IsCall Whatever Whatever m f h (λ a _. g a)

pub Calls-if : {A : Type 0} (b : Bool) (m n : Io A) → Calls m → Calls n → Calls (if b then m else n)
Calls-if b m n h g = Always-if Anything IsCall Whatever b m n (λ _. h) (λ _. g)

Calls-then_ok : (m k : Io (Option Error)) → Calls m → Calls k → Calls (m then_ok k)
Calls-then_ok m k h g = Calls-bind m (λ e. unless e k) h (λ e. go e)
  where
    go : (e : Option Error) → Calls (unless e k)
    go none = g
    go (some e) = tt

Calls-then_get :
    {A : Type 0} (m : Io (Option Error)) (k : Io (Result A))
    → Calls m
    → Calls k
    → Calls (m then_get k)
Calls-then_get m k h g = Calls-bind m (λ e. unless_value e k) h (λ e. go e)
  where
    go : (e : Option Error) → Calls (unless_value e k)
    go none = g
    go (some e) = tt

after_lstat-Calls : (c : Client) (p : Bytes) (a : Answer FileInfo) → Calls (after_lstat c p a)
unfolding after_lstat
after_lstat-Calls c p (failed f) = tt
after_lstat-Calls c p (done info) = Calls-if info.is_symlink _ _ (tt, λ r i. tt) tt

check-Calls : (c : Client) (p : Bytes) → Calls (check_no_escaping_symlink c p)
unfolding check_no_escaping_symlink
check-Calls c p = (tt, λ r i. after_lstat-Calls c p r)

-- A check, then one call.
checked_get :
    {A : Type 0} (c : Client) (p : Bytes) (k : Io (Result A))
    → Calls k
    → Calls (check_no_escaping_symlink c p then_get k)
checked_get c p k h = Calls-then_get _ k (check-Calls c p) h

checked_ok :
    (c : Client) (p : Bytes) (k : Io (Option Error))
    → Calls k
    → Calls (check_no_escaping_symlink c p then_ok k)
checked_ok c p k h = Calls-then_ok _ k (check-Calls c p) h

pub stat-Calls : (c : Client) (p : Bytes) → Calls (stat c p)
unfolding stat
stat-Calls c p = checked_get c p _ (tt, λ r i. tt)

keep_entry-Calls : (c : Client) (p : Bytes) (e : FileInfo) → Calls (keep_entry c p e)
unfolding keep_entry
keep_entry-Calls c p e =
    Calls-if e.is_symlink _ _ (Calls-bind _ _ (check-Calls c (join p e.name)) (λ a. tt)) tt

safe_entries-Calls : (c : Client) (p : Bytes) (es : List FileInfo) → Calls (safe_entries c p es)
unfolding safe_entries
safe_entries-Calls c p [] = tt
safe_entries-Calls c p (e ∷ es) =
    Calls-bind _ _ (keep_entry-Calls c p e)
      (λ keep. Calls-bind _ _ (safe_entries-Calls c p es) (λ rest. tt))

list_entries-Calls :
    (c : Client) (p : Bytes) (a : Answer (List FileInfo)) → Calls (list_entries c p a)
unfolding list_entries
list_entries-Calls c p (done es) = Calls-bind _ _ (safe_entries-Calls c p es) (λ safe. tt)
list_entries-Calls c p (failed f) = tt

pub read_dir-Calls : (c : Client) (p : Bytes) (t : ℕ) → Calls (read_dir c p t)
unfolding read_dir
read_dir-Calls c p t = checked_get c p _ (tt, λ r i. list_entries-Calls c p r)

pub open_read-Calls : (c : Client) (p : Bytes) → Calls (open_read c p)
unfolding open_read
open_read-Calls c p = checked_get c p _ (tt, λ r i. tt)

pub create_temp-Calls : (c : Client) (p : Bytes) → Calls (create_temp c p)
unfolding create_temp
create_temp-Calls c p = (tt, λ r i. tt)

module _ (op message : String) (c : Client) (from to : Bytes) (overwrite : Bool) where
  remove_existing-Calls : (b : Bool) → Calls (remove_existing op message c from to overwrite b)
  unfolding remove_existing
  remove_existing-Calls true = (tt, λ r i. tt)
  remove_existing-Calls false = tt

  plain_move-Calls : (a : Answer FileInfo) → Calls (plain_move op message c from to overwrite a)
  unfolding plain_move
  plain_move-Calls a =
      Calls-if (exists_at a && not overwrite) _ _ tt
        (Calls-then_ok _ _ (remove_existing-Calls (exists_at a)) (tt, λ r i. tt))

  move-Calls : Calls (move op message c from to overwrite)
  unfolding move posix_move reject_if_exists
  move-Calls = (
    tt,
    λ has i.
        Calls-if has _ _
          (Calls-then_ok _ _ (Calls-if overwrite _ _ tt (tt, λ r i. tt)) (tt, λ r i. tt))
          (tt, λ r i. plain_move-Calls r),
  )

pub rename-Calls :
    (c : Client) (from to : Bytes) (overwrite : Bool) → Calls (rename c from to overwrite)
unfolding rename
rename-Calls c from to o = checked_ok c from _ (checked_ok c to _ (move-Calls _ _ c from to o))

pub commit-Calls :
    (c : Client) (temp final : Bytes) (overwrite : Bool) → Calls (commit c temp final overwrite)
unfolding commit
commit-Calls c temp final o = checked_ok c final _ (move-Calls _ _ c temp final o)

pub remove-Calls : (c : Client) (p : Bytes) → Calls (remove c p)
unfolding remove
remove-Calls c p = checked_ok c p _ (tt, λ r i. tt)

pub remove_directory-Calls : (c : Client) (p : Bytes) → Calls (remove_directory c p)
unfolding remove_directory
remove_directory-Calls c p = checked_ok c p _ (tt, λ r i. tt)

pub mkdir-Calls : (c : Client) (p : Bytes) → Calls (mkdir c p)
unfolding mkdir
mkdir-Calls c p = (tt, λ r i. tt)
