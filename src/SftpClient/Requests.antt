-- ===== src/SftpClient/Requests.antt =====
-- The requests that the operations of internal/sftpclient/client.go make.
use ftp2sftp.Base.{
  ℕ, List, [], ◌∷◌, Bool, true, false, not, ◌&&◌, String, Option, none, some, Bytes, if◌then◌else◌,
}
use ftp2sftp.Errors.{Error, Result}
use ftp2sftp.GoPath.{join}
use ftp2sftp.Effects.{bind, Always, Always-bind, Always-if}
use ftp2sftp.Remote.{Answer, done, failed, FileInfo, OpenMode, Op, Request, Reply, Io}
use ftp2sftp.SftpClient.{
  Client, unless, unless_value, ◌then_ok◌, ◌then_get◌, after_lstat, check_no_escaping_symlink, stat,
  keep_entry, safe_entries, list_entries, read_dir, open_read, create_temp, exists_at,
  reject_if_exists, posix_move, remove_existing, plain_move, move, commit, rename, remove,
  remove_directory, mkdir, new_client, opened, close,
}

-- Nothing is assumed of the answers.
abbrev pub Anything : (q : Request) → Reply q → Type 0
Anything q r = Unit {0}

abbrev pub Whatever : {A : Type 0} → A → Type 0
Whatever a = Unit {0}

module _ (Reads Writes : Bytes → Type 0) where
  -- The paths whose content, listing or metadata a request asks for satisfy `Reads`, and those that
  -- it creates, truncates, moves or removes `Writes`. The inspection of the link at a path itself
  -- (`Lstat` and `ReadLink`) is not restricted.
  abbrev pub OpWithin : Op → Type 0
  OpWithin (Op.stat p) = Reads p
  OpWithin (Op.read_dir p t) = Reads p
  OpWithin (Op.open_file p OpenMode.read_only) = Reads p
  OpWithin (Op.open_file p OpenMode.write_truncate) = Writes p
  OpWithin (Op.posix_rename a b) = Writes a × Writes b
  OpWithin (Op.rename a b) = Writes a × Writes b
  OpWithin (Op.remove p) = Writes p
  OpWithin (Op.remove_directory p) = Writes p
  OpWithin (Op.mkdir p) = Writes p
  OpWithin (Op.lstat p) = Unit {0}
  OpWithin (Op.read_link p) = Unit {0}
  OpWithin Op.has_posix_rename = Unit {0}
  OpWithin Op.close_client = Unit {0}
  OpWithin (Op.file_read f n) = Unit {0}
  OpWithin (Op.file_write f b) = Unit {0}
  OpWithin (Op.file_seek f o w) = Unit {0}
  OpWithin (Op.file_close f) = Unit {0}

  abbrev pub Within : Request → Type 0
  Within (Request.sftp c o) = OpWithin o
  Within (Request.new_sftp s) = Unit {0}
  Within (Request.close_ssh s) = Unit {0}
  Within (Request.load_known_hosts p) = Unit {0}
  Within (Request.read_file p) = Unit {0}
  Within (Request.parse_key b) = Unit {0}
  Within (Request.parse_key_with b p) = Unit {0}
  Within (Request.dial_tcp h p t) = Unit {0}
  Within (Request.handshake c u a t) = Unit {0}
  Within (Request.close_tcp c) = Unit {0}

  abbrev pub Keeps : {A : Type 0} → Io A → Type 0
  Keeps m = Always Anything Within Whatever m

  pub Keeps-bind :
      {A B : Type 0} (m : Io A) (f : A → Io B)
      → Keeps m
      → ((a : A) → Keeps (f a))
      → Keeps (bind m f)
  Keeps-bind m f h g = Always-bind Anything Within Whatever Whatever m f h (λ a _. g a)

  pub Keeps-if :
      {A : Type 0} (b : Bool) (m n : Io A) → Keeps m → Keeps n → Keeps (if b then m else n)
  Keeps-if b m n h g = Always-if Anything Within Whatever b m n (λ _. h) (λ _. g)

  pub Keeps-then_ok : (m k : Io (Option Error)) → Keeps m → Keeps k → Keeps (m then_ok k)
  Keeps-then_ok m k h g = Keeps-bind m (λ e. unless e k) h (λ e. go e)
    where
      go : (e : Option Error) → Keeps (unless e k)
      go none = g
      go (some e) = tt

  pub Keeps-then_get :
      {A : Type 0} (m : Io (Option Error)) (k : Io (Result A))
      → Keeps m
      → Keeps k
      → Keeps (m then_get k)
  Keeps-then_get m k h g = Keeps-bind m (λ e. unless_value e k) h (λ e. go e)
    where
      go : (e : Option Error) → Keeps (unless_value e k)
      go none = g
      go (some e) = tt

  after_lstat-Keeps : (c : Client) (p : Bytes) (a : Answer FileInfo) → Keeps (after_lstat c p a)
  unfolding after_lstat
  after_lstat-Keeps c p (failed f) = tt
  after_lstat-Keeps c p (done info) = Keeps-if info.is_symlink _ _ (tt, λ r i. tt) tt

  pub check-Keeps : (c : Client) (p : Bytes) → Keeps (check_no_escaping_symlink c p)
  unfolding check_no_escaping_symlink
  check-Keeps c p = (tt, λ r i. after_lstat-Keeps c p r)

  pub stat-Keeps : (c : Client) (p : Bytes) → Reads p → Keeps (stat c p)
  unfolding stat
  stat-Keeps c p h = Keeps-then_get _ _ (check-Keeps c p) (h, λ r i. tt)

  keep_entry-Keeps : (c : Client) (p : Bytes) (e : FileInfo) → Keeps (keep_entry c p e)
  unfolding keep_entry
  keep_entry-Keeps c p e =
      Keeps-if e.is_symlink _ _ (Keeps-bind _ _ (check-Keeps c (join p e.name)) (λ a. tt)) tt

  safe_entries-Keeps : (c : Client) (p : Bytes) (es : List FileInfo) → Keeps (safe_entries c p es)
  unfolding safe_entries
  safe_entries-Keeps c p [] = tt
  safe_entries-Keeps c p (e ∷ es) =
      Keeps-bind _ _ (keep_entry-Keeps c p e)
        (λ keep. Keeps-bind _ _ (safe_entries-Keeps c p es) (λ rest. tt))

  list_entries-Keeps :
      (c : Client) (p : Bytes) (a : Answer (List FileInfo)) → Keeps (list_entries c p a)
  unfolding list_entries
  list_entries-Keeps c p (done es) = Keeps-bind _ _ (safe_entries-Keeps c p es) (λ safe. tt)
  list_entries-Keeps c p (failed f) = tt

  pub read_dir-Keeps : (c : Client) (p : Bytes) (t : ℕ) → Reads p → Keeps (read_dir c p t)
  unfolding read_dir
  read_dir-Keeps c p t h = Keeps-then_get _ _ (check-Keeps c p) (h, λ r i. list_entries-Keeps c p r)

  pub open_read-Keeps : (c : Client) (p : Bytes) → Reads p → Keeps (open_read c p)
  unfolding open_read
  open_read-Keeps c p h = Keeps-then_get _ _ (check-Keeps c p) (h, λ r i. tt)

  pub create_temp-Keeps : (c : Client) (p : Bytes) → Writes p → Keeps (create_temp c p)
  unfolding create_temp
  create_temp-Keeps c p h = (h, λ r i. tt)

  module _ (op message : String) (c : Client) (from to : Bytes) (overwrite : Bool)
      (hf : Writes from) (ht : Writes to) (hr : Reads to) where
    posix_move-Keeps : Keeps (posix_move op message c from to overwrite)
    unfolding posix_move reject_if_exists
    posix_move-Keeps =
        Keeps-then_ok _ _ (Keeps-if overwrite _ _ tt (hr, λ r i. tt)) ((hf, ht), λ r i. tt)

    remove_existing-Keeps : (b : Bool) → Keeps (remove_existing op message c from to overwrite b)
    unfolding remove_existing
    remove_existing-Keeps true = (ht, λ r i. tt)
    remove_existing-Keeps false = tt

    plain_move-Keeps : (a : Answer FileInfo) → Keeps (plain_move op message c from to overwrite a)
    unfolding plain_move
    plain_move-Keeps a =
        Keeps-if (exists_at a && not overwrite) _ _ tt
          (Keeps-then_ok _ _ (remove_existing-Keeps (exists_at a)) ((hf, ht), λ r i. tt))

    move-Keeps : Keeps (move op message c from to overwrite)
    unfolding move
    move-Keeps = (tt, λ has i. Keeps-if has _ _ posix_move-Keeps (hr, λ r i. plain_move-Keeps r))

  pub commit-Keeps :
      (c : Client) (temp final : Bytes) (overwrite : Bool)
      → Writes temp
      → Writes final
      → Reads final
      → Keeps (commit c temp final overwrite)
  unfolding commit
  commit-Keeps c temp final o hf ht hr =
      Keeps-then_ok _ _ (check-Keeps c final) (move-Keeps _ _ c temp final o hf ht hr)

  pub rename-Keeps :
      (c : Client) (from to : Bytes) (overwrite : Bool)
      → Writes from
      → Writes to
      → Reads to
      → Keeps (rename c from to overwrite)
  unfolding rename
  rename-Keeps c from to o hf ht hr =
      Keeps-then_ok _ _ (check-Keeps c from)
        (Keeps-then_ok _ _ (check-Keeps c to) (move-Keeps _ _ c from to o hf ht hr))

  pub remove-Keeps : (c : Client) (p : Bytes) → Writes p → Keeps (remove c p)
  unfolding remove
  remove-Keeps c p h = Keeps-then_ok _ _ (check-Keeps c p) (h, λ r i. tt)

  pub remove_directory-Keeps : (c : Client) (p : Bytes) → Writes p → Keeps (remove_directory c p)
  unfolding remove_directory
  remove_directory-Keeps c p h = Keeps-then_ok _ _ (check-Keeps c p) (h, λ r i. tt)

  pub mkdir-Keeps : (c : Client) (p : Bytes) → Writes p → Keeps (mkdir c p)
  unfolding mkdir
  mkdir-Keeps c p h = (h, λ r i. tt)

  pub close-Keeps : (c : Client) → Keeps (close c)
  unfolding close
  close-Keeps c = (tt, λ r i. (tt, λ s j. tt))

  opened-Keeps : (ssh : ℕ) (root : Bytes) (a : Answer ℕ) → Keeps (opened ssh root a)
  unfolding opened
  opened-Keeps ssh root (done conn) = tt
  opened-Keeps ssh root (failed f) = (tt, λ r i. tt)

  pub new_client-Keeps : (ssh : ℕ) (root : Bytes) → Keeps (new_client ssh root)
  unfolding new_client
  new_client-Keeps ssh root = (tt, λ r i. opened-Keeps ssh root r)
