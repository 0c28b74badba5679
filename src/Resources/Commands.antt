-- ===== src/Resources/Commands.antt =====
-- The connections of a session over the commands of internal/ftpserver/clientdriver.go.
use ftp2sftp.Base.{
  ℕ, ◌<◌, Bool, true, false, Option, none, some, if◌then◌else◌, Bytes, String, ◌++◌, codes,
}
use ftp2sftp.Errors.{Error, Result, ok, err}
use ftp2sftp.Authorization.{
  Gate, check_delete, check_mkdir, check_rename, check_upload, check_download, try_acquire,
}
use ftp2sftp.Effects.{ret, bind}
use ftp2sftp.Remote.{Io, ◌>>=◌}
use ftp2sftp.SftpClient
use ftp2sftp.SftpClient.{Client}
use ftp2sftp.SftpClient.Calls.{
  Calls, Calls-bind, stat-Calls, read_dir-Calls, open_read-Calls, rename-Calls, remove-Calls,
  remove_directory-Calls, mkdir-Calls,
}
use ftp2sftp.Metrics.{word}
use ftp2sftp.Session.{Session}
use ftp2sftp.Transfer.{client_fs}
use ftp2sftp.Transfer.Upload.{UploadHandle, new_upload}
use ftp2sftp.Transfer.Upload.Requests.{new_upload-Calls}
use ftp2sftp.Transfer.Download.{DownloadHandle, DownloadOptions, new_download}
use ftp2sftp.Driver.{
  Env, World, maybe_invalidate, audit, remote_path, on_path, permit, on_client, with_client,
  conclude, sftp, release_slot,
}
use ftp2sftp.Driver.Commands
use ftp2sftp.Driver.Commands.{error_of}
use ftp2sftp.Driver.Handles.{
  Flags, with_slot, get_handle, begin_upload, begin_download, upload_in_slot, download_in_slot,
  started_transfer, upload_begun, download_begun, upload_options, download_options,
  no_temporary_file,
}
use ftp2sftp.Driver.Protocol.{
  Command, stats, lists, makes, deletes, removes_dir, renames, opens, drive, perform,
}
use ftp2sftp.Resources.{Open, Holds, Holds-bind, Holds-if}
use ftp2sftp.Resources.Dialling.{Unchanged}
use ftp2sftp.Resources.Driving.{drive-Tracked}
use ftp2sftp.Resources.Sessions.{
  Calls-Unchanged, InWorld, Tracked, sftp-Tracks, maybe_invalidate-Tracked,
}

module _ (n : Open) (base : ℕ) (small : base < word) (s : Session) where
  abbrev Kept : {A : Type 0} → Open → Io (World × A) → Type 0
  Kept k m = Holds (InWorld n base small s) k m

  abbrev At : World → Open → Type 0
  At w k = Tracked n base small s w k

  audited :
      (command : String) (path : Bytes) (e : Option Error) (w : World) (k : Open)
      → At w k
      → At (audit command path e w) k
  unfolding audit
  audited command path e w k h = record {
    open_eq = h.open_eq;
    gauge_eq = h.gauge_eq;
    same = h.same;
    closed_eq = h.closed_eq;
  }

  on_path-Kept :
      {A : Type 0} (command : String) (name : Bytes) (w : World) (k : Open)
      (p : Result (Bytes × Bytes)) (f : Bytes → Bytes → Io (World × Result A))
      → At w k
      → ((v r : Bytes) → Kept k (f v r))
      → Kept k (on_path command name w p f)
  on_path-Kept command name w k (err e) f h g = audited command name (some e) w k h
  on_path-Kept command name w k (ok p) f h g = g p.0 p.1

  permit-Kept :
      {A : Type 0} (command : String) (path : Bytes) (w : World) (k : Open) (o : Option Error)
      (m : Io (World × Result A))
      → At w k
      → Kept k m
      → Kept k (permit command path w o m)
  permit-Kept command path w k none m h g = g
  permit-Kept command path w k (some e) m h g = audited command path (some e) w k h

  with_client-Kept :
      {A : Type 0} (env : Env) (command : String) (path : Bytes) (w : World) (k : Open)
      (f : World → Client → Io (World × Result A))
      → At w k
      → ((w : World) (c : Client) (k : Open) → At w k → Kept k (f w c))
      → Kept k (with_client env command path w f)
  with_client-Kept env command path w k f h g =
      Holds-bind (InWorld n base small s) (InWorld n base small s) k (sftp env w) _
        (sftp-Tracks n base small s env w k h) (λ r k d. go r k d)
    where
      go :
          (r : World × Result Client) (k : Open)
          → InWorld n base small s r k
          → Kept k (on_client command path f r)
      go (w, err e) k d = audited command path (some e) w k d
      go (w, ok c) k d = g w c k d

  new_download-Calls :
      (c : Client) (p : Bytes) (opts : DownloadOptions) → Calls (new_download (client_fs c) p opts)
  unfolding new_download
  new_download-Calls c p opts = Calls-bind _ _ (open_read-Calls c p) (λ r. tt)

  -- A call of the client, and what follows it.
  call-Kept :
      {A B : Type 0} (k : Open) (m : Io A) (f : A → Io (World × B))
      → Calls m
      → ((a : A) → Kept k (f a))
      → Kept k (bind m f)
  call-Kept k m f h g =
      Holds-bind (Unchanged k) (InWorld n base small s) k m f (Calls-Unchanged k m h)
        (λ a l e. rw e (g a))

  conclude-Kept :
      (command : String) (path : Bytes) (w : World) (k : Open) (e : Option Error)
      → At w k
      → Kept k (conclude command path w e)
  conclude-Kept command path w k e h =
      Holds-bind At (InWorld n base small s) k (maybe_invalidate e w) _
        (maybe_invalidate-Tracked n base small s e w k h) (λ w' k d. audited command path e w' k d)

  -- The result of a call that is not audited, or audited by what follows.
  invalidated-Kept :
      {A : Type 0} (w : World) (k : Open) (e : Option Error) (f : World → World × A)
      → At w k
      → ((w : World) (k : Open) → At w k → InWorld n base small s (f w) k)
      → Kept k (bind (maybe_invalidate e w) (λ w. ret (f w)))
  invalidated-Kept w k e f h g =
      Holds-bind At (InWorld n base small s) k (maybe_invalidate e w) _
        (maybe_invalidate-Tracked n base small s e w k h) g

  stat-Kept :
      (env : Env) (name : Bytes) (w : World) (k : Open) → At w k → Kept k (Commands.stat env name w)
  unfolding Commands.stat
  stat-Kept env name w k h = on_path-Kept _ _ w k _ _ h (λ v r.
      with_client-Kept env _ _ w k _ h (λ w c k h.
        call-Kept k _ _ (stat-Calls c r) (λ a. invalidated-Kept w k (error_of a) _ h (λ w k h. h))))

  read_dir-Kept :
      (env : Env) (name : Bytes) (w : World) (k : Open)
      → At w k
      → Kept k (Commands.read_dir env name w)
  unfolding Commands.read_dir
  read_dir-Kept env name w k h = on_path-Kept _ _ w k _ _ h (λ v r.
      with_client-Kept env _ _ w k _ h (λ w c k h.
        call-Kept k _ _ (read_dir-Calls c r env.read_dir_timeout)
          (λ a. invalidated-Kept w k (error_of a) _ h (λ w k h. audited _ _ _ w k h))))

  changing :
      (env : Env) (command : String) (v : Bytes) (w : World) (k : Open) (o : Option Error)
      (op : World → Client → Io (Option Error))
      → ((w : World) (c : Client) → Calls (op w c))
      → At w k
      → Kept k (
          permit command v w o (with_client env command v w λ w c. op w c >>= conclude command v w))
  changing env command v w k o op g h = permit-Kept command v w k o _ h (
      with_client-Kept env command v w k (λ w c. op w c >>= conclude command v w) h
        (λ w c k h.
          call-Kept k (op w c) (conclude command v w) (g w c)
            (λ e. conclude-Kept command v w k e h)))

  mkdir-Kept :
      (env : Env) (name : Bytes) (w : World) (k : Open)
      → At w k
      → Kept k (Commands.mkdir env name w)
  unfolding Commands.mkdir
  mkdir-Kept env name w k h =
      on_path-Kept "MKD" name w k (remote_path w.session.mapper name) _ h (λ v r.
        changing env "MKD" v w k (check_mkdir w.session.policy) (λ w c. SftpClient.mkdir c r)
          (λ w c. mkdir-Calls c r) h)

  remove-Kept :
      (env : Env) (name : Bytes) (w : World) (k : Open)
      → At w k
      → Kept k (Commands.remove env name w)
  unfolding Commands.remove
  remove-Kept env name w k h =
      on_path-Kept "DELE" name w k (remote_path w.session.mapper name) _ h (λ v r.
        changing env "DELE" v w k (check_delete w.session.policy) (λ w c. SftpClient.remove c r)
          (λ w c. remove-Calls c r) h)

  remove_dir-Kept :
      (env : Env) (name : Bytes) (w : World) (k : Open)
      → At w k
      → Kept k (Commands.remove_dir env name w)
  unfolding Commands.remove_dir
  remove_dir-Kept env name w k h =
      on_path-Kept "RMD" name w k (remote_path w.session.mapper name) _ h (λ v r.
        changing env "RMD" v w k (check_delete w.session.policy)
          (λ w c. SftpClient.remove_directory c r) (λ w c. remove_directory-Calls c r) h)

  rename-Kept :
      (env : Env) (old new : Bytes) (w : World) (k : Open)
      → At w k
      → Kept k (Commands.rename env old new w)
  unfolding Commands.rename
  rename-Kept env old new w k h =
      let between = λ (a b : Bytes). a ++ codes " -> " ++ b in
      on_path-Kept "RNTO" (between old new) w k (remote_path w.session.mapper old) _ h (λ v r.
        on_path-Kept "RNTO" (between v new) w k (remote_path w.session.mapper new) _ h (λ v' r'.
          changing env "RNTO" (between v v') w k (check_rename w.session.policy)
            (λ w c. SftpClient.rename c r r' w.session.policy.allow_overwrite)
            (λ w c. rename-Calls c r r' w.session.policy.allow_overwrite) h))

  slotted :
      {A : Type 0} (command : String) (v : Bytes) (w : World) (k : Open) (g : Gate × Bool)
      (f : World → Io (World × Result A))
      → At w k
      → ((w : World) → At w k → Kept k (f w))
      → Kept k (with_slot command v w g f)
  unfolding with_slot
  slotted command v w k (g, true) f h q =
      q (record w { gate = g })
        (record {
          open_eq = h.open_eq;
          gauge_eq = h.gauge_eq;
          same = h.same;
          closed_eq = h.closed_eq;
        })
  slotted command v w k (g, false) f h q =
      audited command v _ (record w { gate = g }) k
        (record {
          open_eq = h.open_eq;
          gauge_eq = h.gauge_eq;
          same = h.same;
          closed_eq = h.closed_eq;
        })

  -- The other metrics, the gate and the log do not matter.
  upload_in_slot-Kept :
      (env : Env) (c : Client) (v r fresh : Bytes) (w : World) (k : Open)
      → At w k
      → Kept k (upload_in_slot env c v r fresh w)
  unfolding upload_in_slot started_transfer
  upload_in_slot-Kept env c v r fresh w k h =
      call-Kept k (new_upload (client_fs c) r (upload_options env w v fresh)) _
        (new_upload-Calls c r (upload_options env w v fresh)) (λ a. after a)
    where
      after :
          (a : Result UploadHandle)
          → InWorld n base small s (upload_begun v (started_transfer true w) a) k
      after (ok u) =
          unfold upload_begun started_transfer in
          record {
            open_eq = h.open_eq;
            gauge_eq = h.gauge_eq;
            same = h.same;
            closed_eq = h.closed_eq;
          }
      after (err e) =
          unfold upload_begun started_transfer release_slot no_temporary_file audit in
          record {
            open_eq = h.open_eq;
            gauge_eq = h.gauge_eq;
            same = h.same;
            closed_eq = h.closed_eq;
          }

  download_in_slot-Kept :
      (env : Env) (c : Client) (v r fresh : Bytes) (w : World) (k : Open)
      → At w k
      → Kept k (download_in_slot env c v r fresh w)
  unfolding download_in_slot started_transfer
  download_in_slot-Kept env c v r fresh w k h =
      call-Kept k (new_download (client_fs c) r (download_options env w v fresh)) _
        (new_download-Calls c r (download_options env w v fresh)) (λ a. after a)
    where
      after :
          (a : Result DownloadHandle)
          → InWorld n base small s (download_begun v (started_transfer false w) a) k
      after (ok d) =
          unfold download_begun started_transfer in
          record {
            open_eq = h.open_eq;
            gauge_eq = h.gauge_eq;
            same = h.same;
            closed_eq = h.closed_eq;
          }
      after (err e) =
          unfold download_begun started_transfer release_slot audit in
          record {
            open_eq = h.open_eq;
            gauge_eq = h.gauge_eq;
            same = h.same;
            closed_eq = h.closed_eq;
          }

  begin_upload-Kept :
      (env : Env) (c : Client) (v r fresh : Bytes) (flags : Flags) (w : World) (k : Open)
      → At w k
      → Kept k (begin_upload env c v r flags fresh w)
  unfolding begin_upload
  begin_upload-Kept env c v r fresh flags w k h =
      Holds-if (InWorld n base small s) k flags.append _ _ (λ _. h)
        (λ _. permit-Kept "STOR" v w k (check_upload w.session.policy) _ h (
          slotted "STOR" v w k (try_acquire w.gate) (upload_in_slot env c v r fresh) h
            (λ w h. upload_in_slot-Kept env c v r fresh w k h)))

  begin_download-Kept :
      (env : Env) (c : Client) (v r fresh : Bytes) (w : World) (k : Open)
      → At w k
      → Kept k (begin_download env c v r fresh w)
  unfolding begin_download
  begin_download-Kept env c v r fresh w k h =
      permit-Kept "RETR" v w k (check_download w.session.policy) _ h (
        slotted "RETR" v w k (try_acquire w.gate) (download_in_slot env c v r fresh) h
          (λ w h. download_in_slot-Kept env c v r fresh w k h))

  get_handle-Kept :
      (env : Env) (name : Bytes) (flags : Flags) (fresh : Bytes) (w : World) (k : Open)
      → At w k
      → Kept k (get_handle env name flags fresh w)
  unfolding get_handle
  get_handle-Kept env name flags fresh w k h =
      let command : String = if flags.wronly then "STOR" else "RETR" in
      on_path-Kept command name w k (remote_path w.session.mapper name) _ h (λ v r.
        with_client-Kept env command v w k _ h (λ w c k h.
          Holds-if (InWorld n base small s) k flags.wronly _ _
            (λ _. begin_upload-Kept env c v r fresh flags w k h)
            (λ _. begin_download-Kept env c v r fresh w k h)))

  state_only :
      {A : Type 0} (k : Open) (m : Io (World × A)) → Kept k m → Holds At k (bind m (λ r. ret r.0))
  state_only k m h = Holds-bind (InWorld n base small s) At k m _ h (λ r k d. d)

  -- Whatever a client asks for and whatever the server and the network answer, a command leaves the
  -- session with one open connection if it is connected and with none otherwise, closes no other
  -- connection, and moves the gauge of SFTP connections by just what it opens and closes; it changes
  -- neither the session's id nor its mapper nor its policy.
  pub perform-Tracked :
      (env : Env) (c : Command) (w : World) (k : Open) → At w k → Holds At k (perform env c w)
  unfolding perform
  perform-Tracked env (stats name) w k h = state_only k _ (stat-Kept env name w k h)
  perform-Tracked env (lists name) w k h = state_only k _ (read_dir-Kept env name w k h)
  perform-Tracked env (makes name) w k h = state_only k _ (mkdir-Kept env name w k h)
  perform-Tracked env (deletes name) w k h = state_only k _ (remove-Kept env name w k h)
  perform-Tracked env (removes_dir name) w k h = state_only k _ (remove_dir-Kept env name w k h)
  perform-Tracked env (renames old new) w k h = state_only k _ (rename-Kept env old new w k h)
  perform-Tracked env (opens name flags fresh d) w k h =
      Holds-bind (InWorld n base small s) At k (get_handle env name flags fresh w) (drive d)
        (get_handle-Kept env name flags fresh w k h) (λ r k t. drive-Tracked n base small s d r k t)
