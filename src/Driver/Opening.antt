-- ===== src/Driver/Opening.antt =====
-- The requests with which a transfer begins (internal/ftpserver/clientdriver.go).
use ftp2sftp.Base.{
  Bool, true, false, ◌≡◌, refl, sym, ap, ◌∙◌, subst, String, Option, none, some, Bytes,
}
use ftp2sftp.Errors.{Error, Result, ok, err}
use ftp2sftp.Authorization.{Gate, check_upload, try_acquire}
use ftp2sftp.Effects.{Always, Always-bind, Always-if}
use ftp2sftp.Remote.{Io}
use ftp2sftp.SftpClient.{Client}
use ftp2sftp.SftpClient.Requests.{Anything, Within, Whatever, Keeps-bind, open_read-Keeps}
use ftp2sftp.Session.Requests.{Same}
use ftp2sftp.Transfer.{client_fs, temp_path}
use ftp2sftp.Transfer.Upload.{UploadHandle, new_upload}
use ftp2sftp.Transfer.Upload.Requests.{Placed, new_upload-Placed}
use ftp2sftp.Transfer.Download.{DownloadHandle, new_download}
use ftp2sftp.Driver.{Env, World, remote_path, on_path, permit, on_client, with_client, sftp}
use ftp2sftp.Driver.Requests.{sftp-K}
use ftp2sftp.Driver.Handles.{
  Handle, upload, download, Flags, with_slot, upload_options, begin_upload, begin_download,
  get_handle, upload_in_slot, download_in_slot, upload_begun, download_begun, started_transfer,
}

module _ (Reads Writes : Bytes → Type 0) where
  -- Where an upload may write and look.
  abbrev pub May : Bytes → Bytes → Type 0
  May temp final = Writes temp × Writes final × Reads final

  abbrev pub Aimed : Result Handle → Type 0
  Aimed (err e) = Unit {0}
  Aimed (ok (download d)) = Unit {0}
  Aimed (ok (upload u)) = May u.temp u.final

  -- The requests stay within, and so does what the handle, if there is one, aims at.
  abbrev pub Opens : Io (World × Result Handle) → Type 0
  Opens m = Always Anything (Within Reads Writes) (λ r. Aimed r.1) m

  on_path-Opens :
      (command : String) (name : Bytes) (w : World) (r : Result (Bytes × Bytes))
      (k : Bytes → Bytes → Io (World × Result Handle))
      → ((p : Bytes × Bytes) → r ≡ ok p → Opens (k p.0 p.1))
      → Opens (on_path command name w r k)
  on_path-Opens command name w (ok p) k h = h p refl
  on_path-Opens command name w (err e) k h = tt

  permit-Opens :
      (command : String) (path : Bytes) (w : World) (e : Option Error)
      (k : Io (World × Result Handle))
      → (e ≡ none → Opens k)
      → Opens (permit command path w e k)
  permit-Opens command path w none k h = h refl
  permit-Opens command path w (some e) k h = tt

  with_slot-Opens :
      (command : String) (v : Bytes) (w : World) (g : Gate × Bool)
      (k : World → Io (World × Result Handle))
      → ((g : Gate) → Opens (k (record w { gate = g })))
      → Opens (with_slot command v w g k)
  unfolding with_slot
  with_slot-Opens command v w (g, true) k h = h g
  with_slot-Opens command v w (g, false) k h = tt

  with_client-Opens :
      (env : Env) (command : String) (path : Bytes) (w : World)
      (k : World → Client → Io (World × Result Handle))
      → ((w' : World) (c : Client) → Same w.session w'.session → Opens (k w' c))
      → Opens (with_client env command path w k)
  with_client-Opens env command path w k h =
      Always-bind Anything _ (λ r. Same w.session r.0.session) (λ r. Aimed r.1) (sftp env w)
        (on_client command path k) (sftp-K Reads Writes env w) (λ r s. go r s)
    where
      go :
          (r : World × Result Client)
          → Same w.session r.0.session
          → Opens (on_client command path k r)
      go (w', ok c) s = h w' c s
      go (w', err e) s = tt

  upload_in_slot-Opens :
      (env : Env) (c : Client) (v remote fresh : Bytes) (w : World)
      → May (temp_path remote w.session.id env.temporary_suffix) remote
      → Opens (upload_in_slot env c v remote fresh w)
  unfolding upload_in_slot
  upload_in_slot-Opens env c v remote fresh w m =
      let opts = upload_options env w v fresh in
      Always-bind Anything (Within Reads Writes) (Placed remote opts) (λ r. Aimed r.1)
        (new_upload (client_fs c) remote opts) _
        (new_upload-Placed Reads Writes c remote opts m.2 m.0) (λ r p. begun r p)
    where
      begun :
          (r : Result UploadHandle)
          → Placed remote (upload_options env w v fresh) r
          → Aimed (upload_begun v (started_transfer true w) r).1
      begun (err e) p = tt
      begun (ok u) p =
          (subst Writes (sym p.0) m.0, subst Writes (sym p.1) m.1, subst Reads (sym p.1) m.2)

  begin_upload-Opens :
      (env : Env) (c : Client) (v remote : Bytes) (flags : Flags) (fresh : Bytes) (w : World)
      → (check_upload w.session.policy ≡ none
          → May (temp_path remote w.session.id env.temporary_suffix) remote)
      → Opens (begin_upload env c v remote flags fresh w)
  unfolding begin_upload
  begin_upload-Opens env c v remote flags fresh w m =
      Always-if Anything (Within Reads Writes) (λ r. Aimed r.1) flags.append _ _ (λ _. tt)
        (λ _. permit-Opens _ _ w _ _ (λ a.
          with_slot-Opens "STOR" v w (try_acquire w.gate) (upload_in_slot env c v remote fresh)
            (λ g. upload_in_slot-Opens env c v remote fresh (record w { gate = g }) (m a))))

  download_in_slot-Opens :
      (env : Env) (c : Client) (v remote fresh : Bytes) (w : World)
      → Reads remote
      → Opens (download_in_slot env c v remote fresh w)
  unfolding download_in_slot new_download
  download_in_slot-Opens env c v remote fresh w hr =
      Always-bind Anything (Within Reads Writes) Whatever (λ r. Aimed r.1) _ _
        (Keeps-bind Reads Writes _ _ (open_read-Keeps Reads Writes c remote hr) (λ r. tt))
        (λ r _. begun r)
    where
      begun : (r : Result DownloadHandle) → Aimed (download_begun v (started_transfer false w) r).1
      begun (err e) = tt
      begun (ok d) = tt

  begin_download-Opens :
      (env : Env) (c : Client) (v remote fresh : Bytes) (w : World)
      → Reads remote
      → Opens (begin_download env c v remote fresh w)
  unfolding begin_download
  begin_download-Opens env c v remote fresh w hr = permit-Opens _ _ w _ _ (λ a.
      with_slot-Opens "RETR" v w (try_acquire w.gate) (download_in_slot env c v remote fresh)
        (λ g. download_in_slot-Opens env c v remote fresh (record w { gate = g }) hr))

  -- The remote paths of a name, of which `P` holds.
  abbrev Covers : World → Bytes → (Bytes → Type 0) → Type 0
  Covers w name P = (p : Bytes × Bytes) → remote_path w.session.mapper name ≡ ok p → P p.1

  pub get_handle-Opens :
      (env : Env) (name : Bytes) (flags : Flags) (fresh : Bytes) (w : World)
      → Covers w name Reads
      → (flags.wronly ≡ true
          → check_upload w.session.policy ≡ none
          → Covers w name (λ q. May (temp_path q w.session.id env.temporary_suffix) q))
      → Opens (get_handle env name flags fresh w)
  unfolding get_handle
  get_handle-Opens env name flags fresh w hr hw = on_path-Opens _ _ w _ _ (λ p e.
      with_client-Opens env _ _ w _ (λ w' c s.
        Always-if Anything _ (λ r. Aimed r.1) flags.wronly _ _
          (λ f.
            begin_upload-Opens env c p.0 p.1 flags fresh w'
              (λ a. rw s.id_eq (hw f (ap check_upload (sym s.policy_eq) ∙ a) p e)))
          (λ _. begin_download-Opens env c p.0 p.1 fresh w' (hr p e))))
