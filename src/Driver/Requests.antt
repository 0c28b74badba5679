-- ===== src/Driver/Requests.antt =====
-- The requests that the commands of internal/ftpserver/clientdriver.go make.
use ftp2sftp.Base.{ℕ, Bool, true, false, ◌≡◌, refl, String, Option, none, some, Bytes}
use ftp2sftp.Errors.{Error, Result, ok, err, kind_of}
use ftp2sftp.Authorization.{Gate, check_delete, check_mkdir, check_rename}
use ftp2sftp.Effects.{Always, Always-bind}
use ftp2sftp.Remote.{Io}
use ftp2sftp.SftpClient.{Client}
use ftp2sftp.SftpClient.Requests.{
  Anything, Within, Whatever, Keeps, Keeps-bind, Keeps-if, stat-Keeps, read_dir-Keeps, rename-Keeps,
  remove-Keeps, remove_directory-Keeps, mkdir-Keeps, new_client-Keeps,
}
use ftp2sftp.SshClient.Requests.{dial-Keeps}
use ftp2sftp.Session.{is_connected}
use ftp2sftp.Session.Requests.{Same, connection-Keeps, invalidate_sftp-Keeps}
use ftp2sftp.Metrics.{Metrics}
use ftp2sftp.Driver.{
  Env, World, connector, open_channel, sftp, drop_connection, maybe_invalidate, is_connection_error,
  remote_path, on_path, permit, on_client, with_client, conclude,
}
use ftp2sftp.Driver.Commands
use ftp2sftp.Driver.Commands.{error_of}
use ftp2sftp.Driver.Handles.{with_slot}

module _ (Reads Writes : Bytes → Type 0) where
  abbrev K : {A : Type 0} → Io A → Type 0
  K m = Keeps Reads Writes m

  open_channel-K : (env : Env) (m : Metrics) (r : Result ℕ) → K (open_channel env m r)
  unfolding open_channel
  open_channel-K env m (ok ssh) =
      Keeps-bind Reads Writes _ _ (new_client-Keeps Reads Writes ssh env.root_path) (λ r. tt)
  open_channel-K env m (err e) = tt

  connector-K : (env : Env) (m : Metrics) → K (connector env m)
  unfolding connector
  connector-K env m =
      Keeps-bind Reads Writes _ _ (dial-Keeps Reads Writes env.target) (λ r. open_channel-K env m r)

  pub sftp-K :
      (env : Env) (w : World)
      → Always Anything (Within Reads Writes) (λ r. Same w.session r.0.session) (sftp env w)
  unfolding sftp
  sftp-K env w =
      Always-bind Anything _ (λ r. Same w.session r.0) (λ r. Same w.session r.0.session) _ _
        (connection-Keeps Reads Writes (connector env) w.session w.metrics
          (connector-K env w.metrics))
        (λ r s. s)

  with_client-Same-K :
      {A : Type 0} (env : Env) (command : String) (path : Bytes) (w : World)
      (k : World → Client → Io (World × Result A))
      → ((w' : World) (c : Client) → Same w.session w'.session → K (k w' c))
      → K (with_client env command path w k)
  with_client-Same-K env command path w k h =
      Always-bind Anything _ (λ r. Same w.session r.0.session) Whatever (sftp env w)
        (on_client command path k) (sftp-K env w) (λ r s. go r s)
    where
      go : (r : World × Result Client) → Same w.session r.0.session → K (on_client command path k r)
      go (w', ok c) s = h w' c s
      go (w', err e) s = tt

  with_client-K :
      {A : Type 0} (env : Env) (command : String) (path : Bytes) (w : World)
      (k : World → Client → Io (World × Result A))
      → ((w : World) (c : Client) → K (k w c))
      → K (with_client env command path w k)
  with_client-K env command path w k h = with_client-Same-K env command path w k (λ w c s. h w c)

  drop_connection-K : (w : World) → K (drop_connection w)
  unfolding drop_connection
  drop_connection-K w =
      Keeps-bind Reads Writes _ _ (invalidate_sftp-Keeps Reads Writes w.session) (λ r. tt)

  maybe_invalidate-K : (e : Option Error) (w : World) → K (maybe_invalidate e w)
  unfolding maybe_invalidate
  maybe_invalidate-K none w = tt
  maybe_invalidate-K (some e) w =
      Keeps-if Reads Writes (is_connection_error (kind_of e)) _ _
        (Keeps-if Reads Writes (is_connected w.session) _ _ (drop_connection-K w) tt) tt

  conclude-K :
      (command : String) (path : Bytes) (w : World) (e : Option Error)
      → K (conclude command path w e)
  conclude-K command path w e = Keeps-bind Reads Writes _ _ (maybe_invalidate-K e w) (λ w. tt)

  on_path-K :
      {A : Type 0} (command : String) (name : Bytes) (w : World) (r : Result (Bytes × Bytes))
      (k : Bytes → Bytes → Io (World × Result A))
      → ((p : Bytes × Bytes) → r ≡ ok p → K (k p.0 p.1))
      → K (on_path command name w r k)
  on_path-K command name w (ok p) k h = h p refl
  on_path-K command name w (err e) k h = tt

  permit-K :
      {A : Type 0} (command : String) (path : Bytes) (w : World) (e : Option Error)
      (k : Io (World × Result A))
      → (e ≡ none → K k)
      → K (permit command path w e k)
  permit-K command path w none k h = h refl
  permit-K command path w (some e) k h = tt

  with_slot-K :
      {A : Type 0} (command : String) (v : Bytes) (w : World) (g : Gate × Bool)
      (k : World → Io (World × Result A))
      → ((g : Gate) → K (k (record w { gate = g })))
      → K (with_slot command v w g k)
  unfolding with_slot
  with_slot-K command v w (g, true) k h = h g
  with_slot-K command v w (g, false) k h = tt

  -- The remote paths of a name, of which `P` holds.
  abbrev Covers : World → Bytes → (Bytes → Type 0) → Type 0
  Covers w name P = (p : Bytes × Bytes) → remote_path w.session.mapper name ≡ ok p → P p.1

  pub stat-Within :
      (env : Env) (name : Bytes) (w : World) → Covers w name Reads → K (Commands.stat env name w)
  unfolding Commands.stat
  stat-Within env name w hr = on_path-K _ _ w _ _ (λ p e. with_client-K env _ _ w _ (λ w c.
      Keeps-bind Reads Writes _ _ (stat-Keeps Reads Writes c p.1 (hr p e))
        (λ r. Keeps-bind Reads Writes _ _ (maybe_invalidate-K (error_of r) w) (λ w. tt))))

  pub read_dir-Within :
      (env : Env) (name : Bytes) (w : World)
      → Covers w name Reads
      → K (Commands.read_dir env name w)
  unfolding Commands.read_dir
  read_dir-Within env name w hr = on_path-K _ _ w _ _ (λ p e. with_client-K env _ _ w _ (λ w c.
      Keeps-bind Reads Writes _ _ (read_dir-Keeps Reads Writes c p.1 env.read_dir_timeout (hr p e))
        (λ r. Keeps-bind Reads Writes _ _ (maybe_invalidate-K (error_of r) w) (λ w. tt))))

  pub mkdir-Within :
      (env : Env) (name : Bytes) (w : World)
      → (check_mkdir w.session.policy ≡ none → Covers w name Writes)
      → K (Commands.mkdir env name w)
  unfolding Commands.mkdir
  mkdir-Within env name w hw = on_path-K _ _ w _ _ (λ p e. permit-K _ _ w _ _ (λ a.
      with_client-K env _ _ w _ (λ w' c.
        Keeps-bind Reads Writes _ _ (mkdir-Keeps Reads Writes c p.1 (hw a p e))
          (λ r. conclude-K "MKD" p.0 w' r))))

  pub remove-Within :
      (env : Env) (name : Bytes) (w : World)
      → (check_delete w.session.policy ≡ none → Covers w name Writes)
      → K (Commands.remove env name w)
  unfolding Commands.remove
  remove-Within env name w hw = on_path-K _ _ w _ _ (λ p e. permit-K _ _ w _ _ (λ a.
      with_client-K env _ _ w _ (λ w' c.
        Keeps-bind Reads Writes _ _ (remove-Keeps Reads Writes c p.1 (hw a p e))
          (λ r. conclude-K "DELE" p.0 w' r))))

  pub remove_dir-Within :
      (env : Env) (name : Bytes) (w : World)
      → (check_delete w.session.policy ≡ none → Covers w name Writes)
      → K (Commands.remove_dir env name w)
  unfolding Commands.remove_dir
  remove_dir-Within env name w hw = on_path-K _ _ w _ _ (λ p e. permit-K _ _ w _ _ (λ a.
      with_client-K env _ _ w _ (λ w' c.
        Keeps-bind Reads Writes _ _ (remove_directory-Keeps Reads Writes c p.1 (hw a p e))
          (λ r. conclude-K "RMD" p.0 w' r))))

  pub rename-Within :
      (env : Env) (old new : Bytes) (w : World)
      → Covers w new Reads
      → (check_rename w.session.policy ≡ none → Covers w old Writes × Covers w new Writes)
      → K (Commands.rename env old new w)
  unfolding Commands.rename
  rename-Within env old new w hr hw = on_path-K _ _ w _ _ (λ p e. on_path-K _ _ w _ _ (λ q f.
      permit-K _ _ w _ _ (λ a. with_client-K env _ _ w _ (λ w' c.
        Keeps-bind Reads Writes _ _
          (rename-Keeps Reads Writes c p.1 q.1 w'.session.policy.allow_overwrite ((hw a).0 p e)
            ((hw a).1 q f) (hr q f))
          (λ r. conclude-K "RNTO" _ w' r)))))
