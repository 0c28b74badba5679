-- ===== src/Driver/Permissions.antt =====
-- The policy and the commands of internal/ftpserver/clientdriver.go.
use ftp2sftp.Base.{Bool, true, false, ◌≡◌, none, arith, if◌then◌else◌}
use ftp2sftp.Authorization.{Policy, check_upload, check_delete, check_mkdir, check_rename}
use ftp2sftp.Effects.{ret, bind}
use ftp2sftp.Remote.{Io}
use ftp2sftp.SftpClient.Requests.{Keeps, Keeps-bind}
use ftp2sftp.Driver.{Env, World}
use ftp2sftp.Driver.Requests.{
  stat-Within, read_dir-Within, mkdir-Within, remove-Within, remove_dir-Within, rename-Within,
}
use ftp2sftp.Driver.Opening.{get_handle-Opens}
use ftp2sftp.Driver.Driving.{transfer-Within}
use ftp2sftp.Driver.Protocol.{
  Command, stats, lists, makes, deletes, removes_dir, renames, opens, perform,
}

-- The policy lets the command write.
abbrev pub may_write : Policy → Command → Bool
may_write p (stats name) = false
may_write p (lists name) = false
may_write p (makes name) = p.allow_mkdir
may_write p (deletes name) = p.allow_delete
may_write p (removes_dir name) = p.allow_delete
may_write p (renames old new) = p.allow_rename
may_write p (opens name flags fresh d) = if flags.wronly then p.allow_upload else false

denied_mkdir : (p : Policy) → p.allow_mkdir ≡ false → check_mkdir p ≡ none → ⊥
unfolding check_mkdir
denied_mkdir p h e = ground arith

denied_delete : (p : Policy) → p.allow_delete ≡ false → check_delete p ≡ none → ⊥
unfolding check_delete
denied_delete p h e = ground arith

denied_rename : (p : Policy) → p.allow_rename ≡ false → check_rename p ≡ none → ⊥
unfolding check_rename
denied_rename p h e = ground arith

denied_upload : (p : Policy) → p.allow_upload ≡ false → check_upload p ≡ none → ⊥
unfolding check_upload
denied_upload p h e = ground arith

module _ (env : Env) (w : World) where
  -- Nothing is created, truncated, moved or removed.
  abbrev Reading : {A : Type 0} → Io A → Type 0
  Reading m = Keeps (λ p. Unit {0}) (λ p. ⊥) m

  perform_result : {A : Type 0} (m : Io (World × A)) → Reading m → Reading (bind m (λ r. ret r.0))
  perform_result m h = Keeps-bind (λ p. Unit {0}) (λ p. ⊥) m _ h (λ r. tt)

  -- A command that only reads, and a MKD, DELE, RMD, RNTO or STOR that the policy denies, makes no
  -- request that creates, truncates, moves or removes anything, whatever the server answers; a
  -- transfer from its beginning to the last call on its handle.
  pub perform-denied :
      (c : Command) → may_write w.session.policy c ≡ false → Reading (perform env c w)
  unfolding perform
  perform-denied (stats name) h = perform_result _ (stat-Within _ _ env name w (λ p e. tt))
  perform-denied (lists name) h = perform_result _ (read_dir-Within _ _ env name w (λ p e. tt))
  perform-denied (makes name) h =
      perform_result _
        (mkdir-Within _ _ env name w (λ a. absurd (denied_mkdir w.session.policy h a)))
  perform-denied (deletes name) h =
      perform_result _
        (remove-Within _ _ env name w (λ a. absurd (denied_delete w.session.policy h a)))
  perform-denied (removes_dir name) h =
      perform_result _
        (remove_dir-Within _ _ env name w (λ a. absurd (denied_delete w.session.policy h a)))
  perform-denied (renames old new) h = perform_result _ (
      rename-Within _ _ env old new w (λ p e. tt)
        (λ a. absurd (denied_rename w.session.policy h a)))
  perform-denied (opens name flags fresh d) h = transfer-Within _ _ d _ (
      get_handle-Opens _ _ env name flags fresh w (λ p e. tt)
        (λ f a. absurd (denied_upload w.session.policy (upload_denied f) a)))
    where
      upload_denied : flags.wronly ≡ true → w.session.policy.allow_upload ≡ false
      upload_denied f = ground arith
