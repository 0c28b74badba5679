-- ===== src/Resources/Dialling.antt =====
-- The connections of Dial (internal/sshclient/dial.go), of New and Close (internal/sftpclient/client.go)
-- and of probeUserSFTP (cmd/ftp2sftp/main.go).
use ftp2sftp.Base.{ap, ℕ, [], ◌∷◌, String, Option, none, some, Bytes, ◌≡◌, refl}
use ftp2sftp.Errors.{Fault, Result, ok, err}
use ftp2sftp.Remote.{Answer, done, failed, AuthMethod, Handshake, connected, key_error, refused, Io}
use ftp2sftp.SftpClient
use ftp2sftp.SftpClient.{Client, new_client, opened}
use ftp2sftp.SshClient.{
  SshConfig, dial, after_known_hosts, after_auth, after_tcp, after_handshake, build_auth_methods,
  auth_of, load_signer, or_config,
}
use ftp2sftp.Config.{UserConfig}
use ftp2sftp.Process.{pinged, probe_channel, probe_target, probe_user}
use ftp2sftp.Resources.{
  Open, add_tcp, add_ssh, shaken, opened_by, bump_open, drop_tcp-add_tcp, drop_ssh-add_ssh, Holds,
  Holds-bind,
}

-- One more connection is open if there is a result: the one that it holds.
abbrev pub OneIfOk : Open → Result ℕ → Open → Type 0
OneIfOk n (ok s) k = k ≡ add_ssh s n
OneIfOk n (err e) k = k ≡ n

abbrev pub ClientIfOk : Open → Result Client → Open → Type 0
ClientIfOk n (ok c) k = k ≡ add_ssh c.ssh n
ClientIfOk n (err e) k = k ≡ n

abbrev pub Unchanged : Open → {A : Type 0} → A → Open → Type 0
Unchanged n a k = k ≡ n

or_config-Unchanged :
    {A B : Type 0} (n : Open) (op message : String) (k : A → Io (Result B)) (a : Answer A)
    → ((x : A) → Holds (Unchanged n) n (k x))
    → Holds (Unchanged n) n (or_config op message k a)
or_config-Unchanged n op message k (done x) h = h x
or_config-Unchanged n op message k (failed f) h = refl

load_signer-Unchanged : (n : Open) (key pass : Bytes) → Holds (Unchanged n) n (load_signer key pass)
unfolding load_signer
load_signer-Unchanged n key [] = (
  tt,
  λ r. or_config-Unchanged n _ _ _ r (λ b. (tt, λ s. or_config-Unchanged n _ _ _ s (λ x. refl))),
)
load_signer-Unchanged n key (c ∷ pass) = (
  tt,
  λ r. or_config-Unchanged n _ _ _ r (λ b. (
    tt,
    λ s. or_config-Unchanged n _ _ _ s (λ p. (tt, λ t. or_config-Unchanged n _ _ _ t (λ x. refl))),
  )),
)

auth_of-Unchanged :
    (n : Open) (cfg : SshConfig) (key : Bytes) → Holds (Unchanged n) n (auth_of cfg key)
unfolding auth_of
auth_of-Unchanged n cfg [] = refl
auth_of-Unchanged n cfg (c ∷ key) =
    Holds-bind (Unchanged n) (Unchanged n) n _ _
      (load_signer-Unchanged n (c ∷ key) cfg.private_key_passphrase_file) (λ r k e. e)

after_handshake-OneIfOk :
    (n : Open) (tcp : ℕ) (h : Handshake)
    → Holds (OneIfOk n) (shaken tcp h (add_tcp tcp n)) (after_handshake tcp h)
unfolding after_handshake
after_handshake-OneIfOk n tcp (connected s) = ap (add_ssh s) (drop_tcp-add_tcp tcp n)
after_handshake-OneIfOk n tcp (key_error f) = (bump_open tcp n.tcp, λ r. drop_tcp-add_tcp tcp n)
after_handshake-OneIfOk n tcp (refused f) = (bump_open tcp n.tcp, λ r. drop_tcp-add_tcp tcp n)

pub dial-OneIfOk : (n : Open) (cfg : SshConfig) → Holds (OneIfOk n) n (dial cfg)
unfolding dial after_known_hosts after_auth after_tcp build_auth_methods
dial-OneIfOk n cfg = (tt, λ r. known r)
  where
    tcp : (a : AuthMethod) → (r : Answer ℕ) → Holds (OneIfOk n) (opened_by r n) (after_tcp cfg a r)
    tcp a (done t) = (bump_open t n.tcp, λ h. after_handshake-OneIfOk n t h)
    tcp a (failed f) = refl

    auth : (r : Result AuthMethod) → Holds (OneIfOk n) n (after_auth cfg r)
    auth (ok a) = (tt, λ t. tcp a t)
    auth (err e) = refl

    known : (r : Option Fault) → Holds (OneIfOk n) n (after_known_hosts cfg r)
    known none =
        Holds-bind (Unchanged n) (OneIfOk n) n _ _ (auth_of-Unchanged n cfg cfg.private_key_file)
          (λ a k e. rw e (auth a))
    known (some f) = refl

opened-ClientIfOk :
    (n : Open) (ssh : ℕ) (root : Bytes) (a : Answer ℕ)
    → Holds (ClientIfOk n) (add_ssh ssh n) (opened ssh root a)
unfolding opened
opened-ClientIfOk n ssh root (done conn) = refl
opened-ClientIfOk n ssh root (failed f) = (bump_open ssh n.ssh, λ r. drop_ssh-add_ssh ssh n)

-- The SSH connection is given over: it is closed if there is no client.
pub new_client-ClientIfOk :
    (n : Open) (ssh : ℕ) (root : Bytes) → Holds (ClientIfOk n) (add_ssh ssh n) (new_client ssh root)
unfolding new_client
new_client-ClientIfOk n ssh root = (tt, λ r. opened-ClientIfOk n ssh root r)

pub close-Unchanged :
    (n : Open) (c : Client) → Holds (Unchanged n) (add_ssh c.ssh n) (SftpClient.close c)
unfolding SftpClient.close
close-Unchanged n c = (tt, λ r. (bump_open c.ssh n.ssh, λ s. drop_ssh-add_ssh c.ssh n))

pinged-Unchanged :
    (n k : Open) (r : Result Client) → ClientIfOk n r k → Holds (Unchanged n) k (pinged r)
unfolding pinged SftpClient.ping
pinged-Unchanged n k (err e) h = h
pinged-Unchanged n k (ok c) h = rw h (
  tt,
  λ a.
      Holds-bind (Unchanged n) (Unchanged n) (add_ssh c.ssh n) _ _ (close-Unchanged n c)
        (λ e k h. h),
)

probe_channel-Unchanged :
    (n k : Open) (root : Bytes) (r : Result ℕ)
    → OneIfOk n r k
    → Holds (Unchanged n) k (probe_channel root r)
unfolding probe_channel
probe_channel-Unchanged n k root (err e) h = h
probe_channel-Unchanged n k root (ok ssh) h = rw h (
    Holds-bind (ClientIfOk n) (Unchanged n) (add_ssh ssh n) _ _ (new_client-ClientIfOk n ssh root)
      (λ r k h. pinged-Unchanged n k r h))

-- A probe of a user's target, of a readiness check or of the operator's command, leaves just those
-- connections open that were open before, so that, from nothing, it closes only what it opened itself
-- and has not closed yet, however far it gets: whatever the server, the network and the key files
-- answer.
pub probe_user-Unchanged :
    (n : Open) (u : UserConfig) (timeout : ℕ) → Holds (Unchanged n) n (probe_user u timeout)
unfolding probe_user
probe_user-Unchanged n u timeout =
    Holds-bind (OneIfOk n) (Unchanged n) n _ _ (dial-OneIfOk n (probe_target u timeout))
      (λ r k h. probe_channel-Unchanged n k u.sftp.root_path r h)
