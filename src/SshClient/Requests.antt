-- ===== src/SshClient/Requests.antt =====
-- The requests of a dial (internal/sshclient/dial.go).
use ftp2sftp.Base.{ℕ, [], ◌∷◌, String, Option, none, some, Bytes}
use ftp2sftp.Errors.{Fault, Result, ok, err}
use ftp2sftp.Remote.{Answer, done, failed, AuthMethod, Handshake, connected, key_error, refused, Io}
use ftp2sftp.SftpClient.Requests.{Keeps, Keeps-bind}
use ftp2sftp.SshClient.{
  SshConfig, dial, after_known_hosts, after_auth, after_tcp, after_handshake, build_auth_methods,
  auth_of, load_signer, or_config,
}

module _ (Reads Writes : Bytes → Type 0) where
  abbrev K : {A : Type 0} → Io A → Type 0
  K m = Keeps Reads Writes m

  or_config-K :
      {A B : Type 0} (op message : String) (k : A → Io (Result B)) (a : Answer A)
      → ((x : A) → K (k x))
      → K (or_config op message k a)
  or_config-K op message k (done x) h = h x
  or_config-K op message k (failed f) h = tt

  load_signer-K : (key pass : Bytes) → K (load_signer key pass)
  unfolding load_signer
  load_signer-K key [] =
      (tt, λ r i. or_config-K _ _ _ r (λ b. (tt, λ s j. or_config-K _ _ _ s (λ x. tt))))
  load_signer-K key (c ∷ pass) = (
    tt,
    λ r i.
        or_config-K _ _ _ r
          (λ b. (tt, λ s j. or_config-K _ _ _ s (λ p. (tt, λ t l. or_config-K _ _ _ t (λ x. tt))))),
  )

  auth_of-K : (cfg : SshConfig) (key : Bytes) → K (auth_of cfg key)
  unfolding auth_of
  auth_of-K cfg [] = tt
  auth_of-K cfg (c ∷ key) =
      Keeps-bind Reads Writes _ _ (load_signer-K (c ∷ key) cfg.private_key_passphrase_file)
        (λ r. tt)

  after_handshake-K : (tcp : ℕ) (h : Handshake) → K (after_handshake tcp h)
  unfolding after_handshake
  after_handshake-K tcp (connected s) = tt
  after_handshake-K tcp (key_error f) = (tt, λ r i. tt)
  after_handshake-K tcp (refused f) = (tt, λ r i. tt)

  pub dial-Keeps : (cfg : SshConfig) → K (dial cfg)
  unfolding dial after_known_hosts after_auth after_tcp build_auth_methods
  dial-Keeps cfg = (tt, λ r i. known r)
    where
      tcp : (a : AuthMethod) → (r : Answer ℕ) → K (after_tcp cfg a r)
      tcp a (done t) = (tt, λ h j. after_handshake-K t h)
      tcp a (failed f) = tt

      auth : (r : Result AuthMethod) → K (after_auth cfg r)
      auth (ok a) = (tt, λ t j. tcp a t)
      auth (err e) = tt

      known : (r : Option Fault) → K (after_known_hosts cfg r)
      known none = Keeps-bind Reads Writes _ _ (auth_of-K cfg cfg.private_key_file) (λ a. auth a)
      known (some f) = tt
