-- ===== src/SshClient.antt =====
-- internal/sshclient/dial.go: one outbound SSH connection, with the host key checked against
-- known_hosts and one authentication method.
pub mod Requests
use mathlib.Core.List.{reverse}
use ftp2sftp.Base.{
  ℕ, ◌*◌, ◌^◌, List, [], ◌∷◌, Bool, true, false, ◌||◌, String, Option, none, some, Bytes, ◌==◌,
  if◌then◌else◌,
}
use ftp2sftp.Errors.{Kind, Fault, Error, new, wrap, external, Result, ok, err}
use ftp2sftp.Effects.{Prog, ret, ask, bind}
use ftp2sftp.Remote.{
  Answer, done, failed, AuthMethod, Handshake, connected, key_error, refused, Request, Io, ◌>>=◌,
  ◌>>◌, call,
}

-- `Config`; `connect_timeout` is in nanoseconds, 0 for every value that is not positive.
pub record SshConfig : Type 0 where
  pub host : Bytes
  pub port : ℕ
  pub username : Bytes
  pub private_key_file : Bytes
  pub private_key_passphrase_file : Bytes
  pub password : Bytes
  pub known_hosts_file : Bytes
  pub connect_timeout : ℕ

strip_newlines : Bytes → Bytes
strip_newlines [] = []
strip_newlines (c ∷ b) = elim (c == b'\n' || c == b'\r') [ true ↦ strip_newlines b | false ↦ c ∷ b ]

-- `trimNewline`, from the end.
unfoldable pub trim_newline : Bytes → Bytes
unfolding strip_newlines
trim_newline b = reverse (strip_newlines (reverse b))

abbrev config_error : String → String → Fault → Error
config_error op message f = wrap Kind.config op message (external f)

-- `if err != nil { return nil, errs.Wrap(KindConfig, op, message, err) }`.
abbrev pub or_config :
    {A B : Type 0} → String → String → (A → Io (Result B)) → Answer A → Io (Result B)
or_config op message k (done a) = k a
or_config op message k (failed f) = ret (err (config_error op message f))

-- `loadSigner`.
unfoldable pub load_signer : Bytes → Bytes → Io (Result ℕ)
load_signer key_file [] =
    call (Request.read_file key_file)
    >>= or_config "sshclient.loadSigner" "no se pudo leer la llave privada SFTP" (λ key.
      call (Request.parse_key key)
      >>= or_config "sshclient.loadSigner" "la llave privada SFTP no es válida"
          (λ signer. ret (ok signer)))
load_signer key_file (c ∷ passphrase_file) =
    call (Request.read_file key_file)
    >>= or_config "sshclient.loadSigner" "no se pudo leer la llave privada SFTP" (λ key.
      call (Request.read_file (c ∷ passphrase_file))
      >>= or_config "sshclient.loadSigner" "no se pudo leer la passphrase de la llave privada SFTP"
          (λ passphrase.
            call (Request.parse_key_with key (trim_newline passphrase))
            >>= or_config "sshclient.loadSigner"
                "la llave privada SFTP no es válida o la passphrase es incorrecta"
                (λ signer. ret (ok signer))))

signer_method : Result ℕ → Result AuthMethod
signer_method (ok s) = ok (AuthMethod.public_keys s)
signer_method (err e) = err e

password_method : Bytes → Result AuthMethod
password_method [] = err (
    new Kind.config "sshclient.buildAuthMethods"
      "no se configuró ningún mecanismo de autenticación SFTP")
password_method (c ∷ p) = ok (AuthMethod.password (c ∷ p))

unfoldable pub auth_of : SshConfig → Bytes → Io (Result AuthMethod)
unfolding signer_method password_method
auth_of cfg [] = ret (password_method cfg.password)
auth_of cfg (c ∷ key_file) =
    load_signer (c ∷ key_file) cfg.private_key_passphrase_file >>= λ r. ret (signer_method r)

-- `buildAuthMethods`: a key is preferred to a password.
unfoldable pub build_auth_methods : SshConfig → Io (Result AuthMethod)
unfolding auth_of
build_auth_methods cfg = auth_of cfg cfg.private_key_file

-- Ten seconds, where no positive timeout is configured.
abbrev pub timeout_of : SshConfig → ℕ
timeout_of cfg = if cfg.connect_timeout == 0 then 10 * 10 ^ 9 else cfg.connect_timeout

unfoldable pub after_handshake : ℕ → Handshake → Io (Result ℕ)
after_handshake tcp (connected ssh) = ret (ok ssh)
after_handshake tcp (key_error f) = do
  _ ← call (Request.close_tcp tcp)
  ret (
      err (
        wrap Kind.host_key_mismatch "sshclient.Dial"
          "la identidad del servidor SFTP remoto no coincide con known_hosts" (external f)))
after_handshake tcp (refused f) = do
  _ ← call (Request.close_tcp tcp)
  ret (
      err (
        wrap Kind.sftp_authentication "sshclient.Dial"
          "falló la autenticación o el handshake SSH con el servidor remoto" (external f)))

unfoldable pub after_tcp : SshConfig → AuthMethod → Answer ℕ → Io (Result ℕ)
unfolding after_handshake
after_tcp cfg auth (failed f) = ret (
    err (
      wrap Kind.ssh_connection "sshclient.Dial" "no se pudo conectar al servidor SFTP remoto"
        (external f)))
after_tcp cfg auth (done tcp) =
    call (Request.handshake tcp cfg.username auth (timeout_of cfg)) >>= after_handshake tcp

unfoldable pub after_auth : SshConfig → Result AuthMethod → Io (Result ℕ)
unfolding after_tcp
after_auth cfg (err e) = ret (err e)
after_auth cfg (ok auth) =
    call (Request.dial_tcp cfg.host cfg.port (timeout_of cfg)) >>= after_tcp cfg auth

unfoldable pub after_known_hosts : SshConfig → Option Fault → Io (Result ℕ)
unfolding after_auth
after_known_hosts cfg none = build_auth_methods cfg >>= after_auth cfg
after_known_hosts cfg (some f) =
    ret (err (config_error "sshclient.Dial" "no se pudo cargar el archivo known_hosts" f))

-- `Dial`. (The deadline that is set on the connection for the handshake is the request's timeout.)
unfoldable pub dial : SshConfig → Io (Result ℕ)
unfolding after_known_hosts
dial cfg = call (Request.load_known_hosts cfg.known_hosts_file) >>= after_known_hosts cfg
