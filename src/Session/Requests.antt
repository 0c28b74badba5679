-- ===== src/Session/Requests.antt =====
-- The requests of a session when it dials or drops its connection (internal/session/session.go).
use ftp2sftp.Effects.{Always, Always-bind, Always-if}
use ftp2sftp.Base.{◌≡◌, refl, Option, none, some, Bytes}
use ftp2sftp.Errors.{Result, ok, err}
use ftp2sftp.Remote.{Io}
use ftp2sftp.SftpClient.{Client}
use ftp2sftp.SftpClient.Requests.{Anything, Within, Whatever, Keeps, Keeps-bind, close-Keeps}
use ftp2sftp.Session.{Session, connection, reuse, dialled, drop_client, invalidate_sftp}

-- What no operation of a session changes.
pub record Same (s t : Session) : Type 0 where
  pub id_eq : t.id ≡ s.id
  pub mapper_eq : t.mapper ≡ s.mapper
  pub policy_eq : t.policy ≡ s.policy

module _ (Reads Writes : Bytes → Type 0) where
  drop_client-Keeps : (s : Session) (o : Option Client) → Keeps Reads Writes (drop_client s o)
  unfolding drop_client
  drop_client-Keeps s none = tt
  drop_client-Keeps s (some c) = Keeps-bind Reads Writes _ _ (close-Keeps Reads Writes c) (λ e. tt)

  pub invalidate_sftp-Keeps : (s : Session) → Keeps Reads Writes (invalidate_sftp s)
  unfolding invalidate_sftp
  invalidate_sftp-Keeps s =
      Keeps-bind Reads Writes (drop_client s s.sftp) _ (drop_client-Keeps s s.sftp) (λ r. tt)

  -- A dial keeps what identifies the session and what it may do.
  pub connection-Keeps :
      {S : Type 0} (connect : S → Io (S × Result Client)) (s : Session) (w : S)
      → Keeps Reads Writes (connect w)
      → Always Anything (Within Reads Writes) (λ r. Same s r.0) (connection connect s w)
  unfolding connection
  connection-Keeps {S} connect s w h =
      Always-if Anything _ (λ r. Same s r.0) s.closed _ _ (λ _. same) (λ _. reused s.sftp)
    where
      same : Same s s
      same = record { id_eq = refl; mapper_eq = refl; policy_eq = refl }

      after : (r : S × Result Client) → Same s (dialled connect s r).0
      after (w, ok c) =
          unfold dialled in record { id_eq = refl; mapper_eq = refl; policy_eq = refl }
      after (w, err e) = unfold dialled in same

      reused :
          (o : Option Client)
          → Always Anything (Within Reads Writes) (λ r. Same s r.0) (reuse connect s w o)
      reused none =
          Always-bind Anything _ Whatever (λ r. Same s r.0) (connect w) _ h (λ r _. after r)
      reused (some c) = same
