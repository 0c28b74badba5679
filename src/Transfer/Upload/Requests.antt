-- ===== src/Transfer/Upload/Requests.antt =====
-- The requests with which an upload begins (internal/transfer/upload.go).
use ftp2sftp.Base.{ℕ, ◌≡◌, refl, Option, none, some, Bytes}
use ftp2sftp.Errors.{Error, Result, ok, err}
use ftp2sftp.Effects.{Always, Always-bind}
use ftp2sftp.SftpClient.{Client}
use ftp2sftp.SftpClient.Requests.{
  Anything, Within, Whatever, Keeps-bind, Keeps-if, stat-Keeps, create_temp-Keeps,
}
use ftp2sftp.SftpClient.Calls.{Calls, Calls-bind, Calls-if, stat-Calls, create_temp-Calls}
use ftp2sftp.Transfer.{client_fs, temp_path}
use ftp2sftp.Transfer.Upload.{UploadOptions, UploadHandle, new_upload, begin, opened}

-- The handle, if there is one, commits to the final path by way of its temporary file.
abbrev pub Placed : Bytes → UploadOptions → Result UploadHandle → Type 0
Placed final opts (err e) = Unit {0}
Placed final opts (ok u) =
    (u.temp ≡ temp_path final opts.session_id opts.temporary_suffix) × (u.final ≡ final)

opened-Placed :
    (final : Bytes) (opts : UploadOptions) (r : Result ℕ) → Placed final opts (opened final opts r)
unfolding opened
opened-Placed final opts (err e) = tt
opened-Placed final opts (ok file) = (refl, refl)

module _ (Reads Writes : Bytes → Type 0) where
  begin-Placed :
      (c : Client) (final : Bytes) (opts : UploadOptions) (e : Option Error)
      → Writes (temp_path final opts.session_id opts.temporary_suffix)
      → Always Anything (Within Reads Writes) (Placed final opts) (begin (client_fs c) final opts e)
  unfolding begin
  begin-Placed c final opts (some e) hw = tt
  begin-Placed c final opts none hw =
      Always-bind Anything (Within Reads Writes) Whatever (Placed final opts) _ _
        (create_temp-Keeps Reads Writes c _ hw) (λ r _. opened-Placed final opts r)

  pub new_upload-Placed :
      (c : Client) (final : Bytes) (opts : UploadOptions)
      → Reads final
      → Writes (temp_path final opts.session_id opts.temporary_suffix)
      → Always Anything
          (Within Reads Writes)
          (Placed final opts)
          (new_upload (client_fs c) final opts)
  unfolding new_upload
  new_upload-Placed c final opts hr hw =
      Always-bind Anything (Within Reads Writes) Whatever (Placed final opts) _ _
        (Keeps-if Reads Writes opts.overwrite _ _ tt
          (Keeps-bind Reads Writes _ _ (stat-Keeps Reads Writes c final hr) (λ r. tt)))
        (λ e _. begin-Placed c final opts e hw)

begin-Calls :
    (c : Client) (final : Bytes) (opts : UploadOptions) (e : Option Error)
    → Calls (begin (client_fs c) final opts e)
unfolding begin
begin-Calls c final opts (some e) = tt
begin-Calls c final opts none = Calls-bind _ _ (create_temp-Calls c _) (λ r. tt)

pub new_upload-Calls :
    (c : Client) (final : Bytes) (opts : UploadOptions)
    → Calls (new_upload (client_fs c) final opts)
unfolding new_upload
new_upload-Calls c final opts =
    Calls-bind _ _ (Calls-if opts.overwrite _ _ tt (Calls-bind _ _ (stat-Calls c final) (λ r. tt)))
      (λ e. begin-Calls c final opts e)
