-- ===== src/Authorization.antt =====
-- internal/authorization: the permissions of a user (policy.go) and the bound on the user's
-- transfers in flight (concurrency.go).
pub mod Laws
use ftp2sftp.Base.{
  ℕ, suc, ◌+◌, ◌-◌, Bool, true, false, ◌≡◌, String, Option, none, some, ltb, ◌==◌, if◌then◌else◌,
}
use ftp2sftp.Errors.{Kind, Error, new}

pub record Policy : Type 0 where
  pub allow_upload : Bool
  pub allow_download : Bool
  pub allow_delete : Bool
  pub allow_mkdir : Bool
  pub allow_rename : Bool
  pub allow_overwrite : Bool
  pub max_file_size : ℕ

abbrev pub denied : String → Error
denied = new Kind.authorization "authorization.check"

-- `CheckUpload`, and so on; `none` is `nil`.
unfoldable pub check_upload : Policy → Option Error
check_upload p = if p.allow_upload then none else some (denied "subida no autorizada")

unfoldable pub check_download : Policy → Option Error
check_download p = if p.allow_download then none else some (denied "descarga no autorizada")

unfoldable pub check_delete : Policy → Option Error
check_delete p = if p.allow_delete then none else some (denied "eliminación no autorizada")

unfoldable pub check_mkdir : Policy → Option Error
check_mkdir p = if p.allow_mkdir then none else some (denied "creación de directorio no autorizada")

unfoldable pub check_rename : Policy → Option Error
check_rename p = if p.allow_rename then none else some (denied "renombrado no autorizado")

unfoldable pub check_overwrite : Policy → Option Error
check_overwrite p =
    if p.allow_overwrite
    then none
    else some (new Kind.conflict "authorization.check" "el archivo destino ya existe")

-- A buffered channel as a semaphore: its capacity, and the slots that are taken.
pub record Gate : Type 0 where
  pub max : ℕ
  pub in_use : ℕ

-- `NewConcurrencyGate`.
unfoldable pub new_gate : ℕ → Gate
new_gate max = record { max = max; in_use = 0 }

-- `TryAcquire`: a send that does not block.
unfoldable pub try_acquire : Gate → Gate × Bool
try_acquire g =
    if ltb g.in_use g.max then (record g { in_use = g.in_use + 1 }, true) else (g, false)

-- `Release`: a receive that does not block.
unfoldable pub release : Gate → Gate
release g = if g.in_use == 0 then g else record g { in_use = g.in_use - 1 }
