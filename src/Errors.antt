-- ===== src/Errors.antt =====
-- internal/errors/errors.go: the error taxonomy that every other package of the gateway returns.
-- A Go `error` that may be nil is an `Option Error`; a pair of a value and an error is a `Result`.
pub mod Laws
use mathlib.Core.Logic.{ite}
use text.Mathlib.Text.{◌==◌ as str_eq}
use ftp2sftp.Base.{
  ℕ, Bool, true, false, String, Option, none, some, ◌≡◌, refl, Bytes, if◌then◌else◌,
}

pub data Kind : Type 0 where
  config authentication authorization invalid_path unsupported_command conflict not_found : Kind
  ssh_connection host_key_mismatch sftp_authentication timeout disconnected partial_write : Kind
  remote_storage_full remote_permission_denied rate_limited internal : Kind

-- The string constant of the kind.
unfoldable pub kind_text : Kind → String
kind_text Kind.config = "config"
kind_text Kind.authentication = "authentication"
kind_text Kind.authorization = "authorization"
kind_text Kind.invalid_path = "invalid_path"
kind_text Kind.unsupported_command = "unsupported_command"
kind_text Kind.conflict = "conflict"
kind_text Kind.not_found = "not_found"
kind_text Kind.ssh_connection = "ssh_connection"
kind_text Kind.host_key_mismatch = "host_key_mismatch"
kind_text Kind.sftp_authentication = "sftp_authentication"
kind_text Kind.timeout = "timeout"
kind_text Kind.disconnected = "disconnected"
kind_text Kind.partial_write = "partial_write"
kind_text Kind.remote_storage_full = "remote_storage_full"
kind_text Kind.remote_permission_denied = "remote_permission_denied"
kind_text Kind.rate_limited = "rate_limited"
kind_text Kind.internal = "internal"

-- An error of a foreign package: what `errors.Is` answers for the sentinels that the program asks
-- for, what a `Timeout()` method answers, and its text.
pub record Fault : Type 0 where
  pub is_eof : Bool
  pub is_deadline : Bool
  pub is_not_exist : Bool
  pub is_permission : Bool
  pub times_out : Bool
  pub text : String

-- `new` and `wrap` build `*errors.Error`, without and with an internal cause; `annotated` is
-- `fmt.Errorf` with `%w`, which stands outside the taxonomy and carries an error of it.
pub data Error : Type 0 where
  new : Kind → String → String → Error
  wrap : Kind → String → String → Error → Error
  annotated : String → Error → Error
  external : Fault → Error

pub data Result {ℓ} (A : Type ℓ) : Type ℓ where
  ok : A → Result A
  err : Error → Result A

-- The kinds are compared as Go compares them, by their text.
unfoldable pub eq_kind : Kind → Kind → Bool
unfolding kind_text
eq_kind a b = str_eq (kind_text a) (kind_text b)

abbrev pub message_or_kind : Kind → String → String
message_or_kind k m = if str_eq m "" then kind_text k else m

-- `(*Error).Error` for the errors of the taxonomy; the text of any other error.
unfoldable pub error_text : Error → String
error_text (new k op m) = message_or_kind k m
error_text (wrap k op m c) = message_or_kind k m
error_text (annotated t e) = t
error_text (external f) = f.text

-- `(*Error).Unwrap`, and that of `fmt.Errorf`.
unfoldable pub unwrap : Error → Option Error
unwrap (new k op m) = none
unwrap (wrap k op m c) = some c
unwrap (annotated t e) = some e
unwrap (external f) = none

-- `errors.As` for a `*Error`: the kind of the first one along the chain of causes.
unfoldable pub as_domain : Error → Option Kind
as_domain (new k op m) = some k
as_domain (wrap k op m c) = some k
as_domain (annotated t e) = as_domain e
as_domain (external f) = none

abbrev or_internal : Option Kind → Kind
or_internal none = Kind.internal
or_internal (some k) = k

-- `KindOf`.
unfoldable pub kind_of : Error → Kind
unfolding as_domain
kind_of e = or_internal (as_domain e)

-- `Is`.
unfoldable pub is : Error → Kind → Bool
unfolding kind_of eq_kind
is e k = eq_kind (kind_of e) k

abbrev same_kind : Kind → Option Kind → Bool
same_kind k none = false
same_kind k (some j) = eq_kind j k

-- `(*Error).Is`: the target is in the taxonomy, and of the receiver's kind.
unfoldable pub matches : Kind → Error → Bool
unfolding as_domain eq_kind
matches k target = same_kind k (as_domain target)

-- `errors.Is(err, io.EOF)`, along the chain of causes.
unfoldable pub is_eof : Error → Bool
is_eof (new k op m) = false
is_eof (wrap k op m c) = is_eof c
is_eof (annotated t e) = is_eof e
is_eof (external f) = f.is_eof
