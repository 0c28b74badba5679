-- ===== src/Errors/Laws.antt =====
-- Laws of the error taxonomy (internal/errors/errors.go).
use text.Mathlib.Text.{◌==◌ as str_eq}
use text.Mathlib.TextEquality.{eq_iff}
use ftp2sftp.Base.{true, String, Option, none, some, ◌≡◌, ◌↔◌, refl, ap, if◌then◌else◌}
use ftp2sftp.Errors.{
  Kind, Error, new, wrap, annotated, external, kind_text, eq_kind, error_text, kind_of, is,
}

-- The kind that a text names.
kind_named : String → Option Kind
kind_named s =
    if str_eq s "config"
    then some Kind.config
    else if str_eq s "authentication"
    then some Kind.authentication
    else if str_eq s "authorization"
    then some Kind.authorization
    else if str_eq s "invalid_path"
    then some Kind.invalid_path
    else if str_eq s "unsupported_command"
    then some Kind.unsupported_command
    else if str_eq s "conflict"
    then some Kind.conflict
    else if str_eq s "not_found"
    then some Kind.not_found
    else if str_eq s "ssh_connection"
    then some Kind.ssh_connection
    else if str_eq s "host_key_mismatch"
    then some Kind.host_key_mismatch
    else if str_eq s "sftp_authentication"
    then some Kind.sftp_authentication
    else if str_eq s "timeout"
    then some Kind.timeout
    else if str_eq s "disconnected"
    then some Kind.disconnected
    else if str_eq s "partial_write"
    then some Kind.partial_write
    else if str_eq s "remote_storage_full"
    then some Kind.remote_storage_full
    else if str_eq s "remote_permission_denied"
    then some Kind.remote_permission_denied
    else if str_eq s "rate_limited"
    then some Kind.rate_limited
    else if str_eq s "internal"
    then some Kind.internal
    else none

kind_named-kind_text : (k : Kind) → kind_named (kind_text k) ≡ some k
unfolding kind_named kind_text
kind_named-kind_text Kind.config = refl
kind_named-kind_text _ = refl

kind_text-injective : (a b : Kind) → kind_text a ≡ kind_text b → a ≡ b
kind_text-injective a b e = cc (kind_named-kind_text a, kind_named-kind_text b, ap kind_named e)

pub eq_kind_iff : (a b : Kind) → (eq_kind a b ≡ true) ↔ (a ≡ b)
unfolding eq_kind
eq_kind_iff a b = (
  λ h. kind_text-injective a b (unfold kind_text in (eq_iff _ _).0 h),
  λ e. (eq_iff _ _).1 (ap kind_text e),
)

-- The error is of this kind: the first error of the taxonomy along the chain of causes is, and where
-- the chain has none, the kind is `internal`.
abbrev pub HasKind : Error → Kind → Type 0
HasKind (new j op m) k = j ≡ k
HasKind (wrap j op m c) k = j ≡ k
HasKind (annotated t e) k = HasKind e k
HasKind (external f) k = Kind.internal ≡ k

-- `Is` holds exactly of the kind of the first error of the taxonomy along the chain of causes, however
-- often that is annotated, and of `internal` where the chain has none.
pub is_iff : (e : Error) (k : Kind) → (is e k ≡ true) ↔ HasKind e k
unfolding is kind_of
is_iff (new j op m) k = eq_kind_iff j k
is_iff (wrap j op m c) k = eq_kind_iff j k
is_iff (annotated t e) k = is_iff e k
is_iff (external f) k = eq_kind_iff Kind.internal k

-- What a client reads of a domain error does not depend on the internal cause, and an error that
-- annotates a domain error keeps its kind.
pub error_text-wrap :
    (k : Kind) (op m t : String) (c : Error)
    → (error_text (wrap k op m c) ≡ error_text (new k op m))
      × (kind_of (annotated t (wrap k op m c)) ≡ k)
unfolding error_text kind_of
error_text-wrap k op m t c = (refl, refl)
