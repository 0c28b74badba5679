-- ===== src/Auth/Store.antt =====
-- internal/auth/store.go: the configured users by name.
use ftp2sftp.Base.{List, [], ◌∷◌, Option, none, some, Bytes, eq_bytes, if◌then◌else◌}

pub record UserRecord : Type 0 where
  pub username : Bytes
  pub password_hash : Bytes

abbrev pub Store : Type 0
Store = Bytes → Option UserRecord

abbrev pub store_user : Store → UserRecord → Store
store_user s r name = if eq_bytes r.username name then some r else s name

unfoldable pub store_all : Store → List UserRecord → Store
store_all s [] = s
store_all s (r ∷ rs) = store_all (store_user s r) rs

-- `NewStore`: a later record replaces an earlier one of the same name.
unfoldable pub new_store : List UserRecord → Store
unfolding store_all
new_store rs = store_all (λ name. none) rs

-- `Lookup`.
abbrev pub lookup : Store → Bytes → Option UserRecord
lookup s name = s name
