-- ===== src/Gateway/Accounts.antt =====
-- The configured user behind a name, in the tables that New of internal/ftpserver/gateway.go builds.
use ftp2sftp.Base.{
  List, [], ◌∷◌, ◌≡◌, refl, Option, none, some, Bytes, map, eq_bytes, eq_bytes_iff, if◌then◌else◌,
  Bool-cases, inl, inr,
}
use mathlib.Core.List.{Mem, mem-cons_self, mem-cons_of_mem}
use ftp2sftp.Auth.Store.{UserRecord, Store, store_user, store_all}
use ftp2sftp.Config.{UserConfig}
use ftp2sftp.Gateway.{UserRuntime}
use ftp2sftp.Gateway.Startup.{runtime_of, record_of, add_runtime, add_runtimes}

-- The last user of a name, or `d` if there is none.
unfoldable pub last_named : Option UserConfig → List UserConfig → Bytes → Option UserConfig
last_named d [] name = d
last_named d (u ∷ us) name = last_named (if eq_bytes u.username name then some u else d) us name

abbrev pub runtime_for : Option UserConfig → Option UserRuntime
runtime_for none = none
runtime_for (some u) = some (runtime_of u)

abbrev pub record_for : Option UserConfig → Option UserRecord
record_for none = none
record_for (some u) = some (record_of u)

pub add_runtimes-last :
    (f : Bytes → Option UserRuntime) (d : Option UserConfig) (us : List UserConfig) (name : Bytes)
    → f name ≡ runtime_for d
    → add_runtimes f us name ≡ runtime_for (last_named d us name)
unfolding add_runtimes last_named
add_runtimes-last f d [] name e = e
add_runtimes-last f d (u ∷ us) name e =
    add_runtimes-last (add_runtime f u) (if eq_bytes u.username name then some u else d) us name
      (elim (Bool-cases (eq_bytes u.username name)) [ inl b ↦ rw b refl | inr b ↦ rw b e ])

pub store_all-last :
    (s : Store) (d : Option UserConfig) (us : List UserConfig) (name : Bytes)
    → s name ≡ record_for d
    → store_all s (map record_of us) name ≡ record_for (last_named d us name)
unfolding store_all last_named
store_all-last s d [] name e = e
store_all-last s d (u ∷ us) name e =
    store_all-last (store_user s (record_of u)) (if eq_bytes u.username name then some u else d) us
      name (elim (Bool-cases (eq_bytes u.username name)) [ inl b ↦ rw b refl | inr b ↦ rw b e ])

-- The user found is a configured one of that name.
abbrev pub Known : List UserConfig → Bytes → Option UserConfig → Type 0
Known all name none = Unit {0}
Known all name (some u) = Mem u all × (u.username ≡ name)

pub last_named-Known :
    (all : List UserConfig) (d : Option UserConfig) (us : List UserConfig) (name : Bytes)
    → ((u : UserConfig) → Mem u us → Mem u all)
    → Known all name d
    → Known all name (last_named d us name)
unfolding last_named
last_named-Known all d [] name h k = k
last_named-Known all d (u ∷ us) name h k =
    last_named-Known all (if eq_bytes u.username name then some u else d) us name
      (λ w m. h w (mem-cons_of_mem u m))
      (elim (Bool-cases (eq_bytes u.username name)) [
        | inl b ↦ rw b (h u mem-cons_self, (eq_bytes_iff u.username name).0 b)
        | inr b ↦ rw b k
      ])
