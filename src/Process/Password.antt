-- ===== src/Process/Password.antt =====
-- cmd/ftp2sftp/cli.go: `ftp2sftp config hash-password`.
pub mod Login
use ftp2sftp.Base.{
  ℕ, List, [], ◌∷◌, Bool, true, false, ◌||◌, ◌==◌, ◌⊎◌, inl, inr, Option, none, some, Bytes,
  eq_bytes, if◌then◌else◌,
}
use ftp2sftp.Errors.{Fault}
use ftp2sftp.Remote.{Answer, done, failed}

-- What the standard input gives: a line with the error that `ReadString` returns beside it, or, at a
-- terminal, the answers to the two questions. The second is not asked when the first fails.
pub data Input : Type 0 where
  piped : Bytes → Option Fault → Input
  asked : Answer Bytes → Answer Bytes → Input

pub data ReadError : Type 0 where
  unread : Fault → ReadError
  mismatch : ReadError

-- `strings.TrimRight(line, "\r\n")`.
unfoldable pub trim_line : Bytes → Bytes
trim_line [] = []
trim_line (c ∷ s) =
    let rest = trim_line s in
    if c == 13 || c == 10 then if eq_bytes rest [] then [] else c ∷ rest else c ∷ rest

-- A line without its end is taken, but not a failure that gives nothing.
abbrev pub read_line : Bytes → Option Fault → ReadError ⊎ Bytes
read_line line none = inr (trim_line line)
read_line [] (some f) = inl (unread f)
read_line (c ∷ s) (some f) = inr (trim_line (c ∷ s))

abbrev pub confirmed : Bytes → Answer Bytes → ReadError ⊎ Bytes
confirmed first (failed f) = inl (unread f)
confirmed first (done second) = if eq_bytes first second then inr first else inl mismatch

-- `readPasswordFromOperator`.
unfoldable pub read_password : Input → ReadError ⊎ Bytes
read_password (piped line e) = read_line line e
read_password (asked (failed f) second) = inl (unread f)
read_password (asked (done first) second) = confirmed first second

-- The exit code, and the hash on the standard output.
abbrev pub Printout : Type 0
Printout = ℕ × Option Bytes

-- `generate` is `bcrypt.GenerateFromPassword` at the default cost.
module _ (generate : Bytes → Answer Bytes) where
  abbrev pub print_hash : Answer Bytes → Printout
  print_hash (failed f) = (1, none)
  print_hash (done hash) = (0, some hash)

  abbrev pub hash_read : ReadError ⊎ Bytes → Printout
  hash_read (inl e) = (1, none)
  hash_read (inr password) =
      if eq_bytes password [] then (1, none) else print_hash (generate password)

  -- `cmdConfigHashPassword`, after its flags.
  unfoldable pub hash_password : Input → Printout
  hash_password input = hash_read (read_password input)
