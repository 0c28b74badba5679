-- ===== src/Remote.antt =====
-- What the gateway asks of foreign code: the methods of github.com/pkg/sftp's client and files, the
-- SSH handshake of golang.org/x/crypto/ssh, and the files that a dial reads. Each is a request with
-- any answer of its type.
use ftp2sftp.Base.{ℕ, Bool, List, Option, Bytes}
use ftp2sftp.Errors.{Fault}
use ftp2sftp.Effects.{Prog, ret, ask, bind}

pub data Answer (A : Type 0) : Type 0 where
  done : A → Answer A
  failed : Fault → Answer A

-- `os.FileInfo`, as far as the gateway looks at it.
pub record FileInfo : Type 0 where
  pub name : Bytes
  pub is_symlink : Bool
  pub size : ℕ

-- `os.O_RDONLY`, and `os.O_WRONLY|os.O_CREATE|os.O_TRUNC`.
pub data OpenMode : Type 0 where
  read_only write_truncate : OpenMode

-- The methods of `*sftp.Client`, and those of the files that it opens.
pub data Op : Type 0 where
  stat lstat read_link : Bytes → Op
  read_dir : Bytes → ℕ → Op
  open_file : Bytes → OpenMode → Op
  posix_rename rename : Bytes → Bytes → Op
  remove remove_directory mkdir : Bytes → Op
  has_posix_rename : Op
  close_client : Op
  file_read : ℕ → ℕ → Op
  file_write : ℕ → Bytes → Op
  file_seek : ℕ → ℕ → ℕ → Op
  file_close : ℕ → Op

-- What a handshake ends in: a connection, a `*knownhosts.KeyError` in the chain, or another error.
pub data Handshake : Type 0 where
  connected : ℕ → Handshake
  key_error refused : Fault → Handshake

-- The authentication method that is offered: a signer or a password.
pub data AuthMethod : Type 0 where
  public_keys : ℕ → AuthMethod
  password : Bytes → AuthMethod

pub data Request : Type 0 where
  sftp : ℕ → Op → Request
  new_sftp close_ssh : ℕ → Request
  load_known_hosts read_file : Bytes → Request
  parse_key : Bytes → Request
  parse_key_with : Bytes → Bytes → Request
  dial_tcp : Bytes → ℕ → ℕ → Request
  handshake : ℕ → Bytes → AuthMethod → ℕ → Request
  close_tcp : ℕ → Request

abbrev pub OpReply : Op → Type 0
OpReply (stat p) = Answer FileInfo
OpReply (lstat p) = Answer FileInfo
OpReply (read_link p) = Answer Bytes
OpReply (read_dir p t) = Answer (List FileInfo)
OpReply (open_file p m) = Answer ℕ
OpReply (posix_rename a b) = Option Fault
OpReply (rename a b) = Option Fault
OpReply (remove p) = Option Fault
OpReply (remove_directory p) = Option Fault
OpReply (mkdir p) = Option Fault
OpReply has_posix_rename = Bool
OpReply close_client = Option Fault
OpReply (file_read f n) = Bytes × Option Fault
OpReply (file_write f p) = ℕ × Option Fault
OpReply (file_seek f o w) = Answer ℕ
OpReply (file_close f) = Option Fault

abbrev pub Reply : Request → Type 0
Reply (sftp c o) = OpReply o
Reply (new_sftp s) = Answer ℕ
Reply (close_ssh s) = Option Fault
Reply (load_known_hosts p) = Option Fault
Reply (read_file p) = Answer Bytes
Reply (parse_key b) = Answer ℕ
Reply (parse_key_with b p) = Answer ℕ
Reply (dial_tcp h p t) = Answer ℕ
Reply (handshake c u a t) = Handshake
Reply (close_tcp c) = Option Fault

abbrev pub Io : Type 0 → Type 0
Io A = Prog Request Reply A

infixl 5 ◌>>=◌ ◌>>◌
abbrev pub ◌>>=◌ : {A B : Type 0} → Io A → (A → Io B) → Io B
m >>= f = bind m f

abbrev pub ◌>>◌ : {A B : Type 0} → Io A → Io B → Io B
m >> k = bind m (λ _. k)

-- One request, answered.
abbrev pub call : (q : Request) → Io (Reply q)
call q = ask q ret
