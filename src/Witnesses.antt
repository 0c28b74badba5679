-- ===== src/Witnesses.antt =====
-- The theorems at concrete paths, handles, limiters and sessions, and runs of the definitions on
-- small inputs. The data that they share is here.
pub mod Paths
pub mod Login
pub mod Transfers
pub mod Commands
pub mod Connections
pub mod Configuration
pub mod Processes
pub mod Systems
use ftp2sftp.Base.{ℕ, List, [], ◌∷◌, Bool, true, false, Bytes, codes, arith, refl, ◌≡◌, none}
use ftp2sftp.GoPath.Elements.{IsName, Names}
use ftp2sftp.SftpClient.{Client}

abbrev pub virtual_root : Bytes
virtual_root = codes "/files/"

abbrev pub remote_root : Bytes
remote_root = codes "srv/data"

abbrev pub report : Bytes
report = codes "/files/a/report.txt"

abbrev pub suffix : Bytes
suffix = codes ".part"

abbrev pub session_id : Bytes
session_id = codes "7f"

pub data-IsName : IsName (codes "data")
data-IsName = record {
  nonempty = ground arith;
  not_dot = ground arith;
  not_dotdot = ground arith;
  plain = ground arith;
}

pub srv-IsName : IsName (codes "srv")
srv-IsName = record {
  nonempty = ground arith;
  not_dot = ground arith;
  not_dotdot = ground arith;
  plain = ground arith;
}

abbrev pub client : Client
client = record { ssh = 1; conn = 2; root = codes "/srv/data" }
