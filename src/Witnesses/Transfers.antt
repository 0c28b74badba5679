-- ===== src/Witnesses/Transfers.antt =====
-- Uploads and downloads.
use ftp2sftp.Base.{
  List, [], ◌∷◌, ◌++◌, true, false, ◌≡◌, inr, refl, map, none, some, Bytes, codes, arith, length,
  All,
}
use ftp2sftp.Errors.{Kind, Error, new, ok}
use ftp2sftp.Effects.{ret, Always}
use ftp2sftp.Effects
use ftp2sftp.Remote.{Request, Op, call, ◌>>=◌}
use ftp2sftp.SftpClient.Requests.{Anything, Within}
use ftp2sftp.Transfer.{RemoteFs, client_fs}
use ftp2sftp.Transfer.Upload.{UploadOptions, UploadHandle, writes, fails, closes, run}
use ftp2sftp.Transfer.Upload.Reports.{Evolves}
use ftp2sftp.Transfer.Upload.Invariant.{run-Evolves}
use ftp2sftp.Transfer.Upload.Failure.{FailedAt, ReportsFailure, run_interrupted}
use ftp2sftp.Transfer.Download
use ftp2sftp.Transfer.Download.{DownloadOptions, DownloadHandle, DownloadCall}
use ftp2sftp.Transfer.Download.Laws
use ftp2sftp.Witnesses.{client, suffix, session_id}

abbrev options : UploadOptions
options = record {
  session_id = session_id;
  transfer_id = codes "t1";
  virtual_path = codes "/a";
  max_size = 8;
  overwrite = true;
  calculate_sha256 = true;
  temporary_suffix = suffix;
  reports = true;
  releases = true;
}

abbrev temp_file : Bytes
temp_file = codes "/srv/data/a.part-7f"

abbrev handle : UploadHandle
handle = record {
  file = 5;
  hashed = some [];
  temp = temp_file;
  final = codes "/srv/data/a";
  opts = options;
  written = 0;
  failed = false;
  fail_err = none;
  closed = false;
}

-- A remote side on which everything succeeds.
abbrev willing : RemoteFs
willing = record {
  stat = λ p. ret (ok (record { name = p; is_symlink = false; size = 0 }));
  open_read = λ p. ret (ok 5);
  create_temp = λ p. ret (ok 5);
  commit = λ t f o. ret none;
  remove = λ p. ret none;
  file_write = λ f p. ret (length p, none);
  file_read = λ f n. ret ([], none);
  file_seek = λ f o w. ret (ok o);
  file_close = λ f. ret none;
}

abbrev one_byte : Bytes → Bytes
one_byte b = 1 ∷ []

abbrev aborted : Error
aborted = new Kind.disconnected "ftp" "aborted"

abbrev parts : List Bytes
parts = codes "ab" ∷ codes "cde" ∷ []

-- A remote side that answers well, one request for each operation.
abbrev observed : RemoteFs
observed = record willing {
  file_write = λ f p. call (Request.sftp 0 (Op.file_write f p)) >>= λ r. ret (length p, none);
  file_close = λ f. call (Request.sftp 0 (Op.file_close f)) >>= λ r. ret none;
  commit = λ t g o. call (Request.sftp 0 (Op.rename t g)) >>= λ r. ret none;
}

run_interrupted_example :
    Always Anything
      (Within (λ p. Unit {0}) (λ p. p ≡ temp_file))
      (λ r. FailedAt temp_file r.0 × All ReportsFailure r.1)
      (run one_byte (client_fs client) handle (map writes parts ++ fails aborted ∷ closes ∷ []))
run_interrupted_example =
    run_interrupted client one_byte temp_file handle parts aborted (closes ∷ []) refl

run-Evolves_example :
    Always
      (λ q r. Unit {0})
      (λ q. Unit {0})
      (Evolves handle)
      (run one_byte willing handle (writes (codes "ab") ∷ closes ∷ closes ∷ []))
run-Evolves_example =
    run-Evolves (λ q r. Unit {0}) willing (λ f p. omega arith) one_byte handle
      (writes (codes "ab") ∷ closes ∷ closes ∷ []) refl refl
      (record { fits = inr (omega arith); counted = refl; explained = tt })

abbrev download : DownloadHandle
download = record {
  file = 5;
  hashed = some [];
  remote_path = codes "/srv/data/a";
  opts = record {
    session_id = session_id;
    transfer_id = codes "t2";
    virtual_path = codes "/a";
    calculate_sha256 = true;
    reports = true;
    releases = true;
  };
  bytes_read = 0;
  failed = false;
  fail_err = none;
  closed = false;
}

download-Evolves_example :
    Always Anything (Within (λ p. Unit {0}) (λ p. ⊥)) (Laws.Evolves download) (
      Download.run one_byte
        (client_fs client)
        download
        (DownloadCall.reads 4 ∷ DownloadCall.closes ∷ []))
download-Evolves_example =
    Laws.download-Evolves client one_byte download (DownloadCall.reads 4 ∷ DownloadCall.closes ∷ [])
      refl refl (record { counted = refl; explained = tt })
