-- ===== src/Transfer/Upload/Success.antt =====
-- An upload over a remote side on which everything succeeds (internal/transfer/upload.go).
use ftp2sftp.Base.{ℕ, ◌+◌, List, [], ◌∷◌, ◌++◌, Bool, ◌≡◌, none, Bytes, length}
use ftp2sftp.Effects
use ftp2sftp.Remote.{Request, Reply}
use ftp2sftp.Transfer.{RemoteFs}
use ftp2sftp.Transfer.Upload.{UploadHandle, run}

-- All the bytes, in order.
abbrev pub joined : List Bytes → Bytes
joined [] = []
joined (p ∷ ps) = p ++ joined ps

abbrev pub total : List Bytes → ℕ
total [] = 0
total (p ∷ ps) = length p + total ps

-- What the environment's `run` of the remote side's operations gives: a result and a trace.
module _ (fs : RemoteFs) (env : (q : Request) → Reply q) (write_trace : ℕ → Bytes → List Request)
    (close_trace : ℕ → List Request) (commit_trace : Bytes → Bytes → Bool → List Request)
    (takes : (f : ℕ) (p : Bytes)
      → Effects.run env (fs.file_write f p) ≡ ((length p, none), write_trace f p))
    (closes_well : (f : ℕ) → Effects.run env (fs.file_close f) ≡ (none, close_trace f))
    (commits : (t g : Bytes) (o : Bool)
      → Effects.run env (fs.commit t g o) ≡ (none, commit_trace t g o))
    (digest : Bytes → Bytes) where
  abbrev pub all_writes : ℕ → List Bytes → List Request
  all_writes f [] = []
  all_writes f (p ∷ ps) = write_trace f p ++ all_writes f ps

  abbrev closing : UploadHandle → List Request
  closing u = close_trace u.file ++ commit_trace u.temp u.final u.opts.overwrite
