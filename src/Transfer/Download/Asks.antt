-- ===== src/Transfer/Download/Asks.antt =====
-- The requests of any calls on a download handle (internal/transfer/download.go).
use ftp2sftp.Base.{ℕ, List, [], ◌∷◌, Bytes}
use ftp2sftp.Effects.{Always, Always-bind, Always-if}
use ftp2sftp.Remote.{Op, Request, Io}
use ftp2sftp.SftpClient.{Client}
use ftp2sftp.SftpClient.Requests.{Anything, Whatever}
use ftp2sftp.Transfer.{client_fs}
use ftp2sftp.Transfer.Download.{
  DownloadHandle, read, seek, close, DownloadCall, reads, seeks, fails, closes, step, run,
}

-- `P` holds of reading, seeking and closing a file of the channel.
module _ (P : Request → Type 0) (c : Client)
    (reading : (h n : ℕ) → P (Request.sftp c.conn (Op.file_read h n)))
    (seeking : (h o w : ℕ) → P (Request.sftp c.conn (Op.file_seek h o w)))
    (closing : (h : ℕ) → P (Request.sftp c.conn (Op.file_close h))) (digest : Bytes → Bytes) where
  abbrev Asks : {A : Type 0} → Io A → Type 0
  Asks m = Always Anything P Whatever m

  step-Asks : (d : DownloadHandle) (k : DownloadCall) → Asks (step digest (client_fs c) d k)
  unfolding step read seek close
  step-Asks d (reads n) = (reading d.file n, λ r i. tt)
  step-Asks d (seeks o w) = (seeking d.file o w, λ r i. tt)
  step-Asks d (fails e) = tt
  step-Asks d closes =
      Always-bind Anything P Whatever Whatever _ _
        (Always-if Anything P Whatever d.closed _ _ (λ _. tt) (λ _. (closing d.file, λ r i. tt)))
        (λ r _. tt)

  -- Whatever calls are made, every request is one of those.
  pub run-Asks :
      (d : DownloadHandle) (ks : List DownloadCall) → Asks (run digest (client_fs c) d ks)
  unfolding run
  run-Asks d [] = tt
  run-Asks d (k ∷ ks) =
      Always-bind Anything P Whatever Whatever _ _ (step-Asks d k)
        (λ r _. Always-bind Anything P Whatever Whatever _ _ (run-Asks r.0 ks) (λ s _. tt))
