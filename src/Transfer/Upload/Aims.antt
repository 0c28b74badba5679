-- ===== src/Transfer/Upload/Aims.antt =====
-- The requests of any calls on an upload handle (internal/transfer/upload.go).
use ftp2sftp.Base.{ℕ, List, [], ◌∷◌, Bool, true, ◌≡◌, subst, sym, Option, none, some, Bytes}
use ftp2sftp.Errors.{Error}
use ftp2sftp.Effects.{Always, Always-bind, Always-if}
use ftp2sftp.Remote.{Op, Request, Io}
use ftp2sftp.SftpClient
use ftp2sftp.SftpClient.{Client}
use ftp2sftp.SftpClient.Requests.{Anything, Whatever}
use ftp2sftp.Transfer.{client_fs, foreign}
use ftp2sftp.Transfer.Upload.{
  UploadHandle, exceeds, after_write, write, transfer_error, after_close, discard, settle, finish,
  close, UploadCall, writes, fails, closes, step, run,
}

-- The handle's temporary and final paths.
pub record Aims (t f : Bytes) (u : UploadHandle) : Type 0 where
  pub temp_eq : u.temp ≡ t
  pub final_eq : u.final ≡ f

-- `P` holds of writing to and closing a file of the channel, and of what `Remove` of the temporary file
-- and `Commit` of it to the final path ask for.
module _ (P : Request → Type 0) (c : Client) (t f : Bytes)
    (writing : (h : ℕ) (b : Bytes) → P (Request.sftp c.conn (Op.file_write h b)))
    (closing : (h : ℕ) → P (Request.sftp c.conn (Op.file_close h)))
    (removing : Always Anything P Whatever (SftpClient.remove c t))
    (committing : (o : Bool) → Always Anything P Whatever (SftpClient.commit c t f o))
    (digest : Bytes → Bytes) where
  abbrev Keeping : {A : Type 0} → (A → UploadHandle) → Io A → Type 0
  Keeping handle m = Always Anything P (λ a. Aims t f (handle a)) m

  after_write-Aims :
      (u : UploadHandle) (p : Bytes) (n : ℕ) (e : Option Error)
      → Aims t f u
      → Aims t f (after_write u p n e)
  unfolding after_write
  after_write-Aims u p n none h = record { temp_eq = h.temp_eq; final_eq = h.final_eq }
  after_write-Aims u p n (some e) h = record { temp_eq = h.temp_eq; final_eq = h.final_eq }

  write-Aims :
      (u : UploadHandle) (p : Bytes) → Aims t f u → Keeping (λ r. r.0) (write (client_fs c) u p)
  unfolding write
  write-Aims u p h =
      Always-if Anything P (λ r. Aims t f r.0) (exceeds u p) _ _
        (λ _. record { temp_eq = h.temp_eq; final_eq = h.final_eq })
        (λ _. (writing u.file p, λ r i. after_write-Aims u p r.0 _ h))

  discard-Aims :
      (u : UploadHandle) (e : Option Error)
      → Aims t f u
      → Keeping (λ r. r.0) (discard digest (client_fs c) u e)
  unfolding discard
  discard-Aims u e h =
      Always-bind Anything P Whatever (λ r. Aims t f r.0) (SftpClient.remove c u.temp) _
        (subst (λ p. Always Anything P Whatever (SftpClient.remove c p)) (sym h.temp_eq) removing)
        (λ _ _. h)

  settle-Aims :
      (u : UploadHandle) (e : Option Error)
      → Aims t f u
      → Keeping (λ r. r.0) (settle digest (client_fs c) u e)
  unfolding settle
  settle-Aims u none h = h
  settle-Aims u (some e) h = discard-Aims u (some e) h

  finish-Aims : (u : UploadHandle) → Aims t f u → Keeping (λ r. r.0) (finish digest (client_fs c) u)
  unfolding finish
  finish-Aims u h =
      Always-if Anything P (λ r. Aims t f r.0) u.failed _ _ (λ _. discard-Aims u u.fail_err h)
        (λ _.
          Always-bind Anything P Whatever (λ r. Aims t f r.0)
            (SftpClient.commit c u.temp u.final u.opts.overwrite) _
            (subst
              (λ p. Always Anything P Whatever (SftpClient.commit c p u.final u.opts.overwrite))
              (sym h.temp_eq)
              (subst (λ p. Always Anything P Whatever (SftpClient.commit c t p u.opts.overwrite))
                (sym h.final_eq) (committing u.opts.overwrite)))
            (λ e _. settle-Aims u e h))

  after_close-Aims : (u : UploadHandle) (e : Option Error) → Aims t f u → Aims t f (after_close u e)
  unfolding after_close transfer_error
  after_close-Aims u none h = h
  after_close-Aims u (some e) h = record { temp_eq = h.temp_eq; final_eq = h.final_eq }

  close-Aims : (u : UploadHandle) → Aims t f u → Keeping (λ r. r.0) (close digest (client_fs c) u)
  unfolding close
  close-Aims u h =
      Always-if Anything P (λ r. Aims t f r.0) u.closed _ _ (λ _. h)
        (λ _.
          let v : UploadHandle = record u { closed = true } in
          let a : Aims t f v = record { temp_eq = h.temp_eq; final_eq = h.final_eq } in
          (
            closing u.file,
            λ r i. finish-Aims (after_close v (foreign r)) (after_close-Aims v (foreign r) a),
          ))

  step-Aims :
      (u : UploadHandle) (k : UploadCall)
      → Aims t f u
      → Keeping (λ r. r.0) (step digest (client_fs c) u k)
  unfolding step
  step-Aims u (writes p) h =
      Always-bind Anything P (λ r. Aims t f r.0) (λ r. Aims t f r.0) _ _ (write-Aims u p h)
        (λ r k. k)
  step-Aims u (fails e) h =
      unfold transfer_error in record { temp_eq = h.temp_eq; final_eq = h.final_eq }
  step-Aims u closes h =
      Always-bind Anything P (λ r. Aims t f r.0) (λ r. Aims t f r.0) _ _ (close-Aims u h) (λ r k. k)

  -- Whatever calls are made, every request is one of those.
  pub run-Aims :
      (u : UploadHandle) (ks : List UploadCall)
      → Aims t f u
      → Keeping (λ r. r.0) (run digest (client_fs c) u ks)
  unfolding run
  run-Aims u [] h = h
  run-Aims u (k ∷ ks) h =
      Always-bind Anything P (λ r. Aims t f r.0) (λ r. Aims t f r.0) _ _ (step-Aims u k h)
        (λ r a.
          Always-bind Anything P (λ r. Aims t f r.0) (λ r. Aims t f r.0) _ _ (run-Aims r.0 ks a)
            (λ s b. b))
