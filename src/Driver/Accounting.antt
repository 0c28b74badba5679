-- ===== src/Driver/Accounting.antt =====
-- Slots and gauges when a transfer begins (internal/ftpserver/clientdriver.go).
use ftp2sftp.Base.{
  ℕ, ◌+◌, ◌-◌, ◌<◌, true, false, ◌≡◌, refl, ap, String, Option, none, some, Bytes, arith, ltb, ◌==◌,
  Bool-cases, inl, inr,
}
use ftp2sftp.Errors.{Error, Result, ok, err}
use ftp2sftp.Authorization.{Gate, try_acquire, release, check_upload, check_download}
use ftp2sftp.Metrics.{word, inc, dec-inc}
use ftp2sftp.Effects.{ret, bind, Always, Always-bind, Always-if, Always-trivial}
use ftp2sftp.Remote.{Io}
use ftp2sftp.SftpClient.{Client}
use ftp2sftp.SftpClient.Requests.{Anything}
use ftp2sftp.Transfer.{client_fs}
use ftp2sftp.Transfer.Upload.{UploadHandle, new_upload}
use ftp2sftp.Transfer.Download.{DownloadHandle, new_download}
use ftp2sftp.Driver.{World, Env, audit, release_slot, permit}
use ftp2sftp.Driver.Handles.{
  Handle, Flags, with_slot, started_transfer, upload_begun, download_begun, no_temporary_file,
  upload_in_slot, download_in_slot, upload_options, download_options, begin_upload, begin_download,
}

-- A transfer that begins holds one more slot and is counted as active; one that does not begin leaves
-- the gate and the gauges as they were.
abbrev pub Accounts : World → World × Result Handle → Type 0
Accounts w (w', ok h) =
    (w'.gate.in_use ≡ w.gate.in_use + 1)
    × (w'.metrics.transfer_active ≡ inc w.metrics.transfer_active)
Accounts w (w', err e) =
    (w'.gate ≡ w.gate)
    × (w'.metrics.transfer_active ≡ w.metrics.transfer_active)
    × (w'.metrics.temporary_files_pending ≡ w.metrics.temporary_files_pending)

-- Whatever the remote side answers.
abbrev Answered : {A : Type 0} → (A → Type 0) → Io A → Type 0
Answered Post m = Always Anything (λ q. Unit {0}) Post m

release-acquired : (g : Gate) → release (record g { in_use = g.in_use + 1 }) ≡ g
unfolding release
release-acquired g =
    rw (positive g.in_use) (ap (λ (n : ℕ). record g { in_use = n }) (back g.in_use))
  where
    positive : (n : ℕ) → (n + 1 == 0) ≡ false
    positive n = ground arith

    back : (n : ℕ) → n + 1 - 1 ≡ n
    back n = omega arith

-- The world in which a transfer has taken a slot.
abbrev taken : World → World
taken w = let g = w.gate in record w { gate = record g { in_use = g.in_use + 1 } }

upload_begun-Accounts :
    (v : Bytes) (w : World) (r : Result UploadHandle)
    → w.metrics.transfer_active < word
    → w.metrics.temporary_files_pending < word
    → Accounts w (upload_begun v (started_transfer true (taken w)) r)
unfolding upload_begun started_transfer no_temporary_file release_slot audit
upload_begun-Accounts v w (ok u) ha hp = (refl, refl)
upload_begun-Accounts v w (err e) ha hp = (
  release-acquired w.gate,
  (dec-inc w.metrics.transfer_active ha).0,
  (dec-inc w.metrics.temporary_files_pending hp).0,
)

download_begun-Accounts :
    (v : Bytes) (w : World) (r : Result DownloadHandle)
    → w.metrics.transfer_active < word
    → Accounts w (download_begun v (started_transfer false (taken w)) r)
unfolding download_begun started_transfer release_slot audit
download_begun-Accounts v w (ok u) ha = (refl, refl)
download_begun-Accounts v w (err e) ha =
    (release-acquired w.gate, (dec-inc w.metrics.transfer_active ha).0, refl)

permit-Accounts :
    (command : String) (v : Bytes) (w : World) (x : Option Error) (m : Io (World × Result Handle))
    → Answered (Accounts w) m
    → Answered (Accounts w) (permit command v w x m)
unfolding audit
permit-Accounts command v w none m h = h
permit-Accounts command v w (some e) m h = (refl, refl, refl)

with_slot-Accounts :
    (command : String) (v : Bytes) (w : World) (k : World → Io (World × Result Handle))
    → Answered (Accounts w) (k (taken w))
    → Answered (Accounts w) (with_slot command v w (try_acquire w.gate) k)
unfolding with_slot try_acquire audit
with_slot-Accounts command v w k h = elim (Bool-cases (ltb w.gate.in_use w.gate.max)) [
  | inl e ↦ rw e h
  | inr e ↦ rw e (refl, refl, refl)
]

begun_after :
    {A : Type 0} (w : World) (m : Io A) (f : A → World × Result Handle)
    → ((a : A) → Accounts w (f a))
    → Answered (Accounts w) (bind m (λ a. ret (f a)))
begun_after w m f h =
    Always-bind Anything (λ q. Unit {0}) (λ _. Unit {0}) (Accounts w) m (λ a. ret (f a))
      (Always-trivial Anything (λ q. Unit {0}) m (λ q. tt)) (λ a _. h a)

-- Whatever the policy, the gate and the remote side answer, STOR takes one slot and counts one active
-- transfer if it begins, and otherwise gives back the slot and the gauges that it moved. The gauges
-- hold values of their 64 bits.
pub begin_upload-Accounts :
    (env : Env) (c : Client) (v remote : Bytes) (flags : Flags) (fresh : Bytes) (w : World)
    → w.metrics.transfer_active < word
    → w.metrics.temporary_files_pending < word
    → Answered (Accounts w) (begin_upload env c v remote flags fresh w)
unfolding begin_upload upload_in_slot
begin_upload-Accounts env c v remote flags fresh w ha hp =
    Always-if Anything _ (Accounts w) flags.append _ _ (λ _. (refl, refl, refl))
      (λ _. permit-Accounts "STOR" v w (check_upload w.session.policy) _ (
        with_slot-Accounts "STOR" v w _ (
          begun_after w (new_upload (client_fs c) remote (upload_options env (taken w) v fresh))
            (upload_begun v (started_transfer true (taken w)))
            (λ r. upload_begun-Accounts v w r ha hp))))

-- Whatever the policy, the gate and the remote side answer, RETR takes one slot and counts one active
-- transfer if it begins, and otherwise gives both back. The gauge holds a value of its 64 bits.
pub begin_download-Accounts :
    (env : Env) (c : Client) (v remote fresh : Bytes) (w : World)
    → w.metrics.transfer_active < word
    → Answered (Accounts w) (begin_download env c v remote fresh w)
unfolding begin_download download_in_slot
begin_download-Accounts env c v remote fresh w ha =
    permit-Accounts "RETR" v w (check_download w.session.policy) _ (
      with_slot-Accounts "RETR" v w _ (
        begun_after w (new_download (client_fs c) remote (download_options env (taken w) v fresh))
          (download_begun v (started_transfer false (taken w)))
          (λ r. download_begun-Accounts v w r ha)))
