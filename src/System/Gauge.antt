-- ===== src/System/Gauge.antt =====
-- The gauge of SFTP connections over all sessions (internal/ftpserver).
use ftp2sftp.Base.{List, [], ◌∷◌, Bool, false, refl, Bytes}
use ftp2sftp.Effects.{ret}
use ftp2sftp.Driver.{Env, handle_callbacks}
use ftp2sftp.Driver.Protocol.{perform}
use ftp2sftp.Gateway.Connections.{find}
use ftp2sftp.Gateway.{track, disconnected, client_disconnected, prepare_shutdown}
use ftp2sftp.Gateway.Events.{forget}
use ftp2sftp.Resources.{Open, Holds, Holds-bind}
use ftp2sftp.Resources.Commands.{perform-Tracked}
use ftp2sftp.System.{
  System, Action, connects, logs_in, requests, settles, disconnects, shuts_down, system_step,
  system_run,
}
use ftp2sftp.System.Counts.{Counts, InSystem, same-Counts, connect_new-Counts, auth_user-Counts}
use ftp2sftp.System.Commands.{on_connection-InSystem}
use ftp2sftp.Resources.Driving.{handle_callbacks-Tracked}
use ftp2sftp.System.Departure.{disconnected-Counts}

module _ (matches : Bytes → Bytes → Bool) (dummy : Bytes) (env : Bytes → Env) where
  system_step-InSystem :
      (y : System) (a : Action) (k : Open)
      → InSystem y k
      → Holds InSystem k (system_step matches dummy env y a)
  unfolding system_step client_disconnected prepare_shutdown
  system_step-InSystem y (connects id) k c =
      connect_new-Counts y.gateway id k (find id y.gateway.extras) c
  system_step-InSystem y (logs_in id ip user password t fresh) k c =
      auth_user-Counts matches dummy y.gateway id k ip user password t fresh c
  system_step-InSystem y (requests id q) k c =
      on_connection-InSystem y k id (find id y.gateway.extras) (λ s w. perform (env s.username) q w)
        refl (λ n base small s w k t. perform-Tracked n base small s (env s.username) q w k t) c
  system_step-InSystem y (settles id command u calls) k c =
      on_connection-InSystem y k id (find id y.gateway.extras)
        (λ s w. ret (handle_callbacks command u calls w)) refl
        (λ n base small s w k t. handle_callbacks-Tracked n base small s command u calls w k t) c
  system_step-InSystem y (disconnects id) k c =
      Holds-bind (λ h j. Counts (forget h id) j) InSystem k
        (disconnected (record y.gateway { tracked = track id false y.gateway.tracked }) id
          (find id y.gateway.extras))
        _ (disconnected-Counts y.gateway k id (find id y.gateway.extras) refl c) (λ h j d. d)
  system_step-InSystem y shuts_down k c = same-Counts y.gateway _ k refl refl c

  -- Over any interleaving of connections, logins, commands, ends of transfers, disconnections and a
  -- shutdown of any sessions, whatever the servers and the network answer: the gauge of SFTP
  -- connections shows how many network connections are open, modulo 2^64; the sessions' SSH
  -- connections are among those that are open, one for each session that is connected; and a
  -- connection is closed only while it is open. It starts in a state of which this holds.
  pub system_run-InSystem :
      (y : System) (actions : List Action) (k : Open)
      → InSystem y k
      → Holds InSystem k (system_run matches dummy env y actions)
  unfolding system_run
  system_run-InSystem y [] k c = c
  system_run-InSystem y (a ∷ rest) k c =
      Holds-bind InSystem InSystem k (system_step matches dummy env y a) _
        (system_step-InSystem y a k c) (λ z j d. system_run-InSystem z rest j d)
