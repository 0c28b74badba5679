-- ===== src/Gateway/Admission.antt =====
-- The accounting of connections and sessions over the life of the gateway.
use ftp2sftp.Base.{ℕ, ◌+◌, ◌^◌, ◌<◌, List, [], ◌∷◌, Bool, true, false, refl, Bytes}
use ftp2sftp.Effects.{Always-bind}
use ftp2sftp.SftpClient.Requests.{Anything}
use ftp2sftp.Gateway.Connections.{find}
use ftp2sftp.Gateway.{track, Gateway, client_disconnected, prepare_shutdown}
use ftp2sftp.Gateway.Events.{
  Event, connects, logs_in, works, disconnects, shuts_down, gateway_step, gateway_run,
}
use ftp2sftp.Gateway.Accounted.{
  IsAccounted, connect_new-IsAccounted, auth_user-IsAccounted, rework-IsAccounted,
}
use ftp2sftp.Gateway.Departure.{Afterwards, disconnected-IsAccounted}

untracked-IsAccounted :
    (max : ℕ) (g : Gateway) (tracked : ℕ → Bool) (b : Bool)
    → IsAccounted max g
    → IsAccounted max (record g { tracked = tracked; shutting_down = b })
untracked-IsAccounted max g tracked b s = record {
  max_eq = s.max_eq;
  counted = s.counted;
  bounded = s.bounded;
  shown = s.shown;
  all_admitted = s.all_admitted;
  awaited = s.awaited;
  running = s.running;
}

module _ (matches : Bytes → Bytes → Bool) (dummy : Bytes) where
  gateway_step-IsAccounted :
      (max : ℕ) (g : Gateway) (e : Event)
      → max + 1 < 2 ^ 63
      → IsAccounted max g
      → Afterwards max (gateway_step matches dummy g e)
  unfolding gateway_step prepare_shutdown client_disconnected
  gateway_step-IsAccounted max g (connects id) k s =
      connect_new-IsAccounted max g id (find id g.extras) k s refl
  gateway_step-IsAccounted max g (logs_in id ip user password t fresh) k s =
      auth_user-IsAccounted matches dummy max g id ip user password t fresh s
  gateway_step-IsAccounted max g (works id x) k s =
      rework-IsAccounted max g id x (find id g.extras) s refl
  gateway_step-IsAccounted max g (disconnects id) k s =
      disconnected-IsAccounted max (record g { tracked = track id false g.tracked }) id
        (find id g.extras) k
        (untracked-IsAccounted max g (track id false g.tracked) g.shutting_down s) refl
  gateway_step-IsAccounted max g shuts_down k s = untracked-IsAccounted max g g.tracked true s

  -- Over any sequence of connections, logins, commands, disconnections and a shutdown, whatever the
  -- remote side answers when a session is closed: the count of active connections is that of the
  -- admitted connections that have not left, never exceeds the configured limit, and is what the gauge
  -- shows; every session of a live connection is awaited, and the wait group never panics. The limit
  -- and its successor fit the counter.
  pub gateway_run-IsAccounted :
      (max : ℕ) (g : Gateway) (es : List Event)
      → max + 1 < 2 ^ 63
      → IsAccounted max g
      → Afterwards max (gateway_run matches dummy g es)
  unfolding gateway_run
  gateway_run-IsAccounted max g [] k s = s
  gateway_run-IsAccounted max g (e ∷ es) k s =
      Always-bind Anything (λ q. Unit {0}) (IsAccounted max) (IsAccounted max)
        (gateway_step matches dummy g e) (λ h. gateway_run matches dummy h es)
        (gateway_step-IsAccounted max g e k s) (λ h t. gateway_run-IsAccounted max h es k t)
