-- ===== src/Witnesses/Connections.antt =====
-- The gateway's connections.
use ftp2sftp.Base.{List, [], ◌∷◌, true, false, refl, Option, some, Bytes, codes, arith, eq_bytes}
use ftp2sftp.Effects.{Always}
use ftp2sftp.SftpClient.Requests.{Anything}
use ftp2sftp.Metrics.{new_metrics}
use ftp2sftp.Filesystem.{new_mapper}
use ftp2sftp.Auth.Limiter.{Readings}
use ftp2sftp.Auth.Authenticator.{LoginTimes}
use ftp2sftp.Gateway.{UserRuntime, Gateway, new_gateway}
use ftp2sftp.Base.{Bool}
use ftp2sftp.Session.{Session, new_session}
use ftp2sftp.Gateway.Events.{Event, connects, logs_in, disconnects, shuts_down, gateway_run}
use ftp2sftp.Gateway.Accounted.{IsAccounted}
use ftp2sftp.Gateway.Admission.{gateway_run-IsAccounted}
use ftp2sftp.Witnesses.{virtual_root, remote_root, session_id}

abbrev one_user : Bytes → Option UserRuntime
one_user name = some (record {
  mapper = new_mapper virtual_root remote_root;
  policy = record {
    allow_upload = true;
    allow_download = true;
    allow_delete = false;
    allow_mkdir = false;
    allow_rename = false;
    allow_overwrite = false;
    max_file_size = 0;
  };
})

abbrev pub fresh_gateway : Gateway
fresh_gateway =
    new_gateway one_user (record { username = codes "ana"; password_hash = codes "s3" } ∷ []) 1
      new_metrics

fresh-IsAccounted : IsAccounted 1 fresh_gateway
unfolding new_gateway
fresh-IsAccounted = record {
  max_eq = refl;
  counted = refl;
  bounded = omega arith;
  shown = refl;
  all_admitted = tt;
  awaited = omega arith;
  running = refl;
}

abbrev read_once : Readings
read_once = record { swept_at = 5; seen_at = λ k. 5; now = 5 }

abbrev pub login_times : LoginTimes
login_times = record {
  ip_check = read_once;
  user_check = read_once;
  ip_record = 5;
  user_record = 5;
}

abbrev pub day : List Event
day =
    connects 1
    ∷ connects 2
    ∷ logs_in 1 (codes "::1") (codes "ana") (codes "s3") login_times session_id
    ∷ shuts_down
    ∷ disconnects 1
    ∷ []

gateway_run-IsAccounted_example :
    Always Anything
      (λ q. Unit {0})
      (IsAccounted 1)
      (gateway_run (λ hash password. eq_bytes hash password) (codes "x") fresh_gateway day)
gateway_run-IsAccounted_example =
    gateway_run-IsAccounted (λ hash password. eq_bytes hash password) (codes "x") 1 fresh_gateway
      day (omega arith) fresh-IsAccounted

abbrev pub earlier : Session
earlier =
    new_session (codes "01") (codes "ana") (codes "::1") (new_mapper virtual_root remote_root)
      (record {
        allow_upload = true;
        allow_download = true;
        allow_delete = false;
        allow_mkdir = false;
        allow_rename = false;
        allow_overwrite = false;
        max_file_size = 0;
      })

abbrev runtime : UserRuntime
runtime = record { mapper = earlier.mapper; policy = earlier.policy }

abbrev pub logged_once : Gateway
logged_once = record fresh_gateway {
  users = λ name. some runtime;
  active = 1;
  sessions = 1;
  extras = (1, record { admitted = true; sess = some earlier }) ∷ [];
}

abbrev pub same_bytes : Bytes → Bytes → Bool
same_bytes hash password = eq_bytes hash password
