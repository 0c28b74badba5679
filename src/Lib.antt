-- ===== src/Lib.antt =====
-- A gateway that serves FTP and stores on a remote SFTP server, one SFTP connection for each FTP
-- session. The FTP protocol itself is a library's, which calls the driver that is modelled here.
--
-- The parts, by files of the repository:
--   Errors          internal/errors/errors.go: the taxonomy, KindOf and Is
--   GoPath          the functions of Go's package path that the program uses
--   Filesystem      internal/filesystem/mapper.go: ResolveVirtual, ToRemote, ToVirtual, WithinRoot
--   Authorization   internal/authorization/policy.go and concurrency.go
--   Auth.Limiter    internal/auth/limiter.go; Auth.Store and Auth.Authenticator likewise
--   Transfer        internal/transfer/transfer.go; Transfer.Upload is upload.go, and
--                   Transfer.Download download.go
--   SftpClient      internal/sftpclient/client.go
--   SshClient       internal/sshclient/dial.go
--   Session         internal/session/session.go
--   Metrics         internal/observability/metrics.go
--   Driver          internal/ftpserver/clientdriver.go, with connector and recordTransfer of
--                   internal/ftpserver/gateway.go; Driver.Commands holds the commands on names,
--                   Driver.Handles STOR and RETR, Driver.Protocol all of them as one type, a
--                   transfer with the calls that the FTP library makes on its handle
--   Config          internal/config/types.go; Config.Defaults and Config.Load are load.go, and
--                   Config.Validate is validate.go
--   Gateway         internal/ftpserver/gateway.go: ClientConnected, ClientDisconnected, AuthUser and
--                   PrepareShutdown; Gateway.Startup is New and the configuration of connector
--   Identifiers     internal/observability/id.go
--   Logging         internal/observability/protocol_logger.go
--   Health          internal/health/server.go
--   Process         cmd/ftp2sftp/main.go and cli.go: the probes, the health check, the shutdown and the
--                   exit codes of the operator's commands; Process.Password is hash-password
--   Resources       the network connections that the programs of the other parts open and close
--   System          the gateway, its sessions and their commands, interleaved on the shared state
--   Effects         programs that send requests, and what holds of them whatever is answered
--   Remote          the requests: the SFTP and SSH libraries, the network and the key files
--   Base            names and lemmas that all share
--   Witnesses       the theorems at concrete inputs, and test runs
--
-- How the code is modelled. A method that changes its receiver returns the new record. A method that
-- calls foreign code is a tree of requests with a branch for each answer, so that a property of the
-- tree covers every behaviour of the remote server; nothing is assumed of it but where a theorem says
-- so. A driver's command takes the world (the session, the gate of its user, the metrics, the log)
-- and leaves it changed. Go's error that may be nil is an Option, a value with an error a Result. The
-- readings of the clock are arguments, in nanoseconds; a fresh identifier is an argument. bcrypt and
-- the hexadecimal form of SHA-256 are parameters, and a hash holds the bytes it was fed.
--
-- Bounds. Every loop runs along a list, so there is no fuel. Metrics are 64-bit patterns that wrap
-- around. Sizes, byte counts and times are natural numbers without an upper bound; a size limit or a
-- timeout that is not positive is 0, and the limiter's threshold and durations are not negative.
--
-- The configuration holds Go's integers as ℤ; what is built from it takes a number below 0 as 0, where
-- the code treats the two alike, but for a negative number of concurrent transfers, with which the
-- code panics and which `Validate` refuses. Hexadecimal digits are made on fuel: 16 are enough for 64 bits.
--
-- Not modelled: the closing of all connections and the start-up, which only call the FTP library and
-- what is modelled; the library's settings; the HTTP handling, flags, signals and messages; the log's
-- levels and formats; LogValue and CheckFileSize; the decoding of YAML, which is a parameter; the mutexes: the calls on one object are taken one at a time.
-- So are the gateway's methods, although two connections may arrive at once and the count is then above
-- the limit until one is refused.
pub mod Base
pub mod Errors
pub mod GoPath
pub mod Filesystem
pub mod Effects
pub mod Remote
pub mod SftpClient
pub mod Authorization
pub mod Metrics
pub mod Transfer
pub mod SshClient
pub mod Session
pub mod Driver
pub mod Auth
pub mod Config
pub mod Gateway
pub mod Identifiers
pub mod Logging
pub mod Health
pub mod Process
pub mod Resources
pub mod System
pub mod Witnesses
