-- ===== src/Lib.antt =====
-- A model of the JT808 server: a TCP service that speaks JT/T 808 with GPS trackers.
--
-- The program's parts. A connection's goroutine reads frames (pkg/protocol/frame.go) and hands each
-- to the dispatcher (server/internal/handler/handler.go), which decodes the body
-- (pkg/protocol/decoder.go), answers on the session (server/internal/session/session.go), keeps the
-- registry of connections (server/internal/session/registry.go), asks MySQL whether a device may
-- register (server/internal/store/device.go), and starts goroutines that publish on a Redis stream
-- (server/internal/forwarder/stream.go). The main program (server/cmd/main.go) reads the settings
-- (server/internal/config/config.go), waits for Redis and MySQL, registers the metrics
-- (server/internal/metrics/metrics.go) and runs the listener (server/internal/server/tcp.go).
--
-- Base: numbers, bits, lists and texts that the parts share.
-- Configuration: `Load` (load) and the readers of the environment; `os.Getenv` is a function, and
--   `time.ParseDuration` and `os.Hostname` are arguments. Base.Numbers: what it uses of strconv.
-- Protocol.Types: the constants of pkg/protocol/types.go.
-- Protocol.Reader: `encoding/binary` and `bytes.Reader` on the list of the bytes that are left.
-- Protocol.Bcd: `encodeBCD` (encode_bcd) and `decodeBCD` (decode_bcd), with Go's runes.
-- Protocol.Frame: `ReadFrame` (read_frame), `WriteFrame` (write_frame), `xorChecksum`,
--   `BuildPlatformACK` and `BuildRegistrationACK`. A reader is the list of the bytes that will
--   still arrive, and the error that a read returns behind the last of them. Protocol.Frame.Fields:
--   the ranges of what is read.
-- Protocol.Extras, Protocol.Location: `DecodeLocation` (decode_location), its loop over the
--   additional items (tlv_loop) and `parseBCDTimestamp`.
-- Protocol.Registration: `DecodeRegistration` (decode_registration) and `nullTrimmed`.
-- Forwarder: the values of `PublishLocation` (location_entry), `extractBattery`, `extractSignal`
--   and `activeAlarmNames`; in Forwarder.Json `extrasToJSON`, with the entries of the map in the
--   order in which Go iterates; in Forwarder.Publish the arguments of `XADD`.
-- Session: the struct `Session`, `Send`, `ACK`, `SetState`, `Touch`, `TouchLocation`, `IsStale`
--   and `Close`.
-- World: what the goroutines share. Sessions are numbered by their pointers; a goroutine that is
--   started waits in `pending`, and calls that leave the program stand in `trace`: `wrote` is a call
--   of `Write`, whether or not it succeeds.
-- Registry: `Register`, `Unregister`, `Heartbeat`, `StoreAuthToken` and `ValidateAuthToken`; in
--   Registry.Redis the Redis commands of the goroutines and of `PruneStale`, with the score that
--   the online set has for a phone; in Registry.Score the scores, which are times as `float64`; in
--   Registry.Entries `Get`, `Count` and `ForEachLocal`.
-- Store: `CheckOrCreate` and `RecordHeartbeat`, a nil store being `db_enabled` false; in Store.Table
--   the answers of a table that only this program writes to, in Store.Statements the SQL text.
-- Actions: what Redis, MySQL, the connection and the clock answer in one dispatch (`Answers`), and
--   the replies that a handler writes on its session.
-- Handler: `Dispatch` (dispatch) and one function for each handler; Handler.Books and
--   Handler.Counted: the counters against what they count.
-- Server: `handleConn` of server/internal/server/tcp.go (handle_conn), its authentication timer
--   (auth_timeout) and deferred calls (leave, with close_conn); in Server.Steps the interleavings of the calls, in
--   Server.Owners what they mean for a client of the registry, and in Server.Among one connection
--   among the others; in Server.Listen `Run` with its accept loop, `pruneLoop`, whose panic ends the
--   process, and the answers of the HTTP endpoints; in Server.Stale a session that changes its phone
--   number, and in Server.Strangers a peer that never logs in.
-- Device: the simulated tracker of device/p901/main.go: `buildRegBody` (build_reg_body),
--   `buildLocationBody` (build_location_body), `bcdTimestamp`, `padRight`, `clamp`, and its reading
--   of the replies (reg_reply, read_ack). Its state is cut to the whole numbers that it sends. In
--   Device.Run `runDevice`; in Device.Settings `loadConfig` and `loadState`; in Device.Advance and
--   Device.Signals `advanceState`, `simSignal` and the numbers of a report over an interface to
--   floating point numbers; in Device.Journey `saveState`, with the error of `json.MarshalIndent`, and `main`, on
--   the list of its attempts to connect. Device.Admission, Device.Arrivals and Device.Conversation: the device against the
--   server, in Device.Admission.Whole a connection from its first frame to its last.
-- Main: `main`: its wait loops (wait_for_redis, wait_for_db), `Run` and its exit status. What is
--   answered to each attempt is a list.
-- Metrics: the instruments of `New` (instruments) and their registration (new).
-- Tests: the theorems at concrete inputs.
--
-- Bounds and fuel. A `uint16` or `uint32` is a number with its wrap-around written out; `&`, `|`
-- and `^` are the native bit operations. The loop over the additional items runs on as many rounds
-- as there are bytes, and a round takes two at least. The loop over a batch counts down `count`.
-- The loop of a connection has as many rounds as the stream has bytes, and a frame takes 15 bytes
-- at least. Decimal numbers of a token have at most 20 digits, enough for a Unix time of 64 bits.
-- Degrees are a sign and micro-degrees and speeds are tenths of a km/h where they are on the wire.
-- The text of the extras is read with as many rounds as it has characters, and an item has more
-- than one. Loops that wait for the outside (attempts, ticks, accepted connections) run on the list
-- of what the outside answers.
--
-- Not modelled: socket calls, `OnlineCount` (one ZCARD), the text of the JSON payload of an event,
-- log lines, and in the simulated tracker a shutdown between a step of `advanceState` and the save
-- behind it. A mutex or an atomic field makes the call that uses it one step.
pub mod Base
pub mod Configuration
pub mod Protocol
pub mod Forwarder
pub mod Session
pub mod World
pub mod Registry
pub mod Store
pub mod Actions
pub mod Handler
pub mod Server
pub mod Device
pub mod Main
pub mod Metrics
pub mod Tests
