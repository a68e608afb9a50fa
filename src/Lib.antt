-- ===== src/Lib.antt =====
-- The Qiniu CSI driver: Kubernetes volumes on the object storage Kodo and on the file system
-- KodoFS.
--
-- The parts. A CSI plugin (plugin/) runs in Kubernetes. Its controller creates and deletes buckets
-- through an HTTP client (qiniu/); its node server mounts them. It mounts nothing itself: it sends
-- commands over a Unix socket, in the protocol of protocol/, to the connector (connector/), a
-- daemon of the host that runs rclone or kodofs and sends back their output and exit code.
--
-- Base: results of fallible functions (Errors), loops over maps and their order (Ranges), lists
-- and tests on the native numbers. Text: strings as lists of bytes, and what the driver calls of
-- `strings` and `strconv`. Letter case and white space are those of ASCII. A number is written
-- with 20 digits at most, which is enough for 64 bits; a number that does not fit them is an
-- error, as in `strconv.ParseUint`.
--
-- Protocol: the messages (Messages: protocol/protocol.go, const.go), the command lines of rclone
-- and kodofs (Commands: ExecCommand in protocol/kodo_cmd.go and kodofs_cmd.go) and
-- protocol/utils.go (Utils).
--
-- Connector: handleConn's reader (Requests) and handleCmd (Session) in connector/main.go. A
-- session is a record of the variables of handleCmd; `step` is one round of its select, or the end
-- of the process; `run` is a sequence of events in whatever order. Every step gives the actions on
-- the world. Answers say what the system does: whether a file is written, a pipe is made. A closed
-- connection and one past its deadline are the event `closed`. Streams is the way of the output:
-- the process, its pipe, which is closed with what is left in it, the two goroutines that read the
-- pipe, and the loop that sends what they hand over, whose writes may fail, as a step relation in
-- which they take turns in any order; a chunk of output is one unit. Startup is main up to the
-- point where the connector serves. Files is connector/utils.go: the configuration of rclone, the
-- checks of files, the choice of systemd and the names of the caches.
--
-- Plugin.Fields and Plugin.Values: the names of the parameters and how a value is read.
-- Plugin.Kodo: parseKodoStorageClassParameter (StorageClass) and parseKodoPvParameter (Volume) in
-- plugin/kodo_parameters.go, CreateVolume (Create, Context) and DeleteVolume (Delete) in
-- plugin/kodo_controller_server.go. Plugin.Kodofs: plugin/kodofs_parameters.go (Parameters), and
-- CreateVolume (Server) and DeleteVolume (Delete, Calls) in plugin/kodofs_controller_server.go,
-- whose archive loop (Archive) is on fuel, since the loop of the source has no bound. A map is its
-- list of entries in the order of one iteration. The servers' requests return an outcome with the
-- calls that they made (Calls). Plugin.Mount: mountKodo, mountKodoFS and cleanAfterKodoUmount in
-- plugin/utils.go, as the command they send (Command), how it is written for the connector (Wire)
-- and the loop over the messages they receive (Loop); mountKodoFSLocally, which runs kodofs
-- itself, is Local. Plugin.Node: plugin/kodo_node_server.go (Server), plugin/kodofs_node_server.go
-- (Kodofs), and isMounted and ensureDirectoryCreated in plugin/utils.go (Mounts), with
-- mountinfo.GetMounts as a parameter. Plugin.Startup: main and the drivers, up to the servers that
-- are started; Plugin.Random and Plugin.Logging: the random names and the log attributes of
-- plugin/utils.go.
--
-- Qiniu: the client of the object storage in qiniu/kodo.go and that of the KodoFS master in
-- qiniu/kodofs.go. Client has the state of a call (the cache of the process, the cloud, the
-- requests so far), its errors, and getCacheValueByKey; Regions the lookups of regions, endpoints
-- and buckets that go through the cache; Iam the calls that change the account and the request for
-- a batch of objects; Calls lists them all. Pages has the requests of listObjects and its loop
-- over the state of the cloud. Objects is the same loop over its answers alone, and the batches of
-- deleteObjects; Workers are the goroutines of deleteObjects, as a step relation in which they
-- take turns in any order; Cleaning joins them to CleanObjects, for a deletion whose goroutines
-- have ended. A listing runs on fuel, one for each request; as much as there are pages is enough.
-- Cache is the map of getCacheValueByKey and the lists of buckets, Kodofs the client of the
-- master, and Signing the signatures of qiniu/auth.go.
--
-- Parameters of the model: `net/url` and `time` (GoLib), `encoding/json` (Decoders), HTTP, JSON
-- and the clock for the clients (Network, KodofsNetwork), HMAC, base64 and header names (Crypto),
-- the answers of the object storage, of the master, of Kubernetes and of the system (KodoService,
-- Cloud, DeleteAnswers, CreateKodofsAnswers, RemoveAnswers, ArchiveAnswers; a deletion is answered
-- by the client that asks, Client and KodofsClient), JSON on the wire (Encoders, Replies), the
-- query and the body of a listing (Qiniu.Pages.Pages), paths, MD5 and random names of the
-- connector (Setup), the system that the programs start on (Host, PluginHost, LogAnswers). Not
-- modelled: the registration and the loop of the gRPC servers, the HTTP server for health checks,
-- what is written to the log, the fixed user agent, the end of a request by its context, and the
-- limit of bufio.Scanner for a line. Calls that singleflight merges are one call here.
--
-- Tests: runs at concrete inputs.
pub mod Base
pub mod Text
pub mod Protocol
pub mod Connector
pub mod Qiniu
pub mod Plugin
pub mod Tests
