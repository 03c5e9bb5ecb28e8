-- ===== src/Lib.antt =====
-- A model of reversproxy, a tunnel proxy in which the server dials its clients.
--
-- The program. A client listens; the server dials it over TLS and keeps a control connection, on
-- which the two exchange framed messages. To expose a service of the client, the server opens
-- public listeners for TCP, HTTP and HTTPS. For each external connection it registers a waiting
-- entry with the tunnel manager, tells the client, and the client dials back a data connection that
-- brings the identity and the secret token of the entry. HTTPS connections are routed by the name
-- in the TLS ClientHello. To use the server as an exit, SOCKS streams are multiplexed as messages on
-- the control connection. A file service receives uploads over HTTP in slices that are resumed.
--
-- The files. Base has what the others share: Booleans and tests on numbers (Nums), lists (Lists), Go
-- strings as lists of bytes (Text), Go maps as association lists (Maps) and the pair of a value and
-- an error (Result).
--   Protocol/Messages    internal/protocol/messages.go: types, payloads, the envelope
--   Protocol/Framing     internal/protocol/framing.go: WriteMessage, ReadMessage, Decode
--   Protocol/Validation  internal/protocol/validation.go: ValidateDomain, ValidatePort, ValidateTarget
--   Tunnel/Manager       internal/tunnel/manager.go: every method of Manager, WaitReady, WaitSOCKSReady
--   Tunnel/Table         the two routing tables of the manager, for HTTP and for HTTPS
--   Tunnel/Pointers      stores of objects that a map points to
--   Tunnel/Sni           internal/tunnel/https_proxy.go: peekSNI and the parsers of the ClientHello
--   Tunnel/Edge          internal/tunnel/http_proxy.go, https_proxy.go, server.go: handleHTTPConn,
--                        handleHTTPSConn, the loop of StartPublicListener, handleDataConn and the
--                        three relay goroutines
--   Tunnel/Dialing       internal/tunnel/client.go: handleOpenConnAsync, handleSOCKSConnectAsync
--   Tunnel/Pump          internal/tunnel/relay_mux.go: RelayMuxChannel
--   Tunnel/Mux           internal/tunnel/socks_mux.go: every method of SOCKSMux, Close of a channel
--   Transfer/Names       internal/filetransfer/protocol.go: sanitizeName, uniquePath
--   Transfer/Receiver    internal/filetransfer/receiver.go: ServeHTTP, handlePut, checkToken
--   Transfer/Sender      internal/filetransfer/sender.go: SendFile, remoteOffset, putFrom
--   Control/Approvals    internal/control/approval.go: Submit, in the steps submit, receive, leave; Decide
--   Control/Registry     internal/control/registry.go: ClientRegistry
--   Client/Pool          internal/client/pool.go: Add, Remove and Pick of ServerPool
--   Control/Session      internal/control/handler.go: HandleControlConn, from handshake to cleanup
--   Control/Requests     internal/control/handler.go: the three requests for tunnels
--   Control/Dials        internal/control/handler.go: handleServerSOCKSConnect, newSOCKSDialer
--   Control/KnownHosts   internal/control/knownhosts.go: KnownHosts and its file
--   Control/Trust        cmd/server/main.go: tofuCheck
--   Control/Heartbeat    internal/control/heartbeat.go: StartHeartbeat
--   Config               internal/config/config.go: ServerConfig, ValidateSecurity; the token of
--                        startClientDialLoops in internal/app/server_app.go
--   Client/Session       internal/client/handler.go: HandleServerConn
--   Tunnel/Writer        internal/tunnel/ctrl_registry.go: CtrlConnWriter, ControlConnRegistry
--   Tunnel/Limiter       internal/tunnel/ratelimit.go: Acquire, Release, Allow, the cleanup
--   Socks/Negotiate      internal/socks/proto.go: NegotiateSOCKS5; sendSOCKSReply
--   Socks/Server         internal/socks/server.go: handleSOCKSConn
-- Tunnel/Manager/Served states the contract of the hostnames: two partial maps that forget the lists.
-- A definition has the name of the Go function, in lower case with underscores. The child modules
-- hold the proofs and are named for what they prove; a module Runs holds concrete runs.
--
-- The state. A struct is a record, and a method takes the record and gives the changed one. The
-- mutexes make the methods of the manager and of the multiplexer atomic, so a run is a sequence of
-- calls. Where a Go map holds pointers, the record has a store of objects and the map holds their
-- numbers, so that a goroutine that waits on an object still sees it after the entry is deleted. A
-- goroutine that waits is a function of the object that gives none as long as it is blocked; so
-- wait_done is the goroutine that a relay goroutine leaves in WaitReady. A Deliver begins a Write on the
-- io.Pipe of its channel, which ends when readers have taken it or the pipe is closed; the message
-- loops, which block on it, are not held up in the model, so that a run may go on before it ends. Closing
-- a closed channel, which panics in Go, and a WaitGroup below zero are values of the model.
--
-- Interleavings. Where goroutines meet without one lock around a whole operation, the model is a
-- step relation or a sequence of events. Write of a control connection and the slots of the
-- limiter are steps of numbered goroutines, and RelayMuxChannel is a relation on the state of its
-- three goroutines. tofuCheck is two events, with the wait for the operator between them. A
-- session is a run over events: a round of the message loop, which finds its context cancelled,
-- fails to read or handles a message, or one step of a goroutine that dials for a SOCKS user. The
-- goroutines go on after the loop has ended. One session is modelled at a time: other sessions do
-- not change the shared tables while it runs. At the edge, a run is a sequence of users, data
-- connections, steps of relay goroutines and changes of the tables. The handler of a SOCKS user
-- reads a manager that others may have changed in any way before each step.
--
-- Fuel. The loops over a ClientHello have one unit of fuel more than it has bytes and take at least
-- four bytes, or three, in each round. The loop over the runes of a label has one unit for each byte
-- and takes at least one. The search for a free path has one unit more than there are files, and the
-- candidates are distinct. The digits of a number have the number itself as fuel. The loop of the
-- sender runs over a list of rounds, each of which says what fails in it.
--
-- Numbers. Lengths, ports and sizes are natural numbers. The length of a frame wraps at 2 ^ 32 as
-- uint32 does. The sizes of files are below 2 ^ 63, as the headers that carry them, so that the sums
-- and differences in handlePut do not wrap; a negative limit on a body is 0 here, which reads the same.
--
-- Parameters. yaml.v3 is a record of marshal and unmarshal with the law that what was marshalled is
-- read back. encoding/gob is a record of encode and decode with the law that a value that was
-- encoded is decoded again. net.ParseIP, strings.ToLower, strings.TrimSpace, strconv.ParseInt,
-- hex.DecodeString and SHA-256 are functions without laws, where a theorem does not name one. Random
-- bytes are inputs, with their error. So are the failures of writes and of file system calls. A
-- failing os.Stat is taken to mean that there is no such file. http.ReadRequest and
-- Request.Write are the record of a request, and uuid.New is a function of the number of calls, which
-- a theorem takes to give no identity twice. The gob decoders of a session are
-- functions that may fail; UUIDs, times, listeners and the outcomes of dials and writes are inputs.
-- The tests of net.IP on addresses, net.SplitHostPort and the texts of errors are functions. The
-- floating-point operations of the limiter are functions, which a theorem that counts takes as exact.
--
-- Not modelled: sockets, listeners, accept loops and relays of bytes; TLS and certificates;
-- reconnection, statistics, the loading of the configuration and the admin API; the gates that serialise
-- uploads of one name, which make an upload atomic here; the programs and the Windows front ends,
-- which wire these parts together; the earlier programs in other languages.
pub mod Base
pub mod Protocol
pub mod Tunnel
pub mod Transfer
pub mod Control
pub mod Client
pub mod Socks
pub mod Config
