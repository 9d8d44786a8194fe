-- ===== src/Lib.antt =====
-- mini-av is a file scanner in Go. A Core process starts worker processes, one for each scanner and
-- version, speaks a small JSON protocol with them, sends each scan to the active worker of every
-- scanner, and puts the workers' verdicts together into one. Workers are replaced while scans are in
-- flight: the new one is started and checked, takes the route of its scanner, and the old one drains.
-- This library models the parts of Core, of its workers and of their update that decide, and states
-- what they keep.
--
-- The parts, by file:
-- - Prelude: Boolean tests, lists, Go's maps as association lists (Prelude/Table), integers, text.
--   A `range` over a map visits the entries in the order of the list, and statements are about every
--   list. Prelude/Actions is how a function that calls what lies outside it is written: an action
--   returns its result with the calls that it made, the last one first, and what a call answers is any
--   function of those before, so that other processes may act in between.
-- - Process: pkg/process/process.go, the child process and Child.Terminate; Process/Starting is Start
--   with its pipes.
-- - Protocol: pkg/protocol/protocol.go. Protocol is the data, Protocol/Validate is Validate and its
--   helpers, Protocol/Grammar is a typed grammar of messages that does not mention the checks, and
--   Protocol/Accepted sets the two beside each other. Protocol/Wire and Protocol/Roundtrip are Marshal
--   and Unmarshal over encoding/json, a parameter with the laws IsJson.
-- - Aggregator: pkg/aggregator/aggregator.go, Aggregate.
-- - Signatures: pkg/signatures/signatures.go. Signatures/Load is `load` and Reload, Signatures/Match
--   the database's `match`; Signatures/Lines is about the first, Signatures/Window and
--   Signatures/Search about the second.
-- - Coordinator: pkg/coordinator/coordinator.go, the actor that owns the workers and the requests.
--   Coordinator/State has the state and the commands, Coordinator/Handlers one function for each
--   handler and `step` and `run` for the actor's loop. Coordinator/Moves is the relation of the moves
--   that the actor can make; Coordinator/Clients has the methods that send a command and wait for the
--   reply; Coordinator/Routes is about the routes, command by command, and the other files prove what
--   holds along the relation.
-- - Runtime: pkg/coordinator/runtime.go, the event loop of Core. Runtime/State has the state; its
--   `log` holds what the loop sends on reply channels and the timers and kills that it asks for.
--   Runtime/Requests, Failure, Startup, Scans, Reloads, Shutdown and Messages have one function for
--   each of its methods, and Runtime/Loop has the events, the loop's `step`, the writer goroutine of a
--   worker as write_worker, and `run` over any interleaving of the two. Runtime/Bounds, Sound, Runs
--   and Timeouts are the proofs. Runtime/Clients has the methods that run beside the loop: `send`, the
--   waits, Scan, Reload, ActiveWorker, Snapshot and Shutdown; Runtime/Clients/Starting is StartWorker,
--   Relays the goroutines of a worker, and Owned and Settled the proofs.
-- - WorkerTransport: ToProto and FromProto of pkg/workertransport/protobuf.go. The structs that protoc
--   makes of api/scanner/v1/scanner.proto are WorkerTransport/Protobuf's records. Connections and
--   Bootstrap are pkg/workertransport/transport.go: the two kinds of connection with Dial, and the line
--   in which a worker tells its address.
-- - Ipc: pkg/ipc/ipc.go. Ipc/Writing is the Encoder over any io.Writer, Ipc/Reading the Decoder over
--   the bytes of a stream; Ipc/Frames and Ipc/Delivery are the proofs. Ipc/Limited is the read of one
--   line of at most so many bytes, which the bootstrap and the control connection share.
-- - Config: pkg/config/config.go. Config/Check is Load and `validate`, over a parameter for what the
--   file system answers; Config/Accepted is the proofs.
-- - Worker: pkg/worker/worker.go, the other side of the protocol. Worker/Scan is handleScan,
--   Worker/Session is RunSession as turns: the loop receives, a scan loads the database, a scan ends,
--   the wait ends. Worker/Keeps, Sent, Farewell, Answered, Drained and Verdicts are the proofs.
--   Worker/Server is pkg/worker/server.go, and Worker/Main is pkg/worker/main.go with cmd/scanner-a,
--   scanner-b and scanner-c; Worker/Flags is about the flags that Core passes.
-- - Update: pkg/update/update.go, Prepare. Update/Manifest is decodeManifest and validateManifest,
--   Update/Digest is equalDigest, Update/Staging and Update/Remote stage an artifact, and Update/Prepare has
--   Prepare. Update/Calls has the calls to the operating system (see Prelude/Actions).
--   The deferred Close of a file that is only read is left out. Update/Written, Reused, Published,
--   Verified, Leftover, Remaining, Cleaned, Fields and Safe are the proofs.
-- - Commands: cmd/miniav. Commands/Cli parses the arguments and prints the outcome, Commands/Request
--   has the requests that Core accepts, Commands/Dispatch is dispatchCommand with the outputs of
--   Commands/Texts, Commands/Connection both ends of a control connection, and Commands/Serving `serve`
--   with serveListener. Commands/Accepted, Served, Exchange and Stopped are the proofs.
-- - Witnesses: the theorems at concrete inputs.
--
-- A number of Go is a natural number or an integer without a bound, but for the request ID of the
-- runtime, which wraps at 2 ^ 64, the conversions of ToProto to int32, and the timeouts of a
-- configuration in nanoseconds, an int64. An error is a value with the parts of its text. Loops over
-- slices and maps are structural recursion; writeAll runs on fuel, for which the length of the frame is
-- enough. The matching loop runs over the list of what the reader's calls return, and a reader that
-- returns nothing more ends it in `blocked`. A goroutine that sends to an actor is a command or an event
-- of the list that the loop runs over, in any order. The end of the actor's and of Core's loop by
-- ctx.Done is the end of that list; a worker's session has a turn for it.
--
-- The select of a client on a reply, its context and the loop's end is a value that says which case is
-- taken. Accept answers connections until an error, and the handling of a connection is modelled by
-- itself: what two of them share is the loop, whose events come in any order. Main of a worker reads its
-- flags with FlagSet.Parse written out, for the six flags that it has.
--
-- Not modelled: the packages net, grpc, flag and fmt and the texts that they make, deadlines and signals,
-- and the generated code of pkg/grpcprotocol.
pub mod Prelude
pub mod Process
pub mod Protocol
pub mod Aggregator
pub mod Signatures
pub mod Coordinator
pub mod Runtime
pub mod Commands
pub mod Config
pub mod Ipc
pub mod Update
pub mod Witnesses
pub mod Worker
pub mod WorkerTransport
