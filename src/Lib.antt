-- ===== src/Lib.antt =====
-- The verification library of bitbang-cli: models of the program's parts in Go and theorems about them.
--
-- A listener serves parts of a machine to browsers over WebRTC data channels. A message of a data channel is
-- one frame of the protocol SWSP. Frames that arrive before a session exists wait in a queue; the session
-- then dispatches each frame to stream 0, the control stream with the handshake and the PIN, or to the
-- worker of an application stream, whose bytes flow control bounds in both directions. Which codes a
-- listener admits, and what a code grants, are the links and their grants; a registry bounds the live peers.
-- A share publishes one tmux session to one controller and a number of viewers. The streams of a session carry
-- shells, TCP connections and WebSocket messages, and files inside a shared directory.
-- A client proves with its answer that it knows a code, the listener that it holds its key; without a code
-- two people pair the two programs by a short text that both compute.
--
-- Files and sources, the paths from the root of the repository:
-- Wire: internal/protocol/swsp.go. A byte is a number below 256; ParseFrame and BuildFrame are parse_frame
--   and build_frame. JSON payloads are not modelled.
-- FrameQueue: internal/framequeue/queue.go. One function for each section under the lock; FrameQueue.Steps
--   is the step relation of one frame source, one publication, the drain goroutine and any number of calls
--   of Close, with Order, Bounds and Race on its runs.
-- Flow: the streamState of internal/session/flow.go. Its uint64 counters wrap at 2^64 (add64, sub64), and
--   the theorems say where they need fewer than 2^63 received bytes. Flow.Receiver adds the worker of a
--   stream, Flow.Pair and Flow.Balance a sender and a receiver joined by a reliable, ordered channel.
-- Pin: internal/auth/pin.go. SHA-256 is a parameter.
-- Session: internal/session/session.go, control.go and flow.go. Session.Streams has the frames of streams,
--   Session.Control the messages of stream 0, Session.Dispatch HandleMessage and the runs. What json.Unmarshal
--   makes of a payload is the record Decoder, the hash and the answers of OnConnect are the record Outside,
--   both parameters. What a session does outwards is a log of events. Session.Traffic and Session.Messages
--   carry any predicate that a few handlers keep through all of the others; Session.Admission and
--   Session.Gate apply them to the PIN gate, Session.Guesses to the count of wrong PINs.
-- PeerSet: internal/peerset/peerset.go. A map is an association list; PeerSet.Deadline is the race of the
--   deadline's timer with Done.
-- Allowlist: internal/allowlist/allowlist.go. net.SplitHostPort and strconv.Atoi are the record Net.
-- Grant: internal/grant/grant.go. Fields splits and quotes, Spec is the grammar, Narrow intersects and
--   narrows; filepath.Abs, filepath.Rel and filepath.Separator are the record Paths.
-- Links: internal/links/terms.go and table.go. A time is a number; the generator of codes is a function
--   from the number of the call.
-- Fragment: internal/signaling/fragment.go. The text is its bytes.
-- IdMap: the Go maps from stream ids, as association lists.
-- Client: internal/client/session.go, the connecting side. Client.Stream is one stream, Client.Session the
--   stream table with what is sent and what is delivered, Client.Dispatch the frames that arrive and the
--   runs, Client.Handshake the control protocol up to `ready`. Client.Sides puts the receiving sides of
--   client and listener next to each other, as far as the queues and windows go: an error of a handler is
--   not part of it. A write that waits for the window answers that it waits; the
--   caller writes again.
-- Sdp: internal/sdp/fingerprint.go, with its regular expression written out.
-- Pairing: internal/pairing (Commit, Messages, Prompt) and, from the open data channel on,
--   cmd/bitbang/connect_pair.go (Connector). SHA-256, base64, JSON and the nonces are parameters;
--   what a completed pairing needs of them is ReadsBack of Messages, for the objects of the pairing alone.
-- Peer: internal/peer/connection.go and verify.go. Peer.Answer is the bidirectional check, on any order of
--   answers and openings; Peer.Pair the pairing of the listener, whose frames arrive as a list in which
--   `none` is a timeout; Peer.Closing the teardown callback. WebRTC, the key and the operator are parameters.
-- Tcp: internal/streamtype/tcp.go and ValidateTarget of internal/tcpforward/tcpforward.go. The goroutine of a
--   stream is a Worker from its start to its remove; sockets and dials are outside.
-- Share: internal/share/worker.go and worker_peer.go. Share is the configuration, the codes and what they
--   authorize, Share.Slots the slots of the two roles, Share.Worker the peers and the signaling loop,
--   Share.Runs what goes on beside it: one critical section is one step. Owned, Reserved and Steps follow the
--   slots, Keyboard, Kept, Drops and Roles the peers, Viewers and Authority say what that means.
-- Shell: internal/streamtype/shell.go. Shell is the list of live shells, Shell.Overrun and Shell.Served two
--   ways of running on it, Shell.Spawn the command of OnSYN, Shell.Input what reaches a shell, Shell.Mirror
--   lineMirror. Processes, terminals and the regular expression of escape sequences are outside.
-- WebSocket: writeWSReader and writeFragment of internal/streamtype/websocket.go.
-- SafePath: internal/fileshare/safepath.go; path/filepath is the record Filepath.
-- Streams: internal/bytestream/bytestream.go. The answers of reader, writer and context are a script.
-- Command: cmd/bitbang/args.go (Args, with Pieces, which says what an argument list is), hold.go (Hold),
--   and the poll of serve_peer.go (Poll), which Polled compares with Links.
-- Prelude: what the modules share. Witnesses: runs of theorems at concrete inputs.
--
-- Definitions are by structural recursion or a single step, and runs are lists of inputs or derivations of a
-- step relation. One has fuel: write_from of WebSocket counts its rounds, and write_ws_reader gives it one
-- more than the message has bytes, where each round but the last takes at least one.
--
-- Not modelled: logging, timers and sleeps, the mutexes themselves, JSON text, and the parts of the program
-- that are input and output: the rest of the command line, HTTP and file streams, tmux, signaling, WebRTC, files and
-- processes.
pub mod Prelude
pub mod Wire
pub mod FrameQueue
pub mod Flow
pub mod Pin
pub mod Session
pub mod Share
pub mod Shell
pub mod WebSocket
pub mod SafePath
pub mod Streams
pub mod PeerSet
pub mod Allowlist
pub mod Grant
pub mod Links
pub mod IdMap
pub mod Client
pub mod Sdp
pub mod Pairing
pub mod Peer
pub mod Command
pub mod Tcp
pub mod Fragment
pub mod Witnesses
