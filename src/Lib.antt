-- ===== src/Lib.antt =====
-- Verification of the game relay: the relay server that forwards the packets of game sessions
-- (internal/relay), the adapter between a game, its FAF client and that server (internal/adapter), and
-- the wire formats that they share (internal/protocol).
--
-- The server keeps a table of sessions, each with its players, and an index from players to sessions.
-- HTTP requests create and delete sessions and let players join and leave; packets arrive over UDP, or
-- over TCP as a fallback, and are forwarded within the sender's session; a reaper removes players who
-- have fallen silent and sessions that are empty. The adapter opens a local socket for each other player,
-- which is reached over the relay server or by ICE; it takes the FAF client's calls, holds commands for
-- the game until the game has its lobby, and restarts ICE connections that fail.
--
--   Outcome                 a Go call that returns a value, returns an error or panics
--   Protocol/Binary         the part of Go's encoding/binary that is used
--   Protocol/RelayWire      internal/protocol/relay_wire.go
--   Protocol/Gpgnet         the reader of internal/protocol/gpgnet.go, its writer in Gpgnet/Writing
--   Protocol/JsonRpc        internal/protocol/jsonrpc.go
--   Relay/TcpFrame          writeTCPFrame and readTCPFrame of internal/relay/router.go
--   Relay/Session/Player    PlayerInfo of internal/relay/session.go, and the verdict on a packet
--   Relay/Session           Session of internal/relay/session.go: one function for each method
--   Relay/SessionManager    SessionManager of internal/relay/session.go, and the reaper in its child
--   Relay/Metrics           internal/relay/metrics.go
--   Relay/Router            Router of internal/relay/router.go: Run, broadcast, unicast, sendToTarget
--   Relay/TcpHandler        handleConn of internal/relay/tcphandler.go
--   Relay/RateLimits        the two rate limiters of internal/relay/httpapi.go
--   Relay/HttpApi           the handlers of internal/relay/httpapi.go
--   Adapter/Peer            internal/adapter/peer.go: a peer behind the relay, and its echo frames
--   Adapter/PeerManager     internal/adapter/peermgr.go
--   Adapter/IcePeer         NewICEPeer, Close and the sockets of internal/adapter/icepeer.go
--   Adapter/RelayConnection internal/adapter/relayconn.go, with the reconnection and the TCP stream in
--                           its children Backoff and Stream
--   Adapter/RelayHttp       the HTTP calls of internal/adapter/adapter.go
--   Adapter/Status          internal/adapter/status.go
--   Adapter/Startup         the registration and the choice of transport of internal/adapter/adapter.go,
--                           the UDP probe of internal/adapter/relayconn.go
--   Adapter/GpgnetServer    internal/adapter/gpgnetserver.go, internal/protocol/gpgnet_messages.go
--   Adapter/IceRestart      iceRestartCallback of internal/adapter/rpchandler.go
--   Adapter/RpcHandler      the other methods of internal/adapter/rpchandler.go
--   Adapter/IceTraffic      the loops of internal/adapter/icepeer.go that forward and measure
--   Adapter/IceSignal       HandleIceMsg of internal/adapter/icepeer.go
--   Adapter/IceCandidate    the conversions of candidates at the end of internal/adapter/icepeer.go
--   Adapter/IceExchange     run of internal/adapter/icepeer.go up to the call that connects
--   Adapter/IceLifecycle    connection states, restarts and getters of internal/adapter/icepeer.go
--   Adapter/RpcServer       internal/adapter/rpcserver.go
--   Adapter/Notifications   the notifications of internal/adapter/adapter.go
--   EndToEnd                a packet's way from an adapter through the relay server to another adapter
--   Registration            the HTTP calls of an adapter, served by the relay server's handlers
--   Examples                concrete runs
--   Prelude                 names of the libraries, lists, maps, integers
--
-- State is passed explicitly: a method is a function from the old state and its arguments to the new
-- state and its results, in the order in which the code writes. Methods that hold a mutex for all of
-- their body are single steps; histories are sequences of such steps. A *Session is an index into a
-- heap, so that a pointer to a session that has been deleted still works, as in the program. A Go map is
-- an association list, in whatever order it is iterated over. Times are arguments, in nanoseconds except
-- for the milliseconds of Adapter/IceTraffic.
-- uint32 and uint64 counters wrap. Loops are recursions on the list that they run over, so no fuel is
-- needed, but for the TCP stream of Adapter/RelayConnection/Stream, whose loop has one round more than
-- the stream has bytes, which is enough since a frame takes two bytes at least; the loops of Run and
-- handleConn run over the packets, or over the times at which frames are handled; the dials of a
-- reconnection are a list too. Streams are lists of the bytes that are read or were written.
--
-- What the system answers (a socket, a dial, the ICE library's agent, json.Unmarshal on a value) is an
-- argument of the definitions that use it.
--
-- Not modelled: logging, deadlines, goroutine start-up and shutdown, the sockets themselves (whether a
-- write succeeds is a parameter), net/http and its choice of a handler, JSON, the texts of HTTP
-- responses, the ICE library and the gathering of its candidates, the rest of the adapter's Run, the
-- programs of cmd, and the start-up of the server in internal/relay/server.go.
mod Prelude
pub mod Outcome
pub mod Protocol
pub mod Relay
pub mod Adapter
pub mod EndToEnd
pub mod Registration
pub mod Examples
