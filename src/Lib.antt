-- ===== src/Lib.antt =====
-- A model of parts of p2p-netcat, a netcat over libp2p and WebRTC written in Go, and the theorems
-- about it.
--
-- The program connects a client to a listener behind NATs, over libp2p or over a WebRTC data channel,
-- and runs a session on the stream: a forwarded TCP or UDP port, a SOCKS proxy, a terminal or a
-- command. A daemon runs many such tunnels from one configuration.
--
-- - Common: tests on numbers, lists over the native numbers, Go's (value, error) results. Its modules:
--   BigEndian (encoding/binary), Io (io.ReadFull, io.Reader.ReadByte and writers that take a part of
--   what they are given or fail, with the write loops of protocol/datagram and protocol/pty), Text and
--   Decimal (strings as bytes, strconv), Integers (Go's int where it can be negative), Times
--   (time.Unix, Before and After, in nanoseconds since the year 1, with seconds that wrap around in 64
--   bits), Net (strings.TrimSpace and net.SplitHostPort), Maps (Go's maps from strings), Sorted (sorting), Crypto
--   (the operations of libp2p's keys and SHA-256 as a record, and the laws that the program relies on
--   as another).
-- - Datagram: protocol/datagram/frames.go. Pty: protocol/pty/frames.go. A reader is the bytes that are
--   still to come; a writer is what it holds and how it answers its next calls.
-- - WebRtc.Wire: nativewebrtc/wire.go. encode_frame, decode_frame and the authentication responses keep
--   their names; auth_payload_v2 is AuthPayloadV2, verify_auth_response_v2 VerifyAuthResponseV2, and
--   so on.
-- - WebRtc.Stream: nativewebrtc/stream.go. The record Stream has the fields of the source without its
--   mutexes, and the frames that were sent or that goroutines were started to send. Each method is a
--   function of the state; Stream.Steps has them as one relation, so a run is any interleaving of
--   calls. A Read or Write that waits on a condition variable answers that it blocks.
-- - WebRtc.Link and WebRtc.Listener: nativewebrtc/endpoint.go. Link is peerLink; Listener keeps the
--   streams of the remote peers over their connections, which are numbers. activate, close, watch_over
--   (the end of watch), grace_over (its timer) and stream_closed (the stream's callback) are the
--   critical sections of the source; Listener.Reach has them as one relation, with the frames that
--   arrive and the application's calls of a stream. Listener.Handshakes is beginHandshake and
--   endHandshake. A closed connection is recorded, and so is each goroutine that forwards frames.
-- - WebRtc.Signaling: nativewebrtc/signaling.go, prepareOutgoing and openIncoming with their tests. JSON,
--   base64 and the seal of the pairing token are a record of operations, with laws; a refusal of
--   openIncoming, which is a Boolean there, is an error.
-- - Socks: the SOCKS server of session/forwarding.go. A domain name is any bytes; the timer of the
--   handshake and the dialing are an environment.
-- - TunnelConfig: internal/tunnelconfig/config.go. validate is Config.Validate and validate_tunnel
--   Tunnel.validate; the texts of a type, a mode or a protocol are those that the source names, or any
--   other. yaml.Unmarshal is not modelled.
-- - Daemon: internal/daemon/daemon.go, server.go and client.go, with internal/listenerlock/lock.go.
--   The record Daemon has the configuration and the handles of the source, and the locks, protocol
--   handlers and local listeners that handles refer to; run, reload, close, start and stop are its
--   functions. A map is a list of entries, and the order of a loop over it an argument. The file
--   system and the network answer as an environment. TunnelConfig gives it validate.
-- - Pairing: the token of protocol/pairing/pairing.go, its Validate and DeriveKey; HKDF, HMAC and
--   PeerIds are a record of operations. Admission: protocol/admission/admission.go, over Pairing. Go's
--   fixed-size arrays are byte strings there, with their lengths as hypotheses.
-- - RouteRecord: protocol/routerecord/routerecord.go. normalize, encode_payload and decode_payload keep
--   their names; sign and verify are in RouteRecord.Envelope. The CBOR codec, multiaddrs and PeerIds
--   are records of operations, with laws. A map is its list of entries in ascending order of the keys.
--   sort.Slice and sort.Strings are an insertion sort (Common.Sorted), which on distinct elements is
--   any sort.
-- - Udp: session/udp.go, the associations of StartLocalUDPForward: packet_read is a turn of its loop,
--   take_packet a turn of the goroutine that writes to the stream, association_over its end.
-- - Cli: internal/cli/root.go, validateOptions, the choice of the pairing token, the mode that
--   runServerSession runs, and booleanShortOptionRequested. Cli.Acceptor is the acceptance of streams in
--   runListener, where the answers of AuthenticateServer are events.
--
-- Bounds and fuel. A wire integer is encoded with its width and wraps there. The write loops run on as
-- much fuel as there are bytes to write, since each turn of the loop writes at least one or ends.
-- Decimals are printed with twenty digits of fuel, enough for 64 bits. Lengths of byte strings are
-- taken to be below 2^63.
--
-- Not modelled: the goroutines that copy bytes, sockets, terminals and processes; libp2p, Pion, CBOR,
-- JSON and YAML; the JavaScript packages, which are a second implementation; the dialing of a WebRTC
-- client, the websockets of signaling, the libp2p node, the relay, token files, and the glue of the
-- command line.
pub mod Common
pub mod Datagram
pub mod Pty
pub mod WebRtc
pub mod RouteRecord
pub mod Socks
pub mod TunnelConfig
pub mod Daemon
pub mod Cli
pub mod Udp
pub mod Pairing
pub mod Admission
