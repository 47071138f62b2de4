-- ===== src/Lib.antt =====
-- The model of the consensus node: the parts of its data path that decide what is trusted.
--
-- A request reaches a node as a client's message on a stream of the control tunnel. It carries a
-- routing ticket that the orchestrator has signed; the node verifies the ticket, binds it to the
-- request by the dedupe key, spends its id, checks the target's address and only then fetches it.
-- Everything on the tunnel travels in frames that are sealed under the keys of a session.
--
-- Tunnel: src/tunnel/frames.ts (Tunnel/Frames: encodeFrame, decodeFrame, frameAad and
--   peekFrameSequence; a Buffer is a list of bytes, and a thrown RangeError is an error value).
--   Tunnel/Messages: src/tunnel/messages.ts (every message type as a record with its JSON object, and
--   decodeMessage). Tunnel/Client: src/tunnel/tunnel-client.ts (send, request, handleRawMessage,
--   close and handleClose; what is sent and settled is a list of events).
--   Tunnel/DataHandshake: src/tunnel/data-handshake.ts (createDataInit, acceptDataInit and
--   deriveClientDataSession). Tunnel/Canonical: src/crypto/canonical-json.ts. Tunnel/ResponderAuth:
--   src/tunnel/responder-auth.ts. Tunnel/Handshake: src/tunnel/handshake.ts (Read: what a message is to
--   its reader, Accepted and Agreed: the two ends). All three use the tests of Tunnel/Checks.
--   Tunnel/DataPlane: src/tunnel/data-plane.ts (Resolve: resolveProxyResponse, with the replay cache
--   going in and coming out; Asked: the client's side; Connection: serveDataConnection and
--   runDataRequest as a whole, over the payloads that a transport gives).
-- Clients: src/clients/data-plane-stream.ts (Stream: recv, push, fail and the end of the session) and
--   src/clients/control-client.ts (Control: a function per message, socket, timer and outcome, each
--   from the state of startControlClient to the state and the list of what it sends or starts;
--   Dispatch puts them together, and a run is a list of events).
-- Node: src/node/secret-store.ts (SecretStore: the adapters, getOrCreateDataKey, the sealing and the
--   files; Key and Kept: what becomes of the data key, Files and Failures: what becomes of a
--   secret). A state holds the disk, what the environment gives and the cached key. Identity:
--   loadOrCreateIdentity of src/crypto/identity.ts, over the same disk.
-- Releases: src/update.ts (Update: compareManifests and downloadAndVerify).
-- Crypto: src/crypto/secure-channel.ts (Crypto/Channel: sealFrame, openFrame, deriveSecureSession),
--   over records of the operations of the crypto libraries with their laws (Crypto/Primitives).
-- Tickets: src/tickets/paseto.ts (Paseto), src/tickets/ticket.ts (Ticket), src/tickets/replay.ts
--   (Replay: a Map in insertion order), src/tickets/request-ticket.ts and src/tickets/verifier.ts
--   (Request: the replay cache goes in and comes out).
-- Runtime: src/runtime/dedupe.ts (Dedupe), src/runtime/ssrf.ts (Ssrf: DNS_CACHE goes in and comes
--   out, the resolver's answer is an argument), src/runtime/profile-v1.ts (Profile),
--   src/runtime/proxy-serve.ts (Serve: forwarded headers and the cache), over the URL parser as a
--   record (Url).
-- Base: strings as code units with their UTF-8 bytes, integers, bytes in both orders, slices, JSON
--   values with a codec as a parameter, JavaScript's Map, splitting, case, sorting and decimals.
-- Tests: the toy instances of the parameters, and every result applied to a concrete input.
--
-- Numbers: sequence numbers, times and JSON numbers are integers, everything else is a natural
-- number; where the code writes a value into w bits, the write fails outside of them. Time is an
-- argument. Loops are recursions on the list that the code walks, and the digits of a number n are
-- computed on n + 1 rounds of fuel, which is enough as n has at most n + 1 digits.
--
-- Not modelled: sockets, processes, the log, prompts and pages, the set-up, the registration, the
-- supervisor, benchmarks, and what the crypto libraries, the URL parser, the file system and JSON do
-- inside. The disk of the secret store is a map from paths to contents. toLowerCase and
-- toUpperCase are those of ASCII. Number of a text reads decimal digits only: what Number reads beside
-- them (signs, fractions, exponents, radix prefixes) is refused. A payload of the data plane whose
-- unchecked fields have another type than the declared one is an error. Paths are joined as they stand.
-- An object lists its keys in the order of the list, and after a sort as JavaScript does: array indices
-- first.
pub mod Base
pub mod Tunnel
pub mod Crypto
pub mod Runtime
pub mod Tickets
pub mod Clients
pub mod Node
pub mod Releases
pub mod Tests
