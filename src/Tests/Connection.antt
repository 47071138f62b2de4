-- ===== src/Tests/Connection.antt =====
-- A connection of src/tunnel/data-plane.ts with a ticket that is refused.
use consensus_node.Base.{
  ℕ, ◌≡◌, ◌≤◌, length, refl, List, [], ◌∷◌, none, some, ok, codes, Text, text_beq, false, arith,
}
use consensus_node.Base.Int.{pos, ◌+ℤ◌, ◌-ℤ◌}
use consensus_node.Base.Json.{Json, obj, IsPlain, lookup}
use consensus_node.Crypto.Channel.{SecureSession, seal_frame, open_frame}
use consensus_node.Crypto.Channel.Session.{opposite}
use consensus_node.Crypto.Channel.Sealing.{open-seal_frame}
use consensus_node.Base.Splitting.{starts_with}
use consensus_node.Tickets.Paseto.{verify_v4_public, unsupported_header}
use consensus_node.Tickets.Ticket.{verify_ticket, paseto_error}
use consensus_node.Tickets.Request.{verify_request_ticket, commit, check_request, ticket_error}
use consensus_node.Tunnel.FrameType
use consensus_node.Tunnel.ResponderAuth.{default_clock_tolerance_sec, default_max_age_sec}
use consensus_node.Tunnel.ResponderAuth.Proven.{IsFresh}
use consensus_node.Tunnel.DataHandshake.{
  NodeDataHandshake, create_data_init, init_fields, accept_data_init, derive_client_data_session,
}
use consensus_node.Tunnel.DataHandshake.Agreed.{handshake-IsPlain}
use consensus_node.Tunnel.DataPlane.{
  PlaneError, ProxyResponsePayload, ProxyRequestPayload, check_payload, request_error, unauthorized,
  error, response_fields, read_payload, dedupe_params, served_request, decode_body,
}
use consensus_node.Base.Case.{to_upper_case, upper_char}
use consensus_node.Tunnel.Frames.{FrameParts, max_u32}
use consensus_node.Tunnel.DataPlane.Asked.{DataRequest, request_json, asked_frame}
use consensus_node.Tunnel.DataPlane.Resolve.{
  resolve_proxy_response, open_request, answer_payload, verify_and_serve, prepared_of, ticket_call,
}
use consensus_node.Tunnel.DataPlane.Connection.{
  NodeDraws, ClientAsks, asking, serve_data_connection, run_data_request,
}
use consensus_node.Tunnel.DataPlane.Connection.Answered.{session_keys, run-serve_data_connection}
use consensus_node.Tests.Instances.{
  aead, signatures, base64, base64url, kdf, fill, length-fill, derive, cons_not_empty,
}
use consensus_node.Tests.StackJson.{json_codec, write}
use consensus_node.Tests.Requests.{urls, digest}
use consensus_node.Tests.DataPlane.{deps, parse_local}

abbrev message : PlaneError → Text
message e = codes "refused"

abbrev request : DataRequest
request = record {
  target_url = codes "api.test";
  method = none;
  headers = none;
  body = none;
  profile = none;
}

abbrev asks : ClientAsks
asks = record {
  node_id = codes "node-1";
  node_key = 7;
  token = codes "x";
  request = request;
  asked_at = pos 1000;
  clock = pos 1010;
  private_key = 3;
  client_nonce = fill 16 1;
  frame_nonce = fill 12 3;
}

abbrev draws : NodeDraws
draws = record {
  accepted_at = pos 1000;
  clock = pos 1001;
  private_key = 5;
  node_nonce = fill 16 2;
  frame_nonce = fill 12 4;
}

shared : kdf.derive 3 (kdf.public_key 5) ≡ some (15 ∷ [])
unfolding derive
shared = refl

fresh : IsFresh (pos 1000) (pos 1010) default_clock_tolerance_sec default_max_age_sec
unfolding ◌+ℤ◌ ◌-ℤ◌
fresh = record { not_early = omega arith; not_old = omega arith }

long : (x : ℕ) → 16 ≤ length (fill 16 x)
long x = omega (arith, length-fill 16 x)

handshake :
    let ours = asking base64 kdf signatures aead json_codec asks in
    (answer : NodeDataHandshake) × (accept_data_init base64 kdf json_codec signatures ours.message 7
        (codes "node-1")
        (pos 1000)
        5
        (fill 16 2)
      ≡ ok answer)
    × (derive_client_data_session base64 kdf json_codec signatures ours answer.message
          (codes "node-1")
          7
          none
          (pos 1010)
        ≡ ok (opposite answer.session))
    × IsPlain answer.message
handshake =
    handshake-IsPlain kdf base64 json_codec signatures (codes "node-1") 7 3 5 (fill 16 1)
      (fill 16 2) (15 ∷ []) (pos 1000) (cons_not_empty _ _) (long 1) (long 2) shared (pos 1010) none
      fresh (omega arith, omega arith)

abbrev theirs : NodeDataHandshake
theirs = handshake.0

abbrev payload : Json
payload = request_json base64.encode (codes "x") request

payload-IsPlain : IsPlain payload
unfolding request_json lookup text_beq
payload-IsPlain = (refl, tt, (refl, tt, (refl, tt, tt)))

keys : (length theirs.session.receive_key ≡ 32) × (length theirs.session.send_key ≡ 32)
keys =
    session_keys base64 kdf signatures aead json_codec base64url digest urls parse_local deps
      message 7 draws asks theirs.message (opposite theirs.session) handshake.2

short : length (json_codec.stringify payload) ≤ max_u32
unfolding request_json write
short = omega arith

sealed :
    (raw : List ℕ) × (frame : FrameParts) × (seal_frame aead theirs.session.receive_key
        FrameType.data_frame
        (pos 0)
        (json_codec.stringify payload)
        (fill 12 3)
      ≡ ok raw)
    × (open_frame aead theirs.session.receive_key raw
        ≡ ok (record { frame = frame; plaintext = json_codec.stringify payload }))
    × (frame.type ≡ FrameType.data_frame)
    × (frame.sequence ≡ pos 0)
    × (frame.nonce ≡ fill 12 3)
sealed =
    open-seal_frame aead theirs.session.receive_key FrameType.data_frame (pos 0)
      (json_codec.stringify payload) (fill 12 3)
      (record {
        key_size = keys.0;
        nonce_size = length-fill 12 3;
        valid = refl;
        u64 = refl;
        u32 = short;
      })

abbrev request_payload : ProxyRequestPayload
request_payload = record {
  token = codes "x";
  target_url = codes "api.test";
  method = none;
  headers = none;
  body = none;
  is_base64 = false;
  profile = none;
}

was_read : read_payload payload (codes "x", codes "api.test") ≡ ok request_payload
unfolding read_payload request_json lookup text_beq
was_read = refl

refused :
    answer_payload base64.decode aead signatures base64url json_codec digest urls parse_local deps
      (pos 1001)
      request_payload
      none
    ≡ (error unauthorized (request_error (ticket_error (paseto_error unsupported_header))), none)
unfolding answer_payload verify_and_serve prepared_of dedupe_params served_request ticket_call
    to_upper_case upper_char decode_body verify_request_ticket commit check_request verify_ticket
    verify_v4_public starts_with
refused = refl

abbrev answer : ProxyResponsePayload
answer = error unauthorized (request_error (ticket_error (paseto_error unsupported_header)))

was_checked : check_payload payload ≡ ok (codes "x", codes "api.test")
unfolding check_payload request_json lookup text_beq
was_checked = refl

request_opened :
    (session : SecureSession) (raw : List ℕ) (frame : FrameParts)
    → open_frame aead session.receive_key raw
      ≡ ok (record { frame = frame; plaintext = json_codec.stringify payload })
    → frame.type ≡ FrameType.data_frame
    → open_request base64.decode aead signatures base64url json_codec digest urls parse_local
        session raw
      ≡ ok (payload, codes "x", codes "api.test")
unfolding open_request
request_opened session raw frame opened typed =
    rw (opened, typed, json_codec.parse-stringify payload payload-IsPlain, was_checked) refl

request_resolved :
    (session : SecureSession) (raw : List ℕ)
    → open_request base64.decode aead signatures base64url json_codec digest urls parse_local
        session raw
      ≡ ok (payload, codes "x", codes "api.test")
    → resolve_proxy_response base64.decode aead signatures base64url json_codec digest urls
        parse_local deps
        (pos 1001)
        session
        raw
        none
      ≡ (ok answer, none)
unfolding resolve_proxy_response
request_resolved session raw opened = grind (arith, opened, was_read, refused)

resolved :
    resolve_proxy_response base64.decode aead signatures base64url json_codec digest urls
      parse_local deps
      (pos 1001)
      theirs.session
      sealed.0
      none
    ≡ (ok answer, none)
resolved =
    request_resolved theirs.session sealed.0
      (request_opened theirs.session sealed.0 sealed.1 sealed.3 sealed.4)

asked-sealed :
    asked_frame base64.encode aead json_codec
      (opposite theirs.session)
      (codes "x")
      request
      (fill 12 3)
    ≡ ok sealed.0
unfolding asked_frame
asked-sealed = sealed.2

asked-IsPlain : IsPlain (asking base64 kdf signatures aead json_codec asks).message
unfolding create_data_init init_fields lookup text_beq
asked-IsPlain = (
  refl,
  tt,
  (
    refl,
    tt,
    (
      refl,
      (omega arith, omega arith),
      (refl, tt, (refl, tt, (refl, tt, (refl, (omega arith, omega arith), tt)))),
    ),
  ),
)

answer-IsPlain : IsPlain (obj (response_fields base64.encode message answer))
unfolding response_fields lookup text_beq
answer-IsPlain = (refl, tt, (refl, tt, (refl, tt, tt)))

answer_short :
    length (json_codec.stringify (obj (response_fields base64.encode message answer))) ≤ max_u32
unfolding response_fields write
answer_short = omega arith

run-serve_data_connection_example :
    let reply = obj (response_fields base64.encode message answer) in
    let asked = json_codec.stringify (asking base64 kdf signatures aead json_codec asks).message in
    (accept : List ℕ) × (out : List ℕ) × (serve_data_connection base64 kdf signatures aead
        json_codec base64url digest urls parse_local deps message 7 draws
        (asked ∷ sealed.0 ∷ [])
        none
      ≡ (record { sent = accept ∷ out ∷ []; outcome = ok 1000 }, none))
    × (run_data_request base64 kdf signatures aead json_codec asks (accept ∷ out ∷ [])
        ≡ record { sent = asked ∷ sealed.0 ∷ []; outcome = ok reply })
run-serve_data_connection_example =
    run-serve_data_connection base64 kdf signatures aead json_codec base64url digest urls
      parse_local deps message 7 draws asks theirs sealed.0 answer none none handshake.1 handshake.2
      asked-sealed resolved asked-IsPlain handshake.3 answer-IsPlain answer_short (length-fill 12 4)
