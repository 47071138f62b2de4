-- ===== src/Tunnel/DataPlane/Connection/Answered.antt =====
-- The two sides of a connection of src/tunnel/data-plane.ts together.
use consensus_node.Base.{ℕ, Text, List, [], ◌∷◌, Option, none, ok, ◌≡◌, refl, ◌≤◌, length, nat_eq}
use consensus_node.Base.Int.{pos}
use consensus_node.Base.Json.{Json, obj, JsonCodec, IsPlain}
use consensus_node.Crypto.Primitives.{Aead, Kdf, Signatures, Base64, Base64Url}
use consensus_node.Crypto.Channel.{SecureSession, client}
use consensus_node.Crypto.Channel.Session.{opposite, derive_secure_session_keys}
use consensus_node.Crypto.Channel.Sealing.{open-seal_frame}
use consensus_node.Runtime.Url.{Url, UrlApi}
use consensus_node.Tickets.Replay.{JtiReplayCache}
use consensus_node.Tunnel.FrameType
use consensus_node.Tunnel.Frames.{max_u32}
use consensus_node.Tunnel.DataHandshake.{
  ClientDataHandshake, NodeDataHandshake, accept_data_init, derive_client_data_session,
}
use consensus_node.Tunnel.DataHandshake.Bound.{derive_client_data_session-IsBound}
use consensus_node.Tunnel.DataPlane.{
  PlaneError, ProxyResponsePayload, response_fields, DataPlaneServeDeps,
}
use consensus_node.Tunnel.DataPlane.Asked.{asked_frame, received_response}
use consensus_node.Tunnel.DataPlane.Resolve.{resolve_proxy_response, answer_frame}
use consensus_node.Tunnel.DataPlane.Connection.{
  NodeDraws, ClientAsks, asking, init_payload, serve_data_connection, run_data_request,
}

module _ (base64 : Base64) (kdf : Kdf) (signatures : Signatures) (aead : Aead) (json : JsonCodec)
    (base64url : Base64Url) (sha256 : List ℕ → List ℕ) (urls : UrlApi)
    (parse_local : Text → Option Url) (deps : DataPlaneServeDeps) (message : PlaneError → Text)
    (identity_key : ℕ) (draws : NodeDraws) (asks : ClientAsks) where
  abbrev asked : ClientDataHandshake
  asked = asking base64 kdf signatures aead json asks

  abbrev init : List ℕ
  init = init_payload base64 kdf signatures aead json asks

  pub session_keys :
      (accept : Json) (session : SecureSession)
      → derive_client_data_session base64 kdf json signatures asked accept asks.node_id
          asks.node_key none asks.clock
        ≡ ok session
      → (length session.send_key ≡ 32) × (length session.receive_key ≡ 32)
  session_keys accept session h =
      let own =
        derive_client_data_session-IsBound base64 kdf json signatures asked accept asks.node_id
          asks.node_key none asks.clock session h in
      derive_secure_session_keys kdf client asked.private_key own.peer asked.client_nonce
        own.server_nonce _ session own.derived

  answer_opened :
      (session : SecureSession) (r : ProxyResponsePayload) (frame : List ℕ)
      (replay after : Option JtiReplayCache)
      → let answer = obj (response_fields base64.encode message r) in
        length session.send_key ≡ 32
        → length draws.frame_nonce ≡ 12
        → length (json.stringify answer) ≤ max_u32
        → IsPlain answer
        → resolve_proxy_response base64.decode aead signatures base64url json sha256 urls
            parse_local deps draws.clock session frame replay
          ≡ (ok r, after)
        → (out : List ℕ) × (answer_frame base64.decode aead signatures base64url json sha256 urls
              parse_local base64.encode deps message draws.clock draws.frame_nonce session frame
              replay
            ≡ (ok out, after))
          × (received_response aead json (opposite session) out ≡ ok answer)
  unfolding answer_frame received_response
  answer_opened session r frame replay after keyed drawn short plain resolved =
      let answer = obj (response_fields base64.encode message r) in
      let (out, parts, sealed, opened, typed, s, n) =
        open-seal_frame aead session.send_key FrameType.data_frame (pos 0) (json.stringify answer)
          draws.frame_nonce
          (record {
            key_size = keyed;
            nonce_size = drawn;
            valid = refl;
            u64 = refl;
            u32 = short;
          }) in
      (out, rw (resolved, sealed) refl, rw (opened, typed, json.parse-stringify answer plain) refl)

  -- A connection does its work: when the two sides have agreed on a session, the node serves the
  -- client's request and closes with 1000, and the client gets exactly what the node's resolution of its
  -- request says. Each side receives what the other one sends. The messages survive JSON, the response
  -- has less than 2^32 bytes, and the drawn frame nonce has twelve.
  pub run-serve_data_connection :
      (theirs : NodeDataHandshake) (frame : List ℕ) (r : ProxyResponsePayload)
      (replay after : Option JtiReplayCache)
      → let answer = obj (response_fields base64.encode message r) in
        accept_data_init base64 kdf json signatures asked.message identity_key deps.node_id
            draws.accepted_at draws.private_key draws.node_nonce
          ≡ ok theirs
        → derive_client_data_session base64 kdf json signatures asked theirs.message asks.node_id
            asks.node_key none asks.clock
          ≡ ok (opposite theirs.session)
        → asked_frame base64.encode aead json
            (opposite theirs.session)
            asks.token
            asks.request
            asks.frame_nonce
          ≡ ok frame
        → resolve_proxy_response base64.decode aead signatures base64url json sha256 urls
            parse_local deps draws.clock theirs.session frame replay
          ≡ (ok r, after)
        → IsPlain asked.message
        → IsPlain theirs.message
        → IsPlain answer
        → length (json.stringify answer) ≤ max_u32
        → length draws.frame_nonce ≡ 12
        → (accept : List ℕ) × (out : List ℕ) × (serve_data_connection base64 kdf signatures aead
              json base64url sha256 urls parse_local deps message identity_key draws
              (init ∷ frame ∷ [])
              replay
            ≡ (record { sent = accept ∷ out ∷ []; outcome = ok 1000 }, after))
          × (run_data_request base64 kdf signatures aead json asks (accept ∷ out ∷ [])
              ≡ record { sent = init ∷ frame ∷ []; outcome = ok answer })
  unfolding serve_data_connection run_data_request
  run-serve_data_connection theirs frame r replay after accepts derives asks_for resolved plain
        plain' plain_answer short drawn =
      let (out, sent, read) =
        answer_opened theirs.session r frame replay after
          (session_keys theirs.message (opposite theirs.session) derives).1 drawn short plain_answer
          resolved in
      (
        json.stringify theirs.message,
        out,
        rw (json.parse-stringify asked.message plain, accepts, sent) refl,
        rw (json.parse-stringify theirs.message plain', derives, asks_for, read) refl,
      )
