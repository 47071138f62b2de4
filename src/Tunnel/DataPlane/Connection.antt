-- ===== src/Tunnel/DataPlane/Connection.antt =====
-- serveDataConnection and runDataRequest of src/tunnel/data-plane.ts: each side of a connection, from
-- the payloads that it receives to those that it sends and its outcome. What the code draws on the way
-- is an argument.
pub mod Answered
use consensus_node.Base.{ℕ, Text, List, [], ◌∷◌, Option, Result, ok, err, ◌>>=◌, map_err, or_throw}
use consensus_node.Base.Int.{ℤ}
use consensus_node.Base.Json.{Json, JsonCodec}
use consensus_node.Crypto.Primitives.{Aead, Kdf, Signatures, Base64, Base64Url}
use consensus_node.Crypto.Channel.{ChannelError, SecureSession}
use consensus_node.Runtime.Url.{Url, UrlApi}
use consensus_node.Tickets.Replay.{JtiReplayCache}
use consensus_node.Tunnel.DataHandshake.{
  HandshakeError, ClientDataHandshake, NodeDataHandshake, create_data_init, accept_data_init,
  derive_client_data_session,
}
use consensus_node.Tunnel.DataPlane.{PlaneError, channel_error, DataPlaneServeDeps}
use consensus_node.Tunnel.DataPlane.Asked.{DataRequest, asked_frame, received_response}
use consensus_node.Tunnel.DataPlane.Resolve.{answer_frame}

pub data ConnectionError : Type 0 where
  transport_closed syntax_error : ConnectionError
  handshake_failed : HandshakeError → ConnectionError
  plane_failed : PlaneError → ConnectionError

pub record Conversation (A : Type 0) : Type 0 where
  pub sent : List (List ℕ)
  pub outcome : Result ConnectionError A

-- What a node draws, and the times that it reads: at the handshake, and at the request.
pub record NodeDraws : Type 0 where
  pub accepted_at : ℤ
  pub clock : ℤ
  pub private_key : ℕ
  pub node_nonce : List ℕ
  pub frame_nonce : List ℕ

-- What a client asks for, what it draws, and the times of its two messages.
pub record ClientAsks : Type 0 where
  pub node_id : Text
  pub node_key : ℕ
  pub token : Text
  pub request : DataRequest
  pub asked_at : ℤ
  pub clock : ℤ
  pub private_key : ℕ
  pub client_nonce : List ℕ
  pub frame_nonce : List ℕ

module _ (base64 : Base64) (kdf : Kdf) (signatures : Signatures) (aead : Aead)
    (json : JsonCodec) where
  module _ (base64url : Base64Url) (sha256 : List ℕ → List ℕ) (urls : UrlApi)
      (parse_local : Text → Option Url) (deps : DataPlaneServeDeps) (message : PlaneError → Text)
      (identity_key : ℕ) (draws : NodeDraws) where
    -- The close code at the end
    abbrev pub answered :
        List ℕ
        → Result PlaneError (List ℕ) × Option JtiReplayCache
        → Conversation ℕ × Option JtiReplayCache
    answered accept (ok frame, after) =
        (record { sent = accept ∷ frame ∷ []; outcome = ok 1000 }, after)
    answered accept (err e, after) =
        (record { sent = accept ∷ []; outcome = err (plane_failed e) }, after)

    abbrev pub serve_request :
        List (List ℕ)
        → Result ConnectionError NodeDataHandshake
        → Option JtiReplayCache
        → Conversation ℕ × Option JtiReplayCache
    serve_request rest (err e) replay = (record { sent = []; outcome = err e }, replay)
    serve_request [] (ok ours) replay =
        (record { sent = json.stringify ours.message ∷ []; outcome = err transport_closed }, replay)
    serve_request (frame ∷ rest) (ok ours) replay = answered (json.stringify ours.message) (
        answer_frame base64.decode aead signatures base64url json sha256 urls parse_local
          base64.encode deps message draws.clock draws.frame_nonce ours.session frame replay)

    abbrev pub accepted_init : List ℕ → Result ConnectionError NodeDataHandshake
    accepted_init payload = do
      init ← or_throw (json.parse payload) syntax_error
      map_err handshake_failed (
          accept_data_init base64 kdf json signatures init identity_key deps.node_id
            draws.accepted_at draws.private_key draws.node_nonce)

    unfoldable pub serve_data_connection :
        List (List ℕ) → Option JtiReplayCache → Conversation ℕ × Option JtiReplayCache
    serve_data_connection [] replay = (record { sent = []; outcome = err transport_closed }, replay)
    serve_data_connection (init ∷ rest) replay = serve_request rest (accepted_init init) replay

  module _ (asks : ClientAsks) where
    abbrev pub asking : ClientDataHandshake
    asking =
        create_data_init base64 kdf asks.node_id asks.asked_at asks.private_key asks.client_nonce

    abbrev pub init_payload : List ℕ
    init_payload = json.stringify asking.message

    abbrev pub read_response : List ℕ → SecureSession → List (List ℕ) → Conversation Json
    read_response frame session [] = record {
      sent = init_payload ∷ frame ∷ [];
      outcome = err transport_closed;
    }
    read_response frame session (answer ∷ rest) = record {
      sent = init_payload ∷ frame ∷ [];
      outcome = map_err plane_failed (received_response aead json session answer);
    }

    abbrev pub ask_request :
        SecureSession → Result ChannelError (List ℕ) → List (List ℕ) → Conversation Json
    ask_request session (err e) rest = record {
      sent = init_payload ∷ [];
      outcome = err (plane_failed (channel_error e));
    }
    ask_request session (ok frame) rest = read_response frame session rest

    abbrev pub with_session :
        Result ConnectionError SecureSession → List (List ℕ) → Conversation Json
    with_session (err e) rest = record { sent = init_payload ∷ []; outcome = err e }
    with_session (ok session) rest =
        ask_request session
          (asked_frame base64.encode aead json session asks.token asks.request asks.frame_nonce)
          rest

    abbrev pub session_from : List ℕ → Result ConnectionError SecureSession
    session_from payload = do
      accept ← or_throw (json.parse payload) syntax_error
      map_err handshake_failed (
          derive_client_data_session base64 kdf json signatures asking accept asks.node_id
            asks.node_key Option.none asks.clock)

    unfoldable pub run_data_request : List (List ℕ) → Conversation Json
    run_data_request [] = record { sent = init_payload ∷ []; outcome = err transport_closed }
    run_data_request (accept ∷ rest) = with_session (session_from accept) rest
