-- ===== src/Tunnel/DataPlane/Asked.antt =====
-- The client's side of src/tunnel/data-plane.ts, once the session is there: the sealed request, and
-- the response that is read.
use consensus_node.Base.{
  ℕ, Text, codes, List, Option, ◌==◌, nat_eq, Result, ◌>>=◌, ◌>>◌, guard, map_err, or_throw,
}
use mathlib.Core.Option
use consensus_node.Base.Int.{pos}
use consensus_node.Base.Json.{Json, str, obj, end, field, JsonCodec}
use consensus_node.Crypto.Primitives.{Aead}
use consensus_node.Crypto.Channel.{ChannelError, SecureSession, seal_frame, open_frame}
use consensus_node.Runtime.Dedupe.{Headers}
use consensus_node.Tunnel.FrameType
use consensus_node.Tunnel.Messages.{opt, opt_text}
use consensus_node.Tunnel.DataPlane.{
  PlaneError, channel_error, unexpected_frame_type, syntax_error, header_fields,
}

-- The request of `runDataRequest`, its body as bytes
pub record DataRequest : Type 0 where
  pub target_url : Text
  pub method : Option Text
  pub headers : Option Headers
  pub body : Option (List ℕ)
  pub profile : Option Json

module _ (to_base64 : List ℕ → Text) where
  unfoldable pub request_json : Text → DataRequest → Json
  request_json token r = obj (
      field (codes "type") (str (codes "proxy_request")) (
        field (codes "token") (str token) (
          field (codes "target_url") (str r.target_url) (
            opt_text (codes "method") r.method (
              opt (codes "headers") (Option.map (λ hs. obj (header_fields hs)) r.headers) (
                opt_text (codes "body") (Option.map to_base64 r.body) (
                  opt_text (codes "body_encoding") (Option.map (λ b. codes "base64") r.body)
                    (opt (codes "profile") r.profile end))))))))

  module _ (aead : Aead) (json : JsonCodec) where
    -- The frame with number 0, at the random `nonce`
    unfoldable pub asked_frame :
        SecureSession → Text → DataRequest → List ℕ → Result ChannelError (List ℕ)
    asked_frame session token r nonce =
        seal_frame aead session.send_key FrameType.data_frame (pos 0)
          (json.stringify (request_json token r)) nonce

module _ (aead : Aead) (json : JsonCodec) where
  unfoldable pub received_response : SecureSession → List ℕ → Result PlaneError Json
  received_response session raw = do
    opened ← map_err channel_error (open_frame aead session.receive_key raw)
    guard (opened.frame.type == FrameType.data_frame) unexpected_frame_type
    or_throw (json.parse opened.plaintext) syntax_error
