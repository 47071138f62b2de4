-- ===== src/Tunnel/Messages/Written.antt =====
-- A message that src/tunnel/messages.ts writes is read back.
use consensus_node.Base.{text_beq, ok, true, includes, ◌≡◌, refl, text_eq}
use consensus_node.Base.Json.{lookup, JsonCodec, IsPlain}
use consensus_node.Tunnel.Messages.{
  message_types, assert_tunnel_message, encode_message, decode_message,
}
use consensus_node.Tunnel.Messages.Kinds.{
  TunnelMessage, Payload, type_text, message_json, hello, ready, ping, pong, http_request,
  http_response, eval_request, eval_response, join_ready, heartbeat, proxy_request, proxy_response,
  stream_open, stream_data, stream_close, update_prepare, update_ready, update_apply, update_failed,
  ack, error,
}

known : (p : Payload) → includes (type_text p) message_types ≡ true
unfolding type_text text_beq
known (hello _) = refl
known (ready _) = refl
known ping = refl
known (pong _) = refl
known (http_request _) = refl
known (http_response _) = refl
known (eval_request _) = refl
known (eval_response _) = refl
known (join_ready _) = refl
known (heartbeat _) = refl
known (proxy_request _) = refl
known (proxy_response _) = refl
known (stream_open _) = refl
known (stream_data _) = refl
known (stream_close _) = refl
known (update_prepare _) = refl
known (update_ready _) = refl
known (update_apply _) = refl
known (update_failed _) = refl
known (ack _) = refl
known (error _) = refl

assert_message_json : (m : TunnelMessage) → assert_tunnel_message (message_json m) ≡ ok tt
unfolding assert_tunnel_message message_json lookup text_beq
assert_message_json m = rw (known m.payload) refl

-- A message of any of the twenty-one types passes the check of its receiver and arrives as the object
-- that was sent, when what it carries is plain JSON.
pub decode-encode_message :
    (json : JsonCodec) (m : TunnelMessage)
    → IsPlain (message_json m)
    → decode_message json (encode_message json (message_json m)) ≡ ok (message_json m)
unfolding decode_message
decode-encode_message json m p =
    rw (json.parse-stringify (message_json m) p, assert_message_json m) refl
