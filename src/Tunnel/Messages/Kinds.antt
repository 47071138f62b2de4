-- ===== src/Tunnel/Messages/Kinds.antt =====
-- The interfaces of src/tunnel/messages.ts, and the JSON object of each: `type`, `timestamp` and `id`
-- first. What a message carries as an unknown value is JSON here.
use consensus_node.Base.{Text, codes, Option, Bool}
use consensus_node.Base.Int.{ℤ}
use consensus_node.Base.Json.{Json, bool, num, str, obj, Fields, end, field}
use consensus_node.Tunnel.Messages.{opt, opt_text}

pub data TunnelMode : Type 0 where
  eval control : TunnelMode

abbrev pub mode_text : TunnelMode → Text
mode_text eval = codes "eval"
mode_text control = codes "control"

pub record HelloMessage : Type 0 where
  pub mode : TunnelMode
  pub node_id : Option Text
  pub candidate_id : Option Text
  pub public_key_pem : Option Text
  pub version : Option Text

pub record ReadyMessage : Type 0 where
  pub session_id : Text
  pub mode : TunnelMode

pub record HttpRequestMessage : Type 0 where
  pub method : Text
  pub path : Text
  pub headers : Option Json
  pub body : Option Text
  pub body_encoding : Option Text

pub record HttpResponseMessage : Type 0 where
  pub reply_to : Text
  pub status : ℤ
  pub headers : Option Json
  pub body : Option Text
  pub body_encoding : Option Text

pub record EvalRequestMessage : Type 0 where
  pub action : Text
  pub params : Option Json

pub record EvalResponseMessage : Type 0 where
  pub reply_to : Text
  pub action : Text
  pub succeeded : Bool
  pub result : Option Json
  pub error : Option Text

pub record JoinReadyMessage : Type 0 where
  pub join_id : Text
  pub alg : Text
  pub nonce : Text
  pub expires_at : ℤ

pub record HeartbeatMessage : Type 0 where
  pub node_id : Text
  pub uptime_seconds : ℤ
  pub capabilities : Json
  pub active_requests : Option Json
  pub active_streams : Option Json

pub record ProxyRequestMessage : Type 0 where
  pub target_url : Text
  pub method : Text
  pub headers : Option Json
  pub body : Option Text
  pub body_encoding : Option Text
  pub profile : Option Json

pub record ProxyResponseMessage : Type 0 where
  pub reply_to : Text
  pub status : ℤ
  pub status_text : Option Text
  pub headers : Option Json
  pub body : Option Text
  pub body_encoding : Option Text
  pub cached : Option Json
  pub profile_hash : Option Text

pub record StreamOpenMessage : Type 0 where
  pub stream_id : Text
  pub target : Option Text

pub record StreamDataMessage : Type 0 where
  pub stream_id : Text
  pub data_text : Text
  pub encoding : Text

pub record StreamCloseMessage : Type 0 where
  pub stream_id : Text
  pub reason : Option Text

pub record UpdatePrepareMessage : Type 0 where
  pub update_id : Text
  pub manifest : Json

pub record UpdateReadyMessage : Type 0 where
  pub reply_to : Text
  pub update_id : Text
  pub artifact_path : Text
  pub sha256 : Text
  pub current_version : Text
  pub target_version : Text

pub record UpdateApplyMessage : Type 0 where
  pub update_id : Text
  pub restart_after_ms : Option Json

pub record UpdateFailedMessage : Type 0 where
  pub reply_to : Option Text
  pub update_id : Text
  pub code : Text
  pub message : Text

pub record ErrorMessage : Type 0 where
  pub reply_to : Option Text
  pub code : Text
  pub message : Text

pub data Payload : Type 0 where
  hello : HelloMessage → Payload
  ready : ReadyMessage → Payload
  ping : Payload
  pong : Option Text → Payload
  http_request : HttpRequestMessage → Payload
  http_response : HttpResponseMessage → Payload
  eval_request : EvalRequestMessage → Payload
  eval_response : EvalResponseMessage → Payload
  join_ready : JoinReadyMessage → Payload
  heartbeat : HeartbeatMessage → Payload
  proxy_request : ProxyRequestMessage → Payload
  proxy_response : ProxyResponseMessage → Payload
  stream_open : StreamOpenMessage → Payload
  stream_data : StreamDataMessage → Payload
  stream_close : StreamCloseMessage → Payload
  update_prepare : UpdatePrepareMessage → Payload
  update_ready : UpdateReadyMessage → Payload
  update_apply : UpdateApplyMessage → Payload
  update_failed : UpdateFailedMessage → Payload
  ack : Text → Payload
  error : ErrorMessage → Payload

-- BaseMessage with the members of its type
pub record TunnelMessage : Type 0 where
  pub id : Option Text
  pub timestamp : ℤ
  pub payload : Payload

unfoldable pub type_text : Payload → Text
type_text (hello _) = codes "hello"
type_text (ready _) = codes "ready"
type_text ping = codes "ping"
type_text (pong _) = codes "pong"
type_text (http_request _) = codes "http_request"
type_text (http_response _) = codes "http_response"
type_text (eval_request _) = codes "eval_request"
type_text (eval_response _) = codes "eval_response"
type_text (join_ready _) = codes "join_ready"
type_text (heartbeat _) = codes "heartbeat"
type_text (proxy_request _) = codes "proxy_request"
type_text (proxy_response _) = codes "proxy_response"
type_text (stream_open _) = codes "stream_open"
type_text (stream_data _) = codes "stream_data"
type_text (stream_close _) = codes "stream_close"
type_text (update_prepare _) = codes "update_prepare"
type_text (update_ready _) = codes "update_ready"
type_text (update_apply _) = codes "update_apply"
type_text (update_failed _) = codes "update_failed"
type_text (ack _) = codes "ack"
type_text (error _) = codes "error"

abbrev text_field : Text → Text → Fields → Fields
text_field k s fs = field k (str s) fs

unfoldable pub payload_fields : Payload → Fields
payload_fields (hello m) = text_field (codes "mode") (mode_text m.mode) (
    opt_text (codes "node_id") m.node_id (
      opt_text (codes "candidate_id") m.candidate_id (
        opt_text (codes "public_key_pem") m.public_key_pem
          (opt_text (codes "version") m.version end))))
payload_fields (ready m) =
    text_field (codes "session_id") m.session_id (text_field (codes "mode") (mode_text m.mode) end)
payload_fields ping = end
payload_fields (pong reply_to) = opt_text (codes "reply_to") reply_to end
payload_fields (http_request m) = text_field (codes "method") m.method (
    text_field (codes "path") m.path (
      opt (codes "headers") m.headers
        (opt_text (codes "body") m.body (opt_text (codes "body_encoding") m.body_encoding end))))
payload_fields (http_response m) = text_field (codes "reply_to") m.reply_to (
    field (codes "status") (num m.status) (
      opt (codes "headers") m.headers
        (opt_text (codes "body") m.body (opt_text (codes "body_encoding") m.body_encoding end))))
payload_fields (eval_request m) =
    text_field (codes "action") m.action (opt (codes "params") m.params end)
payload_fields (eval_response m) = text_field (codes "reply_to") m.reply_to (
    text_field (codes "action") m.action (
      field (codes "ok") (bool m.succeeded)
        (opt (codes "result") m.result (opt_text (codes "error") m.error end))))
payload_fields (join_ready m) = text_field (codes "join_id") m.join_id (
    text_field (codes "alg") m.alg
      (text_field (codes "nonce") m.nonce (field (codes "expires_at") (num m.expires_at) end)))
payload_fields (heartbeat m) = text_field (codes "node_id") m.node_id (
    field (codes "uptime_seconds") (num m.uptime_seconds) (
      field (codes "capabilities") m.capabilities (
        opt (codes "active_requests") m.active_requests
          (opt (codes "active_streams") m.active_streams end))))
payload_fields (proxy_request m) = text_field (codes "target_url") m.target_url (
    text_field (codes "method") m.method (
      opt (codes "headers") m.headers (
        opt_text (codes "body") m.body (
          opt_text (codes "body_encoding") m.body_encoding (opt (codes "profile") m.profile end)))))
payload_fields (proxy_response m) = text_field (codes "reply_to") m.reply_to (
    field (codes "status") (num m.status) (
      opt_text (codes "status_text") m.status_text (
        opt (codes "headers") m.headers (
          opt_text (codes "body") m.body (
            opt_text (codes "body_encoding") m.body_encoding (
              opt (codes "cached") m.cached
                (opt_text (codes "profile_hash") m.profile_hash end)))))))
payload_fields (stream_open m) =
    text_field (codes "stream_id") m.stream_id (opt_text (codes "target") m.target end)
payload_fields (stream_data m) =
    text_field (codes "stream_id") m.stream_id
      (text_field (codes "data") m.data_text (text_field (codes "encoding") m.encoding end))
payload_fields (stream_close m) =
    text_field (codes "stream_id") m.stream_id (opt_text (codes "reason") m.reason end)
payload_fields (update_prepare m) =
    text_field (codes "update_id") m.update_id (field (codes "manifest") m.manifest end)
payload_fields (update_ready m) = text_field (codes "reply_to") m.reply_to (
    text_field (codes "update_id") m.update_id (
      text_field (codes "artifact_path") m.artifact_path (
        text_field (codes "sha256") m.sha256 (
          text_field (codes "current_version") m.current_version
            (text_field (codes "target_version") m.target_version end)))))
payload_fields (update_apply m) =
    text_field (codes "update_id") m.update_id
      (opt (codes "restart_after_ms") m.restart_after_ms end)
payload_fields (update_failed m) = opt_text (codes "reply_to") m.reply_to (
    text_field (codes "update_id") m.update_id
      (text_field (codes "code") m.code (text_field (codes "message") m.message end)))
payload_fields (ack reply_to) = text_field (codes "reply_to") reply_to end
payload_fields (error m) =
    opt_text (codes "reply_to") m.reply_to
      (text_field (codes "code") m.code (text_field (codes "message") m.message end))

unfoldable pub message_json : TunnelMessage → Json
message_json m = obj (
    field (codes "type") (str (type_text m.payload)) (
      field (codes "timestamp") (num m.timestamp)
        (opt_text (codes "id") m.id (payload_fields m.payload))))
