-- ===== src/Tunnel/Messages.antt =====
-- src/tunnel/messages.ts: the messages inside a tunnel's data frames. `Date.now` is an argument.
pub mod Kinds
pub mod Written
use consensus_node.Base.{
  ℕ, Text, codes, text_eq, Bool, true, false, List, [], ◌∷◌, Option, none, some, ◌==◌, includes,
  Result, ok, err, ◌>>=◌, ◌>>◌, guard, or_throw, if◌then◌else◌,
}
use consensus_node.Base.Int.{ℤ}
use consensus_node.Base.Json.{
  Json, null, bool, num, str, arr, obj, Fields, end, field, JsonCodec, property, as_text, as_number,
  lookup,
}

-- Object.values(MESSAGE_TYPE)
abbrev pub message_types : List Text
message_types =
    codes "hello"
    ∷ codes "ready"
    ∷ codes "ping"
    ∷ codes "pong"
    ∷ codes "http_request"
    ∷ codes "http_response"
    ∷ codes "eval_request"
    ∷ codes "eval_response"
    ∷ codes "join_ready"
    ∷ codes "heartbeat"
    ∷ codes "proxy_request"
    ∷ codes "proxy_response"
    ∷ codes "stream_open"
    ∷ codes "stream_data"
    ∷ codes "stream_close"
    ∷ codes "update_prepare"
    ∷ codes "update_ready"
    ∷ codes "update_apply"
    ∷ codes "update_failed"
    ∷ codes "ack"
    ∷ codes "error"
    ∷ []

pub data MessageError : Type 0 where
  not_json not_an_object type_required timestamp_required : MessageError
  unknown_type : Text → MessageError

-- `!value || typeof value !== "object"`: an array is an object, with no member of a name.
abbrev pub members : Json → Result MessageError Fields
members (obj fs) = ok fs
members (arr xs) = ok end
members _ = err not_an_object

unfoldable pub assert_tunnel_message : Json → Result MessageError (Unit {0})
assert_tunnel_message value = do
  message ← members value
  type ← or_throw (as_text (lookup (codes "type") message)) type_required
  guard (includes type message_types) (unknown_type type)
  timestamp ← or_throw (as_number (lookup (codes "timestamp") message)) timestamp_required
  ok tt

module _ (json : JsonCodec) where
  abbrev pub encode_message : Json → List ℕ
  encode_message message = json.stringify message

  unfoldable pub decode_message : List ℕ → Result MessageError Json
  decode_message payload = do
    parsed ← or_throw (json.parse payload) not_json
    assert_tunnel_message parsed
    ok parsed

-- A member that is undefined is not written.
abbrev pub opt : Text → Option Json → Fields → Fields
opt k none fs = fs
opt k (some v) fs = field k v fs

abbrev pub opt_text : Text → Option Text → Fields → Fields
opt_text k none fs = fs
opt_text k (some s) fs = field k (str s) fs

-- createErrorMessage at the second `now`
unfoldable pub create_error_message : ℤ → Option Text → Text → Text → Json
create_error_message now reply_to code message = obj (
    field (codes "type") (str (codes "error")) (
      field (codes "timestamp") (num now) (
        opt_text (codes "reply_to") reply_to
          (field (codes "code") (str code) (field (codes "message") (str message) end)))))
