-- ===== src/Tunnel/Client.antt =====
-- src/tunnel/tunnel-client.ts: the state of one end of a tunnel and its handlers. A promise is a
-- number; what the code settles, sends and calls is a list of events. The bytes of a nonce, an id and
-- the clock are arguments.
pub mod Sequence
pub mod Requests
pub mod Delivery
use consensus_node.Base.{
  ℕ, suc, ◌+◌, Text, codes, text_eq, Bool, true, false, not, List, [], ◌∷◌, ◌++◌, Option, none,
  some, ◌==◌, nat_eq, Result, ok, err, map_err, if◌then◌else◌, or_else, map,
}
use consensus_node.Base.Int.{ℤ, pos, negsuc, leb_ℤ}
use consensus_node.Base.Map
use consensus_node.Base.Json.{Json, obj, str, num, Fields, end, field, JsonCodec, lookup, as_text}
use consensus_node.Tunnel.FrameType
use consensus_node.Tunnel.Frames.{FrameParts, FrameError, peek_frame_sequence}
use consensus_node.Tunnel.Messages.{
  MessageError, encode_message, decode_message, create_error_message,
}
use consensus_node.Crypto.Primitives.{Aead}
use consensus_node.Crypto.Channel.{SecureSession, ChannelError, Opened, seal_frame, open_frame}

pub data ClientError : Type 0 where
  not_connected : ClientError
  out_of_order : ClientError
  frame_rejected : FrameError → ClientError
  channel_error : ChannelError → ClientError
  message_error : MessageError → ClientError

-- Why a promise is rejected.
pub data Reason : Type 0 where
  remote_error : Option Json → Reason
  tunnel_closed : Text → Reason
  timed_out : Reason

pub data Event : Type 0 where
  sent : List ℕ → Event
  resolved : ℕ → Json → Event
  rejected : ℕ → Reason → Event
  handled : Json → Event
  socket_closed : ℕ → Text → Event
  close_handled : Text → Event

-- `is_open`: there is a socket and its state is OPEN.
pub record TunnelClient : Type 0 where
  pub is_open : Bool
  pub send_sequence : ℕ
  pub last_receive_sequence : ℤ
  pub pending : List (Text × ℕ)

-- The fields' initial values, once the socket is open.
abbrev pub new_client : TunnelClient
new_client = record {
  is_open = true;
  send_sequence = 0;
  last_receive_sequence = negsuc 0;
  pending = [];
}

-- What a call returns or throws, what it left, and what it did.
pub record Ran : Type 0 where
  pub result : Result ClientError (Unit {0})
  pub client : TunnelClient
  pub events : List Event

abbrev pub throw : ClientError → TunnelClient → Ran
throw e c = record { result = err e; client = c; events = [] }

-- rejectAll
abbrev pub rejections : Reason → List (Text × ℕ) → List Event
rejections reason [] = []
rejections reason ((id, promise) ∷ pending) = rejected promise reason ∷ rejections reason pending

-- close(code, reason). The close of a socket that is there and no longer OPEN shows no effect.
unfoldable pub close : ℕ → Text → TunnelClient → Ran
close code reason c = record {
  result = ok tt;
  client = record c { is_open = false; pending = [] };
  events =
      rejections (tunnel_closed reason) c.pending
      ++ (if c.is_open then socket_closed code reason ∷ [] else []);
}

-- handleClose, with one close handler
unfoldable pub handle_close : Text → TunnelClient → Ran
handle_close reason c = record {
  result = ok tt;
  client = record c { is_open = false; pending = [] };
  events = rejections (tunnel_closed reason) c.pending ++ (close_handled reason ∷ []);
}

-- The timer of a request.
unfoldable pub on_timeout : Text → ℕ → TunnelClient → Ran
on_timeout id promise c = record {
  result = ok tt;
  client = record c { pending = Map.delete id c.pending };
  events = rejected promise timed_out ∷ [];
}

abbrev pub message_members : Json → Fields
message_members (obj fs) = fs
message_members _ = end

abbrev pub is_error : Json → Bool
is_error message =
    or_else (as_text (lookup (codes "type") (message_members message))) [] == codes "error"

abbrev pub settle_event : ℕ → Json → Event
settle_event promise message =
    if is_error message
    then rejected promise (remote_error (lookup (codes "message") (message_members message)))
    else resolved promise message

abbrev pub reply_id : Json → Text
reply_id message = or_else (as_text (lookup (codes "reply_to") (message_members message))) []

abbrev pub settle_pending : Text → Json → Option ℕ → TunnelClient → TunnelClient × List Event
settle_pending id message none c = (c, [])
settle_pending id message (some promise) c =
    (record c { pending = Map.delete id c.pending }, settle_event promise message ∷ [])

-- No `reply_to`, one that is no text, and an empty one count as none.
unfoldable pub resolve_pending : Json → TunnelClient → TunnelClient × List Event
resolve_pending message c =
    let id = reply_id message in
    if id == [] then (c, []) else settle_pending id message (Map.get id c.pending) c

module _ (aead : Aead) (json : JsonCodec) (session : SecureSession) where
  -- Behind sealFrame: the sequence number is used up whether it throws or not.
  abbrev pub sent_frame : TunnelClient → Result ChannelError (List ℕ) → Ran
  sent_frame c (err e) = throw (channel_error e) (record c { send_sequence = suc c.send_sequence })
  sent_frame c (ok raw) = record {
    result = ok tt;
    client = record c { send_sequence = suc c.send_sequence };
    events = sent raw ∷ [];
  }

  unfoldable pub send : Json → ℕ → List ℕ → TunnelClient → Ran
  send message type nonce c =
      if c.is_open
      then sent_frame c (
          seal_frame aead session.send_key type (pos c.send_sequence) (encode_message json message)
            nonce)
      else throw not_connected c

  -- The id of the message, or a random one.
  -- `{ ...message, id }`: the id takes the place of the message's own, or comes last.
  abbrev pub set_member : Text → Json → Fields → Fields
  set_member k v end = field k v end
  set_member k v (field j w fs) =
      let rest = set_member k v fs in if j == k then field j v fs else field j w rest

  abbrev pub with_id : Text → Json → Json
  with_id id message = obj (set_member (codes "id") (str id) (message_members message))

  -- The promise stands in the map before the message is sent, and stays there when sending throws.
  unfoldable pub request : Text → Json → ℕ → List ℕ → TunnelClient → Ran
  request id message promise nonce c =
      send (with_id id message) FrameType.data_frame nonce
        (record c { pending = Map.set id promise c.pending })

  abbrev pub pong_message : ℤ → Json
  pong_message now =
      obj (field (codes "type") (str (codes "pong")) (field (codes "timestamp") (num now) end))

  -- resolvePending and then each handler
  unfoldable pub deliver : TunnelClient → Result MessageError Json → Ran
  deliver c (err e) = throw (message_error e) c
  deliver c (ok message) =
      let (after, settled) = resolve_pending message c in
      record { result = ok tt; client = after; events = settled ++ (handled message ∷ []) }

  -- What follows on an opened frame.
  unfoldable pub on_frame : ℤ → List ℕ → Opened → TunnelClient → Ran
  on_frame now nonce opened c =
      let type = opened.frame.type in
      if type == FrameType.ping
      then send (pong_message now) FrameType.pong nonce c
      else if type == FrameType.pong
      then record { result = ok tt; client = c; events = [] }
      else if type == FrameType.close
      then close 1000 (codes "remote close") c
      else deliver c (decode_message json opened.plaintext)

  unfoldable pub on_opened : ℤ → List ℕ → Result ChannelError Opened → TunnelClient → Ran
  on_opened now nonce (err e) c = throw (channel_error e) c
  on_opened now nonce (ok opened) c =
      on_frame now nonce opened (record c { last_receive_sequence = opened.frame.sequence })

  unfoldable pub on_peeked : ℤ → List ℕ → List ℕ → Result FrameError ℤ → TunnelClient → Ran
  on_peeked now nonce raw (err e) c = throw (frame_rejected e) c
  on_peeked now nonce raw (ok sequence) c =
      if leb_ℤ sequence c.last_receive_sequence
      then throw out_of_order c
      else on_opened now nonce (open_frame aead session.receive_key raw) c

  unfoldable pub handle_raw_message : ℤ → List ℕ → List ℕ → TunnelClient → Ran
  handle_raw_message now nonce raw c = on_peeked now nonce raw (peek_frame_sequence raw) c

  abbrev pub answer : ℤ → List ℕ → Text → Result ClientError (Unit {0}) → Ran → Ran
  answer now nonce message (ok _) r = r
  answer now nonce message (err e) r =
      let reply =
        send (create_error_message now none (codes "decode_failed") message) FrameType.data_frame
          nonce r.client in
      record { result = ok tt; client = reply.client; events = r.events ++ reply.events }

  -- The listener of `connect`: an error is answered with a message, whose own failure is dropped.
  unfoldable pub on_message : ℤ → List ℕ → List ℕ → Text → List ℕ → TunnelClient → Ran
  on_message now nonce error_nonce error_text raw c =
      let r = handle_raw_message now nonce raw c in answer now error_nonce error_text r.result r
