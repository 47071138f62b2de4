-- ===== src/Tests/Client.antt =====
-- src/tunnel/tunnel-client.ts, src/tunnel/messages.ts and src/clients/data-plane-stream.ts on concrete
-- frames, messages and calls.
use consensus_node.Base.{
  ℕ, ◌≡◌, refl, List, [], ◌∷◌, ◌++◌, none, some, ok, err, codes, text_beq, inl,
}
use consensus_node.Base.Int.{pos}
use consensus_node.Base.Bytes.{read_be}
use consensus_node.Base.Slices.{subarray}
use consensus_node.Base.Map
use consensus_node.Tunnel.FrameType
use consensus_node.Tunnel.Frames.{decode_frame, frame_aad, peek_frame_sequence}
use consensus_node.Tunnel.Messages.Kinds.{TunnelMessage, stream_open}
use consensus_node.Crypto.Channel.{SecureSession, open_frame, decrypt_detached}
use consensus_node.Tunnel.Client.{
  TunnelClient, new_client, out_of_order, on_frame, on_opened, on_peeked, handle_raw_message,
}
use consensus_node.Tunnel.Client.Requests.{Conserves, Distinct, handle_raw_message-Conserves}
use consensus_node.Tunnel.Client.Sequence.{Arrival, receive_all, handle_raw_message_once}
use consensus_node.Clients.Stream.{
  Call, call_recv, call_push, call_close, call_finish, new_stream, run,
}
use consensus_node.Clients.Stream.Order.{WellFormed, delivered, pushed, run_in_order}
use consensus_node.Tests.Instances.{aead, fill, zeros16, open_zeros}
use consensus_node.Tests.StackJson.{json_codec}

abbrev session : SecureSession
session = record { session_id = codes "s"; send_key = fill 32 7; receive_key = fill 32 8 }

abbrev peer_session : SecureSession
peer_session = record { session_id = codes "s"; send_key = fill 32 8; receive_key = fill 32 7 }

-- A PONG frame with sequence number 3 and no plaintext.
abbrev pong_bytes : List ℕ
pong_bytes =
    (1 ∷ 33 ∷ 0 ∷ 0 ∷ 0 ∷ 0 ∷ 0 ∷ 0 ∷ 0 ∷ 3 ∷ [])
    ++ ((1 ∷ 1 ∷ 1 ∷ 1 ∷ 1 ∷ 1 ∷ 1 ∷ 1 ∷ 1 ∷ 1 ∷ 1 ∷ 1 ∷ [])
        ++ ((0 ∷ 0 ∷ 0 ∷ 0 ∷ [])
            ++ (0 ∷ 0 ∷ 0 ∷ 0 ∷ 0 ∷ 0 ∷ 0 ∷ 0 ∷ 0 ∷ 0 ∷ 0 ∷ 0 ∷ 0 ∷ 0 ∷ 0 ∷ 0 ∷ [])))

abbrev arrival : Arrival
arrival = record { now = pos 0; nonce = []; error_nonce = []; error_text = []; raw = pong_bytes }

abbrev waiting_client : TunnelClient
waiting_client = record new_client { pending = (codes "r1", 5) ∷ [] }

pong_handled :
    (handle_raw_message aead json_codec session (pos 0) [] pong_bytes new_client).result ≡ ok tt
unfolding handle_raw_message on_peeked on_opened on_frame peek_frame_sequence open_frame
    decode_frame frame_aad read_be subarray decrypt_detached fill zeros16 open_zeros text_beq
pong_handled = refl

handle_raw_message_once_example :
    handle_raw_message aead json_codec session (pos 1) [] pong_bytes (
      receive_all aead json_codec session
        (arrival ∷ [])
        (handle_raw_message aead json_codec session (pos 0) [] pong_bytes new_client).client)
    ≡ record {
      result = err out_of_order;
      client =
          receive_all aead json_codec session
            (arrival ∷ [])
            (handle_raw_message aead json_codec session (pos 0) [] pong_bytes new_client).client;
      events = [];
    }
handle_raw_message_once_example =
    handle_raw_message_once aead json_codec session arrival new_client (arrival ∷ []) (pos 1) []
      pong_handled

Distinct-waiting : Distinct waiting_client.pending
unfolding Map.has
Distinct-waiting = (refl, tt)

handle_raw_message-Conserves_example :
    Conserves waiting_client
      (handle_raw_message aead json_codec session (pos 0) [] pong_bytes waiting_client).client
      (handle_raw_message aead json_codec session (pos 0) [] pong_bytes waiting_client).events
handle_raw_message-Conserves_example =
    handle_raw_message-Conserves aead json_codec session (pos 0) [] pong_bytes waiting_client
      Distinct-waiting

abbrev message : TunnelMessage
message = record {
  id = some (codes "m");
  timestamp = pos 9;
  payload = stream_open (record { stream_id = codes "7"; target = none });
}

abbrev calls : List Call
calls = call_push (1 ∷ []) ∷ call_recv 4 ∷ call_close ∷ call_finish none ∷ []

WellFormed-new_stream : WellFormed new_stream
WellFormed-new_stream = record { idle = inl refl; alive = inl refl }

run_in_order_example :
    (delivered (run calls new_stream).1 ++ (run calls new_stream).0.inbox
      ≡ new_stream.inbox ++ pushed calls)
    × WellFormed (run calls new_stream).0
run_in_order_example = run_in_order calls new_stream WellFormed-new_stream
