-- ===== src/Tests/Control.antt =====
-- src/clients/control-client.ts and src/update.ts on concrete messages and releases.
use consensus_node.Base.{
  ◌≡◌, ◌≢◌, refl, List, [], ◌∷◌, none, some, codes, Text, utf8, nat_eq, text_eq, text_beq,
}
use consensus_node.Base.Map
use consensus_node.Base.Json.{Json, obj, field, end, str, lookup}
use consensus_node.Tunnel.Messages.Kinds.{StreamOpenMessage, StreamDataMessage}
use consensus_node.Clients.Control.Target.{public_tunnel_owner, parse_stream_target, target_of}
use consensus_node.Tests.Instances.{base64, cons_not_empty}
use consensus_node.Clients.Control.State.{Owner, Link, ControlClient, start_state, add, find_owner}
use consensus_node.Clients.Control.Streams.{
  open_owner, open_public_stream, open_target, on_stream_open, on_stream_data, on_owner_frame,
  frame_to, send_stream_data,
}
use consensus_node.Clients.Control.Linked.Routed.{MayRun, run_routes, open_owner_twice}
use consensus_node.Clients.Control.PublicFrames
use consensus_node.Clients.Control.PublicFrames.{
  encode_public_tunnel_frame, decode_public_tunnel_frame,
}
use consensus_node.Clients.Control.Dispatch.{Event, handle, run}
use consensus_node.Tests.StackJson
use consensus_node.Tests.StackJson.{json_codec, write, read, step, result, write_text}

abbrev tunnel : Text
tunnel = codes "t"

abbrev opening : Text → Json
opening kind = obj (field (codes "kind") (str kind) (field (codes "tunnel_id") (str tunnel) end))

abbrev owner_opens : StreamOpenMessage
owner_opens = record {
  stream_id = codes "owner";
  target = some (json_codec.stringify (opening (codes "public-tunnel-owner")));
}

abbrev stream_opens : StreamOpenMessage
stream_opens = record {
  stream_id = codes "s";
  target = some (json_codec.stringify (opening (codes "public-tunnel-stream")));
}

abbrev opened : List Event
opened = Event.open_came owner_opens ∷ Event.open_came stream_opens ∷ []

abbrev link : Link
link = record { tunnel_id = tunnel; owner_stream_id = 1 }

abbrev state : ControlClient
state = (run base64.encode base64.decode json_codec opened start_state).0

owner_target :
    parse_stream_target base64.decode json_codec owner_opens.target
    ≡ some (public_tunnel_owner tunnel)
unfolding parse_stream_target target_of lookup write read StackJson.run step result write_text
    text_beq utf8
owner_target = refl

opened-MayRun : MayRun base64.encode base64.decode json_codec opened start_state
unfolding parse_stream_target target_of lookup write read StackJson.run step result write_text
    text_beq utf8 start_state handle on_stream_open open_target open_owner
opened-MayRun = (Map.get-nil tunnel, (tt, tt))

opened_link : Map.get (codes "s") state.public_streams ≡ some link
unfolding parse_stream_target target_of lookup write read StackJson.run step result write_text
    text_beq utf8 start_state handle on_stream_open open_target open_owner run open_public_stream
    Map.get Map.set add
opened_link = refl

not_owner : find_owner (codes "s") state.owners ≡ none
unfolding parse_stream_target target_of lookup write read StackJson.run step result write_text
    text_beq utf8 start_state handle on_stream_open open_target open_owner run open_public_stream
    Map.get Map.set add find_owner
not_owner = refl

abbrev data_message : StreamDataMessage
data_message = record { stream_id = codes "s"; data_text = 48 ∷ []; encoding = codes "base64" }

run_routes_example :
    (owner : Owner) × (Map.get tunnel state.owners ≡ some owner)
    × (on_stream_data base64.encode base64.decode data_message state
        ≡ (state, frame_to base64.encode owner PublicFrames.stream_data 1 (1 ∷ [])))
    × (on_owner_frame base64.encode owner
          (some (record { type = PublicFrames.stream_data; stream_id = 1; payload = 7 ∷ [] }))
          state
        ≡ (state, send_stream_data base64.encode (codes "s") (7 ∷ []) ∷ []))
run_routes_example =
    run_routes base64.encode base64.decode json_codec opened data_message link (7 ∷ [])
      opened-MayRun (cons_not_empty _ _) not_owner opened_link

other_stream : codes "s" ≢ codes "s2"
other_stream e = cc

open_owner_twice_example :
    let c' =
      (open_public_stream base64.encode
        (codes "s2")
        tunnel
        []
        (open_owner (codes "again") tunnel state).0).0 in
    (Map.get (codes "s") c'.public_streams ≡ some link)
    × (Map.get (codes "s2") c'.public_streams ≡ some link)
open_owner_twice_example =
    open_owner_twice base64.encode base64.decode json_codec state tunnel (codes "s") (codes "s2")
      (codes "again") [] other_stream opened_link
