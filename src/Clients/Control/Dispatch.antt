-- ===== src/Clients/Control/Dispatch.antt =====
-- What happens to the control client of src/clients/control-client.ts, in the order in which it
-- happens: messages, the outcomes of what they started, sockets and timers.
use consensus_node.Base.{ℕ, Text, List, [], ◌∷◌, ◌++◌, Option, Result}
use consensus_node.Base.Int.{ℤ}
use consensus_node.Base.Json.{Json, JsonCodec}
use consensus_node.Tunnel.Messages.Kinds.{
  StreamOpenMessage, StreamDataMessage, StreamCloseMessage, ProxyResponseMessage,
  EvalRequestMessage,
}
use consensus_node.Releases.Update.{ReleaseManifest, Downloaded}
use consensus_node.Clients.Control.State.{ControlClient, Handled}
use consensus_node.Clients.Control.Streams.{
  on_stream_open, on_stream_data, on_stream_close, on_socket_data, on_socket_close, on_socket_error,
  on_data_plane_done, on_close,
}
use consensus_node.Clients.Control.Requests.{
  on_proxy_request, finish_proxy, finish_session, on_eval_request, finish_eval, send_heartbeat,
}
use consensus_node.Clients.Control.Updates.{
  on_update_prepare, finish_prepare, on_update_apply, fire_apply, finish_apply,
}

pub data Event : Type 0 where
  proxy_came : Option Text → Event
  proxy_ended : Option Text → Result Text ProxyResponseMessage → Event
  eval_came : Option Text → EvalRequestMessage → Event
  eval_ended : Option Text → Text → Result Text Json → Event
  open_came : StreamOpenMessage → Event
  data_came : StreamDataMessage → Event
  session_ended : Text → Result Text Text → Event
  close_came : StreamCloseMessage → Event
  socket_read : Text → List ℕ → Event
  socket_closed : Text → Event
  socket_failed : Text → Text → Event
  data_plane_ended : Text → Event
  prepare_came : Text → ReleaseManifest → Event
  prepare_ended :
      Option Text → Text → ReleaseManifest → ReleaseManifest → Result Text Downloaded → Event
  apply_came : Option Text → Text → Option ℤ → Event
  apply_fired : Text → Event
  apply_ended : Text → Result Text (Unit {0}) → Event
  heartbeat_due : Text → ℤ → Json → Event
  tunnel_closed : Event

module _ (to_base64 : List ℕ → Text) (from_base64 : Text → List ℕ) (json : JsonCodec) where
  unfoldable pub handle : Event → ControlClient → Handled
  handle (proxy_came id) c = on_proxy_request id c
  handle (proxy_ended id outcome) c = finish_proxy id outcome c
  handle (eval_came id m) c = on_eval_request id m c
  handle (eval_ended id action outcome) c = finish_eval id action outcome c
  handle (open_came m) c = on_stream_open to_base64 from_base64 json m c
  handle (data_came m) c = on_stream_data to_base64 from_base64 m c
  handle (session_ended stream_id outcome) c = finish_session stream_id outcome c
  handle (close_came m) c = on_stream_close to_base64 m c
  handle (socket_read stream_id bytes) c = on_socket_data to_base64 stream_id bytes c
  handle (socket_closed stream_id) c = on_socket_close stream_id c
  handle (socket_failed stream_id message) c = on_socket_error stream_id message c
  handle (data_plane_ended stream_id) c = on_data_plane_done stream_id c
  handle (prepare_came update_id manifest) c = on_update_prepare update_id manifest c
  handle (prepare_ended id update_id current manifest outcome) c =
      finish_prepare id update_id current manifest outcome c
  handle (apply_came id update_id restart_after_ms) c =
      on_update_apply id update_id restart_after_ms c
  handle (apply_fired update_id) c = fire_apply update_id c
  handle (apply_ended update_id outcome) c = finish_apply update_id outcome c
  handle (heartbeat_due node_id uptime capabilities) c =
      send_heartbeat node_id uptime capabilities c
  handle tunnel_closed c = on_close c

  unfoldable pub run : List Event → ControlClient → Handled
  run [] c = (c, [])
  run (e ∷ es) c =
      let (c', sends) = handle e c in let (after, more) = run es c' in (after, sends ++ more)
