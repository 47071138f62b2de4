-- ===== src/Clients/Control/Streams.antt =====
-- The streams of src/clients/control-client.ts: they open, carry data and close. `to_base64` and
-- `from_base64` are those of a Buffer.
use consensus_node.Base.{
  ℕ, ◌+◌, Text, codes, text_eq, nat_eq, List, [], ◌∷◌, ◌++◌, map, Option, none, some, ◌==◌,
  includes, if◌then◌else◌,
}
use mathlib.Core.Option
use consensus_node.Base.Map
use consensus_node.Base.Json.{JsonCodec}
use consensus_node.Tunnel.Messages.Kinds.{
  StreamOpenMessage, StreamDataMessage, StreamCloseMessage, stream_data, stream_close, error,
}
use consensus_node.Clients.Control.PublicFrames
use consensus_node.Clients.Control.PublicFrames.{
  PublicTunnelFrame, encode_public_tunnel_frame, decode_public_tunnel_frame,
}
use consensus_node.Clients.Control.Target.{
  StreamTarget, raw_tunnel, public_tunnel_owner, public_tunnel_stream, data_plane,
  parse_stream_target,
}
use consensus_node.Clients.Control.State.{
  Owner, Link, ControlClient, Action, Handled, sent, raised, connected, written, destroyed,
  data_plane_started, data_plane_pushed, data_plane_failed, session_started, add, remove,
  find_owner,
}

abbrev pub send_stream_close : Text → Text → Action
send_stream_close stream_id reason =
    sent (stream_close (record { stream_id = stream_id; reason = some reason }))

abbrev pub send_error : Text → Text → Action
send_error code message = sent (error (record { reply_to = none; code = code; message = message }))

-- The maps without one link; the owner may be gone already.
abbrev pub unlinked_owner : Text → Link → Option Owner → List (Text × Owner) → List (Text × Owner)
unlinked_owner stream_id linked none owners = owners
unlinked_owner stream_id linked (some owner) owners =
    Map.set linked.tunnel_id
      (record owner {
        owner_to_server = Map.delete linked.owner_stream_id owner.owner_to_server;
        server_to_owner = Map.delete stream_id owner.server_to_owner;
      })
      owners

abbrev pub cleanup_linked : Text → Option Link → ControlClient → ControlClient
cleanup_linked stream_id none c = c
cleanup_linked stream_id (some linked) c = record c {
  owners = unlinked_owner stream_id linked (Map.get linked.tunnel_id c.owners) c.owners;
  public_streams = Map.delete stream_id c.public_streams;
  active_streams = remove stream_id c.active_streams;
}

-- cleanupPublicTunnelStream
unfoldable pub cleanup_public_tunnel_stream : Text → ControlClient → ControlClient
cleanup_public_tunnel_stream stream_id c =
    cleanup_linked stream_id (Map.get stream_id c.public_streams) c

unfoldable pub open_owner : Text → Text → ControlClient → Handled
open_owner stream_id tunnel_id c = (
  record c {
    active_streams = add stream_id c.active_streams;
    owners =
        Map.set tunnel_id
          (record {
            stream_id = stream_id;
            next_stream_id = 1;
            owner_to_server = [];
            server_to_owner = [];
          })
          c.owners;
  },
  [],
)

-- The owner with one more link, under its next number.
abbrev pub linked_owner : Text → Owner → Owner
linked_owner stream_id owner = record owner {
  next_stream_id = owner.next_stream_id + 1;
  owner_to_server = Map.set owner.next_stream_id stream_id owner.owner_to_server;
  server_to_owner = Map.set stream_id owner.next_stream_id owner.server_to_owner;
}

abbrev pub link_stream : Text → Text → Owner → ControlClient → ControlClient
link_stream stream_id tunnel_id owner c = record c {
  owners = Map.set tunnel_id (linked_owner stream_id owner) c.owners;
  public_streams =
      Map.set stream_id (record { tunnel_id = tunnel_id; owner_stream_id = owner.next_stream_id })
        c.public_streams;
  active_streams = add stream_id c.active_streams;
}

-- `for (const serverStreamId of owner.serverToOwner.keys())`
unfoldable pub drop_streams : List (Text × ℕ) → ControlClient → ControlClient
drop_streams [] c = c
drop_streams ((stream_id, n) ∷ rest) c = drop_streams rest (record c {
  public_streams = Map.delete stream_id c.public_streams;
  active_streams = remove stream_id c.active_streams;
})

abbrev pub owner_closed : Text × ℕ → Action
owner_closed entry = send_stream_close entry.0 (codes "tunnel owner closed")

unfoldable pub close_owner : Text → Text → Owner → ControlClient → Handled
close_owner stream_id tunnel_id owner c =
    let dropped = drop_streams owner.server_to_owner c in
    (
      record dropped {
        owners = Map.delete tunnel_id dropped.owners;
        active_streams = remove stream_id dropped.active_streams;
      },
      map owner_closed owner.server_to_owner,
    )

abbrev pub close_other : Text → ControlClient → Handled
close_other stream_id c =
    if includes stream_id c.data_plane_streams
    then (
      record c {
        data_plane_streams = remove stream_id c.data_plane_streams;
        active_streams = remove stream_id c.active_streams;
      },
      data_plane_failed stream_id ∷ [],
    )
    else if includes stream_id c.raw_streams
    then (
      record c {
        raw_streams = remove stream_id c.raw_streams;
        active_streams = remove stream_id c.active_streams;
      },
      destroyed stream_id ∷ [],
    )
    else (record c { active_streams = remove stream_id c.active_streams }, [])

module _ (to_base64 : List ℕ → Text) where
  abbrev pub send_stream_data : Text → List ℕ → Action
  send_stream_data stream_id bytes = sent (
      stream_data
        (record { stream_id = stream_id; data_text = to_base64 bytes; encoding = codes "base64" }))

  -- A frame on the stream of a tunnel's owner.
  abbrev pub frame_to : Owner → ℕ → ℕ → List ℕ → List Action
  frame_to owner type owner_stream_id payload =
      elim (encode_public_tunnel_frame type owner_stream_id payload) [
        | none ↦ raised ∷ []
        | some bytes ↦ send_stream_data owner.stream_id bytes ∷ []
      ]

  abbrev pub open_with_owner : Text → Text → List ℕ → Option Owner → ControlClient → Handled
  open_with_owner stream_id tunnel_id initial_data none c =
      (c, send_stream_close stream_id (codes "tunnel owner unavailable") ∷ [])
  open_with_owner stream_id tunnel_id initial_data (some owner) c = (
    link_stream stream_id tunnel_id owner c,
    frame_to owner PublicFrames.stream_open owner.next_stream_id initial_data,
  )

  unfoldable pub open_public_stream : Text → Text → List ℕ → ControlClient → Handled
  open_public_stream stream_id tunnel_id initial_data c =
      open_with_owner stream_id tunnel_id initial_data (Map.get tunnel_id c.owners) c

  unfoldable pub open_target : Text → Option Text → Option StreamTarget → ControlClient → Handled
  open_target stream_id target none c = (
    c,
    send_error (codes "unsupported_stream_target")
          (codes "Unsupported stream target: " ++ Option.get_or target [])
        ∷ [],
  )
  open_target stream_id target (some (public_tunnel_owner tunnel_id)) c =
      open_owner stream_id tunnel_id c
  open_target stream_id target (some (public_tunnel_stream tunnel_id initial_data)) c =
      open_public_stream stream_id tunnel_id initial_data c
  open_target stream_id target (some data_plane) c = (
    record c {
      active_streams = add stream_id c.active_streams;
      data_plane_streams = add stream_id c.data_plane_streams;
    },
    data_plane_started stream_id ∷ [],
  )
  open_target stream_id target (some (raw_tunnel host port)) c = (
    record c {
      active_streams = add stream_id c.active_streams;
      raw_streams = add stream_id c.raw_streams;
    },
    connected stream_id host port ∷ [],
  )

  module _ (from_base64 : Text → List ℕ) where
    -- STREAM_OPEN
    unfoldable pub on_stream_open : JsonCodec → StreamOpenMessage → ControlClient → Handled
    on_stream_open json m c =
        if Option.get_or m.target [] == codes "proxy-session"
        then (record c { active_streams = add m.stream_id c.active_streams }, [])
        else open_target m.stream_id m.target (parse_stream_target from_base64 json m.target) c

  -- An unknown or empty stream of the server is passed over.
  unfoldable pub owner_frame_for : ℕ → List ℕ → Option Text → ControlClient → Handled
  owner_frame_for type payload none c = (c, [])
  owner_frame_for type payload (some stream_id) c =
      if stream_id == []
      then (c, [])
      else if type == PublicFrames.stream_data
      then (c, send_stream_data stream_id payload ∷ [])
      else if type == PublicFrames.stream_end
      then (
        cleanup_public_tunnel_stream stream_id c,
        send_stream_close stream_id (codes "target closed") ∷ [],
      )
      else if type == PublicFrames.stream_reset
      then (
        cleanup_public_tunnel_stream stream_id c,
        send_stream_close stream_id (codes "target reset") ∷ [],
      )
      else (c, [])

  -- A frame that is too short is logged.
  unfoldable pub on_owner_frame : Owner → Option PublicTunnelFrame → ControlClient → Handled
  on_owner_frame owner none c = (c, [])
  on_owner_frame owner (some frame) c =
      if frame.type == PublicFrames.ping
      then (c, frame_to owner PublicFrames.pong 0 [])
      else if frame.type == PublicFrames.pong
      then (c, [])
      else owner_frame_for frame.type frame.payload (Map.get frame.stream_id owner.owner_to_server)
          c

  -- Data on a linked stream goes to the owner of its tunnel.
  unfoldable pub on_linked_data : Text → Link → List ℕ → Option Owner → ControlClient → Handled
  on_linked_data stream_id linked payload none c = (
    cleanup_public_tunnel_stream stream_id c,
    send_stream_close stream_id (codes "tunnel owner unavailable") ∷ [],
  )
  on_linked_data stream_id linked payload (some owner) c =
      (c, frame_to owner PublicFrames.stream_data linked.owner_stream_id payload)

  abbrev pub on_other_data : Text → List ℕ → ControlClient → Handled
  on_other_data stream_id bytes c =
      if includes stream_id c.raw_streams
      then (c, written stream_id bytes ∷ [])
      else if includes stream_id c.data_plane_streams
      then (c, data_plane_pushed stream_id bytes ∷ [])
      else (
        record c { active_requests = c.active_requests + 1 },
        session_started stream_id bytes ∷ [],
      )

  abbrev pub on_stream_bytes :
      Text → List ℕ → Option (Text × Owner) → Option Link → ControlClient → Handled
  on_stream_bytes stream_id bytes (some (tunnel_id, owner)) linked c =
      on_owner_frame owner (decode_public_tunnel_frame bytes) c
  on_stream_bytes stream_id bytes none (some linked) c =
      on_linked_data stream_id linked bytes (Map.get linked.tunnel_id c.owners) c
  on_stream_bytes stream_id bytes none none c = on_other_data stream_id bytes c

  -- STREAM_DATA
  unfoldable pub on_stream_data : (Text → List ℕ) → StreamDataMessage → ControlClient → Handled
  on_stream_data from_base64 m c =
      on_stream_bytes m.stream_id (from_base64 m.data_text) (find_owner m.stream_id c.owners)
        (Map.get m.stream_id c.public_streams) c

  abbrev pub reset_sent : Text → Owner → Option (List ℕ) → ControlClient → Handled
  reset_sent stream_id owner none c = (c, raised ∷ [])
  reset_sent stream_id owner (some bytes) c =
      (cleanup_public_tunnel_stream stream_id c, send_stream_data owner.stream_id bytes ∷ [])

  -- The frame is written before the stream is cleaned up.
  abbrev pub close_linked : Text → Link → Option Owner → ControlClient → Handled
  close_linked stream_id linked none c = (cleanup_public_tunnel_stream stream_id c, [])
  close_linked stream_id linked (some owner) c =
      reset_sent stream_id owner
        (encode_public_tunnel_frame PublicFrames.stream_reset linked.owner_stream_id []) c

  abbrev pub close_stream : Text → Option (Text × Owner) → Option Link → ControlClient → Handled
  close_stream stream_id (some (tunnel_id, owner)) linked c =
      close_owner stream_id tunnel_id owner c
  close_stream stream_id none (some linked) c =
      close_linked stream_id linked (Map.get linked.tunnel_id c.owners) c
  close_stream stream_id none none c = close_other stream_id c

  -- STREAM_CLOSE
  unfoldable pub on_stream_close : StreamCloseMessage → ControlClient → Handled
  on_stream_close m c =
      close_stream m.stream_id (find_owner m.stream_id c.owners)
        (Map.get m.stream_id c.public_streams) c

  -- The listeners of a socket: data, close, and an error.
  unfoldable pub on_socket_data : Text → List ℕ → ControlClient → Handled
  on_socket_data stream_id bytes c = (c, send_stream_data stream_id bytes ∷ [])

-- A close that follows an error or a STREAM_CLOSE finds the socket gone.
unfoldable pub on_socket_close : Text → ControlClient → Handled
on_socket_close stream_id c =
    if includes stream_id c.raw_streams
    then (
      record c {
        raw_streams = remove stream_id c.raw_streams;
        active_streams = remove stream_id c.active_streams;
      },
      send_stream_close stream_id (codes "target closed") ∷ [],
    )
    else (c, [])

unfoldable pub on_socket_error : Text → Text → ControlClient → Handled
on_socket_error stream_id message c = (
  record c {
    raw_streams = remove stream_id c.raw_streams;
    active_streams = remove stream_id c.active_streams;
  },
  send_error (codes "raw_tunnel_failed") message ∷ send_stream_close stream_id message ∷ [],
)

-- onDone of a data-plane stream
unfoldable pub on_data_plane_done : Text → ControlClient → Handled
on_data_plane_done stream_id c = (
  record c {
    data_plane_streams = remove stream_id c.data_plane_streams;
    active_streams = remove stream_id c.active_streams;
  },
  [],
)

-- The close of the tunnel: every socket is destroyed, every data-plane stream fails.
unfoldable pub on_close : ControlClient → Handled
on_close c = (
  record c {
    raw_streams = [];
    owners = [];
    public_streams = [];
    data_plane_streams = [];
    active_streams = [];
  },
  map destroyed c.raw_streams ++ map data_plane_failed c.data_plane_streams,
)
