-- ===== src/Clients/Control/Updates/Quiet.antt =====
-- The streams of src/clients/control-client.ts leave the prepared update alone, and install nothing.
use consensus_node.Base.{
  ℕ, Text, codes, text_eq, nat_eq, Bool, List, [], ◌∷◌, ◌++◌, map, Option, none, some, ◌==◌,
  includes, if◌then◌else◌, ◌≡◌, refl, false, true,
}
use mathlib.Core.Option
use consensus_node.Base.Map
use consensus_node.Base.Json.{JsonCodec}
use consensus_node.Tunnel.Messages.Kinds.{StreamOpenMessage, StreamDataMessage, StreamCloseMessage}
use consensus_node.Clients.Control.PublicFrames
use consensus_node.Clients.Control.PublicFrames.{
  PublicTunnelFrame, encode_public_tunnel_frame, decode_public_tunnel_frame,
}
use consensus_node.Clients.Control.Target.{
  StreamTarget, raw_tunnel, public_tunnel_owner, public_tunnel_stream, data_plane,
  parse_stream_target,
}
use consensus_node.Clients.Control.State.{
  Owner, Link, PreparedUpdate, ControlClient, Handled, Action, raised, destroyed, install_started,
  data_plane_failed, find_owner,
}
use consensus_node.Clients.Control.Streams.{
  cleanup_public_tunnel_stream, cleanup_linked, open_owner, drop_streams, close_owner, owner_closed,
  frame_to, reset_sent, close_linked, link_stream, send_stream_data, open_with_owner,
  open_public_stream, open_target, on_stream_open, owner_frame_for, on_owner_frame, on_linked_data,
  on_stream_bytes, on_stream_data, close_stream, on_stream_close, on_socket_close, on_close,
}

-- The update whose installer an action starts.
abbrev pub install_of : Action → List PreparedUpdate
install_of (install_started u) = u ∷ []
install_of _ = []

unfoldable pub installs : List Action → List PreparedUpdate
installs [] = []
installs (a ∷ rest) = install_of a ++ installs rest

pub record IsQuiet (c : ControlClient) (h : Handled) : Type 0 where
  pub same_update : h.0.prepared_update ≡ c.prepared_update
  pub no_install : installs h.1 ≡ []

pub if-IsQuiet :
    {c : ControlClient} (b : Bool) {h k : Handled}
    → IsQuiet c h
    → IsQuiet c k
    → IsQuiet c (if b then h else k)
if-IsQuiet true p q = p
if-IsQuiet false p q = q

abbrev pub quiet :
    {c : ControlClient} (h : Handled)
    → h.0.prepared_update ≡ c.prepared_update
    → installs h.1 ≡ []
    → IsQuiet c h
quiet h same nothing = record { same_update = same; no_install = nothing }

cleanup_linked_update :
    (s : Text) (l : Option Link) (c : ControlClient)
    → (cleanup_linked s l c).prepared_update ≡ c.prepared_update
cleanup_linked_update s none c = refl
cleanup_linked_update s (some l) c = refl

cleanup_update :
    (s : Text) (c : ControlClient)
    → (cleanup_public_tunnel_stream s c).prepared_update ≡ c.prepared_update
unfolding cleanup_public_tunnel_stream
cleanup_update s c = cleanup_linked_update s (Map.get s c.public_streams) c

drop_streams_update :
    (entries : List (Text × ℕ)) (c : ControlClient)
    → (drop_streams entries c).prepared_update ≡ c.prepared_update
unfolding drop_streams
drop_streams_update [] c = refl
drop_streams_update ((s, n) ∷ rest) c = drop_streams_update rest _

installs-owner_closed : (entries : List (Text × ℕ)) → installs (map owner_closed entries) ≡ []
unfolding installs
installs-owner_closed [] = refl
installs-owner_closed (e ∷ rest) = installs-owner_closed rest

installs-data_plane_failed : (ids : List Text) → installs (map data_plane_failed ids) ≡ []
unfolding installs
installs-data_plane_failed [] = refl
installs-data_plane_failed (s ∷ rest) = installs-data_plane_failed rest

installs-on_close :
    (raw ids : List Text) → installs (map destroyed raw ++ map data_plane_failed ids) ≡ []
unfolding installs
installs-on_close [] ids = installs-data_plane_failed ids
installs-on_close (s ∷ rest) ids = installs-on_close rest ids

module _ (to_base64 : List ℕ → Text) where
  installs-sent :
      (encoded : Option (List ℕ)) (s : Text) (refused : List Action)
      → installs refused ≡ []
      → installs
          (elim encoded [ none ↦ refused | some bytes ↦ send_stream_data to_base64 s bytes ∷ [] ])
        ≡ []
  unfolding installs
  installs-sent none s refused nothing = nothing
  installs-sent (some bytes) s refused nothing = refl

  installs-frame_to :
      (o : Owner) (type n : ℕ) (payload : List ℕ)
      → installs (frame_to to_base64 o type n payload) ≡ []
  unfolding installs
  installs-frame_to o type n payload =
      installs-sent (encode_public_tunnel_frame type n payload) o.stream_id (raised ∷ []) refl

  open_with_owner-IsQuiet :
      (s t : Text) (initial : List ℕ) (o : Option Owner) (c : ControlClient)
      → IsQuiet c (open_with_owner to_base64 s t initial o c)
  unfolding installs
  open_with_owner-IsQuiet s t initial none c = quiet _ refl refl
  open_with_owner-IsQuiet s t initial (some o) c =
      quiet (link_stream s t o c, _) refl
        (installs-frame_to o PublicFrames.stream_open o.next_stream_id initial)

  open_target-IsQuiet :
      (s : Text) (text : Option Text) (target : Option StreamTarget) (c : ControlClient)
      → IsQuiet c (open_target to_base64 s text target c)
  unfolding installs open_target open_public_stream open_owner
  open_target-IsQuiet s text none c = quiet _ refl refl
  open_target-IsQuiet s text (some (public_tunnel_owner t)) c = quiet _ refl refl
  open_target-IsQuiet s text (some (public_tunnel_stream t initial)) c =
      open_with_owner-IsQuiet s t initial (Map.get t c.owners) c
  open_target-IsQuiet s text (some data_plane) c = quiet _ refl refl
  open_target-IsQuiet s text (some (raw_tunnel host port)) c = quiet _ refl refl

  pub on_stream_open-IsQuiet :
      (from_base64 : Text → List ℕ) (json : JsonCodec) (m : StreamOpenMessage) (c : ControlClient)
      → IsQuiet c (on_stream_open to_base64 from_base64 json m c)
  unfolding installs on_stream_open
  on_stream_open-IsQuiet from_base64 json m c =
      if-IsQuiet (Option.get_or m.target [] == codes "proxy-session") (quiet _ refl refl)
        (open_target-IsQuiet m.stream_id m.target (parse_stream_target from_base64 json m.target) c)

  owner_frame_for-IsQuiet :
      (type : ℕ) (payload : List ℕ) (s : Option Text) (c : ControlClient)
      → IsQuiet c (owner_frame_for to_base64 type payload s c)
  unfolding installs owner_frame_for
  owner_frame_for-IsQuiet type payload none c = quiet _ refl refl
  owner_frame_for-IsQuiet type payload (some s) c = if-IsQuiet (s == []) (quiet _ refl refl) (
      if-IsQuiet (type == PublicFrames.stream_data) (quiet _ refl refl) (
        if-IsQuiet (type == PublicFrames.stream_end) (quiet _ (cleanup_update s c) refl) (
          if-IsQuiet (type == PublicFrames.stream_reset) (quiet _ (cleanup_update s c) refl)
            (quiet _ refl refl))))

  on_owner_frame-IsQuiet :
      (o : Owner) (frame : Option PublicTunnelFrame) (c : ControlClient)
      → IsQuiet c (on_owner_frame to_base64 o frame c)
  unfolding installs on_owner_frame
  on_owner_frame-IsQuiet o none c = quiet _ refl refl
  on_owner_frame-IsQuiet o (some frame) c =
      if-IsQuiet (frame.type == PublicFrames.ping)
        (quiet _ refl (installs-frame_to o PublicFrames.pong 0 []))
        (if-IsQuiet (frame.type == PublicFrames.pong) (quiet _ refl refl)
          (owner_frame_for-IsQuiet frame.type frame.payload _ c))

  on_linked_data-IsQuiet :
      (s : Text) (l : Link) (payload : List ℕ) (o : Option Owner) (c : ControlClient)
      → IsQuiet c (on_linked_data to_base64 s l payload o c)
  unfolding installs on_linked_data
  on_linked_data-IsQuiet s l payload none c = quiet _ (cleanup_update s c) refl
  on_linked_data-IsQuiet s l payload (some o) c =
      quiet _ refl (installs-frame_to o PublicFrames.stream_data l.owner_stream_id payload)

  on_stream_bytes-IsQuiet :
      (s : Text) (bytes : List ℕ) (o : Option (Text × Owner)) (l : Option Link) (c : ControlClient)
      → IsQuiet c (on_stream_bytes to_base64 s bytes o l c)
  unfolding installs
  on_stream_bytes-IsQuiet s bytes (some (t, o)) l c =
      on_owner_frame-IsQuiet o (decode_public_tunnel_frame bytes) c
  on_stream_bytes-IsQuiet s bytes none (some l) c =
      on_linked_data-IsQuiet s l bytes (Map.get l.tunnel_id c.owners) c
  on_stream_bytes-IsQuiet s bytes none none c =
      if-IsQuiet (includes s c.raw_streams) (quiet _ refl refl)
        (if-IsQuiet (includes s c.data_plane_streams) (quiet _ refl refl) (quiet _ refl refl))

  pub on_stream_data-IsQuiet :
      (from_base64 : Text → List ℕ) (m : StreamDataMessage) (c : ControlClient)
      → IsQuiet c (on_stream_data to_base64 from_base64 m c)
  unfolding on_stream_data
  on_stream_data-IsQuiet from_base64 m c =
      on_stream_bytes-IsQuiet m.stream_id (from_base64 m.data_text)
        (find_owner m.stream_id c.owners) (Map.get m.stream_id c.public_streams) c

  reset_sent-IsQuiet :
      (s : Text) (o : Owner) (encoded : Option (List ℕ)) (c : ControlClient)
      → IsQuiet c (reset_sent to_base64 s o encoded c)
  unfolding installs
  reset_sent-IsQuiet s o none c = quiet _ refl refl
  reset_sent-IsQuiet s o (some bytes) c = quiet _ (cleanup_update s c) refl

  close_linked-IsQuiet :
      (s : Text) (l : Link) (o : Option Owner) (c : ControlClient)
      → IsQuiet c (close_linked to_base64 s l o c)
  unfolding installs
  close_linked-IsQuiet s l none c = quiet _ (cleanup_update s c) refl
  close_linked-IsQuiet s l (some o) c =
      reset_sent-IsQuiet s o
        (encode_public_tunnel_frame PublicFrames.stream_reset l.owner_stream_id []) c

  close_stream-IsQuiet :
      (s : Text) (o : Option (Text × Owner)) (l : Option Link) (c : ControlClient)
      → IsQuiet c (close_stream to_base64 s o l c)
  unfolding installs close_owner
  close_stream-IsQuiet s (some (t, o)) l c =
      quiet _ (drop_streams_update o.server_to_owner c) (installs-owner_closed o.server_to_owner)
  close_stream-IsQuiet s none (some l) c = close_linked-IsQuiet s l (Map.get l.tunnel_id c.owners) c
  close_stream-IsQuiet s none none c =
      if-IsQuiet (includes s c.data_plane_streams) (quiet _ refl refl)
        (if-IsQuiet (includes s c.raw_streams) (quiet _ refl refl) (quiet _ refl refl))

  pub on_stream_close-IsQuiet :
      (m : StreamCloseMessage) (c : ControlClient) → IsQuiet c (on_stream_close to_base64 m c)
  unfolding on_stream_close
  on_stream_close-IsQuiet m c =
      close_stream-IsQuiet m.stream_id (find_owner m.stream_id c.owners)
        (Map.get m.stream_id c.public_streams) c

pub on_socket_close-IsQuiet : (s : Text) (c : ControlClient) → IsQuiet c (on_socket_close s c)
unfolding installs on_socket_close
on_socket_close-IsQuiet s c =
    if-IsQuiet (includes s c.raw_streams) (quiet _ refl refl) (quiet _ refl refl)

pub on_close-IsQuiet : (c : ControlClient) → IsQuiet c (on_close c)
unfolding on_close
on_close-IsQuiet c = quiet _ refl (installs-on_close c.raw_streams c.data_plane_streams)
