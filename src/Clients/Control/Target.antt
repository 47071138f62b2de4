-- ===== src/Clients/Control/Target.antt =====
-- parseStreamTarget of src/clients/control-client.ts. A host or an id that is no text, which the code
-- takes as it comes, is left out.
use consensus_node.Base.{
  ℕ, Text, codes, text_eq, utf8, ◌&&◌, List, [], Option, none, some, ◌==◌, leb, if◌then◌else◌,
}
use consensus_node.Base.Int.{pos}
use consensus_node.Base.Json.{Json, num, str, obj, Fields, JsonCodec, as_text, lookup}

pub data StreamTarget : Type 0 where
  raw_tunnel : Text → ℕ → StreamTarget
  public_tunnel_owner : Text → StreamTarget
  public_tunnel_stream : Text → List ℕ → StreamTarget
  data_plane : StreamTarget

-- A text that is there and not empty.
abbrev pub truthy_text : Option Json → Option Text
truthy_text (some (str s)) = if s == [] then none else some s
truthy_text _ = none

-- `Number.isInteger(port) && port >= 1 && port <= 65535`
abbrev pub port_of : Option Json → Option ℕ
port_of (some (num (pos n))) = if leb 1 n && leb n 65_535 then some n else none
port_of _ = none

abbrev raw_target : Option Text → Option ℕ → Option StreamTarget
raw_target (some host) (some port) = some (raw_tunnel host port)
raw_target _ _ = none

abbrev owner_target : Option Text → Option StreamTarget
owner_target none = none
owner_target (some tunnel_id) = some (public_tunnel_owner tunnel_id)

abbrev stream_target : Option Text → List ℕ → Option StreamTarget
stream_target none initial_data = none
stream_target (some tunnel_id) initial_data = some (public_tunnel_stream tunnel_id initial_data)

module _ (from_base64 : Text → List ℕ) where
  abbrev initial_bytes : Option Text → List ℕ
  initial_bytes none = []
  initial_bytes (some data_text) = from_base64 data_text

  unfoldable pub target_of : Fields → Option StreamTarget
  target_of fs =
      let kind = as_text (lookup (codes "kind") fs) in
      let tunnel_id = truthy_text (lookup (codes "tunnel_id") fs) in
      elim kind [
        | none ↦ none
        | some k ↦
            if k == codes "raw-tunnel"
            then raw_target (truthy_text (lookup (codes "host") fs))
                (port_of (lookup (codes "port") fs))
            else if k == codes "public-tunnel-owner"
            then owner_target tunnel_id
            else if k == codes "public-tunnel-stream"
            then stream_target tunnel_id
                (initial_bytes (truthy_text (lookup (codes "initial_data") fs)))
            else if k == codes "data-plane"
            then some data_plane
            else none
      ]

  abbrev pub parsed_target : Option Json → Option StreamTarget
  parsed_target (some (obj fs)) = target_of fs
  parsed_target _ = none

  unfoldable pub parse_stream_target : JsonCodec → Option Text → Option StreamTarget
  parse_stream_target json none = none
  parse_stream_target json (some value) =
      if value == [] then none else parsed_target (json.parse (utf8 value))
