-- ===== src/Clients/Control/State.antt =====
-- The state of startControlClient in src/clients/control-client.ts: the streams that are open on the
-- control tunnel, and the prepared update. A handler runs to its next wait for something outside, and
-- what it sends or starts is a list of actions; the log is left out.
use consensus_node.Base.{
  ℕ, Text, text_eq, nat_eq, List, [], ◌∷◌, ◌++◌, Option, none, some, ◌==◌, includes, if◌then◌else◌,
  keep, not,
}
use consensus_node.Tunnel.Messages.Kinds.{Payload}
use consensus_node.Releases.Update.{ReleaseManifest}

-- A public tunnel: the stream of its owner, and the numbers that it gives to the server's streams.
pub record Owner : Type 0 where
  pub stream_id : Text
  pub next_stream_id : ℕ
  pub owner_to_server : List (ℕ × Text)
  pub server_to_owner : List (Text × ℕ)

pub record Link : Type 0 where
  pub tunnel_id : Text
  pub owner_stream_id : ℕ

pub record PreparedUpdate : Type 0 where
  pub update_id : Text
  pub manifest : ReleaseManifest
  pub artifact_path : Text
  pub sha256 : Text

-- A socket and a data-plane stream are known by the id of the tunnel's stream that opened them.
pub record ControlClient : Type 0 where
  pub active_requests : ℕ
  pub active_streams : List Text
  pub raw_streams : List Text
  pub owners : List (Text × Owner)
  pub public_streams : List (Text × Link)
  pub data_plane_streams : List Text
  pub prepared_update : Option PreparedUpdate

-- `raised` is an error that the handler throws.
pub data Action : Type 0 where
  sent : Payload → Action
  raised : Action
  connected : Text → Text → ℕ → Action
  written : Text → List ℕ → Action
  destroyed : Text → Action
  data_plane_started : Text → Action
  data_plane_pushed : Text → List ℕ → Action
  data_plane_failed : Text → Action
  proxy_started : Option Text → Action
  session_started : Text → List ℕ → Action
  eval_started : Option Text → Text → Action
  prepare_started : Text → ReleaseManifest → Action
  apply_scheduled : Text → ℕ → Action
  install_started : PreparedUpdate → Action
  closed : ℕ → Action
  exited : ℕ → Action

abbrev pub Handled : Type 0
Handled = ControlClient × List Action

unfoldable pub start_state : ControlClient
start_state = record {
  active_requests = 0;
  active_streams = [];
  raw_streams = [];
  owners = [];
  public_streams = [];
  data_plane_streams = [];
  prepared_update = none;
}

-- `set.add(k)` and `set.delete(k)`
unfoldable pub add : Text → List Text → List Text
add k s = if includes k s then s else s ++ (k ∷ [])

unfoldable pub remove : Text → List Text → List Text
remove k s = keep (λ j. not (j == k)) s

-- `Array.from(owners.entries()).find(([, owner]) => owner.streamId === streamId)`
unfoldable pub find_owner : Text → List (Text × Owner) → Option (Text × Owner)
find_owner stream_id [] = none
find_owner stream_id ((tunnel_id, owner) ∷ rest) =
    if owner.stream_id == stream_id then some (tunnel_id, owner) else find_owner stream_id rest
