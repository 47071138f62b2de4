-- ===== src/Clients/Control/PublicFrames.antt =====
-- The frames of a public tunnel in src/clients/control-client.ts: one byte of type, four of stream id,
-- and the payload.
pub mod RoundTrip
use consensus_node.Base.{
  ℕ, ◌^◌, ◌-◌, List, ◌++◌, Option, none, some, length, ltb, leb, drop, if◌then◌else◌,
}
use consensus_node.Base.Bytes.{write_be, read_be}
use consensus_node.Base.Slices.{subarray}

abbrev pub stream_open : ℕ
stream_open = 0x01

abbrev pub stream_data : ℕ
stream_data = 0x02

abbrev pub stream_end : ℕ
stream_end = 0x03

abbrev pub stream_reset : ℕ
stream_reset = 0x04

abbrev pub ping : ℕ
ping = 0x05

abbrev pub pong : ℕ
pong = 0x06

pub record PublicTunnelFrame : Type 0 where
  pub type : ℕ
  pub stream_id : ℕ
  pub payload : List ℕ

-- `writeUInt32BE` throws on a stream id that has more than 32 bits: `none`.
unfoldable pub encode_public_tunnel_frame : ℕ → ℕ → List ℕ → Option (List ℕ)
encode_public_tunnel_frame type stream_id payload =
    if leb stream_id (2 ^ 32 - 1)
    then some (write_be 1 type ++ (write_be 4 stream_id ++ payload))
    else none

unfoldable pub decode_public_tunnel_frame : List ℕ → Option PublicTunnelFrame
decode_public_tunnel_frame bytes =
    if ltb (length bytes) 5
    then none
    else some (record {
      type = read_be (subarray bytes 0 1);
      stream_id = read_be (subarray bytes 1 5);
      payload = drop 5 bytes;
    })
