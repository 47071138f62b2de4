-- ===== src/Tunnel/Client/Delivery.antt =====
-- A message from one end of a tunnel to the other, through src/tunnel/tunnel-client.ts,
-- src/tunnel/messages.ts and src/crypto/secure-channel.ts.
use consensus_node.Base.{◌≤◌, true, false, nat_eq, length, ◌≡◌}
use consensus_node.Base.Int.{pos, leb_ℤ}
use consensus_node.Base.Json.{Json}
use consensus_node.Tunnel.FrameType
use consensus_node.Tunnel.Frames.{max_u64}
use consensus_node.Crypto.Channel.{SecureSession}
use consensus_node.Tunnel.Client.{TunnelClient}

-- Two ends of a tunnel between which the next message gets through.
pub record Connected (from_session to_session : SecureSession) (sender receiver : TunnelClient)
    : Type 0 where
  pub same_key : to_session.receive_key ≡ from_session.send_key
  pub key_size : length from_session.send_key ≡ 32
  pub is_open : sender.is_open ≡ true
  pub u64 : sender.send_sequence ≤ max_u64
  pub behind : leb_ℤ (pos sender.send_sequence) receiver.last_receive_sequence ≡ false
