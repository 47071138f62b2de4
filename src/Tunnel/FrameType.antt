-- ===== src/Tunnel/FrameType.antt =====
-- `FRAME_TYPE` of src/tunnel/frames.ts.
use consensus_node.Base.{ℕ}

abbrev pub handshake : ℕ
handshake = 0x01

abbrev pub data_frame : ℕ
data_frame = 0x10

abbrev pub ping : ℕ
ping = 0x20

abbrev pub pong : ℕ
pong = 0x21

abbrev pub close : ℕ
close = 0x30

abbrev pub error : ℕ
error = 0x31
