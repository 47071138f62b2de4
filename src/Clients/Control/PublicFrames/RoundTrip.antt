-- ===== src/Clients/Control/PublicFrames/RoundTrip.antt =====
-- The frames of a public tunnel are read as they were written.
use consensus_node.Base.{
  ℕ, ◌^◌, ◌≤◌, ◌<◌, ◌-◌, List, ◌++◌, some, length, ltb, drop, ◌≡◌, ◌∙◌, refl, ap, arith,
  length-append, le→leb, drop_prefix, false,
}
use consensus_node.Base.Bytes.{write_be, read_be, length-write_be, read_be-write_be}
use consensus_node.Base.Slices.{subarray, subarray_here, subarray_past, drop-drop}
use consensus_node.Clients.Control.PublicFrames.{
  encode_public_tunnel_frame, decode_public_tunnel_frame,
}

module _ (type stream_id : ℕ) (payload : List ℕ) where
  abbrev written : List ℕ
  written = write_be 1 type ++ (write_be 4 stream_id ++ payload)

  long_enough : ltb (length written) 5 ≡ false
  long_enough = ground (
    arith,
    length-append (write_be 1 type) (write_be 4 stream_id ++ payload),
    length-append (write_be 4 stream_id) payload,
    length-write_be 1 type,
    length-write_be 4 stream_id,
  )

  type_read : type < 256 → read_be (subarray written 0 1) ≡ type
  type_read t =
      ap read_be (subarray_here 1 (write_be 1 type) _ (length-write_be 1 type))
      ∙ read_be-write_be 1 type t

  stream_id_read : stream_id ≤ 2 ^ 32 - 1 → read_be (subarray written 1 5) ≡ stream_id
  stream_id_read s =
      ap read_be (
        subarray_past 1 0 4 (write_be 1 type) (write_be 4 stream_id ++ payload)
          (length-write_be 1 type)
        ∙ subarray_here 4 (write_be 4 stream_id) payload (length-write_be 4 stream_id))
      ∙ read_be-write_be 4 stream_id (omega arith)

  payload_read : drop 5 written ≡ payload
  payload_read =
      drop-drop 1 4 written
      ∙ (ap (drop 4) (drop_prefix 1 (write_be 1 type) _ (length-write_be 1 type))
          ∙ drop_prefix 4 (write_be 4 stream_id) payload (length-write_be 4 stream_id))

-- A frame with a one-byte type and a stream id of 32 bits is written, and what is written is read as
-- the same type, stream id and payload.
pub decode-encode_public_tunnel_frame :
    (type stream_id : ℕ) (payload : List ℕ)
    → type < 256
    → stream_id ≤ 2 ^ 32 - 1
    → (bytes : List ℕ) × (encode_public_tunnel_frame type stream_id payload ≡ some bytes)
      × (decode_public_tunnel_frame bytes
          ≡ some (record { type = type; stream_id = stream_id; payload = payload }))
unfolding encode_public_tunnel_frame decode_public_tunnel_frame
decode-encode_public_tunnel_frame type stream_id payload t s = (
  write_be 1 type ++ (write_be 4 stream_id ++ payload),
  rw (le→leb _ _ s) refl,
  rw
      (
        long_enough type stream_id payload,
        type_read type stream_id payload t,
        stream_id_read type stream_id payload s,
        payload_read type stream_id payload,
      )
      refl,
)
