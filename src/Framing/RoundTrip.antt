-- ===== src/Framing/RoundTrip.antt =====
-- The encoders of proto.rs against its decoders.
use rust_tunnel.Base.{ℕ, ◌<◌, ◌≡◌, ◌↔◌, List, [], ◌∷◌, ◌++◌, none, some, arith, length, All}
use rust_tunnel.Framing.{
  IsByte, IsU16, IsU32, datagram_header, write_target_port, read_target_port, encode_datagram,
  decode_datagram,
}

-- A datagram that was encoded from a `u32` session and a `u16` port is decoded to the same session,
-- port and payload.
pub decode_datagram-encode_datagram :
    (session port : ℕ) (payload : List ℕ)
    → IsU32 session
    → IsU16 port
    → decode_datagram (encode_datagram session port payload) ≡ some (session, port, payload)
unfolding decode_datagram encode_datagram
decode_datagram-encode_datagram session port payload hs hp = ground arith

pub decode_datagram-eq-none :
    (dg : List ℕ) → (decode_datagram dg ≡ none) ↔ (length dg < datagram_header)
unfolding decode_datagram
decode_datagram-eq-none dg = ground arith

-- Only one byte string decodes to a session, a port and a payload: its encoding. The decoded session
-- and port are in the ranges of their types.
pub encode_datagram-decode_datagram :
    (dg payload : List ℕ) (session port : ℕ)
    → All IsByte dg
    → decode_datagram dg ≡ some (session, port, payload)
    → (encode_datagram session port payload ≡ dg) × IsU32 session × IsU16 port
unfolding decode_datagram encode_datagram
encode_datagram-decode_datagram (a ∷ b ∷ c ∷ d ∷ e ∷ f ∷ dg) payload session port bytes h =
    ground arith
encode_datagram-decode_datagram dg payload session port bytes h = cc

pub read_target_port-write_target_port :
    (port : ℕ) (rest : List ℕ)
    → IsU16 port
    → read_target_port (write_target_port [] port ++ rest) ≡ some (port, rest)
unfolding read_target_port write_target_port
read_target_port-write_target_port port rest h = ground arith
