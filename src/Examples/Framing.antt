-- ===== src/Examples/Framing.antt =====
-- The framing at concrete inputs.
use rust_tunnel.Base.{◌≡◌, refl, some, none, [], ◌∷◌, arith}
use rust_tunnel.Framing.{encode_datagram, decode_datagram}
use rust_tunnel.Framing.RoundTrip.{decode_datagram-encode_datagram}

decode_datagram-encode_datagram_example :
    decode_datagram (encode_datagram 7 51820 (112 ∷ 97 ∷ [])) ≡ some (7, 51820, 112 ∷ 97 ∷ [])
decode_datagram-encode_datagram_example =
    decode_datagram-encode_datagram 7 51820 (112 ∷ 97 ∷ []) (omega arith) (omega arith)

runt : decode_datagram (1 ∷ 2 ∷ 3 ∷ 4 ∷ 5 ∷ []) ≡ none
unfolding decode_datagram
runt = refl
