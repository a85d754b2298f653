-- ===== src/Framing.antt =====
-- proto.rs: the wire framing. A byte string is a list of numbers below 256. A QUIC stream is the
-- bytes written to it; a receiving stream is the bytes that are still to come before its end.
pub mod RoundTrip
use rust_tunnel.Base.{
  ℕ, ◌+◌, ◌*◌, ◌/◌, ◌%◌, ◌^◌, ◌<◌, List, [], ◌∷◌, ◌++◌, Option, none, some, ltb, length, take, drop,
  if◌then◌else◌, All,
}

abbrev pub IsByte : ℕ → Type 0
IsByte b = b < 256

abbrev pub IsU16 : ℕ → Type 0
IsU16 n = n < 2 ^ 16

abbrev pub IsU32 : ℕ → Type 0
IsU32 n = n < 2 ^ 32

abbrev pub datagram_header : ℕ
datagram_header = 6

-- `u16::to_be_bytes`, `u32::to_be_bytes`
abbrev pub u16_to_be_bytes : ℕ → List ℕ
u16_to_be_bytes n = n / 256 % 256 ∷ n % 256 ∷ []

abbrev pub u32_to_be_bytes : ℕ → List ℕ
u32_to_be_bytes n = n / 2 ^ 24 % 256 ∷ n / 2 ^ 16 % 256 ∷ n / 2 ^ 8 % 256 ∷ n % 256 ∷ []

-- `from_be_bytes`, for any width.
abbrev pub from_be_bytes_onto : ℕ → List ℕ → ℕ
from_be_bytes_onto acc [] = acc
from_be_bytes_onto acc (b ∷ bs) = from_be_bytes_onto (acc * 256 + b) bs

abbrev pub from_be_bytes : List ℕ → ℕ
from_be_bytes bs = from_be_bytes_onto 0 bs

-- A TCP data stream opens with the target port on the serving side.
unfoldable pub write_target_port : List ℕ → ℕ → List ℕ
write_target_port s port = s ++ u16_to_be_bytes port

-- `none` where the stream ends before the two bytes are there (`read_exact` fails). The second
-- part is what is left on the stream.
unfoldable pub read_target_port : List ℕ → Option (ℕ × List ℕ)
read_target_port s = if ltb (length s) 2 then none else some (from_be_bytes (take 2 s), drop 2 s)

unfoldable pub encode_datagram : ℕ → ℕ → List ℕ → List ℕ
encode_datagram session port payload = u32_to_be_bytes session ++ (u16_to_be_bytes port ++ payload)

-- `dg[a..b]` is `take (b - a) (drop a dg)`.
unfoldable pub decode_datagram : List ℕ → Option (ℕ × ℕ × List ℕ)
decode_datagram dg =
    if ltb (length dg) datagram_header
    then none
    else some
        (from_be_bytes (take 4 dg), from_be_bytes (take 2 (drop 4 dg)), drop datagram_header dg)
