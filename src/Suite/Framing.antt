-- ===== src/Suite/Framing.antt =====
-- The test of proto.rs.
use rust_tunnel.Base.{
  ℕ, ◌≡◌, refl, Bool, true, false, not, ◌&&◌, ◌==◌, List, [], ◌∷◌, Option, none, some, is_some,
  codes,
}
use rust_tunnel.Suite.{same, all_hold}
use rust_tunnel.Framing.{encode_datagram, decode_datagram}

abbrev decodes_to : ℕ → ℕ → List ℕ → Option (ℕ × ℕ × List ℕ) → Bool
decodes_to session port payload none = false
decodes_to session port payload (some (s, p, bytes)) =
    s == session && p == port && same bytes payload

-- `vec![0u8; n]` for the runts of the test.
datagram_round_trips_and_rejects_runts : Bool
datagram_round_trips_and_rejects_runts = all_hold (
    decodes_to 7 51820 (codes "payload")
      (decode_datagram (encode_datagram 7 51820 (codes "payload")))
    ∷ decodes_to 1 2 [] (decode_datagram (encode_datagram 1 2 []))
    ∷ not (is_some (decode_datagram []))
    ∷ not (is_some (decode_datagram (0 ∷ [])))
    ∷ not (is_some (decode_datagram (0 ∷ 0 ∷ 0 ∷ 0 ∷ 0 ∷ [])))
    ∷ [])

datagram_test : datagram_round_trips_and_rejects_runts ≡ true
unfolding datagram_round_trips_and_rejects_runts decode_datagram encode_datagram
datagram_test = refl
