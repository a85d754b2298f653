-- ===== src/Suite/Tunnel/Ports.antt =====
-- The end-to-end tests of TCP ports: offered, not offered, offered later, and withdrawn.
use rust_tunnel.Base.{
  ℕ, ◌≡◌, refl, Bool, true, false, not, ◌&&◌, ◌==◌, List, [], ◌∷◌, ◌++◌, none, some, map, filter,
  codes, ℕ_discrete,
}
use rust_tunnel.Suite.{same}
use rust_tunnel.Suite.Tunnel.{
  Offered, Live, mapped, on, live_tunnel, tasks_of, listening_on, echoed, round_trip, edit_serving,
  over, came_back, came_back_empty, client_id,
}
use rust_tunnel.Config.Types.{tcp, Offer, Config}
use rust_tunnel.Config.Grants.{contains}
use rust_tunnel.Connect.Forward.{accept_loop}
use rust_tunnel.Serve.Streams.{serve_stream}

abbrev only_tcp : List ℕ → Offered
only_tcp ports = record { tcp_ports = ports; udp_ports = [] }

tcp_round_trip_is_byte_exact : ℕ → ℕ → List ℕ → Bool
tcp_round_trip_is_byte_exact remote local payload =
    over (live_tunnel (only_tcp (remote ∷ [])) (mapped local remote ∷ []) [])
      (λ live. came_back payload (round_trip (remote ∷ []) client_id live local payload))

-- The clients of one listener, each with a payload.
round_trips : List ℕ → Live → ℕ → List (List ℕ) → List (List ℕ)
round_trips services live port payloads =
    elim (listening_on port (tasks_of live.connecting.phase)) [
      | none ↦ []
      | some m ↦
          map
            (λ stream.
              echoed
                (serve_stream ℕ_discrete (contains services) live.serving.config client_id stream))
            (accept_loop m (map some payloads))
    ]

abbrev both_back : List ℕ → List ℕ → List (List ℕ) → Bool
both_back red blue (a ∷ b ∷ []) = same a red && same b blue
both_back red blue _ = false

concurrent_tcp_connections_do_not_interleave : ℕ → ℕ → List ℕ → List ℕ → Bool
concurrent_tcp_connections_do_not_interleave remote local red blue =
    over (live_tunnel (only_tcp (remote ∷ [])) (mapped local remote ∷ []) [])
      (λ live. both_back red blue (round_trips (remote ∷ []) live local (red ∷ blue ∷ [])))

unoffered_tcp_port_is_refused : ℕ → ℕ → ℕ → Bool
unoffered_tcp_port_is_refused offered unoffered local =
    over (live_tunnel (only_tcp (offered ∷ [])) (mapped local unoffered ∷ []) []) (λ live.
      came_back_empty
        (round_trip (offered ∷ unoffered ∷ []) client_id live local (codes "knock knock")))

abbrev with_offer : ℕ → Config ℕ → Config ℕ
with_offer port c = record c {
  serve = record (c.serve) {
    shared = c.serve.shared ++ record (on tcp port) { name = codes "added live" } ∷ [];
  };
}

offering_a_port_at_runtime_makes_it_reachable : ℕ → ℕ → Bool
offering_a_port_at_runtime_makes_it_reachable remote local =
    let services = remote ∷ [] in
    over (live_tunnel (only_tcp []) (mapped local remote ∷ []) []) (λ before.
      came_back_empty (round_trip services client_id before local (codes "before"))
      && over (edit_serving (with_offer remote) before) (λ after.
        came_back (codes "after") (round_trip services client_id after local (codes "after"))))

abbrev without_port : ℕ → Config ℕ → Config ℕ
without_port port c = record c {
  serve = record (c.serve) { shared = filter (λ (o : Offer). not (o.port == port)) c.serve.shared };
}

withdrawing_a_port_at_runtime_refuses_new_streams : ℕ → ℕ → Bool
withdrawing_a_port_at_runtime_refuses_new_streams remote local =
    let services = remote ∷ [] in
    over (live_tunnel (only_tcp (remote ∷ [])) (mapped local remote ∷ []) []) (λ before.
      came_back (codes "hello") (round_trip services client_id before local (codes "hello"))
      && over (edit_serving (without_port remote) before)
          (λ after. came_back_empty (round_trip services client_id after local (codes "knock"))))

byte_exact_test : tcp_round_trip_is_byte_exact 9000 7000 (codes "0123456789") ≡ true
unfolding tcp_round_trip_is_byte_exact live_tunnel round_trip
byte_exact_test = refl

interleave_test :
    concurrent_tcp_connections_do_not_interleave 9000 7000
      (0xa5 ∷ 0xa5 ∷ 0xa5 ∷ [])
      (0x5a ∷ 0x5a ∷ [])
    ≡ true
unfolding concurrent_tcp_connections_do_not_interleave round_trips round_trip accept_loop
    live_tunnel
interleave_test = refl

unoffered_test : unoffered_tcp_port_is_refused 9000 9001 7000 ≡ true
unfolding unoffered_tcp_port_is_refused live_tunnel round_trip
unoffered_test = refl

offering_test : offering_a_port_at_runtime_makes_it_reachable 9000 7000 ≡ true
unfolding offering_a_port_at_runtime_makes_it_reachable live_tunnel round_trip edit_serving
offering_test = refl

withdrawing_test : withdrawing_a_port_at_runtime_refuses_new_streams 9000 7000 ≡ true
unfolding withdrawing_a_port_at_runtime_refuses_new_streams live_tunnel round_trip edit_serving
withdrawing_test = refl
