-- ===== src/Examples/Tunnel.antt =====
-- Both ends of the UDP tunnel at concrete inputs: a query opens session 1, and is sent once more.
use rust_tunnel.Base.{
  ℕ, ◌≡◌, refl, inl, some, List, [], ◌∷◌, Any, ℕ_discrete, arith, get, insert, remove, retain,
}
use rust_tunnel.Framing.{encode_datagram, decode_datagram}
use rust_tunnel.Config.Grants.{
  granted, peer, peer_granted, may_reach, insert_sorted, sort, dedup, dedup_after,
}
use rust_tunnel.Connect.Sessions.{
  Sessions, no_sessions, id_for, reap, pump_udp_out, pump_udp_in, reply_route, send_to,
}
use rust_tunnel.Serve.Sessions.{Socket, Session, touch, open_session}
use rust_tunnel.Serve.Pump.{
  at_start, receive, on_datagram, on_opened, pump_replies, to_known, opening,
}
use rust_tunnel.Tunnel.{
  Sent, bytes_of, Tunnel, opening_tunnel, Run, start, onward, sent, arrived, opened, answered,
  near_swept,
}
use rust_tunnel.Tunnel.Issued.{key_of}
use rust_tunnel.Tunnel.Delivery.{handed, Run-delivers, Run-replies}
use rust_tunnel.Tunnel.Respawn.{respawn_lem}
use rust_tunnel.Examples.Connect.{pair_eq}
use rust_tunnel.Examples.Samples.{sample}
use rust_tunnel.Examples.Serve.{two_ports, dns_session, port_54_granted}

abbrev asked : Sent ℕ
asked = record { src = 4000; port = 53; id = 1; payload = 1 ∷ 2 ∷ [] }

abbrev near : Sessions ℕ
near = record {
  by_key = ((4000, 53), 1) ∷ [];
  by_id = (1, record { src = 4000; sock = 3; last = 100 }) ∷ [];
  next_id = 1;
}

abbrev one_sent : Tunnel ℕ ℕ
one_sent = record (opening_tunnel sample) { near = near; wire = asked ∷ [] }

abbrev one_arrived : Tunnel ℕ ℕ
one_arrived = record one_sent {
  far = on_datagram ℕ_discrete 7 (at_start sample) (bytes_of asked) 101;
}

abbrev one_open : Tunnel ℕ ℕ
one_open = record one_arrived { far = on_opened ℕ_discrete 7 one_arrived.far 1 53 99 102 }

abbrev dns_end : Socket
dns_end = record { handle = 99; target = 53 }

minted : id_for pair_eq no_sessions 4000 53 3 100 ≡ some (1, near)
unfolding id_for get insert remove pair_eq ℕ_discrete
minted = refl

opens : one_arrived.far.phase ≡ opening 1 53 (1 ∷ 2 ∷ [])
unfolding on_datagram receive decode_datagram encode_datagram may_reach granted peer peer_granted
    insert_sorted sort dedup dedup_after touch get ℕ_discrete
opens = refl

trace : Run pair_eq ℕ_discrete 7 (opening_tunnel sample) one_open
trace =
    onward
      (onward (onward start (sent (opening_tunnel sample) asked near 3 100 (omega arith) minted))
        (arrived one_sent asked 101 (inl refl) refl))
      (opened one_arrived 1 53 (1 ∷ 2 ∷ []) 99 102 opens)

found_again :
    handed (receive ℕ_discrete 7 one_open.far.config one_open.far.sessions (bytes_of asked) 103).0
    ≡ some (53, 1 ∷ 2 ∷ [])
unfolding on_opened open_session on_datagram receive decode_datagram encode_datagram may_reach
    granted peer peer_granted insert_sorted sort dedup dedup_after touch get ℕ_discrete insert
found_again = refl

Run-delivers_example : (◌≡◌ {A = ℕ} 53 53) × (◌≡◌ {A = List ℕ} (1 ∷ 2 ∷ []) (1 ∷ 2 ∷ []))
unfolding trace
Run-delivers_example =
    Run-delivers pair_eq ℕ_discrete 7 sample one_open asked 103 53 (1 ∷ 2 ∷ []) trace
      (((tt, omega arith), omega arith), omega arith) (inl refl) found_again

abbrev open_session_one : Session
open_session_one = record { sock = dns_end; last = 102; port = 53 }

session_there : get ℕ_discrete one_open.far.sessions 1 ≡ some open_session_one
unfolding on_opened open_session on_datagram receive decode_datagram encode_datagram may_reach
    granted peer peer_granted insert_sorted sort dedup dedup_after touch get ℕ_discrete insert
session_there = refl

-- The service answers, and a sweep comes before the answer does.
abbrev one_answered : Tunnel ℕ ℕ
one_answered = record one_open {
  far = (pump_replies ℕ_discrete 7 one_open.far 1 53 (9 ∷ []) 103).0;
}

abbrev one_swept : Tunnel ℕ ℕ
one_swept = record one_answered { near = reap pair_eq near 103 }

meanwhile : Run pair_eq ℕ_discrete 7 one_open one_swept
meanwhile =
    onward (onward start (answered one_open 1 53 103 (9 ∷ []))) (near_swept one_answered 103)

reply_back :
    (pump_udp_in one_swept.near (pump_replies ℕ_discrete 7 one_open.far 1 53 (9 ∷ []) 103).1 104).0
    ≡ send_to 3 4000 (9 ∷ [])
unfolding pump_udp_in reply_route decode_datagram encode_datagram get reap retain ℕ_discrete
reply_back = refl

Run-replies_example :
    Any (λ a. (a.id ≡ 1) × (key_of pair_eq a ≡ (4000, 53))) one_open.wire
    × (◌≡◌ {A = List ℕ} (9 ∷ []) (9 ∷ []))
unfolding trace meanwhile
Run-replies_example =
    Run-replies pair_eq ℕ_discrete 7 sample one_open one_swept 1 103 104 3 open_session_one 4000
      (9 ∷ []) (9 ∷ []) trace meanwhile (((tt, omega arith), omega arith), omega arith)
      ((tt, omega arith), omega arith) session_there reply_back

-- Session 1 is a socket to port 53, and a new source asks for port 54 after the forwarders were spawned
-- again.
old_there : get ℕ_discrete ((1, dns_session) ∷ []) 1 ≡ some dns_session
unfolding get ℕ_discrete
old_there = refl

respawn_lem_example :
    (dg : List ℕ) × (after : Sessions ℕ) × (pump_udp_out pair_eq no_sessions 5000 54 3 (3 ∷ []) 200
      ≡ some (dg, after))
    × ((receive ℕ_discrete 7 two_ports ((1, dns_session) ∷ []) dg 201).0
        ≡ to_known dns_session.sock (3 ∷ []))
respawn_lem_example =
    respawn_lem pair_eq ℕ_discrete 7 two_ports ((1, dns_session) ∷ []) dns_session 5000 54 3 200 201
      (3 ∷ []) old_there (omega arith) port_54_granted
