-- ===== src/Suite/Tunnel/Datagrams.antt =====
-- The end-to-end test of UDP replies. A local source is the number of its port; no datagram is lost.
use rust_tunnel.Base.{
  ℕ, ◌≡◌, refl, Bool, true, false, ◌&&◌, ◌==◌, List, [], ◌∷◌, Option, none, some, if◌then◌else◌,
  codes, ℕ_discrete,
}
use rust_tunnel.Suite.{same}
use rust_tunnel.Suite.Tunnel.{mapped, live_tunnel, tasks_of, round_trip, over, client_id}
use rust_tunnel.Framing.{encode_datagram, decode_datagram}
use rust_tunnel.Config.Types.{PortMap}
use rust_tunnel.Connect.Forward.{Task, accept_tcp, pump_udp_out, pump_udp_in, reaper}
use rust_tunnel.Connect.Sessions
use rust_tunnel.Connect.Sessions.{Sessions, no_sessions, id_for, reply_route, send_to}
use rust_tunnel.Serve.Sessions.{touch, open_session}
use rust_tunnel.Serve.Pump.{
  PumpState, Phase, reading, opening, at_start, receive, on_datagram, on_opened, on_reply,
}

unfoldable source_eq : Discrete (ℕ × ℕ)
unfolding ℕ_discrete
source_eq = hlevel ℕ_discrete

-- The forwarder of the UDP listener on a local port, with its socket.
udp_listening_on : ℕ → List Task → Option (ℕ × PortMap)
udp_listening_on port [] = none
udp_listening_on port (pump_udp_out sock m ∷ ts) =
    let rest = udp_listening_on port ts in if m.local == port then some (sock, m) else rest
udp_listening_on port (accept_tcp sock m ∷ ts) = udp_listening_on port ts
udp_listening_on port (pump_udp_in ∷ ts) = udp_listening_on port ts
udp_listening_on port (reaper ∷ ts) = udp_listening_on port ts

-- The session table of one side, the pump of the other, and the replies on their way back.
record Ends : Type 0 where
  near : Sessions ℕ
  far : PumpState ℕ
  replies : List (List ℕ)

-- The far side opens the session that it was asked for; the echo service answers on its socket.
abbrev echo : Phase → Ends → Ends
echo reading e = e
echo (opening id port payload) e = record e {
  far = on_reply ℕ_discrete client_id (on_opened ℕ_discrete client_id e.far id port id 0) id 0;
  replies = encode_datagram id port payload ∷ e.replies;
}

-- A source sends a payload to the local port.
send : ℕ × PortMap → ℕ → List ℕ → Ends → Ends
send (sock, m) source payload e =
    elim (Sessions.pump_udp_out source_eq e.near source m.remote sock payload 0) [
      | none ↦ e
      | some (dg, near) ↦
          let far = on_datagram ℕ_discrete client_id e.far dg 0 in
          echo far.phase (record e { near = near; far = far })
    ]

-- A datagram that comes back is sent on to the source, with the payload.
abbrev goes_to : ℕ → List ℕ → Ends → List ℕ → Bool
goes_to source payload e dg = elim (Sessions.pump_udp_in e.near dg 0).0 [
  | send_to sock src bytes ↦ src == source && same bytes payload
  | _ ↦ false
]

abbrev both_answered : ℕ → ℕ → Ends → List (List ℕ) → Bool
both_answered one two e (for_two ∷ for_one ∷ []) =
    goes_to one (codes "one") e for_one && goes_to two (codes "two") e for_two
both_answered one two e _ = false

udp_replies_reach_the_correct_local_source : ℕ → ℕ → ℕ → ℕ → Bool
udp_replies_reach_the_correct_local_source remote local one two =
    over
      (live_tunnel (record { tcp_ports = []; udp_ports = remote ∷ [] }) []
        (mapped local remote ∷ []))
      (λ live. elim (udp_listening_on local (tasks_of live.connecting.phase)) [
        | none ↦ false
        | some l ↦
            let start : Ends = record {
              near = no_sessions;
              far = at_start live.serving.config;
              replies = [];
            } in
            let e = send l two (codes "two") (send l one (codes "one") start) in
            both_answered one two e e.replies
      ])

replies_test : udp_replies_reach_the_correct_local_source 9000 7000 4001 4002 ≡ true
unfolding udp_replies_reach_the_correct_local_source send udp_listening_on live_tunnel round_trip
    source_eq Sessions.pump_udp_out Sessions.pump_udp_in id_for reply_route on_datagram receive
    on_opened on_reply touch open_session encode_datagram decode_datagram
replies_test = refl
