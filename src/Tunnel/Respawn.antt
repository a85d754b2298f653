-- ===== src/Tunnel/Respawn.antt =====
-- The forwarders spawned again on a connection that goes on: the connecting side starts a new session
-- table, and the serving side keeps the sessions of the old one.
use rust_tunnel.Base.{refl, ◌≡◌, ℕ, true, List, some, arith, get, ℕ_discrete}
use rust_tunnel.Framing.{IsU16}
use rust_tunnel.Framing.RoundTrip.{decode_datagram-encode_datagram}
use rust_tunnel.Config.Types.{Config, udp}
use rust_tunnel.Config.Grants.{may_reach}
use rust_tunnel.Connect.Sessions.{Sessions, no_sessions, id_for, pump_udp_out}
use rust_tunnel.Serve.Sessions.{Session, Sessions as FarSessions}
use rust_tunnel.Serve.Pump.{receive, to_known}
use rust_tunnel.Serve.Pump.Granted.{receive_other_port}

module _ {Addr Key : Type 0} (key_eq : Discrete (Addr × ℕ)) (id_eq : Discrete Key)
    (peer : Key) where
  -- When the connecting side starts a new session table while the serving side still has session 1,
  -- the first datagram of the new table, for whatever port, is handed to the socket of the old
  -- session, as long as the peer is granted the port that it names.
  pub respawn_lem :
      (c : Config Key) (far : FarSessions) (old : Session) (src : Addr) (port sock now later : ℕ)
      (payload : List ℕ)
      → get ℕ_discrete far 1 ≡ some old
      → IsU16 port
      → may_reach id_eq c peer udp port ≡ true
      → (dg : List ℕ) × (near : Sessions Addr) × (pump_udp_out key_eq no_sessions src port sock
            payload now
          ≡ some (dg, near))
        × ((receive id_eq peer c far dg later).0 ≡ to_known old.sock payload)
  unfolding pump_udp_out id_for get
  respawn_lem c far old src port sock now later payload found u16 may =
      let read = decode_datagram-encode_datagram 1 port payload (omega arith) u16 in
      (_, _, refl, receive_other_port id_eq peer c far _ later 1 port payload old read found may)
