-- ===== src/Tunnel.antt =====
-- Both ends of the UDP tunnel at once: the session table of connect.rs, the pump of serve.rs, and what is
-- on the connection between them. A datagram may be lost, come late, or come more than once.
pub mod Issued
pub mod Matched
pub mod Wire
pub mod Delivery
pub mod Respawn
pub mod Streams
use rust_tunnel.Base.{true, ◌≡◌, ℕ, ◌+◌, ◌^◌, ◌<◌, List, [], ◌∷◌, some, Any}
use rust_tunnel.Framing.{IsU16, encode_datagram}
use rust_tunnel.Config.Types.{Config}
use rust_tunnel.Connect.Sessions.{Sessions, no_sessions, id_for, reap, reply_route}
use rust_tunnel.Serve.Sessions
use rust_tunnel.Serve.Pump.{
  PumpState, at_start, reading, opening, on_datagram, on_change, on_opened, pump_replies,
}

-- A datagram of `pump_udp_out`, with the source that it is for.
pub record Sent (Addr : Type 0) : Type 0 where
  pub src : Addr
  pub port : ℕ
  pub id : ℕ
  pub payload : List ℕ

abbrev pub bytes_of : {Addr : Type 0} → Sent Addr → List ℕ
bytes_of a = encode_datagram a.id a.port a.payload

pub record Tunnel (Addr Key : Type 0) : Type 0 where
  pub near : Sessions Addr
  pub wire : List (Sent Addr)
  pub far : PumpState Key

module _ {Addr Key : Type 0} where
  -- A connection starts with both tables empty and nothing sent. The forwarders that are spawned then
  -- share one session table of the connecting side.
  abbrev pub opening_tunnel : Config Key → Tunnel Addr Key
  opening_tunnel c = record { near = no_sessions; wire = []; far = at_start c }

module _ {Addr Key : Type 0} (key_eq : Discrete (Addr × ℕ)) (id_eq : Discrete Key)
    (peer : Key) where
  pub data Step : Tunnel Addr Key → Tunnel Addr Key → Type 0 where
    -- `pump_udp_out`: the id, and the datagram.
    sent :
        (t : Tunnel Addr Key) (a : Sent Addr) (near : Sessions Addr) (sock now : ℕ)
        → IsU16 a.port
        → id_for key_eq t.near a.src a.port sock now ≡ some (a.id, near)
        → Step t (record t { near = near; wire = a ∷ t.wire })
    -- The reaper of the connecting side, and a datagram that comes back, whatever it says.
    near_swept :
        (t : Tunnel Addr Key) (now : ℕ) → Step t (record t { near = reap key_eq t.near now })
    replied :
        (t : Tunnel Addr Key) (id now : ℕ) (route : ℕ × Addr) (near : Sessions Addr)
        → reply_route t.near id now ≡ some (route, near)
        → Step t (record t { near = near })
    -- The pump of the serving side reads a datagram that was sent at some time.
    arrived :
        (t : Tunnel Addr Key) (a : Sent Addr) (now : ℕ)
        → Any (λ b. b ≡ a) t.wire
        → t.far.phase ≡ reading
        → Step t (record t { far = on_datagram id_eq peer t.far (bytes_of a) now })
    -- Its other steps.
    opened :
        (t : Tunnel Addr Key) (id port : ℕ) (payload : List ℕ) (handle now : ℕ)
        → t.far.phase ≡ opening id port payload
        → Step t (record t { far = on_opened id_eq peer t.far id port handle now })
    open_failed :
        (t : Tunnel Addr Key) → Step t (record t { far = record (t.far) { phase = reading } })
    edited :
        (t : Tunnel Addr Key) (c : Config Key)
        → Step t (record t { far = record (t.far) { config = c; pending = true } })
    changed :
        (t : Tunnel Addr Key)
        → t.far.phase ≡ reading
        → Step t (record t { far = on_change id_eq peer t.far })
    far_swept :
        (t : Tunnel Addr Key) (now : ℕ)
        → Step t (record t { far = record (t.far) { sessions = Sessions.reap t.far.sessions now } })
    answered :
        (t : Tunnel Addr Key) (id port now : ℕ) (reply : List ℕ)
        → Step t (record t { far = (pump_replies id_eq peer t.far id port reply now).0 })

  pub data Run (t : Tunnel Addr Key) : Tunnel Addr Key → Type 0 where
    start : Run t t
    onward : {u v : Tunnel Addr Key} → Run t u → Step u v → Run t v

  -- Before each step of the run the counter of session ids was below 2 ^ 32 - 1, so it has not wrapped.
  abbrev pub HasRoom : {t u : Tunnel Addr Key} → Run t u → Type 0
  HasRoom start = Unit
  HasRoom (onward {u} run step) = HasRoom run × (u.near.next_id + 1 < 2 ^ 32)
