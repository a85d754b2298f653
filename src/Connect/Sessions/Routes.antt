-- ===== src/Connect/Sessions/Routes.antt =====
-- The way of a datagram through the pumps of connect.rs, and of a reply to it.
use rust_tunnel.Base.{
  ◌≡◌, ap, ◌∙◌, ℕ, ◌+◌, ◌^◌, ◌<◌, List, some, arith, ℕ_discrete, get, get-insert,
}
use rust_tunnel.Framing.{IsU16, IsU32, encode_datagram, decode_datagram}
use rust_tunnel.Framing.RoundTrip.{decode_datagram-encode_datagram}
use rust_tunnel.Connect.Sessions.{
  Session, Sessions, id_for, reply_route, pump_udp_out, pump_udp_in, send_to,
}
use rust_tunnel.Connect.Sessions.Consistent.{IsConsistent, id_for-IsConsistent}

module _ {Addr : Type 0} where
  -- A reply that names a session of the table.
  pump_udp_in-known :
      (t : Sessions Addr) (id port now : ℕ) (reply : List ℕ) (s : Session Addr)
      → IsU32 id
      → IsU16 port
      → get ℕ_discrete t.by_id id ≡ some s
      → (pump_udp_in t (encode_datagram id port reply) now).0 ≡ send_to s.sock s.src reply
  unfolding pump_udp_in reply_route
  pump_udp_in-known t id port now reply s u32 u16 found =
      ground (arith, decode_datagram-encode_datagram id port reply u32 u16)

module _ {Addr : Type 0} (key_eq : Discrete (Addr × ℕ)) where
  -- On a consistent table with room in the counter, a datagram of a local process goes out in a
  -- form that the other side decodes to a session, the remote port and the same payload, and a
  -- reply under that session is sent, unaltered, to the source that the datagram came from.
  pub pump_udp_in-pump_udp_out :
      (t : Sessions Addr) (src : Addr) (remote sock now later : ℕ) (payload reply : List ℕ)
      → IsConsistent key_eq t
      → t.next_id + 1 < 2 ^ 32
      → IsU16 remote
      → (id : ℕ) × (dg : List ℕ) × (t' : Sessions Addr) × (pump_udp_out key_eq t src remote sock
            payload now
          ≡ some (dg, t'))
        × (decode_datagram dg ≡ some (id, remote, payload))
        × ((by : ℕ) × ((pump_udp_in t' (encode_datagram id remote reply) later).0
              ≡ send_to by src reply))
  unfolding pump_udp_out
  pump_udp_in-pump_udp_out t src remote sock now later payload reply c room u16 =
      let (id, t', made, c', key, top) = id_for-IsConsistent key_eq t src remote sock now c room in
      let (s, found, same) = c'.routed (src, remote) id key in
      let u32 : IsU32 id = omega (arith, c'.minted (src, remote) id key, top) in
      (
        id,
        encode_datagram id remote payload,
        t',
        ground arith,
        decode_datagram-encode_datagram id remote payload u32 u16,
        (
          s.sock,
          pump_udp_in-known t' id remote later reply s u32 u16 found
              ∙ ap (λ a. send_to s.sock a reply) same,
        ),
      )

  -- When a source that has a session for a remote port writes to another local listener of the same
  -- remote port, the replies still leave by the socket of the listener that opened the session.
  pub pump_udp_in-first_listener :
      (t t' : Sessions Addr) (src : Addr) (id remote second now later : ℕ)
      (payload reply dg : List ℕ) (s : Session Addr)
      → IsU32 id
      → IsU16 remote
      → get key_eq t.by_key (src, remote) ≡ some id
      → get ℕ_discrete t.by_id id ≡ some s
      → pump_udp_out key_eq t src remote second payload now ≡ some (dg, t')
      → (pump_udp_in t' (encode_datagram id remote reply) later).0 ≡ send_to s.sock s.src reply
  unfolding pump_udp_out id_for
  pump_udp_in-first_listener t t' src id remote second now later payload reply dg s u32 u16 key
        found out =
      pump_udp_in-known t' id remote later reply (record s { last = now }) u32 u16
        (ground (arith, get-insert ℕ_discrete t.by_id id id (record s { last = now })))
