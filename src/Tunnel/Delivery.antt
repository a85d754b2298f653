-- ===== src/Tunnel/Delivery.antt =====
-- Where a datagram and a reply end up, from the start of a connection until the forwarders of the
-- connecting side are spawned again.
use rust_tunnel.Base.{
  ◌≡◌, refl, sym, ap, subst, ◌∙◌, ℕ, List, Option, none, some, Option-cases, inl, inr, arith,
  ℕ_discrete, get, All-get, Any-both, Any, Any-weaken,
}
use rust_tunnel.Framing.{decode_datagram}
use rust_tunnel.Framing.RoundTrip.{decode_datagram-encode_datagram}
use rust_tunnel.Connect.Sessions.{pump_udp_in, reply_route, send_to}
use rust_tunnel.Config.Types.{Config}
use rust_tunnel.Serve.Sessions.{Socket, Session, Sessions, touch}
use rust_tunnel.Serve.Pump.{Received, too_short, refused, to_known, to_open, receive, pump_replies}
use rust_tunnel.Serve.Pump.View.{View, short, barred, known, fresh, receive-View}
use rust_tunnel.Tunnel.{opening_tunnel, Sent, bytes_of, Tunnel, Run, HasRoom}
use rust_tunnel.Tunnel.Issued.{key_of}
use rust_tunnel.Tunnel.Matched.{
  WasSent, IsAsked, IsMatched, decoded, ranges-WasSent, port-WasSent, Run-IsMatched,
}
use rust_tunnel.Tunnel.Wire.{Run-append, HasRoom-append, Run-All}

-- The port that a payload is on its way to: the one that the socket of the session is connected to, or
-- the one that a new socket is to be connected to.
abbrev pub handed : Received → Option (ℕ × List ℕ)
handed too_short = none
handed (refused port) = none
handed (to_known sock payload) = some (sock.target, payload)
handed (to_open id port payload) = some (port, payload)

module _ {Addr Key : Type 0} (key_eq : Discrete (Addr × ℕ)) (id_eq : Discrete Key)
    (peer : Key) where
  View-delivers :
      (t : Tunnel Addr Key) (a : Sent Addr) (now port : ℕ) (payload : List ℕ)
      → IsMatched key_eq id_eq peer t
      → Any (λ b. b ≡ a) t.wire
      → decode_datagram (bytes_of a) ≡ some (a.id, a.port, a.payload)
      → {r : Received × Sessions} → View id_eq peer t.far.config t.far.sessions (bytes_of a) now r
      → handed r.0 ≡ some (port, payload)
      → (port ≡ a.port) × (payload ≡ a.payload)
  unfolding touch
  View-delivers t a now port payload h there e (short f) made = absurd (cc)
  View-delivers t a now port payload h there e (barred id n p f b) made = absurd (cc)
  View-delivers t a now port payload h there e (known id n p sk s' f m g) made =
      let same : ◌≡◌ {A = ℕ × ℕ × List ℕ} (a.id, a.port, a.payload) (id, n, p) = ground arith in
      elim (Option-cases (get ℕ_discrete t.far.sessions id)) [
        | inl absent ↦ absurd (ground arith)
        | inr (u, found) ↦
            let (was, joined) =
              All-get ℕ_discrete (IsAsked t.wire) t.far.sessions id u h.sessions found in
            let at : WasSent t.wire a.id u.port =
              subst (λ i. WasSent t.wire i u.port) (sym (ap (λ q. q.0) same)) was in
            let port_is = port-WasSent key_eq id_eq peer t a u.port h there at in
            let sock_is : u.sock ≡ sk = ground arith in
            let target : sk.target ≡ port = ground arith in
            (
              sym target ∙ (sym (ap (λ (x : Socket). x.target) sock_is) ∙ (joined ∙ sym port_is)),
              let carried : p ≡ payload = ground arith in sym carried ∙ sym (ap (λ q. q.2) same),
            )
      ]
  View-delivers t a now port payload h there e (fresh id n p f m g) made =
      (ground arith, ground arith)

  -- From the start of a connection, both session tables empty, until the forwarders of the
  -- connecting side are spawned again, the counter of session ids staying below 2 ^ 32 - 1 and all
  -- ports being `u16`, whatever is sent, lost, late or repeated on the connection and whatever
  -- edits and sweeps there are at either end: if a datagram that was sent arrives and the serving
  -- side has a payload for the socket of a known session, or for a socket that it goes on to open,
  -- it is the payload that was sent, and that socket is, or is to be, connected to the port that it
  -- was sent for.
  pub Run-delivers :
      (c : Config Key) (t : Tunnel Addr Key) (a : Sent Addr) (now port : ℕ) (payload : List ℕ)
      (run : Run key_eq id_eq peer (opening_tunnel c) t)
      → HasRoom key_eq id_eq peer run
      → Any (λ b. b ≡ a) t.wire
      → handed (receive id_eq peer t.far.config t.far.sessions (bytes_of a) now).0
        ≡ some (port, payload)
      → (port ≡ a.port) × (payload ≡ a.payload)
  Run-delivers c t a now port payload run room there made =
      let h = Run-IsMatched key_eq id_eq peer c run room in
      View-delivers t a now port payload h there (decoded key_eq id_eq peer t a h there)
        (receive-View id_eq peer t.far.config t.far.sessions (bytes_of a) now) made

  -- From the start of a connection, both session tables empty, until the forwarders of the
  -- connecting side are spawned again, the counter of session ids staying below 2 ^ 32 - 1 and all
  -- ports being `u16`: if the reply task of a session of the serving side sends a reply, and at
  -- whatever later time it comes the connecting side sends it on to a source, it sends the whole
  -- reply, and that source had sent, before the reply, a datagram with the id of the session for
  -- the port that the socket of the session is connected to.
  pub Run-replies :
      (c : Config Key) (t u : Tunnel Addr Key) (id early now by : ℕ) (s : Session) (src : Addr)
      (reply payload : List ℕ) (run : Run key_eq id_eq peer (opening_tunnel c) t)
      (later : Run key_eq id_eq peer t u)
      → HasRoom key_eq id_eq peer run
      → HasRoom key_eq id_eq peer later
      → get ℕ_discrete t.far.sessions id ≡ some s
      → (pump_udp_in u.near (pump_replies id_eq peer t.far id s.port reply early).1 now).0
        ≡ send_to by src payload
      → Any (λ a. (a.id ≡ id) × (key_of key_eq a ≡ (src, s.sock.target))) t.wire × (payload ≡ reply)
  unfolding pump_udp_in reply_route
  Run-replies c t u id early now by s src reply payload run later room more found made =
      let h = Run-IsMatched key_eq id_eq peer c run room in
      let g =
        Run-IsMatched key_eq id_eq peer c (Run-append key_eq id_eq peer run later)
          (HasRoom-append key_eq id_eq peer run later room more) in
      let (was, joined) =
        All-get ℕ_discrete (IsAsked t.wire) t.far.sessions id s h.sessions found in
      let (u32, u16) = ranges-WasSent key_eq id_eq peer t id s.port h was in
      let read = decode_datagram-encode_datagram id s.port reply u32 u16 in
      elim (Option-cases (get ℕ_discrete u.near.by_id id)) [
        | inl forgotten ↦ absurd (ground arith)
        | inr (v, there) ↦
            let back : v.src ≡ src = ground arith in
            (
              Any-weaken _ _ t.wire
                  (λ a both.
                    let (from, (ids, ports)) = both in
                    (ids, rw (from ids ∙ back) rw (ports ∙ sym joined) refl))
                  (Any-both _ _ t.wire
                    (Run-All key_eq id_eq peer _ later (g.issued.sourced id v there)) was),
              ground arith,
            )
      ]
