-- ===== src/Tunnel/Matched.antt =====
-- The sessions of the serving side against the datagrams of the connecting side.
use rust_tunnel.Base.{
  ◌≡◌, refl, sym, ap, subst, ◌∙◌, ℕ, ◌+◌, ◌^◌, ◌<◌, List, ◌∷◌, some, inr, arith, ℕ_discrete, insert,
  All, All-weaken, All-filter, All-remove, All-Any, Any, Any-weaken,
}
use rust_tunnel.Framing.{IsU16, IsU32, decode_datagram}
use rust_tunnel.Framing.RoundTrip.{decode_datagram-encode_datagram}
use rust_tunnel.Connect.Sessions.{no_sessions}
use rust_tunnel.Connect.Sessions.Consistent.{no_sessions-IsConsistent}
use rust_tunnel.Config.Types.{Config}
use rust_tunnel.Serve.Sessions.{Session, Sessions, reap, drop_ungranted, open_session}
use rust_tunnel.Serve.Pump.{
  Received, Phase, reading, opening, PumpState, next_phase, on_datagram, on_change, on_opened,
}
use rust_tunnel.Serve.Pump.View.{
  View, short, barred, known, fresh, receive-View, All-View, ReplyView, unknown, touched,
  on_reply-View,
}
use rust_tunnel.Tunnel.{
  opening_tunnel, Sent, bytes_of, Tunnel, Step, sent, near_swept, replied, arrived, opened,
  open_failed, edited, changed, far_swept, answered, Run, start, onward, HasRoom,
}
use rust_tunnel.Tunnel.Issued.{
  IsIssued, sent-IsIssued, reap-IsIssued, reply_route-IsIssued, nothing-IsIssued, key_of,
}

module _ {Addr : Type 0} where
  -- A datagram with this id and port was sent.
  abbrev pub WasSent : List (Sent Addr) → ℕ → ℕ → Type 0
  WasSent wire id port = Any (λ a. (a.id ≡ id) × (a.port ≡ port)) wire

  -- A session was opened for a datagram that was sent, and its socket is connected to the port of it.
  abbrev pub IsAsked : List (Sent Addr) → ℕ × Session → Type 0
  IsAsked wire e = WasSent wire e.0 e.1.port × (e.1.sock.target ≡ e.1.port)

  abbrev pub IsAskedPhase : List (Sent Addr) → Phase → Type 0
  IsAskedPhase wire reading = Unit
  IsAskedPhase wire (opening id port payload) = WasSent wire id port

module _ {Addr Key : Type 0} (key_eq : Discrete (Addr × ℕ)) (id_eq : Discrete Key)
    (peer : Key) where
  pub record IsMatched (t : Tunnel Addr Key) : Type 0 where
    pub issued : IsIssued key_eq t.near t.wire
    pub sessions : All (IsAsked t.wire) t.far.sessions
    pub phase : IsAskedPhase t.wire t.far.phase

  -- The datagram says what was sent.
  pub decoded :
      (t : Tunnel Addr Key) (a : Sent Addr)
      → IsMatched t
      → Any (λ b. b ≡ a) t.wire
      → decode_datagram (bytes_of a) ≡ some (a.id, a.port, a.payload)
  decoded t a h there =
      All-Any (λ (b : Sent Addr). IsU32 b.id × IsU16 b.port) (λ b. b ≡ a) t.wire
        (λ b fits same.
          subst (λ (x : Sent Addr). decode_datagram (bytes_of x) ≡ some (x.id, x.port, x.payload))
            same (decode_datagram-encode_datagram b.id b.port b.payload fits.0 fits.1))
        h.issued.ranges there

  -- An id that was sent for a port is a `u32`, the port a `u16`, and no other port was sent for with it.
  pub ranges-WasSent :
      (t : Tunnel Addr Key) (id port : ℕ)
      → IsMatched t
      → WasSent t.wire id port
      → IsU32 id × IsU16 port
  ranges-WasSent t id port h was =
      All-Any (λ (b : Sent Addr). IsU32 b.id × IsU16 b.port) _ t.wire
        (λ b fits is. (subst IsU32 is.0 fits.0, subst IsU16 is.1 fits.1)) h.issued.ranges was

  pub port-WasSent :
      (t : Tunnel Addr Key) (a : Sent Addr) (port : ℕ)
      → IsMatched t
      → Any (λ b. b ≡ a) t.wire
      → WasSent t.wire a.id port
      → a.port ≡ port
  port-WasSent t a port h there was =
      All-Any (λ (x : Sent Addr). All (λ b. x.id ≡ b.id → key_of key_eq x ≡ key_of key_eq b) t.wire)
        (λ b. b ≡ a) t.wire
        (λ x pairs same.
          All-Any (λ (b : Sent Addr). x.id ≡ b.id → key_of key_eq x ≡ key_of key_eq b) _ t.wire
            (λ b pair is.
              let ids : x.id ≡ b.id = ap (λ y. y.id) same ∙ sym is.0 in
              sym (ap (λ y. y.port) same) ∙ (ap (λ q. q.1) (pair ids) ∙ is.1))
            pairs was)
        h.issued.paired there

  phase-View :
      (wire : List (Sent Addr)) (a : Sent Addr) (c : Config Key) (s : Sessions) (now : ℕ)
      → Any (λ b. b ≡ a) wire
      → decode_datagram (bytes_of a) ≡ some (a.id, a.port, a.payload)
      → {r : Received × Sessions} → View id_eq peer c s (bytes_of a) now r
      → IsAskedPhase wire (next_phase r.0)
  phase-View wire a c s now there e (short f) = tt
  phase-View wire a c s now there e (barred id port p f b) = tt
  phase-View wire a c s now there e (known id port p sock s' f m g) = tt
  phase-View wire a c s now there e (fresh id port p f m g) =
      let same : ◌≡◌ {A = ℕ × ℕ × List ℕ} (a.id, a.port, a.payload) (id, port, p) = ground arith in
      Any-weaken _ _ wire
        (λ b is. (ap (λ x. x.id) is ∙ ap (λ q. q.0) same, ap (λ x. x.port) is ∙ ap (λ q. q.1) same))
        there

  reply-IsAsked :
      (wire : List (Sent Addr)) (s : PumpState Key) {s' : PumpState Key}
      → ReplyView id_eq peer s s'
      → All (IsAsked wire) s.sessions × IsAskedPhase wire s.phase
      → All (IsAsked wire) s'.sessions × IsAskedPhase wire s'.phase
  reply-IsAsked wire s unknown h = h
  reply-IsAsked wire s (touched t keeps) h = (keeps (IsAsked wire) (λ id u later k. k) h.0, h.1)

  longer-phase :
      (a : Sent Addr) (wire : List (Sent Addr)) (p : Phase)
      → IsAskedPhase wire p
      → IsAskedPhase (a ∷ wire) p
  longer-phase a wire reading h = tt
  longer-phase a wire (opening id port payload) h = inr h

  Step-IsMatched :
      {t u : Tunnel Addr Key}
      → t.near.next_id + 1 < 2 ^ 32
      → Step key_eq id_eq peer t u
      → IsMatched t
      → IsMatched u
  unfolding on_datagram on_change on_opened drop_ungranted open_session insert reap
  Step-IsMatched room (sent t a near sock now u16 made) h = record {
    issued = sent-IsIssued key_eq t.near near a sock now t.wire u16 room made h.issued;
    sessions =
        All-weaken _ (IsAsked (a ∷ t.wire)) t.far.sessions (λ e k. (inr k.0, k.1)) h.sessions;
    phase = longer-phase a t.wire t.far.phase h.phase;
  }
  Step-IsMatched room (near_swept t now) h = record {
    issued = reap-IsIssued key_eq t.near t.wire now h.issued;
    sessions = h.sessions;
    phase = h.phase;
  }
  Step-IsMatched room (replied t id now route near made) h = record {
    issued = reply_route-IsIssued key_eq t.near near t.wire id now route made h.issued;
    sessions = h.sessions;
    phase = h.phase;
  }
  Step-IsMatched room (arrived t a now there at) h =
      let view = receive-View id_eq peer t.far.config t.far.sessions (bytes_of a) now in
      record {
        issued = h.issued;
        sessions = All-View id_eq peer (IsAsked t.wire) (λ id u later k. k) h.sessions view;
        phase =
            phase-View t.wire a t.far.config t.far.sessions now there (decoded t a h there) view;
      }
  Step-IsMatched room (opened t id port payload handle now at) h = record {
    issued = h.issued;
    sessions = (
      (subst (IsAskedPhase t.wire) at h.phase, refl),
      All-remove ℕ_discrete (IsAsked t.wire) t.far.sessions id h.sessions,
    );
    phase = tt;
  }
  Step-IsMatched room (open_failed t) h = record {
    issued = h.issued;
    sessions = h.sessions;
    phase = tt;
  }
  Step-IsMatched room (edited t c) h = record {
    issued = h.issued;
    sessions = h.sessions;
    phase = h.phase;
  }
  Step-IsMatched room (changed t at) h = record {
    issued = h.issued;
    sessions = All-filter (IsAsked t.wire) _ t.far.sessions h.sessions;
    phase = h.phase;
  }
  Step-IsMatched room (far_swept t now) h = record {
    issued = h.issued;
    sessions = All-filter (IsAsked t.wire) _ t.far.sessions h.sessions;
    phase = h.phase;
  }
  Step-IsMatched room (answered t id port now reply) h =
      let (sessions, phase) =
        reply-IsAsked t.wire t.far (on_reply-View id_eq peer t.far id now) (h.sessions, h.phase) in
      record { issued = h.issued; sessions = sessions; phase = phase }

  pub Run-IsMatched :
      (c : Config Key) {t : Tunnel Addr Key} (run : Run key_eq id_eq peer (opening_tunnel c) t)
      → HasRoom key_eq id_eq peer run
      → IsMatched t
  Run-IsMatched c start room = record {
    issued = nothing-IsIssued key_eq no_sessions (no_sessions-IsConsistent key_eq);
    sessions = tt;
    phase = tt;
  }
  Run-IsMatched c (onward run step) room = Step-IsMatched room.1 step (Run-IsMatched c run room.0)
