-- ===== src/Serve/Pump/View.antt =====
-- What a turn of the pump does to its sessions, case by case, and what every session is to have.
use rust_tunnel.Base.{
  ◌≡◌, sym, subst, ℕ, true, false, none, some, List, Option-cases, Bool-cases, inl, inr, arith, All,
  All-remove, All-get, get, insert, ℕ_discrete,
}
use rust_tunnel.Framing.{decode_datagram}
use rust_tunnel.Config.Types.{Config, udp}
use rust_tunnel.Config.Grants.{granted, may_reach, contains}
use rust_tunnel.Serve.Sessions.{Socket, Session, Sessions, touch}
use rust_tunnel.Serve.Pump.{
  Received, too_short, refused, to_known, to_open, Phase, reading, opening, PumpState,
  granted_ports, receive, on_reply, next_phase,
}

-- What a table keeps when an entry is touched or added.
module _ (P : ℕ × Session → Type 0) where
  -- The property does not depend on when the session was last used.
  abbrev pub IsTimeless : Type 0
  IsTimeless = (id : ℕ) (s : Session) (now : ℕ) → P (id, s) → P (id, record s { last = now })

  pub All-touch :
      IsTimeless
      → (t t' : Sessions) (id now : ℕ) (sock : Socket) → All P t
      → touch t id now ≡ some (sock, t')
      → All P t'
  unfolding touch insert
  All-touch timeless t t' id now sock h e = elim (Option-cases (get ℕ_discrete t id)) [
    | inl absent ↦ absurd (ground arith)
    | inr (s, found) ↦
        let entry = timeless id s now (All-get ℕ_discrete P t id s h found) in
        let table : insert ℕ_discrete t id (record s { last = now }) ≡ t' = ground arith in
        subst (All P) table (entry, All-remove ℕ_discrete P t id h)
  ]

module _ {Key : Type 0} (id_eq : Discrete Key) (peer : Key) where
  pub contains-granted_ports :
      (c : Config Key) (port : ℕ)
      → contains (granted_ports id_eq peer c) port ≡ may_reach id_eq c peer udp port
  unfolding may_reach
  contains-granted_ports c port = elim (Option-cases (granted id_eq c peer udp)) [
    | inl e ↦ ground arith
    | inr (ports, e) ↦ ground arith
  ]

  -- The port of a session is granted; and its socket is connected to that port.
  abbrev pub IsAllowed : Config Key → ℕ × Session → Type 0
  IsAllowed c e = may_reach id_eq c peer udp e.1.port ≡ true

  abbrev pub IsConnected : ℕ × Session → Type 0
  IsConnected e = e.1.sock.target ≡ e.1.port

  abbrev pub IsAllowedPhase : Config Key → Phase → Type 0
  IsAllowedPhase c reading = Unit
  IsAllowedPhase c (opening id port payload) = may_reach id_eq c peer udp port ≡ true

  pub record IsGranted (s : PumpState Key) : Type 0 where
    pub connected : All IsConnected s.sessions
    pub allowed : s.pending ≡ false → All (IsAllowed s.config) s.sessions
    pub next : s.pending ≡ false → IsAllowedPhase s.config s.phase

  -- What `receive` may do, with what it has found out by then.
  pub data View (c : Config Key) (t : Sessions) (dg : List ℕ) (now : ℕ)
      : Received × Sessions → Type 0 where
    short : decode_datagram dg ≡ none → View c t dg now (too_short, t)
    barred :
        (id port : ℕ) (payload : List ℕ)
        → decode_datagram dg ≡ some (id, port, payload)
        → may_reach id_eq c peer udp port ≡ false
        → View c t dg now (refused port, t)
    known :
        (id port : ℕ) (payload : List ℕ) (sock : Socket) (t' : Sessions)
        → decode_datagram dg ≡ some (id, port, payload)
        → may_reach id_eq c peer udp port ≡ true
        → touch t id now ≡ some (sock, t')
        → View c t dg now (to_known sock payload, t')
    fresh :
        (id port : ℕ) (payload : List ℕ)
        → decode_datagram dg ≡ some (id, port, payload)
        → may_reach id_eq c peer udp port ≡ true
        → touch t id now ≡ none
        → View c t dg now (to_open id port payload, t)

  pub receive-View :
      (c : Config Key) (t : Sessions) (dg : List ℕ) (now : ℕ)
      → View c t dg now (receive id_eq peer c t dg now)
  unfolding receive
  receive-View c t dg now = elim (Option-cases (decode_datagram dg)) [
    | inl e ↦ back (ground arith) (short e)
    | inr ((id, port, payload), e) ↦ elim (Bool-cases (may_reach id_eq c peer udp port)) [
      | inl may ↦ elim (Option-cases (touch t id now)) [
        | inl absent ↦ back (ground arith) (fresh id port payload e may absent)
        | inr ((sock, t'), found) ↦ back (ground arith) (known id port payload sock t' e may found)
      ]
      | inr bar ↦ back (ground arith) (barred id port payload e bar)
    ]
  ]
    where
      back :
          {r : Received × Sessions}
          → receive id_eq peer c t dg now ≡ r
          → View c t dg now r
          → View c t dg now (receive id_eq peer c t dg now)
      back e v = subst (View c t dg now) (sym e) v

  pub View-allowed :
      {c : Config Key} {t : Sessions} {dg : List ℕ} {now : ℕ} {r : Received × Sessions}
      → View c t dg now r
      → IsAllowedPhase c (next_phase r.0)
  View-allowed (short e) = tt
  View-allowed (barred id port payload e b) = tt
  View-allowed (known id port payload sock t' e m f) = tt
  View-allowed (fresh id port payload e m f) = m

  pub All-View :
      (P : ℕ × Session → Type 0)
      → IsTimeless P
      → {c : Config Key} {t : Sessions} {dg : List ℕ} {now : ℕ} {r : Received × Sessions} → All P t
      → View c t dg now r
      → All P r.1
  All-View P timeless h (short e) = h
  All-View P timeless h (barred id port payload e b) = h
  All-View P timeless h (known id port payload sock t' e m f) =
      All-touch P timeless _ t' id _ sock h f
  All-View P timeless h (fresh id port payload e m f) = h

  -- A reply leaves the sessions alone, or touches one.
  pub data ReplyView (s : PumpState Key) : PumpState Key → Type 1 where
    unknown : ReplyView s s
    touched :
        (t : Sessions)
        → ((P : ℕ × Session → Type 0) → IsTimeless P → All P s.sessions → All P t)
        → ReplyView s (record s { sessions = t })

  pub on_reply-View : (s : PumpState Key) (id now : ℕ) → ReplyView s (on_reply id_eq peer s id now)
  unfolding on_reply
  on_reply-View s id now = elim (Option-cases (touch s.sessions id now)) [
    | inl absent ↦ back (ground arith) unknown
    | inr ((sock, t), found) ↦
        back (ground arith)
          (touched t (λ P timeless h. All-touch P timeless s.sessions t id now sock h found))
  ]
    where
      back :
          {r : PumpState Key}
          → on_reply id_eq peer s id now ≡ r
          → ReplyView s r
          → ReplyView s (on_reply id_eq peer s id now)
      back e v = subst (ReplyView s) (sym e) v

  pub ReplyView-IsGranted :
      (s : PumpState Key) {s' : PumpState Key} → ReplyView s s' → IsGranted s → IsGranted s'
  ReplyView-IsGranted s unknown g = g
  ReplyView-IsGranted s (touched t keeps) g = record {
    connected = keeps IsConnected (λ id u later h. h) g.connected;
    allowed = λ e. keeps (IsAllowed s.config) (λ id u later h. h) (g.allowed e);
    next = g.next;
  }
