-- ===== src/Serve/Pump.antt =====
-- `pump_udp` of serve.rs. Between the check of a datagram and the insertion of the session that it
-- opens, the task waits for its socket, and meanwhile the configuration may change, the reaper may run
-- and replies may come; so the loop is a state machine whose steps are what happens between two waits.
-- `pending` says that the watch channel holds a configuration that the pump has not been woken for.
pub mod View
pub mod Granted
use rust_tunnel.Base.{
  ◌≡◌, ℕ, Bool, true, false, not, List, [], Option, none, some, if◌then◌else◌, ℕ_discrete,
}
use rust_tunnel.Framing.{encode_datagram, decode_datagram}
use rust_tunnel.Config.Types.{Config, udp}
use rust_tunnel.Config.Grants.{granted, may_reach}
use rust_tunnel.Serve.Sessions.{
  Socket, Session, Sessions, touch, reap, drop_ungranted, open_session,
}

-- What the loop does with one datagram before it waits again.
pub data Received : Type 0 where
  too_short : Received
  refused : ℕ → Received
  to_known : Socket → List ℕ → Received
  to_open : ℕ → ℕ → List ℕ → Received

pub data Phase : Type 0 where
  reading : Phase
  opening : ℕ → ℕ → List ℕ → Phase

pub record PumpState (Key : Type 0) : Type 0 where
  pub config : Config Key
  pub pending : Bool
  pub phase : Phase
  pub sessions : Sessions

-- `pump_udp` before its first wait, with what `serve_conn` hands it.
abbrev pub at_start : {Key : Type 0} → Config Key → PumpState Key
at_start c = record { config = c; pending = false; phase = reading; sessions = [] }

-- A socket that `open_session` waits for.
abbrev pub next_phase : Received → Phase
next_phase (to_open id port payload) = opening id port payload
next_phase _ = reading

module _ {Key : Type 0} (id_eq : Discrete Key) (peer : Key) where
  -- `granted(..).unwrap_or_default()`
  abbrev pub granted_ports : Config Key → List ℕ
  granted_ports c = elim (granted id_eq c peer udp) [ none ↦ [] | some ports ↦ ports ]

  unfoldable pub receive : Config Key → Sessions → List ℕ → ℕ → Received × Sessions
  receive c t dg now = elim (decode_datagram dg) [
    | none ↦ (too_short, t)
    | some (id, port, payload) ↦
        if not (may_reach id_eq c peer udp port) then (refused port, t) else elim (touch t id now) [
          | none ↦ (to_open id port payload, t)
          | some (sock, t') ↦ (to_known sock payload, t')
        ]
  ]

  unfoldable pub on_datagram : PumpState Key → List ℕ → ℕ → PumpState Key
  on_datagram s dg now =
      let (r, t) = receive s.config s.sessions dg now in
      record s { phase = next_phase r; sessions = t }

  -- `borrow_and_update`, and the sessions that lost their grant.
  unfoldable pub on_change : PumpState Key → PumpState Key
  on_change s = record s {
    pending = false;
    sessions = drop_ungranted s.sessions (granted_ports s.config);
  }

  -- `touch(id);` in `pump_replies`
  unfoldable pub on_reply : PumpState Key → ℕ → ℕ → PumpState Key
  on_reply s id now = elim (touch s.sessions id now) [
    | none ↦ s
    | some (sock, t) ↦ record s { sessions = t }
  ]

  -- A turn of `pump_replies` of a session for what its socket received, and what it sends back.
  abbrev pub pump_replies : PumpState Key → ℕ → ℕ → List ℕ → ℕ → PumpState Key × List ℕ
  pump_replies s id port reply now = (on_reply s id now, encode_datagram id port reply)

  unfoldable pub on_opened : PumpState Key → ℕ → ℕ → ℕ → ℕ → PumpState Key
  on_opened s id port handle now = record s {
    phase = reading;
    sessions = (open_session s.sessions id port handle now).1;
  }

  pub data Step : PumpState Key → PumpState Key → Type 0 where
    -- An edit elsewhere publishes a configuration.
    publish :
        (s : PumpState Key) (c : Config Key) → Step s (record s { config = c; pending = true })
    -- The loop is woken for a configuration, or reads a datagram.
    change : (s : PumpState Key) → s.phase ≡ reading → Step s (on_change s)
    datagram :
        (s : PumpState Key) (dg : List ℕ) (now : ℕ)
        → s.phase ≡ reading
        → Step s (on_datagram s dg now)
    opened :
        (s : PumpState Key) (id port : ℕ) (payload : List ℕ) (handle now : ℕ)
        → s.phase ≡ opening id port payload
        → Step s (on_opened s id port handle now)
    open_failed : (s : PumpState Key) → Step s (record s { phase = reading })
    -- The reaper, and the reply task of a session.
    tick : (s : PumpState Key) (now : ℕ) → Step s (record s { sessions = reap s.sessions now })
    reply : (s : PumpState Key) (id now : ℕ) → Step s (on_reply s id now)

  pub data Run (s : PumpState Key) : PumpState Key → Type 0 where
    start : Run s s
    then : {t u : PumpState Key} → Run s t → Step t u → Run s u
