-- ===== src/Serve/Streams.antt =====
-- Admission and TCP streams of serve.rs: what `run` does with a connection whose handshake has proved
-- the peer's id, and `serve_stream`. The bytes that a stream carries after its first two are copied
-- both ways by tokio.
pub mod Refused
use rust_tunnel.Base.{ℕ, Bool, not, List, [], ◌∷◌, Option, none, some, if◌then◌else◌, Text, codes}
use rust_tunnel.Framing.{read_target_port}
use rust_tunnel.Config.Types.{Config, Name, Peer, tcp}
use rust_tunnel.Config.Grants.{peer, admits, may_reach}
use rust_tunnel.State.{Shared, peer_connected}

-- Application close code for a peer that is not allowlisted.
abbrev pub refused_peer : ℕ
refused_peer = 1

-- Stream reset code for a port that was not offered.
abbrev pub refused_port : ℕ
refused_port = 2

-- `conn.close(code, reason)`
pub record Close : Type 0 where
  pub code : ℕ
  pub reason : Text

abbrev pub not_allowlisted : Close
not_allowlisted = record { code = refused_peer; reason = codes "not allowlisted" }

pub data Admission : Type 0 where
  refuse : Close → Admission
  admit : Name → Admission

-- What becomes of a stream: its port cannot be read, it is reset in both halves, the local service does
-- not answer, or the rest of it is copied to and from the local port.
pub data Stream : Type 0 where
  unreadable unanswered : Stream
  reset : ℕ → Stream
  piped : ℕ → List ℕ → Stream

module _ {Key : Type 0} (id_eq : Discrete Key) where
  -- `.map(|p| p.name.clone()).unwrap_or_default()`
  abbrev pub peer_name : Config Key → Key → Name
  peer_name c id = elim (peer id_eq c id) [ none ↦ [] | some p ↦ p.name ]

  -- The accept loop's task, up to `serve_conn`.
  unfoldable pub accept : Shared Key → Key → ℕ → Admission × Shared Key
  accept sh id now =
      if not (admits id_eq sh.config id)
      then (refuse not_allowlisted, sh)
      else (admit (peer_name sh.config id), peer_connected id_eq sh id now)

  -- `answers port` says whether a connection to that loopback port is taken.
  unfoldable pub serve_stream : (ℕ → Bool) → Config Key → Key → List ℕ → Stream
  serve_stream answers c id recv = elim (read_target_port recv) [
    | none ↦ unreadable
    | some (port, rest) ↦
        if not (may_reach id_eq c id tcp port)
        then reset refused_port
        else if answers port
        then piped port rest
        else unanswered
  ]

  -- The loop of `serve_conn`: what becomes of the streams that it accepts, each with the configuration in
  -- force when it is served. An `accept_bi` that fails, `none`, ends the loop.
  unfoldable pub stream_loop : (ℕ → Bool) → Key → List (Option (Config Key × List ℕ)) → List Stream
  stream_loop answers id [] = []
  stream_loop answers id (none ∷ streams) = []
  stream_loop answers id (some (c, recv) ∷ streams) =
      serve_stream answers c id recv ∷ stream_loop answers id streams
