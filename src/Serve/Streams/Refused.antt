-- ===== src/Serve/Streams/Refused.antt =====
-- Which streams and connections are let through.
use rust_tunnel.Base.{
  ◌≡◌, refl, ap, ◌∙◌, ◌↔◌, ◌⊎◌, inl, inr, ℕ, Bool-cases, Option-cases, Bool, true, false, some,
  List, [], ◌∷◌, ◌++◌, arith, Distinct, Option, none, Any,
}
use rust_tunnel.Framing.{IsU16, write_target_port, read_target_port}
use rust_tunnel.Framing.RoundTrip.{read_target_port-write_target_port}
use rust_tunnel.Config.Types.{Config, Name, tcp}
use rust_tunnel.Config.Grants.{admits, may_reach}
use rust_tunnel.Config.Grants.Reach.{peer_id, CanReach, may_reach_iff}
use rust_tunnel.State.{Shared, no_path, peer_connected}
use rust_tunnel.State.Facts.{live, enter, live_lem}
use rust_tunnel.Serve.Streams.{
  Close, refuse, admit, reset, piped, refused_peer, refused_port, accept, serve_stream, stream_loop,
  peer_name, not_allowlisted,
}

module _ {Key : Type 0} (id_eq : Discrete Key) where
  abbrev pub opening_bytes : ℕ → List ℕ → List ℕ
  opening_bytes port rest = write_target_port [] port ++ rest

  -- In a configuration with no id listed twice, a stream that opens with a `u16` port and goes on
  -- with some bytes is connected to that local port, with exactly those bytes still to copy, if and
  -- only if an enabled peer entry has the id, an offer of TCP on the port is enabled in the shared
  -- list or in that entry, and the local service answers; it is reset with the refusal code if and
  -- only if the peer cannot reach the port.
  pub serve_stream_iff :
      (answers : ℕ → Bool) (c : Config Key) (id : Key) (port : ℕ) (rest : List ℕ)
      → IsU16 port
      → Distinct (peer_id id_eq) c.serve.peers
      → ((serve_stream id_eq answers c id (opening_bytes port rest) ≡ piped port rest)
          ↔ (CanReach id_eq c id tcp port × (answers port ≡ true)))
        × ((serve_stream id_eq answers c id (opening_bytes port rest) ≡ reset refused_port)
            ↔ ¬ (CanReach id_eq c id tcp port))
  unfolding serve_stream
  serve_stream_iff answers c id port rest u16 distinct =
      let read = read_target_port-write_target_port port rest u16 in
      let (may, can) = may_reach_iff id_eq c id tcp port distinct in
      elim (Bool-cases (may_reach id_eq c id tcp port)) [
        | inl yes_granted ↦ elim (Bool-cases (answers port)) [
          | inl a ↦ (
            (λ e. (may yes_granted, a), λ e. ground arith),
            (λ e. absurd (ground arith), λ e. absurd (e (may yes_granted))),
          )
          | inr a ↦ (
            (λ e. absurd (ground arith), λ e. absurd (cc)),
            (λ e. absurd (ground arith), λ e. absurd (e (may yes_granted))),
          )
        ]
        | inr barred ↦ (
          (λ e. absurd (ground arith), λ e. absurd (ground (arith, can e.0))),
          (λ e reach. absurd (ground (arith, can reach)), λ e. ground arith),
        )
      ]

  -- Whatever bytes a stream opens with, only a port that the peer may reach is connected to.
  pub serve_stream_piped :
      (answers : ℕ → Bool) (c : Config Key) (id : Key) (recv : List ℕ) (port : ℕ) (rest : List ℕ)
      → serve_stream id_eq answers c id recv ≡ piped port rest
      → (may_reach id_eq c id tcp port ≡ true)
        × (read_target_port recv ≡ some (port, rest))
        × (answers port ≡ true)
  unfolding serve_stream
  serve_stream_piped answers c id recv port rest e = elim (Option-cases (read_target_port recv)) [
    | inl short ↦ absurd (ground arith)
    | inr (r, found) ↦ (ground arith, ground arith, ground arith)
  ]

  -- What `piped` bytes of one of many streams say of that stream: it opened with the port, and the
  -- configuration in force when it was served let the peer reach it.
  abbrev pub IsAllowed : Key → ℕ → List ℕ → Option (Config Key × List ℕ) → Type 0
  IsAllowed id port rest none = ⊥
  IsAllowed id port rest (some (c, recv)) =
      (may_reach id_eq c id tcp port ≡ true) × (read_target_port recv ≡ some (port, rest))

  pub stream_loop_piped :
      (answers : ℕ → Bool) (id : Key) (streams : List (Option (Config Key × List ℕ))) (port : ℕ)
      (rest : List ℕ)
      → Any (λ r. r ≡ piped port rest) (stream_loop id_eq answers id streams)
      → Any (IsAllowed id port rest) streams
  unfolding stream_loop
  stream_loop_piped answers id [] port rest h = elim h [ ]
  stream_loop_piped answers id (none ∷ streams) port rest h = elim h [ ]
  stream_loop_piped answers id (some (c, recv) ∷ streams) port rest (inl made) =
      let (may, read, up) = serve_stream_piped answers c id recv port rest made in inl (may, read)
  stream_loop_piped answers id (some (c, recv) ∷ streams) port rest (inr h) =
      inr (stream_loop_piped answers id streams port rest h)

  -- A connection of a peer that is not admitted is closed with the refusal code and leaves the
  -- shared state as it was; one of an admitted peer is listed as connected since now, or since its
  -- earlier connection.
  pub accept_lem :
      (sh : Shared Key) (id : Key) (now : ℕ)
      → ((admits id_eq sh.config id ≡ false)
          × ((accept id_eq sh id now).1 ≡ sh)
          × ((c : Close) × ((accept id_eq sh id now).0 ≡ refuse c) × (c.code ≡ refused_peer)))
        ⊎ ((admits id_eq sh.config id ≡ true)
            × (live id_eq (accept id_eq sh id now).1 id ≡ enter id_eq now (live id_eq sh id))
            × ((name : Name) × ((accept id_eq sh id now).0 ≡ admit name)))
  unfolding accept
  accept_lem sh id now = elim (Bool-cases (admits id_eq sh.config id)) [
    | inl yes_admitted ↦
        let after : (accept id_eq sh id now).1 ≡ peer_connected id_eq sh id now = ground arith in
        let entered : live id_eq (peer_connected id_eq sh id now) id
            ≡ enter id_eq now (live id_eq sh id) =
          ground (arith, live_lem id_eq sh id id now no_path) in
        inr (
          yes_admitted,
          ap (λ t. live id_eq t id) after ∙ entered,
          (peer_name id_eq sh.config id, ground arith),
        )
    | inr barred ↦ inl (barred, ground arith, (not_allowlisted, ground arith, refl))
  ]
