-- ===== src/State/Facts.antt =====
-- The runtime facts of state.rs: which peers are connected, and which local ports are bound.
use rust_tunnel.Base.{
  Option-cases, inl, inr, ℕ, ◌≡◌, ite, Option, none, some, arith, get, get-insert, get-remove,
}
use rust_tunnel.Config.Types.{Proto, port_key_eq, Binding, binding_key}
use rust_tunnel.State.{
  Shared, PathInfo, no_path, BindState, peer_connected, peer_disconnected, peer_path, set_bind,
  clear_bind, bind_state,
}

module _ {Key : Type 0} (id_eq : Discrete Key) where
  -- When the peer connected, and its path, if it is listed as connected.
  unfoldable pub live : Shared Key → Key → Option (ℕ × PathInfo)
  live sh id = get id_eq sh.runtime.peers id

  -- The path of an entry replaced, its time kept.
  abbrev pub repath : PathInfo → Option (ℕ × PathInfo) → Option (ℕ × PathInfo)
  repath info none = none
  repath info (some (since, old)) = some (since, info)

  -- The entry of a peer that connects: the one it had, or a new one.
  abbrev pub enter : ℕ → Option (ℕ × PathInfo) → Option (ℕ × PathInfo)
  enter now none = some (now, no_path)
  enter now (some e) = some e

  -- The list of connected peers is, id by id, a function into optional entries: connecting enters the
  -- peer unless it is there, disconnecting removes it, a path report changes the path of a peer that is
  -- there, keeps its time and never adds one; and none of them touches another peer's entry.
  pub live_lem :
      (sh : Shared Key) (id j : Key) (now : ℕ) (info : PathInfo)
      → (live (peer_connected id_eq sh id now) j
          ≡ ite (id_eq id j) (enter now (live sh id)) (live sh j))
        × (live (peer_disconnected id_eq sh id) j ≡ ite (id_eq id j) none (live sh j))
        × (live (peer_path id_eq sh id info.path info.addr info.rtt_ms) j
            ≡ ite (id_eq id j) (repath info (live sh id)) (live sh j))
  unfolding live peer_connected peer_disconnected peer_path
  live_lem sh id j now info =
      let ps = sh.runtime.peers in
      (ground (arith, get-insert id_eq ps id j (now, no_path)), get-remove id_eq ps id j, repathed)
    where
      repathed :
          live (peer_path id_eq sh id info.path info.addr info.rtt_ms) j
          ≡ ite (id_eq id j) (repath info (live sh id)) (live sh j)
      repathed = elim (Option-cases (get id_eq sh.runtime.peers id)) [
        | inl e ↦ ground arith
        | inr ((since, old), e) ↦
            ground (arith, get-insert id_eq sh.runtime.peers id j (since, info))
      ]

  -- A connection leaves the configuration and the reports on the listeners alone.
  pub peer_connected-config :
      (sh : Shared Key) (id : Key) (now : ℕ) → (peer_connected id_eq sh id now).config ≡ sh.config
  unfolding peer_connected
  peer_connected-config sh id now = ground arith

  pub peer_connected-binds :
      (sh : Shared Key) (id : Key) (now : ℕ)
      → (peer_connected id_eq sh id now).runtime.binds ≡ sh.runtime.binds
  unfolding peer_connected
  peer_connected-binds sh id now = ground arith

module _ {Key : Type 0} where
  -- A listener's state is read back as it was last set or cleared, and other listeners keep theirs.
  pub bind_state-set_bind :
      (sh : Shared Key) (proto : Proto) (local : ℕ) (st : BindState) (b : Binding)
      → (bind_state (set_bind sh proto local st) b
          ≡ ite (port_key_eq (proto, local) (binding_key b)) (some st) (bind_state sh b))
        × (bind_state (clear_bind sh proto local) b
            ≡ ite (port_key_eq (proto, local) (binding_key b)) none (bind_state sh b))
  unfolding bind_state set_bind clear_bind
  bind_state-set_bind sh proto local st b = (
    get-insert port_key_eq sh.runtime.binds (proto, local) (binding_key b) st,
    get-remove port_key_eq sh.runtime.binds (proto, local) (binding_key b),
  )
