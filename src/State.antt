-- ===== src/State.antt =====
-- state.rs: what the admin surface and the data plane share. `config` is the value that the watch
-- channel holds. Time is a number of milliseconds and an argument of each call that reads the clock;
-- a mutex guards each method as a whole, so a method is one step.
pub mod Mutate
pub mod Facts
use rust_tunnel.Base.{
  ℕ, ◌-◌, ◌/◌, Bool, true, false, Option, none, some, List, [], ◌∷◌, map, Map, get, insert, remove,
  Text, codes,
}
use rust_tunnel.Errors.{Result, ok, err, persisting, Error}
use rust_tunnel.Exec.{Exec, pure, lift, gets, modify, in_context_of, ◌>>=◌, ◌>>◌}
use rust_tunnel.Config.Types.{Proto, PortKey, port_key_eq, Binding, Config, binding_key}
use rust_tunnel.Config.Validate.{validate}
use rust_tunnel.Config.Persist.{Disk, Os, Toml, save}

pub data Role : Type 0 where
  serve connect : Role

pub data BindState : Type 0 where
  listening : BindState
  failed : Text → BindState

pub record PathInfo : Type 0 where
  pub path : Text
  pub addr : Option Text
  pub rtt_ms : Option ℕ

pub record PeerLive (Key : Type 0) : Type 0 where
  pub id : Key
  pub path : Text
  pub addr : Option Text
  pub rtt_ms : Option ℕ
  pub since_secs : ℕ

pub record Runtime (Key : Type 0) : Type 0 where
  pub peers : Map Key (ℕ × PathInfo)
  pub binds : Map PortKey BindState

pub record Shared (Key : Type 0) : Type 0 where
  pub role : Role
  pub config : Config Key
  pub disk : Disk
  pub runtime : Runtime Key
  pub started : ℕ

-- `PathInfo::default()`
abbrev pub no_path : PathInfo
no_path = record { path = []; addr = none; rtt_ms = none }

-- `Shared::new`; `disk` is what the configuration path holds.
unfoldable pub new : {Key : Type 0} → Config Key → Disk → Role → ℕ → Shared Key
new cfg disk role now = record {
  role = role;
  config = cfg;
  disk = disk;
  runtime = record { peers = []; binds = [] };
  started = now;
}

unfoldable pub uptime_secs : {Key : Type 0} → Shared Key → ℕ → ℕ
uptime_secs sh now = (now - sh.started) / 1000

module _ {Key : Type 0} (id_eq : Discrete Key) (toml : Toml Key) where
  -- `config::save` on the disk of the shared state.
  abbrev save_shared : Os → Config Key → Exec (Shared Key) (Unit {0})
  save_shared os c sh = let (r, d) = save id_eq toml os c sh.disk in (r, record sh { disk = d })

  -- `Shared::mutate`. The closure gets a copy of the configuration, changes it and may fail.
  unfoldable pub mutate :
      {T : Type 0} → Os → (Config Key → Result (T × Config Key)) → Exec (Shared Key) T
  mutate os f = do
    cfg ← gets (λ (sh : Shared Key). sh.config)
    (out, next) ← lift (f cfg)
    lift (validate id_eq next)
    in_context_of persisting (save_shared os next)
    modify (λ (sh : Shared Key). record sh { config = next })
    pure out

module _ {Key : Type 0} (id_eq : Discrete Key) where
  abbrev with_peers : Shared Key → Map Key (ℕ × PathInfo) → Shared Key
  with_peers sh ps = record sh { runtime = record (sh.runtime) { peers = ps } }

  -- `entry(id).or_insert_with(..)`
  unfoldable pub peer_connected : Shared Key → Key → ℕ → Shared Key
  peer_connected sh id now = elim (get id_eq sh.runtime.peers id) [
    | none ↦ with_peers sh (insert id_eq sh.runtime.peers id (now, no_path))
    | some _ ↦ sh
  ]

  unfoldable pub peer_disconnected : Shared Key → Key → Shared Key
  peer_disconnected sh id = with_peers sh (remove id_eq sh.runtime.peers id)

  -- `get_mut(&id)`: an unknown peer is left out.
  unfoldable pub peer_path : Shared Key → Key → Text → Option Text → Option ℕ → Shared Key
  peer_path sh id path addr rtt_ms = elim (get id_eq sh.runtime.peers id) [
    | none ↦ sh
    | some (since, _) ↦ with_peers sh (
        insert id_eq sh.runtime.peers id
          (since, record { path = path; addr = addr; rtt_ms = rtt_ms }))
  ]

-- One row of `live_peers`. The printed forms of the id are left out.
unfoldable pub peer_row : {Key : Type 0} → ℕ → Key × (ℕ × PathInfo) → PeerLive Key
peer_row now (id, (since, info)) = record {
  id = id;
  path = elim info.path [ [] ↦ codes "pending" | c ∷ cs ↦ info.path ];
  addr = info.addr;
  rtt_ms = info.rtt_ms;
  since_secs = (now - since) / 1000;
}

-- `live_peers`. The source lists the peers in the order of their ids.
unfoldable pub live_peers : {Key : Type 0} → Shared Key → ℕ → List (PeerLive Key)
live_peers sh now = map (peer_row now) sh.runtime.peers

module _ {Key : Type 0} where
  abbrev with_binds : Shared Key → Map PortKey BindState → Shared Key
  with_binds sh bs = record sh { runtime = record (sh.runtime) { binds = bs } }

  unfoldable pub set_bind : Shared Key → Proto → ℕ → BindState → Shared Key
  set_bind sh proto local st = with_binds sh (insert port_key_eq sh.runtime.binds (proto, local) st)

  unfoldable pub clear_bind : Shared Key → Proto → ℕ → Shared Key
  clear_bind sh proto local = with_binds sh (remove port_key_eq sh.runtime.binds (proto, local))

  unfoldable pub bind_state : Shared Key → Binding → Option BindState
  bind_state sh b = get port_key_eq sh.runtime.binds (binding_key b)
