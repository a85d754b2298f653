-- ===== src/Start/Command.antt =====
-- The commands of main.rs as a whole: `main` for `Cmd::Id`, `Cmd::Serve` and `Cmd::Connect` up to the
-- data plane, with `bind_endpoint` and `start_admin`. The state is what the state directory holds. The
-- endpoint and the admin listener are bound or not, as the network answers.
pub mod Parts
pub mod Again
use rust_tunnel.Base.{ℕ, Bool, true, false, Option, none, some, is_some, List, if◌then◌else◌, Text}
use rust_tunnel.Errors.{Result, ok, err, io}
use rust_tunnel.Exec.{Exec, pure, lift, ◌>>=◌, ◌>>◌}
use rust_tunnel.Config.Types.{Config, PortMap}
use rust_tunnel.Config.Persist.{Disk, Os, Toml}
use rust_tunnel.Config.Token.{TokenOs, load_or_create_token}
use rust_tunnel.State.{Role, serve, connect, Shared, new}
use rust_tunnel.Identity.{Keys, KeyOs, KeyFile, load_or_create_key}
use rust_tunnel.Start.{start_serve, start_connect}
use rust_tunnel.Start.Address.{Sockets, admin_addr}

-- `config.toml` with its temporary file, `secret.key` and `admin.token`.
pub record Home : Type 0 where
  pub disk : Disk
  pub key : KeyFile
  pub token : Option Text

-- What one start is answered, and what the generators give it.
pub record Around (Secret : Type 0) : Type 0 where
  pub loading : Os
  pub saving : Os
  pub key_os : KeyOs
  pub token_os : TokenOs
  pub endpoint_binds : Bool
  pub listener_binds : Bool
  pub fresh : Secret
  pub random : List ℕ
  pub now : ℕ

pub record Admin (Ip : Type 0) : Type 0 where
  pub addr : Ip × ℕ
  pub token : Text

-- What the data plane is started with.
pub record Running (Key Secret Ip : Type 0) : Type 0 where
  pub shared : Shared Key
  pub endpoint : Secret
  pub admin : Option (Admin Ip)

-- The parts of the state directory.
abbrev on_disk : {T : Type 0} → Exec Disk T → Exec Home T
on_disk run h = let (answer, d) = run h.disk in (answer, record h { disk = d })

abbrev on_key : {T : Type 0} → Exec KeyFile T → Exec Home T
on_key run h = let (answer, k) = run h.key in (answer, record h { key = k })

abbrev on_token : {T : Type 0} → Exec (Option Text) T → Exec Home T
on_token run h = let (answer, t) = run h.token in (answer, record h { token = t })

-- `?` on the answer of the network.
abbrev binds : Bool → Result (Unit {0})
binds b = if b then ok tt else err io

module _ {Secret : Type 0} (keys : Keys Secret) where
  -- `bind_endpoint`, with the key that the endpoint gets. The transports are left out.
  unfoldable pub bind_endpoint : Around Secret → Exec Home Secret
  bind_endpoint a = do
    secret ← on_key (load_or_create_key keys a.key_os a.fresh)
    lift (binds a.endpoint_binds)
    pure secret

  -- `Cmd::Id`: the printed id is the public half of this key.
  unfoldable pub run_id : Around Secret → Exec Home Secret
  run_id a = on_key (load_or_create_key keys a.key_os a.fresh)

module _ {Secret Ip : Type 0} (sockets : Sockets Ip) where
  -- `start_admin`
  unfoldable pub start_admin : Around Secret → Text → Exec Home (Admin Ip)
  start_admin a spec = do
    addr ← lift (admin_addr sockets spec)
    token ← on_token (load_or_create_token a.token_os a.random)
    lift (binds a.listener_binds)
    pure (record { addr = addr; token = token })

  -- `if let Some(spec) = &admin`
  unfoldable pub maybe_admin : Around Secret → Option Text → Exec Home (Option (Admin Ip))
  maybe_admin a none = pure none
  maybe_admin a (some spec) = do admin ← start_admin a spec; pure (some admin)

module _ {Key Secret Ip : Type 0} (keys : Keys Secret) (sockets : Sockets Ip) where
  -- What both commands do once they have their configuration.
  unfoldable pub launch :
      Around Secret → Option Text → Role → Config Key → Exec Home (Running Key Secret Ip)
  launch a admin role c = do
    secret ← bind_endpoint keys a
    sh ← λ (h : Home). (ok (new c h.disk role a.now), h)
    panel ← maybe_admin sockets a admin
    pure (record { shared = sh; endpoint = secret; admin = panel })

module _ {Key Secret Ip : Type 0} (id_eq : Discrete Key) (toml : Toml Key) (keys : Keys Secret)
    (sockets : Sockets Ip) where
  -- `Cmd::Serve`
  unfoldable pub run_serve :
      Around Secret → Option Text → List Key → List ℕ → List ℕ → Exec Home (Running Key Secret Ip)
  run_serve a admin allow tcps udps = do
    c ← on_disk (start_serve id_eq toml a.loading a.saving (is_some admin) allow tcps udps)
    launch keys sockets a admin serve c

  -- `Cmd::Connect`
  unfoldable pub run_connect :
      Around Secret → Option Text → List PortMap → List PortMap → Exec Home (Running Key Secret Ip)
  run_connect a admin tcps udps = do
    c ← on_disk (start_connect id_eq toml a.loading a.saving (is_some admin) tcps udps)
    launch keys sockets a admin connect c
