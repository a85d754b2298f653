-- ===== src/Start.antt =====
-- main.rs: how `rtun serve` and `rtun connect` come to the configuration that they run with. The
-- endpoint, the admin listener and the data plane are started after that, with the configuration that
-- comes out here.
pub mod Flags
pub mod Again
pub mod Address
pub mod Command
use rust_tunnel.Base.{ℕ, Bool, true, false, not, ◌&&◌, List, [], ◌∷◌, if◌then◌else◌}
use rust_tunnel.Errors.{ok, err, no_peers, no_bindings}
use rust_tunnel.Exec.{Exec, pure, lift, ◌>>=◌, ◌>>◌}
use rust_tunnel.Config.Types.{Config, PortMap}
use rust_tunnel.Config.Persist.{Disk, Os, Toml, load, save}
use rust_tunnel.Config.Seed.{seed_from_flags, seed_bindings}

-- `Vec::is_empty`
abbrev pub is_empty {ℓ} : {A : Type ℓ} → List A → Bool
is_empty [] = true
is_empty (x ∷ xs) = false

module _ {Key : Type 0} (id_eq : Discrete Key) (toml : Toml Key) where
  -- `config::load`, and `config::save` if the flags changed something. The operating system answers
  -- each of the two calls.
  unfoldable pub load_seeded : Os → Os → (Config Key → Config Key × Bool) → Exec Disk (Config Key)
  load_seeded loading saving seed = do
    c ← λ d. (load id_eq toml loading d, d)
    let (seeded, changed) = seed c
    (if changed then save id_eq toml saving seeded else pure tt)
    pure seeded

  -- `Cmd::Serve`
  unfoldable pub start_serve : Os → Os → Bool → List Key → List ℕ → List ℕ → Exec Disk (Config Key)
  start_serve loading saving admin allow tcps udps = do
    c ← load_seeded loading saving (λ c. seed_from_flags id_eq c allow tcps udps)
    lift (if is_empty c.serve.peers && not admin then err no_peers else ok tt)
    pure c

  -- `Cmd::Connect`
  unfoldable pub start_connect :
      Os → Os → Bool → List PortMap → List PortMap → Exec Disk (Config Key)
  start_connect loading saving admin tcps udps = do
    c ← load_seeded loading saving (λ c. seed_bindings c tcps udps)
    lift (if is_empty c.connect.bindings && not admin then err no_bindings else ok tt)
    pure c
