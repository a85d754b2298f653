-- ===== src/Examples/State.antt =====
-- The shared state at concrete inputs.
use rust_tunnel.Base.{ℕ, ◌≡◌, ite, some, none, [], arith, ℕ_discrete, codes}
use rust_tunnel.Config.Persist.{load}
use rust_tunnel.State.{Shared, serve, peer_connected, peer_disconnected, peer_path, PathInfo}
use rust_tunnel.State.Mutate.{IsSynced}
use rust_tunnel.State.Facts.{live, enter, repath, live_lem}
use rust_tunnel.Examples.Config.{sample_accepted}
use rust_tunnel.Examples.Samples.{sample, sample_toml, written_disk}

abbrev pub running : Shared ℕ
running = record {
  role = serve;
  config = sample;
  disk = written_disk;
  runtime = record { peers = []; binds = [] };
  started = 0;
}

pub running-IsSynced : IsSynced ℕ_discrete sample_toml running
unfolding load
running-IsSynced = record {
  valid = sample_accepted;
  on_disk = λ os reads. ground (arith, sample_accepted);
}

abbrev direct : PathInfo
direct = record { path = codes "direct"; addr = none; rtt_ms = some 12 }

live_lem_example :
    (live ℕ_discrete (peer_connected ℕ_discrete running 7 5) 7
      ≡ ite
          (ℕ_discrete 7 7)
          (enter ℕ_discrete 5 (live ℕ_discrete running 7))
          (live ℕ_discrete running 7))
    × (live ℕ_discrete (peer_disconnected ℕ_discrete running 7) 7
        ≡ ite (ℕ_discrete 7 7) none (live ℕ_discrete running 7))
    × (live ℕ_discrete (peer_path ℕ_discrete running 7 (codes "direct") none (some 12)) 7
        ≡ ite
            (ℕ_discrete 7 7)
            (repath ℕ_discrete direct (live ℕ_discrete running 7))
            (live ℕ_discrete running 7))
live_lem_example = live_lem ℕ_discrete running 7 7 5 direct
