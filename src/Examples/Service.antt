-- ===== src/Examples/Service.antt =====
-- The admin surface over a run of requests.
use rust_tunnel.Base.{ℕ, [], ◌∷◌, List, All, ℕ_discrete}
use rust_tunnel.State.Mutate.{IsSynced}
use rust_tunnel.Admin.Http.{presented_token, bearer_token, query_token}
use rust_tunnel.Admin.Service.{
  Event, accept_failed, accepted, ended, requested, data_plane, Panel, serve,
}
use rust_tunnel.Admin.Service.Effects.{IsForeign, Untouched, serve-IsSynced, serve-Untouched}
use rust_tunnel.Examples.State.{running, running-IsSynced}
use rust_tunnel.Examples.Admin.{env, json, anonymous, basic, signed}
use rust_tunnel.Examples.Samples.{sample_toml, sample_toml-RoundTrips, healthy, full_disk}

abbrev fresh : Panel ℕ
fresh = record { shared = running; conns = []; sent = [] }

-- Two clients, the second of which has the token.
abbrev session : List (Event ℕ)
session =
    accepted 1
    ∷ accept_failed
    ∷ accepted 2
    ∷ requested 1 healthy 3 anonymous
    ∷ requested 2 full_disk 4 signed
    ∷ data_plane (record { peers = []; binds = [] })
    ∷ requested 2 healthy 5 basic
    ∷ ended 1
    ∷ []

serve-IsSynced_example :
    IsSynced ℕ_discrete sample_toml (serve ℕ_discrete env json session fresh).shared
serve-IsSynced_example =
    serve-IsSynced ℕ_discrete env json session fresh sample_toml-RoundTrips running-IsSynced

abbrev intrusion : List (Event ℕ)
intrusion =
    accepted 1 ∷ requested 1 healthy 3 anonymous ∷ requested 1 healthy 4 anonymous ∷ ended 1 ∷ []

intrusion-IsForeign : All (IsForeign ℕ_discrete env json) intrusion
unfolding presented_token bearer_token query_token
intrusion-IsForeign = (tt, ((λ e. cc), ((λ e. cc), (tt, tt))))

serve-Untouched_example :
    Untouched ℕ_discrete env json fresh (serve ℕ_discrete env json intrusion fresh)
serve-Untouched_example = serve-Untouched ℕ_discrete env json intrusion fresh intrusion-IsForeign
