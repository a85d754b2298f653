-- ===== src/Examples/Admin.antt =====
-- The admin surface at concrete requests.
use rust_tunnel.Base.{
  ℕ, ◌≡◌, refl, ◌≢◌, ◌↔◌, inr, true, is_some, some, none, [], arith, ℕ_discrete, codes,
}
use rust_tunnel.Config.Token.{trim, trim_start, trim_end}
use rust_tunnel.Admin.Handlers.{Env}
use rust_tunnel.Admin.Http.{
  Request, post, strip_prefix, split, split_once, find_t, query_token, bearer_token,
  presented_token,
}
use rust_tunnel.Admin.Route.{Json, ok_200, unauthorized_401, route}
use rust_tunnel.Admin.Route.Auth.{route_headerless}
use rust_tunnel.Admin.Route.Mutations.{Presents, route_mutation_iff}
use rust_tunnel.Admin.Route.Effects.{route_rejected}
use rust_tunnel.Examples.State.{running}
use rust_tunnel.Examples.Samples.{sample_toml, healthy}

abbrev pub env : Env ℕ
env = record { toml = sample_toml; parse_key = λ t. some 9; admin_id = 1; token = codes "k3y" }

-- Every body parses to the same value of its type.
abbrev pub json : Json
json = record {
  peer_add = λ bs. some (record { id = codes "9"; name = [] });
  peer_patch = λ bs. none;
  id_ref = λ bs. some (record { id = codes "9" });
  offer_ref = λ bs. none;
  offer_add = λ bs. none;
  offer_patch = λ bs. none;
  binding_add = λ bs. none;
  binding_patch = λ bs. none;
  binding_ref = λ bs. none;
}

abbrev pub anonymous : Request
anonymous = record {
  method = post;
  path = codes "/api/peers";
  query = none;
  authorization = none;
  body = record { size_upper = some 20; bytes = some [] };
}

abbrev pub basic : Request
basic = record anonymous {
  query = some (codes "a=b&t=k3y");
  authorization = some (some (codes "Basic x"));
}

abbrev pub signed : Request
signed = record anonymous { authorization = some (some (codes "Bearer k3y ")) }

tokens :
    (presented_token anonymous ≡ none)
    × (presented_token basic ≡ some (codes "k3y"))
    × (presented_token signed ≡ some (codes "k3y"))
unfolding presented_token bearer_token strip_prefix query_token split split_once find_t trim
    trim_start trim_end
tokens = (refl, refl, refl)

route_mutation_iff_example :
    ((route ℕ_discrete env json healthy 3 basic running).0.status ≢ unauthorized_401)
    ↔ ((is_some basic.authorization ≡ true) × Presents ℕ_discrete env json healthy basic)
route_mutation_iff_example = route_mutation_iff ℕ_discrete env json healthy basic 3 running refl

-- The token is in the query, and the header has another scheme.
basic-Presents : Presents ℕ_discrete env json healthy basic
unfolding bearer_token strip_prefix query_token split split_once find_t
basic-Presents = inr (refl, refl)

anonymous_status : (route ℕ_discrete env json healthy 3 anonymous running).0.status ≢ ok_200
anonymous_status h =
    ground (arith, route_headerless ℕ_discrete env json healthy anonymous 3 running refl refl)

route_rejected_example :
    ((route ℕ_discrete env json healthy 3 anonymous running).1.config ≡ running.config)
    × ((route ℕ_discrete env json healthy 3 anonymous running).1.disk.file ≡ running.disk.file)
    × ((route ℕ_discrete env json healthy 3 anonymous running).1.runtime ≡ running.runtime)
route_rejected_example =
    route_rejected ℕ_discrete env json healthy 3 anonymous running anonymous_status
