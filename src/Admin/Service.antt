-- ===== src/Admin/Service.antt =====
-- `serve` of admin.rs: its accept loop, with a task for each connection. hyper reads the requests off a
-- connection and hands each to `route`; the data plane changes the runtime facts meanwhile. `route`
-- touches the shared state only once the body has been read, so a request is one event.
pub mod Effects
use rust_tunnel.Base.{ℕ, not, List, [], ◌∷◌, ◌==◌, if◌then◌else◌, filter}
use rust_tunnel.Config.Grants.{contains}
use rust_tunnel.Config.Persist.{Os}
use rust_tunnel.State.{Runtime, Shared}
use rust_tunnel.Admin.Handlers.{Env}
use rust_tunnel.Admin.Http.{Request}
use rust_tunnel.Admin.Route.{Json, Response, route}

-- What the loop and its tasks meet, a connection being a number.
pub data Event (Key : Type 0) : Type 0 where
  accept_failed : Event Key
  accepted ended : ℕ → Event Key
  requested : ℕ → Os → ℕ → Request → Event Key
  data_plane : Runtime Key → Event Key

-- The shared state, the connections that are open, and the responses so far, the last one first.
pub record Panel (Key : Type 0) : Type 0 where
  pub shared : Shared Key
  pub conns : List ℕ
  pub sent : List (ℕ × Response Key)

module _ {Key : Type 0} (id_eq : Discrete Key) (env : Env Key) (json : Json) where
  -- A request on an open connection.
  unfoldable pub respond : ℕ → Os → ℕ → Request → Panel Key → Panel Key
  respond conn os now req p =
      let (response, sh) = route id_eq env json os now req p.shared in
      record p { shared = sh; sent = (conn, response) ∷ p.sent }

  unfoldable pub on_event : Event Key → Panel Key → Panel Key
  on_event accept_failed p = p
  on_event (accepted conn) p = record p { conns = conn ∷ p.conns }
  on_event (ended conn) p = record p { conns = filter (λ c. not (c == conn)) p.conns }
  on_event (requested conn os now req) p =
      if contains p.conns conn then respond conn os now req p else p
  on_event (data_plane r) p = record p { shared = record (p.shared) { runtime = r } }

  -- The service over a run of events.
  unfoldable pub serve : List (Event Key) → Panel Key → Panel Key
  serve [] p = p
  serve (e ∷ es) p = serve es (on_event e p)
