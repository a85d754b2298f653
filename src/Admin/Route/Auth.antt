-- ===== src/Admin/Route/Auth.antt =====
-- Who may do what on the admin surface.
use rust_tunnel.Base.{
  ℕ, ◌≡◌, ◌≢◌, true, false, none, some, arith, if◌then◌else◌, inl, inr, Option-cases,
}
use rust_tunnel.Config.Persist.{Os}
use rust_tunnel.Config.Token.Compare.{token_eq_iff}
use rust_tunnel.State.{Shared}
use rust_tunnel.Admin.Handlers.{Env}
use rust_tunnel.Admin.Http.{Request, is_get, presented_token}
use rust_tunnel.Admin.Route.{Json, page_response, unauthorized_401, error, dispatch, is_page, route}

module _ {Key : Type 0} (id_eq : Discrete Key) (env : Env Key) (json : Json) (os : Os) where
  -- A request that does not present exactly the token of the process gets the page, if it asks for the
  -- page, and otherwise status 401; it changes nothing.
  pub route_unauthorized :
      (req : Request) (now : ℕ) (sh : Shared Key)
      → presented_token req ≢ some env.token
      → route id_eq env json os now req sh
        ≡ (if is_page req then page_response else error unauthorized_401, sh)
  unfolding route
  route_unauthorized req now sh h = elim (Option-cases (presented_token req)) [
    | inl missing ↦ ground arith
    | inr (tok, e) ↦ ground (arith, token_eq_iff tok env.token)
  ]

  -- A request that is no GET and has no Authorization header gets status 401 and changes nothing, also
  -- when its query carries the token.
  pub route_headerless :
      (req : Request) (now : ℕ) (sh : Shared Key)
      → is_get req.method ≡ false
      → req.authorization ≡ none
      → route id_eq env json os now req sh ≡ (error unauthorized_401, sh)
  unfolding route is_page
  route_headerless req now sh m a = ground arith

  -- A GET changes nothing.
  pub route-get :
      (req : Request) (now : ℕ) (sh : Shared Key)
      → is_get req.method ≡ true
      → (route id_eq env json os now req sh).1 ≡ sh
  unfolding route dispatch
  route-get req now sh m = ground arith
