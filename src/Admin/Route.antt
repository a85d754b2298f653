-- ===== src/Admin/Route.antt =====
-- `route` and `with_body` of admin.rs. serde_json is a parameter.
pub mod Auth
pub mod Mutations
pub mod Effects
use rust_tunnel.Base.{
  ℕ, ◌*◌, Bool, true, false, ◌&&◌, ◌||◌, Option, none, some, List, [], ◌∷◌, ltb, ◌==◌,
  if◌then◌else◌, is_some, Text, codes,
}
use rust_tunnel.Errors.{Result, ok, err}
use rust_tunnel.Exec.{Exec}
use rust_tunnel.Config.Persist.{Os}
use rust_tunnel.Config.Token.{token_eq}
use rust_tunnel.Admin.Http.{
  Method, get, post, patch, delete, other, Request, same_text, presented_token, is_get,
}
use rust_tunnel.State.{Shared}
use rust_tunnel.Admin.Handlers.{
  PeerAdd, PeerPatch, IdRef, OfferRef, OfferAdd, OfferPatch, BindingAdd, BindingPatch, BindingRef,
  Reply, page, accepted, message, state, Env, get_state, add_peer, patch_peer, del_peer, add_offer,
  patch_offer, del_offer, add_binding, patch_binding, del_binding,
}

pub data Status : Type 0 where
  ok_200 bad_request_400 unauthorized_401 not_found_404 too_large_413 unprocessable_422 : Status

pub record Response (Key : Type 0) : Type 0 where
  pub status : Status
  pub reply : Reply Key

-- `serde_json::from_slice`, at each type of body.
pub record Json : Type 0 where
  pub peer_add : List ℕ → Option PeerAdd
  pub peer_patch : List ℕ → Option PeerPatch
  pub id_ref : List ℕ → Option IdRef
  pub offer_ref : List ℕ → Option OfferRef
  pub offer_add : List ℕ → Option OfferAdd
  pub offer_patch : List ℕ → Option OfferPatch
  pub binding_add : List ℕ → Option BindingAdd
  pub binding_patch : List ℕ → Option BindingPatch
  pub binding_ref : List ℕ → Option BindingRef

abbrev pub max_body : ℕ
max_body = 64 * 1024

abbrev pub error : {Key : Type 0} → Status → Response Key
error st = record { status = st; reply = message }

abbrev pub page_response : {Key : Type 0} → Response Key
page_response = record { status = ok_200; reply = page }

-- The end of `with_body`: the answer for what the handler returned.
unfoldable pub answer : {Key : Type 0} → Result (Reply Key) × Shared Key → Response Key × Shared Key
answer (ok r, sh) = (record { status = ok_200; reply = r }, sh)
answer (err e, sh) = (error unprocessable_422, sh)

abbrev pub body_too_large : Option ℕ → Bool
body_too_large none = true
body_too_large (some n) = ltb max_body n

unfoldable pub with_body :
    {Key T : Type 0}
    → (List ℕ → Option T)
    → (T → Exec (Shared Key) (Reply Key))
    → Request
    → Shared Key
    → Response Key × Shared Key
with_body parse f req sh =
    if body_too_large req.body.size_upper then (error too_large_413, sh) else elim req.body.bytes [
      | none ↦ (error bad_request_400, sh)
      | some bs ↦ elim (parse bs) [ none ↦ (error bad_request_400, sh) | some v ↦ answer (f v sh) ]
    ]

unfoldable pub is_page : Request → Bool
is_page req =
    is_get req.method
    && (same_text req.path (codes "/") || same_text req.path (codes "/index.html"))

module _ {Key : Type 0} (id_eq : Discrete Key) (env : Env Key) (json : Json) (os : Os)
    (now : ℕ) where
  -- The table of endpoints, behind the checks of `route`.
  abbrev pub dispatch_peers : Method → Request → Shared Key → Response Key × Shared Key
  dispatch_peers post req sh = with_body json.peer_add (add_peer id_eq env os) req sh
  dispatch_peers patch req sh = with_body json.peer_patch (patch_peer id_eq env os) req sh
  dispatch_peers delete req sh = with_body json.id_ref (del_peer id_eq env os) req sh
  dispatch_peers _ req sh = (error not_found_404, sh)

  abbrev pub dispatch_offers : Method → Request → Shared Key → Response Key × Shared Key
  dispatch_offers post req sh = with_body json.offer_add (add_offer id_eq env os) req sh
  dispatch_offers patch req sh = with_body json.offer_patch (patch_offer id_eq env os) req sh
  dispatch_offers delete req sh = with_body json.offer_ref (del_offer id_eq env os) req sh
  dispatch_offers _ req sh = (error not_found_404, sh)

  abbrev pub dispatch_bindings : Method → Request → Shared Key → Response Key × Shared Key
  dispatch_bindings post req sh = with_body json.binding_add (add_binding id_eq env os) req sh
  dispatch_bindings patch req sh = with_body json.binding_patch (patch_binding id_eq env os) req sh
  dispatch_bindings delete req sh = with_body json.binding_ref (del_binding id_eq env os) req sh
  dispatch_bindings _ req sh = (error not_found_404, sh)

  unfoldable pub dispatch : Request → Shared Key → Response Key × Shared Key
  dispatch req sh =
      if is_get req.method && same_text req.path (codes "/api/state")
      then (record { status = ok_200; reply = state (get_state env now sh) }, sh)
      else if same_text req.path (codes "/api/peers")
      then dispatch_peers req.method req sh
      else if same_text req.path (codes "/api/offers")
      then dispatch_offers req.method req sh
      else if same_text req.path (codes "/api/bindings")
      then dispatch_bindings req.method req sh
      else (error not_found_404, sh)

  unfoldable pub route : Request → Shared Key → Response Key × Shared Key
  route req sh = if is_page req then (page_response, sh) else elim (presented_token req) [
    | none ↦ (error unauthorized_401, sh)
    | some tok ↦
        if token_eq tok env.token
        then if is_get req.method || is_some req.authorization
          then dispatch req sh
          else (error unauthorized_401, sh)
        else (error unauthorized_401, sh)
  ]
