-- ===== src/Admin/Route/Effects.antt =====
-- What a request may change.
use rust_tunnel.Config.Token.{token_eq}
use rust_tunnel.Base.{
  ◌&&◌, ◌||◌, codes, is_some, ℕ, ◌≡◌, refl, ◌≢◌, ◌⊎◌, inl, inr, Bool, true, false, Option, List,
  arith, Text, if◌then◌else◌, Bool-cases, Option-cases,
}
use rust_tunnel.Errors.{ok, err, Error, Result-cases}
use rust_tunnel.Config.Persist.{Os, RoundTrips}
use rust_tunnel.State.{Shared, mutate}
use rust_tunnel.State.Mutate.{mutate_failed, mutate-IsSynced, IsSynced}
use rust_tunnel.Admin.Edits.{add_peer_edit, patch_peer_edit, del_peer_edit, Edit, parse_id}
use rust_tunnel.Admin.Handlers.{
  Env, Handler, edit, add_peer, patch_peer, del_peer, add_offer, patch_offer, del_offer,
  add_binding, patch_binding, del_binding,
}
use rust_tunnel.Admin.Http.{
  is_get, same_text, Request, Method, get, post, patch, delete, other, presented_token,
}
use rust_tunnel.Admin.Route.{
  body_too_large, Json, Response, ok_200, answer, with_body, dispatch_peers, dispatch_offers,
  dispatch_bindings, dispatch, is_page, route,
}

module _ {Key : Type 0} (id_eq : Discrete Key) (env : Env Key) (json : Json) (os : Os) where
  -- A handler refuses before it touches the state, or makes one edit.
  abbrev Edits : Handler id_eq env os → Type 0
  Edits h =
      (sh : Shared Key)
      → ((e : Error) × (h sh ≡ (err e, sh))) ⊎ ((f : Edit Key) × (h sh ≡ edit id_eq env os f sh))

  -- The response comes with the state unchanged, or is the answer to one edit.
  pub data Outcome (sh : Shared Key) (r : Response Key × Shared Key) : Type 0 where
    unchanged : r.1 ≡ sh → Outcome sh r
    edited : (f : Edit Key) → r ≡ answer (edit id_eq env os f sh) → Outcome sh r

  Outcome-if :
      (b : Bool) (sh : Shared Key) {r s : Response Key × Shared Key}
      → Outcome sh r
      → Outcome sh s
      → Outcome sh (if b then r else s)
  Outcome-if true sh x y = x
  Outcome-if false sh x y = y

  rejected_edit :
      (f : Edit Key) (sh : Shared Key)
      → (answer (edit id_eq env os f sh)).0.status ≢ ok_200
      → ((answer (edit id_eq env os f sh)).1.config ≡ sh.config)
        × ((answer (edit id_eq env os f sh)).1.disk.file ≡ sh.disk.file)
        × ((answer (edit id_eq env os f sh)).1.runtime ≡ sh.runtime)
  unfolding answer
  rejected_edit f sh h = elim (Result-cases (mutate id_eq env.toml os f sh).0) [
    | inl (u, e) ↦ absurd (ground arith)
    | inr (x, e) ↦ ground (arith, mutate_failed id_eq env.toml os f sh x e)
  ]

  answer-IsSynced :
      (f : Edit Key) (sh : Shared Key)
      → RoundTrips env.toml
      → IsSynced id_eq env.toml sh
      → IsSynced id_eq env.toml (answer (edit id_eq env os f sh)).1
  unfolding answer
  answer-IsSynced f sh r v = elim (Result-cases (mutate id_eq env.toml os f sh).0) [
    | inl (u, e) ↦ rw e (mutate-IsSynced id_eq env.toml os f sh r v)
    | inr (x, e) ↦ rw e (mutate-IsSynced id_eq env.toml os f sh r v)
  ]

  with_body-Outcome :
      {T : Type 0} (parse : List ℕ → Option T) (h : T → Handler id_eq env os)
      → ((v : T) → Edits (h v))
      → (req : Request) (sh : Shared Key) → Outcome sh (with_body parse h req sh)
  unfolding with_body answer
  with_body-Outcome parse h edits req sh = elim (Bool-cases (body_too_large req.body.size_upper)) [
    | inl large ↦ unchanged (rw large)
    | inr fits ↦ elim (Option-cases req.body.bytes) [
      | inl unread ↦ unchanged (ground arith)
      | inr (bs, e) ↦ elim (Option-cases (parse bs)) [
        | inl junk ↦ unchanged (ground arith)
        | inr (v, parsed) ↦ elim (edits v sh) [
          | inl (x, refused) ↦ unchanged (ground arith)
          | inr (f, by_edit) ↦ edited f (ground arith)
        ]
      ]
    ]
  ]

  -- The handlers.
  parses :
      (s : Text) (f : Key → Edit Key) (h : Handler id_eq env os)
      → ((sh : Shared Key) (e : Error) → parse_id env.parse_key s ≡ err e → h sh ≡ (err e, sh))
      → ((sh : Shared Key) (id : Key)
          → parse_id env.parse_key s ≡ ok id
          → h sh ≡ edit id_eq env os (f id) sh)
      → Edits h
  parses s f h bad good sh = elim (Result-cases (parse_id env.parse_key s)) [
    | inl (id, e) ↦ inr (f id, good sh id e)
    | inr (x, e) ↦ inl (x, bad sh x e)
  ]

  dispatch_peers-Outcome :
      (m : Method) (now : ℕ) (req : Request) (sh : Shared Key)
      → Outcome sh (dispatch_peers id_eq env json os now m req sh)
  unfolding add_peer patch_peer del_peer
  dispatch_peers-Outcome post now req sh =
      with_body-Outcome json.peer_add (add_peer id_eq env os)
        (λ b. parses b.id (λ id. add_peer_edit id_eq id b.name) _ (λ s e x. rw x) (λ s id x. rw x))
        req sh
  dispatch_peers-Outcome patch now req sh =
      with_body-Outcome json.peer_patch (patch_peer id_eq env os)
        (λ b.
          parses b.id (λ id. patch_peer_edit id_eq id b.name b.enabled) _ (λ s e x. rw x)
            (λ s id x. rw x))
        req sh
  dispatch_peers-Outcome delete now req sh =
      with_body-Outcome json.id_ref (del_peer id_eq env os)
        (λ b. parses b.id (λ id. del_peer_edit id_eq id) _ (λ s e x. rw x) (λ s id x. rw x)) req sh
  dispatch_peers-Outcome get now req sh = unchanged refl
  dispatch_peers-Outcome other now req sh = unchanged refl

  dispatch_offers-Outcome :
      (m : Method) (now : ℕ) (req : Request) (sh : Shared Key)
      → Outcome sh (dispatch_offers id_eq env json os now m req sh)
  unfolding add_offer patch_offer del_offer
  dispatch_offers-Outcome post now req sh =
      with_body-Outcome json.offer_add (add_offer id_eq env os) (λ b s. inr (_, refl)) req sh
  dispatch_offers-Outcome patch now req sh =
      with_body-Outcome json.offer_patch (patch_offer id_eq env os) (λ b s. inr (_, refl)) req sh
  dispatch_offers-Outcome delete now req sh =
      with_body-Outcome json.offer_ref (del_offer id_eq env os) (λ b s. inr (_, refl)) req sh
  dispatch_offers-Outcome get now req sh = unchanged refl
  dispatch_offers-Outcome other now req sh = unchanged refl

  dispatch_bindings-Outcome :
      (m : Method) (now : ℕ) (req : Request) (sh : Shared Key)
      → Outcome sh (dispatch_bindings id_eq env json os now m req sh)
  unfolding add_binding patch_binding del_binding
  dispatch_bindings-Outcome post now req sh =
      with_body-Outcome json.binding_add (add_binding id_eq env os) (λ b s. inr (_, refl)) req sh
  dispatch_bindings-Outcome patch now req sh =
      with_body-Outcome json.binding_patch (patch_binding id_eq env os) (λ b s. inr (_, refl)) req
        sh
  dispatch_bindings-Outcome delete now req sh =
      with_body-Outcome json.binding_ref (del_binding id_eq env os) (λ b s. inr (_, refl)) req sh
  dispatch_bindings-Outcome get now req sh = unchanged refl
  dispatch_bindings-Outcome other now req sh = unchanged refl

  dispatch-Outcome :
      (now : ℕ) (req : Request) (sh : Shared Key)
      → Outcome sh (dispatch id_eq env json os now req sh)
  unfolding dispatch
  dispatch-Outcome now req sh =
      Outcome-if (is_get req.method && same_text req.path (codes "/api/state")) sh (unchanged refl)
        (Outcome-if (same_text req.path (codes "/api/peers")) sh
          (dispatch_peers-Outcome req.method now req sh)
          (Outcome-if (same_text req.path (codes "/api/offers")) sh
            (dispatch_offers-Outcome req.method now req sh)
            (Outcome-if (same_text req.path (codes "/api/bindings")) sh
              (dispatch_bindings-Outcome req.method now req sh) (unchanged refl))))

  -- A request changes the shared state by one edit through `mutate`, or not at all.
  pub route-Outcome :
      (now : ℕ) (req : Request) (sh : Shared Key) → Outcome sh (route id_eq env json os now req sh)
  unfolding route
  route-Outcome now req sh =
      Outcome-if (is_page req) sh (unchanged refl) (elim (Option-cases (presented_token req)) [
        | inl missing ↦ rw missing (unchanged refl)
        | inr (tok, e) ↦ rw e (
            Outcome-if (token_eq tok env.token) sh
              (Outcome-if (is_get req.method || is_some req.authorization) sh
                (dispatch-Outcome now req sh) (unchanged refl))
              (unchanged refl))
      ])

  -- A response with another status than 200 comes with the running configuration, the configuration
  -- file and the runtime facts as they were.
  pub route_rejected :
      (now : ℕ) (req : Request) (sh : Shared Key)
      → (route id_eq env json os now req sh).0.status ≢ ok_200
      → ((route id_eq env json os now req sh).1.config ≡ sh.config)
        × ((route id_eq env json os now req sh).1.disk.file ≡ sh.disk.file)
        × ((route id_eq env json os now req sh).1.runtime ≡ sh.runtime)
  route_rejected now req sh h = elim (route-Outcome now req sh) [
    | unchanged same ↦ rw same (refl, refl, refl)
    | edited f e ↦ rw e (rejected_edit f sh (rw e at h))
  ]

  -- Given that the toml crate round-trips, every request leaves a running configuration that is valid
  -- and that a restart loads from the disk.
  pub route-IsSynced :
      (now : ℕ) (req : Request) (sh : Shared Key)
      → RoundTrips env.toml
      → IsSynced id_eq env.toml sh
      → IsSynced id_eq env.toml (route id_eq env json os now req sh).1
  route-IsSynced now req sh r v = elim (route-Outcome now req sh) [
    | unchanged same ↦ rw same v
    | edited f e ↦ rw e (answer-IsSynced f sh r v)
  ]
