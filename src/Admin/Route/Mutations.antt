-- ===== src/Admin/Route/Mutations.antt =====
-- Which requests to change something get past the checks of `route`.
use rust_tunnel.Base.{
  ℕ, ◌≡◌, refl, subst, ◌≢◌, ◌↔◌, ◌⊎◌, inl, inr, Bool, true, false, ◌&&◌, Option, none, some, List,
  arith, if◌then◌else◌, Bool-cases, Option-cases, is_some, codes,
}
use rust_tunnel.Errors.{ok, err, Result}
use rust_tunnel.Exec.{Exec}
use rust_tunnel.Config.Persist.{Os}
use rust_tunnel.Config.Token.{token_eq}
use rust_tunnel.Config.Token.Compare.{token_eq_iff}
use rust_tunnel.State.{Shared}
use rust_tunnel.Admin.Handlers.{
  Env, Reply, add_peer, patch_peer, del_peer, add_offer, patch_offer, del_offer, add_binding,
  patch_binding, del_binding,
}
use rust_tunnel.Admin.Http.{
  Method, get, post, patch, delete, other, Request, is_get, same_text, presented_token,
  bearer_token, query_token,
}
use rust_tunnel.Admin.Route.{
  Json, Response, unauthorized_401, answer, body_too_large, with_body, dispatch_peers,
  dispatch_offers, dispatch_bindings, dispatch, is_page, route,
}
use rust_tunnel.Admin.Route.Auth.{route_unauthorized, route_headerless}

module _ {Key : Type 0} where
  -- The response is no refusal for want of a token.
  abbrev pub IsLetIn : Response Key × Shared Key → Type 0
  IsLetIn r = r.0.status ≢ unauthorized_401

  answer-IsLetIn : (r : Result (Reply Key) × Shared Key) → IsLetIn (answer r)
  unfolding answer
  answer-IsLetIn (ok v, sh) = λ e. absurd (cc)
  answer-IsLetIn (err x, sh) = λ e. absurd (cc)

  with_body-IsLetIn :
      {T : Type 0} (parse : List ℕ → Option T) (f : T → Exec (Shared Key) (Reply Key))
      (req : Request) (sh : Shared Key)
      → IsLetIn (with_body parse f req sh)
  unfolding with_body
  with_body-IsLetIn parse f req sh = elim (Bool-cases (body_too_large req.body.size_upper)) [
    | inl large ↦ rw large (λ e. absurd (cc))
    | inr fits ↦ elim (Option-cases req.body.bytes) [
      | inl unread ↦ rw fits rw unread (λ e. absurd (cc))
      | inr (bs, e) ↦ elim (Option-cases (parse bs)) [
        | inl junk ↦ rw fits rw e rw junk (λ x. absurd (cc))
        | inr (v, parsed) ↦ rw fits rw e rw parsed (answer-IsLetIn (f v sh))
      ]
    ]
  ]

  IsLetIn-if :
      (b : Bool) (r s : Response Key × Shared Key)
      → IsLetIn r
      → IsLetIn s
      → IsLetIn (if b then r else s)
  IsLetIn-if true r s x y = x
  IsLetIn-if false r s x y = y

module _ {Key : Type 0} (id_eq : Discrete Key) (env : Env Key) (json : Json) (os : Os) where
  dispatch_peers-IsLetIn :
      (m : Method) (now : ℕ) (req : Request) (sh : Shared Key)
      → IsLetIn (dispatch_peers id_eq env json os now m req sh)
  dispatch_peers-IsLetIn post now req sh =
      with_body-IsLetIn json.peer_add (add_peer id_eq env os) req sh
  dispatch_peers-IsLetIn patch now req sh =
      with_body-IsLetIn json.peer_patch (patch_peer id_eq env os) req sh
  dispatch_peers-IsLetIn delete now req sh =
      with_body-IsLetIn json.id_ref (del_peer id_eq env os) req sh
  dispatch_peers-IsLetIn get now req sh = λ e. absurd (cc)
  dispatch_peers-IsLetIn other now req sh = λ e. absurd (cc)

  dispatch_offers-IsLetIn :
      (m : Method) (now : ℕ) (req : Request) (sh : Shared Key)
      → IsLetIn (dispatch_offers id_eq env json os now m req sh)
  dispatch_offers-IsLetIn post now req sh =
      with_body-IsLetIn json.offer_add (add_offer id_eq env os) req sh
  dispatch_offers-IsLetIn patch now req sh =
      with_body-IsLetIn json.offer_patch (patch_offer id_eq env os) req sh
  dispatch_offers-IsLetIn delete now req sh =
      with_body-IsLetIn json.offer_ref (del_offer id_eq env os) req sh
  dispatch_offers-IsLetIn get now req sh = λ e. absurd (cc)
  dispatch_offers-IsLetIn other now req sh = λ e. absurd (cc)

  dispatch_bindings-IsLetIn :
      (m : Method) (now : ℕ) (req : Request) (sh : Shared Key)
      → IsLetIn (dispatch_bindings id_eq env json os now m req sh)
  dispatch_bindings-IsLetIn post now req sh =
      with_body-IsLetIn json.binding_add (add_binding id_eq env os) req sh
  dispatch_bindings-IsLetIn patch now req sh =
      with_body-IsLetIn json.binding_patch (patch_binding id_eq env os) req sh
  dispatch_bindings-IsLetIn delete now req sh =
      with_body-IsLetIn json.binding_ref (del_binding id_eq env os) req sh
  dispatch_bindings-IsLetIn get now req sh = λ e. absurd (cc)
  dispatch_bindings-IsLetIn other now req sh = λ e. absurd (cc)

  dispatch-IsLetIn :
      (now : ℕ) (req : Request) (sh : Shared Key) → IsLetIn (dispatch id_eq env json os now req sh)
  unfolding dispatch
  dispatch-IsLetIn now req sh =
      IsLetIn-if (is_get req.method && same_text req.path (codes "/api/state")) _ _
        (λ e. absurd (cc))
        (IsLetIn-if (same_text req.path (codes "/api/peers")) _ _
          (dispatch_peers-IsLetIn req.method now req sh)
          (IsLetIn-if (same_text req.path (codes "/api/offers")) _ _
            (dispatch_offers-IsLetIn req.method now req sh)
            (IsLetIn-if (same_text req.path (codes "/api/bindings")) _ _
              (dispatch_bindings-IsLetIn req.method now req sh) (λ e. absurd (cc)))))

  -- The token of the process is in the header, in the Bearer form, or the header has not that form and
  -- the token is in the query.
  abbrev pub Presents : Request → Type 0
  Presents req =
      (bearer_token req.authorization ≡ some env.token)
      ⊎ ((bearer_token req.authorization ≡ none) × (query_token req.query ≡ some env.token))

  presented_token_iff : (req : Request) → (presented_token req ≡ some env.token) ↔ Presents req
  unfolding presented_token
  presented_token_iff req = elim (Option-cases (bearer_token req.authorization)) [
    | inl bare ↦ (
      λ e. inr (bare, ground arith),
      λ p. elim p [ inl h ↦ absurd (cc) | inr (b, q) ↦ ground arith ],
    )
    | inr (t, e) ↦
        (λ h. inl (ground arith), λ p. elim p [ inl h ↦ ground arith | inr (b, q) ↦ absurd (cc) ])
  ]

  presented-cases :
      (req : Request)
      → (presented_token req ≡ some env.token) ⊎ (presented_token req ≢ some env.token)
  presented-cases req = elim (Option-cases (presented_token req)) [
    | inl missing ↦ inr (λ e. absurd (cc))
    | inr (tok, e) ↦ elim (Bool-cases (token_eq tok env.token)) [
      | inl same ↦ inl (ground (arith, e, (token_eq_iff tok env.token).0 same))
      | inr differs ↦ inr (λ h. ground (arith, token_eq_iff tok env.token))
    ]
  ]

  -- A request to change something that does not present the token, or has no Authorization header.
  kept_out :
      (req : Request) (now : ℕ) (sh : Shared Key)
      → is_get req.method ≡ false
      → (presented_token req ≢ some env.token) ⊎ (req.authorization ≡ none)
      → (route id_eq env json os now req sh).0.status ≡ unauthorized_401
  unfolding is_page
  kept_out req now sh m (inl wrong) =
      ground (arith, route_unauthorized id_eq env json os req now sh wrong)
  kept_out req now sh m (inr bare) =
      ground (arith, route_headerless id_eq env json os req now sh m bare)

  let_in :
      (req : Request) (now : ℕ) (sh : Shared Key)
      → is_get req.method ≡ false
      → is_some req.authorization ≡ true
      → presented_token req ≡ some env.token
      → IsLetIn (route id_eq env json os now req sh)
  unfolding route is_page
  let_in req now sh m header token =
      let through : dispatch id_eq env json os now req sh ≡ route id_eq env json os now req sh =
        ground (arith, token_eq_iff env.token env.token) in
      subst IsLetIn through (dispatch-IsLetIn now req sh)

  -- For a request that is no GET, the response has another status than 401 if and only if an
  -- Authorization header is there, of whatever scheme, and the token of the process is what the
  -- header carries in the Bearer form or, if the header has not that form, what the query carries.
  pub route_mutation_iff :
      (req : Request) (now : ℕ) (sh : Shared Key)
      → is_get req.method ≡ false
      → ((route id_eq env json os now req sh).0.status ≢ unauthorized_401)
        ↔ ((is_some req.authorization ≡ true) × Presents req)
  route_mutation_iff req now sh m = (
    λ h. (
      elim (Option-cases req.authorization) [
        | inl bare ↦ absurd (h (kept_out req now sh m (inr bare)))
        | inr (header, e) ↦ rw (e, is_some) refl
      ],
      elim (presented-cases req) [
        | inl right ↦ (presented_token_iff req).0 right
        | inr wrong ↦ absurd (h (kept_out req now sh m (inl wrong)))
      ],
    ),
    λ p. let_in req now sh m p.0 ((presented_token_iff req).1 p.1),
  )
