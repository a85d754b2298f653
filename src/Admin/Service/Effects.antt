-- ===== src/Admin/Service/Effects.antt =====
-- What the clients of the admin surface can do over a whole run of the service.
use rust_tunnel.Base.{
  ◌≡◌, ◌≢◌, refl, ◌∙◌, ap, ℕ, List, [], ◌∷◌, inl, inr, ◌⊎◌, Bool-cases, All, arith, some,
}
use rust_tunnel.Config.Grants.{contains}
use rust_tunnel.Config.Persist.{Os, RoundTrips}
use rust_tunnel.State.Mutate.{IsSynced}
use rust_tunnel.Admin.Handlers.{Env}
use rust_tunnel.Admin.Http.{Request, presented_token}
use rust_tunnel.Admin.Route.{Json, Response, page_response, error, unauthorized_401, is_page, route}
use rust_tunnel.Admin.Route.Auth.{route_unauthorized}
use rust_tunnel.Admin.Route.Effects.{route-IsSynced}
use rust_tunnel.Admin.Service.{
  Event, accept_failed, accepted, ended, requested, data_plane, Panel, respond, on_event, serve,
}

module _ {Key : Type 0} (id_eq : Discrete Key) (env : Env Key) (json : Json) where
  on_event-IsSynced :
      (e : Event Key) (p : Panel Key)
      → RoundTrips env.toml
      → IsSynced id_eq env.toml p.shared
      → IsSynced id_eq env.toml (on_event id_eq env json e p).shared
  unfolding on_event respond
  on_event-IsSynced accept_failed p r h = h
  on_event-IsSynced (accepted conn) p r h = h
  on_event-IsSynced (ended conn) p r h = h
  on_event-IsSynced (requested conn os now req) p r h = elim (Bool-cases (contains p.conns conn)) [
    | inl open_conn ↦ rw open_conn (route-IsSynced id_eq env json os now req p.shared r h)
    | inr gone ↦ rw gone h
  ]
  on_event-IsSynced (data_plane facts) p r h = record { valid = h.valid; on_disk = h.on_disk }

  -- Given that the toml crate round-trips: from a state in which the running configuration is valid and
  -- is what a restart loads, whatever connections and requests the service is given and however the
  -- operating system answers, the running configuration is again valid and what a restart loads.
  pub serve-IsSynced :
      (es : List (Event Key)) (p : Panel Key)
      → RoundTrips env.toml
      → IsSynced id_eq env.toml p.shared
      → IsSynced id_eq env.toml (serve id_eq env json es p).shared
  unfolding serve
  serve-IsSynced [] p r h = h
  serve-IsSynced (e ∷ es) p r h =
      serve-IsSynced es (on_event id_eq env json e p) r (on_event-IsSynced e p r h)

  -- The event is no request that presents exactly the token of the process.
  abbrev pub IsForeign : Event Key → Type 0
  IsForeign (requested conn os now req) = presented_token req ≢ some env.token
  IsForeign _ = Unit

  -- The response is the page, or refuses with status 401.
  abbrev pub IsTurnedAway : ℕ × Response Key → Type 0
  IsTurnedAway r = (r.1 ≡ page_response) ⊎ (r.1 ≡ error unauthorized_401)

  abbrev pub Untouched : Panel Key → Panel Key → Type 0
  Untouched p q =
      (q.shared.config ≡ p.shared.config)
      × (q.shared.disk ≡ p.shared.disk)
      × (All IsTurnedAway p.sent → All IsTurnedAway q.sent)

  respond-Untouched :
      (conn : ℕ) (os : Os) (now : ℕ) (req : Request) (p : Panel Key)
      → presented_token req ≢ some env.token
      → Untouched p (respond id_eq env json conn os now req p)
  unfolding respond
  respond-Untouched conn os now req p foreign =
      let refused = route_unauthorized id_eq env json os req now p.shared foreign in
      let kept : (route id_eq env json os now req p.shared).1 ≡ p.shared = ap (λ r. r.1) refused in
      let answered : IsTurnedAway (conn, (route id_eq env json os now req p.shared).0) =
        elim (Bool-cases (is_page req)) [
          | inl page ↦ inl (ground arith)
          | inr other ↦ inr (ground arith)
        ] in
      (ap (λ s. s.config) kept, ap (λ s. s.disk) kept, λ before. (answered, before))

  on_event-Untouched :
      (e : Event Key) (p : Panel Key) → IsForeign e → Untouched p (on_event id_eq env json e p)
  unfolding on_event
  on_event-Untouched accept_failed p f = (refl, refl, λ h. h)
  on_event-Untouched (accepted conn) p f = (refl, refl, λ h. h)
  on_event-Untouched (ended conn) p f = (refl, refl, λ h. h)
  on_event-Untouched (requested conn os now req) p f = elim (Bool-cases (contains p.conns conn)) [
    | inl open_conn ↦ rw open_conn (respond-Untouched conn os now req p f)
    | inr gone ↦ rw gone (refl, refl, λ h. h)
  ]
  on_event-Untouched (data_plane facts) p f = (refl, refl, λ h. h)

  -- Whatever the service is given, if no request presents exactly the token of the process, the
  -- configuration and the disk stay as they were, and every response is the page or has status 401.
  pub serve-Untouched :
      (es : List (Event Key)) (p : Panel Key)
      → All IsForeign es
      → Untouched p (serve id_eq env json es p)
  unfolding serve
  serve-Untouched [] p f = (refl, refl, λ h. h)
  serve-Untouched (e ∷ es) p f =
      let (config, disk, sent) = on_event-Untouched e p f.0 in
      let (config', disk', sent') = serve-Untouched es (on_event id_eq env json e p) f.1 in
      (config' ∙ config, disk' ∙ disk, λ h. sent' (sent h))
