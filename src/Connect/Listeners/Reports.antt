-- ===== src/Connect/Listeners/Reports.antt =====
-- What `reconcile` does to the shared state: the report on a listener that nothing wants any more, and
-- the configuration.
use rust_tunnel.Base.{
  ◌≡◌, refl, ◌∙◌, false, List, [], ◌∷◌, Option, none, Option-cases, inl, inr, arith, get,
  get-insert, get-remove,
}
use rust_tunnel.Config.Types.{PortKey, port_key_eq, Binding, binding_key}
use rust_tunnel.State.{Shared, BindState, set_bind, clear_bind, listening, failed}
use rust_tunnel.Connect.Listeners.{
  Answer, Listeners, wants, Work, drop_one, drop_stale, bind_wanted, bind_all, stale_keys,
  reconcile,
}
use rust_tunnel.Connect.Listeners.Reconcile.{among, among-stale_keys-cons, Answer-cases}

among-unbound :
    (want : List Binding) (l : Listeners) (k : PortKey)
    → get port_key_eq l k ≡ none
    → among (stale_keys want l) k ≡ false
unfolding get among stale_keys
among-unbound want [] k h = refl
among-unbound want ((j, v) ∷ l) k h = elim (port_key_eq j k) [
  | yes e ↦ absurd (ground arith)
  | no d ↦ ground (arith, among-stale_keys-cons want j k v l, among-unbound want l k)
]

module _ {Key : Type 0} where
  -- The report on a listener.
  abbrev pub report : Shared Key → PortKey → Option BindState
  report sh k = get port_key_eq sh.runtime.binds k

  report-bind_wanted :
      (os : Binding → Answer) (b : Binding) (w : Work Key) (k : PortKey)
      → wants (b ∷ []) k ≡ false
      → report (bind_wanted os b w).shared k ≡ report w.shared k
  unfolding bind_wanted wants set_bind
  report-bind_wanted os b w k away = elim (Option-cases (get port_key_eq w.bound (binding_key b))) [
    | inl e ↦ elim (Answer-cases (os b)) [
      | inl (n, a) ↦
          ground (arith, get-insert port_key_eq w.shared.runtime.binds (binding_key b) k listening)
      | inr (why, a) ↦
          ground
            (arith, get-insert port_key_eq w.shared.runtime.binds (binding_key b) k (failed why))
    ]
    | inr ((sock, remote), e) ↦ ground arith
  ]

  pub report-bind_all :
      (os : Binding → Answer) (bs : List Binding) (w : Work Key) (k : PortKey)
      → wants bs k ≡ false
      → report (bind_all os bs w).shared k ≡ report w.shared k
  unfolding bind_all wants
  report-bind_all os [] w k away = refl
  report-bind_all os (b ∷ bs) w k away =
      report-bind_all os bs (bind_wanted os b w) k (ground arith)
      ∙ report-bind_wanted os b w k (ground arith)

  report-drop_stale :
      (ks : List PortKey) (w : Work Key) (k : PortKey)
      → among ks k ≡ false
      → report (drop_stale ks w).shared k ≡ report w.shared k
  unfolding drop_stale drop_one among clear_bind
  report-drop_stale [] w k away = refl
  report-drop_stale (j ∷ ks) w k away =
      report-drop_stale ks (drop_one j w) k (ground arith)
      ∙ ground (arith, get-remove port_key_eq w.shared.runtime.binds j k)

  -- `reconcile` leaves the report on a listener that is neither bound nor wanted as it was: the
  -- failure of a binding that was then parked or removed stays reported.
  pub report-reconcile :
      (os : Binding → Answer) (l : Listeners) (want : List Binding) (sh : Shared Key) (k : PortKey)
      → get port_key_eq l k ≡ none
      → wants want k ≡ false
      → report (reconcile os l want sh).shared k ≡ report sh k
  unfolding reconcile
  report-reconcile os l want sh k unbound unwanted =
      report-bind_all os want _ k unwanted
      ∙ report-drop_stale (stale_keys want l) _ k (among-unbound want l k unbound)

-- The listeners are changed by `reconcile` alone, which leaves the configuration as it is.
module _ {Key : Type 0} where
  bind_wanted-config :
      (os : Binding → Answer) (b : Binding) (w : Work Key)
      → (bind_wanted os b w).shared.config ≡ w.shared.config
  unfolding bind_wanted set_bind
  bind_wanted-config os b w = ground arith

  bind_all-config :
      (os : Binding → Answer) (bs : List Binding) (w : Work Key)
      → (bind_all os bs w).shared.config ≡ w.shared.config
  unfolding bind_all
  bind_all-config os [] w = refl
  bind_all-config os (b ∷ bs) w =
      bind_all-config os bs (bind_wanted os b w) ∙ bind_wanted-config os b w

  drop_stale-config :
      (ks : List PortKey) (w : Work Key) → (drop_stale ks w).shared.config ≡ w.shared.config
  unfolding drop_stale drop_one clear_bind
  drop_stale-config [] w = refl
  drop_stale-config (k ∷ ks) w = drop_stale-config ks (drop_one k w)

  pub reconcile-config :
      (os : Binding → Answer) (l : Listeners) (want : List Binding) (sh : Shared Key)
      → (reconcile os l want sh).shared.config ≡ sh.config
  unfolding reconcile
  reconcile-config os l want sh =
      bind_all-config os want _ ∙ drop_stale-config (stale_keys want l) _
