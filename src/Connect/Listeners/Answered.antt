-- ===== src/Connect/Listeners/Answered.antt =====
-- Each binding that `reconcile` was given: its listener, or the report of why it has none.
use rust_tunnel.Base.{
  ◌≡◌, ◌≢◌, refl, ◌∙◌, List, [], ◌∷◌, some, Option-cases, inl, inr, ◌⊎◌, arith, false, All,
  Distinct, get, get-insert, Text,
}
use rust_tunnel.Config.Types.{PortKey, port_key_eq, Binding, binding_key}
use rust_tunnel.State.{Shared, failed, set_bind}
use rust_tunnel.Connect.Listeners.{
  sock_for, Sock, Answer, Listeners, wants, Work, bind_wanted, bind_all, reconcile,
}
use rust_tunnel.Connect.Listeners.Reconcile.{Answer-cases, get-bind_all-away, get-bind_wanted}
use rust_tunnel.Connect.Listeners.Reports.{report, report-bind_all}

-- A binding has a listener for its remote port.
abbrev pub HasListener : Listeners → Binding → Type 0
HasListener l b = (s : Sock) × (get port_key_eq l (binding_key b) ≡ some (s, b.remote))

wants-away :
    (bs : List Binding) (k : PortKey) → All (λ b. k ≢ binding_key b) bs → wants bs k ≡ false
unfolding wants
wants-away [] k away = refl
wants-away (b ∷ bs) k away = ground (arith, wants-away bs k away.1, away.0)

module _ {Key : Type 0} where
  -- A binding is reported as failed, with the reason.
  abbrev pub HasFailed : Shared Key → Binding → Type 0
  HasFailed sh b = (why : Text) × (report sh (binding_key b) ≡ some (failed why))

  abbrev pub IsAnswered : Listeners → Shared Key → Binding → Type 0
  IsAnswered l sh b = HasListener l b ⊎ HasFailed sh b

  bind_wanted-IsAnswered :
      (os : Binding → Answer) (b : Binding) (w : Work Key)
      → IsAnswered (bind_wanted os b w).bound (bind_wanted os b w).shared b
  unfolding bind_wanted set_bind
  bind_wanted-IsAnswered os b w = elim (Option-cases (get port_key_eq w.bound (binding_key b))) [
    | inr ((s, remote), e) ↦ inl (s, ground (arith, get-bind_wanted os b w (binding_key b)))
    | inl e ↦ elim (Answer-cases (os b)) [
      | inl (n, a) ↦
          inl (sock_for b.proto n, ground (arith, get-bind_wanted os b w (binding_key b)))
      | inr (why, a) ↦ inr (
        why,
        ground (
          arith,
          get-insert port_key_eq w.shared.runtime.binds (binding_key b) (binding_key b)
              (failed why),
        ),
      )
    ]
  ]

  bind_all-IsAnswered :
      (os : Binding → Answer) (bs : List Binding) (w : Work Key)
      → Distinct binding_key bs
      → All (IsAnswered (bind_all os bs w).bound (bind_all os bs w).shared) bs
  unfolding bind_all
  bind_all-IsAnswered os [] w d = tt
  bind_all-IsAnswered os (b ∷ bs) w d =
      let after = bind_wanted os b w in
      let head : IsAnswered (bind_all os bs after).bound (bind_all os bs after).shared b =
        elim (bind_wanted-IsAnswered os b w) [
          | inl (s, found) ↦ inl (s, get-bind_all-away os bs after (binding_key b) d.0 ∙ found)
          | inr (why, told) ↦ inr (
            why,
            report-bind_all os bs after (binding_key b) (wants-away bs (binding_key b) d.0) ∙ told,
          )
        ] in
      (head, bind_all-IsAnswered os bs after d.1)

  pub reconcile-IsAnswered :
      (os : Binding → Answer) (l : Listeners) (want : List Binding) (sh : Shared Key)
      → Distinct binding_key want
      → All (IsAnswered (reconcile os l want sh).bound (reconcile os l want sh).shared) want
  unfolding reconcile
  reconcile-IsAnswered os l want sh d = bind_all-IsAnswered os want _ d
