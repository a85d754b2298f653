-- ===== src/Connect/Listeners/Reconcile.antt =====
-- What `reconcile` leaves bound, key by key.
use rust_tunnel.Base.{
  ◌≡◌, refl, subst, ap, ◌∙◌, ◌≢◌, ℕ, Bool, true, false, List, [], ◌∷◌, Option, none, some,
  Option-cases, Bool-cases, inl, inr, ◌⊎◌, Text, arith, ite, if◌then◌else◌, All, Distinct, get,
  get-insert, get-remove,
}
use rust_tunnel.Config.Types.{PortKey, port_key_eq, Binding, binding_key}
use rust_tunnel.State.{Shared}
use rust_tunnel.Connect.Listeners.{
  Sock, Answer, bound_to, refused, Listeners, sock_for, wants, Work, drop_one, drop_stale,
  bind_wanted, bind_all, stale_keys, reconcile,
}

-- What a binding is to have, given what its key had.
abbrev pub serve_key : (Binding → Answer) → Binding → Option (Sock × ℕ) → Option (Sock × ℕ)
serve_key os b (some (sock, remote)) = some (sock, b.remote)
serve_key os b none = elim (os b) [
  | bound_to n ↦ some (sock_for b.proto n, b.remote)
  | refused why ↦ none
]

-- An answer of the operating system is one or the other.
pub Answer-cases : (a : Answer) → ((n : ℕ) × (a ≡ bound_to n)) ⊎ ((why : Text) × (a ≡ refused why))
Answer-cases (bound_to n) = inl (n, refl)
Answer-cases (refused why) = inr (why, refl)

-- What a key is to have after `reconcile`, given what it had: nothing unless a binding wants it.
unfoldable pub serve_wanted :
    (Binding → Answer) → List Binding → PortKey → Option (Sock × ℕ) → Option (Sock × ℕ)
serve_wanted os [] k had = none
serve_wanted os (b ∷ bs) k had =
    ite (port_key_eq (binding_key b) k) (serve_key os b had) (serve_wanted os bs k had)

-- The second loop alone: a key that no binding wants keeps what it had.
pick : (Binding → Answer) → List Binding → PortKey → Option (Sock × ℕ) → Option (Sock × ℕ)
pick os [] k had = had
pick os (b ∷ bs) k had = ite (port_key_eq (binding_key b) k) (serve_key os b had) (pick os bs k had)

pick-wants :
    (os : Binding → Answer) (bs : List Binding) (k : PortKey) (had : Option (Sock × ℕ))
    → pick os bs k (if wants bs k then had else none) ≡ serve_wanted os bs k had
unfolding pick wants serve_wanted
pick-wants os [] k had = refl
pick-wants os (b ∷ bs) k had = ground (arith, pick-wants os bs k had)

-- `ks.contains(k)`
unfoldable pub among : List PortKey → PortKey → Bool
among [] k = false
among (j ∷ ks) k = ite (port_key_eq j k) true (among ks k)

pub among-stale_keys-cons :
    (want : List Binding) (j k : PortKey) (v : Sock × ℕ) (l : Listeners)
    → among (stale_keys want ((j, v) ∷ l)) k ≡ (
        if wants want j
        then among (stale_keys want l) k
        else ite (port_key_eq j k) true (among (stale_keys want l) k))
unfolding among stale_keys
among-stale_keys-cons want j k v l = elim (Bool-cases (wants want j)) [
  | inl e ↦ rw e refl
  | inr e ↦ rw e refl
]

among-stale_keys :
    (want : List Binding) (l : Listeners) (k : PortKey)
    → wants want k ≡ true
    → among (stale_keys want l) k ≡ false
unfolding among stale_keys
among-stale_keys want [] k h = refl
among-stale_keys want ((j, v) ∷ l) k h =
    let rest = among-stale_keys want l k h in
    elim (port_key_eq j k) [
      | yes e ↦ ground (arith, among-stale_keys-cons want j k v l, ap (wants want) e, rest)
      | no d ↦ ground (arith, among-stale_keys-cons want j k v l, rest)
    ]

get_unless_stale :
    (want : List Binding) (l : Listeners) (k : PortKey)
    → (if among (stale_keys want l) k then none else get port_key_eq l k)
      ≡ (if wants want k then get port_key_eq l k else none)
unfolding get
get_unless_stale want [] k = elim (Bool-cases (wants want k)) [
  | inl e ↦ ground (arith, among-stale_keys want [] k e)
  | inr e ↦ ground arith
]
get_unless_stale want ((j, v) ∷ l) k =
    let rest = get_unless_stale want l k in
    let first = among-stale_keys-cons want j k v l in
    elim (port_key_eq j k) [
      | yes e ↦ elim (Bool-cases (wants want k)) [
        | inl w ↦ ground (arith, among-stale_keys want ((j, v) ∷ l) k w)
        | inr w ↦ ground (arith, first, ap (wants want) e)
      ]
      | no d ↦ elim (Bool-cases (wants want k)) [
        | inl w ↦ ground (arith, among-stale_keys want ((j, v) ∷ l) k w)
        | inr w ↦ ground (arith, first, rest)
      ]
    ]

module _ {Key : Type 0} where
  pub get-bind_wanted :
      (os : Binding → Answer) (b : Binding) (w : Work Key) (k : PortKey)
      → get port_key_eq (bind_wanted os b w).bound k
        ≡ ite
            (port_key_eq (binding_key b) k)
            (serve_key os b (get port_key_eq w.bound (binding_key b)))
            (get port_key_eq w.bound k)
  unfolding bind_wanted
  get-bind_wanted os b w k = elim (Option-cases (get port_key_eq w.bound (binding_key b))) [
    | inl e ↦ elim (Answer-cases (os b)) [
      | inl (n, a) ↦
          ground
            (arith, get-insert port_key_eq w.bound (binding_key b) k (sock_for b.proto n, b.remote))
      | inr (why, a) ↦ ground arith
    ]
    | inr ((sock, remote), e) ↦
        ground (arith, get-insert port_key_eq w.bound (binding_key b) k (sock, b.remote))
  ]

  pub get-bind_all-away :
      (os : Binding → Answer) (bs : List Binding) (w : Work Key) (k : PortKey)
      → All (λ b. k ≢ binding_key b) bs
      → get port_key_eq (bind_all os bs w).bound k ≡ get port_key_eq w.bound k
  unfolding bind_all
  get-bind_all-away os [] w k away = refl
  get-bind_all-away os (b ∷ bs) w k away =
      get-bind_all-away os bs (bind_wanted os b w) k away.1
      ∙ ground (arith, get-bind_wanted os b w k, away.0)

  get-bind_all :
      (os : Binding → Answer) (bs : List Binding) (w : Work Key) (k : PortKey)
      → Distinct binding_key bs
      → get port_key_eq (bind_all os bs w).bound k ≡ pick os bs k (get port_key_eq w.bound k)
  unfolding bind_all pick
  get-bind_all os [] w k d = refl
  get-bind_all os (b ∷ bs) w k d = elim (port_key_eq (binding_key b) k) [
    | yes e ↦
        get-bind_all-away os bs (bind_wanted os b w) k
          (subst (λ x. All (λ y. x ≢ binding_key y) bs) e d.0)
        ∙ ground (arith, get-bind_wanted os b w k, ap (get port_key_eq w.bound) e)
    | no n ↦
        get-bind_all os bs (bind_wanted os b w) k d.1
        ∙ ground (arith, ap (pick os bs k) (get-bind_wanted os b w k))
  ]

  get-drop_stale :
      (ks : List PortKey) (w : Work Key) (k : PortKey)
      → get port_key_eq (drop_stale ks w).bound k
        ≡ (if among ks k then none else get port_key_eq w.bound k)
  unfolding drop_stale drop_one among
  get-drop_stale [] w k = refl
  get-drop_stale (j ∷ ks) w k =
      get-drop_stale ks (drop_one j w) k ∙ ground (arith, get-remove port_key_eq w.bound j k)

  -- After `reconcile` with bindings of distinct protocol and local port, a key that no binding
  -- wants has no listener; a wanted key keeps the socket it had, with the remote port of its
  -- binding, or else has a new socket if the operating system gives one, and none otherwise.
  pub get-reconcile :
      (os : Binding → Answer) (l : Listeners) (want : List Binding) (sh : Shared Key) (k : PortKey)
      → Distinct binding_key want
      → get port_key_eq (reconcile os l want sh).bound k
        ≡ serve_wanted os want k (get port_key_eq l k)
  unfolding reconcile
  get-reconcile os l want sh k d =
      get-bind_all os want _ k d
      ∙ (ap (pick os want k) (get-drop_stale (stale_keys want l) _ k ∙ get_unless_stale want l k)
          ∙ pick-wants os want k (get port_key_eq l k))

  -- Only what changed nothing is reported as no change.
  bind_wanted_unchanged :
      (os : Binding → Answer) (b : Binding) (w : Work Key)
      → (bind_wanted os b w).changed ≡ false
      → ((bind_wanted os b w).bound ≡ w.bound) × (w.changed ≡ false)
  unfolding bind_wanted
  bind_wanted_unchanged os b w h = elim (Option-cases (get port_key_eq w.bound (binding_key b))) [
    | inl e ↦ elim (Answer-cases (os b)) [
      | inl (n, a) ↦ absurd (ground arith)
      | inr (why, a) ↦ (ground arith, ground arith)
    ]
    | inr ((sock, remote), e) ↦ (ground arith, ground arith)
  ]

  bind_all_unchanged :
      (os : Binding → Answer) (bs : List Binding) (w : Work Key)
      → (bind_all os bs w).changed ≡ false
      → ((bind_all os bs w).bound ≡ w.bound) × (w.changed ≡ false)
  unfolding bind_all
  bind_all_unchanged os [] w h = (refl, h)
  bind_all_unchanged os (b ∷ bs) w h =
      let (same, quiet) = bind_all_unchanged os bs (bind_wanted os b w) h in
      let (same_one, quiet_one) = bind_wanted_unchanged os b w quiet in (same ∙ same_one, quiet_one)

  drop_stale_changed :
      (ks : List PortKey) (w : Work Key) → w.changed ≡ true → (drop_stale ks w).changed ≡ true
  unfolding drop_stale drop_one
  drop_stale_changed [] w h = h
  drop_stale_changed (k ∷ ks) w h = drop_stale_changed ks (drop_one k w) refl

  drop_stale_unchanged :
      (ks : List PortKey) (w : Work Key)
      → (drop_stale ks w).changed ≡ false
      → (drop_stale ks w).bound ≡ w.bound
  unfolding drop_stale drop_one
  drop_stale_unchanged [] w h = refl
  drop_stale_unchanged (k ∷ ks) w h = absurd (cc (drop_stale_changed ks (drop_one k w) refl))

  -- If `reconcile` reports no change, so that the forwarders are left running, the listeners are
  -- the ones that there were, remote ports included.
  pub reconcile_unchanged :
      (os : Binding → Answer) (l : Listeners) (want : List Binding) (sh : Shared Key)
      → (reconcile os l want sh).changed ≡ false
      → (reconcile os l want sh).bound ≡ l
  unfolding reconcile
  reconcile_unchanged os l want sh h =
      let (same, quiet) = bind_all_unchanged os want _ h in
      same ∙ drop_stale_unchanged (stale_keys want l) _ quiet
