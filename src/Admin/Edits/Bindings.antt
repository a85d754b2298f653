-- ===== src/Admin/Edits/Bindings.antt =====
-- What an edit of the bindings does to the bindings that are on.
use rust_tunnel.Base.{
  ◌≡◌, sym, ap, subst, ◌∙◌, ℕ, Bool, true, false, not, ◌++◌, List, [], ◌∷◌, ◌==◌, length, filter,
  find, any, inl, inr, ◌≢◌, Bool-cases, Option, some, Option-cases, arith, All, All-filter,
  All_pass-filter, All-weaken, Distinct, update_first, or_keep,
}
use rust_tunnel.Errors.{ok}
use rust_tunnel.Config.Types.{Proto, Name, Binding, binding_key, Config}
use rust_tunnel.Config.Grants.{active_bindings}
use rust_tunnel.Config.Grants.Reach.{same_proto_iff}
use rust_tunnel.Admin.Edits.{
  is_binding, with_bindings, add_binding_edit, patch_binding_edit, del_binding_edit,
}
use rust_tunnel.Admin.Handlers.{BindingAdd, BindingPatch, BindingRef}

-- What holds of every kept entry holds of the last one, if it is kept.
pub All-filter-last :
    {A : Type 0} (P : A → Type 0) (p : A → Bool) (xs : List A) (x : A)
    → p x ≡ true
    → All P (filter p (xs ++ x ∷ []))
    → P x
All-filter-last P p [] x kept h = (rw kept at h).0
All-filter-last P p (y ∷ xs) x kept h = elim (Bool-cases (p y)) [
  | inl e ↦ All-filter-last P p xs x kept (rw e at h).1
  | inr e ↦ All-filter-last P p xs x kept (rw e at h)
]

-- The first entry that passes, changed, is in the list that comes of it, and is kept if it is one to keep.
All-filter-update_first :
    {A : Type 0} (P : A → Type 0) (p keep : A → Bool) (f : A → A) (xs ys : List A) (x : A)
    → update_first p f xs ≡ some ys
    → find p xs ≡ some x
    → keep (f x) ≡ true
    → All P (filter keep ys)
    → P (f x)
unfolding update_first
All-filter-update_first P p keep f [] ys x updated found kept h = absurd (cc)
All-filter-update_first P p keep f (z ∷ xs) ys x updated found kept h = elim (Bool-cases (p z)) [
  | inl e ↦
      let same : z ≡ x = ground arith in
      let shape : ys ≡ f x ∷ xs = ground (arith, same) in (rw kept at (rw shape at h)).0
  | inr e ↦ elim (Option-cases (update_first p f xs)) [
    | inl nobody ↦ absurd (ground arith)
    | inr (zs, rest) ↦
        let shape : ys ≡ z ∷ zs = ground arith in
        let there : find p xs ≡ some x = ground arith in
        elim (Bool-cases (keep z)) [
          | inl k ↦
              All-filter-update_first P p keep f xs zs x rest there kept (rw k at (rw shape at h)).1
          | inr k ↦
              All-filter-update_first P p keep f xs zs x rest there kept (rw k at (rw shape at h))
        ]
  ]
]

-- `c.connect.bindings.push(..)`
abbrev pub added : BindingAdd → Binding
added b = record {
  proto = b.proto;
  local = b.local;
  remote = b.remote;
  name = b.name;
  enabled = true;
}

-- `|x| { x.remote = ..; x.name = ..; x.enabled = .. }`, each field if the request has it.
abbrev pub patched_binding : Option ℕ → Option Name → Option Bool → Binding → Binding
patched_binding remote name enabled b = record b {
  remote = or_keep b.remote remote;
  name = or_keep b.name name;
  enabled = or_keep b.enabled enabled;
}

-- Two bindings of one protocol and local port have one key.
same_binding :
    (proto : Proto) (local : ℕ) (x y : Binding)
    → is_binding proto local x ≡ true
    → is_binding proto local y ≡ true
    → binding_key x ≡ binding_key y
same_binding proto local x y here there =
    let one : x.proto ≡ proto = (same_proto_iff x.proto proto).0 (ground arith) in
    let two : y.proto ≡ proto = (same_proto_iff y.proto proto).0 (ground arith) in
    ground (arith, one, two)

nobody_else :
    (proto : Proto) (local : ℕ) (x : Binding) (ys : List Binding)
    → is_binding proto local x ≡ true
    → All (λ y. binding_key x ≢ binding_key y) ys
    → All (λ y. is_binding proto local y ≡ false) ys
nobody_else proto local x ys is alone =
    All-weaken _ _ ys
      (λ y other. elim (Bool-cases (is_binding proto local y)) [
        | inl too ↦ absurd (other (same_binding proto local x y is too))
        | inr no_one ↦ no_one
      ])
      alone

-- Switching off the one binding of a port leaves none that is on.
update_first-away :
    (proto : Proto) (local : ℕ) (remote : Option ℕ) (name : Option Name) (bs bs' : List Binding)
    → Distinct binding_key bs
    → update_first (is_binding proto local) (patched_binding remote name (some false)) bs ≡ some bs'
    → All (λ x. is_binding proto local x ≡ false) (filter (λ (x : Binding). x.enabled) bs')
unfolding update_first
update_first-away proto local remote name [] bs' distinct updated = absurd (cc)
update_first-away proto local remote name (b ∷ bs) bs' distinct updated =
    elim (Bool-cases (is_binding proto local b)) [
      | inl is ↦
          let shape : bs' ≡ patched_binding remote name (some false) b ∷ bs = ground arith in
          rw shape (
            All-filter (λ x. is_binding proto local x ≡ false) (λ (x : Binding). x.enabled) bs
              (nobody_else proto local b bs is distinct.0))
      | inr other ↦
          elim (Option-cases
            (update_first (is_binding proto local) (patched_binding remote name (some false)) bs)) [
              | inl nobody ↦ absurd (ground arith)
              | inr (ys, rest) ↦
                  let shape : bs' ≡ b ∷ ys = ground arith in
                  let ih = update_first-away proto local remote name bs ys distinct.1 rest in
                  rw shape (elim (Bool-cases b.enabled) [
                    | inl on ↦ rw on (other, ih)
                    | inr off ↦ rw off ih
                  ])
            ]
    ]

module _ {Key : Type 0} where
  pub added-last :
      (b : BindingAdd) (c c' : Config Key)
      → add_binding_edit b.proto b.local b.remote b.name c ≡ ok (tt, c')
      → active_bindings c'
        ≡ filter (λ (x : Binding). x.enabled) (c.connect.bindings ++ added b ∷ [])
  unfolding add_binding_edit active_bindings
  added-last b c c' done = elim (Bool-cases (any (is_binding b.proto b.local) c.connect.bindings)) [
    | inl twice ↦ absurd (ground arith)
    | inr once ↦
        let same : with_bindings c (c.connect.bindings ++ added b ∷ []) ≡ c' = ground arith in
        ap (λ (x : Config Key). filter (λ (y : Binding). y.enabled) x.connect.bindings) (sym same)
  ]

  pub removed-away :
      (b : BindingRef) (c c' : Config Key)
      → del_binding_edit b.proto b.local c ≡ ok (tt, c')
      → All (λ x. is_binding b.proto b.local x ≡ false) (active_bindings c')
  unfolding del_binding_edit active_bindings
  removed-away b c c' done =
      let kept = filter (λ x. not (is_binding b.proto b.local x)) c.connect.bindings in
      elim (Bool-cases (length kept == length c.connect.bindings)) [
        | inl nobody ↦ absurd (ground arith)
        | inr someone ↦
            let same : with_bindings c kept ≡ c' = ground arith in
            subst
              (λ (x : Config Key).
                All (λ y. is_binding b.proto b.local y ≡ false)
                  (filter (λ (y : Binding). y.enabled) x.connect.bindings))
              same
              (All-filter _ (λ (y : Binding). y.enabled) kept
                (All-weaken (λ y. not (is_binding b.proto b.local y) ≡ true) _ kept
                  (λ y out. ground arith)
                  (All_pass-filter (λ y. not (is_binding b.proto b.local y)) c.connect.bindings)))
      ]

  update_first-patch_binding_edit :
      (b : BindingPatch) (c c' : Config Key)
      → patch_binding_edit b.proto b.local b.remote b.name b.enabled c ≡ ok (tt, c')
      → update_first
          (is_binding b.proto b.local)
          (patched_binding b.remote b.name b.enabled)
          c.connect.bindings
        ≡ some c'.connect.bindings
  unfolding patch_binding_edit
  update_first-patch_binding_edit b c c' done =
      let change = patched_binding b.remote b.name b.enabled in
      elim (Option-cases (update_first (is_binding b.proto b.local) change c.connect.bindings)) [
        | inl nobody ↦ absurd (ground arith)
        | inr (bs, updated) ↦
            let same : with_bindings c bs ≡ c' = ground arith in
            updated ∙ ap (λ (x : Config Key). some x.connect.bindings) same
      ]

  pub parked-away :
      (b : BindingPatch) (c c' : Config Key)
      → Distinct binding_key c.connect.bindings
      → b.enabled ≡ some false
      → patch_binding_edit b.proto b.local b.remote b.name b.enabled c ≡ ok (tt, c')
      → All (λ x. is_binding b.proto b.local x ≡ false) (active_bindings c')
  unfolding active_bindings
  parked-away b c c' distinct off done =
      update_first-away b.proto b.local b.remote b.name c.connect.bindings c'.connect.bindings
        distinct (rw off at (update_first-patch_binding_edit b c c' done))

  pub patched-kept :
      (b : BindingPatch) (c c' : Config Key) (x : Binding) (P : Binding → Type 0)
      → find (is_binding b.proto b.local) c.connect.bindings ≡ some x
      → (patched_binding b.remote b.name b.enabled x).enabled ≡ true
      → patch_binding_edit b.proto b.local b.remote b.name b.enabled c ≡ ok (tt, c')
      → All P (active_bindings c')
      → P (patched_binding b.remote b.name b.enabled x)
  unfolding active_bindings
  patched-kept b c c' x P found on done every =
      All-filter-update_first P (is_binding b.proto b.local) (λ (y : Binding). y.enabled)
        (patched_binding b.remote b.name b.enabled) c.connect.bindings c'.connect.bindings x
        (update_first-patch_binding_edit b c c' done) found on every
