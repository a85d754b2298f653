-- ===== src/Config/Seed/Loop.antt =====
-- The loop that adds what a list lacks, for any test that looks for an entry.
use rust_tunnel.Base.{
  ◌≡◌, refl, ◌≢◌, sym, inl, inr, Bool, true, false, ◌||◌, ◌++◌, List, [], ◌∷◌, arith, All, Distinct,
  Bool-cases, All-append,
}
use mathlib.Core.List.{append-nil, append_assoc}
use rust_tunnel.Config.Seed.{push_missing}

-- A test that asks whether some entry has what `make b` has.
pub record Looks {A B : Type 0} (has : B → List A → Bool) (make : B → A) : Type 0 where
  pub splits : (b : B) (xs ys : List A) → has b (xs ++ ys) ≡ (has b xs || has b ys)
  pub made : (b : B) → has b (make b ∷ []) ≡ true

module _ {A B : Type 0} (has : B → List A → Bool) (make : B → A) where
  -- What was in the list stays in front, in its order.
  pub push_missing-extends :
      (xs : List A) (changed : Bool) (bs : List B)
      → (ys : List A) × ((push_missing has make xs changed bs).0 ≡ xs ++ ys)
  unfolding push_missing
  push_missing-extends xs changed [] = ([], sym (append-nil xs))
  push_missing-extends xs changed (b ∷ bs) = elim (Bool-cases (has b xs)) [
    | inl old ↦ rw (old, push_missing) (push_missing-extends xs changed bs)
    | inr new ↦
        let (ys, e) = push_missing-extends (xs ++ make b ∷ []) true bs in
        (make b ∷ ys, rw (new, push_missing, e) (append_assoc xs (make b ∷ []) ys))
  ]

  -- The flag only rises, and while it stays down nothing was pushed.
  pub push_missing_unchanged :
      (xs : List A) (changed : Bool) (bs : List B)
      → (push_missing has make xs changed bs).1 ≡ false
      → (changed ≡ false) × ((push_missing has make xs changed bs).0 ≡ xs)
  unfolding push_missing
  push_missing_unchanged xs changed [] h = (h, refl)
  push_missing_unchanged xs changed (b ∷ bs) h = ground (
    arith,
    push_missing_unchanged xs changed bs,
    push_missing_unchanged (xs ++ make b ∷ []) true bs,
  )

  -- Where nothing is missing nothing happens.
  pub push_missing_stable :
      (xs : List A) (changed : Bool) (bs : List B)
      → All (λ b. has b xs ≡ true) bs
      → push_missing has make xs changed bs ≡ (xs, changed)
  unfolding push_missing
  push_missing_stable xs changed [] h = refl
  push_missing_stable xs changed (b ∷ bs) h = ground (arith, push_missing_stable xs changed bs h.1)

  pub All-push_missing :
      (P : A → Type 0) (xs : List A) (changed : Bool) (bs : List B)
      → All (λ b. P (make b)) bs
      → All P xs
      → All P (push_missing has make xs changed bs).0
  unfolding push_missing
  All-push_missing P xs changed [] m a = a
  All-push_missing P xs changed (b ∷ bs) m a = elim (Bool-cases (has b xs)) [
    | inl old ↦ rw (old, push_missing) (All-push_missing P xs changed bs m.1 a)
    | inr new ↦
        rw (new, push_missing)
          (All-push_missing P (xs ++ make b ∷ []) true bs m.1
            (All-append P xs (make b ∷ []) a (m.0, tt)))
  ]

  module _ (looks : Looks has make) where
    pub has-push_missing :
        (b : B) (xs : List A) (changed : Bool) (bs : List B)
        → has b xs ≡ true
        → has b (push_missing has make xs changed bs).0 ≡ true
    has-push_missing b xs changed bs h =
        let (ys, e) = push_missing-extends xs changed bs in
        rw e (ground (arith, looks.splits b xs ys))

    complete_at :
        (xs : List A) (changed : Bool) (bs : List B) (r : List A)
        → (push_missing has make xs changed bs).0 ≡ r
        → All (λ b. has b r ≡ true) bs
    unfolding push_missing
    complete_at xs changed [] r e = tt
    complete_at xs changed (b ∷ bs) r e = elim (Bool-cases (has b xs)) [
      | inl old ↦
          let e' : (push_missing has make xs changed bs).0 ≡ r = ground arith in
          (rw (← e') (has-push_missing b xs changed bs old), complete_at xs changed bs r e')
      | inr new ↦
          let ys = xs ++ make b ∷ [] in
          let e' : (push_missing has make ys true bs).0 ≡ r = ground arith in
          (
            rw (← e') (
                has-push_missing b ys true bs
                  (ground (arith, looks.splits b xs (make b ∷ []), looks.made b))),
            complete_at ys true bs r e',
          )
    ]

    -- Afterwards nothing is missing.
    pub push_missing_complete :
        (xs : List A) (changed : Bool) (bs : List B)
        → All (λ b. has b (push_missing has make xs changed bs).0 ≡ true) bs
    push_missing_complete xs changed bs = complete_at xs changed bs _ refl

module _ {A B K : Type 0} (has : B → List A → Bool) (make : B → A) (key : A → K) where
  Distinct-push :
      (a : A) (xs : List A)
      → All (λ x. key x ≢ key a) xs
      → Distinct key xs
      → Distinct key (xs ++ a ∷ [])
  Distinct-push a [] f d = (tt, tt)
  Distinct-push a (x ∷ xs) f d =
      (All-append (λ y. key x ≢ key y) xs (a ∷ []) d.0 (f.0, tt), Distinct-push a xs f.1 d.1)

  -- A test that finds every entry with the key of `make b` keeps the keys distinct.
  pub Distinct-push_missing :
      ((b : B) (xs : List A) → has b xs ≡ false → All (λ x. key x ≢ key (make b)) xs)
      → (xs : List A) (changed : Bool) (bs : List B) → Distinct key xs
      → Distinct key (push_missing has make xs changed bs).0
  unfolding push_missing
  Distinct-push_missing fresh xs changed [] d = d
  Distinct-push_missing fresh xs changed (b ∷ bs) d = elim (Bool-cases (has b xs)) [
    | inl old ↦ rw (old, push_missing) (Distinct-push_missing fresh xs changed bs d)
    | inr new ↦
        rw (new, push_missing)
          (Distinct-push_missing fresh (xs ++ make b ∷ []) true bs
            (Distinct-push (make b) xs (fresh b xs new) d))
  ]

module _ {A B : Type 0} (has : B → List A → Bool) (make : B → A) (looks : Looks has make) where
  -- What is found stays found while the same loop adds other entries with another test.
  pub still_found :
      (xs ys : List A) (bs : List B)
      → All (λ b. has b xs ≡ true) bs
      → All (λ b. has b (xs ++ ys) ≡ true) bs
  still_found xs ys [] h = tt
  still_found xs ys (b ∷ bs) h = (ground (arith, looks.splits b xs ys), still_found xs ys bs h.1)
