-- ===== src/Base/Lists.antt =====
-- Lists measured by native numbers, under the library's names, and the iterator functions of the
-- source: `any`, `filter`, `find` on Boolean tests.
use Prim.Native.Nat.{ℕ, zero, suc, ◌+◌, ◌≤◌, ◌<◌}
use mathlib.Core.Path.{◌≡◌, refl}
use mathlib.Core.Logic.{◌≢◌, ◌⊎◌, inl, inr}
use mathlib.Core.Bool.{Bool, true, false, not, ◌&&◌, ◌||◌}
use mathlib.Core.List.{List, [], ◌∷◌, ◌++◌}
use mathlib.Core.Option.{Option, none, some}
use native.Mathlib.Omega.{arith}
use rust_tunnel.Base.Tests.{Bool-cases, is_some, if◌then◌else◌}

module _ {ℓ} {A : Type ℓ} where
  abbrev pub length : List A → ℕ
  length [] = 0
  length (x ∷ xs) = suc (length xs)

  abbrev pub take : ℕ → List A → List A
  take zero xs = []
  take (suc n) [] = []
  take (suc n) (x ∷ xs) = x ∷ take n xs

  abbrev pub drop : ℕ → List A → List A
  drop zero xs = xs
  drop (suc n) [] = []
  drop (suc n) (x ∷ xs) = drop n xs

  -- `iter().any(p)`
  abbrev pub any : (A → Bool) → List A → Bool
  any p [] = false
  any p (x ∷ xs) = p x || any p xs

  -- `iter().filter(p)`, and `retain(p)`
  abbrev pub filter : (A → Bool) → List A → List A
  filter p [] = []
  filter p (x ∷ xs) = let rest = filter p xs in if p x then x ∷ rest else rest

  -- `iter().find(p)`
  abbrev pub find : (A → Bool) → List A → Option A
  find p [] = none
  find p (x ∷ xs) = if p x then some x else find p xs

  -- What holds of each element, and of one of them.
  abbrev pub All {κ} : (A → Type κ) → List A → Type κ
  All P [] = Unit {κ}
  All P (x ∷ xs) = P x × All P xs

  abbrev pub Any : (A → Type 0) → List A → Type 0
  Any P [] = ⊥
  Any P (x ∷ xs) = P x ⊎ Any P xs

-- The keys of a list are pairwise distinct.
abbrev pub Distinct {ℓ κ} : {A : Type ℓ} {K : Type κ} → (A → K) → List A → Type κ
Distinct key [] = Unit
Distinct key (x ∷ xs) = All (λ y. key x ≢ key y) xs × Distinct key xs

module _ {ℓ} {A : Type ℓ} where
  pub length-append : (xs ys : List A) → length (xs ++ ys) ≡ length xs + length ys
  length-append [] ys = omega arith
  length-append (x ∷ xs) ys = omega (arith, length-append xs ys)

  pub length-filter-le : (p : A → Bool) (xs : List A) → length (filter p xs) ≤ length xs
  length-filter-le p [] = omega arith
  length-filter-le p (x ∷ xs) = ground (arith, length-filter-le p xs)

  pub any-append : (p : A → Bool) (xs ys : List A) → any p (xs ++ ys) ≡ (any p xs || any p ys)
  any-append p [] ys = refl
  any-append p (x ∷ xs) ys = ground (arith, any-append p xs ys)

  pub any-filter : (p q : A → Bool) (xs : List A) → any p (filter q xs) ≡ any (λ x. q x && p x) xs
  any-filter p q [] = refl
  any-filter p q (x ∷ xs) = ground (arith, any-filter p q xs)

  -- A filter that keeps as many entries as there are drops none.
  pub filter-eq_self :
      (p : A → Bool) (xs : List A) → any (λ x. not (p x)) xs ≡ false → filter p xs ≡ xs
  filter-eq_self p [] h = refl
  filter-eq_self p (x ∷ xs) h = ground (arith, filter-eq_self p xs)

  pub length-filter-lt :
      (p : A → Bool) (xs : List A)
      → any (λ x. not (p x)) xs ≡ true
      → length (filter p xs) < length xs
  length-filter-lt p [] h = absurd (cc)
  length-filter-lt p (x ∷ xs) h = ground (arith, length-filter-lt p xs, length-filter-le p xs)

  pub find-append :
      (p : A → Bool) (xs ys : List A)
      → find p (xs ++ ys) ≡ (if is_some (find p xs) then find p xs else find p ys)
  find-append p [] ys = refl
  find-append p (x ∷ xs) ys = ground (arith, find-append p xs ys)

  pub find-some : (p : A → Bool) (xs : List A) (a : A) → find p xs ≡ some a → p a ≡ true
  find-some p [] a h = cc
  find-some p (x ∷ xs) a h = ground (arith, find-some p xs a)

  pub is_some-find : (p : A → Bool) (xs : List A) → is_some (find p xs) ≡ any p xs
  is_some-find p [] = refl
  is_some-find p (x ∷ xs) = ground (arith, is_some-find p xs)

  pub All-append {κ} :
      (P : A → Type κ) (front back : List A) → All P front → All P back → All P (front ++ back)
  All-append P [] back f b = b
  All-append P (x ∷ front) back f b = (f.0, All-append P front back f.1 b)

-- A filter keeps what holds of every element, and keeps only what passes its test.
module _ {ℓ κ} {A : Type ℓ} (P : A → Type κ) (p : A → Bool) where
  pub All-filter : (xs : List A) → All P xs → All P (filter p xs)
  All-filter [] h = tt
  All-filter (x ∷ xs) h = elim (Bool-cases (p x)) [
    | inl e ↦ rw e (h.0, All-filter xs h.1)
    | inr e ↦ rw e (All-filter xs h.1)
  ]

pub All-both {ℓ κ μ} :
    {A : Type ℓ} (P : A → Type κ) (Q : A → Type μ) (xs : List A)
    → All P xs
    → All Q xs
    → All (λ x. P x × Q x) xs
All-both P Q [] h g = tt
All-both P Q (x ∷ xs) h g = ((h.0, g.0), All-both P Q xs h.1 g.1)

module _ {ℓ} {A : Type ℓ} (P : A → Type 0) where
  pub Any-append-left : (xs ys : List A) → Any P xs → Any P (xs ++ ys)
  Any-append-left [] ys h = elim h [ ]
  Any-append-left (x ∷ xs) ys (inl h) = inl h
  Any-append-left (x ∷ xs) ys (inr h) = inr (Any-append-left xs ys h)

  pub Any-append-right : (xs ys : List A) → Any P ys → Any P (xs ++ ys)
  Any-append-right [] ys h = h
  Any-append-right (x ∷ xs) ys h = inr (Any-append-right xs ys h)

pub All-Any :
    {A C : Type 0} (P Q : A → Type 0) (xs : List A)
    → ((x : A) → P x → Q x → C)
    → All P xs
    → Any Q xs
    → C
All-Any P Q [] f h a = elim a [ ]
All-Any P Q (x ∷ xs) f h (inl q) = f x h.0 q
All-Any P Q (x ∷ xs) f h (inr a) = All-Any P Q xs f h.1 a

pub Any-both :
    {A : Type 0} (P Q : A → Type 0) (xs : List A) → All P xs → Any Q xs → Any (λ x. P x × Q x) xs
Any-both P Q [] h a = elim a [ ]
Any-both P Q (x ∷ xs) h (inl q) = inl (h.0, q)
Any-both P Q (x ∷ xs) h (inr a) = inr (Any-both P Q xs h.1 a)

pub Any-weaken :
    {A : Type 0} (P Q : A → Type 0) (xs : List A) → ((x : A) → P x → Q x) → Any P xs → Any Q xs
Any-weaken P Q [] f a = elim a [ ]
Any-weaken P Q (x ∷ xs) f (inl p) = inl (f x p)
Any-weaken P Q (x ∷ xs) f (inr a) = inr (Any-weaken P Q xs f a)

pub Distinct-filter {ℓ κ} :
    {A : Type ℓ} {K : Type κ} (key : A → K) (p : A → Bool) (xs : List A)
    → Distinct key xs
    → Distinct key (filter p xs)
Distinct-filter key p [] d = tt
Distinct-filter key p (x ∷ xs) d = elim (Bool-cases (p x)) [
  | inl e ↦ rw e (All-filter (λ y. key x ≢ key y) p xs d.0, Distinct-filter key p xs d.1)
  | inr e ↦ rw e (Distinct-filter key p xs d.1)
]

pub All-weaken {ℓ κ μ} :
    {A : Type ℓ} (P : A → Type κ) (Q : A → Type μ) (xs : List A)
    → ((x : A) → P x → Q x)
    → All P xs
    → All Q xs
All-weaken P Q [] f h = tt
All-weaken P Q (x ∷ xs) f h = (f x h.0, All-weaken P Q xs f h.1)

pub All_pass-filter {ℓ} :
    {A : Type ℓ} (p : A → Bool) (xs : List A) → All (λ x. p x ≡ true) (filter p xs)
All_pass-filter p [] = tt
All_pass-filter p (x ∷ xs) = elim (Bool-cases (p x)) [
  | inl e ↦ rw e (e, All_pass-filter p xs)
  | inr e ↦ rw e (All_pass-filter p xs)
]

module _ {ℓ} {A : Type ℓ} where
  -- `iter_mut().find(p)`, and what is then assigned to the entry: `none` if there is none.
  unfoldable pub update_first : (A → Bool) → (A → A) → List A → Option (List A)
  update_first p f [] = none
  update_first p f (x ∷ xs) = elim (p x) [
    | true ↦ some (f x ∷ xs)
    | false ↦ elim (update_first p f xs) [ none ↦ none | some ys ↦ some (x ∷ ys) ]
  ]

  -- `a.unwrap_or(b)`, as it is used for an optional new value of a field.
  abbrev pub or_keep : A → Option A → A
  or_keep old none = old
  or_keep old (some new) = new

  pub List-cases : (xs : List A) → (xs ≡ []) ⊎ ((x : A) × (rest : List A) × (xs ≡ x ∷ rest))
  List-cases [] = inl refl
  List-cases (x ∷ xs) = inr (x, xs, refl)
