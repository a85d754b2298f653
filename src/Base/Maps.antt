-- ===== src/Base/Maps.antt =====
-- `HashMap` and `BTreeMap` as association lists over keys with a decidable equality. No operation
-- below depends on the order of the entries.
use mathlib.Core.Path.{◌≡◌, refl, sym, subst}
use mathlib.Core.Logic.{◌≢◌, ◌⊎◌, ite, inl, inr}
use mathlib.Core.List.{List, [], ◌∷◌}
use mathlib.Core.Option.{Option, none, some}
use mathlib.Core.Bool.{Bool}
use native.Mathlib.Omega.{arith}
use rust_tunnel.Base.Tests.{if◌then◌else◌, Bool-cases}
use rust_tunnel.Base.Lists.{All, Distinct, length}
use Prim.Native.Nat.{◌≤◌}

abbrev pub Map {ℓ} : Type ℓ → Type ℓ → Type ℓ
Map K V = List (K × V)

module _ {ℓ} {K V : Type ℓ} (dec : Discrete K) where
  -- `map.get(k)`
  unfoldable pub get : Map K V → K → Option V
  get [] k = none
  get ((j, v) ∷ m) k = ite (dec j k) (some v) (get m k)

  -- `map.remove(k)`
  unfoldable pub remove : Map K V → K → Map K V
  remove [] k = []
  remove ((j, v) ∷ m) k = let rest = remove m k in ite (dec j k) rest ((j, v) ∷ rest)

  -- `map.insert(k, v)`
  unfoldable pub insert : Map K V → K → V → Map K V
  insert m k v = (k, v) ∷ remove m k

  pub get-remove : (m : Map K V) (k j : K) → get (remove m k) j ≡ ite (dec k j) none (get m j)
  unfolding get remove
  get-remove [] k j = ground arith
  get-remove ((i, v) ∷ m) k j = ground (arith, get-remove m k j)

  pub length-remove-le : (m : Map K V) (k : K) → length (remove m k) ≤ length m
  unfolding remove
  length-remove-le [] k = omega arith
  length-remove-le ((j, v) ∷ m) k = ground (arith, length-remove-le m k)

  pub get-insert :
      (m : Map K V) (k j : K) (v : V) → get (insert m k v) j ≡ ite (dec k j) (some v) (get m j)
  unfolding insert get
  get-insert m k j v = ground (arith, get-remove m k j)

-- An entry found after an insertion is the new one or an old one.
module _ {ℓ} {K V : Type ℓ} (dec : Discrete K) where
  pub get-insert-cases :
      (m : Map K V) (k j : K) (v u : V)
      → get dec (insert dec m k v) j ≡ some u
      → ((k ≡ j) × (v ≡ u)) ⊎ ((k ≢ j) × (get dec m j ≡ some u))
  get-insert-cases m k j v u found = elim (dec k j) [
    | yes e ↦ inl (e, ground (arith, get-insert dec m k j v))
    | no d ↦ inr (d, ground (arith, get-insert dec m k j v))
  ]

-- What `retain` leaves of a lookup.
abbrev pub keep {ℓ} : {V : Type ℓ} → (V → Bool) → Option V → Option V
keep p none = none
keep p (some v) = if p v then some v else none

module _ {ℓ} {K V : Type ℓ} (dec : Discrete K) (p : V → Bool) where
  -- `map.retain(|_, v| p(v))`
  unfoldable pub retain : Map K V → Map K V
  retain [] = []
  retain ((k, v) ∷ m) = let rest = retain m in if p v then (k, v) ∷ rest else remove dec rest k

  pub get-retain : (m : Map K V) (k : K) → get dec (retain m) k ≡ keep p (get dec m k)
  unfolding get retain
  get-retain [] k = refl
  get-retain ((j, v) ∷ m) k = ground (arith, get-retain m k, get-remove dec (retain m) j k)

  length-retain-le : (m : Map K V) → length (retain m) ≤ length m
  unfolding retain
  length-retain-le [] = omega arith
  length-retain-le ((j, v) ∷ m) =
      ground (arith, length-retain-le m, length-remove-le dec (retain m) j)

  pub retain-eq_self : (m : Map K V) → length (retain m) ≡ length m → retain m ≡ m
  unfolding retain
  retain-eq_self [] h = refl
  retain-eq_self ((j, v) ∷ m) h = elim (Bool-cases (p v)) [
    | inl e ↦ ground (arith, retain-eq_self m)
    | inr e ↦ absurd (ground (arith, length-retain-le m, length-remove-le dec (retain m) j))
  ]

-- What holds of every entry holds after a removal, and of what a lookup finds.
module _ {ℓ κ} {K V : Type ℓ} (dec : Discrete K) (P : K × V → Type κ) where
  pub All-remove : (m : Map K V) (k : K) → All P m → All P (remove dec m k)
  unfolding remove
  All-remove [] k h = tt
  All-remove ((j, v) ∷ m) k h =
      let rest = All-remove m k h.1 in
      elim (dec j k) as (λ d. All P (ite d (remove dec m k) ((j, v) ∷ remove dec m k))) [
        | yes e ↦ rest
        | no d ↦ (h.0, rest)
      ]

  pub All-get : (m : Map K V) (k : K) (v : V) → All P m → get dec m k ≡ some v → P (k, v)
  unfolding get
  All-get [] k v h e = absurd (cc)
  All-get ((j, u) ∷ m) k v h found =
      (elim (dec j k) as (λ d. ite d (some u) (get dec m k) ≡ some v → P (k, v)) [
        | yes e ↦ λ same. let entry : Path (K × V) (j, u) (k, v) = cc in subst P entry h.0
        | no d ↦ λ rest. All-get m k v h.1 rest
      ])
        found

-- Each key stands at most once in what `insert` and `remove` make, so that every entry is found.
module _ {ℓ} {K V : Type ℓ} (dec : Discrete K) where
  abbrev pub KeysDistinct : Map K V → Type ℓ
  KeysDistinct m = Distinct (λ (e : K × V). e.0) m

  fresh-remove : (m : Map K V) (k : K) → All (λ (e : K × V). k ≢ e.0) (remove dec m k)
  unfolding remove
  fresh-remove [] k = tt
  fresh-remove ((j, v) ∷ m) k =
      let rest = fresh-remove m k in
      elim (dec j k)
        as (λ d. All (λ (e : K × V). k ≢ e.0) (ite d (remove dec m k) ((j, v) ∷ remove dec m k))) [
          | yes e ↦ rest
          | no d ↦ (λ e. d (sym e), rest)
        ]

  pub KeysDistinct-remove : (m : Map K V) (k : K) → KeysDistinct m → KeysDistinct (remove dec m k)
  unfolding remove
  KeysDistinct-remove [] k h = tt
  KeysDistinct-remove ((j, v) ∷ m) k h =
      let rest = KeysDistinct-remove m k h.1 in
      elim (dec j k) as (λ d. KeysDistinct (ite d (remove dec m k) ((j, v) ∷ remove dec m k))) [
        | yes e ↦ rest
        | no d ↦ (All-remove dec (λ (e : K × V). j ≢ e.0) m k h.0, rest)
      ]

  pub KeysDistinct-insert :
      (m : Map K V) (k : K) (v : V) → KeysDistinct m → KeysDistinct (insert dec m k v)
  unfolding insert
  KeysDistinct-insert m k v h = (fresh-remove m k, KeysDistinct-remove m k h)

-- What holds of everything that can be looked up holds of every entry.
module _ {ℓ κ} {K V : Type ℓ} (dec : Discrete K) (P : K × V → Type κ) where
  pub All_of_get :
      (m : Map K V)
      → KeysDistinct dec m
      → ((k : K) (v : V) → get dec m k ≡ some v → P (k, v))
      → All P m
  unfolding get
  All_of_get [] h each = tt
  All_of_get ((j, v) ∷ m) h each = (
    each j v (ground arith),
    All_of_get m h.1 (λ k u found.
        let other = All-get dec (λ (e : K × V). j ≢ e.0) m k u h.0 found in
        each k u (ground arith)),
  )

-- A map into the unit type as a set of the keys seen so far, against pairwise distinct keys.
module _ {ℓ} {A K : Type ℓ} (dec : Discrete K) (key : A → K) where
  abbrev pub Absent : Map K (Unit {ℓ}) → List A → Type ℓ
  Absent seen xs = All (λ x. get dec seen (key x) ≡ none) xs

  pub Absent-insert :
      (seen : Map K (Unit {ℓ})) (k : K) (xs : List A)
      → All (λ x. k ≢ key x) xs
      → Absent seen xs
      → Absent (insert dec seen k tt) xs
  Absent-insert seen k [] f a = tt
  Absent-insert seen k (x ∷ xs) f a =
      (ground (arith, get-insert dec seen k (key x) tt), Absent-insert seen k xs f.1 a.1)

  pub fresh_of_Absent-insert :
      (seen : Map K (Unit {ℓ})) (k : K) (xs : List A)
      → Absent (insert dec seen k tt) xs
      → All (λ x. k ≢ key x) xs
  fresh_of_Absent-insert seen k [] a = tt
  fresh_of_Absent-insert seen k (x ∷ xs) a =
      (ground (arith, get-insert dec seen k (key x) tt), fresh_of_Absent-insert seen k xs a.1)

  pub Absent-of_Absent-insert :
      (seen : Map K (Unit {ℓ})) (k : K) (xs : List A)
      → Absent (insert dec seen k tt) xs
      → Absent seen xs
  Absent-of_Absent-insert seen k [] a = tt
  Absent-of_Absent-insert seen k (x ∷ xs) a =
      (ground (arith, get-insert dec seen k (key x) tt), Absent-of_Absent-insert seen k xs a.1)

  pub Absent-nil : (xs : List A) → Absent [] xs
  unfolding get
  Absent-nil [] = tt
  Absent-nil (x ∷ xs) = (refl, Absent-nil xs)
