-- ===== src/Config/Grants/Sorted.antt =====
-- The lists of ports that sorting and removing repeats give.
use rust_tunnel.Base.{
  ℕ, ◌≤◌, ◌<◌, ◌≡◌, refl, ◌||◌, ◌∙◌, List, [], ◌∷◌, arith, ◌==◌, any, All, map, filter, ◌&&◌, Bool,
}
use rust_tunnel.Config.Grants.{insert_sorted, sort, dedup_after, dedup, contains}

-- Each entry is at most, or less than, the next one.
abbrev pub IsSorted : List ℕ → Type 0
IsSorted [] = Unit
IsSorted (x ∷ xs) = All (λ y. x ≤ y) xs × IsSorted xs

abbrev pub IsStrict : List ℕ → Type 0
IsStrict [] = Unit
IsStrict (x ∷ xs) = All (λ y. x < y) xs × IsStrict xs

contains-insert_sorted :
    (x port : ℕ) (xs : List ℕ)
    → contains (insert_sorted x xs) port ≡ (x == port || contains xs port)
unfolding insert_sorted
contains-insert_sorted x port [] = refl
contains-insert_sorted x port (y ∷ ys) = ground (arith, contains-insert_sorted x port ys)

contains-sort : (port : ℕ) (xs : List ℕ) → contains (sort xs) port ≡ contains xs port
unfolding sort
contains-sort port [] = refl
contains-sort port (x ∷ xs) =
    ground (arith, contains-insert_sorted x port (sort xs), contains-sort port xs)

contains-dedup_after :
    (x port : ℕ) (xs : List ℕ)
    → (x == port || contains (dedup_after x xs) port) ≡ (x == port || contains xs port)
unfolding dedup_after
contains-dedup_after x port [] = refl
contains-dedup_after x port (y ∷ ys) = ground (arith, contains-dedup_after y port ys)

contains-dedup : (port : ℕ) (xs : List ℕ) → contains (dedup xs) port ≡ contains xs port
unfolding dedup
contains-dedup port [] = refl
contains-dedup port (x ∷ xs) = contains-dedup_after x port xs

pub contains-dedup-sort :
    (port : ℕ) (xs : List ℕ) → contains (dedup (sort xs)) port ≡ contains xs port
contains-dedup-sort port xs = contains-dedup port (sort xs) ∙ contains-sort port xs

le_All : (x y : ℕ) (xs : List ℕ) → x ≤ y → All (λ z. y ≤ z) xs → All (λ z. x ≤ z) xs
le_All x y [] h a = tt
le_All x y (z ∷ xs) h a = (omega arith, le_All x y xs h a.1)

lt_All : (x y : ℕ) (xs : List ℕ) → x < y → All (λ z. y ≤ z) xs → All (λ z. x < z) xs
lt_All x y [] h a = tt
lt_All x y (z ∷ xs) h a = (omega arith, lt_All x y xs h a.1)

All-insert_sorted :
    (b x : ℕ) (xs : List ℕ) → b ≤ x → All (λ z. b ≤ z) xs → All (λ z. b ≤ z) (insert_sorted x xs)
unfolding insert_sorted
All-insert_sorted b x [] h a = (h, tt)
All-insert_sorted b x (y ∷ ys) h a = ground (arith, All-insert_sorted b x ys h a.1)

insert_sorted-IsSorted : (x : ℕ) (xs : List ℕ) → IsSorted xs → IsSorted (insert_sorted x xs)
unfolding insert_sorted
insert_sorted-IsSorted x [] s = (tt, tt)
insert_sorted-IsSorted x (y ∷ ys) s =
    ground (arith, insert_sorted-IsSorted x ys s.1, All-insert_sorted y x ys, le_All x y ys)

sort-IsSorted : (xs : List ℕ) → IsSorted (sort xs)
unfolding sort
sort-IsSorted [] = tt
sort-IsSorted (x ∷ xs) = insert_sorted-IsSorted x (sort xs) (sort-IsSorted xs)

All-dedup_after :
    (b x : ℕ) (xs : List ℕ) → All (λ z. b < z) xs → All (λ z. b < z) (dedup_after x xs)
unfolding dedup_after
All-dedup_after b x [] a = tt
All-dedup_after b x (y ∷ ys) a = ground (arith, All-dedup_after b y ys a.1)

dedup_after-IsStrict :
    (x : ℕ) (xs : List ℕ)
    → All (λ z. x ≤ z) xs
    → IsSorted xs
    → All (λ z. x < z) (dedup_after x xs) × IsStrict (dedup_after x xs)
unfolding dedup_after
dedup_after-IsStrict x [] a s = (tt, tt)
dedup_after-IsStrict x (y ∷ ys) a s =
    ground (arith, dedup_after-IsStrict y ys s.0 s.1, All-dedup_after x y ys, lt_All x y ys)

pub dedup-sort-IsStrict : (xs : List ℕ) → IsStrict (dedup (sort xs))
unfolding dedup
dedup-sort-IsStrict xs = go (sort xs) (sort-IsSorted xs)
  where
    go : (ys : List ℕ) → IsSorted ys → IsStrict (dedup ys)
    go [] s = tt
    go (y ∷ ys) s = dedup_after-IsStrict y ys s.0 s.1

-- The ports of the entries that pass a test.
pub contains-map-filter {ℓ} :
    {A : Type ℓ} (f : A → ℕ) (p : A → Bool) (port : ℕ) (xs : List A)
    → contains (map f (filter p xs)) port ≡ any (λ x. p x && f x == port) xs
contains-map-filter f p port [] = refl
contains-map-filter f p port (x ∷ xs) = ground (arith, contains-map-filter f p port xs)
