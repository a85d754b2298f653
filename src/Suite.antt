-- ===== src/Suite.antt =====
-- The repository's own tests, run on the model: each test is the conjunction of its assertions. The ids
-- that the tests take from iroh are numbers.
mod Config
mod Framing
mod State
mod Tunnel
use rust_tunnel.Base.{ℕ, Bool, true, false, ◌&&◌, List, [], ◌∷◌, Option, none, some, ◌==◌}
use rust_tunnel.Errors.{Result, ok, err}

-- `is_err`, `is_ok`
abbrev pub is_err {ℓ} : {A : Type ℓ} → Result A → Bool
is_err (ok a) = false
is_err (err e) = true

abbrev pub is_ok {ℓ} : {A : Type ℓ} → Result A → Bool
is_ok (ok a) = true
is_ok (err e) = false

-- `assert_eq!` on lists of numbers.
abbrev pub same : List ℕ → List ℕ → Bool
same [] [] = true
same (x ∷ xs) (y ∷ ys) = x == y && same xs ys
same _ _ = false

abbrev pub is_some_of : List ℕ → Option (List ℕ) → Bool
is_some_of expected none = false
is_some_of expected (some found) = same expected found

-- Every assertion of a test.
abbrev pub all_hold : List Bool → Bool
all_hold [] = true
all_hold (b ∷ bs) = b && all_hold bs
