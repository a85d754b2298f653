-- ===== src/Config/Token/Compare.antt =====
-- The comparison of tokens by `|` and `^`, against equality.
use Prim.Native.Nat.{bit_or, bit_xor, bit_or-bitwise, bit_xor-bitwise, digits, differ, max}
use rust_tunnel.Base.{
  ℕ, zero, suc, ◌/◌, ◌%◌, ◌≤◌, ◌≡◌, refl, ◌↔◌, ◌∙◌, sym, true, List, [], ◌∷◌, arith, ap, length,
}
use rust_tunnel.Config.Token.{diff_bits, token_eq}

or_digits_zero : (n a b : ℕ) → a ≤ n → digits (λ y. y) max n a b ≡ 0 → (a ≡ 0) × (b ≡ 0)
or_digits_zero zero a b h e = (omega arith, e)
or_digits_zero (suc n) zero b h e = (refl, e)
or_digits_zero (suc n) (suc a) b h e =
    omega (arith, or_digits_zero n (suc a / 2) (b / 2) (omega arith) (omega arith))

bit_or-eq-zero : (a b : ℕ) → bit_or a b ≡ 0 → (a ≡ 0) × (b ≡ 0)
bit_or-eq-zero a b h = or_digits_zero a a b (omega arith) (sym (bit_or-bitwise a b) ∙ h)

differ_zero : (x y : ℕ) → differ x y ≡ 0 → x ≡ y
differ_zero zero y e = sym e
differ_zero (suc x) zero e = absurd (omega arith)
differ_zero (suc x) (suc y) e = ap suc (differ_zero x y e)

differ_self : (x : ℕ) → differ x x ≡ 0
differ_self zero = refl
differ_self (suc x) = differ_self x

xor_digits_zero : (n a b : ℕ) → a ≤ n → digits (λ y. y) differ n a b ≡ 0 → a ≡ b
xor_digits_zero zero a b h e = omega arith
xor_digits_zero (suc n) zero b h e = sym e
xor_digits_zero (suc n) (suc a) b h e = omega (
  arith,
  xor_digits_zero n (suc a / 2) (b / 2) (omega arith) (omega arith),
  differ_zero (suc a % 2) (b % 2) (omega arith),
)

xor_digits_self : (n a : ℕ) → a ≤ n → digits (λ y. y) differ n a a ≡ 0
xor_digits_self zero a h = omega arith
xor_digits_self (suc n) zero h = refl
xor_digits_self (suc n) (suc a) h =
    omega (arith, xor_digits_self n (suc a / 2) (omega arith), differ_self (suc a % 2))

bit_xor-eq-zero : (a b : ℕ) → bit_xor a b ≡ 0 → a ≡ b
bit_xor-eq-zero a b h = xor_digits_zero a a b (omega arith) (sym (bit_xor-bitwise a b) ∙ h)

bit_xor_self : (a : ℕ) → bit_xor a a ≡ 0
bit_xor_self a = bit_xor-bitwise a a ∙ xor_digits_self a a (omega arith)

-- Once a difference is recorded it stays.
diff_bits_zero :
    (acc : ℕ) (a b : List ℕ) → length a ≡ length b → diff_bits acc a b ≡ 0 → (acc ≡ 0) × (a ≡ b)
unfolding diff_bits
diff_bits_zero acc [] [] l h = (h, refl)
diff_bits_zero acc [] (y ∷ ys) l h = absurd (omega arith)
diff_bits_zero acc (x ∷ xs) [] l h = absurd (omega arith)
diff_bits_zero acc (x ∷ xs) (y ∷ ys) l h =
    let (none_yet, rest) = diff_bits_zero (bit_or acc (bit_xor x y)) xs ys (omega arith) h in
    let (start, same) = bit_or-eq-zero acc (bit_xor x y) none_yet in
    (start, cc (bit_xor-eq-zero x y same, rest))

diff_bits_self : (a : List ℕ) → diff_bits 0 a a ≡ 0
unfolding diff_bits
diff_bits_self [] = refl
diff_bits_self (x ∷ xs) = rw bit_xor_self (diff_bits_self xs)

-- `token_eq` accepts exactly equal tokens.
pub token_eq_iff : (a b : List ℕ) → (token_eq a b ≡ true) ↔ (a ≡ b)
unfolding token_eq
token_eq_iff a b = (
  λ h. (diff_bits_zero 0 a b (ground arith) (ground arith)).1,
  λ e. rw (← e) (ground (arith, diff_bits_self a)),
)
