-- ===== src/Start/Flags/Show.antt =====
-- `Display` of `PortMap` (main.rs): the text of a map, and what `PortMap::from_str` reads back.
use rust_tunnel.Base.{
  ◌≡◌, refl, ℕ, zero, suc, ◌+◌, ◌-◌, ◌*◌, ◌/◌, ◌%◌, ◌^◌, ◌<◌, ◌≢◌, true, [], ◌∷◌, ◌++◌, Option,
  none, some, ltb, if◌then◌else◌, Bool-cases, inl, inr, All, All-append, arith, Text,
}
use rust_tunnel.Errors.{ok, local_port, remote_port, PortWord}
use rust_tunnel.Framing.{IsU16}
use rust_tunnel.Config.Types.{PortMap}
use rust_tunnel.Config.Seed.Bindings.{MapIsValid}
use rust_tunnel.Admin.Http.{split_once}
use rust_tunnel.Start.Flags.{
  is_digit, parse_digits, unsigned, strip_plus, parse_u16, parse_port, port_map,
}

-- `Display` of `u16` in the standard library, in at most `fuel` digits.
unfoldable pub digits : ℕ → ℕ → Text
digits zero n = []
digits (suc fuel) n =
    let rest = digits fuel (n / 10) in
    if ltb n 10 then (48 + n) ∷ [] else rest ++ (48 + n % 10) ∷ []

unfoldable pub show_u16 : ℕ → Text
show_u16 n = digits 5 n

unfoldable pub show_port_map : PortMap → Text
show_port_map m = show_u16 m.local ++ b':' ∷ show_u16 m.remote

-- One more digit after those that were read.
abbrev with_digit : ℕ → Option ℕ → Option ℕ
with_digit d none = none
with_digit d (some n) = some (n * 10 + d)

parse_digits-append :
    (acc d : ℕ) (s : Text)
    → d < 10
    → parse_digits acc (s ++ (48 + d) ∷ []) ≡ with_digit d (parse_digits acc s)
unfolding parse_digits
parse_digits-append acc d [] h = ground arith
parse_digits-append acc d (c ∷ s) h =
    ground (arith, parse_digits-append (acc * 10 + (c - 48)) d s h)

parse_digits-digits :
    (fuel n : ℕ) → n < 10 ^ suc fuel → parse_digits 0 (digits (suc fuel) n) ≡ some n
unfolding parse_digits digits
parse_digits-digits zero n h = let small : ltb n 10 ≡ true = ground arith in ground arith
parse_digits-digits (suc fuel) n h = elim (Bool-cases (ltb n 10)) [
  | inl e ↦ ground arith
  | inr e ↦
      let shorter : n / 10 < 10 ^ suc fuel = omega arith in
      ground (
        arith,
        parse_digits-digits fuel (n / 10) shorter,
        parse_digits-append 0 (n % 10) (digits (suc fuel) (n / 10)) (omega arith),
      )
]

-- Nothing but digits, and at least one.
abbrev IsDigit : ℕ → Type 0
IsDigit c = is_digit c ≡ true

digits-IsDigit : (fuel n : ℕ) → All IsDigit (digits fuel n)
unfolding digits
digits-IsDigit zero n = tt
digits-IsDigit (suc fuel) n = elim (Bool-cases (ltb n 10)) [
  | inl e ↦ rw e (ground arith, tt)
  | inr e ↦ rw e (
      All-append IsDigit (digits fuel (n / 10)) _ (digits-IsDigit fuel (n / 10)) (ground arith, tt))
]

strip_plus-digits : (s : Text) → All IsDigit s → strip_plus s ≡ s
strip_plus-digits [] h = refl
strip_plus-digits (c ∷ s) h = let digit = h.0 in ground arith

unsigned_digits : (s : Text) (n : ℕ) → s ≢ [] → parse_digits 0 s ≡ some n → unsigned s ≡ some n
unsigned_digits [] n h e = absurd (h refl)
unsigned_digits (c ∷ s) n h e = e

append-nonempty : (s : Text) (d : ℕ) → s ++ d ∷ [] ≢ []
append-nonempty [] d e = absurd (cc)
append-nonempty (c ∷ s) d e = absurd (cc)

digits-nonempty : (fuel n : ℕ) → digits (suc fuel) n ≢ []
unfolding digits
digits-nonempty fuel n e = elim (Bool-cases (ltb n 10)) [
  | inl b ↦ ground arith
  | inr b ↦ append-nonempty (digits fuel (n / 10)) (48 + n % 10) (ground arith)
]

-- Five digits are enough for a port, and they are read as the same port.
pub parse_u16-show_u16 : (n : ℕ) → IsU16 n → parse_u16 (show_u16 n) ≡ some n
unfolding parse_u16 show_u16
parse_u16-show_u16 n h =
    let parsed = parse_digits-digits 4 n (omega arith) in
    ground (
      arith,
      strip_plus-digits (digits 5 n) (digits-IsDigit 5 n),
      unsigned_digits (digits 5 n) n (digits-nonempty 4 n) parsed,
    )

split_once-digits : (l r : Text) → All IsDigit l → split_once b':' (l ++ b':' ∷ r) ≡ some (l, r)
unfolding split_once
split_once-digits [] r h = refl
split_once-digits (c ∷ l) r h = let digit = h.0 in ground (arith, split_once-digits l r h.1)

parse_port-show_u16 :
    (which : PortWord) (n : ℕ) → IsU16 n → n ≢ 0 → parse_port which (show_u16 n) ≡ ok n
unfolding parse_port
parse_port-show_u16 which n h set = ground (arith, parse_u16-show_u16 n h)

-- The text that is printed for a port map whose ports are 16-bit numbers and not 0 is read back as the
-- same map.
pub port_map-show_port_map :
    (m : PortMap)
    → MapIsValid m
    → IsU16 m.local
    → IsU16 m.remote
    → port_map (show_port_map m) ≡ ok m
unfolding port_map show_port_map show_u16
port_map-show_port_map m v here far = ground (
  arith,
  split_once-digits (digits 5 m.local) (digits 5 m.remote) (digits-IsDigit 5 m.local),
  parse_port-show_u16 local_port m.local here v.local,
  parse_port-show_u16 remote_port m.remote far v.remote,
)
