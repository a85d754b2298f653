-- ===== src/Start/Flags.antt =====
-- `PortMap::from_str` of main.rs, which reads a `--tcp` or `--udp` flag of `rtun connect`, with the
-- parser of `u16` in the standard library: decimal digits, after a plus sign or none, below 2 ^ 16.
pub mod Show
use rust_tunnel.Base.{
  ◌≡◌, subst, ℕ, ◌+◌, ◌-◌, ◌*◌, ◌^◌, ◌≢◌, ◌&&◌, Bool, List, [], ◌∷◌, Option, none, some,
  Option-cases, inl, inr, ◌==◌, leb, ltb, if◌then◌else◌, All, arith, Text,
}
use rust_tunnel.Errors.{
  Result, ok, err, PortWord, local_port, remote_port, no_colon, bad_port, or_fail, Result-cases,
  ◌>>=◌,
}
use rust_tunnel.Framing.{IsU16}
use rust_tunnel.Config.Types.{PortMap, Config}
use rust_tunnel.Config.Validate.Exact.{IsValid}
use rust_tunnel.Config.Seed.{seed_bindings}
use rust_tunnel.Config.Seed.Bindings.{MapIsValid, seed_bindings-IsValid}
use rust_tunnel.Admin.Http.{split_once}

abbrev pub is_digit : ℕ → Bool
is_digit c = leb 48 c && leb c 57

-- Digits, onto the value of those before them.
unfoldable pub parse_digits : ℕ → Text → Option ℕ
parse_digits acc [] = some acc
parse_digits acc (c ∷ cs) =
    let rest = parse_digits (acc * 10 + (c - 48)) cs in if is_digit c then rest else none

-- No digit at all is an error, also after a plus sign.
abbrev pub unsigned : Text → Option ℕ
unsigned [] = none
unsigned (c ∷ cs) = parse_digits 0 (c ∷ cs)

abbrev pub strip_plus : Text → Text
strip_plus [] = []
strip_plus (c ∷ cs) = if c == 43 then cs else c ∷ cs

-- `str::parse::<u16>`
unfoldable pub parse_u16 : Text → Option ℕ
parse_u16 s = elim (unsigned (strip_plus s)) [
  | none ↦ none
  | some n ↦ if ltb n (2 ^ 16) then some n else none
]

-- The closure `parse`.
unfoldable pub parse_port : PortWord → Text → Result ℕ
parse_port which s = elim (parse_u16 s) [
  | none ↦ err (bad_port which)
  | some n ↦ if n == 0 then err (bad_port which) else ok n
]

unfoldable pub port_map : Text → Result PortMap
port_map s = do
  (l, r) ← or_fail no_colon (split_once 58 s)
  local ← parse_port local_port l
  remote ← parse_port remote_port r
  ok (record { local = local; remote = remote })

pub parse_port-ok :
    (which : PortWord) (s : Text) (n : ℕ) → parse_port which s ≡ ok n → (n ≢ 0) × IsU16 n
unfolding parse_port parse_u16
parse_port-ok which s n h = elim (Option-cases (unsigned (strip_plus s))) [
  | inl e ↦ absurd (ground arith)
  | inr (m, e) ↦ ground arith
]

pub port_map-ok :
    (s : Text) (m : PortMap) → port_map s ≡ ok m → MapIsValid m × IsU16 m.local × IsU16 m.remote
unfolding port_map
port_map-ok s m h = elim (Option-cases (split_once 58 s)) [
  | inl e ↦ absurd (ground arith)
  | inr ((l, r), e) ↦ elim (Result-cases (parse_port local_port l)) [
    | inr (x, bad) ↦ absurd (ground arith)
    | inl (a, first) ↦ elim (Result-cases (parse_port remote_port r)) [
      | inr (x, bad) ↦ absurd (ground arith)
      | inl (b, second) ↦
          let (a_set, a_u16) = parse_port-ok local_port l a first in
          let (b_set, b_u16) = parse_port-ok remote_port r b second in
          let made : record { local = a; remote = b } ≡ m = ground arith in
          subst (λ (x : PortMap). MapIsValid x × IsU16 x.local × IsU16 x.remote) made
            (record { local = a_set; remote = b_set }, a_u16, b_u16)
    ]
  ]
]

-- A map that some flag is read as.
abbrev pub IsParsed : PortMap → Type 0
IsParsed m = (s : Text) × (port_map s ≡ ok m)

Parsed-valid : (ms : List PortMap) → All IsParsed ms → All MapIsValid ms
Parsed-valid [] h = tt
Parsed-valid (m ∷ ms) h = ((port_map-ok h.0.0 m h.0.1).0, Parsed-valid ms h.1)

-- Seeding a valid configuration with maps that flags are read as keeps it valid.
pub seed_bindings-IsParsed :
    {Key : Type 0} (c : Config Key) (tcps udps : List PortMap)
    → All IsParsed tcps
    → All IsParsed udps
    → IsValid c
    → IsValid (seed_bindings c tcps udps).0
seed_bindings-IsParsed c tcps udps ht hu v =
    seed_bindings-IsValid c tcps udps (Parsed-valid tcps ht) (Parsed-valid udps hu) v
