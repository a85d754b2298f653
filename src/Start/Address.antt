-- ===== src/Start/Address.antt =====
-- `admin_addr` of config.rs, with the standard library's parser of socket addresses as a parameter.
use rust_tunnel.Base.{
  ◌≡◌, ◌⊎◌, ℕ, ◌≤◌, ◌==◌, true, Option, none, some, Option-cases, inl, inr, any, arith, Text,
}
use rust_tunnel.Errors.{Result, ok, admin_port, bad_addr, or_fail, ◌>>=◌, ◌>>◌}
use rust_tunnel.Framing.{IsU16}
use rust_tunnel.Config.Validate.{check_port}
use rust_tunnel.Start.Flags.{parse_u16, unsigned, strip_plus}

-- The standard library's addresses: the loopback address, and `SocketAddr::from_str`.
pub record Sockets (Ip : Type 0) : Type 0 where
  pub localhost : Ip
  pub parse_addr : Text → Option (Ip × ℕ)

-- What the documentation says of the parser: a port has 16 bits, and stands behind a colon.
pub record SocketsLaws {Ip : Type 0} (sockets : Sockets Ip) : Type 0 where
  pub port_fits :
      (s : Text) (ip : Ip) (port : ℕ) → sockets.parse_addr s ≡ some (ip, port) → IsU16 port
  pub has_colon :
      (s : Text) (a : Ip × ℕ) → sockets.parse_addr s ≡ some a → any (λ c. c == b':') s ≡ true

module _ {Ip : Type 0} (sockets : Sockets Ip) where
  unfoldable pub admin_addr : Text → Result (Ip × ℕ)
  admin_addr spec = elim (parse_u16 spec) [
    | some port ↦ do check_port port admin_port; ok (sockets.localhost, port)
    | none ↦ do
      (ip, port) ← or_fail bad_addr (sockets.parse_addr spec)
      check_port port admin_port
      ok (ip, port)
  ]

  parse_u16-IsU16 : (s : Text) (n : ℕ) → parse_u16 s ≡ some n → IsU16 n
  unfolding parse_u16
  parse_u16-IsU16 s n h = elim (Option-cases (unsigned (strip_plus s))) [
    | inl e ↦ absurd (ground arith)
    | inr (m, e) ↦ ground arith
  ]

  -- Given what the documentation says of the standard library's parser: an address that
  -- `admin_addr` gives has a port from 1 to 65535, and the argument has a colon or the address is
  -- the loopback one.
  pub admin_addr-ok :
      (spec : Text) (ip : Ip) (port : ℕ)
      → SocketsLaws sockets
      → admin_addr spec ≡ ok (ip, port)
      → (1 ≤ port)
        × (port ≤ 65535)
        × ((any (λ c. c == b':') spec ≡ true) ⊎ (ip ≡ sockets.localhost))
  unfolding admin_addr check_port
  admin_addr-ok spec ip port laws h = elim (Option-cases (parse_u16 spec)) [
    | inr (n, e) ↦
        let fits = parse_u16-IsU16 spec n e in (ground arith, ground arith, inr (ground arith))
    | inl e ↦ elim (Option-cases (sockets.parse_addr spec)) [
      | inl bad ↦ absurd (ground arith)
      | inr ((at, n), found) ↦
          let fits = laws.port_fits spec at n found in
          let colons = laws.has_colon spec (at, n) found in (ground arith, ground arith, inl colons)
    ]
  ]
