-- ===== src/Connect/Sessions.antt =====
-- The UDP session table of connect.rs: `Sessions`, and what the two UDP pumps do with one datagram. A
-- socket address is the standard library's: the type `Addr` is a parameter. A local socket is its
-- number. A table stands for the locked mutex, so each call is one step.
pub mod Consistent
pub mod Minted
pub mod Routes
pub mod Run
use rust_tunnel.Base.{
  ℕ, ◌+◌, ◌-◌, ◌%◌, ◌^◌, List, Option, none, some, [], ltb, ◌==◌, if◌then◌else◌, is_some, length,
  ℕ_discrete, Map, get, insert, retain,
}
use rust_tunnel.Framing.{encode_datagram, decode_datagram}
use rust_tunnel.Serve.Sessions.{udp_idle}

pub record Session (Addr : Type 0) : Type 0 where
  pub src : Addr
  pub sock : ℕ
  pub last : ℕ

pub record Sessions (Addr : Type 0) : Type 0 where
  pub by_key : Map (Addr × ℕ) ℕ
  pub by_id : Map ℕ (Session Addr)
  pub next_id : ℕ

-- `Sessions::default()`
abbrev pub no_sessions : {Addr : Type 0} → Sessions Addr
no_sessions = record { by_key = []; by_id = []; next_id = 0 }

-- What `pump_udp_in` does with one datagram.
pub data Reply (Addr : Type 0) : Type 0 where
  too_short unknown : Reply Addr
  send_to : ℕ → Addr → List ℕ → Reply Addr

module _ {Addr : Type 0} (key_eq : Discrete (Addr × ℕ)) where
  -- `Sessions::id_for`: `none` where `unwrap` panics. A release build wraps `next_id` at 2 ^ 32.
  unfoldable pub id_for : Sessions Addr → Addr → ℕ → ℕ → ℕ → Option (ℕ × Sessions Addr)
  id_for t src port sock now = elim (get key_eq t.by_key (src, port)) [
    | some id ↦ elim (get ℕ_discrete t.by_id id) [
      | none ↦ none
      | some s ↦
          some (id, record t { by_id = insert ℕ_discrete t.by_id id (record s { last = now }) })
    ]
    | none ↦
        let id = (t.next_id + 1) % 2 ^ 32 in
        some (
          id,
          record {
            by_key = insert key_eq t.by_key (src, port) id;
            by_id = insert ℕ_discrete t.by_id id (record { src = src; sock = sock; last = now });
            next_id = id;
          },
        )
  ]

  -- `Sessions::reap`
  unfoldable pub reap : Sessions Addr → ℕ → Sessions Addr
  reap t now =
      let live = retain ℕ_discrete (λ (s : Session Addr). ltb (now - s.last) udp_idle) t.by_id in
      if length live == length t.by_id then record t { by_id = live } else record t {
        by_key = retain key_eq (λ id. is_some (get ℕ_discrete live id)) t.by_key;
        by_id = live;
      }

  -- One turn of `pump_udp_out`: the datagram for the connection.
  unfoldable pub pump_udp_out :
      Sessions Addr → Addr → ℕ → ℕ → List ℕ → ℕ → Option (List ℕ × Sessions Addr)
  pump_udp_out t src remote sock payload now = elim (id_for t src remote sock now) [
    | none ↦ none
    | some (id, t') ↦ some (encode_datagram id remote payload, t')
  ]

module _ {Addr : Type 0} where
  -- `Sessions::reply_route`
  unfoldable pub reply_route : Sessions Addr → ℕ → ℕ → Option ((ℕ × Addr) × Sessions Addr)
  reply_route t id now = elim (get ℕ_discrete t.by_id id) [
    | none ↦ none
    | some s ↦ some (
      (s.sock, s.src),
      record t { by_id = insert ℕ_discrete t.by_id id (record s { last = now }) },
    )
  ]

  -- One turn of `pump_udp_in`.
  unfoldable pub pump_udp_in : Sessions Addr → List ℕ → ℕ → Reply Addr × Sessions Addr
  pump_udp_in t dg now = elim (decode_datagram dg) [
    | none ↦ (too_short, t)
    | some (id, _, payload) ↦ elim (reply_route t id now) [
      | none ↦ (unknown, t)
      | some ((sock, src), t') ↦ (send_to sock src payload, t')
    ]
  ]
