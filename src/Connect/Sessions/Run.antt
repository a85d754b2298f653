-- ===== src/Connect/Sessions/Run.antt =====
-- Every table that the pumps, the replies and the reaper can make.
use rust_tunnel.Base.{◌≡◌, ap, ◌∙◌, sym, subst, ℕ, ◌+◌, ◌^◌, ◌<◌, some, get}
use rust_tunnel.Connect.Sessions.{Sessions, no_sessions, id_for, reap, reply_route}
use rust_tunnel.Connect.Sessions.Consistent.{
  IsConsistent, no_sessions-IsConsistent, id_for-IsConsistent, reap-IsConsistent,
  reply_route-IsConsistent,
}

module _ {Addr : Type 0} (key_eq : Discrete (Addr × ℕ)) where
  -- The calls, in any order; an id is minted only while the counter has room.
  pub data Reached : Sessions Addr → Type 0 where
    at_first : Reached no_sessions
    sent :
        (t t' : Sessions Addr) (src : Addr) (port sock now id : ℕ)
        → Reached t
        → t.next_id + 1 < 2 ^ 32
        → id_for key_eq t src port sock now ≡ some (id, t')
        → Reached t'
    replied :
        (t t' : Sessions Addr) (id now : ℕ) (route : ℕ × Addr)
        → Reached t
        → reply_route t id now ≡ some (route, t')
        → Reached t'
    swept : (t : Sessions Addr) (now : ℕ) → Reached t → Reached (reap key_eq t now)

  some_injective : {A : Type 0} {x y : A} → some x ≡ some y → x ≡ y
  some_injective e = cc

  -- Every session table that sends, replies and sweeps can make in any order, ids being minted only
  -- below the limit of a `u32`, is consistent: the id of every key has a session to the source of
  -- that key, no two keys share an id, and no id is above the counter.
  pub Reached-IsConsistent : (t : Sessions Addr) → Reached t → IsConsistent key_eq t
  Reached-IsConsistent _ at_first = no_sessions-IsConsistent key_eq
  Reached-IsConsistent _ (sent t t' src port sock now id before room made) =
      let (i, u, out, kept, found, top) =
        id_for-IsConsistent key_eq t src port sock now (Reached-IsConsistent t before) room in
      let same : (i, u) ≡ (id, t') = some_injective (sym out ∙ made) in
      subst (IsConsistent key_eq) (ap (λ p. p.1) same) kept
  Reached-IsConsistent _ (replied t t' id now route before made) =
      reply_route-IsConsistent key_eq t t' id now route (Reached-IsConsistent t before) made
  Reached-IsConsistent _ (swept t now before) =
      reap-IsConsistent key_eq t now (Reached-IsConsistent t before)

  -- On such a table `id_for` does not panic while the counter has room, and the id that it answers
  -- is the id of no other source and port.
  pub Reached-id_for :
      (t : Sessions Addr) (src : Addr) (port sock now : ℕ)
      → Reached t
      → t.next_id + 1 < 2 ^ 32
      → (id : ℕ) × (t' : Sessions Addr) × (id_for key_eq t src port sock now ≡ some (id, t'))
        × ((other : Addr × ℕ) → get key_eq t'.by_key other ≡ some id → other ≡ (src, port))
  Reached-id_for t src port sock now before room =
      let (id, t', out, kept, found, top) =
        id_for-IsConsistent key_eq t src port sock now (Reached-IsConsistent t before) room in
      (id, t', out, λ other e. kept.injective other (src, port) id e found)
