-- ===== src/Tunnel/Issued.antt =====
-- The ids that the connecting side puts on its datagrams, over the life of a connection.
use rust_tunnel.Base.{
  ◌≡◌, refl, sym, ap, subst, ◌∙◌, ℕ, ◌+◌, ◌^◌, ◌<◌, ◌≤◌, List, [], ◌∷◌, some, inl, inr, arith,
  ℕ_discrete, get, All, All-weaken, All-both,
}
use rust_tunnel.Framing.{IsU16, IsU32}
use rust_tunnel.Connect.Sessions.{Session, Sessions, id_for, reap, reply_route}
use rust_tunnel.Connect.Sessions.Consistent.{
  IsConsistent, id_for-IsConsistent, reap-IsConsistent, reply_route-IsConsistent,
}
use rust_tunnel.Tunnel.{Sent}
use rust_tunnel.Connect.Sessions.Minted.{
  IsLater, Minted, known, fresh, reap-IsLater, reply_route-IsLater, id_for-Minted,
}

module _ {Addr : Type 0} (key_eq : Discrete (Addr × ℕ)) where
  abbrev pub key_of : Sent Addr → Addr × ℕ
  key_of a = (a.src, a.port)

  -- The table against the datagrams that were sent: whatever has an id now, or had it once, the id
  -- belongs to one source and port for ever.
  pub record IsIssued (t : Sessions Addr) (wire : List (Sent Addr)) : Type 0 where
    pub consistent : IsConsistent key_eq t
    pub bounded : All (λ a. a.id ≤ t.next_id) wire
    pub ranges : All (λ a. IsU32 a.id × IsU16 a.port) wire
    pub owned :
        (k : Addr × ℕ) (id : ℕ)
        → get key_eq t.by_key k ≡ some id
        → All (λ a. a.id ≡ id → key_of a ≡ k) wire
    pub sourced :
        (id : ℕ) (s : Session Addr)
        → get ℕ_discrete t.by_id id ≡ some s
        → All (λ a. a.id ≡ id → a.src ≡ s.src) wire
    pub paired : All (λ a. All (λ b. a.id ≡ b.id → key_of a ≡ key_of b) wire) wire

  later-IsIssued :
      (t t' : Sessions Addr) (wire : List (Sent Addr))
      → IsLater key_eq t t'
      → IsConsistent key_eq t'
      → IsIssued t wire
      → IsIssued t' wire
  later-IsIssued t t' wire later c h = record {
    consistent = c;
    bounded = rw later.counter h.bounded;
    ranges = h.ranges;
    owned = λ k id e. h.owned k id (later.keys k id e);
    sourced = λ id s e.
        let (u, found, same) = later.sources id s e in
        All-weaken _ _ wire (λ a old at. old at ∙ same) (h.sourced id u found);
    paired = h.paired;
  }

  pub reap-IsIssued :
      (t : Sessions Addr) (wire : List (Sent Addr)) (now : ℕ)
      → IsIssued t wire
      → IsIssued (reap key_eq t now) wire
  reap-IsIssued t wire now h =
      later-IsIssued t (reap key_eq t now) wire (reap-IsLater key_eq t now)
        (reap-IsConsistent key_eq t now h.consistent) h

  pub reply_route-IsIssued :
      (t t' : Sessions Addr) (wire : List (Sent Addr)) (id now : ℕ) (route : ℕ × Addr)
      → reply_route t id now ≡ some (route, t')
      → IsIssued t wire
      → IsIssued t' wire
  reply_route-IsIssued t t' wire id now route e h =
      later-IsIssued t t' wire (reply_route-IsLater key_eq t t' id now route e)
        (reply_route-IsConsistent key_eq t t' id now route h.consistent e) h

  some_injective : {A : Type 0} {x y : A} → some x ≡ some y → x ≡ y
  some_injective e = cc

  -- One more datagram.
  sent_older :
      (t t' : Sessions Addr) (src : Addr) (port id : ℕ) (wire : List (Sent Addr))
      → Minted key_eq t src port id t'
      → IsIssued t wire
      → (All (λ b. id ≡ b.id → (src, port) ≡ key_of b) wire)
        × ((k : Addr × ℕ) (j : ℕ)
            → get key_eq t'.by_key k ≡ some j
            → All (λ b. b.id ≡ j → key_of b ≡ k) wire)
        × ((j : ℕ) (s : Session Addr)
            → get ℕ_discrete t'.by_id j ≡ some s
            → All (λ b. b.id ≡ j → b.src ≡ s.src) wire)
        × (t.next_id ≤ t'.next_id)
  sent_older t t' src port id wire (known found later) h = (
    All-weaken _ _ wire (λ b old at. sym (old (sym at))) (h.owned (src, port) id found),
    λ k j e. h.owned k j (later.keys k j e),
    λ j s e.
        let (u, there, same) = later.sources j s e in
        All-weaken _ _ wire (λ b old at. old at ∙ same) (h.sourced j u there),
    omega (arith, later.counter),
  )
  sent_older t t' src port id wire (fresh new counter keys sources) h = (
    All-weaken _ _ wire (λ b small at. absurd (omega (arith, new, at, small))) h.bounded,
    λ k j e. elim (keys k j e) [
      | inl (hit, same) ↦
          All-weaken _ _ wire (λ b small at. absurd (omega (arith, new, at, same, small))) h.bounded
      | inr old ↦ h.owned k j old
    ],
    λ j s e. elim (sources j s e) [
      | inl (same, from) ↦
          All-weaken _ _ wire (λ b small at. absurd (omega (arith, new, at, same, small))) h.bounded
      | inr old ↦ h.sourced j s old
    ],
    omega (arith, new, counter),
  )

  pub sent-IsIssued :
      (t t' : Sessions Addr) (a : Sent Addr) (sock now : ℕ) (wire : List (Sent Addr))
      → IsU16 a.port
      → t.next_id + 1 < 2 ^ 32
      → id_for key_eq t a.src a.port sock now ≡ some (a.id, t')
      → IsIssued t wire
      → IsIssued t' (a ∷ wire)
  sent-IsIssued t t' a sock now wire u16 room made h =
      let (i, u, out, kept, found, top) =
        id_for-IsConsistent key_eq t a.src a.port sock now h.consistent room in
      let same : ◌≡◌ {A = ℕ × Sessions Addr} (i, u) (a.id, t') = some_injective (sym out ∙ made) in
      let c : IsConsistent key_eq t' =
        subst (λ (q : ℕ × Sessions Addr). IsConsistent key_eq q.1) same kept in
      let mine : get key_eq t'.by_key (key_of a) ≡ some a.id =
        subst (λ (q : ℕ × Sessions Addr). get key_eq q.1.by_key (key_of a) ≡ some q.0) same found in
      let low : t'.next_id ≤ t.next_id + 1 =
        subst (λ (q : ℕ × Sessions Addr). q.1.next_id ≤ t.next_id + 1) same top in
      let (fresh_pairs, keys, sources, more) =
        sent_older t t' a.src a.port a.id wire
          (id_for-Minted key_eq t t' a.src a.port sock now a.id room made) h in
      let small = c.minted (key_of a) a.id mine in
      record {
        consistent = c;
        bounded = (small, All-weaken _ _ wire (λ b le. omega (arith, le, more)) h.bounded);
        ranges = ((omega (arith, small, low, room), u16), h.ranges);
        owned = λ k id e. (λ at. c.injective (key_of a) k id (mine ∙ ap some at) e, keys k id e);
        sourced = λ id s e. (
          λ at.
              let (v, there, from) = c.routed (key_of a) a.id mine in
              let both : v ≡ s = ground (arith, ap (get ℕ_discrete t'.by_id) at) in
              sym from ∙ ap (λ x. x.src) both,
          sources id s e,
        );
        paired = (
          (λ e. refl, fresh_pairs),
          All-weaken _ _ wire (λ b both. (λ e. sym (both.0 (sym e)), both.1))
              (All-both _ _ wire fresh_pairs h.paired),
        );
      }

  pub nothing-IsIssued : (t : Sessions Addr) → IsConsistent key_eq t → IsIssued t []
  nothing-IsIssued t c = record {
    consistent = c;
    bounded = tt;
    ranges = tt;
    owned = λ k id e. tt;
    sourced = λ id s e. tt;
    paired = tt;
  }
