-- ===== src/Connect/Sessions/Consistent.antt =====
-- How the two maps of the table of connect.rs fit together, over each call.
use rust_tunnel.Base.{
  ◌≡◌, sym, subst, ap, ◌∙◌, ℕ, ◌+◌, ◌-◌, ◌^◌, ◌<◌, ◌≤◌, Option, none, some, Option-cases,
  Bool-cases, inl, inr, Bool, true, arith, ltb, ◌==◌, ==_iff, is_some, length, ℕ_discrete, get,
  insert, get-insert, get-insert-cases, retain, get-retain, keep, retain-eq_self,
}
use rust_tunnel.Serve.Sessions.{udp_idle}
use rust_tunnel.Connect.Sessions.{Session, Sessions, no_sessions, id_for, reap, reply_route}

module _ {Addr : Type 0} (key_eq : Discrete (Addr × ℕ)) where
  pub record IsConsistent (t : Sessions Addr) : Type 0 where
    -- The id of a key has a session, to the source of the key.
    pub routed :
        (k : Addr × ℕ) (id : ℕ)
        → get key_eq t.by_key k ≡ some id
        → (s : Session Addr) × (get ℕ_discrete t.by_id id ≡ some s) × (s.src ≡ k.0)
    -- Two keys have two ids.
    pub injective :
        (k j : Addr × ℕ) (id : ℕ)
        → get key_eq t.by_key k ≡ some id
        → get key_eq t.by_key j ≡ some id
        → k ≡ j
    -- No key has an id that is still to come.
    pub minted : (k : Addr × ℕ) (id : ℕ) → get key_eq t.by_key k ≡ some id → id ≤ t.next_id

  pub no_sessions-IsConsistent : IsConsistent no_sessions
  unfolding get
  no_sessions-IsConsistent = record {
    routed = λ k id e. absurd (cc);
    injective = λ k j id e f. absurd (cc);
    minted = λ k id e. absurd (cc);
  }

  -- A session touched: its source stays.
  touched-IsConsistent :
      (t : Sessions Addr) (id now : ℕ) (s : Session Addr)
      → get ℕ_discrete t.by_id id ≡ some s
      → IsConsistent t
      → IsConsistent (record t { by_id = insert ℕ_discrete t.by_id id (record s { last = now }) })
  touched-IsConsistent t id now s found c = record {
    routed = λ k i e.
        let (u, at, same) = c.routed k i e in
        elim (ℕ_discrete id i) [
          | yes hit ↦ (
            record s { last = now },
            ground (arith, get-insert ℕ_discrete t.by_id id i (record s { last = now })),
            ground arith,
          )
          | no miss ↦ (
            u,
            ground (arith, get-insert ℕ_discrete t.by_id id i (record s { last = now })),
            same,
          )
        ];
    injective = c.injective;
    minted = c.minted;
  }

  minted-IsConsistent :
      (t : Sessions Addr) (src : Addr) (port sock now : ℕ)
      → get key_eq t.by_key (src, port) ≡ none
      → IsConsistent t
      → IsConsistent (record {
        by_key = insert key_eq t.by_key (src, port) (t.next_id + 1);
        by_id =
            insert ℕ_discrete t.by_id
              (t.next_id + 1)
              (record { src = src; sock = sock; last = now });
        next_id = t.next_id + 1;
      })
  minted-IsConsistent t src port sock now fresh c =
      let session : Session Addr = record { src = src; sock = sock; last = now } in
      let id = t.next_id + 1 in
      let cases = get-insert-cases key_eq t.by_key (src, port) in
      record {
        routed = λ k i e. elim (cases k id i e) [
          | inl (hit, same) ↦ (
            session,
            ground (arith, get-insert ℕ_discrete t.by_id id i session),
            ap (λ q. q.0) hit,
          )
          | inr (miss, old) ↦
              let (u, at, same) = c.routed k i old in
              (
                u,
                ground (arith, get-insert ℕ_discrete t.by_id id i session, c.minted k i old),
                same,
              )
        ];
        injective = λ k j i e f. elim (cases k id i e) [
          | inl (hit, same) ↦ elim (cases j id i f) [
            | inl (hit2, same2) ↦ sym hit ∙ hit2
            | inr (miss, old) ↦ absurd (omega (arith, c.minted j i old))
          ]
          | inr (miss, old) ↦ elim (cases j id i f) [
            | inl (hit, same) ↦ absurd (omega (arith, c.minted k i old))
            | inr (miss2, old2) ↦ c.injective k j i old old2
          ]
        ];
        minted = λ k i e. elim (cases k id i e) [
          | inl (hit, same) ↦ omega (arith, same)
          | inr (miss, old) ↦ omega (arith, c.minted k i old)
        ];
      }

  pub id_for-IsConsistent :
      (t : Sessions Addr) (src : Addr) (port sock now : ℕ)
      → IsConsistent t
      → t.next_id + 1 < 2 ^ 32
      → (id : ℕ) × (t' : Sessions Addr) × (id_for key_eq t src port sock now ≡ some (id, t'))
        × IsConsistent t'
        × (get key_eq t'.by_key (src, port) ≡ some id)
        × (t'.next_id ≤ t.next_id + 1)
  unfolding id_for
  id_for-IsConsistent t src port sock now c room =
      elim (Option-cases (get key_eq t.by_key (src, port))) [
        | inl fresh ↦ (
          t.next_id + 1,
          _,
          ground arith,
          minted-IsConsistent t src port sock now fresh c,
          ground (arith, get-insert key_eq t.by_key (src, port) (src, port) (t.next_id + 1)),
          omega arith,
        )
        | inr (id, known) ↦
            let (s, found, same) = c.routed (src, port) id known in
            (id, _, ground arith, touched-IsConsistent t id now s found c, known, omega arith)
      ]

  -- What a sweep leaves: the live sessions, and the keys that lead to them.
  swept-IsConsistent :
      (t : Sessions Addr) (now : ℕ) (p : Session Addr → Bool)
      → IsConsistent t
      → IsConsistent (record t {
        by_key =
            retain key_eq
              (λ id. is_some (get ℕ_discrete (retain ℕ_discrete p t.by_id) id))
              t.by_key;
        by_id = retain ℕ_discrete p t.by_id;
      })
  swept-IsConsistent t now p c = record {
    routed = λ k id e.
        let (u, at, same) = c.routed k id (old k id e).0 in
        let live = get-retain ℕ_discrete p t.by_id id in
        (u, ground (arith, live, at, (old k id e).1), same);
    injective = λ k j id e f. c.injective k j id (old k id e).0 (old j id f).0;
    minted = λ k id e. c.minted k id (old k id e).0;
  }
    where
      alive : ℕ → Bool
      alive id = is_some (get ℕ_discrete (retain ℕ_discrete p t.by_id) id)

      keep-some :
          (q : ℕ → Bool) (o : Option ℕ) (id : ℕ)
          → keep q o ≡ some id
          → (o ≡ some id) × (q id ≡ true)
      keep-some q none id e = absurd (cc)
      keep-some q (some i) id e = ground arith

      old :
          (k : Addr × ℕ) (id : ℕ)
          → get key_eq
              (retain key_eq
                (λ id. is_some (get ℕ_discrete (retain ℕ_discrete p t.by_id) id))
                t.by_key)
              k
            ≡ some id
          → (get key_eq t.by_key k ≡ some id)
            × (is_some (get ℕ_discrete (retain ℕ_discrete p t.by_id) id) ≡ true)
      old k id e = keep-some _ (get key_eq t.by_key k) id (sym (get-retain key_eq _ t.by_key k) ∙ e)

  pub reap-IsConsistent :
      (t : Sessions Addr) (now : ℕ) → IsConsistent t → IsConsistent (reap key_eq t now)
  unfolding reap
  reap-IsConsistent t now c =
      let p : Session Addr → Bool = λ s. ltb (now - s.last) udp_idle in
      elim (Bool-cases (length (retain ℕ_discrete p t.by_id) == length t.by_id)) [
        | inl e ↦ rw e (rw (retain-eq_self ℕ_discrete p t.by_id ((==_iff _ _).0 e)) c)
        | inr e ↦ rw e (swept-IsConsistent t now p c)
      ]

  pub reply_route-IsConsistent :
      (t t' : Sessions Addr) (id now : ℕ) (route : ℕ × Addr)
      → IsConsistent t
      → reply_route t id now ≡ some (route, t')
      → IsConsistent t'
  unfolding reply_route
  reply_route-IsConsistent t t' id now route c e = elim (Option-cases (get ℕ_discrete t.by_id id)) [
    | inl absent ↦ absurd (ground arith)
    | inr (s, found) ↦ subst IsConsistent (ground arith) (touched-IsConsistent t id now s found c)
  ]
