-- ===== src/Connect/Sessions/Minted.antt =====
-- What a step of the session table changes: the ids it adds, and that it changes no other.
use rust_tunnel.Base.{
  ◌≡◌, refl, sym, ap, subst, ◌∙◌, ℕ, ◌+◌, ◌^◌, ◌<◌, Option, none, some, Option-cases, Bool,
  Bool-cases, inl, inr, ◌⊎◌, arith, ltb, ◌-◌, ◌==◌, length, ℕ_discrete, get, insert,
  get-insert-cases, retain, get-retain, retain-eq_self, ==_iff, keep,
}
use rust_tunnel.Serve.Sessions.{udp_idle}
use rust_tunnel.Connect.Sessions.{Session, Sessions, id_for, reap, reply_route}

module _ {Addr : Type 0} (key_eq : Discrete (Addr × ℕ)) where
  -- A table that has lost keys and sessions, and gained none.
  pub record IsLater (t t' : Sessions Addr) : Type 0 where
    pub counter : t'.next_id ≡ t.next_id
    pub keys :
        (k : Addr × ℕ) (id : ℕ) → get key_eq t'.by_key k ≡ some id → get key_eq t.by_key k ≡ some id
    pub sources :
        (id : ℕ) (s : Session Addr)
        → get ℕ_discrete t'.by_id id ≡ some s
        → (u : Session Addr) × (get ℕ_discrete t.by_id id ≡ some u) × (u.src ≡ s.src)

  touched-IsLater :
      (t : Sessions Addr) (id now : ℕ) (s : Session Addr)
      → get ℕ_discrete t.by_id id ≡ some s
      → IsLater t (record t { by_id = insert ℕ_discrete t.by_id id (record s { last = now }) })
  touched-IsLater t id now s found = record {
    counter = refl;
    keys = λ k i e. e;
    sources = λ i u e.
        elim (get-insert-cases ℕ_discrete t.by_id id i (record s { last = now }) u e) [
          | inl (hit, same) ↦ (s, ground arith, ap (λ x. x.src) same)
          | inr (miss, old) ↦ (u, old, refl)
        ];
  }

  keep-some {ℓ} :
      {V : Type ℓ} (q : V → Bool) (o : Option V) (v : V) → keep q o ≡ some v → o ≡ some v
  keep-some q none v e = absurd (cc)
  keep-some q (some i) v e = ground arith

  pub reap-IsLater : (t : Sessions Addr) (now : ℕ) → IsLater t (reap key_eq t now)
  unfolding reap
  reap-IsLater t now =
      let p : Session Addr → Bool = λ s. ltb (now - s.last) udp_idle in
      elim (Bool-cases (length (retain ℕ_discrete p t.by_id) == length t.by_id)) [
        | inl e ↦ rw e (
            rw (retain-eq_self ℕ_discrete p t.by_id ((==_iff _ _).0 e))
              (record { counter = refl; keys = λ k id f. f; sources = λ id s f. (s, f, refl) }))
        | inr e ↦ rw e (record {
          counter = refl;
          keys = λ k id f.
              keep-some _ (get key_eq t.by_key k) id (sym (get-retain key_eq _ t.by_key k) ∙ f);
          sources = λ id s f. (
            s,
            keep-some p (get ℕ_discrete t.by_id id) s
                (sym (get-retain ℕ_discrete p t.by_id id) ∙ f),
            refl,
          );
        })
      ]

  pub reply_route-IsLater :
      (t t' : Sessions Addr) (id now : ℕ) (route : ℕ × Addr)
      → reply_route t id now ≡ some (route, t')
      → IsLater t t'
  unfolding reply_route
  reply_route-IsLater t t' id now route e = elim (Option-cases (get ℕ_discrete t.by_id id)) [
    | inl absent ↦ absurd (ground arith)
    | inr (s, found) ↦ subst (IsLater t) (ground arith) (touched-IsLater t id now s found)
  ]

  -- What `id_for` answers: the id of a key that is there, or the next one.
  pub data Minted (t : Sessions Addr) (src : Addr) (port id : ℕ) (t' : Sessions Addr) : Type 0 where
    known : get key_eq t.by_key (src, port) ≡ some id → IsLater t t' → Minted t src port id t'
    fresh :
        id ≡ t.next_id + 1
        → t'.next_id ≡ id
        → ((k : Addr × ℕ) (j : ℕ)
            → get key_eq t'.by_key k ≡ some j
            → (((src, port) ≡ k) × (id ≡ j)) ⊎ (get key_eq t.by_key k ≡ some j))
        → ((j : ℕ) (s : Session Addr)
            → get ℕ_discrete t'.by_id j ≡ some s
            → ((id ≡ j) × (s.src ≡ src)) ⊎ (get ℕ_discrete t.by_id j ≡ some s))
        → Minted t src port id t'

  pub id_for-Minted :
      (t t' : Sessions Addr) (src : Addr) (port sock now id : ℕ)
      → t.next_id + 1 < 2 ^ 32
      → id_for key_eq t src port sock now ≡ some (id, t')
      → Minted t src port id t'
  unfolding id_for
  id_for-Minted t t' src port sock now id room e =
      elim (Option-cases (get key_eq t.by_key (src, port))) [
        | inl new ↦
            let session : Session Addr = record { src = src; sock = sock; last = now } in
            let next = t.next_id + 1 in
            let after : Sessions Addr = record {
              by_key = insert key_eq t.by_key (src, port) next;
              by_id = insert ℕ_discrete t.by_id next session;
              next_id = next;
            } in
            let made : ◌≡◌ {A = ℕ × Sessions Addr} (next, after) (id, t') = ground arith in
            subst (λ (q : ℕ × Sessions Addr). Minted t src port q.0 q.1) made
              (fresh refl refl
                (λ k j f. elim (get-insert-cases key_eq t.by_key (src, port) k next j f) [
                  | inl both ↦ inl both
                  | inr (miss, old) ↦ inr old
                ])
                (λ j s f. elim (get-insert-cases ℕ_discrete t.by_id next j session s f) [
                  | inl (hit, same) ↦ inl (hit, ap (λ x. x.src) (sym same))
                  | inr (miss, old) ↦ inr old
                ]))
        | inr (i, found) ↦ elim (Option-cases (get ℕ_discrete t.by_id i)) [
          | inl gone ↦ absurd (ground arith)
          | inr (s, there) ↦
              let after : Sessions Addr = record t {
                by_id = insert ℕ_discrete t.by_id i (record s { last = now });
              } in
              let made : ◌≡◌ {A = ℕ × Sessions Addr} (i, after) (id, t') = ground arith in
              subst (λ (q : ℕ × Sessions Addr). Minted t src port q.0 q.1) made
                (known found (touched-IsLater t i now s there))
        ]
      ]
