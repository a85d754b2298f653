-- ===== src/Identity/Turns/Agreed.antt =====
-- The keys that the processes end up with, whatever the order of their turns.
use rust_tunnel.Base.{
  ◌≢◌, ◌≡◌, refl, sym, subst, ◌∙◌, ℕ, List, [], none, some, ite, ℕ_discrete, arith, inl, inr, ◌⊎◌,
  Option-cases, Bool-cases,
}
use rust_tunnel.Errors.{io, Error, ok, Result-cases}
use rust_tunnel.Identity.{
  Keys, KeysRoundTrip, KeyOs, KeyFile, parse_key, read_key, create_new, write_all,
}
use rust_tunnel.Identity.Turns.{
  Stage, starting, missing, opened, has_key, gave_up, World, turn, advance, Turns, start, turned,
}

module _ {Secret : Type 0} (keys : Keys Secret) where
  -- The file holds the key, whole.
  abbrev pub Holds : KeyFile → Secret → Type 0
  Holds file k = (bytes : List ℕ) × (file ≡ some bytes) × (parse_key keys bytes ≡ ok k)

  -- What one turn does to the file.
  data Turned (fresh : Secret) (p : Stage Secret) (f : KeyFile) (q : Stage Secret) (g : KeyFile)
      : Type 0 where
    kept :
        g ≡ f
        → (q ≡ opened → ⊥)
        → ((k : Secret) → q ≡ has_key k → Holds f k ⊎ (p ≡ has_key k))
        → Turned fresh p f q g
    claimed : f ≡ none → q ≡ opened → g ≡ some [] → Turned fresh p f q g
    wrote : p ≡ opened → q ≡ has_key fresh → g ≡ some (keys.to_bytes fresh) → Turned fresh p f q g
    broke : (e : Error) → p ≡ opened → q ≡ gave_up e → Turned fresh p f q g

  read_key-Holds :
      (os : KeyOs) (f : KeyFile) (k : Secret) → read_key keys os f ≡ ok (some k) → Holds f k
  unfolding read_key
  read_key-Holds os none k h = absurd (ground arith)
  read_key-Holds os (some bytes) k h = (
    bytes,
    refl,
    elim (Result-cases (parse_key keys bytes)) [
      | inl (j, e) ↦ ground arith
      | inr (x, e) ↦ absurd (ground arith)
    ],
  )

  turn-Turned :
      (os : KeyOs) (fresh : Secret) (p : Stage Secret) (f : KeyFile)
      → Turned fresh p f (turn keys os fresh p f).0 (turn keys os fresh p f).1
  unfolding turn read_key create_new write_all
  turn-Turned os fresh starting f = elim (Result-cases (read_key keys os f)) [
    | inr (e, bad) ↦ kept (ground arith) (λ o. absurd (ground arith)) (λ k h. absurd (ground arith))
    | inl (found, e) ↦ elim (Option-cases found) [
      | inl nothing ↦
          kept (ground arith) (λ o. absurd (ground arith)) (λ k h. absurd (ground arith))
      | inr (j, it) ↦
          kept (ground arith) (λ o. absurd (ground arith))
            (λ k h. inl (read_key-Holds os f k (ground arith)))
    ]
  ]
  turn-Turned os fresh missing none = elim (Bool-cases os.create_dir_fails) [
    | inl e ↦ kept (ground arith) (λ o. absurd (ground arith)) (λ k h. absurd (ground arith))
    | inr e ↦ elim (Bool-cases os.open_fails) [
      | inl cannot ↦ kept (ground arith) (λ o. absurd (ground arith)) (λ k h. absurd (ground arith))
      | inr can ↦ claimed refl (ground arith) (ground arith)
    ]
  ]
  turn-Turned os fresh missing (some bytes) = elim (Bool-cases os.create_dir_fails) [
    | inl e ↦ kept (ground arith) (λ o. absurd (ground arith)) (λ k h. absurd (ground arith))
    | inr e ↦ kept (ground arith) (λ o. absurd (ground arith)) (λ k h. absurd (ground arith))
  ]
  turn-Turned os fresh opened f = elim (Option-cases os.partial_write) [
    | inl e ↦ wrote refl (ground arith) (ground arith)
    | inr (part, e) ↦ broke io refl (ground arith)
  ]
  turn-Turned os fresh (has_key k) f = kept refl (λ o. absurd (cc)) (λ j h. inr h)
  turn-Turned os fresh (gave_up e) f = kept refl (λ o. absurd (cc)) (λ j h. absurd (cc))

  -- What holds in every world: a process that has a key has the one that the file holds, and while a
  -- process is to write the file, nobody else is, and the file is empty.
  pub record IsAgreed (w : World Secret) : Type 0 where
    pub holders : (i : ℕ) (k : Secret) → w.stage i ≡ has_key k → Holds w.file k
    pub empty : (i : ℕ) → w.stage i ≡ opened → w.file ≡ some []
    pub sole : (i j : ℕ) → w.stage i ≡ opened → w.stage j ≡ opened → i ≡ j

  Holds-empty : (k : Secret) (f : KeyFile) → f ≡ some [] → Holds f k → ⊥
  unfolding parse_key
  Holds-empty k f e (bytes, at, parsed) = let same : bytes ≡ [] = ground arith in ground arith

  pub parse_key-to_bytes :
      KeysRoundTrip keys → (k : Secret) → parse_key keys (keys.to_bytes k) ≡ ok k
  unfolding parse_key
  parse_key-to_bytes r k = ground (arith, r.length-to_bytes k, r.from_bytes-to_bytes k)

  -- A stage after the turn is the new one of process `i`, or the old one of another.
  stage-cases :
      (i j : ℕ) (q p s : Stage Secret)
      → ite (ℕ_discrete i j) q p ≡ s
      → ((i ≡ j) × (q ≡ s)) ⊎ ((i ≢ j) × (p ≡ s))
  stage-cases i j q p s at = elim (ℕ_discrete i j) [
    | yes e ↦ inl (e, ground arith)
    | no d ↦ inr (d, ground arith)
  ]

  abbrev after : World Secret → ℕ → Stage Secret → KeyFile → World Secret
  after w i q g = record { file = g; stage = λ j. ite (ℕ_discrete i j) q (w.stage j) }

  -- Nobody has the file open, and the turn may open it or not, but not give a key.
  kept-IsAgreed :
      (w : World Secret) (i : ℕ) (q : Stage Secret)
      → IsAgreed w
      → (q ≡ opened → ⊥)
      → ((k : Secret) → q ≡ has_key k → Holds w.file k ⊎ (w.stage i ≡ has_key k))
      → IsAgreed (after w i q w.file)
  kept-IsAgreed w i q h quiet got =
      let old : (j : ℕ) → (after w i q w.file).stage j ≡ opened → w.stage j ≡ opened = λ j at.
        elim (stage-cases i j q (w.stage j) opened at) [
          | inl (e, now) ↦ absurd (quiet now)
          | inr (d, was) ↦ was
        ] in
      record {
        holders = λ j k at. elim (stage-cases i j q (w.stage j) (has_key k) at) [
          | inl (e, now) ↦ elim (got k now) [ inl held ↦ held | inr had ↦ h.holders i k had ]
          | inr (d, was) ↦ h.holders j k was
        ];
        empty = λ j at. h.empty j (old j at);
        sole = λ j k a b. h.sole j k (old j a) (old k b);
      }

  claimed-IsAgreed :
      (w : World Secret) (i : ℕ) (q : Stage Secret)
      → IsAgreed w
      → w.file ≡ none
      → q ≡ opened
      → IsAgreed (after w i q (some []))
  claimed-IsAgreed w i q h clear now =
      let closed : (j : ℕ) → w.stage j ≡ opened → ⊥ = λ j at. let e = h.empty j at in cc in
      let new : (j : ℕ) → (after w i q (some [])).stage j ≡ opened → i ≡ j = λ j at.
        elim (stage-cases i j q (w.stage j) opened at) [
          | inl (e, now) ↦ e
          | inr (d, was) ↦ absurd (closed j was)
        ] in
      record {
        holders = λ j k at. elim (stage-cases i j q (w.stage j) (has_key k) at) [
          | inl (e, is_key) ↦ absurd (cc)
          | inr (d, was) ↦ let (bytes, there, parsed) = h.holders j k was in absurd (cc)
        ];
        empty = λ j at. refl;
        sole = λ j k a b. sym (new j a) ∙ new k b;
      }

  -- The process that has the file open ends its turn with the key in the file, or without a key.
  ended-IsAgreed :
      (w : World Secret) (i : ℕ) (q : Stage Secret) (g : KeyFile)
      → IsAgreed w
      → w.stage i ≡ opened
      → (q ≡ opened → ⊥)
      → ((k : Secret) → q ≡ has_key k → Holds g k)
      → IsAgreed (after w i q g)
  ended-IsAgreed w i q g h was_opened done got =
      let closed : (j : ℕ) → (after w i q g).stage j ≡ opened → ⊥ = λ j at.
        elim (stage-cases i j q (w.stage j) opened at) [
          | inl (e, now) ↦ done now
          | inr (d, was) ↦ d (h.sole i j was_opened was)
        ] in
      record {
        holders = λ j k at. elim (stage-cases i j q (w.stage j) (has_key k) at) [
          | inl (e, now) ↦ got k now
          | inr (d, was) ↦ absurd (Holds-empty k w.file (h.empty i was_opened) (h.holders j k was))
        ];
        empty = λ j at. absurd (closed j at);
        sole = λ j k a b. absurd (closed j a);
      }

  advance-IsAgreed :
      (os : KeyOs) (fresh : Secret) (i : ℕ) (w : World Secret)
      → KeysRoundTrip keys
      → IsAgreed w
      → IsAgreed (advance keys os fresh i w)
  unfolding advance
  advance-IsAgreed os fresh i w r h =
      let q = (turn keys os fresh (w.stage i) w.file).0 in
      elim (turn-Turned os fresh (w.stage i) w.file) [
        | kept same quiet got ↦
            subst (λ g. IsAgreed (after w i q g)) (sym same) (kept-IsAgreed w i q h quiet got)
        | claimed clear e made ↦
            subst (λ g. IsAgreed (after w i q g)) (sym made) (claimed-IsAgreed w i q h clear e)
        | wrote was e made ↦
            ended-IsAgreed w i q _ h was (λ o. absurd (cc))
              (λ k now. (keys.to_bytes fresh, made, parse_key-to_bytes r fresh ∙ cc))
        | broke why was e ↦ ended-IsAgreed w i q _ h was (λ o. absurd (cc)) (λ k now. absurd (cc))
      ]

  abbrev pub AllStarting : World Secret → Type 0
  AllStarting w = (i : ℕ) → w.stage i ≡ starting

  Turns-IsAgreed :
      (w v : World Secret) → KeysRoundTrip keys → AllStarting w → Turns keys w v → IsAgreed v
  Turns-IsAgreed w v r fresh start = record {
    holders = λ i k at. let e = fresh i in absurd (cc);
    empty = λ i at. let e = fresh i in absurd (cc);
    sole = λ i j a b. let e = fresh i in absurd (cc);
  }
  Turns-IsAgreed w v r fresh (turned os key i run) =
      advance-IsAgreed os key i _ r (Turns-IsAgreed w _ r fresh run)

  -- Given that keys round-trip: processes that start together on one state directory, in whatever
  -- order their reads, creations and writes of the key file fall and however the operating system
  -- answers, never go on with different keys, and the file holds the key of one that goes on,
  -- whole.
  pub Turns-same_key :
      (w v : World Secret) (i j : ℕ) (a b : Secret)
      → KeysRoundTrip keys
      → AllStarting w
      → Turns keys w v
      → v.stage i ≡ has_key a
      → v.stage j ≡ has_key b
      → (a ≡ b) × Holds v.file a
  Turns-same_key w v i j a b r fresh run at_i at_j =
      let h = Turns-IsAgreed w v r fresh run in
      let (bytes, there, parsed) = h.holders i a at_i in
      let (bytes', there', parsed') = h.holders j b at_j in (cc, h.holders i a at_i)
