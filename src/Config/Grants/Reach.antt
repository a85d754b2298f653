-- ===== src/Config/Grants/Reach.antt =====
-- What `granted` and `admits` mean, against the entries of the configuration.
use rust_tunnel.Base.{
  ℕ, ◌≡◌, refl, ◌↔◌, ◌⊎◌, inl, inr, ◌≢◌, Bool, true, false, ◌&&◌, ◌||◌, ◌++◌, ◌∙◌, List, [], ◌∷◌,
  none, some, arith, ◌==◌, any, Any, All, find, any-append, Distinct, Bool-cases, Option-cases, sym,
  subst,
}
use rust_tunnel.Config.Types.{Proto, tcp, udp, same_proto, Offer, Peer, Config}
use rust_tunnel.Config.Grants.{contains, peer_granted, same_id, peer, admits, granted, may_reach}
use rust_tunnel.Config.Grants.Sorted.{
  contains-dedup-sort, contains-map-filter, IsStrict, dedup-sort-IsStrict,
}

-- An enabled offer of exactly this protocol and port.
pub record Offers (wanted : Proto) (number : ℕ) (o : Offer) : Type 0 where
  pub enabled : o.enabled ≡ true
  pub proto : o.proto ≡ wanted
  pub port : o.port ≡ number

abbrev pub offers_test : Proto → ℕ → Offer → Bool
offers_test proto port o = (o.enabled && same_proto o.proto proto) && o.port == port

pub same_proto_iff : (p q : Proto) → (same_proto p q ≡ true) ↔ (p ≡ q)
same_proto_iff tcp tcp = (λ h. refl, λ h. refl)
same_proto_iff tcp udp = (λ h. cc, λ h. cc)
same_proto_iff udp tcp = (λ h. cc, λ h. cc)
same_proto_iff udp udp = (λ h. refl, λ h. refl)

Offers-of_test :
    (proto : Proto) (port : ℕ) (os : List Offer)
    → any (offers_test proto port) os ≡ true
    → Any (Offers proto port) os
Offers-of_test proto port [] h = cc
Offers-of_test proto port (o ∷ os) h = elim (Bool-cases (offers_test proto port o)) [
  | inl e ↦ inl (record {
    enabled = ground arith;
    proto = (same_proto_iff o.proto proto).0 (ground arith);
    port = ground arith;
  })
  | inr e ↦ inr (Offers-of_test proto port os (ground arith))
]

test_of_Offers :
    (proto : Proto) (port : ℕ) (os : List Offer)
    → Any (Offers proto port) os
    → any (offers_test proto port) os ≡ true
test_of_Offers proto port [] h = absurd h
test_of_Offers proto port (o ∷ os) (inl h) =
    ground (arith, (same_proto_iff o.proto proto).1 h.proto)
test_of_Offers proto port (o ∷ os) (inr h) = ground (arith, test_of_Offers proto port os h)

pub contains-peer_granted :
    {Key : Type 0} (p : Peer Key) (shared : List Offer) (proto : Proto) (port : ℕ)
    → contains (peer_granted p shared proto) port
      ≡ (any (offers_test proto port) shared || any (offers_test proto port) p.offers)
unfolding peer_granted
contains-peer_granted p shared proto port =
    contains-dedup-sort port _
    ∙ (contains-map-filter (λ (o : Offer). o.port) _ port (shared ++ p.offers)
        ∙ any-append (offers_test proto port) shared p.offers)

module _ {Key : Type 0} (id_eq : Discrete Key) where
  -- The entry of an enabled peer.
  pub record Admitted (id : Key) (p : Peer Key) : Type 0 where
    pub listed : p.id ≡ id
    pub enabled : p.enabled ≡ true

  -- An enabled peer entry for the id, and an enabled offer in the shared list or in that entry's own.
  abbrev pub CanReach : Config Key → Key → Proto → ℕ → Type 0
  CanReach c id proto port =
      Any
        (λ (p : Peer Key).
          Admitted id p
          × (Any (Offers proto port) c.serve.shared ⊎ Any (Offers proto port) p.offers))
        c.serve.peers

  abbrev pub peer_id : Peer Key → Key
  peer_id p = p.id

  find-Any :
      (P : Peer Key → Type 0) (id : Key) (ps : List (Peer Key)) (p : Peer Key)
      → find (λ (x : Peer Key). same_id id_eq x.id id) ps ≡ some p
      → (p.id ≡ id → P p)
      → Any P ps
  find-Any P id [] p h k = cc
  find-Any P id (x ∷ ps) p h k = elim (id_eq x.id id) [
    | yes e ↦ let same : x ≡ p = ground arith in inl (subst P (sym same) (k (rw (← same) e)))
    | no d ↦ inr (find-Any P id ps p (ground arith) k)
  ]

  not_fresh :
      (P : Peer Key → Type 0) (k id : Key) (ps : List (Peer Key))
      → ((y : Peer Key) → P y → y.id ≡ id)
      → k ≡ id
      → All (λ y. k ≢ y.id) ps
      → ¬ Any P ps
  not_fresh P k id [] s e f a = a
  not_fresh P k id (y ∷ ps) s e f (inl a) = f.0 (e ∙ sym (s y a))
  not_fresh P k id (y ∷ ps) s e f (inr a) = not_fresh P k id ps s e f.1 a

  Any-find :
      (P : Peer Key → Type 0) (id : Key) (ps : List (Peer Key))
      → ((y : Peer Key) → P y → y.id ≡ id)
      → Distinct peer_id ps
      → Any P ps
      → (p : Peer Key) × (find (λ (x : Peer Key). same_id id_eq x.id id) ps ≡ some p) × P p
  Any-find P id [] s d a = absurd a
  Any-find P id (x ∷ ps) s d (inl a) = (x, ground (arith, s x a), a)
  Any-find P id (x ∷ ps) s d (inr a) = elim (id_eq x.id id) [
    | yes e ↦ absurd (not_fresh P x.id id ps s e d.0 a)
    | no n ↦ let (p, found, rest) = Any-find P id ps s d.1 a in (p, ground (arith, found), rest)
  ]

  find_same :
      (id : Key) (ps : List (Peer Key)) (p : Peer Key)
      → find (λ (x : Peer Key). same_id id_eq x.id id) ps ≡ some p
      → p.id ≡ id
  find_same id [] p h = cc
  find_same id (x ∷ ps) p h = ground (arith, find_same id ps p)

  -- In a configuration with no id listed twice, the test that `serve` makes of a peer, a protocol and a
  -- port passes exactly if some enabled peer entry has the id and either the shared list or that
  -- entry's own list has an enabled offer of that protocol and port.
  pub may_reach_iff :
      (c : Config Key) (id : Key) (proto : Proto) (port : ℕ)
      → Distinct peer_id c.serve.peers
      → (may_reach id_eq c id proto port ≡ true) ↔ CanReach c id proto port
  unfolding may_reach granted peer
  may_reach_iff c id proto port d = (
    λ h. elim (Option-cases (peer id_eq c id)) [
      | inl e ↦ absurd (cc)
      | inr (p, e) ↦ find-Any _ id c.serve.peers p e (λ same. (
        record { listed = same; enabled = ground arith },
        reach_of_test p (rw (← contains-peer_granted p c.serve.shared proto port) (ground arith)),
      ))
    ],
    λ a.
        let (p, found, both) = Any-find _ id c.serve.peers (λ y q. q.0.listed) d a in
        let (adm, offer) = both in
        ground (
          arith,
          found,
          adm.enabled,
          contains-peer_granted p c.serve.shared proto port,
          test_of_reach p offer,
        ),
  )
    where
      reach_of_test :
          (p : Peer Key)
          → (any (offers_test proto port) c.serve.shared || any (offers_test proto port) p.offers)
            ≡ true
          → Any (Offers proto port) c.serve.shared ⊎ Any (Offers proto port) p.offers
      reach_of_test p h = elim (Bool-cases (any (offers_test proto port) c.serve.shared)) [
        | inl e ↦ inl (Offers-of_test proto port c.serve.shared e)
        | inr e ↦ inr (Offers-of_test proto port p.offers (ground arith))
      ]

      test_of_reach :
          (p : Peer Key)
          → Any (Offers proto port) c.serve.shared ⊎ Any (Offers proto port) p.offers
          → (any (offers_test proto port) c.serve.shared || any (offers_test proto port) p.offers)
            ≡ true
      test_of_reach p (inl a) = ground (arith, test_of_Offers proto port c.serve.shared a)
      test_of_reach p (inr a) = ground (arith, test_of_Offers proto port p.offers a)

  -- With no id listed twice, a peer is admitted exactly if some enabled entry has its id.
  pub admits_iff :
      (c : Config Key) (id : Key)
      → Distinct peer_id c.serve.peers
      → (admits id_eq c id ≡ true) ↔ Any (Admitted id) c.serve.peers
  unfolding admits peer
  admits_iff c id d = (
    λ h. elim (Option-cases (peer id_eq c id)) [
      | inl e ↦ absurd (cc)
      | inr (p, e) ↦
          find-Any _ id c.serve.peers p e (λ same. record { listed = same; enabled = ground arith })
    ],
    λ a.
        let (p, found, adm) = Any-find _ id c.serve.peers (λ y q. q.listed) d a in
        ground (arith, found, adm.enabled),
  )

  -- `granted` answers `none` exactly for the peers that are not admitted, and a list of ports that it
  -- grants is strictly increasing: sorted and without repeats.
  pub granted_lem :
      (c : Config Key) (id : Key) (proto : Proto)
      → (admits id_eq c id ≡ false) × (granted id_eq c id proto ≡ none)
        ⊎ (ports : List ℕ) × (admits id_eq c id ≡ true)
          × (granted id_eq c id proto ≡ some ports)
          × IsStrict ports
  unfolding admits granted
  granted_lem c id proto = elim (Option-cases (peer id_eq c id)) [
    | inl e ↦ inl (ground arith, ground arith)
    | inr (p, e) ↦ elim (Bool-cases p.enabled) [
      | inl on ↦ inr (
        peer_granted p c.serve.shared proto,
        ground arith,
        ground arith,
        unfold peer_granted in dedup-sort-IsStrict _,
      )
      | inr off ↦ inl (ground arith, ground arith)
    ]
  ]
