-- ===== src/Config/Seed/Laws.antt =====
-- What `seed_from_flags` does to a configuration.
use rust_tunnel.Base.{
  ap, ℕ, ◌≡◌, refl, ◌≢◌, ◌∙◌, true, false, ◌&&◌, ◌++◌, List, [], ◌∷◌, arith, All, any-append,
  is_some-find,
}
use mathlib.Core.List.{append_assoc}
use rust_tunnel.Config.Types.{Proto, tcp, udp, same_proto, Offer, Peer, Config, offer_key}
use rust_tunnel.Config.Grants.{same_id}
use rust_tunnel.Config.Validate.Exact.{IsValid, OfferIsValid, PeerIsValid, NameIsValid}
use rust_tunnel.Config.Seed.{
  push_missing, offers_port, new_offer, new_peer, lists_peer, seed_from_flags,
}
use rust_tunnel.Config.Seed.Loop.{
  Looks, push_missing-extends, push_missing_unchanged, push_missing_stable, All-push_missing,
  push_missing_complete, Distinct-push_missing, still_found,
}

offers_Looks : (proto : Proto) → Looks (offers_port proto) (new_offer proto)
offers_Looks proto = record {
  splits = λ port xs ys. any-append _ xs ys;
  made = λ port. offers_made proto port;
}
  where
    offers_made : (p : Proto) (port : ℕ) → offers_port p port (new_offer p port ∷ []) ≡ true
    offers_made tcp port = ground arith
    offers_made udp port = ground arith

pub empty_name : NameIsValid []
empty_name = record { fits = omega arith; printable = tt }

new_offers_valid :
    (proto : Proto) (ports : List ℕ)
    → All (λ (port : ℕ). port ≢ 0) ports
    → All (λ port. OfferIsValid (new_offer proto port)) ports
new_offers_valid proto [] h = tt
new_offers_valid proto (port ∷ ports) h =
    (record { port = h.0; name = empty_name }, new_offers_valid proto ports h.1)

-- Two protocols that the code tells apart are different.
pub clash : (p q : Proto) → (same_proto q p && true) ≡ false → ¬ (q ≡ p)
clash tcp tcp h = cc
clash tcp udp h = λ e. cc
clash udp tcp h = λ e. cc
clash udp udp h = cc

offers_fresh :
    (proto : Proto) (port : ℕ) (os : List Offer)
    → offers_port proto port os ≡ false
    → All (λ o. offer_key o ≢ offer_key (new_offer proto port)) os
offers_fresh proto port [] h = tt
offers_fresh proto port (o ∷ os) h = (
  λ e. clash proto o.proto (ground arith) (ground arith),
  offers_fresh proto port os (ground arith),
)

module _ {Key : Type 0} (id_eq : Discrete Key) where
  peers_Looks : Looks (lists_peer id_eq) new_peer
  peers_Looks = record {
    splits = λ id xs ys.
        let p = λ (x : Peer Key). same_id id_eq x.id id in
        is_some-find p (xs ++ ys)
        ∙ (any-append p xs ys ∙ ground (arith, is_some-find p xs, is_some-find p ys));
    made = λ id. ground arith;
  }

  peers_fresh :
      (id : Key) (ps : List (Peer Key))
      → lists_peer id_eq id ps ≡ false
      → All (λ (p : Peer Key). p.id ≢ id) ps
  peers_fresh id [] h = tt
  peers_fresh id (p ∷ ps) h = (ground arith, peers_fresh id ps (ground arith))

  new_peers_valid : (ids : List Key) → All (λ id. PeerIsValid (new_peer id)) ids
  new_peers_valid [] = tt
  new_peers_valid (id ∷ ids) =
      (record { name = empty_name; offers = tt; distinct = tt }, new_peers_valid ids)

  -- Seeding the same flags twice is seeding them once: the second time nothing changes, and the code
  -- reports that nothing changed.
  pub seed_from_flags_twice :
      (c : Config Key) (allow : List Key) (tcps udps : List ℕ)
      → seed_from_flags id_eq (seed_from_flags id_eq c allow tcps udps).0 allow tcps udps
        ≡ ((seed_from_flags id_eq c allow tcps udps).0, false)
  unfolding seed_from_flags
  seed_from_flags_twice c allow tcps udps =
      let s1 = push_missing (offers_port tcp) (new_offer tcp) c.serve.shared false tcps in
      let s2 = push_missing (offers_port udp) (new_offer udp) s1.0 s1.1 udps in
      let ps = push_missing (lists_peer id_eq) new_peer c.serve.peers s2.1 allow in
      let (ys, e) = push_missing-extends (offers_port udp) (new_offer udp) s1.0 s1.1 udps in
      let e1 = push_missing_stable (offers_port tcp) (new_offer tcp) s2.0 false tcps (
        rw e (
          still_found (offers_port tcp) (new_offer tcp) (offers_Looks tcp) s1.0 ys tcps (
            push_missing_complete (offers_port tcp) (new_offer tcp) (offers_Looks tcp)
              c.serve.shared false tcps))) in
      let e2 = push_missing_stable (offers_port udp) (new_offer udp) s2.0 false udps (
        push_missing_complete (offers_port udp) (new_offer udp) (offers_Looks udp) s1.0 s1.1
          udps) in
      let e3 =
        push_missing_stable (lists_peer id_eq) new_peer ps.0 false allow (
          push_missing_complete (lists_peer id_eq) new_peer peers_Looks c.serve.peers s2.1 allow) in
      ground (arith, e1, e2, e3)

  -- Seeding only appends: every entry that was there stays, in its place and unaltered, the bindings
  -- are untouched, and if the code reports no change the configuration is the one it was given.
  pub seed_from_flags-extends :
      (c : Config Key) (allow : List Key) (tcps udps : List ℕ)
      → let (c', changed) = seed_from_flags id_eq c allow tcps udps in
        (offers : List Offer) × (peers : List (Peer Key)) × (c'.serve.shared
          ≡ c.serve.shared ++ offers)
        × (c'.serve.peers ≡ c.serve.peers ++ peers)
        × (c'.connect ≡ c.connect)
        × (changed ≡ false → c' ≡ c)
  unfolding seed_from_flags
  seed_from_flags-extends c allow tcps udps =
      let s1 = push_missing (offers_port tcp) (new_offer tcp) c.serve.shared false tcps in
      let s2 = push_missing (offers_port udp) (new_offer udp) s1.0 s1.1 udps in
      let (xs, e1) =
        push_missing-extends (offers_port tcp) (new_offer tcp) c.serve.shared false tcps in
      let (ys, e2) = push_missing-extends (offers_port udp) (new_offer udp) s1.0 s1.1 udps in
      let (zs, e3) = push_missing-extends (lists_peer id_eq) new_peer c.serve.peers s2.1 allow in
      (
        xs ++ ys,
        zs,
        e2 ∙ (ap (λ l. l ++ ys) e1 ∙ append_assoc c.serve.shared xs ys),
        e3,
        refl,
        λ h. ground (
          arith,
          push_missing_unchanged (lists_peer id_eq) new_peer c.serve.peers s2.1 allow h,
          push_missing_unchanged (offers_port udp) (new_offer udp) s1.0 s1.1 udps,
          push_missing_unchanged (offers_port tcp) (new_offer tcp) c.serve.shared false tcps,
        ),
      )

  -- Seeding non-zero ports keeps a valid configuration valid.
  pub seed_from_flags-IsValid :
      (c : Config Key) (allow : List Key) (tcps udps : List ℕ)
      → All (λ (port : ℕ). port ≢ 0) tcps
      → All (λ (port : ℕ). port ≢ 0) udps
      → IsValid c
      → IsValid (seed_from_flags id_eq c allow tcps udps).0
  unfolding seed_from_flags
  seed_from_flags-IsValid c allow tcps udps ht hu v =
      let s1 = push_missing (offers_port tcp) (new_offer tcp) c.serve.shared false tcps in
      let s2 = push_missing (offers_port udp) (new_offer udp) s1.0 s1.1 udps in
      record {
        shared =
            All-push_missing (offers_port udp) (new_offer udp) OfferIsValid s1.0 s1.1 udps
              (new_offers_valid udp udps hu)
              (All-push_missing (offers_port tcp) (new_offer tcp) OfferIsValid c.serve.shared false
                tcps (new_offers_valid tcp tcps ht) v.shared);
        shared_distinct =
            Distinct-push_missing (offers_port udp) (new_offer udp) offer_key (offers_fresh udp)
              s1.0 s1.1 udps
              (Distinct-push_missing (offers_port tcp) (new_offer tcp) offer_key (offers_fresh tcp)
                c.serve.shared false tcps v.shared_distinct);
        peers =
            All-push_missing (lists_peer id_eq) new_peer (λ p. PeerIsValid p) c.serve.peers s2.1
              allow (new_peers_valid allow) v.peers;
        peers_distinct =
            Distinct-push_missing (lists_peer id_eq) new_peer (λ (p : Peer Key). p.id) peers_fresh
              c.serve.peers s2.1 allow v.peers_distinct;
        bindings = v.bindings;
        bindings_distinct = v.bindings_distinct;
      }
