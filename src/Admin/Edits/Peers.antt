-- ===== src/Admin/Edits/Peers.antt =====
-- What an edit of the peers does to every lookup by id.
use rust_tunnel.Base.{
  ◌≡◌, refl, sym, subst, ap, ◌∙◌, ◌≢◌, inl, inr, Bool-cases, Option-cases, ite, ℕ, true, not, ◌++◌,
  Option, none, some, List, [], ◌∷◌, ◌==◌, length, filter, find, Bool, update_first, or_keep, any,
  find-append, is_some, arith, Text,
}
use rust_tunnel.Errors.{ok}
use rust_tunnel.Config.Types.{Proto, Name, Offer, Peer, Config}
use rust_tunnel.Config.Grants.{peer, admits, granted}
use rust_tunnel.Config.Token.{trim}
use rust_tunnel.Admin.Edits.{
  has_id, add_peer_edit, patch_peer_edit, del_peer_edit, offers_of, add_offer_edit, del_offer_edit,
  put_offers, with_peers, parse_id, find_peer, is_offer,
}

-- `|p| { p.name = ..; p.enabled = .. }`, each field if the request has it.
abbrev pub patched_peer : {Key : Type 0} → Option Name → Option Bool → Peer Key → Peer Key
patched_peer name enabled p = record p {
  name = or_keep p.name name;
  enabled = or_keep p.enabled enabled;
}

module _ {Key : Type 0} (id_eq : Discrete Key) where
  find-filter :
      (id j : Key) (ps : List (Peer Key))
      → find (has_id id_eq j) (filter (λ p. not (has_id id_eq id p)) ps)
        ≡ ite (id_eq id j) none (find (has_id id_eq j) ps)
  find-filter id j [] = ground arith
  find-filter id j (p ∷ ps) = ground (arith, find-filter id j ps)

  -- After an accepted edit that adds a peer, that id is listed, enabled, with the given name and no
  -- offers of its own, and every other id is looked up as before.
  pub peer-add_peer_edit :
      (c c' : Config Key) (id j : Key) (name : Name)
      → add_peer_edit id_eq id name c ≡ ok (tt, c')
      → peer id_eq c' j
        ≡ ite
            (id_eq id j)
            (some (record { id = id; name = name; enabled = true; offers = [] }))
            (peer id_eq c j)
  unfolding add_peer_edit peer
  peer-add_peer_edit c c' id j name made =
      let new : Peer Key = record { id = id; name = name; enabled = true; offers = [] } in
      elim (Bool-cases (is_some (peer id_eq c id))) [
        | inl listed ↦ absurd (ground arith)
        | inr fresh ↦
            let shape : c'.serve.peers ≡ c.serve.peers ++ new ∷ [] = ground arith in
            let found =
              ap (find (has_id id_eq j)) shape
              ∙ find-append (has_id id_eq j) c.serve.peers (new ∷ []) in
            elim (id_eq id j) [
              | yes e ↦ ground (arith, found, ap (λ k. is_some (peer id_eq c k)) e)
              | no d ↦ ground (arith, found)
            ]
      ]

  find-update_first :
      (id : Key) (name : Option Name) (enabled : Option Bool) (ps qs : List (Peer Key))
      → update_first (has_id id_eq id) (patched_peer name enabled) ps ≡ some qs
      → (p : Peer Key) × (find (has_id id_eq id) ps ≡ some p)
        × (find (has_id id_eq id) qs ≡ some (patched_peer name enabled p))
  unfolding update_first
  find-update_first id name enabled [] qs e = absurd (cc)
  find-update_first id name enabled (p ∷ ps) qs e = elim (Bool-cases (has_id id_eq id p)) [
    | inl is ↦
        let shape : patched_peer name enabled p ∷ ps ≡ qs = ground arith in
        (p, ground arith, rw (sym shape) ground (arith, is))
    | inr other ↦
        elim (Option-cases (update_first (has_id id_eq id) (patched_peer name enabled) ps)) [
          | inl nobody ↦ absurd (ground arith)
          | inr (rs, rest) ↦
              let (q, was, now) = find-update_first id name enabled ps rs rest in
              let shape : p ∷ rs ≡ qs = ground arith in
              (q, ground (arith, was), rw (sym shape) ground (arith, now))
        ]
  ]

  -- An accepted patch of a peer decides whether that id is admitted, if it says so at all.
  pub admits-patch_peer_edit :
      (c c' : Config Key) (id : Key) (name : Option Name) (enabled : Option Bool)
      → patch_peer_edit id_eq id name enabled c ≡ ok (tt, c')
      → admits id_eq c' id ≡ or_keep (admits id_eq c id) enabled
  unfolding patch_peer_edit admits peer
  admits-patch_peer_edit c c' id name enabled made =
      elim (Option-cases
        (update_first (has_id id_eq id) (patched_peer name enabled) c.serve.peers)) [
          | inl nobody ↦ absurd (ground arith)
          | inr (qs, updated) ↦
              let (p, was, now) = find-update_first id name enabled c.serve.peers qs updated in
              let shape : qs ≡ c'.serve.peers = ground arith in
              let there : find (has_id id_eq id) c'.serve.peers
                  ≡ some (patched_peer name enabled p) =
                rw (sym shape) now in
              ground (arith, was, there)
        ]

  -- After an accepted edit that removes a peer, that id is not listed any more, and every other id
  -- is looked up as before.
  pub peer-del_peer_edit :
      (c c' : Config Key) (id j : Key)
      → del_peer_edit id_eq id c ≡ ok (tt, c')
      → peer id_eq c' j ≡ ite (id_eq id j) none (peer id_eq c j)
  unfolding del_peer_edit peer
  peer-del_peer_edit c c' id j made =
      let kept = filter (λ p. not (has_id id_eq id p)) c.serve.peers in
      elim (Bool-cases (length kept == length c.serve.peers)) [
        | inl nobody ↦ absurd (ground arith)
        | inr someone ↦
            let shape : c'.serve.peers ≡ kept = ground arith in
            ap (find (has_id id_eq j)) shape ∙ find-filter id j c.serve.peers
      ]

  pub find-put_offers :
      (id j : Key) (os : List Offer) (ps : List (Peer Key))
      → id ≢ j
      → find (has_id id_eq j) (put_offers id_eq id os ps) ≡ find (has_id id_eq j) ps
  unfolding put_offers
  find-put_offers id j os [] other = refl
  find-put_offers id j os (p ∷ ps) other = ground (arith, find-put_offers id j os ps other)

  -- An offer edit of one peer's list leaves another peer's grants alone.
  granted-put_offers :
      (c : Config Key) (id j : Key) (os : List Offer) (proto : Proto)
      → id ≢ j
      → granted id_eq (with_peers c (put_offers id_eq id os c.serve.peers)) j proto
        ≡ granted id_eq c j proto
  unfolding granted peer
  granted-put_offers c id j os proto other =
      ground (arith, find-put_offers id j os c.serve.peers other)

  -- An accepted edit that adds an offer to one peer changes the grants of no other peer.
  pub granted-add_offer_edit :
      (parse : Text → Option Key) (c c' : Config Key) (text : Text) (id j : Key)
      (proto asked : Proto) (port : ℕ) (name : Name)
      → parse (trim text) ≡ some id
      → id ≢ j
      → add_offer_edit id_eq parse (some text) proto port name c ≡ ok (tt, c')
      → granted id_eq c' j asked ≡ granted id_eq c j asked
  unfolding add_offer_edit offers_of parse_id
  granted-add_offer_edit parse c c' text id j proto asked port name parsed other made =
      elim (Option-cases (find_peer id_eq c id)) [
        | inl absent ↦ absurd (ground arith)
        | inr (p, found) ↦ elim (Bool-cases (any (is_offer proto port) p.offers)) [
          | inl twice ↦ absurd (ground arith)
          | inr once ↦
              let os =
                p.offers
                ++ record { proto = proto; port = port; name = name; enabled = true } ∷ [] in
              let shape : c' ≡ with_peers c (put_offers id_eq id os c.serve.peers) = ground arith in
              subst (λ x. granted id_eq x j asked ≡ granted id_eq c j asked) (sym shape)
                (granted-put_offers c id j os asked other)
        ]
      ]

  pub granted-del_offer_edit :
      (parse : Text → Option Key) (c c' : Config Key) (text : Text) (id j : Key)
      (proto asked : Proto) (port : ℕ)
      → parse (trim text) ≡ some id
      → id ≢ j
      → del_offer_edit id_eq parse (some text) proto port c ≡ ok (tt, c')
      → granted id_eq c' j asked ≡ granted id_eq c j asked
  unfolding del_offer_edit offers_of parse_id
  granted-del_offer_edit parse c c' text id j proto asked port parsed other made =
      elim (Option-cases (find_peer id_eq c id)) [
        | inl absent ↦ absurd (ground arith)
        | inr (p, found) ↦
            let kept = filter (λ o. not (is_offer proto port o)) p.offers in
            elim (Bool-cases (length kept == length p.offers)) [
              | inl nobody ↦ absurd (ground arith)
              | inr someone ↦
                  let shape : c' ≡ with_peers c (put_offers id_eq id kept c.serve.peers) =
                    ground arith in
                  subst (λ x. granted id_eq x j asked ≡ granted id_eq c j asked) (sym shape)
                    (granted-put_offers c id j kept asked other)
            ]
      ]
