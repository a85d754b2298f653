-- ===== src/Admin/Edits/Table.antt =====
-- The offers of a configuration as a table with a row for the shared list and one for each peer, and what
-- an edit of the offers does to it.
pub mod Cells
use rust_tunnel.Base.{
  ◌≡◌, refl, sym, subst, ap, ◌∙◌, ite, inl, inr, ◌≢◌, Bool-cases, Option-cases, ℕ, Bool, true,
  false, not, ◌&&◌, ◌||◌, ◌++◌, Option, none, some, List, [], ◌∷◌, ◌==◌, length, filter, find, any,
  any-append, arith, Text, if◌then◌else◌, update_first, or_keep,
}
use rust_tunnel.Errors.{Result, ok, err, Result-cases}
use rust_tunnel.Config.Types.{Proto, tcp, udp, same_proto, Name, Offer, Peer, Config}
use rust_tunnel.Config.Grants.{same_id, peer, admits, granted, may_reach, contains, peer_granted}
use rust_tunnel.Config.Grants.Reach.{offers_test, contains-peer_granted}
use rust_tunnel.Admin.Edits.{
  has_id, offers_of, add_offer_edit, del_offer_edit, patch_offer_edit, put_offers, with_peers,
  with_shared, parse_id, find_peer, is_offer,
}
use rust_tunnel.Admin.Edits.Peers.{find-put_offers}
use rust_tunnel.Admin.Edits.Offers.{same_offer}

module _ {Key : Type 0} (id_eq : Discrete Key) where
  -- The row of the shared list is `none`.
  abbrev pub own_offers : Option (Peer Key) → List Offer
  own_offers none = []
  own_offers (some p) = p.offers

  abbrev pub row : Config Key → Option Key → List Offer
  row c none = c.serve.shared
  row c (some id) = own_offers (peer id_eq c id)

  -- One cell: the row has an enabled offer of the protocol and the port.
  abbrev pub offered : Config Key → Option Key → Proto → ℕ → Bool
  offered c who q n = any (offers_test q n) (row c who)

  abbrev pub same_row : Option Key → Option Key → Bool
  same_row none none = true
  same_row (some a) (some b) = same_id id_eq a b
  same_row _ _ = false

  -- A peer reaches what the table has in the shared row or in its own, if it is admitted.
  pub may_reach-offered :
      (c : Config Key) (id : Key) (q : Proto) (n : ℕ)
      → may_reach id_eq c id q n
        ≡ (admits id_eq c id && (offered c none q n || offered c (some id) q n))
  unfolding may_reach granted admits
  may_reach-offered c id q n = elim (Option-cases (peer id_eq c id)) [
    | inl e ↦ ground arith
    | inr (p, e) ↦ ground (arith, contains-peer_granted p c.serve.shared q n)
  ]

  find-put_offers_self :
      (id : Key) (os : List Offer) (ps : List (Peer Key)) (p : Peer Key)
      → find (has_id id_eq id) ps ≡ some p
      → find (has_id id_eq id) (put_offers id_eq id os ps) ≡ some (record p { offers = os })
  unfolding put_offers
  find-put_offers_self id os [] p e = absurd (cc)
  find-put_offers_self id os (x ∷ ps) p e = ground (arith, find-put_offers_self id os ps p)

  -- The row that an edit names.
  abbrev pub row_of : (Text → Option Key) → Option Text → Result (Option Key)
  row_of parse none = ok none
  row_of parse (some s) = elim (parse_id parse s) [ ok id ↦ ok (some id) | err e ↦ err e ]

  -- What `offers_of` hands out is the row, and putting a list back changes that row alone.
  pub record IsRow (c : Config Key) (target : Option Key) (list : List Offer)
      (put : List Offer → Config Key) : Type 0 where
    pub held : list ≡ row c target
    pub puts :
        (os : List Offer) (who : Option Key)
        → row (put os) who ≡ (if same_row target who then os else row c who)
    pub admission : (os : List Offer) (id : Key) → admits id_eq (put os) id ≡ admits id_eq c id

  shared-IsRow : (c : Config Key) → IsRow c none c.serve.shared (with_shared c)
  unfolding admits peer
  shared-IsRow c = record {
    held = refl;
    puts = λ os who.
        elim who as (λ w. row (with_shared c os) w ≡ (if same_row none w then os else row c w)) [
          | none ↦ refl
          | some id ↦ refl
        ];
    admission = λ os id. refl;
  }

  peer_of-put :
      (c : Config Key) (id j : Key) (os : List Offer) (p : Peer Key)
      → find_peer id_eq c id ≡ some p
      → peer id_eq (with_peers c (put_offers id_eq id os c.serve.peers)) j
        ≡ ite (id_eq id j) (some (record p { offers = os })) (peer id_eq c j)
  unfolding peer
  peer_of-put c id j os p found = elim (id_eq id j) [
    | yes e ↦ ground (
      arith,
      ap (λ k. find (has_id id_eq k) (put_offers id_eq id os c.serve.peers)) e,
      find-put_offers_self id os c.serve.peers p found,
    )
    | no d ↦ ground (arith, find-put_offers id_eq id j os c.serve.peers d)
  ]

  peer-IsRow :
      (c : Config Key) (id : Key) (p : Peer Key)
      → find_peer id_eq c id ≡ some p
      → IsRow c (some id) p.offers (λ os. with_peers c (put_offers id_eq id os c.serve.peers))
  unfolding admits peer
  peer-IsRow c id p found = record {
    held = ground (arith, found);
    puts = λ os who. peer-puts os who;
    admission = λ os j. elim (id_eq id j) [
      | yes e ↦
          let here : peer id_eq c j ≡ some p = subst (λ k. peer id_eq c k ≡ some p) e found in
          ground (arith, peer_of-put c id j os p found, here)
      | no d ↦ ground (arith, peer_of-put c id j os p found)
    ];
  }
    where
      peer-puts :
          (os : List Offer) (who : Option Key)
          → row (with_peers c (put_offers id_eq id os c.serve.peers)) who
            ≡ (if same_row (some id) who then os else row c who)
      peer-puts os none = refl
      peer-puts os (some j) = elim (id_eq id j) [
        | yes e ↦ ground (arith, peer_of-put c id j os p found)
        | no d ↦ ground (arith, peer_of-put c id j os p found)
      ]

  pub offers_of-IsRow :
      (parse : Text → Option Key) (c : Config Key) (who : Option Text) (target : Option Key)
      (list : List Offer) (put : List Offer → Config Key)
      → row_of parse who ≡ ok target
      → offers_of id_eq parse c who ≡ ok (list, put)
      → IsRow c target list put
  unfolding offers_of
  offers_of-IsRow parse c none target list put named handed =
      let named' : none ≡ target = ground arith in
      let made : (c.serve.shared, with_shared c) ≡ (list, put) = ground arith in
      subst (λ (t : Option Key). IsRow c t list put) named'
        (subst (λ (x : List Offer × (List Offer → Config Key)). IsRow c none x.0 x.1) made
          (shared-IsRow c))
  offers_of-IsRow parse c (some s) target list put named handed =
      elim (Result-cases (parse_id parse s)) [
        | inr (x, bad) ↦ absurd (ground arith)
        | inl (id, parsed) ↦ elim (Option-cases (find_peer id_eq c id)) [
          | inl absent ↦ absurd (ground arith)
          | inr (p, found) ↦
              let named' : some id ≡ target = ground arith in
              let made : (
                p.offers,
                λ (os : List Offer). with_peers c (put_offers id_eq id os c.serve.peers),
              )
                  ≡ (list, put) =
                ground arith in
              subst (λ (t : Option Key). IsRow c t list put) named'
                (subst (λ (x : List Offer × (List Offer → Config Key)). IsRow c (some id) x.0 x.1)
                  made (peer-IsRow c id p found))
        ]
      ]

  same_row-eq : (a b : Option Key) → same_row a b ≡ true → a ≡ b
  same_row-eq none none h = refl
  same_row-eq (some a) (some b) h = elim (id_eq a b) [
    | yes e ↦ ap some e
    | no d ↦ absurd (ground arith)
  ]
  same_row-eq none (some b) h = absurd (cc)
  same_row-eq (some a) none h = absurd (cc)

  module _ {c : Config Key} {target : Option Key} {list : List Offer}
      {put : List Offer → Config Key} (rows : IsRow c target list put) (os : List Offer)
      (r : Option Key) (q : Proto) (n : ℕ) where
    pub cell-same :
        same_row target r ≡ true
        → (offered (put os) r q n ≡ any (offers_test q n) os)
          × (offered c r q n ≡ any (offers_test q n) list)
    cell-same here = (
      let new : row (put os) r ≡ os = ground (arith, rows.puts os r) in
          ap (any (offers_test q n)) new,
      ap (any (offers_test q n)) (sym (rows.held ∙ ap (row c) (same_row-eq target r here))),
    )

    pub cell-other : same_row target r ≡ false → offered (put os) r q n ≡ offered c r q n
    cell-other away =
        let old : row (put os) r ≡ row c r = ground (arith, rows.puts os r) in
        ap (any (offers_test q n)) old
