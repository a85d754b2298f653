-- ===== src/Admin/Edits/Table/Cells.antt =====
-- Each edit of the offers changes one cell of the table.
use rust_tunnel.Base.{
  ◌≡◌, subst, inl, inr, Bool-cases, Option-cases, ℕ, Bool, true, not, ◌&&◌, ◌||◌, ◌++◌, Option,
  none, some, [], ◌∷◌, ◌==◌, length, filter, any, any-append, arith, Text, if◌then◌else◌,
  update_first, or_keep, Distinct,
}
use rust_tunnel.Errors.{ok, Result-cases}
use rust_tunnel.Config.Types.{offer_key, Proto, Name, Offer, Config}
use rust_tunnel.Config.Grants.{admits, may_reach}
use rust_tunnel.Config.Grants.Reach.{offers_test}
use rust_tunnel.Admin.Edits.{offers_of, add_offer_edit, del_offer_edit, patch_offer_edit, is_offer}
use rust_tunnel.Admin.Edits.Offers.{same_offer, patched, any-patched, any-drop}
use rust_tunnel.Admin.Edits.Table.{
  row, offered, same_row, may_reach-offered, row_of, offers_of-IsRow, cell-same, cell-other,
}

module _ {Key : Type 0} (id_eq : Discrete Key) where
  abbrev pub hits : Option Key → Proto → ℕ → Option Key → Proto → ℕ → Bool
  hits target proto port who q n = same_row id_eq target who && same_offer proto port q n

  -- Every cell is made of its old value and of whether it is the one that is hit; who is admitted
  -- stays the same.
  abbrev pub Sets : Option Key → Proto → ℕ → Config Key → (Bool → Bool → Bool) → Config Key → Type 0
  Sets target proto port c make c' =
      ((r : Option Key) (q : Proto) (n : ℕ)
        → offered id_eq c' r q n ≡ make (offered id_eq c r q n) (hits target proto port r q n))
      × ((id : Key) → admits id_eq c' id ≡ admits id_eq c id)

  -- An accepted edit that adds an offer sets exactly one cell of the table, and admits whom the
  -- configuration admitted before.
  pub offered-add_offer_edit :
      (parse : Text → Option Key) (c c' : Config Key) (who : Option Text) (target : Option Key)
      (proto : Proto) (port : ℕ) (name : Name)
      → row_of id_eq parse who ≡ ok target
      → add_offer_edit id_eq parse who proto port name c ≡ ok (tt, c')
      → Sets target proto port c (λ old hit. old || hit) c'
  unfolding add_offer_edit
  offered-add_offer_edit parse c c' who target proto port name named done =
      elim (Result-cases (offers_of id_eq parse c who)) [
        | inr (x, bad) ↦ absurd (ground arith)
        | inl ((list, put), handed) ↦
            let rows = offers_of-IsRow id_eq parse c who target list put named handed in
            let new : Offer = record { proto = proto; port = port; name = name; enabled = true } in
            elim (Bool-cases (any (is_offer proto port) list)) [
              | inl twice ↦ absurd (ground arith)
              | inr once ↦
                  let shape : put (list ++ new ∷ []) ≡ c' = ground arith in
                  subst (Sets target proto port c (λ old hit. old || hit)) shape (
                    λ r q n. elim (Bool-cases (same_row id_eq target r)) [
                      | inl here ↦
                          let (after, before) =
                            cell-same id_eq rows (list ++ new ∷ []) r q n here in
                          ground
                            (arith, after, before, any-append (offers_test q n) list (new ∷ []))
                      | inr away ↦
                          ground (arith, cell-other id_eq rows (list ++ new ∷ []) r q n away)
                    ],
                    rows.admission (list ++ new ∷ []),
                  )
            ]
      ]

  -- An accepted edit that removes an offer clears exactly one cell of the table, and admits whom the
  -- configuration admitted before.
  pub offered-del_offer_edit :
      (parse : Text → Option Key) (c c' : Config Key) (who : Option Text) (target : Option Key)
      (proto : Proto) (port : ℕ)
      → row_of id_eq parse who ≡ ok target
      → del_offer_edit id_eq parse who proto port c ≡ ok (tt, c')
      → Sets target proto port c (λ old hit. old && not hit) c'
  unfolding del_offer_edit
  offered-del_offer_edit parse c c' who target proto port named done =
      elim (Result-cases (offers_of id_eq parse c who)) [
        | inr (x, bad) ↦ absurd (ground arith)
        | inl ((list, put), handed) ↦
            let rows = offers_of-IsRow id_eq parse c who target list put named handed in
            let kept = filter (λ o. not (is_offer proto port o)) list in
            elim (Bool-cases (length kept == length list)) [
              | inl nobody ↦ absurd (ground arith)
              | inr someone ↦
                  let shape : put kept ≡ c' = ground arith in
                  subst (Sets target proto port c (λ old hit. old && not hit)) shape (
                    λ r q n. elim (Bool-cases (same_row id_eq target r)) [
                      | inl here ↦
                          let (after, before) = cell-same id_eq rows kept r q n here in
                          ground (arith, after, before, any-drop proto q port n list)
                      | inr away ↦ ground (arith, cell-other id_eq rows kept r q n away)
                    ],
                    rows.admission kept,
                  )
            ]
      ]

  -- An accepted edit that patches an offer, of a row that lists no protocol and port twice, writes the
  -- new flag, if there is one, into exactly one cell of the table, and admits whom the configuration
  -- admitted before.
  pub offered-patch_offer_edit :
      (parse : Text → Option Key) (c c' : Config Key) (who : Option Text) (target : Option Key)
      (proto : Proto) (port : ℕ) (name : Option Name) (enabled : Option Bool)
      → row_of id_eq parse who ≡ ok target
      → Distinct offer_key (row id_eq c target)
      → patch_offer_edit id_eq parse who proto port name enabled c ≡ ok (tt, c')
      → Sets target proto port c (λ old hit. if hit then or_keep old enabled else old) c'
  unfolding patch_offer_edit
  offered-patch_offer_edit parse c c' who target proto port name enabled named distinct done =
      elim (Result-cases (offers_of id_eq parse c who)) [
        | inr (x, bad) ↦ absurd (ground arith)
        | inl ((list, put), handed) ↦
            let rows = offers_of-IsRow id_eq parse c who target list put named handed in
            elim (Option-cases (update_first (is_offer proto port) (patched name enabled) list)) [
              | inl nobody ↦ absurd (ground arith)
              | inr (os, updated) ↦
                  let shape : put os ≡ c' = ground arith in
                  let lone : Distinct offer_key list = rw rows.held distinct in
                  subst
                    (Sets target proto port c (λ old hit. if hit then or_keep old enabled else old))
                    shape
                    (
                      λ r q n. elim (Bool-cases (same_row id_eq target r)) [
                        | inl here ↦
                            let (after, before) = cell-same id_eq rows os r q n here in
                            ground (
                              arith,
                              after,
                              before,
                              any-patched proto q port n name enabled list os lone updated,
                            )
                        | inr away ↦ ground (arith, cell-other id_eq rows os r q n away)
                      ],
                      rows.admission os,
                    )
            ]
      ]

  -- After an accepted edit that adds an offer, to the shared list or to one peer, an admitted peer
  -- reaches exactly what it reached before and, if the list is shared or its own, the new offer; a peer
  -- that is not admitted reaches nothing.
  pub may_reach-add_offer_edit :
      (parse : Text → Option Key) (c c' : Config Key) (who : Option Text) (target : Option Key)
      (proto : Proto) (port : ℕ) (name : Name) (id : Key) (q : Proto) (n : ℕ)
      → row_of id_eq parse who ≡ ok target
      → add_offer_edit id_eq parse who proto port name c ≡ ok (tt, c')
      → may_reach id_eq c' id q n ≡ (
          admits id_eq c id
          && (may_reach id_eq c id q n
              || (same_row id_eq target none || same_row id_eq target (some id))
                && same_offer proto port q n))
  may_reach-add_offer_edit parse c c' who target proto port name id q n named done =
      let (cells, admission) =
        offered-add_offer_edit parse c c' who target proto port name named done in
      ground (
        arith,
        may_reach-offered id_eq c id q n,
        may_reach-offered id_eq c' id q n,
        cells none q n,
        cells (some id) q n,
        admission id,
      )
