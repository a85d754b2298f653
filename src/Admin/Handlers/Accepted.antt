-- ===== src/Admin/Handlers/Accepted.antt =====
-- What it means that the admin surface accepts an edit of the offers.
use rust_tunnel.Base.{
  ◌≡◌, inl, inr, ℕ, not, ◌&&◌, ◌||◌, none, some, Option, arith, subst, Bool, Bool-cases,
  Option-cases, List, [], ◌∷◌, find, All, Distinct, or_keep, if◌then◌else◌,
}
use rust_tunnel.Errors.{ok, Result-cases}
use rust_tunnel.Config.Types.{Proto, offer_key, Peer, Config}
use rust_tunnel.Config.Persist.{Os}
use rust_tunnel.Config.Grants.{peer, admits, may_reach}
use rust_tunnel.Config.Validate.{validate}
use rust_tunnel.Config.Validate.Exact.{PeerIsValid, validate_iff}
use rust_tunnel.State.{Shared, mutate}
use rust_tunnel.State.Mutate.{mutate_done}
use rust_tunnel.Admin.Edits.{Edit, has_id}
use rust_tunnel.Admin.Edits.Offers.{same_offer}
use rust_tunnel.Admin.Edits.Table.{row, offered, same_row, row_of, may_reach-offered}
use rust_tunnel.Admin.Edits.Table.Cells.{
  hits, offered-del_offer_edit, offered-patch_offer_edit, may_reach-add_offer_edit,
}
use rust_tunnel.Admin.Handlers.{
  Env, OfferAdd, OfferRef, OfferPatch, accepted, edit, add_offer, patch_offer, del_offer,
}

-- A cell after a patch that hits it or not.
abbrev pub flagged : Option Bool → Bool → Bool → Bool
flagged enabled old hit = if hit then or_keep old enabled else old

module _ {Key : Type 0} (id_eq : Discrete Key) where
  find-Distinct :
      (id : Key) (ps : List (Peer Key)) (p : Peer Key)
      → All PeerIsValid ps
      → find (has_id id_eq id) ps ≡ some p
      → Distinct offer_key p.offers
  find-Distinct id [] p h e = absurd (cc)
  find-Distinct id (x ∷ ps) p h e = elim (Bool-cases (has_id id_eq id x)) [
    | inl is ↦
        let same : x ≡ p = ground arith in
        subst (λ (y : Peer Key). Distinct offer_key y.offers) same h.0.distinct
    | inr other ↦ find-Distinct id ps p h.1 (ground arith)
  ]

  -- A valid configuration lists no protocol and port twice in any row.
  row-Distinct :
      (c : Config Key) (who : Option Key)
      → validate id_eq c ≡ ok tt
      → Distinct offer_key (row id_eq c who)
  unfolding peer
  row-Distinct c none valid = ((validate_iff id_eq c).0 valid).shared_distinct
  row-Distinct c (some id) valid = elim (Option-cases (peer id_eq c id)) [
    | inl absent ↦ rw (absent, row) tt
    | inr (p, found) ↦
        rw found (find-Distinct id c.serve.peers p ((validate_iff id_eq c).0 valid).peers found)
  ]

module _ {Key : Type 0} (id_eq : Discrete Key) (env : Env Key) (os : Os) where
  -- The closure made the configuration that is now running.
  pub edit-accepted :
      (f : Edit Key) (sh sh' : Shared Key)
      → edit id_eq env os f sh ≡ (ok accepted, sh')
      → f sh.config ≡ ok (tt, sh'.config)
  edit-accepted f sh sh' done = elim (Result-cases (mutate id_eq env.toml os f sh).0) [
    | inr (x, refused) ↦ absurd (ground arith)
    | inl (u, made) ↦
        let (next, edit_ok, valid, after, saved) = mutate_done id_eq env.toml os f sh u made in
        let same : sh'.config ≡ next = ground arith in ground (arith, edit_ok, same)
  ]

  -- When the admin surface accepts a new offer, for everybody or for one peer, an admitted peer reaches
  -- from then on exactly what it reached before and, if the offer is for everybody or for that peer, the
  -- new one; a peer that is not admitted reaches nothing.
  pub add_offer_lem :
      (b : OfferAdd) (sh sh' : Shared Key) (target : Option Key) (id : Key) (q : Proto) (n : ℕ)
      → row_of id_eq env.parse_key b.peer ≡ ok target
      → add_offer id_eq env os b sh ≡ (ok accepted, sh')
      → may_reach id_eq sh'.config id q n ≡ (
          admits id_eq sh.config id
          && (may_reach id_eq sh.config id q n
              || (same_row id_eq target none || same_row id_eq target (some id))
                && same_offer b.proto b.port q n))
  unfolding add_offer
  add_offer_lem b sh sh' target id q n named done =
      may_reach-add_offer_edit id_eq env.parse_key sh.config sh'.config b.peer target b.proto b.port
        b.name id q n named (edit-accepted _ sh sh' done)

  -- When the admin surface accepts the removal of an offer, a peer reaches from then on exactly what
  -- it is offered, by the shared list or by its own, once that offer is taken out of the list that the
  -- request names; a peer that is not admitted reaches nothing.
  pub del_offer_lem :
      (b : OfferRef) (sh sh' : Shared Key) (target : Option Key) (id : Key) (q : Proto) (n : ℕ)
      → row_of id_eq env.parse_key b.peer ≡ ok target
      → del_offer id_eq env os b sh ≡ (ok accepted, sh')
      → may_reach id_eq sh'.config id q n ≡ (
          admits id_eq sh.config id
          && (offered id_eq sh.config none q n && not (hits id_eq target b.proto b.port none q n)
              || offered id_eq sh.config (some id) q n
                && not (hits id_eq target b.proto b.port (some id) q n)))
  unfolding del_offer
  del_offer_lem b sh sh' target id q n named done =
      let (cells, admission) =
        offered-del_offer_edit id_eq env.parse_key sh.config sh'.config b.peer target b.proto b.port
          named (edit-accepted _ sh sh' done) in
      ground (
        arith,
        may_reach-offered id_eq sh'.config id q n,
        cells none q n,
        cells (some id) q n,
        admission id,
      )

  -- When the running configuration is valid and the admin surface accepts a patch of an offer, an
  -- admitted peer reaches from then on exactly what it is offered, by the shared list or by its
  -- own, once the new flag, if there is one, is written to that offer in the list that the request
  -- names; a peer that is not admitted reaches nothing.
  pub patch_offer_lem :
      (b : OfferPatch) (sh sh' : Shared Key) (target : Option Key) (id : Key) (q : Proto) (n : ℕ)
      → validate id_eq sh.config ≡ ok tt
      → row_of id_eq env.parse_key b.peer ≡ ok target
      → patch_offer id_eq env os b sh ≡ (ok accepted, sh')
      → may_reach id_eq sh'.config id q n ≡ (
          admits id_eq sh.config id
          && (flagged b.enabled
                (offered id_eq sh.config none q n)
                (hits id_eq target b.proto b.port none q n)
              || flagged b.enabled
                  (offered id_eq sh.config (some id) q n)
                  (hits id_eq target b.proto b.port (some id) q n)))
  unfolding patch_offer
  patch_offer_lem b sh sh' target id q n valid named done =
      let (cells, admission) =
        offered-patch_offer_edit id_eq env.parse_key sh.config sh'.config b.peer target b.proto
          b.port b.name b.enabled named (row-Distinct id_eq sh.config target valid)
          (edit-accepted _ sh sh' done) in
      ground (
        arith,
        may_reach-offered id_eq sh'.config id q n,
        cells none q n,
        cells (some id) q n,
        admission id,
      )
