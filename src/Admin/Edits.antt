-- ===== src/Admin/Edits.antt =====
-- The closures that the handlers of admin.rs hand to `Shared::mutate`: each takes a configuration and
-- fails or returns the changed one.
pub mod Peers
pub mod Offers
pub mod Table
pub mod Bindings
use rust_tunnel.Base.{
  ℕ, Bool, true, not, ◌&&◌, ◌++◌, Option, none, some, List, [], ◌∷◌, ◌==◌, if◌then◌else◌, length,
  any, filter, find, is_some, update_first, or_keep, Text,
}
use rust_tunnel.Errors.{
  Result, ok, err, invalid_id, peer_already_listed, peer_not_listed, already_offered, not_offered,
  already_bound, not_bound, or_fail, ◌>>=◌,
}
use rust_tunnel.Config.Types.{Proto, same_proto, Name, Offer, Peer, Binding, Config}
use rust_tunnel.Config.Grants.{same_id, peer}
use rust_tunnel.Config.Token.{trim}

-- What a closure returns: `Result<()>` and the configuration as it left it.
abbrev pub Edit : Type 0 → Type 0
Edit Key = Config Key → Result (Unit {0} × Config Key)

abbrev pub with_bindings : {Key : Type 0} → Config Key → List Binding → Config Key
with_bindings c bs = record c { connect = record { bindings = bs } }

abbrev pub with_peers : {Key : Type 0} → Config Key → List (Peer Key) → Config Key
with_peers c ps = record c { serve = record (c.serve) { peers = ps } }

abbrev pub with_shared : {Key : Type 0} → Config Key → List Offer → Config Key
with_shared c os = record c { serve = record (c.serve) { shared = os } }

abbrev pub done {ℓ} : {A : Type ℓ} → A → Result (Unit {0} × A)
done c = ok (tt, c)

-- `|o| o.proto == b.proto && o.port == b.port`
abbrev pub is_offer : Proto → ℕ → Offer → Bool
is_offer proto port o = same_proto o.proto proto && o.port == port

-- `|x| x.proto == b.proto && x.local == b.local`
abbrev pub is_binding : Proto → ℕ → Binding → Bool
is_binding proto local b = same_proto b.proto proto && b.local == local

-- `parse_id`: the parser of iroh is the parameter `parse`.
unfoldable pub parse_id : {Key : Type 0} → (Text → Option Key) → Text → Result Key
parse_id parse s = or_fail invalid_id (parse (trim s))

module _ {Key : Type 0} (id_eq : Discrete Key) where
  abbrev pub has_id : Key → Peer Key → Bool
  has_id id p = same_id id_eq p.id id

  unfoldable pub add_peer_edit : Key → Name → Edit Key
  add_peer_edit id name c =
      if is_some (peer id_eq c id)
      then err peer_already_listed
      else done (
          with_peers c
            (c.serve.peers ++ record { id = id; name = name; enabled = true; offers = [] } ∷ []))

  unfoldable pub patch_peer_edit : Key → Option Name → Option Bool → Edit Key
  patch_peer_edit id name enabled c = do
    ps ← or_fail peer_not_listed (
        update_first (has_id id)
          (λ p. record p { name = or_keep p.name name; enabled = or_keep p.enabled enabled })
          c.serve.peers)
    done (with_peers c ps)

  unfoldable pub del_peer_edit : Key → Edit Key
  del_peer_edit id c =
      let kept = filter (λ p. not (has_id id p)) c.serve.peers in
      if length kept == length c.serve.peers then err peer_not_listed else done (with_peers c kept)

  -- The first peer with the id, as `iter_mut().find(..)`.
  abbrev find_peer : Config Key → Key → Option (Peer Key)
  find_peer c id = find (has_id id) c.serve.peers

  -- The configuration with new offers in the first entry with the id.
  unfoldable pub put_offers : Key → List Offer → List (Peer Key) → List (Peer Key)
  put_offers id os [] = []
  put_offers id os (p ∷ ps) =
      let rest = put_offers id os ps in
      if has_id id p then record p { offers = os } ∷ ps else p ∷ rest

  -- `offers_of`: a mutable reference to the shared list, or to one peer's list, is the list and the
  -- configuration with another list in its place.
  unfoldable pub offers_of :
      (Text → Option Key)
      → Config Key
      → Option Text
      → Result (List Offer × (List Offer → Config Key))
  offers_of parse c none = ok (c.serve.shared, with_shared c)
  offers_of parse c (some s) = do
    id ← parse_id parse s
    p ← or_fail peer_not_listed (find_peer c id)
    ok (p.offers, λ os. with_peers c (put_offers id os c.serve.peers))

  unfoldable pub add_offer_edit : (Text → Option Key) → Option Text → Proto → ℕ → Name → Edit Key
  add_offer_edit parse who proto port name c = do
    (list, put) ← offers_of parse c who
    if any (is_offer proto port) list
        then err (already_offered proto port)
        else done
            (put (list ++ record { proto = proto; port = port; name = name; enabled = true } ∷ []))

  unfoldable pub patch_offer_edit :
      (Text → Option Key) → Option Text → Proto → ℕ → Option Name → Option Bool → Edit Key
  patch_offer_edit parse who proto port name enabled c = do
    (list, put) ← offers_of parse c who
    os ← or_fail (not_offered proto port) (
        update_first (is_offer proto port)
          (λ o. record o { name = or_keep o.name name; enabled = or_keep o.enabled enabled }) list)
    done (put os)

  unfoldable pub del_offer_edit : (Text → Option Key) → Option Text → Proto → ℕ → Edit Key
  del_offer_edit parse who proto port c = do
    (list, put) ← offers_of parse c who
    let kept = filter (λ o. not (is_offer proto port o)) list
    if length kept == length list then err (not_offered proto port) else done (put kept)

module _ {Key : Type 0} where
  unfoldable pub add_binding_edit : Proto → ℕ → ℕ → Name → Edit Key
  add_binding_edit proto local remote name c =
      if any (is_binding proto local) c.connect.bindings
      then err (already_bound proto local)
      else done (
          with_bindings c (
            c.connect.bindings
            ++ record { proto = proto; local = local; remote = remote; name = name; enabled = true }
              ∷ []))

  unfoldable pub patch_binding_edit : Proto → ℕ → Option ℕ → Option Name → Option Bool → Edit Key
  patch_binding_edit proto local remote name enabled c = do
    bs ← or_fail (not_bound proto local) (
        update_first (is_binding proto local)
          (λ b. record b {
            remote = or_keep b.remote remote;
            name = or_keep b.name name;
            enabled = or_keep b.enabled enabled;
          })
          c.connect.bindings)
    done (with_bindings c bs)

  unfoldable pub del_binding_edit : Proto → ℕ → Edit Key
  del_binding_edit proto local c =
      let kept = filter (λ b. not (is_binding proto local b)) c.connect.bindings in
      if length kept == length c.connect.bindings
      then err (not_bound proto local)
      else done (with_bindings c kept)
