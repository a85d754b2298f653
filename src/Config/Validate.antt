-- ===== src/Config/Validate.antt =====
-- The validation of config.rs: `check_name`, `check_port`, the `validate` methods and
-- `dedupe_offers`. A `BTreeMap` used as a set of keys that were seen is a map into the unit type.
pub mod Exact
use rust_tunnel.Base.{
  ℕ, ◌≡◌, Bool, ◌&&◌, ◌||◌, List, [], ◌∷◌, ltb, leb, ◌==◌, if◌then◌else◌, length, any, Map, get,
  insert, is_some,
}
use rust_tunnel.Errors.{
  PortWord, offered_port, local_port, remote_port, shared_offers, in_peer, name_too_long,
  name_has_control, port_out_of_range, listed_twice, bound_twice, peer_listed_twice, Result, ok,
  err, ◌>>=◌, ◌>>◌, with_context,
}
use rust_tunnel.Config.Types.{
  PortKey, port_key_eq, Name, Offer, Peer, Binding, Config, offer_key, binding_key,
}

abbrev pub name_max : ℕ
name_max = 64

-- `char::is_control`: the code points of the general category Cc.
abbrev pub is_control : ℕ → Bool
is_control c = ltb c 32 || leb 127 c && leb c 159

unfoldable pub check_name : Name → Result (Unit {0})
check_name name =
    if ltb name_max (length name)
    then err name_too_long
    else if any is_control name
    then err name_has_control
    else ok tt

unfoldable pub check_port : ℕ → PortWord → Result (Unit {0})
check_port port which = if port == 0 then err (port_out_of_range which) else ok tt

-- `Offer::validate`
unfoldable pub validate_offer : Offer → Result (Unit {0})
validate_offer o = do check_port o.port offered_port; check_name o.name

-- `Binding::validate`
unfoldable pub validate_binding : Binding → Result (Unit {0})
validate_binding b = do
  check_port b.local local_port
  check_port b.remote remote_port
  check_name b.name

-- `for o in &offers { o.validate()?; }`
unfoldable pub validate_offers : List Offer → Result (Unit {0})
validate_offers [] = ok tt
validate_offers (o ∷ os) = do validate_offer o; validate_offers os

-- The loop of `dedupe_offers`.
unfoldable pub dedupe_offers_from : Map PortKey (Unit {0}) → List Offer → Result (Unit {0})
dedupe_offers_from seen [] = ok tt
dedupe_offers_from seen (o ∷ os) =
    let rest = dedupe_offers_from (insert port_key_eq seen (offer_key o) tt) os in
    if is_some (get port_key_eq seen (offer_key o)) then err (listed_twice o.proto o.port) else rest

unfoldable pub dedupe_offers : List Offer → Result (Unit {0})
dedupe_offers os = dedupe_offers_from [] os

-- `Peer::validate`
unfoldable pub validate_peer : {Key : Type 0} → Peer Key → Result (Unit {0})
validate_peer p = do
  check_name p.name
  validate_offers p.offers
  with_context in_peer (dedupe_offers p.offers)

-- The loop of `Config::validate` over the bindings.
unfoldable pub validate_bindings_from : Map PortKey (Unit {0}) → List Binding → Result (Unit {0})
validate_bindings_from locals [] = ok tt
validate_bindings_from locals (b ∷ bs) = do
  validate_binding b
  let rest = validate_bindings_from (insert port_key_eq locals (binding_key b) tt) bs
  if is_some (get port_key_eq locals (binding_key b))
      then err (bound_twice b.proto b.local)
      else rest

module _ {Key : Type 0} (id_eq : Discrete Key) where
  -- The loop of `Config::validate` over the peers.
  unfoldable pub validate_peers_from : Map Key (Unit {0}) → List (Peer Key) → Result (Unit {0})
  validate_peers_from ids [] = ok tt
  validate_peers_from ids (p ∷ ps) = do
    validate_peer p
    let rest = validate_peers_from (insert id_eq ids p.id tt) ps
    if is_some (get id_eq ids p.id) then err peer_listed_twice else rest

  -- `Config::validate`
  unfoldable pub validate : Config Key → Result (Unit {0})
  validate c = do
    validate_offers c.serve.shared
    with_context shared_offers (dedupe_offers c.serve.shared)
    validate_peers_from [] c.serve.peers
    validate_bindings_from [] c.connect.bindings
