-- ===== src/Config/Validate/Exact.antt =====
-- `Config::validate` against a description of the valid configurations.
use rust_tunnel.Base.{
  ℕ, ◌≤◌, ◌<◌, ◌≡◌, refl, ◌≢◌, ◌↔◌, ◌⊎◌, false, [], ◌∷◌, arith, length, any, All, Distinct,
}
use rust_tunnel.Base.{
  List, [], Map, insert, Absent, Absent-insert, fresh_of_Absent-insert, Absent-of_Absent-insert,
  Absent-nil,
}
use rust_tunnel.Errors.{ok}
use rust_tunnel.Config.Types.{
  PortKey, port_key_eq, Name, Offer, Peer, Binding, Config, offer_key, binding_key,
}
use rust_tunnel.Config.Validate.{
  validate_peer, validate_bindings_from, validate_peers_from, validate, validate_offers,
  dedupe_offers_from, dedupe_offers, name_max, is_control, check_name, check_port, validate_offer,
  validate_binding,
}

-- A character that may stand in a name: not in U+0000..U+001F, and not in U+007F..U+009F.
abbrev pub IsPrintable : ℕ → Type 0
IsPrintable c = (32 ≤ c) × ((c < 127) ⊎ (159 < c))

pub record NameIsValid (n : Name) : Type 0 where
  pub fits : length n ≤ name_max
  pub printable : All IsPrintable n

pub record OfferIsValid (o : Offer) : Type 0 where
  pub port : o.port ≢ 0
  pub name : NameIsValid o.name

pub record BindingIsValid (b : Binding) : Type 0 where
  pub local : b.local ≢ 0
  pub remote : b.remote ≢ 0
  pub name : NameIsValid b.name

pub record PeerIsValid {Key : Type 0} (p : Peer Key) : Type 0 where
  pub name : NameIsValid p.name
  pub offers : All OfferIsValid p.offers
  pub distinct : Distinct offer_key p.offers

pub record IsValid {Key : Type 0} (c : Config Key) : Type 0 where
  pub shared : All OfferIsValid c.serve.shared
  pub shared_distinct : Distinct offer_key c.serve.shared
  pub peers : All (λ (p : Peer Key). PeerIsValid p) c.serve.peers
  pub peers_distinct : Distinct (λ (p : Peer Key). p.id) c.serve.peers
  pub bindings : All BindingIsValid c.connect.bindings
  pub bindings_distinct : Distinct binding_key c.connect.bindings

IsPrintable-of_any : (n : Name) → any is_control n ≡ false → All IsPrintable n
IsPrintable-of_any [] h = tt
IsPrintable-of_any (c ∷ n) h = ground (arith, IsPrintable-of_any n)

any_of_printable : (n : Name) → All IsPrintable n → any is_control n ≡ false
any_of_printable [] h = refl
any_of_printable (c ∷ n) h = ground (arith, any_of_printable n h.1)

pub check_name_iff : (n : Name) → (check_name n ≡ ok tt) ↔ NameIsValid n
unfolding check_name
check_name_iff n = (
  λ h. record { fits = ground arith; printable = ground (arith, IsPrintable-of_any n) },
  λ v. ground (arith, any_of_printable n v.printable),
)

pub validate_offer_iff : (o : Offer) → (validate_offer o ≡ ok tt) ↔ OfferIsValid o
unfolding validate_offer check_port
validate_offer_iff o = (
  λ h. record { port = ground arith; name = (check_name_iff o.name).0 (ground arith) },
  λ v. ground (arith, (check_name_iff o.name).1 v.name),
)

validate_binding_iff : (b : Binding) → (validate_binding b ≡ ok tt) ↔ BindingIsValid b
unfolding validate_binding check_port
validate_binding_iff b = (
  λ h. record {
    local = ground arith;
    remote = ground arith;
    name = (check_name_iff b.name).0 (ground arith);
  },
  λ v. ground (arith, (check_name_iff b.name).1 v.name),
)

validate_offers_iff : (os : List Offer) → (validate_offers os ≡ ok tt) ↔ All OfferIsValid os
unfolding validate_offers
validate_offers_iff [] = (λ h. tt, λ v. refl)
validate_offers_iff (o ∷ os) = (
  λ h. ((validate_offer_iff o).0 (ground arith), (validate_offers_iff os).0 (ground arith)),
  λ v. ground (arith, (validate_offer_iff o).1 v.0, (validate_offers_iff os).1 v.1),
)

abbrev Unseen : Map PortKey (Unit {0}) → List Offer → Type 0
Unseen = Absent port_key_eq offer_key

dedupe_accepts :
    (seen : Map PortKey (Unit {0})) (os : List Offer)
    → dedupe_offers_from seen os ≡ ok tt
    → Distinct offer_key os × Unseen seen os
unfolding dedupe_offers_from
dedupe_accepts seen [] h = (tt, tt)
dedupe_accepts seen (o ∷ os) h =
    let k = offer_key o in
    let ih = dedupe_accepts (insert port_key_eq seen k tt) os (ground arith) in
    (
      (fresh_of_Absent-insert port_key_eq offer_key seen k os ih.1, ih.0),
      (ground arith, Absent-of_Absent-insert port_key_eq offer_key seen k os ih.1),
    )

accepts_dedupe :
    (seen : Map PortKey (Unit {0})) (os : List Offer)
    → Distinct offer_key os
    → Unseen seen os
    → dedupe_offers_from seen os ≡ ok tt
unfolding dedupe_offers_from
accepts_dedupe seen [] d u = refl
accepts_dedupe seen (o ∷ os) d u = ground (
  arith,
  accepts_dedupe (insert port_key_eq seen (offer_key o) tt) os d.1
      (Absent-insert port_key_eq offer_key seen (offer_key o) os d.0 u.1),
)

dedupe_offers_iff : (os : List Offer) → (dedupe_offers os ≡ ok tt) ↔ Distinct offer_key os
unfolding dedupe_offers
dedupe_offers_iff os = (
  λ h. (dedupe_accepts [] os h).0,
  λ d. accepts_dedupe [] os d (Absent-nil port_key_eq offer_key os),
)

validate_peer_iff : {Key : Type 0} (p : Peer Key) → (validate_peer p ≡ ok tt) ↔ PeerIsValid p
unfolding validate_peer
validate_peer_iff p = (
  λ h. record {
    name = (check_name_iff p.name).0 (ground arith);
    offers = (validate_offers_iff p.offers).0 (ground arith);
    distinct = (dedupe_offers_iff p.offers).0 (ground arith);
  },
  λ v. ground (
    arith,
    (check_name_iff p.name).1 v.name,
    (validate_offers_iff p.offers).1 v.offers,
    (dedupe_offers_iff p.offers).1 v.distinct,
  ),
)

bindings_accepted :
    (locals : Map PortKey (Unit {0})) (bs : List Binding)
    → validate_bindings_from locals bs ≡ ok tt
    → All BindingIsValid bs × Distinct binding_key bs × Absent port_key_eq binding_key locals bs
unfolding validate_bindings_from
bindings_accepted locals [] h = (tt, tt, tt)
bindings_accepted locals (b ∷ bs) h =
    let k = binding_key b in
    let ih = bindings_accepted (insert port_key_eq locals k tt) bs (ground arith) in
    (
      ((validate_binding_iff b).0 (ground arith), ih.0),
      (fresh_of_Absent-insert port_key_eq binding_key locals k bs ih.2, ih.1),
      (ground arith, Absent-of_Absent-insert port_key_eq binding_key locals k bs ih.2),
    )

accepts_bindings :
    (locals : Map PortKey (Unit {0})) (bs : List Binding)
    → All BindingIsValid bs
    → Distinct binding_key bs
    → Absent port_key_eq binding_key locals bs
    → validate_bindings_from locals bs ≡ ok tt
unfolding validate_bindings_from
accepts_bindings locals [] v d u = refl
accepts_bindings locals (b ∷ bs) v d u = ground (
  arith,
  (validate_binding_iff b).1 v.0,
  accepts_bindings (insert port_key_eq locals (binding_key b) tt) bs v.1 d.1
      (Absent-insert port_key_eq binding_key locals (binding_key b) bs d.0 u.1),
)

module _ {Key : Type 0} (id_eq : Discrete Key) where
  abbrev peer_id : Peer Key → Key
  peer_id p = p.id

  peers_accepted :
      (ids : Map Key (Unit {0})) (ps : List (Peer Key))
      → validate_peers_from id_eq ids ps ≡ ok tt
      → All PeerIsValid ps × Distinct peer_id ps × Absent id_eq peer_id ids ps
  unfolding validate_peers_from
  peers_accepted ids [] h = (tt, tt, tt)
  peers_accepted ids (p ∷ ps) h =
      let ih = peers_accepted (insert id_eq ids p.id tt) ps (ground arith) in
      (
        ((validate_peer_iff p).0 (ground arith), ih.0),
        (fresh_of_Absent-insert id_eq peer_id ids p.id ps ih.2, ih.1),
        (ground arith, Absent-of_Absent-insert id_eq peer_id ids p.id ps ih.2),
      )

  accepts_peers :
      (ids : Map Key (Unit {0})) (ps : List (Peer Key))
      → All PeerIsValid ps
      → Distinct peer_id ps
      → Absent id_eq peer_id ids ps
      → validate_peers_from id_eq ids ps ≡ ok tt
  unfolding validate_peers_from
  accepts_peers ids [] v d u = refl
  accepts_peers ids (p ∷ ps) v d u = ground (
    arith,
    (validate_peer_iff p).1 v.0,
    accepts_peers (insert id_eq ids p.id tt) ps v.1 d.1
        (Absent-insert id_eq peer_id ids p.id ps d.0 u.1),
  )

  -- `validate` accepts a configuration exactly if every port in it is non-zero, every name has at most
  -- 64 characters and no control character, no list of offers has a protocol and port twice, no id is
  -- listed twice, and no two bindings share a protocol and local port.
  pub validate_iff : (c : Config Key) → (validate id_eq c ≡ ok tt) ↔ IsValid c
  unfolding validate
  validate_iff c = (
    λ h.
        let ps = peers_accepted [] c.serve.peers (ground arith) in
        let bs = bindings_accepted [] c.connect.bindings (ground arith) in
        record {
          shared = (validate_offers_iff c.serve.shared).0 (ground arith);
          shared_distinct = (dedupe_offers_iff c.serve.shared).0 (ground arith);
          peers = ps.0;
          peers_distinct = ps.1;
          bindings = bs.0;
          bindings_distinct = bs.1;
        },
    λ v. ground (
      arith,
      (validate_offers_iff c.serve.shared).1 v.shared,
      (dedupe_offers_iff c.serve.shared).1 v.shared_distinct,
      accepts_peers [] c.serve.peers v.peers v.peers_distinct
          (Absent-nil id_eq peer_id c.serve.peers),
      accepts_bindings [] c.connect.bindings v.bindings v.bindings_distinct
          (Absent-nil port_key_eq binding_key c.connect.bindings),
    ),
  )
