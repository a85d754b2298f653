-- ===== src/Config/Grants.antt =====
-- Who may reach what (config.rs): `Peer::granted`, and `peer`, `admits`, `granted` and
-- `active_bindings` of `Config`. The standard library's `sort_unstable` on ports is an insertion sort
-- here, which gives the same list.
pub mod Sorted
pub mod Reach
use rust_tunnel.Base.{
  ℕ, Bool, true, false, ◌&&◌, ◌++◌, List, [], ◌∷◌, Option, none, some, map, leb, ◌==◌,
  if◌then◌else◌, any, filter, find, is_some,
}
use rust_tunnel.Config.Types.{Proto, same_proto, Offer, Peer, Binding, Config}

-- One step of a sort, and `sort_unstable`.
unfoldable pub insert_sorted : ℕ → List ℕ → List ℕ
insert_sorted x [] = x ∷ []
insert_sorted x (y ∷ ys) = let rest = insert_sorted x ys in if leb x y then x ∷ y ∷ ys else y ∷ rest

unfoldable pub sort : List ℕ → List ℕ
sort [] = []
sort (x ∷ xs) = insert_sorted x (sort xs)

-- `dedup`: drops what repeats the entry before it.
unfoldable pub dedup_after : ℕ → List ℕ → List ℕ
dedup_after x [] = []
dedup_after x (y ∷ ys) = let rest = dedup_after y ys in if x == y then rest else y ∷ rest

unfoldable pub dedup : List ℕ → List ℕ
dedup [] = []
dedup (x ∷ xs) = x ∷ dedup_after x xs

-- `Vec::contains`
abbrev pub contains : List ℕ → ℕ → Bool
contains ports port = any (λ p. p == port) ports

-- `Peer::granted`
unfoldable pub peer_granted : {Key : Type 0} → Peer Key → List Offer → Proto → List ℕ
peer_granted p shared proto = dedup (
    sort (
      map (λ (o : Offer). o.port)
        (filter (λ o. o.enabled && same_proto o.proto proto) (shared ++ p.offers))))

-- `id == id`
abbrev pub same_id : {Key : Type 0} → Discrete Key → Key → Key → Bool
same_id id_eq a b = elim (id_eq a b) [ yes e ↦ true | no d ↦ false ]

module _ {Key : Type 0} (id_eq : Discrete Key) where
  -- `Config::peer`
  unfoldable pub peer : Config Key → Key → Option (Peer Key)
  peer c id = find (λ (p : Peer Key). same_id id_eq p.id id) c.serve.peers

  -- `Config::admits`
  unfoldable pub admits : Config Key → Key → Bool
  admits c id = elim (peer c id) [ none ↦ false | some p ↦ p.enabled ]

  -- `Config::granted`: `none` for a peer that is unknown or parked.
  unfoldable pub granted : Config Key → Key → Proto → Option (List ℕ)
  granted c id proto = elim (peer c id) [
    | none ↦ none
    | some p ↦ if p.enabled then some (peer_granted p c.serve.shared proto) else none
  ]

  -- `granted(..).unwrap_or_default().contains(&port)`, the test of the data plane.
  unfoldable pub may_reach : Config Key → Key → Proto → ℕ → Bool
  may_reach c id proto port = elim (granted c id proto) [
    | none ↦ false
    | some ports ↦ contains ports port
  ]

-- `Config::active_bindings`
unfoldable pub active_bindings : {Key : Type 0} → Config Key → List Binding
active_bindings c = filter (λ (b : Binding). b.enabled) c.connect.bindings
