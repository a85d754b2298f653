-- ===== src/Config/Seed.antt =====
-- Command-line flags seed the configuration: `seed_from_flags` and `seed_bindings` of config.rs.
pub mod Loop
pub mod Laws
pub mod Bindings
use rust_tunnel.Base.{
  ℕ, Bool, true, false, ◌&&◌, ◌++◌, List, [], ◌∷◌, ◌==◌, if◌then◌else◌, any, find, is_some,
}
use rust_tunnel.Config.Types.{
  Proto, tcp, udp, same_proto, PortMap, Offer, Peer, Binding, ServeConfig, Config,
}
use rust_tunnel.Config.Grants.{same_id}

-- The loop that both functions share:
--   for b in items { if !has(b, list) { list.push(make(b)); changed = true; } }
unfoldable pub push_missing {ℓ κ} :
    {A : Type ℓ} {B : Type κ}
    → (B → List A → Bool)
    → (B → A)
    → List A
    → Bool
    → List B
    → List A × Bool
push_missing has make xs changed [] = (xs, changed)
push_missing has make xs changed (b ∷ bs) = elim (has b xs) [
  | true ↦ push_missing has make xs changed bs
  | false ↦ push_missing has make (xs ++ make b ∷ []) true bs
]

-- `self.serve.shared.iter().any(|o| o.proto == proto && o.port == port)`
abbrev pub offers_port : Proto → ℕ → List Offer → Bool
offers_port proto port = any (λ (o : Offer). same_proto o.proto proto && o.port == port)

abbrev pub new_offer : Proto → ℕ → Offer
new_offer proto port = record { proto = proto; port = port; name = []; enabled = true }

-- `self.connect.bindings.iter().any(|b| b.proto == proto && b.local == m.local)`
abbrev pub binds_local : Proto → PortMap → List Binding → Bool
binds_local proto m = any (λ (b : Binding). same_proto b.proto proto && b.local == m.local)

abbrev pub new_binding : Proto → PortMap → Binding
new_binding proto m = record {
  proto = proto;
  local = m.local;
  remote = m.remote;
  name = [];
  enabled = true;
}

abbrev pub new_peer : {Key : Type 0} → Key → Peer Key
new_peer id = record { id = id; name = []; enabled = true; offers = [] }

module _ {Key : Type 0} (id_eq : Discrete Key) where
  -- `!self.peer(id).is_none()`
  abbrev pub lists_peer : Key → List (Peer Key) → Bool
  lists_peer id ps = is_some (find (λ (p : Peer Key). same_id id_eq p.id id) ps)

  -- The new configuration, and whether it changed.
  unfoldable pub seed_from_flags : Config Key → List Key → List ℕ → List ℕ → Config Key × Bool
  seed_from_flags c allow tcp_ports udp_ports =
      let (with_tcp, c1) =
        push_missing (offers_port tcp) (new_offer tcp) c.serve.shared false tcp_ports in
      let (with_udp, c2) = push_missing (offers_port udp) (new_offer udp) with_tcp c1 udp_ports in
      let (peers, c3) = push_missing lists_peer new_peer c.serve.peers c2 allow in
      (record c { serve = record { shared = with_udp; peers = peers } }, c3)

unfoldable pub seed_bindings :
    {Key : Type 0} → Config Key → List PortMap → List PortMap → Config Key × Bool
seed_bindings c tcp_maps udp_maps =
    let (with_tcp, c1) =
      push_missing (binds_local tcp) (new_binding tcp) c.connect.bindings false tcp_maps in
    let (with_udp, c2) = push_missing (binds_local udp) (new_binding udp) with_tcp c1 udp_maps in
    (record c { connect = record { bindings = with_udp } }, c2)
