-- ===== src/Config/Seed/Bindings.antt =====
-- What `seed_bindings` does to a configuration.
use mathlib.Core.List.{append_assoc}
use rust_tunnel.Base.{
  ◌≡◌, refl, ◌≢◌, ◌∙◌, ap, true, false, ◌++◌, List, [], ◌∷◌, arith, All, any-append,
}
use rust_tunnel.Config.Types.{Proto, tcp, udp, PortMap, Binding, Config, binding_key}
use rust_tunnel.Config.Validate.Exact.{IsValid, BindingIsValid}
use rust_tunnel.Config.Seed.{push_missing, binds_local, new_binding, seed_bindings}
use rust_tunnel.Config.Seed.Laws.{empty_name, clash}
use rust_tunnel.Config.Seed.Loop.{
  Looks, push_missing-extends, push_missing_unchanged, push_missing_stable, All-push_missing,
  push_missing_complete, Distinct-push_missing, still_found,
}

binds_Looks : (proto : Proto) → Looks (binds_local proto) (new_binding proto)
binds_Looks proto = record {
  splits = λ m xs ys. any-append _ xs ys;
  made = λ m. binds_made proto m;
}
  where
    binds_made : (p : Proto) (m : PortMap) → binds_local p m (new_binding p m ∷ []) ≡ true
    binds_made tcp m = ground arith
    binds_made udp m = ground arith

binds_fresh :
    (proto : Proto) (m : PortMap) (bs : List Binding)
    → binds_local proto m bs ≡ false
    → All (λ b. binding_key b ≢ binding_key (new_binding proto m)) bs
binds_fresh proto m [] h = tt
binds_fresh proto m (b ∷ bs) h =
    (λ e. clash proto b.proto (ground arith) (ground arith), binds_fresh proto m bs (ground arith))

-- A mapping that the command line accepts: both ports are non-zero.
pub record MapIsValid (m : PortMap) : Type 0 where
  pub local : m.local ≢ 0
  pub remote : m.remote ≢ 0

new_bindings_valid :
    (proto : Proto) (ms : List PortMap)
    → All MapIsValid ms
    → All (λ m. BindingIsValid (new_binding proto m)) ms
new_bindings_valid proto [] h = tt
new_bindings_valid proto (m ∷ ms) h = (
  record { local = h.0.local; remote = h.0.remote; name = empty_name },
  new_bindings_valid proto ms h.1,
)

module _ {Key : Type 0} (c : Config Key) (tcps udps : List PortMap) where
  -- Seeding bindings twice is seeding them once; it only appends bindings and leaves the serving side
  -- alone; and if the code reports no change the configuration is the one it was given.
  pub seed_bindings_twice :
      (seed_bindings (seed_bindings c tcps udps).0 tcps udps
        ≡ ((seed_bindings c tcps udps).0, false))
      × ((new : List Binding) × ((seed_bindings c tcps udps).0.connect.bindings
            ≡ c.connect.bindings ++ new))
      × ((seed_bindings c tcps udps).0.serve ≡ c.serve)
      × ((seed_bindings c tcps udps).1 ≡ false → (seed_bindings c tcps udps).0 ≡ c)
  unfolding seed_bindings
  seed_bindings_twice =
      let s1 = push_missing (binds_local tcp) (new_binding tcp) c.connect.bindings false tcps in
      let s2 = push_missing (binds_local udp) (new_binding udp) s1.0 s1.1 udps in
      let (xs, e1) =
        push_missing-extends (binds_local tcp) (new_binding tcp) c.connect.bindings false tcps in
      let (ys, e2) = push_missing-extends (binds_local udp) (new_binding udp) s1.0 s1.1 udps in
      let again1 = push_missing_stable (binds_local tcp) (new_binding tcp) s2.0 false tcps (
        rw e2 (
          still_found (binds_local tcp) (new_binding tcp) (binds_Looks tcp) s1.0 ys tcps (
            push_missing_complete (binds_local tcp) (new_binding tcp) (binds_Looks tcp)
              c.connect.bindings false tcps))) in
      let again2 = push_missing_stable (binds_local udp) (new_binding udp) s2.0 false udps (
        push_missing_complete (binds_local udp) (new_binding udp) (binds_Looks udp) s1.0 s1.1
          udps) in
      (
        ground (arith, again1, again2),
        (xs ++ ys, e2 ∙ (ap (λ l. l ++ ys) e1 ∙ append_assoc c.connect.bindings xs ys)),
        refl,
        λ h. ground (
          arith,
          push_missing_unchanged (binds_local udp) (new_binding udp) s1.0 s1.1 udps h,
          push_missing_unchanged (binds_local tcp) (new_binding tcp) c.connect.bindings false tcps,
        ),
      )

  -- Seeding mappings of non-zero ports keeps a valid configuration valid.
  pub seed_bindings-IsValid :
      All MapIsValid tcps → All MapIsValid udps → IsValid c → IsValid (seed_bindings c tcps udps).0
  unfolding seed_bindings
  seed_bindings-IsValid ht hu v =
      let s1 = push_missing (binds_local tcp) (new_binding tcp) c.connect.bindings false tcps in
      record {
        shared = v.shared;
        shared_distinct = v.shared_distinct;
        peers = v.peers;
        peers_distinct = v.peers_distinct;
        bindings =
            All-push_missing (binds_local udp) (new_binding udp) BindingIsValid s1.0 s1.1 udps
              (new_bindings_valid udp udps hu)
              (All-push_missing (binds_local tcp) (new_binding tcp) BindingIsValid
                c.connect.bindings false tcps (new_bindings_valid tcp tcps ht) v.bindings);
        bindings_distinct =
            Distinct-push_missing (binds_local udp) (new_binding udp) binding_key (binds_fresh udp)
              s1.0 s1.1 udps
              (Distinct-push_missing (binds_local tcp) (new_binding tcp) binding_key
                (binds_fresh tcp) c.connect.bindings false tcps v.bindings_distinct);
      }
