-- ===== src/Suite/Config.antt =====
-- The tests of config.rs that call no other crate.
use rust_tunnel.Base.{
  ℕ, ◌+◌, ◌≡◌, refl, Bool, true, false, not, ◌==◌, List, [], ◌∷◌, is_some, length, get, insert,
  remove, ℕ_discrete, zero, suc, Text, codes,
}
use rust_tunnel.Errors.{ok, err}
use rust_tunnel.Suite.{is_err, is_ok, same, is_some_of, all_hold}
use rust_tunnel.Config.Types.{
  Proto, tcp, udp, same_proto, port_key_eq, Name, PortMap, Offer, Peer, Binding, Config, default,
}
use rust_tunnel.Config.Grants.{
  peer, granted, admits, peer_granted, insert_sorted, sort, dedup, dedup_after,
}
use rust_tunnel.Config.ProtoName.{from_str, to_ascii_lowercase}
use rust_tunnel.Config.Seed.{push_missing, seed_from_flags, seed_bindings}
use rust_tunnel.Config.Token.{token_eq, diff_bits}
use rust_tunnel.Config.Validate.{
  name_max, check_name, check_port, validate_offer, validate_binding, validate_offers,
  dedupe_offers_from, dedupe_offers, validate_peer, validate_peers_from, validate_bindings_from,
  validate,
}

abbrev pub offer : Proto → ℕ → Offer
offer proto port = record { proto = proto; port = port; name = []; enabled = true }

abbrev with_serve : List Offer → List (Peer ℕ) → Config ℕ
with_serve shared peers = record default { serve = record { shared = shared; peers = peers } }

abbrev listed : Name → Peer ℕ
listed name = record { id = 1; name = name; enabled = true; offers = [] }

abbrev mixed : Config ℕ
mixed = with_serve (offer tcp 22 ∷ record (offer tcp 80) { enabled = false } ∷ []) (
    record {
      id = 1;
      name = codes "laptop";
      enabled = true;
      offers = offer tcp 8080 ∷ offer udp 53 ∷ [];
    }
    ∷ record { id = 2; name = codes "parked"; enabled = false; offers = offer tcp 9999 ∷ [] }
    ∷ [])

granted_merges_shared_and_per_peer_and_honours_enabled : Bool
granted_merges_shared_and_per_peer_and_honours_enabled = all_hold (
    is_some_of (22 ∷ 8080 ∷ []) (granted ℕ_discrete mixed 1 tcp)
    ∷ is_some_of (53 ∷ []) (granted ℕ_discrete mixed 1 udp)
    ∷ not (is_some (granted ℕ_discrete mixed 2 tcp))
    ∷ not (is_some (granted ℕ_discrete mixed 3 tcp))
    ∷ admits ℕ_discrete mixed 1
    ∷ not (admits ℕ_discrete mixed 2)
    ∷ not (admits ℕ_discrete mixed 3)
    ∷ [])

granted_test : granted_merges_shared_and_per_peer_and_honours_enabled ≡ true
unfolding granted_merges_shared_and_per_peer_and_honours_enabled granted admits peer peer_granted
    sort insert_sorted dedup dedup_after ℕ_discrete
granted_test = refl

abbrev bound : ℕ → ℕ → Binding
bound local remote = record {
  proto = tcp;
  local = local;
  remote = remote;
  name = [];
  enabled = true;
}

-- `"x".repeat(n)`
abbrev repeated : ℕ → Name
repeated zero = []
repeated (suc n) = b'x' ∷ repeated n

validate_rejects_duplicates_and_bad_values : Bool
validate_rejects_duplicates_and_bad_values =
    let check = λ (c : Config ℕ). validate ℕ_discrete c in
    all_hold (
      is_err (check (with_serve [] (listed (codes "a") ∷ listed (codes "b") ∷ [])))
      ∷ is_err (check (with_serve (offer tcp 22 ∷ offer tcp 22 ∷ []) []))
      ∷ is_ok (check (with_serve (offer tcp 22 ∷ offer udp 22 ∷ []) []))
      ∷ is_err (check (with_serve (offer tcp 0 ∷ []) []))
      ∷ is_err (
          check
            (record default { connect = record { bindings = bound 2222 22 ∷ bound 2222 80 ∷ [] } }))
      ∷ is_err (check (with_serve [] (listed (repeated (name_max + 1)) ∷ [])))
      ∷ is_err (check (with_serve [] (listed (codes "bad\nname") ∷ [])))
      ∷ [])

validate_test : validate_rejects_duplicates_and_bad_values ≡ true
unfolding validate_rejects_duplicates_and_bad_values check_name check_port validate_offer
    validate_binding validate_offers dedupe_offers_from dedupe_offers validate_peer
    validate_bindings_from validate_peers_from validate get insert remove port_key_eq ℕ_discrete
validate_test = refl

-- `cfg.serve.peers[0]`, parked and renamed by hand.
abbrev edit_first : List (Peer ℕ) → List (Peer ℕ)
edit_first [] = []
edit_first (p ∷ ps) = record p { enabled = false; name = codes "kept" } ∷ ps

abbrev is_kept : List (Peer ℕ) → Bool
is_kept [] = false
is_kept (p ∷ ps) = all_hold (not p.enabled ∷ same p.name (codes "kept") ∷ [])

seeding_is_idempotent_and_never_clobbers : Bool
seeding_is_idempotent_and_never_clobbers =
    let seed = λ (c : Config ℕ). seed_from_flags ℕ_discrete c (1 ∷ []) (22 ∷ []) (53 ∷ []) in
    let map_one : PortMap = record { local = 2222; remote = 22 } in
    let first = seed default in
    let again = seed (first.0) in
    let by_hand =
      let c = again.0 in
      record c { serve = record (c.serve) { peers = edit_first c.serve.peers } } in
    let third = seed by_hand in
    let with_map = seed_bindings (third.0) (map_one ∷ []) [] in
    let twice = seed_bindings (with_map.0) (map_one ∷ []) [] in
    all_hold (
      first.1
      ∷ not again.1
      ∷ (length again.0.serve.peers == 1)
      ∷ (length again.0.serve.shared == 2)
      ∷ not third.1
      ∷ is_kept third.0.serve.peers
      ∷ with_map.1
      ∷ not twice.1
      ∷ (length twice.0.connect.bindings == 1)
      ∷ [])

seeding_test : seeding_is_idempotent_and_never_clobbers ≡ true
unfolding seeding_is_idempotent_and_never_clobbers seed_from_flags seed_bindings push_missing
    ℕ_discrete
seeding_test = refl

token_eq_matches_only_identical_tokens : Bool
token_eq_matches_only_identical_tokens = all_hold (
    token_eq (codes "abc") (codes "abc")
    ∷ not (token_eq (codes "abc") (codes "abd"))
    ∷ not (token_eq (codes "abc") (codes "ab"))
    ∷ not (token_eq [] (codes "a"))
    ∷ token_eq [] []
    ∷ [])

token_test : token_eq_matches_only_identical_tokens ≡ true
unfolding token_eq_matches_only_identical_tokens token_eq diff_bits
token_test = refl

abbrev reads_as : Proto → Text → Bool
reads_as p s = elim (from_str s) [ ok q ↦ same_proto q p | err e ↦ false ]

proto_parses_case_insensitively : Bool
proto_parses_case_insensitively = all_hold (
    reads_as tcp (codes "tcp") ∷ reads_as udp (codes "UDP") ∷ is_err (from_str (codes "sctp")) ∷ [])

proto_test : proto_parses_case_insensitively ≡ true
unfolding proto_parses_case_insensitively from_str to_ascii_lowercase
proto_test = refl
