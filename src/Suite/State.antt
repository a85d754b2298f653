-- ===== src/Suite/State.antt =====
-- The tests of state.rs. A test starts with an empty disk, on which every call succeeds; the toml crate
-- is a table of the configurations that the test writes. That an edit replaces the snapshot only when it
-- is accepted is read off the configuration itself.
use rust_tunnel.Base.{
  ℕ, ◌≡◌, refl, Bool, true, false, ◌==◌, List, [], ◌∷◌, ◌++◌, Option, none, some, length, get,
  insert, remove, ite, ℕ_discrete, codes,
}
use rust_tunnel.Errors.{Result, ok, err, bad_toml}
use rust_tunnel.Suite.{is_err, is_ok, same, all_hold}
use rust_tunnel.Suite.Config.{offer}
use rust_tunnel.Config.Types.{tcp, port_key_eq, Name, Peer, Binding, Config, default}
use rust_tunnel.Config.Grants.{peer, admits}
use rust_tunnel.Config.Persist.{Toml, banner, load, load_text, save}
use rust_tunnel.Config.Validate.{
  check_name, check_port, validate_offer, validate_offers, dedupe_offers_from, dedupe_offers,
  validate_peer, validate_peers_from, validate_bindings_from, validate,
}
use rust_tunnel.State.{
  Shared, PeerLive, BindState, listening, failed, new, serve, mutate, peer_connected, peer_path,
  peer_disconnected, live_peers, peer_row, set_bind, clear_bind, bind_state,
}
use rust_tunnel.Examples.Samples.{
  Config-discrete, place_of, at_place, read_place, table_toml, healthy, empty_disk,
}

-- `shared()`
abbrev shared : Shared ℕ
shared = new default empty_disk serve 0

abbrev laptop : Peer ℕ
laptop = record { id = 1; name = codes "laptop"; enabled = true; offers = [] }

abbrev with_peer : Config ℕ → Config ℕ
with_peer c = record c { serve = record (c.serve) { peers = c.serve.peers ++ laptop ∷ [] } }

abbrev with_ssh : Config ℕ → Config ℕ
with_ssh c = record c { serve = record (c.serve) { shared = c.serve.shared ++ offer tcp 22 ∷ [] } }

abbrev Edit : Type 0
Edit = Config ℕ → Result (Unit {0} × Config ℕ)

-- A closure that changes the configuration and returns `Ok(())`.
abbrev by : (Config ℕ → Config ℕ) → Edit
by change c = ok (tt, change c)

abbrev crate : Toml ℕ
crate = table_toml (with_peer default ∷ with_ssh default ∷ with_ssh (with_ssh default) ∷ [])

-- `sh.mutate(..)`
abbrev edit : Edit → Shared ℕ → Result (Unit {0}) × Shared ℕ
edit f sh = mutate ℕ_discrete crate healthy f sh

-- `config::load(sh.config_path())`
abbrev reload : Shared ℕ → Result (Config ℕ)
reload sh = load ℕ_discrete crate healthy sh.disk

abbrev holds : (Config ℕ → Bool) → Result (Config ℕ) → Bool
holds p (ok c) = p c
holds p (err e) = false

abbrev is_config : Config ℕ → Config ℕ → Bool
is_config a b = ite (Config-discrete a b) true false

abbrev first_name : Config ℕ → Name
first_name c = elim c.serve.peers [ [] ↦ [] | p ∷ ps ↦ p.name ]

-- What the watcher sees is the configuration that the channel holds.
mutation_persists_publishes_and_is_observable : Bool
mutation_persists_publishes_and_is_observable =
    let done = edit (by with_peer) shared in
    all_hold (
      (length shared.config.serve.peers == 0)
      ∷ is_ok done.0
      ∷ admits ℕ_discrete done.1.config 1
      ∷ holds (λ c. admits ℕ_discrete c 1) (reload done.1)
      ∷ holds (λ c. same (first_name c) (codes "laptop")) (reload done.1)
      ∷ [])

mutation_test : mutation_persists_publishes_and_is_observable ≡ true
unfolding mutation_persists_publishes_and_is_observable new mutate save load load_text banner admits
    peer validate validate_offers dedupe_offers dedupe_offers_from validate_peers_from validate_peer
    check_name get validate_bindings_from place_of ℕ_discrete read_place at_place
mutation_test = refl

mutation_applies_with_no_subscriber : Bool
mutation_applies_with_no_subscriber =
    let done = edit (by with_ssh) shared in
    all_hold (is_ok done.0 ∷ (length done.1.config.serve.shared == 1) ∷ [])

subscriber_test : mutation_applies_with_no_subscriber ≡ true
unfolding mutation_applies_with_no_subscriber new mutate validate validate_offers validate_offer
    check_port check_name dedupe_offers dedupe_offers_from get validate_peers_from
    validate_bindings_from save place_of ℕ_discrete
subscriber_test = refl

rejected_mutation_leaves_running_config_untouched : Bool
rejected_mutation_leaves_running_config_untouched =
    let before = (edit (by with_ssh) shared).1 in
    let twice = edit (by with_ssh) before in
    let bailed = edit (λ c. err bad_toml) (twice.1) in
    all_hold (
      is_err twice.0
      ∷ (length twice.1.config.serve.shared == 1)
      ∷ is_config before.config twice.1.config
      ∷ is_err bailed.0
      ∷ (length bailed.1.config.serve.shared == 1)
      ∷ holds (is_config bailed.1.config) (reload bailed.1)
      ∷ [])

rejected_test : rejected_mutation_leaves_running_config_untouched ≡ true
unfolding rejected_mutation_leaves_running_config_untouched new mutate validate validate_offers
    validate_offer check_port check_name dedupe_offers dedupe_offers_from get validate_peers_from
    validate_bindings_from save place_of ℕ_discrete insert remove port_key_eq load load_text banner
    read_place at_place Config-discrete
rejected_test = refl

abbrev ssh_binding : Binding
ssh_binding = record { proto = tcp; local = 2222; remote = 22; name = []; enabled = true }

abbrev is_bound : Option BindState → Bool
is_bound none = false
is_bound (some listening) = true
is_bound (some (failed why)) = false

abbrev has_failed : Option BindState → Bool
has_failed none = false
has_failed (some listening) = false
has_failed (some (failed why)) = true

abbrev is_unbound : Option BindState → Bool
is_unbound none = true
is_unbound (some st) = false

abbrev has_path : Name → List (PeerLive ℕ) → Bool
has_path path [] = false
has_path path (p ∷ ps) = same p.path path

abbrev has_rtt : ℕ → List (PeerLive ℕ) → Bool
has_rtt ms [] = false
has_rtt ms (p ∷ ps) = elim p.rtt_ms [ none ↦ false | some n ↦ n == ms ]

-- The clock reads 0 at every call.
runtime_tracks_peers_and_binds : Bool
runtime_tracks_peers_and_binds =
    let up = peer_connected ℕ_discrete shared 1 0 in
    let direct =
      peer_path ℕ_discrete up 1 (codes "direct") (some (codes "ip:1.2.3.4:5")) (some 12) in
    let gone =
      peer_path ℕ_discrete (peer_disconnected ℕ_discrete direct 1) 1 (codes "direct") none none in
    let bound = set_bind gone tcp 2222 listening in
    let refused = set_bind bound tcp 2222 (failed (codes "in use")) in
    let cleared = clear_bind refused tcp 2222 in
    all_hold (
      (length (live_peers shared 0) == 0)
      ∷ (length (live_peers up 0) == 1)
      ∷ has_path (codes "pending") (live_peers up 0)
      ∷ has_path (codes "direct") (live_peers direct 0)
      ∷ has_rtt 12 (live_peers direct 0)
      ∷ (length (live_peers gone 0) == 0)
      ∷ is_unbound (bind_state gone ssh_binding)
      ∷ is_bound (bind_state bound ssh_binding)
      ∷ has_failed (bind_state refused ssh_binding)
      ∷ is_unbound (bind_state cleared ssh_binding)
      ∷ [])

runtime_test : runtime_tracks_peers_and_binds ≡ true
unfolding runtime_tracks_peers_and_binds new peer_connected peer_path peer_disconnected live_peers
    peer_row set_bind clear_bind bind_state get insert remove ℕ_discrete port_key_eq
runtime_test = refl
