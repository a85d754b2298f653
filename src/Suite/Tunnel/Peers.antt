-- ===== src/Suite/Tunnel/Peers.antt =====
-- The end-to-end tests of the allowlist. Endpoint 3 is a stranger.
use rust_tunnel.Base.{
  ℕ, ◌≡◌, refl, Bool, true, false, not, ◌&&◌, ◌==◌, List, [], ◌∷◌, Option, none, some, filter,
  codes, ℕ_discrete,
}
use rust_tunnel.Errors.{ok, err}
use rust_tunnel.Suite.Tunnel.{
  Offered, mapped, on, peer_of, shared_serve, shared_connect, binds_all, server_id, client_id, join,
  edit_serving, round_trip, over, came_back, came_back_empty,
}
use rust_tunnel.Config.Types.{tcp, Peer, Config, default}
use rust_tunnel.Config.Grants.{same_id, admits, peer}
use rust_tunnel.State.{Shared, serve, new}
use rust_tunnel.Connect.Link.{Phase, gave_up, dialing, waiting, linked, begin, connected, ended}
use rust_tunnel.Serve.Streams.{Close, Admission, refuse, admit, refused_peer, accept}
use rust_tunnel.Serve.Evict.{Link, watching, wake}
use rust_tunnel.Examples.Samples.{empty_disk}

abbrev stranger : ℕ
stranger = 3

abbrev nothing : Offered
nothing = record { tcp_ports = []; udp_ports = [] }

-- The connection is closed with the code of a refusal.
abbrev turned_away : Admission → Bool
turned_away (refuse c) = c.code == refused_peer
turned_away (admit name) = false

allowlist_admits_only_listed_peers : Bool
allowlist_admits_only_listed_peers =
    let sv = shared_serve (client_id ∷ []) nothing in
    turned_away (accept ℕ_discrete sv stranger 0).0
    && not (turned_away (accept ℕ_discrete sv client_id 0).0)

abbrev has_given_up : Phase → Bool
has_given_up gave_up = true
has_given_up (dialing delay) = false
has_given_up (waiting delay) = false
has_given_up (linked tasks) = false

-- The handshake goes through; then the far side closes the connection.
a_refused_connect_gives_up_instead_of_retrying : Bool
a_refused_connect_gives_up_instead_of_retrying =
    let sv = shared_serve (client_id ∷ []) nothing in
    let refused = turned_away (accept ℕ_discrete sv stranger 0).0 in
    elim (begin binds_all (shared_connect [] [])) [
      | err e ↦ false
      | ok l ↦
          refused
          && has_given_up
              (ended ℕ_discrete server_id refused (connected ℕ_discrete server_id 0 l)).phase
    ]

-- The watcher of an admitted client, subscribed before the edit and woken for it.
abbrev watcher : Config ℕ → Link ℕ
watcher c = record { config = c; watch = watching; pending = false; close = none }

abbrev woken_for : Config ℕ → Link ℕ → Link ℕ
woken_for c l = wake ℕ_discrete client_id (record l { config = c; pending = true })

abbrev closed_as_refused : Option Close → Bool
closed_as_refused none = false
closed_as_refused (some c) = c.code == refused_peer

-- An admitted client, and an edit of the peers on the serving side.
closes_on : (List (Peer ℕ) → List (Peer ℕ)) → Bool
closes_on change =
    let sv = shared_serve (client_id ∷ []) nothing in
    let with_peers =
      λ (c : Config ℕ). record c { serve = record (c.serve) { peers = change c.serve.peers } } in
    not (turned_away (accept ℕ_discrete sv client_id 0).0)
    && over (join client_id sv (shared_connect [] [])) (λ live.
      over (edit_serving with_peers live) (λ after.
        closed_as_refused (woken_for after.serving.config (watcher live.serving.config)).close))

revoking_a_peer_closes_its_live_connection : Bool
revoking_a_peer_closes_its_live_connection =
    closes_on (filter (λ (p : Peer ℕ). not (same_id ℕ_discrete p.id client_id)))

-- `peers[0].enabled = false`
abbrev disable_first : List (Peer ℕ) → List (Peer ℕ)
disable_first [] = []
disable_first (p ∷ ps) = record p { enabled = false } ∷ ps

disabling_a_peer_closes_its_live_connection : Bool
disabling_a_peer_closes_its_live_connection = closes_on disable_first

-- One peer with a port of its own, and one without.
abbrev two_peers : ℕ → Shared ℕ
two_peers remote =
    new
      (record default {
        serve = record {
          shared = [];
          peers =
              record (peer_of client_id) { name = codes "granted"; offers = on tcp remote ∷ [] }
              ∷ record (peer_of stranger) { name = codes "other" }
              ∷ [];
        };
      })
      empty_disk serve 0

a_per_peer_grant_does_not_leak_to_another_peer : ℕ → ℕ → ℕ → Bool
a_per_peer_grant_does_not_leak_to_another_peer remote granted_local other_local =
    let services = remote ∷ [] in
    over (join client_id (two_peers remote) (shared_connect (mapped granted_local remote ∷ []) []))
      (λ live.
        came_back (codes "mine") (round_trip services client_id live granted_local (codes "mine")))
    && over (join stranger (two_peers remote) (shared_connect (mapped other_local remote ∷ []) []))
        (λ live. came_back_empty (round_trip services stranger live other_local (codes "theirs")))

allowlist_test : allowlist_admits_only_listed_peers ≡ true
unfolding allowlist_admits_only_listed_peers shared_serve accept admits peer ℕ_discrete
allowlist_test = refl

giving_up_test : a_refused_connect_gives_up_instead_of_retrying ≡ true
unfolding a_refused_connect_gives_up_instead_of_retrying shared_serve shared_connect join ended
giving_up_test = refl

revoking_test : revoking_a_peer_closes_its_live_connection ≡ true
unfolding revoking_a_peer_closes_its_live_connection closes_on shared_serve shared_connect join
    edit_serving wake
revoking_test = refl

disabling_test : disabling_a_peer_closes_its_live_connection ≡ true
unfolding disabling_a_peer_closes_its_live_connection closes_on shared_serve shared_connect join
    edit_serving wake
disabling_test = refl

leak_test : a_per_peer_grant_does_not_leak_to_another_peer 9000 7000 7001 ≡ true
unfolding a_per_peer_grant_does_not_leak_to_another_peer new shared_connect join round_trip
leak_test = refl
