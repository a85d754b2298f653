-- ===== src/Suite/Tunnel.antt =====
-- The fixtures of the end-to-end tests of tunnel.rs, on the models of both roles. Ports that the
-- operating system chooses are arguments, every bind and every write succeeds, the serving side is
-- endpoint 1 and the connecting side endpoint 2. An echo service sends back what it is sent, and a
-- connection that is reset or closed brings nothing back.
mod Ports
mod Peers
mod Bindings
mod Datagrams
use rust_tunnel.Base.{
  ℕ, Bool, true, false, ◌++◌, ◌==◌, List, [], ◌∷◌, Option, none, some, if◌then◌else◌, map, get,
  insert, remove, ℕ_discrete,
}
use rust_tunnel.Errors.{Result, ok, err, ◌>>=◌}
use rust_tunnel.Suite.{same}
use rust_tunnel.Framing.{read_target_port, write_target_port}
use rust_tunnel.Config.Types.{
  Proto, tcp, udp, port_key_eq, PortMap, Offer, Peer, Binding, Config, default,
}
use rust_tunnel.Config.Grants.{
  contains, peer, admits, granted, may_reach, peer_granted, sort, insert_sorted, dedup, dedup_after,
  active_bindings,
}
use rust_tunnel.Config.Validate.{
  validate, validate_peers_from, validate_peer, validate_offers, validate_offer, check_port,
  check_name, dedupe_offers, dedupe_offers_from, validate_bindings_from, validate_binding,
}
use rust_tunnel.Config.Persist.{Toml, banner, save}
use rust_tunnel.State.{Shared, serve, connect, new, mutate, peer_connected, set_bind, clear_bind}
use rust_tunnel.Connect.Listeners.{
  Answer, bound_to, reconcile, bind_all, bind_wanted, drop_stale, drop_one, stale_keys, wants,
  tcp_listeners, udp_listeners,
}
use rust_tunnel.Connect.Forward.{
  Task, accept_tcp, pump_udp_out, pump_udp_in, reaper, forward_tcp, spawn_forwarders, udp_tasks,
}
use rust_tunnel.Connect.Link.{
  Link, Phase, linked, dialing, waiting, gave_up, begin, connected, edited,
}
use rust_tunnel.Serve.Streams.{Stream, unreadable, unanswered, reset, piped, serve_stream, accept}
use rust_tunnel.Examples.Samples.{healthy, empty_disk}

pub record Offered : Type 0 where
  pub tcp_ports : List ℕ
  pub udp_ports : List ℕ

abbrev pub on : Proto → ℕ → Offer
on proto port = record { proto = proto; port = port; name = []; enabled = true }

abbrev pub bind : Proto → PortMap → Binding
bind proto m = record {
  proto = proto;
  local = m.local;
  remote = m.remote;
  name = [];
  enabled = true;
}

abbrev pub mapped : ℕ → ℕ → PortMap
mapped local remote = record { local = local; remote = remote }

abbrev pub peer_of : ℕ → Peer ℕ
peer_of id = record { id = id; name = []; enabled = true; offers = [] }

unfoldable pub shared_serve : List ℕ → Offered → Shared ℕ
unfolding new
shared_serve allow offered =
    new
      (record default {
        serve = record {
          shared = map (on tcp) offered.tcp_ports ++ map (on udp) offered.udp_ports;
          peers = map peer_of allow;
        };
      })
      empty_disk serve 0

unfoldable pub shared_connect : List PortMap → List PortMap → Shared ℕ
unfolding new
shared_connect tcp_maps udp_maps =
    new
      (record default {
        connect = record { bindings = map (bind tcp) tcp_maps ++ map (bind udp) udp_maps };
      })
      empty_disk connect 0

-- Every bind succeeds; a socket has the number of its port.
abbrev pub binds_all : Binding → Answer
binds_all b = bound_to b.local

-- The tests write their file and do not read it again.
abbrev pub throwaway : Toml ℕ
throwaway = record { print = λ c. some []; parse = λ t. none }

abbrev pub server_id : ℕ
server_id = 1

abbrev pub client_id : ℕ
client_id = 2

-- Both roles, and the connection between them.
pub record Live : Type 0 where
  pub serving : Shared ℕ
  pub connecting : Link ℕ

-- A connecting role on a server, from its start to its connection.
unfoldable pub join : ℕ → Shared ℕ → Shared ℕ → Result Live
unfolding begin connected active_bindings reconcile bind_all bind_wanted drop_stale drop_one
    stale_keys wants spawn_forwarders tcp_listeners udp_listeners udp_tasks set_bind clear_bind
    peer_connected accept admits peer get insert remove port_key_eq ℕ_discrete
join id serving connecting = do
  l ← begin binds_all connecting
  ok (record {
    serving = (accept ℕ_discrete serving id 0).1;
    connecting = connected ℕ_discrete server_id 0 l;
  })

unfoldable pub live_tunnel : Offered → List PortMap → List PortMap → Result Live
unfolding join shared_serve shared_connect
live_tunnel offered tcp_maps udp_maps =
    join client_id (shared_serve (client_id ∷ []) offered) (shared_connect tcp_maps udp_maps)

abbrev pub tasks_of : Phase → List Task
tasks_of (linked tasks) = tasks
tasks_of (dialing delay) = []
tasks_of (waiting delay) = []
tasks_of gave_up = []

-- The forwarder that accepts on a local port.
unfoldable pub listening_on : ℕ → List Task → Option PortMap
listening_on port [] = none
listening_on port (accept_tcp sock m ∷ ts) =
    let rest = listening_on port ts in if m.local == port then some m else rest
listening_on port (pump_udp_out sock m ∷ ts) = listening_on port ts
listening_on port (pump_udp_in ∷ ts) = listening_on port ts
listening_on port (reaper ∷ ts) = listening_on port ts

-- What an echo service behind a stream brings back.
abbrev pub echoed : Stream → List ℕ
echoed (piped port bytes) = bytes
echoed (reset code) = []
echoed unreadable = []
echoed unanswered = []

-- `round_trip` of a client of the given endpoint; `none` where nothing listens on the port. The echo
-- services listen on the given ports.
unfoldable pub round_trip : List ℕ → ℕ → Live → ℕ → List ℕ → Option (List ℕ)
unfolding listening_on serve_stream read_target_port write_target_port forward_tcp may_reach granted
    peer peer_granted sort insert_sorted dedup dedup_after ℕ_discrete
round_trip services id live port payload =
    elim (listening_on port (tasks_of live.connecting.phase)) [
      | none ↦ none
      | some m ↦ some (
          echoed (
            serve_stream ℕ_discrete (contains services) live.serving.config id
              (forward_tcp m.remote payload)))
    ]

abbrev pub by : (Config ℕ → Config ℕ) → Config ℕ → Result (Unit {0} × Config ℕ)
by change c = ok (tt, change c)

-- `mutate(..).unwrap()` on one of the two roles.
abbrev pub accepted : (Shared ℕ → Live) → Result (Unit {0}) × Shared ℕ → Result Live
accepted put (ok done, sh) = ok (put sh)
accepted put (err e, sh) = err e

unfoldable pub edit_serving : (Config ℕ → Config ℕ) → Live → Result Live
unfolding mutate validate validate_peers_from validate_peer validate_offers validate_offer
    check_port check_name dedupe_offers dedupe_offers_from validate_bindings_from validate_binding
    save banner get insert remove port_key_eq ℕ_discrete
edit_serving change live =
    accepted (λ sh. record live { serving = sh })
      (mutate ℕ_discrete throwaway healthy (by change) live.serving)

-- The loop of the connecting role is woken for its edit.
unfoldable pub edit_connecting : (Config ℕ → Config ℕ) → Live → Result Live
unfolding edited mutate validate validate_peers_from validate_peer validate_offers validate_offer
    check_port check_name dedupe_offers dedupe_offers_from validate_bindings_from validate_binding
    save banner get insert remove port_key_eq ℕ_discrete active_bindings reconcile bind_all
    bind_wanted drop_stale drop_one stale_keys wants spawn_forwarders tcp_listeners udp_listeners
    udp_tasks set_bind clear_bind
edit_connecting change live =
    let l = live.connecting in
    accepted
      (λ sh. record live {
        connecting = edited binds_all (tasks_of l.phase) (record l { shared = sh; pending = true });
      })
      (mutate ℕ_discrete throwaway healthy (by change) l.shared)

-- A test over a tunnel that came up.
abbrev pub over : Result Live → (Live → Bool) → Bool
over (err e) test = false
over (ok live) test = test live

-- The reply is there, and is the payload.
abbrev pub came_back : List ℕ → Option (List ℕ) → Bool
came_back payload none = false
came_back payload (some got) = same got payload

-- The connection was taken, and ended without a byte.
abbrev pub came_back_empty : Option (List ℕ) → Bool
came_back_empty none = false
came_back_empty (some []) = true
came_back_empty (some (b ∷ bs)) = false
