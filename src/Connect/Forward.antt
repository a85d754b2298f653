-- ===== src/Connect/Forward.antt =====
-- The tasks that carry bytes for one connection: `spawn_forwarders` and `forward_tcp` of connect.rs. A
-- task is named by the function that it runs, with its socket and its port map. The tasks of the UDP
-- listeners share one session table, which starts empty.
pub mod Purpose
use rust_tunnel.Base.{Option, none, some, ℕ, List, [], ◌∷◌, ◌++◌, map}
use rust_tunnel.Framing.{write_target_port}
use rust_tunnel.Config.Types.{PortMap}
use rust_tunnel.Connect.Listeners.{Listeners, tcp_listeners, udp_listeners}

pub data Task : Type 0 where
  accept_tcp pump_udp_out : ℕ → PortMap → Task
  pump_udp_in reaper : Task

-- `if !udp.is_empty()`
unfoldable pub udp_tasks : List (ℕ × PortMap) → List Task
udp_tasks [] = []
udp_tasks (u ∷ us) =
    map (λ (l : ℕ × PortMap). pump_udp_out l.0 l.1) (u ∷ us) ++ pump_udp_in ∷ reaper ∷ []

unfoldable pub spawn_forwarders : Listeners → List Task
spawn_forwarders l =
    map (λ (t : ℕ × PortMap). accept_tcp t.0 t.1) (tcp_listeners l) ++ udp_tasks (udp_listeners l)

-- What `forward_tcp` puts on a new stream for a local client that sends the given bytes.
unfoldable pub forward_tcp : ℕ → List ℕ → List ℕ
forward_tcp port sent = write_target_port [] port ++ sent

-- The loop of `accept_tcp`: what it puts on the streams of the clients that it accepts, each sending the
-- given bytes. An `accept` that fails, `none`, ends the task.
unfoldable pub accept_loop : PortMap → List (Option (List ℕ)) → List (List ℕ)
accept_loop m [] = []
accept_loop m (none ∷ clients) = []
accept_loop m (some sent ∷ clients) = forward_tcp m.remote sent ∷ accept_loop m clients
