-- ===== src/Examples/Link.antt =====
-- The loop of the connecting side at a concrete configuration: the binding 2222:22 and one connection.
use rust_tunnel.Base.{
  arith, Bool, true, inl, some, Option, ℕ, ◌≡◌, ◌⊎◌, refl, false, List, [], ◌∷◌, All, Any,
  ℕ_discrete, get, insert, remove,
}
use rust_tunnel.Errors.{ok}
use rust_tunnel.Config.Types.{tcp, port_key_eq, Binding}
use rust_tunnel.Config.Grants.{active_bindings}
use rust_tunnel.State.{set_bind, listening}
use rust_tunnel.Connect.Listeners.{
  Answer, bound_to, tcp_listener, reconcile, bind_all, bind_wanted, drop_stale, stale_keys,
  tcp_listeners, udp_listeners,
}
use rust_tunnel.Connect.Listeners.Answered.{HasFailed}
use rust_tunnel.Tunnel.Streams.{Reaches, accept_loop-Reaches}
use rust_tunnel.Connect.Forward.{
  accept_loop, forward_tcp, Task, accept_tcp, udp_tasks, spawn_forwarders,
}
use rust_tunnel.Connect.Forward.Purpose.{Carries, IsFor, IsOf}
use rust_tunnel.Connect.Link.{Link, dialing, linked, begin, connected, Run, start, onward, dialed}
use rust_tunnel.Connect.Link.Forwarding.{tasks_lem}
use rust_tunnel.Examples.Samples.{sample}
use rust_tunnel.Examples.Config.{sample_accepted, sample-IsValid}
use rust_tunnel.Examples.State.{running}

abbrev pub generous : Binding → Answer
generous b = bound_to 3

abbrev pub begun : Link ℕ
begun = record {
  shared = set_bind running tcp 2222 listening;
  pending = false;
  listeners = ((tcp, 2222), (tcp_listener 3, 22)) ∷ [];
  phase = dialing 1;
}

abbrev pub held : Link ℕ
held = connected ℕ_discrete 7 5 begun

abbrev pub ssh_tasks : List Task
ssh_tasks = accept_tcp 3 (record { local = 2222; remote = 22 }) ∷ []

pub begins : begin generous running ≡ ok begun
unfolding begin active_bindings reconcile bind_all bind_wanted drop_stale stale_keys get insert
    port_key_eq remove ℕ_discrete
begins = refl

pub held_trace : Run ℕ_discrete 7 begun held
held_trace = onward start (dialed begun 1 5 refl)

held_quiet : held.pending ≡ false
unfolding connected
held_quiet = refl

pub held_phase : held.phase ≡ linked ssh_tasks
unfolding connected spawn_forwarders tcp_listeners udp_listeners udp_tasks
held_phase = refl

tasks_lem_example :
    All (IsFor (active_bindings held.shared.config)) ssh_tasks
    × All
        (λ b. Any (IsOf b) ssh_tasks ⊎ HasFailed held.shared b)
        (active_bindings held.shared.config)
tasks_lem_example =
    tasks_lem ℕ_discrete 7 generous running begun held ssh_tasks sample_accepted begins held_trace
      held_quiet held_phase

-- A client that sends one byte, over a far side with the same configuration.
abbrev one_client : List (Option (List ℕ))
one_client = some (1 ∷ []) ∷ []

abbrev always : ℕ → Bool
always port = true

first_stream :
    Any
      (λ s. s ≡ forward_tcp 22 (1 ∷ []))
      (accept_loop (record { local = 2222; remote = 22 }) one_client)
unfolding accept_loop
first_stream = inl refl

accept_loop-Reaches_example :
    Any
      (λ b.
        Carries tcp (record { local = 2222; remote = 22 }) b
        × Reaches ℕ_discrete 7 9 always sample one_client (forward_tcp 22 (1 ∷ [])) b.remote)
      (active_bindings held.shared.config)
accept_loop-Reaches_example =
    accept_loop-Reaches ℕ_discrete 7 9 generous running begun held ssh_tasks 3
      (record { local = 2222; remote = 22 }) one_client (forward_tcp 22 (1 ∷ [])) always sample
      sample_accepted begins held_trace held_quiet held_phase (inl refl) first_stream (omega arith)
      sample-IsValid.peers_distinct
