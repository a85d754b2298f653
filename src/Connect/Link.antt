-- ===== src/Connect/Link.antt =====
-- `run` of connect.rs as a state machine. What the far side, the operating system and the edits do are
-- the steps; `pending` says that the watch channel holds a configuration that the loop has not been
-- woken for. A published configuration has passed `validate`, as `Shared::mutate` sees to.
pub mod Forwarding
pub mod Edited
use rust_tunnel.Base.{◌≡◌, ℕ, Bool, true, false, not, ◌&&◌, List, [], ◌∷◌, if◌then◌else◌}
use rust_tunnel.Errors.{Result, ok, err, no_listener}
use rust_tunnel.Config.Types.{Config, Binding}
use rust_tunnel.Config.Validate.{validate}
use rust_tunnel.Config.Grants.{active_bindings}
use rust_tunnel.State.{Shared, peer_connected, peer_disconnected}
use rust_tunnel.Paths.{Report, on_report}
use rust_tunnel.Connect.Listeners.{Answer, Listeners, reconcile}
use rust_tunnel.Connect.Forward.{Task, spawn_forwarders}
use rust_tunnel.Connect.Retry.{backoff_start, next_delay}

-- Where the loop waits: for a dial, on a connection with its forwarders, or for the next dial.
pub data Phase : Type 0 where
  dialing waiting : ℕ → Phase
  linked : List Task → Phase
  gave_up : Phase

pub record Link (Key : Type 0) : Type 0 where
  pub shared : Shared Key
  pub pending : Bool
  pub listeners : Listeners
  pub phase : Phase

-- `Vec::is_empty`, `HashMap::is_empty`
abbrev is_empty : {A : Type 0} → List A → Bool
is_empty [] = true
is_empty (x ∷ xs) = false

module _ {Key : Type 0} where
  -- Up to the loop: a command that asked for listeners and got none fails.
  unfoldable pub begin : (Binding → Answer) → Shared Key → Result (Link Key)
  begin os sh =
      let initial = active_bindings sh.config in
      let w = reconcile os [] initial sh in
      if not (is_empty initial) && is_empty w.bound
      then err no_listener
      else ok (record {
        shared = w.shared;
        pending = false;
        listeners = w.bound;
        phase = dialing backoff_start;
      })

  -- `cfg_rx.changed()` on a connection: the forwarders are spawned again if the listeners changed.
  unfoldable pub edited : (Binding → Answer) → List Task → Link Key → Link Key
  edited os tasks l =
      let w = reconcile os l.listeners (active_bindings l.shared.config) l.shared in
      record {
        shared = w.shared;
        pending = false;
        listeners = w.bound;
        phase = linked (if w.changed then spawn_forwarders w.bound else tasks);
      }

  -- `cfg_rx.changed()` while the loop waits for its next dial.
  unfoldable pub edited_waiting : (Binding → Answer) → Link Key → Link Key
  edited_waiting os l =
      let w = reconcile os l.listeners (active_bindings l.shared.config) l.shared in
      record l { shared = w.shared; pending = false; listeners = w.bound }

module _ {Key : Type 0} (id_eq : Discrete Key) (peer : Key) where
  -- `ep.connect` gave a connection.
  unfoldable pub connected : ℕ → Link Key → Link Key
  connected now l = record l {
    shared = peer_connected id_eq l.shared peer now;
    phase = linked (spawn_forwarders l.listeners);
  }

  -- The connection ended, with an application code of the peer or without.
  unfoldable pub ended : Bool → Link Key → Link Key
  ended by_peer l = record l {
    shared = peer_disconnected id_eq l.shared peer;
    phase = if by_peer then gave_up else waiting backoff_start;
  }

  pub data Step : Link Key → Link Key → Type 0 where
    -- An edit leaves the runtime facts as they are.
    publish :
        (l : Link Key) (sh : Shared Key)
        → validate id_eq sh.config ≡ ok tt
        → sh.runtime ≡ l.shared.runtime
        → Step l (record l { shared = sh; pending = true })
    dialed : (l : Link Key) (delay now : ℕ) → l.phase ≡ dialing delay → Step l (connected now l)
    dial_failed :
        (l : Link Key) (delay : ℕ)
        → l.phase ≡ dialing delay
        → Step l (record l { phase = waiting delay })
    woken :
        (l : Link Key) (os : Binding → Answer) (tasks : List Task)
        → l.phase ≡ linked tasks
        → l.pending ≡ true
        → Step l (edited os tasks l)
    closed :
        (l : Link Key) (tasks : List Task) (by_peer : Bool)
        → l.phase ≡ linked tasks
        → Step l (ended by_peer l)
    woken_waiting :
        (l : Link Key) (os : Binding → Answer) (delay : ℕ)
        → l.phase ≡ waiting delay
        → l.pending ≡ true
        → Step l (edited_waiting os l)
    retried :
        (l : Link Key) (delay : ℕ)
        → l.phase ≡ waiting delay
        → Step l (record l { phase = dialing (next_delay delay) })
    -- The task that reports the path of a connection, which ends by itself some time after it.
    reported :
        (l : Link Key) (r : Report) → Step l (record l { shared = on_report id_eq l.shared peer r })

  pub data Run (l : Link Key) : Link Key → Type 0 where
    start : Run l l
    onward : {m n : Link Key} → Run l m → Step m n → Run l n
