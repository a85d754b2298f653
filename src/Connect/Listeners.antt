-- ===== src/Connect/Listeners.antt =====
-- The listeners of connect.rs: `Listeners::reconcile` against the bindings that a configuration wants.
-- A bound socket is its number. The operating system's answer to a bind is a function of the binding:
-- one call of `reconcile` asks at most once for each.
pub mod Reconcile
pub mod Reports
pub mod Served
pub mod Answered
use rust_tunnel.Base.{
  ℕ, Bool, true, false, not, ◌||◌, List, [], ◌∷◌, Option, none, some, ◌==◌, if◌then◌else◌, map,
  filter, any, ite, Map, get, insert, remove, Text,
}
use rust_tunnel.Config.Types.{Proto, tcp, udp, PortKey, port_key_eq, PortMap, Binding, binding_key}
use rust_tunnel.State.{Shared, listening, failed, set_bind, clear_bind}

pub data Sock : Type 0 where
  tcp_listener udp_socket : ℕ → Sock

pub data Answer : Type 0 where
  bound_to : ℕ → Answer
  refused : Text → Answer

abbrev pub Listeners : Type 0
Listeners = Map PortKey (Sock × ℕ)

-- `bind_one`, for a number that the operating system gives.
abbrev pub sock_for : Proto → ℕ → Sock
sock_for tcp n = tcp_listener n
sock_for udp n = udp_socket n

-- `keys.contains(k)`
unfoldable pub wants : List Binding → PortKey → Bool
wants [] k = false
wants (b ∷ bs) k = ite (port_key_eq (binding_key b) k) true (wants bs k)

-- What the loops of `reconcile` carry: the listeners, the shared state, and `changed`.
pub record Work (Key : Type 0) : Type 0 where
  pub bound : Listeners
  pub shared : Shared Key
  pub changed : Bool

-- `self.bound.keys().filter(|k| !keys.contains(k))`
unfoldable pub stale_keys : List Binding → Listeners → List PortKey
stale_keys want l =
    map (λ (e : PortKey × (Sock × ℕ)). e.0)
      (filter (λ (e : PortKey × (Sock × ℕ)). not (wants want e.0)) l)

module _ {Key : Type 0} where
  -- One stale key.
  unfoldable pub drop_one : PortKey → Work Key → Work Key
  drop_one k w = record {
    bound = remove port_key_eq w.bound k;
    shared = clear_bind w.shared k.0 k.1;
    changed = true;
  }

  unfoldable pub drop_stale : List PortKey → Work Key → Work Key
  drop_stale [] w = w
  drop_stale (k ∷ ks) w = drop_stale ks (drop_one k w)

  -- One wanted binding.
  unfoldable pub bind_wanted : (Binding → Answer) → Binding → Work Key → Work Key
  bind_wanted os b w = elim (get port_key_eq w.bound (binding_key b)) [
    | some (sock, remote) ↦ if remote == b.remote then w else record w {
      bound = insert port_key_eq w.bound (binding_key b) (sock, b.remote);
      changed = true;
    }
    | none ↦ elim (os b) [
      | bound_to n ↦ record {
        bound = insert port_key_eq w.bound (binding_key b) (sock_for b.proto n, b.remote);
        shared = set_bind w.shared b.proto b.local listening;
        changed = true;
      }
      | refused why ↦ record w { shared = set_bind w.shared b.proto b.local (failed why) }
    ]
  ]

  unfoldable pub bind_all : (Binding → Answer) → List Binding → Work Key → Work Key
  bind_all os [] w = w
  bind_all os (b ∷ bs) w = bind_all os bs (bind_wanted os b w)

  -- `Listeners::reconcile`
  unfoldable pub reconcile : (Binding → Answer) → Listeners → List Binding → Shared Key → Work Key
  reconcile os l want sh =
      bind_all os want
        (drop_stale (stale_keys want l) (record { bound = l; shared = sh; changed = false }))

-- `Listeners::tcp` and `Listeners::udp`: the sockets of one protocol, with their port maps.
unfoldable pub tcp_listeners : Listeners → List (ℕ × PortMap)
tcp_listeners [] = []
tcp_listeners (((p, local), (tcp_listener n, remote)) ∷ l) =
    (n, record { local = local; remote = remote }) ∷ tcp_listeners l
tcp_listeners (((p, local), (udp_socket n, remote)) ∷ l) = tcp_listeners l

unfoldable pub udp_listeners : Listeners → List (ℕ × PortMap)
udp_listeners [] = []
udp_listeners (((p, local), (udp_socket n, remote)) ∷ l) =
    (n, record { local = local; remote = remote }) ∷ udp_listeners l
udp_listeners (((p, local), (tcp_listener n, remote)) ∷ l) = udp_listeners l
