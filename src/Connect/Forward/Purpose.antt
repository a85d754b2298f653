-- ===== src/Connect/Forward/Purpose.antt =====
-- The tasks of `spawn_forwarders` (connect.rs) against the bindings that the listeners serve.
use rust_tunnel.Base.{
  get, some, arith, ◌⊎◌, ◌∙◌, Any-append-left, Any-append-right, ◌≡◌, refl, sym, subst, ap, ℕ, List,
  [], ◌∷◌, map, inl, inr, All, All-append, Any,
}
use rust_tunnel.Config.Types.{
  port_key_eq, binding_key, Proto, tcp, udp, PortKey, PortMap, Binding, binding_map,
}
use rust_tunnel.Connect.Listeners.{
  Sock, tcp_listener, udp_socket, Listeners, tcp_listeners, udp_listeners,
}
use rust_tunnel.Connect.Listeners.Served.{IsKind, IsAsked}
use rust_tunnel.Connect.Forward.{
  Task, accept_tcp, pump_udp_out, pump_udp_in, reaper, udp_tasks, spawn_forwarders,
}

-- A task that carries one of the bindings: its protocol, its local port and its remote port.
abbrev pub Carries : Proto → PortMap → Binding → Type 0
Carries p m b = (b.proto ≡ p) × (binding_map b ≡ m)

abbrev pub IsFor : List Binding → Task → Type 0
IsFor want (accept_tcp n m) = Any (Carries tcp m) want
IsFor want (pump_udp_out n m) = Any (Carries udp m) want
IsFor want pump_udp_in = Unit
IsFor want reaper = Unit

Carries-of_asked :
    (want : List Binding) (p : Proto) (local remote : ℕ) (s : Sock)
    → IsAsked want ((p, local), (s, remote))
    → Any (Carries p (record { local = local; remote = remote })) want
Carries-of_asked [] p local remote s none_asked = elim none_asked [ ]
Carries-of_asked (b ∷ bs) p local remote s (inl (key, same)) =
    inl (ap (λ k. k.0) key, rw (ap (λ k. k.1) key) rw same refl)
Carries-of_asked (b ∷ bs) p local remote s (inr rest) =
    inr (Carries-of_asked bs p local remote s rest)

module _ (want : List Binding) where
  abbrev IsGood : PortKey × (Sock × ℕ) → Type 0
  IsGood e = IsAsked want e × IsKind e

  tcp_tasks-IsFor :
      (l : Listeners)
      → All IsGood l
      → All (IsFor want) (map (λ (t : ℕ × PortMap). accept_tcp t.0 t.1) (tcp_listeners l))
  unfolding tcp_listeners
  tcp_tasks-IsFor [] h = tt
  tcp_tasks-IsFor (((p, local), (tcp_listener n, remote)) ∷ l) h = (
    Carries-of_asked want tcp local remote (tcp_listener n)
        (subst (λ q. IsAsked want ((q, local), (tcp_listener n, remote))) (sym h.0.1) h.0.0),
    tcp_tasks-IsFor l h.1,
  )
  tcp_tasks-IsFor (((p, local), (udp_socket n, remote)) ∷ l) h = tcp_tasks-IsFor l h.1

  pumps-IsFor :
      (l : Listeners)
      → All IsGood l
      → All (IsFor want) (map (λ (t : ℕ × PortMap). pump_udp_out t.0 t.1) (udp_listeners l))
  unfolding udp_listeners
  pumps-IsFor [] h = tt
  pumps-IsFor (((p, local), (udp_socket n, remote)) ∷ l) h = (
    Carries-of_asked want udp local remote (udp_socket n)
        (subst (λ q. IsAsked want ((q, local), (udp_socket n, remote))) (sym h.0.1) h.0.0),
    pumps-IsFor l h.1,
  )
  pumps-IsFor (((p, local), (tcp_listener n, remote)) ∷ l) h = pumps-IsFor l h.1

  udp_tasks-IsFor :
      (us : List (ℕ × PortMap))
      → All (IsFor want) (map (λ (t : ℕ × PortMap). pump_udp_out t.0 t.1) us)
      → All (IsFor want) (udp_tasks us)
  unfolding udp_tasks
  udp_tasks-IsFor [] h = tt
  udp_tasks-IsFor (u ∷ us) h =
      All-append (IsFor want) (map (λ (t : ℕ × PortMap). pump_udp_out t.0 t.1) (u ∷ us))
        (pump_udp_in ∷ reaper ∷ []) h (tt, (tt, tt))

  pub spawn_forwarders-IsFor :
      (l : Listeners) → All IsGood l → All (IsFor want) (spawn_forwarders l)
  unfolding spawn_forwarders
  spawn_forwarders-IsFor l h =
      All-append (IsFor want) _ _ (tcp_tasks-IsFor l h)
        (udp_tasks-IsFor (udp_listeners l) (pumps-IsFor l h))

-- The task that carries a given binding.
abbrev pub IsOf : Binding → Task → Type 0
IsOf b (accept_tcp n m) = Carries tcp m b
IsOf b (pump_udp_out n m) = Carries udp m b
IsOf b pump_udp_in = ⊥
IsOf b reaper = ⊥

abbrev acceptors : Listeners → List Task
acceptors l = map (λ (t : ℕ × PortMap). accept_tcp t.0 t.1) (tcp_listeners l)

abbrev pumps : Listeners → List Task
pumps l = map (λ (t : ℕ × PortMap). pump_udp_out t.0 t.1) (udp_listeners l)

module _ (b : Binding) where
  binding_map-of_ports :
      (local remote : ℕ)
      → local ≡ b.local
      → remote ≡ b.remote
      → binding_map b ≡ record { local = local; remote = remote }
  binding_map-of_ports local remote here far = rw here rw far refl

  listener-IsOf :
      (l : Listeners) (s : Sock)
      → All IsKind l
      → get port_key_eq l (binding_key b) ≡ some (s, b.remote)
      → Any (IsOf b) (acceptors l) ⊎ Any (IsOf b) (pumps l)
  unfolding get tcp_listeners udp_listeners
  listener-IsOf [] s kinds found = absurd (cc)
  listener-IsOf (((p, local), (tcp_listener n, remote)) ∷ l) s kinds found =
      elim (port_key_eq (p, local) (binding_key b)) [
        | yes e ↦ inl (
            inl (
              sym (ap (λ k. k.0) e) ∙ sym kinds.0,
              (let same : ◌≡◌ {A = Sock × ℕ} (tcp_listener n, remote) (s, b.remote) =
                    ground arith in
                  binding_map-of_ports local remote (ap (λ k. k.1) e) (ap (λ q. q.1) same)),
            ))
        | no d ↦ elim (listener-IsOf l s kinds.1 (ground arith)) [
          | inl h ↦ inl (inr h)
          | inr h ↦ inr h
        ]
      ]
  listener-IsOf (((p, local), (udp_socket n, remote)) ∷ l) s kinds found =
      elim (port_key_eq (p, local) (binding_key b)) [
        | yes e ↦ inr (
            inl (
              sym (ap (λ k. k.0) e) ∙ sym kinds.0,
              (let same : ◌≡◌ {A = Sock × ℕ} (udp_socket n, remote) (s, b.remote) = ground arith in
                  binding_map-of_ports local remote (ap (λ k. k.1) e) (ap (λ q. q.1) same)),
            ))
        | no d ↦ elim (listener-IsOf l s kinds.1 (ground arith)) [
          | inl h ↦ inl h
          | inr h ↦ inr (inr h)
        ]
      ]

  udp_tasks-IsOf :
      (us : List (ℕ × PortMap))
      → Any (IsOf b) (map (λ (t : ℕ × PortMap). pump_udp_out t.0 t.1) us)
      → Any (IsOf b) (udp_tasks us)
  unfolding udp_tasks
  udp_tasks-IsOf [] h = elim h [ ]
  udp_tasks-IsOf (u ∷ us) h =
      Any-append-left (IsOf b) (map (λ (t : ℕ × PortMap). pump_udp_out t.0 t.1) (u ∷ us))
        (pump_udp_in ∷ reaper ∷ []) h

  pub spawn_forwarders-IsOf :
      (l : Listeners) (s : Sock)
      → All IsKind l
      → get port_key_eq l (binding_key b) ≡ some (s, b.remote)
      → Any (IsOf b) (spawn_forwarders l)
  unfolding spawn_forwarders
  spawn_forwarders-IsOf l s kinds found = elim (listener-IsOf l s kinds found) [
    | inl h ↦ Any-append-left (IsOf b) (acceptors l) (udp_tasks (udp_listeners l)) h
    | inr h ↦
        Any-append-right (IsOf b) (acceptors l) (udp_tasks (udp_listeners l))
          (udp_tasks-IsOf (udp_listeners l) h)
  ]
