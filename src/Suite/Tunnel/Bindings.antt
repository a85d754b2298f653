-- ===== src/Suite/Tunnel/Bindings.antt =====
-- The end-to-end tests of bindings that change while the tunnel is up. A port is free again if the
-- connecting role holds no listener on it.
use rust_tunnel.Base.{
  ℕ, ◌≡◌, refl, Bool, true, false, not, ◌&&◌, ◌==◌, List, [], ◌∷◌, ◌++◌, Option, none, some,
  is_some, length, codes, get,
}
use rust_tunnel.Suite.Tunnel.{
  Offered, Live, mapped, bind, live_tunnel, round_trip, edit_connecting, over, came_back, client_id,
}
use rust_tunnel.Config.Types.{tcp, port_key_eq, Binding, Config}
use rust_tunnel.State.{BindState, listening, failed, bind_state}

-- A tunnel to one offered port.
abbrev to_port : ℕ → Offered
to_port remote = record { tcp_ports = remote ∷ []; udp_ports = [] }

abbrev with_bindings : (List Binding → List Binding) → Config ℕ → Config ℕ
with_bindings change c = record c { connect = record { bindings = change c.connect.bindings } }

-- An echo through the local port.
abbrev carries : ℕ → ℕ → List ℕ → Live → Bool
carries remote local payload live =
    came_back payload (round_trip (remote ∷ []) client_id live local payload)

abbrev is_free : ℕ → Live → Bool
is_free local live = not (is_some (get port_key_eq live.connecting.listeners (tcp, local)))

adding_a_binding_at_runtime_binds_and_forwards : ℕ → ℕ → ℕ → Bool
adding_a_binding_at_runtime_binds_and_forwards remote first_local later_local =
    let added = record (bind tcp (mapped later_local remote)) { name = codes "added live" } in
    over (live_tunnel (to_port remote) (mapped first_local remote ∷ []) []) (λ before.
      carries remote first_local (codes "one") before
      && is_free later_local before
      && over (edit_connecting (with_bindings (λ bs. bs ++ added ∷ [])) before) (λ after.
        carries remote later_local (codes "two") after
        && carries remote first_local (codes "three") after))

abbrev is_listening : Option BindState → Bool
is_listening none = false
is_listening (some listening) = true
is_listening (some (failed why)) = false

removing_a_binding_releases_the_local_port : ℕ → ℕ → Bool
removing_a_binding_releases_the_local_port remote local =
    over (live_tunnel (to_port remote) (mapped local remote ∷ []) []) (λ before.
      carries remote local (codes "hi") before
      && is_listening (bind_state before.connecting.shared (bind tcp (mapped local remote)))
      && over (edit_connecting (with_bindings (λ bs. [])) before) (is_free local))

-- `bindings[0].enabled = on`
abbrev switch_first : Bool → List Binding → List Binding
switch_first on [] = []
switch_first on (b ∷ bs) = record b { enabled = on } ∷ bs

a_binding_can_be_parked_and_restored : ℕ → ℕ → Bool
a_binding_can_be_parked_and_restored remote local =
    over (live_tunnel (to_port remote) (mapped local remote ∷ []) []) (λ before.
      carries remote local (codes "up") before
      && over (edit_connecting (with_bindings (switch_first false)) before) (λ parked.
        is_free local parked
        && length parked.connecting.shared.config.connect.bindings == 1
        && over (edit_connecting (with_bindings (switch_first true)) parked)
            (carries remote local (codes "again"))))

adding_test : adding_a_binding_at_runtime_binds_and_forwards 9000 7000 7001 ≡ true
unfolding adding_a_binding_at_runtime_binds_and_forwards live_tunnel round_trip edit_connecting
adding_test = refl

removing_test : removing_a_binding_releases_the_local_port 9000 7000 ≡ true
unfolding removing_a_binding_releases_the_local_port live_tunnel round_trip edit_connecting
    bind_state
removing_test = refl

parking_test : a_binding_can_be_parked_and_restored 9000 7000 ≡ true
unfolding a_binding_can_be_parked_and_restored live_tunnel round_trip edit_connecting
parking_test = refl
