-- ===== src/Connect/Link/Edited.antt =====
-- A binding that is added, patched or removed on the admin surface of a connecting side that is running.
use rust_tunnel.Base.{
  ◌≡◌, refl, sym, ap, subst, ◌∙◌, ℕ, true, false, List, find, some, ◌⊎◌, arith, All, Any, All-Any,
  All-weaken,
}
use rust_tunnel.Errors.{ok}
use rust_tunnel.Config.Types.{Proto, tcp, udp, PortMap, Binding}
use rust_tunnel.Config.Persist.{Os}
use rust_tunnel.Config.Validate.{validate}
use rust_tunnel.Config.Validate.Exact.{validate_iff}
use rust_tunnel.Config.Grants.{active_bindings}
use rust_tunnel.Config.Grants.Reach.{same_proto_iff}
use rust_tunnel.State.{Shared}
use rust_tunnel.Admin.Edits.{is_binding}
use rust_tunnel.Admin.Edits.Bindings.{
  added, added-last, patched_binding, patched-kept, parked-away, removed-away, All-filter-last,
}
use rust_tunnel.Admin.Handlers.{
  Env, BindingAdd, BindingPatch, BindingRef, accepted, add_binding, patch_binding, del_binding,
}
use rust_tunnel.Admin.Handlers.Accepted.{edit-accepted}
use rust_tunnel.Connect.Listeners.{Answer}
use rust_tunnel.Connect.Listeners.Answered.{HasFailed}
use rust_tunnel.Connect.Forward.{Task, accept_tcp, pump_udp_out, pump_udp_in, reaper}
use rust_tunnel.Connect.Forward.Purpose.{Carries, IsFor, IsOf}
use rust_tunnel.Connect.Link.{Link, linked, begin, Run}
use rust_tunnel.Connect.Link.Forwarding.{tasks_lem}

-- The task carries the local port of a protocol.
abbrev pub Serves : Proto → ℕ → Task → Type 0
Serves proto local (accept_tcp s m) = (proto ≡ tcp) × (m.local ≡ local)
Serves proto local (pump_udp_out s m) = (proto ≡ udp) × (m.local ≡ local)
Serves proto local pump_udp_in = ⊥
Serves proto local reaper = ⊥

carried-is_binding :
    (proto p : Proto) (local : ℕ) (m : PortMap) (b : Binding)
    → proto ≡ p
    → m.local ≡ local
    → Carries p m b
    → is_binding proto local b ≡ true
carried-is_binding proto p local m b kind port (of, maps) =
    let same = (same_proto_iff b.proto proto).1 (of ∙ sym kind) in
    let here : b.local ≡ local = ap (λ (x : PortMap). x.local) maps ∙ port in
    ground (arith, same, here)

-- Among bindings without the port, none is carried by a task that serves it.
not-Serves :
    (proto : Proto) (local : ℕ) (want : List Binding) (t : Task)
    → All (λ b. is_binding proto local b ≡ false) want
    → IsFor want t
    → ¬ Serves proto local t
not-Serves proto local want (accept_tcp s m) away mine serves =
    All-Any _ (Carries tcp m) want
      (λ b out carries.
        let is = carried-is_binding proto tcp local m b serves.0 serves.1 carries in cc)
      away mine
not-Serves proto local want (pump_udp_out s m) away mine serves =
    All-Any _ (Carries udp m) want
      (λ b out carries.
        let is = carried-is_binding proto udp local m b serves.0 serves.1 carries in cc)
      away mine
not-Serves proto local want pump_udp_in away mine serves = serves
not-Serves proto local want reaper away mine serves = serves

module _ {Key : Type 0} (id_eq : Discrete Key) (env : Env Key) (io : Os) where
  -- The admin surface accepts a new binding, or a patch of the first binding of a port that leaves it
  -- switched on.
  pub data Binds (before after : Shared Key) : Binding → Type 0 where
    new :
        (b : BindingAdd)
        → add_binding id_eq env io b before ≡ (ok accepted, after)
        → Binds before after (added b)
    patched :
        (b : BindingPatch) (x : Binding)
        → find (is_binding b.proto b.local) before.config.connect.bindings ≡ some x
        → (patched_binding b.remote b.name b.enabled x).enabled ≡ true
        → patch_binding id_eq env io b before ≡ (ok accepted, after)
        → Binds before after (patched_binding b.remote b.name b.enabled x)

  -- It accepts the removal of the binding of a port, or, in a valid configuration, a patch that
  -- switches it off.
  pub data Unbinds (before after : Shared Key) : Proto → ℕ → Type 0 where
    removed :
        (b : BindingRef)
        → del_binding id_eq env io b before ≡ (ok accepted, after)
        → Unbinds before after b.proto b.local
    parked :
        (b : BindingPatch)
        → validate id_eq before.config ≡ ok tt
        → b.enabled ≡ some false
        → patch_binding id_eq env io b before ≡ (ok accepted, after)
        → Unbinds before after b.proto b.local

  All-Binds :
      (before after : Shared Key) (b : Binding) (P : Binding → Type 0)
      → Binds before after b
      → All P (active_bindings after.config)
      → P b
  unfolding add_binding patch_binding
  All-Binds before after b P (new a done) every =
      All-filter-last P (λ x. x.enabled) before.config.connect.bindings (added a) refl
        (subst (All P)
          (added-last a before.config after.config (edit-accepted id_eq env io _ before after done))
          every)
  All-Binds before after b P (patched a x found on done) every =
      patched-kept a before.config after.config x P found on
        (edit-accepted id_eq env io _ before after done) every

  Unbinds-away :
      (before after : Shared Key) (proto : Proto) (local : ℕ)
      → Unbinds before after proto local
      → All (λ x. is_binding proto local x ≡ false) (active_bindings after.config)
  unfolding del_binding patch_binding
  Unbinds-away before after proto local (removed b done) =
      removed-away b before.config after.config (edit-accepted id_eq env io _ before after done)
  Unbinds-away before after proto local (parked b valid off done) =
      parked-away b before.config after.config
        ((validate_iff id_eq before.config).0 valid).bindings_distinct off
        (edit-accepted id_eq env io _ before after done)

  module _ (peer : Key) where
    -- Suppose the loop of `run` began with a valid configuration, holds a connection and has been
    -- woken for the last edit, and the configuration in force is the one with which the admin
    -- surface accepted a new binding, or a patch that leaves a binding switched on. Then a
    -- forwarder was spawned that carries that binding, with its protocol, local port and remote
    -- port as they are after the edit, or it is reported as failed.
    pub binding_carried :
        (os : Binding → Answer) (sh before after : Shared Key) (l m : Link Key) (ts : List Task)
        (b : Binding)
        → validate id_eq sh.config ≡ ok tt
        → begin os sh ≡ ok l
        → Run id_eq peer l m
        → m.pending ≡ false
        → m.phase ≡ linked ts
        → Binds before after b
        → m.shared.config ≡ after.config
        → Any (IsOf b) ts ⊎ HasFailed m.shared b
    binding_carried os sh before after l m ts b valid begun run quiet at binds in_force =
        let (each, every) = tasks_lem id_eq peer os sh l m ts valid begun run quiet at in
        let Served : Binding → Type 0 = λ x. Any (IsOf x) ts ⊎ HasFailed m.shared x in
        All-Binds before after b Served binds
          (subst (λ c. All Served (active_bindings c)) in_force every)

    -- Suppose the loop of `run` began with a valid configuration, holds a connection and has been
    -- woken for the last edit, and the configuration in force is the one with which the admin
    -- surface accepted the removal of a binding, or, in a valid configuration, a patch that
    -- switches a binding off. Then no forwarder serves its local port and protocol any more.
    pub binding_gone :
        (os : Binding → Answer) (sh before after : Shared Key) (l m : Link Key) (ts : List Task)
        (proto : Proto) (local : ℕ)
        → validate id_eq sh.config ≡ ok tt
        → begin os sh ≡ ok l
        → Run id_eq peer l m
        → m.pending ≡ false
        → m.phase ≡ linked ts
        → Unbinds before after proto local
        → m.shared.config ≡ after.config
        → All (λ t. ¬ Serves proto local t) ts
    binding_gone os sh before after l m ts proto local valid begun run quiet at unbinds in_force =
        let (each, every) = tasks_lem id_eq peer os sh l m ts valid begun run quiet at in
        let want = active_bindings m.shared.config in
        All-weaken (IsFor want) (λ t. ¬ Serves proto local t) ts
          (λ t mine.
            not-Serves proto local want t
              (subst (λ c. All (λ x. is_binding proto local x ≡ false) (active_bindings c))
                (sym in_force) (Unbinds-away before after proto local unbinds))
              mine)
          each
