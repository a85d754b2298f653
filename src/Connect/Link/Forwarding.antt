-- ===== src/Connect/Link/Forwarding.antt =====
-- The tasks of a connection against the configuration, in every state that `run` of connect.rs reaches.
use rust_tunnel.Connect.Retry.{backoff_start}
use rust_tunnel.Base.{
  All-both, ◌⊎◌, not, ◌&&◌, ◌≡◌, refl, sym, subst, ap, ◌∙◌, false, List, [], Bool-cases, inl, inr,
  arith, if◌then◌else◌, All, All-weaken, Any, Distinct, Distinct-filter, get, KeysDistinct,
}
use rust_tunnel.Errors.{ok}
use rust_tunnel.Config.Types.{port_key_eq, Binding, binding_key, Config}
use rust_tunnel.Config.Validate.{validate}
use rust_tunnel.Config.Validate.Exact.{IsValid, validate_iff}
use rust_tunnel.Config.Grants.{active_bindings}
use rust_tunnel.State.Facts.{peer_connected-config, peer_connected-binds}
use rust_tunnel.State.{Shared, peer_connected, peer_disconnected}
use rust_tunnel.Paths.{on_report, on_report-config, on_report-binds}
use rust_tunnel.Connect.Listeners.{Answer, Listeners, reconcile}
use rust_tunnel.Connect.Listeners.Reports.{reconcile-config}
use rust_tunnel.Connect.Listeners.Reconcile.{reconcile_unchanged}
use rust_tunnel.Connect.Listeners.Served.{
  IsKind, IsAsked, reconcile-KeysDistinct, reconcile-IsAsked,
}
use rust_tunnel.Connect.Forward.{Task, spawn_forwarders}
use rust_tunnel.Connect.Listeners.Answered.{HasFailed, IsAnswered, reconcile-IsAnswered}
use rust_tunnel.Connect.Forward.Purpose.{IsOf, spawn_forwarders-IsOf, IsFor, spawn_forwarders-IsFor}
use rust_tunnel.Connect.Link.{
  is_empty, Phase, dialing, linked, Link, begin, edited, edited_waiting, connected, ended, Step,
  publish, dialed, dial_failed, woken, closed, woken_waiting, retried, reported, Run, start, onward,
}

module _ {Key : Type 0} (id_eq : Discrete Key) where
  pub active_bindings-Distinct :
      (c : Config Key) → validate id_eq c ≡ ok tt → Distinct binding_key (active_bindings c)
  unfolding active_bindings
  active_bindings-Distinct c h =
      let v : IsValid c = (validate_iff id_eq c).0 h in
      Distinct-filter binding_key (λ (b : Binding). b.enabled) c.connect.bindings
        v.bindings_distinct

  -- What every state of the loop keeps. The listeners serve the configuration once the loop has been
  -- woken for it; the tasks of a connection are those of the listeners.
  pub record IsServed (l : Link Key) : Type 0 where
    pub valid : validate id_eq l.shared.config ≡ ok tt
    pub keys : KeysDistinct port_key_eq l.listeners
    pub kinds : All IsKind l.listeners
    pub asked : l.pending ≡ false → All (IsAsked (active_bindings l.shared.config)) l.listeners
    pub answered :
        l.pending ≡ false → All (IsAnswered l.listeners l.shared) (active_bindings l.shared.config)
    pub spawned : (ts : List Task) → l.phase ≡ linked ts → ts ≡ spawn_forwarders l.listeners

  -- What `reconcile` makes of it, whatever the phase is then.
  reconciled-IsServed :
      (os : Binding → Answer) (l : Listeners) (sh : Shared Key) (ph : Phase)
      → let w = reconcile os l (active_bindings sh.config) sh in
        validate id_eq sh.config ≡ ok tt
        → KeysDistinct port_key_eq l
        → All IsKind l
        → ((ts : List Task) → ph ≡ linked ts → ts ≡ spawn_forwarders w.bound)
        → IsServed (record { shared = w.shared; pending = false; listeners = w.bound; phase = ph })
  reconciled-IsServed os l sh ph valid keys kinds spawned =
      let want = active_bindings sh.config in
      let same = reconcile-config os l want sh in
      let distinct = active_bindings-Distinct sh.config valid in
      let good = reconcile-IsAsked os l want sh distinct keys kinds in
      record {
        valid = rw same valid;
        keys = reconcile-KeysDistinct os l want sh keys;
        kinds = All-weaken _ IsKind _ (λ e g. g.1) good;
        asked = λ quiet. rw same (All-weaken _ (IsAsked want) _ (λ e g. g.0) good);
        answered = λ quiet. rw same (reconcile-IsAnswered os l want sh distinct);
        spawned = spawned;
      }

  pub begin-IsServed :
      (os : Binding → Answer) (sh : Shared Key) (l : Link Key)
      → validate id_eq sh.config ≡ ok tt
      → begin os sh ≡ ok l
      → IsServed l
  unfolding begin
  begin-IsServed os sh l valid begun =
      let want = active_bindings sh.config in
      let w = reconcile os [] want sh in
      let made : ◌≡◌ {A = Link Key}
          (record {
            shared = w.shared;
            pending = false;
            listeners = w.bound;
            phase = dialing backoff_start;
          })
          l =
        elim (Bool-cases (not (is_empty want) && is_empty w.bound)) [
          | inl e ↦ absurd (ground arith)
          | inr e ↦ ground arith
        ] in
      subst IsServed made
        (reconciled-IsServed os [] sh (dialing backoff_start) valid tt tt (λ ts e. absurd (cc)))

  edited-spawned :
      (os : Binding → Answer) (tasks : List Task) (l : Link Key)
      → tasks ≡ spawn_forwarders l.listeners
      → let w = reconcile os l.listeners (active_bindings l.shared.config) l.shared in
        (if w.changed then spawn_forwarders w.bound else tasks) ≡ spawn_forwarders w.bound
  edited-spawned os tasks l had =
      let w = reconcile os l.listeners (active_bindings l.shared.config) l.shared in
      elim (Bool-cases w.changed) [
        | inl e ↦ rw e refl
        | inr e ↦ rw e (
            had
            ∙ ap spawn_forwarders (
                sym (
                  reconcile_unchanged os l.listeners (active_bindings l.shared.config) l.shared e)))
      ]

module _ {Key : Type 0} (id_eq : Discrete Key) (peer : Key) where
  IsAnswered-binds :
      (l : Listeners) (sh sh' : Shared Key) (b : Binding)
      → sh'.runtime.binds ≡ sh.runtime.binds
      → IsAnswered l sh b
      → IsAnswered l sh' b
  IsAnswered-binds l sh sh' b same (inl has) = inl has
  IsAnswered-binds l sh sh' b same (inr (why, told)) =
      inr (why, ap (λ bs. get port_key_eq bs (binding_key b)) same ∙ told)

  carried :
      (m : Link Key)
      → All IsKind m.listeners
      → (b : Binding) → IsAnswered m.listeners m.shared b
      → Any (IsOf b) (spawn_forwarders m.listeners) ⊎ HasFailed m.shared b
  carried m kinds b (inl (s, found)) = inl (spawn_forwarders-IsOf b m.listeners s kinds found)
  carried m kinds b (inr told) = inr told

  Step-IsServed : {l m : Link Key} → Step id_eq peer l m → IsServed id_eq l → IsServed id_eq m
  unfolding edited edited_waiting connected ended peer_connected peer_disconnected
  Step-IsServed (publish l sh valid same) h = record {
    valid = valid;
    keys = h.keys;
    kinds = h.kinds;
    asked = λ quiet. absurd (cc);
    answered = λ quiet. absurd (cc);
    spawned = h.spawned;
  }
  Step-IsServed (dialed l delay now at) h =
      let same = peer_connected-config id_eq l.shared peer now in
      record {
        valid = rw same h.valid;
        keys = h.keys;
        kinds = h.kinds;
        asked = λ quiet. rw same (h.asked quiet);
        answered = λ quiet. rw same (
            All-weaken _ (IsAnswered l.listeners (peer_connected id_eq l.shared peer now)) _
              (λ b.
                IsAnswered-binds l.listeners l.shared (peer_connected id_eq l.shared peer now) b
                  (peer_connected-binds id_eq l.shared peer now))
              (h.answered quiet));
        spawned = λ ts e. cc;
      }
  Step-IsServed (dial_failed l delay at) h = record {
    valid = h.valid;
    keys = h.keys;
    kinds = h.kinds;
    asked = h.asked;
    answered = h.answered;
    spawned = λ ts e. absurd (cc);
  }
  Step-IsServed (woken l os tasks at due) h =
      reconciled-IsServed id_eq os l.listeners l.shared _ h.valid h.keys h.kinds
        (λ ts e. let fresh = edited-spawned id_eq os tasks l (h.spawned tasks at) in cc)
  Step-IsServed (closed l tasks by_peer at) h = record {
    valid = h.valid;
    keys = h.keys;
    kinds = h.kinds;
    asked = h.asked;
    answered = h.answered;
    spawned = λ ts e. absurd (ground arith);
  }
  Step-IsServed (woken_waiting l os delay at due) h =
      reconciled-IsServed id_eq os l.listeners l.shared l.phase h.valid h.keys h.kinds
        (λ ts e. absurd (cc))
  Step-IsServed (retried l delay at) h = record {
    valid = h.valid;
    keys = h.keys;
    kinds = h.kinds;
    asked = h.asked;
    answered = h.answered;
    spawned = λ ts e. absurd (cc);
  }
  Step-IsServed (reported l r) h =
      let same = on_report-config id_eq l.shared peer r in
      record {
        valid = rw same h.valid;
        keys = h.keys;
        kinds = h.kinds;
        asked = λ quiet. rw same (h.asked quiet);
        answered = λ quiet. rw same (
            All-weaken _ (IsAnswered l.listeners (on_report id_eq l.shared peer r)) _
              (λ b.
                IsAnswered-binds l.listeners l.shared (on_report id_eq l.shared peer r) b
                  (on_report-binds id_eq l.shared peer r))
              (h.answered quiet));
        spawned = h.spawned;
      }

  pub Run-IsServed :
      (l : Link Key) {m : Link Key} → Run id_eq peer l m → IsServed id_eq l → IsServed id_eq m
  Run-IsServed l start h = h
  Run-IsServed l (onward run s) h = Step-IsServed s (Run-IsServed l run h)

  -- If the loop of `run` began with a valid configuration, then in every state that it comes to in
  -- which it holds a connection and has been woken for the last edit, each forwarder that was
  -- spawned carries an enabled binding of the configuration, with its protocol, local port and
  -- remote port, and for each enabled binding such a forwarder was spawned or it is reported as
  -- failed.
  pub tasks_lem :
      (os : Binding → Answer) (sh : Shared Key) (l m : Link Key) (ts : List Task)
      → validate id_eq sh.config ≡ ok tt
      → begin os sh ≡ ok l
      → Run id_eq peer l m
      → m.pending ≡ false
      → m.phase ≡ linked ts
      → All (IsFor (active_bindings m.shared.config)) ts
        × All (λ b. Any (IsOf b) ts ⊎ HasFailed m.shared b) (active_bindings m.shared.config)
  tasks_lem os sh l m ts valid begun run quiet at =
      let want = active_bindings m.shared.config in
      let h = Run-IsServed l run (begin-IsServed id_eq os sh l valid begun) in
      let good = All-both (IsAsked want) IsKind m.listeners (h.asked quiet) h.kinds in
      rw (h.spawned ts at) (
        spawn_forwarders-IsFor want m.listeners good,
        All-weaken _ (λ b. Any (IsOf b) (spawn_forwarders m.listeners) ⊎ HasFailed m.shared b) want
            (λ b. carried m h.kinds b) (h.answered quiet),
      )
