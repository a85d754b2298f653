-- ===== src/Examples/Bindings.antt =====
-- A binding that is added to the sample while it is connected, and one that is removed.
use rust_tunnel.Base.{
  ℕ, ◌≡◌, refl, true, false, none, some, List, [], ◌∷◌, ◌++◌, ◌⊎◌, All, Any, codes, get, insert,
  remove, update_first, ℕ_discrete,
}
use rust_tunnel.Errors.{ok}
use rust_tunnel.Config.Types.{tcp, port_key_eq, Binding, Config}
use rust_tunnel.Config.Grants.{active_bindings}
use rust_tunnel.Config.Persist.{banner, save}
use rust_tunnel.Config.Validate.{
  validate, validate_peers_from, validate_peer, validate_offers, validate_offer, check_name,
  check_port, dedupe_offers, dedupe_offers_from, validate_bindings_from, validate_binding,
}
use rust_tunnel.State.{Shared, mutate, set_bind, clear_bind}
use rust_tunnel.Admin.Edits.{with_bindings, add_binding_edit, patch_binding_edit, del_binding_edit}
use rust_tunnel.Admin.Handlers.{
  Env, BindingAdd, BindingPatch, BindingRef, accepted, add_binding, patch_binding, del_binding,
}
use rust_tunnel.Connect.Listeners.{
  reconcile, bind_all, bind_wanted, drop_stale, drop_one, stale_keys, wants, tcp_listeners,
  udp_listeners,
}
use rust_tunnel.Connect.Listeners.Answered.{HasFailed}
use rust_tunnel.Connect.Forward.{Task, accept_tcp, udp_tasks, spawn_forwarders}
use rust_tunnel.Connect.Forward.Purpose.{IsOf}
use rust_tunnel.Connect.Link.{Link, linked, connected, edited, Run, onward, publish, woken}
use rust_tunnel.Connect.Link.Edited.{
  Serves, Unbinds, new, removed, parked, binding_carried, binding_gone,
}
use rust_tunnel.Examples.Samples.{sample, forward, table_toml, place_of, healthy}
use rust_tunnel.Examples.State.{running}
use rust_tunnel.Examples.Config.{sample_accepted}
use rust_tunnel.Examples.Link.{generous, begun, held, ssh_tasks, begins, held_trace, held_phase}

abbrev web : BindingAdd
web = record { proto = tcp; local = 8080; remote = 80; name = codes "web" }

abbrev by_port : BindingRef
by_port = record { proto = tcp; local = 2222 }

abbrev web_binding : Binding
web_binding = record { proto = tcp; local = 8080; remote = 80; name = codes "web"; enabled = true }

abbrev with_web : Config ℕ
with_web = with_bindings sample (forward ∷ web_binding ∷ [])

abbrev only_web : Config ℕ
only_web = with_bindings sample (web_binding ∷ [])

-- The ssh binding switched off instead of removed.
abbrev ssh_parked : Config ℕ
ssh_parked = with_bindings sample (record forward { enabled = false } ∷ web_binding ∷ [])

abbrev env : Env ℕ
env = record {
  toml = table_toml (sample ∷ with_web ∷ only_web ∷ ssh_parked ∷ []);
  parse_key = λ t. none;
  admin_id = 1;
  token = codes "k3y";
}

abbrev after_add : Shared ℕ
after_add = record running {
  config = with_web;
  disk = record { file = some (banner ++ 1 ∷ []); temp = none };
}

abbrev after_del : Shared ℕ
after_del = record running {
  config = only_web;
  disk = record { file = some (banner ++ 2 ∷ []); temp = none };
}

web_added : add_binding ℕ_discrete env healthy web running ≡ (ok accepted, after_add)
unfolding add_binding mutate add_binding_edit validate validate_peers_from validate_peer
    validate_offers validate_offer check_name check_port dedupe_offers dedupe_offers_from
    validate_bindings_from validate_binding save place_of banner get insert remove port_key_eq
    ℕ_discrete
web_added = refl

ssh_removed : del_binding ℕ_discrete env healthy by_port after_add ≡ (ok accepted, after_del)
unfolding del_binding mutate del_binding_edit validate validate_peers_from validate_peer
    validate_offers validate_offer check_name check_port dedupe_offers dedupe_offers_from
    validate_bindings_from validate_binding save place_of banner get insert remove port_key_eq
    ℕ_discrete
ssh_removed = refl

abbrev parks : BindingPatch
parks = record { proto = tcp; local = 2222; remote = none; name = none; enabled = some false }

abbrev after_park : Shared ℕ
after_park = record running {
  config = ssh_parked;
  disk = record { file = some (banner ++ 3 ∷ []); temp = none };
}

parking : patch_binding ℕ_discrete env healthy parks after_add ≡ (ok accepted, after_park)
unfolding patch_binding mutate patch_binding_edit update_first validate validate_peers_from
    validate_peer validate_offers validate_offer check_name check_port dedupe_offers
    dedupe_offers_from validate_bindings_from validate_binding save place_of banner get insert
    remove port_key_eq ℕ_discrete
parking = refl

with_web_accepted : validate ℕ_discrete with_web ≡ ok tt
unfolding validate validate_peers_from validate_peer validate_offers validate_offer check_name
    check_port dedupe_offers dedupe_offers_from validate_bindings_from validate_binding get insert
    remove port_key_eq ℕ_discrete
with_web_accepted = refl

only_web_accepted : validate ℕ_discrete only_web ≡ ok tt
unfolding validate validate_peers_from validate_peer validate_offers validate_offer check_name
    check_port dedupe_offers dedupe_offers_from validate_bindings_from validate_binding get insert
    remove port_key_eq ℕ_discrete
only_web_accepted = refl

ssh_unbound : Unbinds ℕ_discrete env healthy after_add after_park tcp 2222
ssh_unbound = parked parks with_web_accepted refl parking

-- The loop with a configuration published, and woken for it.
abbrev published : Config ℕ → Link ℕ → Link ℕ
published c l = record l { shared = record (l.shared) { config = c }; pending = true }

abbrev settled : Config ℕ → List Task → Link ℕ → Link ℕ
settled c ts l = edited generous ts (published c l)

settled_trace :
    (c : Config ℕ) (ts : List Task) (l : Link ℕ)
    → validate ℕ_discrete c ≡ ok tt
    → l.phase ≡ linked ts
    → Run ℕ_discrete 7 begun l
    → Run ℕ_discrete 7 begun (settled c ts l)
settled_trace c ts l valid at run =
    onward (onward run (publish l (record (l.shared) { config = c }) valid refl))
      (woken (published c l) generous ts at refl)

abbrev with_both : Link ℕ
with_both = settled with_web ssh_tasks held

abbrev both_tasks : List Task
both_tasks =
    accept_tcp 3 (record { local = 8080; remote = 80 })
    ∷ accept_tcp 3 (record { local = 2222; remote = 22 })
    ∷ []

abbrev with_one : Link ℕ
with_one = settled only_web both_tasks with_both

abbrev web_tasks : List Task
web_tasks = accept_tcp 3 (record { local = 8080; remote = 80 }) ∷ []

both_quiet : with_both.pending ≡ false
unfolding edited
both_quiet = refl

one_quiet : with_one.pending ≡ false
unfolding edited
one_quiet = refl

both_phase : with_both.phase ≡ linked both_tasks
unfolding edited connected active_bindings reconcile bind_all bind_wanted drop_stale drop_one
    stale_keys wants spawn_forwarders tcp_listeners udp_listeners udp_tasks get insert remove
    port_key_eq ℕ_discrete
both_phase = refl

both_config : with_both.shared.config ≡ after_add.config
unfolding edited connected active_bindings reconcile bind_all bind_wanted drop_stale drop_one
    stale_keys wants set_bind clear_bind get insert remove port_key_eq ℕ_discrete
both_config = refl

one_phase : with_one.phase ≡ linked web_tasks
unfolding edited connected active_bindings reconcile bind_all bind_wanted drop_stale drop_one
    stale_keys wants spawn_forwarders tcp_listeners udp_listeners udp_tasks get insert remove
    port_key_eq ℕ_discrete
one_phase = refl

one_config : with_one.shared.config ≡ after_del.config
unfolding edited connected active_bindings reconcile bind_all bind_wanted drop_stale drop_one
    stale_keys wants set_bind clear_bind get insert remove port_key_eq ℕ_discrete
one_config = refl

both_trace : Run ℕ_discrete 7 begun with_both
both_trace = settled_trace with_web ssh_tasks held with_web_accepted held_phase held_trace

binding_carried_example : Any (IsOf web_binding) both_tasks ⊎ HasFailed with_both.shared web_binding
binding_carried_example =
    binding_carried ℕ_discrete env healthy 7 generous running running after_add begun with_both
      both_tasks web_binding sample_accepted begins both_trace both_quiet both_phase
      (new web web_added) both_config

binding_gone_example : All (λ t. ¬ Serves tcp 2222 t) web_tasks
binding_gone_example =
    binding_gone ℕ_discrete env healthy 7 generous running after_add after_del begun with_one
      web_tasks tcp 2222 sample_accepted begins
      (settled_trace only_web both_tasks with_both only_web_accepted both_phase both_trace)
      one_quiet one_phase (removed by_port ssh_removed) one_config
