-- ===== src/Examples/Removal.antt =====
-- A peer that is removed while it is connected.
use rust_tunnel.Base.{
  ℕ, ◌≡◌, ◌≢◌, arith, refl, true, false, none, some, [], ◌∷◌, ◌++◌, codes, get, insert, remove,
  update_first, ℕ_discrete,
}
use rust_tunnel.Errors.{ok}
use rust_tunnel.Config.Types.{Config, Proto, port_key_eq}
use rust_tunnel.Config.Token.{trim, trim_start, trim_end}
use rust_tunnel.Config.Validate.{
  validate, validate_peers_from, validate_peer, validate_offers, validate_offer, check_name,
  check_port, dedupe_offers, dedupe_offers_from, validate_bindings_from, validate_binding,
}
use rust_tunnel.Config.Persist.{banner, save}
use rust_tunnel.State.{Shared, mutate}
use rust_tunnel.Admin.Edits.{with_peers, parse_id, patch_peer_edit, del_peer_edit}
use rust_tunnel.Admin.Handlers.{Env, IdRef, PeerPatch, accepted, patch_peer, del_peer}
use rust_tunnel.Serve.Evict.{Link, watching}
use rust_tunnel.Config.Grants.{admits, peer, may_reach}
use rust_tunnel.Serve.Evict.{wake, woken}
use rust_tunnel.Serve.Evict.Races.{admitted}
use rust_tunnel.Serve.Streams.{Close, refused_peer}
use rust_tunnel.Serve.Server.{
  Conn, Server, put, unsubscribed, edit, Happens, watched, edited, Meanwhile, at_once, still_open,
}
use rust_tunnel.Serve.Server.Watched.{Guards, Meanwhile-IsEnforced}
use rust_tunnel.Serve.Server.Removed.{Revokes, removed, parked, revoked_closes}
use rust_tunnel.Examples.Samples.{
  sample, laptop, parked as parked_peer, table_toml, place_of, healthy,
}
use rust_tunnel.Examples.State.{running}
use rust_tunnel.Examples.Server.{quiet, new_conn}

abbrev only_parked : Config ℕ
only_parked = with_peers sample (parked_peer ∷ [])

-- The laptop switched off instead of removed.
abbrev all_parked : Config ℕ
all_parked = with_peers sample (record laptop { enabled = false } ∷ parked_peer ∷ [])

abbrev env : Env ℕ
env = record {
  toml = table_toml (sample ∷ only_parked ∷ all_parked ∷ []);
  parse_key = λ t. some 7;
  admin_id = 1;
  token = codes "k3y";
}

abbrev by_id : IdRef
by_id = record { id = codes "7" }

abbrev guarded : Link ℕ
guarded = record (unsubscribed sample) { watch = watching; pending = false }

abbrev guarded_conn : Conn ℕ
guarded_conn = record new_conn { watcher = guarded }

abbrev guarded_in : Server ℕ
guarded_in = record quiet { conns = put 0 (some guarded_conn) quiet.conns }

abbrev cut_off : Shared ℕ
cut_off = record running {
  config = only_parked;
  disk = record { file = some (banner ++ 1 ∷ []); temp = none };
}

laptop_removed : del_peer ℕ_discrete env healthy by_id guarded_in.shared ≡ (ok accepted, cut_off)
unfolding del_peer parse_id trim trim_start trim_end mutate del_peer_edit validate save place_of
    banner validate_peers_from ℕ_discrete validate_offers validate_offer check_port check_name
    dedupe_offers dedupe_offers_from get validate_peer validate_bindings_from validate_binding
laptop_removed = refl

-- The server with the laptop connected, and after its removal.
abbrev cut_in : Server ℕ
cut_in = edit cut_off guarded_in

abbrev woken_watcher : Link ℕ
woken_watcher = wake ℕ_discrete 7 (record guarded { config = only_parked; pending = true })

abbrev cut_conn : Conn ℕ
cut_conn = record guarded_conn { watcher = woken_watcher }

abbrev after : Server ℕ
after = record cut_in { conns = put 0 (some cut_conn) cut_in.conns }

guarded_at : guarded_in.conns 0 ≡ some guarded_conn
unfolding ℕ_discrete
guarded_at = refl

laptop_in_list : admits ℕ_discrete sample 7 ≡ true
unfolding admits peer ℕ_discrete
laptop_in_list = refl

cut_at :
    cut_in.conns 0
    ≡ some
        (record guarded_conn { watcher = record guarded { config = only_parked; pending = true } })
unfolding edit ℕ_discrete
cut_at = refl

after_at : after.conns 0 ≡ some cut_conn
unfolding ℕ_discrete
after_at = refl

cut_config : woken_watcher.config ≡ cut_in.shared.config
unfolding edit wake admits peer ℕ_discrete
cut_config = refl

cut_open : cut_in.conns 0 ≢ none
cut_open e = ground (arith, cut_at)

after_open : after.conns 0 ≢ none
after_open e = ground (arith, after_at)

wake_up : Happens ℕ_discrete cut_in after
wake_up = watched cut_in 0 _ woken_watcher cut_at (woken _ refl refl) cut_config

wakes : Meanwhile ℕ_discrete 0 cut_in after
wakes = still_open at_once wake_up after_open

edit_and_wake : Meanwhile ℕ_discrete 0 guarded_in after
edit_and_wake =
    still_open (still_open at_once (edited guarded_in cut_off refl) cut_open) wake_up after_open

Meanwhile-IsEnforced_example : Guards ℕ_discrete after.shared.config after.conns 0 7
Meanwhile-IsEnforced_example =
    Meanwhile-IsEnforced ℕ_discrete guarded_in after 0 guarded_conn guarded_at refl refl
      laptop_in_list edit_and_wake

laptop_held : Guards ℕ_discrete guarded_in.shared.config guarded_in.conns 0 7
laptop_held = (guarded_conn, guarded_at, refl, (refl, admitted refl laptop_in_list))

laptop_parsed : parse_id env.parse_key by_id.id ≡ ok 7
unfolding parse_id trim trim_start trim_end
laptop_parsed = refl

abbrev parks : PeerPatch
parks = record { id = codes "7"; name = none; enabled = some false }

abbrev switched_off : Shared ℕ
switched_off = record running {
  config = all_parked;
  disk = record { file = some (banner ++ 2 ∷ []); temp = none };
}

parking : patch_peer ℕ_discrete env healthy parks guarded_in.shared ≡ (ok accepted, switched_off)
unfolding patch_peer parse_id trim trim_start trim_end mutate patch_peer_edit update_first validate
    save place_of banner validate_peers_from ℕ_discrete validate_offers validate_offer check_port
    check_name dedupe_offers dedupe_offers_from get insert port_key_eq remove validate_peer
    validate_bindings_from validate_binding
parking = refl

laptop_parked : Revokes ℕ_discrete env healthy 7 running switched_off
laptop_parked = parked parks laptop_parsed refl parking

after_config : after.shared.config ≡ cut_off.config
unfolding edit
after_config = refl

after_quiet : cut_conn.watcher.pending ≡ false
unfolding wake admits peer ℕ_discrete
after_quiet = refl

revoked_closes_example :
    ((proto : Proto) (port : ℕ) → may_reach ℕ_discrete after.shared.config 7 proto port ≡ false)
    × ((c : Close) × (cut_conn.watcher.close ≡ some c) × (c.code ≡ refused_peer))
revoked_closes_example =
    revoked_closes ℕ_discrete env healthy guarded_in after cut_off 0 7 cut_conn laptop_held
      (removed by_id laptop_parsed laptop_removed) wakes after_config after_at after_quiet
