-- ===== src/Examples/Edits.antt =====
-- Edits of the sample configuration.
use rust_tunnel.Base.{
  ◌⊎◌, arith, ℕ, ◌≡◌, refl, true, false, not, ◌&&◌, ◌||◌, ◌++◌, some, none, [], ◌∷◌, ℕ_discrete,
  Option, Text, codes, get, insert, remove, update_first,
}
use rust_tunnel.Errors.{ok, err, Error, Result}
use rust_tunnel.Config.Types.{tcp, udp, port_key_eq, Peer, Config}
use rust_tunnel.Config.Grants.{peer, admits, may_reach}
use rust_tunnel.Config.Persist.{Toml, banner, load, save}
use rust_tunnel.Config.Validate.{
  validate, validate_peers_from, validate_peer, validate_offers, validate_offer, check_name,
  check_port, dedupe_offers, dedupe_offers_from, validate_bindings_from, validate_binding,
}
use rust_tunnel.State.{Shared, mutate}
use rust_tunnel.State.Mutate.{IsSynced, mutate_lem}
use rust_tunnel.Admin.Edits.{
  add_peer_edit, del_peer_edit, add_offer_edit, del_offer_edit, patch_offer_edit, offers_of,
  parse_id, put_offers, with_peers,
}
use rust_tunnel.Admin.Edits.Offers.{same_offer}
use rust_tunnel.Admin.Edits.Table.{offered, same_row, row_of}
use rust_tunnel.Admin.Edits.Table.Cells.{hits}
use rust_tunnel.Admin.Handlers.{
  Env, OfferAdd, OfferRef, OfferPatch, accepted, add_offer, patch_offer, del_offer,
}
use rust_tunnel.Admin.Handlers.Accepted.{flagged, add_offer_lem, patch_offer_lem, del_offer_lem}
use rust_tunnel.Examples.Config.{sample_accepted}
use rust_tunnel.Examples.Samples.{
  sample, laptop, parked, dns, table_toml, table_toml-RoundTrips, place_of, read_place, at_place,
  healthy,
}
use rust_tunnel.Examples.State.{running}

abbrev tablet : Peer ℕ
tablet = record { id = 9; name = codes "tablet"; enabled = true; offers = [] }

abbrev with_tablet : Config ℕ
with_tablet = with_peers sample (laptop ∷ parked ∷ tablet ∷ [])

tablet_added : add_peer_edit ℕ_discrete 9 (codes "tablet") sample ≡ ok (tt, with_tablet)
unfolding add_peer_edit peer ℕ_discrete
tablet_added = refl

abbrev only_parked : Config ℕ
only_parked = with_peers sample (parked ∷ [])

laptop_removed : del_peer_edit ℕ_discrete 7 sample ≡ ok (tt, only_parked)
unfolding del_peer_edit ℕ_discrete
laptop_removed = refl

-- Every text is the laptop's id.
abbrev parse_laptop : Text → Option ℕ
parse_laptop t = some 7

abbrev with_web : Config ℕ
with_web = with_peers sample (
    record laptop {
      offers = dns ∷ record { proto = tcp; port = 80; name = []; enabled = true } ∷ [];
    }
    ∷ parked
    ∷ [])

web_added : add_offer_edit ℕ_discrete parse_laptop (some []) tcp 80 [] sample ≡ ok (tt, with_web)
unfolding add_offer_edit offers_of parse_id put_offers ℕ_discrete
web_added = refl

abbrev without_dns : Config ℕ
without_dns = with_peers sample (record laptop { offers = [] } ∷ parked ∷ [])

abbrev dns_off : Config ℕ
dns_off =
    with_peers sample (record laptop { offers = record dns { enabled = false } ∷ [] } ∷ parked ∷ [])

abbrev env : Env ℕ
env = record {
  toml = table_toml (sample ∷ with_web ∷ without_dns ∷ dns_off ∷ []);
  parse_key = parse_laptop;
  admin_id = 1;
  token = codes "k3y";
}

abbrev written : Config ℕ → ℕ → Shared ℕ
written c place = record running {
  config = c;
  disk = record { file = some (banner ++ place ∷ []); temp = none };
}

abbrev web_for_laptop : OfferAdd
web_for_laptop = record { peer = some []; proto = tcp; port = 80; name = [] }

abbrev laptop_dns : OfferRef
laptop_dns = record { peer = some []; proto = udp; port = 53 }

add_accepted :
    add_offer ℕ_discrete env healthy web_for_laptop running ≡ (ok accepted, written with_web 1)
unfolding add_offer mutate add_offer_edit offers_of parse_id put_offers validate validate_peers_from
    validate_peer validate_offers validate_offer check_name check_port dedupe_offers
    dedupe_offers_from validate_bindings_from validate_binding save place_of banner get insert
    remove port_key_eq ℕ_discrete
add_accepted = refl

del_accepted :
    del_offer ℕ_discrete env healthy laptop_dns running ≡ (ok accepted, written without_dns 2)
unfolding del_offer mutate del_offer_edit offers_of parse_id put_offers validate validate_peers_from
    validate_peer validate_offers validate_offer check_name check_port dedupe_offers
    dedupe_offers_from validate_bindings_from validate_binding save place_of banner get insert
    remove port_key_eq ℕ_discrete
del_accepted = refl

laptop_row : row_of ℕ_discrete parse_laptop (some []) ≡ ok (some 7)
unfolding parse_id
laptop_row = refl

add_offer_lem_example : may_reach ℕ_discrete with_web 7 tcp 80 ≡ (
    admits ℕ_discrete sample 7
    && (may_reach ℕ_discrete sample 7 tcp 80
        || (same_row ℕ_discrete (some 7) none || same_row ℕ_discrete (some 7) (some 7))
          && same_offer tcp 80 tcp 80))
add_offer_lem_example =
    add_offer_lem ℕ_discrete env healthy web_for_laptop running (written with_web 1) (some 7) 7 tcp
      80 laptop_row add_accepted

del_offer_lem_example : may_reach ℕ_discrete without_dns 7 udp 53 ≡ (
    admits ℕ_discrete sample 7
    && (offered ℕ_discrete sample none udp 53 && not (hits ℕ_discrete (some 7) udp 53 none udp 53)
        || offered ℕ_discrete sample (some 7) udp 53
          && not (hits ℕ_discrete (some 7) udp 53 (some 7) udp 53)))
del_offer_lem_example =
    del_offer_lem ℕ_discrete env healthy laptop_dns running (written without_dns 2) (some 7) 7 udp
      53 laptop_row del_accepted

abbrev dns_parked : OfferPatch
dns_parked = record { peer = some []; proto = udp; port = 53; name = none; enabled = some false }

patch_accepted :
    patch_offer ℕ_discrete env healthy dns_parked running ≡ (ok accepted, written dns_off 3)
unfolding patch_offer mutate patch_offer_edit update_first offers_of parse_id put_offers validate
    validate_peers_from validate_peer validate_offers validate_offer check_name check_port
    dedupe_offers dedupe_offers_from validate_bindings_from validate_binding save place_of banner
    get insert remove port_key_eq ℕ_discrete
patch_accepted = refl

patch_offer_lem_example : may_reach ℕ_discrete dns_off 7 udp 53 ≡ (
    admits ℕ_discrete sample 7
    && (flagged
          (some false)
          (offered ℕ_discrete sample none udp 53)
          (hits ℕ_discrete (some 7) udp 53 none udp 53)
        || flagged
            (some false)
            (offered ℕ_discrete sample (some 7) udp 53)
            (hits ℕ_discrete (some 7) udp 53 (some 7) udp 53)))
patch_offer_lem_example =
    patch_offer_lem ℕ_discrete env healthy dns_parked running (written dns_off 3) (some 7) 7 udp 53
      sample_accepted laptop_row patch_accepted

-- A peer is added to a configuration that a restart loads.
abbrev two_toml : Toml ℕ
two_toml = table_toml (sample ∷ with_tablet ∷ [])

started-IsSynced : IsSynced ℕ_discrete two_toml (written sample 0)
unfolding load read_place at_place banner
started-IsSynced = record {
  valid = sample_accepted;
  on_disk = λ os reads. ground (arith, sample_accepted);
}

abbrev add_tablet : Config ℕ → Result (Unit {0} × Config ℕ)
add_tablet = add_peer_edit ℕ_discrete 9 (codes "tablet")

abbrev after_tablet : Result (Unit {0}) × Shared ℕ
after_tablet = mutate ℕ_discrete two_toml healthy add_tablet (written sample 0)

tablet_saved : after_tablet ≡ (ok tt, written with_tablet 1)
unfolding mutate add_peer_edit peer validate validate_peers_from validate_peer validate_offers
    validate_offer check_name check_port dedupe_offers dedupe_offers_from validate_bindings_from
    validate_binding save place_of banner get insert remove port_key_eq ℕ_discrete
tablet_saved = refl

mutate_lem_example :
    IsSynced ℕ_discrete two_toml after_tablet.1
    × (after_tablet.1.runtime ≡ running.runtime)
    × (((out : Unit {0}) × (after_tablet.0 ≡ ok out)
          × (add_tablet sample ≡ ok (out, after_tablet.1.config)))
        ⊎ ((e : Error) × (after_tablet.0 ≡ err e)
            × (after_tablet.1.config ≡ sample)
            × (after_tablet.1.disk.file ≡ (written sample 0).disk.file)))
mutate_lem_example =
    mutate_lem ℕ_discrete two_toml healthy add_tablet (written sample 0)
      (table_toml-RoundTrips (sample ∷ with_tablet ∷ [])) started-IsSynced
