-- ===== src/Examples/Config.antt =====
-- The configuration at concrete inputs.
use rust_tunnel.Base.{
  ◌≢◌, ℕ, ◌≡◌, refl, ◌↔◌, ◌⊎◌, ◌++◌, true, false, some, none, List, [], ◌∷◌, ℕ_discrete, get,
  insert, remove, Text, codes,
}
use rust_tunnel.Errors.{ok, err, io, Error}
use rust_tunnel.Config.Types.{udp, port_key_eq}
use rust_tunnel.Config.Validate.{
  check_name, check_port, validate_offer, validate_binding, validate_offers, dedupe_offers_from,
  dedupe_offers, validate_peer, validate_bindings_from, validate_peers_from, validate,
}
use rust_tunnel.Config.Validate.Exact.{IsValid, validate_iff}
use rust_tunnel.Config.Grants.{may_reach}
use rust_tunnel.Config.Grants.Reach.{CanReach, may_reach_iff}
use rust_tunnel.Config.Persist.{save, banner}
use rust_tunnel.Config.Persist.Atomic.{save_atomic}
use rust_tunnel.Config.Token.{
  TokenOs, token_eq, load_or_create_token, stored_token, trim, trim_start, trim_end,
}
use rust_tunnel.Config.Token.Compare.{token_eq_iff}
use rust_tunnel.Config.Token.Stable.{truncated_token}
use rust_tunnel.Examples.Samples.{
  sample, Config-discrete, sample_toml, healthy, full_disk, empty_disk, written_disk,
}

pub sample_accepted : validate ℕ_discrete sample ≡ ok tt
unfolding check_name check_port validate_offer validate_binding validate_offers dedupe_offers_from
    dedupe_offers validate_peer validate_bindings_from validate_peers_from validate get insert
    remove port_key_eq ℕ_discrete
sample_accepted = refl

pub sample-IsValid : IsValid sample
sample-IsValid = (validate_iff ℕ_discrete sample).0 sample_accepted

validate_iff_example : (validate ℕ_discrete sample ≡ ok tt) ↔ IsValid sample
validate_iff_example = validate_iff ℕ_discrete sample

may_reach_iff_example :
    (may_reach ℕ_discrete sample 7 udp 53 ≡ true) ↔ CanReach ℕ_discrete sample 7 udp 53
may_reach_iff_example = may_reach_iff ℕ_discrete sample 7 udp 53 sample-IsValid.peers_distinct

save_atomic_example :
    ((e : Error) × ((save ℕ_discrete sample_toml full_disk sample written_disk).0 ≡ err e)
      × ((save ℕ_discrete sample_toml full_disk sample written_disk).1.file ≡ written_disk.file))
    ⊎ ((t : Text) × ((save ℕ_discrete sample_toml full_disk sample written_disk).0 ≡ ok tt)
        × (validate ℕ_discrete sample ≡ ok tt)
        × (sample_toml.print sample ≡ some t)
        × ((save ℕ_discrete sample_toml full_disk sample written_disk).1.file ≡ some (banner ++ t)))
save_atomic_example = save_atomic ℕ_discrete sample_toml full_disk sample written_disk

pub sample_saved : (save ℕ_discrete sample_toml healthy sample empty_disk).0 ≡ ok tt
unfolding save Config-discrete ℕ_discrete
sample_saved = rw sample_accepted

token_eq_iff_example :
    (token_eq (1 ∷ 2 ∷ []) (1 ∷ 3 ∷ []) ≡ true) ↔ (◌≡◌ {A = List ℕ} (1 ∷ 2 ∷ []) (1 ∷ 3 ∷ []))
token_eq_iff_example = token_eq_iff (1 ∷ 2 ∷ []) (1 ∷ 3 ∷ [])

abbrev pub token_os : TokenOs
token_os = record { create_dir_fails = false; open_fails = false; partial_write = none }

abbrev pub token_bytes : List ℕ
token_bytes =
    0 ∷ 17 ∷ 34 ∷ 51 ∷ 68 ∷ 85 ∷ 102 ∷ 119 ∷ 136 ∷ 153 ∷ 170 ∷ 187 ∷ 204 ∷ 221 ∷ 238 ∷ 255 ∷ []

-- The disk is full after four characters.
abbrev broken_os : TokenOs
broken_os = record token_os { partial_write = some (codes "0011") }

blank_file : stored_token none ≡ none
unfolding stored_token
blank_file = refl

four_left : trim (codes "0011") ≢ []
unfolding trim trim_start trim_end
four_left e = absurd (cc)

truncated_token_example :
    (load_or_create_token broken_os token_bytes none ≡ (err io, some (codes "0011")))
    × (load_or_create_token token_os [] (some (codes "0011"))
        ≡ (ok (trim (codes "0011")), some (codes "0011")))
truncated_token_example =
    truncated_token broken_os token_os token_bytes [] none (codes "0011") blank_file refl refl refl
      four_left
