-- ===== src/Examples/Command.antt =====
-- Both commands at concrete inputs, started twice.
use rust_tunnel.Base.{codes, ℕ, ◌≡◌, refl, true, none, some, [], ◌∷◌, arith, ℕ_discrete}
use rust_tunnel.Errors.{ok}
use rust_tunnel.Config.Types.{PortMap}
use rust_tunnel.Config.Validate.{validate}
use rust_tunnel.Config.Persist.{load, load_text}
use rust_tunnel.Config.Seed.{seed_from_flags, seed_bindings, push_missing}
use rust_tunnel.State.{new, serve, connect}
use rust_tunnel.Identity.{load_or_create_key, read_key, parse_key}
use rust_tunnel.Start.Address.{admin_addr}
use rust_tunnel.Start.Flags.{parse_u16, parse_digits}
use rust_tunnel.Config.Validate.{check_port}
use rust_tunnel.Config.Token.{load_or_create_token, stored_token, trim, trim_start, trim_end}
use rust_tunnel.Start.{load_seeded, start_serve, start_connect}
use rust_tunnel.Start.Command.{
  Home, Around, Running, bind_endpoint, start_admin, maybe_admin, launch, run_serve, run_connect,
}
use rust_tunnel.Start.Command.Parts.{IsFine}
use rust_tunnel.Start.Command.Again.{resumed, run_serve_again, run_connect_again}
use rust_tunnel.Examples.Config.{sample_accepted, token_os, token_bytes}
use rust_tunnel.Examples.Identity.{number_keys, number_keys-KeysRoundTrip, good_os, zeros}
use rust_tunnel.Examples.Samples.{
  sample, sample_toml, sample_toml-RoundTrips, healthy, full_disk, written_disk,
}
use rust_tunnel.Examples.Start.{one_address}

abbrev home : Home
home = record { disk = written_disk; key = some (5 ∷ zeros 31); token = some (codes "abcd") }

abbrev first : Around ℕ
first = record {
  loading = healthy;
  saving = healthy;
  key_os = good_os;
  token_os = token_os;
  endpoint_binds = true;
  listener_binds = true;
  fresh = 6;
  random = token_bytes;
  now = 100;
}

abbrev second : Around ℕ
second = record first { saving = full_disk; fresh = 8; random = []; now = 200 }

second-IsFine : IsFine second
second-IsFine = record { config_reads = refl; key_reads = refl; endpoint = refl; listener = refl }

abbrev serving : Running ℕ ℕ ℕ
serving = record {
  shared = new sample written_disk serve 100;
  endpoint = 5;
  admin = some (record { addr = (1, 7000); token = codes "abcd" });
}

serving_started :
    (run_serve ℕ_discrete sample_toml number_keys one_address first
      (some (codes "7000"))
      (7 ∷ [])
      (22 ∷ [])
      []
      home).0
    ≡ ok serving
unfolding run_serve launch bind_endpoint maybe_admin start_admin admin_addr parse_u16 parse_digits
    check_port load_or_create_token stored_token trim trim_start trim_end load_or_create_key
    read_key parse_key start_serve load_seeded load load_text seed_from_flags push_missing
    ℕ_discrete
serving_started = ground (arith, sample_accepted)

run_serve_again_example :
    (validate ℕ_discrete serving.shared.config ≡ ok tt)
    × (run_serve ℕ_discrete sample_toml number_keys one_address second
          (some (codes "7000"))
          (7 ∷ [])
          (22 ∷ [])
          []
          (run_serve ℕ_discrete sample_toml number_keys one_address first
            (some (codes "7000"))
            (7 ∷ [])
            (22 ∷ [])
            []
            home).1
        ≡ (
          ok (
              resumed serve serving.shared.config serving second
                (run_serve ℕ_discrete sample_toml number_keys one_address first
                  (some (codes "7000"))
                  (7 ∷ [])
                  (22 ∷ [])
                  []
                  home).1),
          (run_serve ℕ_discrete sample_toml number_keys one_address first
              (some (codes "7000"))
              (7 ∷ [])
              (22 ∷ [])
              []
              home).1,
        ))
run_serve_again_example =
    run_serve_again ℕ_discrete sample_toml number_keys one_address first second
      (some (codes "7000")) (7 ∷ []) (22 ∷ []) [] home serving sample_toml-RoundTrips
      number_keys-KeysRoundTrip refl second-IsFine serving_started

abbrev ssh_map : PortMap
ssh_map = record { local = 2222; remote = 22 }

abbrev connecting : Running ℕ ℕ ℕ
connecting = record { shared = new sample written_disk connect 100; endpoint = 5; admin = none }

connecting_started :
    (run_connect ℕ_discrete sample_toml number_keys one_address first none (ssh_map ∷ []) [] home).0
    ≡ ok connecting
unfolding run_connect launch bind_endpoint maybe_admin load_or_create_key read_key parse_key
    start_connect load_seeded load load_text seed_bindings push_missing
connecting_started = ground (arith, sample_accepted)

run_connect_again_example :
    (validate ℕ_discrete connecting.shared.config ≡ ok tt)
    × (run_connect ℕ_discrete sample_toml number_keys one_address second none
          (ssh_map ∷ [])
          []
          (run_connect ℕ_discrete sample_toml number_keys one_address first none
            (ssh_map ∷ [])
            []
            home).1
        ≡ (
          ok (
              resumed connect connecting.shared.config connecting second
                (run_connect ℕ_discrete sample_toml number_keys one_address first none
                  (ssh_map ∷ [])
                  []
                  home).1),
          (run_connect ℕ_discrete sample_toml number_keys one_address first none
              (ssh_map ∷ [])
              []
              home).1,
        ))
run_connect_again_example =
    run_connect_again ℕ_discrete sample_toml number_keys one_address first second none
      (ssh_map ∷ []) [] home connecting sample_toml-RoundTrips number_keys-KeysRoundTrip refl
      second-IsFine connecting_started
