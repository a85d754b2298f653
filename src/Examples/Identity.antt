-- ===== src/Examples/Identity.antt =====
-- The key file at concrete inputs. A secret is a number; it is written as itself before 31 zeros.
use rust_tunnel.Base.{ℕ, zero, suc, ◌≡◌, refl, false, none, List, [], ◌∷◌, ℕ_discrete}
use rust_tunnel.Identity.{Keys, KeysRoundTrip, KeyOs, read_key, parse_key, create_new, write_all}
use rust_tunnel.Identity.Turns.{World, starting, has_key, advance, turn, Turns, start, turned}
use rust_tunnel.Identity.Turns.Agreed.{Holds, Turns-same_key}

abbrev pub zeros : ℕ → List ℕ
zeros zero = []
zeros (suc n) = 0 ∷ zeros n

abbrev first_byte : List ℕ → ℕ
first_byte [] = 0
first_byte (b ∷ bs) = b

abbrev pub number_keys : Keys ℕ
number_keys = record { from_bytes = first_byte; to_bytes = λ k. k ∷ zeros 31 }

pub number_keys-KeysRoundTrip : KeysRoundTrip number_keys
number_keys-KeysRoundTrip = record { length-to_bytes = λ k. refl; from_bytes-to_bytes = λ k. refl }

abbrev pub good_os : KeyOs
good_os = record {
  read_fails = false;
  create_dir_fails = false;
  open_fails = false;
  partial_write = none;
}

-- Process 0 creates and writes the file, and process 1 reads it then.
abbrev world : World ℕ
world = record { file = none; stage = λ i. starting }

abbrev by : ℕ → ℕ → World ℕ → World ℕ
by fresh i w = advance number_keys good_os fresh i w

abbrev settled : World ℕ
settled = by 6 1 (by 5 0 (by 5 0 (by 5 0 world)))

settled_trace : Turns number_keys world settled
settled_trace =
    turned good_os 6 1 (turned good_os 5 0 (turned good_os 5 0 (turned good_os 5 0 start)))

first_key : settled.stage 0 ≡ has_key 5
unfolding advance turn read_key parse_key create_new write_all ℕ_discrete
first_key = refl

second_key : settled.stage 1 ≡ has_key 5
unfolding advance turn read_key parse_key create_new write_all ℕ_discrete
second_key = refl

Turns-same_key_example : (◌≡◌ {A = ℕ} 5 5) × Holds number_keys settled.file 5
Turns-same_key_example =
    Turns-same_key number_keys world settled 0 1 5 5 number_keys-KeysRoundTrip (λ i. refl)
      settled_trace first_key second_key
