-- ===== src/Examples/Samples.antt =====
-- Sample data. Ids are numbers; the toml crate is a table with one entry.
use rust_tunnel.Base.{
  ℕ, zero, suc, ◌+◌, ite, Option, List, Text, true, false, none, some, [], ◌∷◌, arith, ℕ_discrete,
  codes, ◌≡◌, refl, sym, ap, ◌∙◌, ◌++◌,
}
use rust_tunnel.Config.Types.{tcp, udp, Offer, Peer, Binding, Config}
use rust_tunnel.Config.Persist.{Disk, Os, Toml, RoundTrips, banner}

abbrev pub ssh : Offer
ssh = record { proto = tcp; port = 22; name = codes "ssh"; enabled = true }

abbrev pub dns : Offer
dns = record { proto = udp; port = 53; name = []; enabled = true }

abbrev pub laptop : Peer ℕ
laptop = record { id = 7; name = codes "laptop"; enabled = true; offers = dns ∷ [] }

abbrev pub parked : Peer ℕ
parked = record { id = 8; name = []; enabled = false; offers = [] }

abbrev pub forward : Binding
forward = record { proto = tcp; local = 2222; remote = 22; name = []; enabled = true }

abbrev pub sample : Config ℕ
sample = record {
  serve = record { shared = ssh ∷ []; peers = laptop ∷ parked ∷ [] };
  connect = record { bindings = forward ∷ [] };
}

unfoldable pub Config-discrete : Discrete (Config ℕ)
Config-discrete = hlevel ℕ_discrete

-- Prints the sample, and parses any text as the sample.
abbrev pub sample_toml : Toml ℕ
sample_toml = record {
  print = λ c. elim (Config-discrete c sample) [ yes e ↦ some (codes "sample") | no d ↦ none ];
  parse = λ t. some sample;
}

pub sample_toml-RoundTrips : RoundTrips sample_toml
sample_toml-RoundTrips = record { parse-print = λ c t h. ground arith }

-- Prints a configuration of the list as its place there, behind whatever was written first.
unfoldable pub place_of : Config ℕ → List (Config ℕ) → ℕ → Option Text
unfolding Config-discrete
place_of c [] i = none
place_of c (d ∷ ds) i = ite (Config-discrete c d) (some (i ∷ [])) (place_of c ds (i + 1))

unfoldable pub at_place : List (Config ℕ) → ℕ → Option (Config ℕ)
at_place [] i = none
at_place (c ∷ cs) zero = some c
at_place (c ∷ cs) (suc i) = at_place cs i

unfoldable pub read_place : List (Config ℕ) → Text → Option (Config ℕ)
read_place cs [] = none
read_place cs (i ∷ []) = at_place cs i
read_place cs (i ∷ j ∷ t) = read_place cs (j ∷ t)

abbrev pub table_toml : List (Config ℕ) → Toml ℕ
table_toml cs = record { print = λ c. place_of c cs 0; parse = read_place cs }

place_of-at_place :
    (c : Config ℕ) (cs : List (Config ℕ)) (i : ℕ) (t : Text)
    → place_of c cs i ≡ some t
    → (j : ℕ) × (t ≡ (i + j) ∷ []) × (at_place cs j ≡ some c)
unfolding place_of at_place
place_of-at_place c [] i t e = absurd (cc)
place_of-at_place c (d ∷ ds) i t e = elim (Config-discrete c d) [
  | yes same ↦ (0, ground arith, ap some (sym same))
  | no differs ↦
      let (j, text, there) = place_of-at_place c ds (i + 1) t (ground arith) in
      (suc j, text ∙ ap (λ n. n ∷ []) (omega arith), there)
]

read_place-banner :
    (cs : List (Config ℕ)) (i : ℕ) → read_place cs (banner ++ i ∷ []) ≡ at_place cs i
unfolding read_place banner
read_place-banner cs i = refl

pub table_toml-RoundTrips : (cs : List (Config ℕ)) → RoundTrips (table_toml cs)
table_toml-RoundTrips cs = record {
  parse-print = λ c t printed.
      let (j, text, there) = place_of-at_place c cs 0 t printed in
      let short : t ≡ j ∷ [] = text ∙ ap (λ n. n ∷ []) (omega arith) in
      rw short (read_place-banner cs j ∙ there);
}

-- An operating system on which every call succeeds.
abbrev pub healthy : Os
healthy = record {
  read_fails = false;
  has_parent = true;
  create_dir_fails = false;
  partial_write = none;
  rename_fails = false;
}

abbrev pub full_disk : Os
full_disk = record healthy { partial_write = some (codes "# rt") }

abbrev pub empty_disk : Disk
empty_disk = record { file = none; temp = none }

abbrev pub written_disk : Disk
written_disk = record { file = some (codes "sample"); temp = none }
