-- ===== src/Errors.antt =====
-- The errors of the program (`anyhow::Error`): one constructor for each message that the code makes,
-- with the ports that it prints. The ids and the texts of the operating system in a message are left
-- out. `in_context` is `Context::context`.
use mathlib.Core.Path.{◌≡◌, refl}
use rust_tunnel.Base.{◌⊎◌, inl, inr, ℕ, Option, none, some, Bool, true, false}
use rust_tunnel.Config.Types.{Proto}

-- The word by which a message names a port.
pub data PortWord : Type 0 where
  offered_port local_port remote_port admin_port : PortWord

pub data Context : Type 0 where
  shared_offers in_peer parsing in_file reading refusing_invalid creating serialising writing
        replacing persisting :
      Context

pub data Error : Type 0 where
  name_too_long name_has_control : Error
  port_out_of_range : PortWord → Error
  listed_twice bound_twice : Proto → ℕ → Error
  peer_listed_twice peer_already_listed peer_not_listed invalid_id : Error
  already_offered not_offered already_bound not_bound : Proto → ℕ → Error
  bad_toml no_parent no_state_dir bad_key bad_addr bad_proto io : Error
  -- main.rs: a command that would offer or bind nothing.
  no_peers no_bindings no_colon no_listener : Error
  bad_port : PortWord → Error
  in_context : Context → Error → Error

-- `anyhow::Result`
pub data Result {ℓ} (T : Type ℓ) : Type ℓ where
  err : Error → Result T
  ok : T → Result T

-- `r?`, with the rest of the block as the function.
infixl 5 ◌>>=◌
abbrev pub ◌>>=◌ {ℓ κ} : {T : Type ℓ} {U : Type κ} → Result T → (T → Result U) → Result U
err fault >>= rest = err fault
ok value >>= rest = rest value

-- The same for a check, which returns nothing.
infixl 5 ◌>>◌
abbrev pub ◌>>◌ {ℓ} : {U : Type ℓ} → Result (Unit {0}) → Result U → Result U
check >> rest = check >>= λ done. rest

-- `r.context(c)`
abbrev pub with_context {ℓ} : {A : Type ℓ} → Context → Result A → Result A
with_context c (ok a) = ok a
with_context c (err e) = err (in_context c e)

-- `opt.context(..)?` on an `Option`.
abbrev pub or_fail {ℓ} : {A : Type ℓ} → Error → Option A → Result A
or_fail e none = err e
or_fail e (some a) = ok a

abbrev pub is_ok {ℓ} : {A : Type ℓ} → Result A → Bool
is_ok (ok a) = true
is_ok (err e) = false

pub Result-cases {ℓ} :
    {A : Type ℓ} (r : Result A) → ((a : A) × (r ≡ ok a)) ⊎ ((e : Error) × (r ≡ err e))
Result-cases (ok a) = inl (a, refl)
Result-cases (err e) = inr (e, refl)
