-- ===== src/State/Mutate.antt =====
-- `Shared::mutate`: validate, persist, then publish.
use rust_tunnel.Base.{false, ◌∙◌, ◌≡◌, ap, ◌⊎◌, inl, inr, arith}
use rust_tunnel.Errors.{ok, err, Error, Result, Result-cases}
use rust_tunnel.Config.Types.{Config}
use rust_tunnel.Config.Validate.{validate}
use rust_tunnel.Config.Persist.{Disk, load, RoundTrips, Os, Toml, save}
use rust_tunnel.Config.Persist.Atomic.{load-save, save_failed}
use rust_tunnel.State.{Shared, mutate}

module _ {Key : Type 0} (id_eq : Discrete Key) (toml : Toml Key) {T : Type 0} where
  -- An edit that is refused: by the closure, by validation, or by the disk.
  pub mutate_failed :
      (os : Os) (f : Config Key → Result (T × Config Key)) (sh : Shared Key) (e : Error)
      → (mutate id_eq toml os f sh).0 ≡ err e
      → ((mutate id_eq toml os f sh).1.config ≡ sh.config)
        × ((mutate id_eq toml os f sh).1.disk.file ≡ sh.disk.file)
        × ((mutate id_eq toml os f sh).1.runtime ≡ sh.runtime)
  unfolding mutate
  mutate_failed os f sh e h = elim (Result-cases (f sh.config)) [
    | inl ((out, next), made) ↦ elim (Result-cases (save id_eq toml os next sh.disk).0) [
      | inl (u, saved) ↦ ground arith
      | inr (x, refused) ↦ (
        ground arith,
        ground (arith, save_failed id_eq toml os next sh.disk x refused),
        ground arith,
      )
    ]
    | inr (x, refused) ↦ ground arith
  ]

  pub mutate_done :
      (os : Os) (f : Config Key → Result (T × Config Key)) (sh : Shared Key) (out : T)
      → (mutate id_eq toml os f sh).0 ≡ ok out
      → (next : Config Key) × (f sh.config ≡ ok (out, next))
        × (validate id_eq next ≡ ok tt)
        × ((mutate id_eq toml os f sh).1
            ≡ record sh { config = next; disk = (save id_eq toml os next sh.disk).1 })
        × ((save id_eq toml os next sh.disk).0 ≡ ok tt)
  unfolding mutate
  mutate_done os f sh out h = elim (Result-cases (f sh.config)) [
    | inl (r, e) ↦ (r.1, ground arith, ground arith, ground arith, ground arith)
    | inr (x, e) ↦ absurd (ground arith)
  ]

module _ {Key : Type 0} (id_eq : Discrete Key) (toml : Toml Key) where
  -- What is running is valid, and is what a restart would load from the disk.
  pub record IsSynced (sh : Shared Key) : Type 0 where
    pub valid : validate id_eq sh.config ≡ ok tt
    pub on_disk : (os : Os) → os.read_fails ≡ false → load id_eq toml os sh.disk ≡ ok sh.config

  load_same_file :
      (os : Os) (d d' : Disk) → d'.file ≡ d.file → load id_eq toml os d' ≡ load id_eq toml os d
  unfolding load
  load_same_file os d d' e = rw e

  -- An edit keeps the running configuration valid and what a restart loads.
  pub mutate-IsSynced :
      {T : Type 0} (os : Os) (f : Config Key → Result (T × Config Key)) (sh : Shared Key)
      → RoundTrips toml
      → IsSynced sh
      → IsSynced (mutate id_eq toml os f sh).1
  mutate-IsSynced os f sh r v = elim (Result-cases (mutate id_eq toml os f sh).0) [
    | inl (out, done) ↦
        let (next, made, valid, after, saved) = mutate_done id_eq toml os f sh out done in
        rw after (record {
          valid = valid;
          on_disk = λ os' reads. load-save id_eq toml os os' next sh.disk r reads saved;
        })
    | inr (e, refused) ↦
        let (same, file, rest) = mutate_failed id_eq toml os f sh e refused in
        record {
          valid = rw same v.valid;
          on_disk = λ os' reads. rw same (load_same_file os' sh.disk _ file ∙ v.on_disk os' reads);
        }
  ]

  -- Given that the toml crate round-trips: from a state in which the running configuration is valid
  -- and is what a restart loads, an edit leads to such a state again, whatever the operating system
  -- answers, and leaves the runtime facts as they were. If it is accepted, the running
  -- configuration is the one that its closure made; if it is refused, the running configuration and
  -- the configuration file are as they were.
  pub mutate_lem :
      {T : Type 0} (os : Os) (f : Config Key → Result (T × Config Key)) (sh : Shared Key)
      → RoundTrips toml
      → IsSynced sh
      → IsSynced (mutate id_eq toml os f sh).1
        × ((mutate id_eq toml os f sh).1.runtime ≡ sh.runtime)
        × (((out : T) × ((mutate id_eq toml os f sh).0 ≡ ok out)
              × (f sh.config ≡ ok (out, (mutate id_eq toml os f sh).1.config)))
            ⊎ ((e : Error) × ((mutate id_eq toml os f sh).0 ≡ err e)
                × ((mutate id_eq toml os f sh).1.config ≡ sh.config)
                × ((mutate id_eq toml os f sh).1.disk.file ≡ sh.disk.file)))
  mutate_lem os f sh r v = elim (Result-cases (mutate id_eq toml os f sh).0) [
    | inl (out, done) ↦
        let (next, made, valid, after, saved) = mutate_done id_eq toml os f sh out done in
        (mutate-IsSynced os f sh r v, ap (λ x. x.runtime) after, inl (out, done, rw after made))
    | inr (e, refused) ↦
        let (same, file, rest) = mutate_failed id_eq toml os f sh e refused in
        (mutate-IsSynced os f sh r v, rest, inr (e, refused, same, file))
  ]
