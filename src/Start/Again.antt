-- ===== src/Start/Again.antt =====
-- A command started again with the same flags.
use rust_tunnel.Base.{◌≡◌, subst, inl, inr, ℕ, Bool, false, List, arith, Bool-cases}
use rust_tunnel.Errors.{ok, Result-cases}
use rust_tunnel.Config.Types.{Config, PortMap}
use rust_tunnel.Config.Validate.{validate}
use rust_tunnel.Config.Persist.{Disk, Os, Toml, RoundTrips, load, save}
use rust_tunnel.Config.Persist.Atomic.{load-save, load-valid, save_done}
use rust_tunnel.Config.Seed.{seed_from_flags, seed_bindings}
use rust_tunnel.Config.Seed.Laws.{seed_from_flags_twice, seed_from_flags-extends}
use rust_tunnel.Config.Seed.Bindings.{seed_bindings_twice}
use rust_tunnel.Start.{load_seeded, start_serve, start_connect}

module _ {Key : Type 0} (id_eq : Discrete Key) (toml : Toml Key) where
  -- A seeding that has nothing to add the second time.
  abbrev IsSettled : (Config Key → Config Key × Bool) → Type 0
  IsSettled seed = (c : Config Key) → seed (seed c).0 ≡ ((seed c).0, false)

  load_again :
      (loading again : Os) (d : Disk) (c : Config Key)
      → again.read_fails ≡ false
      → load id_eq toml loading d ≡ ok c
      → load id_eq toml again d ≡ ok c
  unfolding load
  load_again loading again d c reads loaded = ground arith

  load_seeded_again :
      (loading saving again saving_again : Os) (seed : Config Key → Config Key × Bool) (d : Disk)
      (c : Config Key)
      → RoundTrips toml
      → IsSettled seed
      → again.read_fails ≡ false
      → (load_seeded id_eq toml loading saving seed d).0 ≡ ok c
      → (load_seeded id_eq toml again saving_again seed
          (load_seeded id_eq toml loading saving seed d).1)
        ≡ (ok c, (load_seeded id_eq toml loading saving seed d).1)
  unfolding load_seeded
  load_seeded_again loading saving again saving_again seed d c r settled reads started =
      elim (Result-cases (load id_eq toml loading d)) [
        | inl (c0, loaded) ↦ elim (Bool-cases (seed c0).1) [
          | inl changed ↦ elim (Result-cases (save id_eq toml saving (seed c0).0 d).0) [
            | inl (u, saved) ↦
                ground
                  (arith, load-save id_eq toml saving again (seed c0).0 d r reads saved, settled c0)
            | inr (x, refused) ↦ absurd (ground arith)
          ]
          | inr same ↦ ground (arith, load_again loading again d c0 reads loaded)
        ]
        | inr (x, refused) ↦ absurd (ground arith)
      ]

  load_seeded-valid :
      (loading saving : Os) (seed : Config Key → Config Key × Bool) (d : Disk) (c : Config Key)
      → ((c0 : Config Key) → (seed c0).1 ≡ false → (seed c0).0 ≡ c0)
      → (load_seeded id_eq toml loading saving seed d).0 ≡ ok c
      → validate id_eq c ≡ ok tt
  unfolding load_seeded
  load_seeded-valid loading saving seed d c lazy started =
      elim (Result-cases (load id_eq toml loading d)) [
        | inl (c0, loaded) ↦ elim (Bool-cases (seed c0).1) [
          | inl changed ↦ elim (Result-cases (save id_eq toml saving (seed c0).0 d).0) [
            | inl (u, saved) ↦
                let (t, valid, printed, written) =
                  save_done id_eq toml saving (seed c0).0 d saved in
                let same : (seed c0).0 ≡ c = ground arith in
                subst (λ x. validate id_eq x ≡ ok tt) same valid
            | inr (x, refused) ↦ absurd (ground arith)
          ]
          | inr same ↦
              let back : c0 ≡ c = ground (arith, lazy c0 same) in
              subst (λ x. validate id_eq x ≡ ok tt) back (load-valid id_eq toml loading d c0 loaded)
        ]
        | inr (x, refused) ↦ absurd (ground arith)
      ]

  -- If `rtun serve` starts with a configuration, that configuration is valid, and the same command
  -- started again, given that the toml crate round-trips and the file can be read, starts with the
  -- same configuration and leaves the disk as it is, whatever its saves would be answered.
  pub start_serve_again :
      (loading saving again saving_again : Os) (admin : Bool) (allow : List Key)
      (tcps udps : List ℕ) (d : Disk) (c : Config Key)
      → RoundTrips toml
      → again.read_fails ≡ false
      → (start_serve id_eq toml loading saving admin allow tcps udps d).0 ≡ ok c
      → (validate id_eq c ≡ ok tt)
        × (start_serve id_eq toml again saving_again admin allow tcps udps
              (start_serve id_eq toml loading saving admin allow tcps udps d).1
            ≡ (ok c, (start_serve id_eq toml loading saving admin allow tcps udps d).1))
  unfolding start_serve
  start_serve_again loading saving again saving_again admin allow tcps udps d c r reads started =
      let seed : Config Key → Config Key × Bool = λ x. seed_from_flags id_eq x allow tcps udps in
      elim (Result-cases (load_seeded id_eq toml loading saving seed d).0) [
        | inl (c1, seeded) ↦
            let settled =
              load_seeded_again loading saving again saving_again seed d c1 r
                (λ x. seed_from_flags_twice id_eq x allow tcps udps) reads seeded in
            let valid =
              load_seeded-valid loading saving seed d c1
                (λ x same.
                  let (os, ps, a, b, e, lazy) = seed_from_flags-extends id_eq x allow tcps udps in
                  lazy same)
                seeded in
            let same : c1 ≡ c = ground arith in
            (subst (λ x. validate id_eq x ≡ ok tt) same valid, ground (arith, settled))
        | inr (x, refused) ↦ absurd (ground arith)
      ]

  -- If `rtun connect` starts with a configuration, that configuration is valid, and the same
  -- command started again, given that the toml crate round-trips and the file can be read, starts
  -- with the same configuration and leaves the disk as it is, whatever its saves would be answered.
  pub start_connect_again :
      (loading saving again saving_again : Os) (admin : Bool) (tcps udps : List PortMap) (d : Disk)
      (c : Config Key)
      → RoundTrips toml
      → again.read_fails ≡ false
      → (start_connect id_eq toml loading saving admin tcps udps d).0 ≡ ok c
      → (validate id_eq c ≡ ok tt)
        × (start_connect id_eq toml again saving_again admin tcps udps
              (start_connect id_eq toml loading saving admin tcps udps d).1
            ≡ (ok c, (start_connect id_eq toml loading saving admin tcps udps d).1))
  unfolding start_connect
  start_connect_again loading saving again saving_again admin tcps udps d c r reads started =
      let seed : Config Key → Config Key × Bool = λ x. seed_bindings x tcps udps in
      elim (Result-cases (load_seeded id_eq toml loading saving seed d).0) [
        | inl (c1, seeded) ↦
            let settled =
              load_seeded_again loading saving again saving_again seed d c1 r
                (λ x. (seed_bindings_twice x tcps udps).0) reads seeded in
            let valid =
              load_seeded-valid loading saving seed d c1
                (λ x same.
                  let (settled, added, kept, lazy) = seed_bindings_twice x tcps udps in lazy same)
                seeded in
            let same : c1 ≡ c = ground arith in
            (subst (λ x. validate id_eq x ≡ ok tt) same valid, ground (arith, settled))
        | inr (x, refused) ↦ absurd (ground arith)
      ]
