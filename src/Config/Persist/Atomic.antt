-- ===== src/Config/Persist/Atomic.antt =====
-- Saves and loads of config.rs, for every answer of the operating system.
use rust_tunnel.Base.{Option-cases, ◌≡◌, ◌⊎◌, inl, inr, ◌++◌, some, false, arith, Text}
use rust_tunnel.Errors.{Result-cases, ok, err, Error, Result-cases}
use rust_tunnel.Config.Types.{Config}
use rust_tunnel.Config.Validate.{
  validate, validate_offers, dedupe_offers, dedupe_offers_from, validate_peers_from,
  validate_bindings_from,
}
use rust_tunnel.Config.Persist.{Disk, Os, banner, Toml, RoundTrips, load, save}

module _ {Key : Type 0} (id_eq : Discrete Key) (toml : Toml Key) where
  pub save_failed :
      (os : Os) (c : Config Key) (d : Disk) (e : Error)
      → (save id_eq toml os c d).0 ≡ err e
      → (save id_eq toml os c d).1.file ≡ d.file
  unfolding save
  save_failed os c d e h = ground arith

  pub save_done :
      (os : Os) (c : Config Key) (d : Disk)
      → (save id_eq toml os c d).0 ≡ ok tt
      → (t : Text) × (validate id_eq c ≡ ok tt)
        × (toml.print c ≡ some t)
        × ((save id_eq toml os c d).1.file ≡ some (banner ++ t))
  unfolding save
  save_done os c d h = elim (Option-cases (toml.print c)) [
    | inl e ↦ absurd (ground arith)
    | inr (t, e) ↦ (t, ground arith, e, ground arith)
  ]

  -- Whatever the operating system answers, a save that fails leaves the configuration file as it was,
  -- and one that succeeds leaves it with the whole new text of a configuration that is valid.
  pub save_atomic :
      (os : Os) (c : Config Key) (d : Disk)
      → ((e : Error) × ((save id_eq toml os c d).0 ≡ err e)
          × ((save id_eq toml os c d).1.file ≡ d.file))
        ⊎ ((t : Text) × ((save id_eq toml os c d).0 ≡ ok tt)
            × (validate id_eq c ≡ ok tt)
            × (toml.print c ≡ some t)
            × ((save id_eq toml os c d).1.file ≡ some (banner ++ t)))
  save_atomic os c d = elim (Result-cases (save id_eq toml os c d).0) [
    | inl (u, e) ↦
        let (t, valid, printed, written) = save_done os c d e in inr (t, e, valid, printed, written)
    | inr (x, e) ↦ inl (x, e, save_failed os c d x e)
  ]

  -- What a save wrote, the next start loads, given that the toml crate round-trips and the file can be
  -- read.
  pub load-save :
      (os os' : Os) (c : Config Key) (d : Disk)
      → RoundTrips toml
      → os'.read_fails ≡ false
      → (save id_eq toml os c d).0 ≡ ok tt
      → load id_eq toml os' (save id_eq toml os c d).1 ≡ ok c
  unfolding load
  load-save os os' c d r reads saved =
      let (t, valid, printed, written) = save_done os c d saved in
      ground (arith, valid, written, r.parse-print c t printed)

  -- `load` never returns a configuration that `validate` rejects.
  pub load-valid :
      (os : Os) (d : Disk) (c : Config Key) → load id_eq toml os d ≡ ok c → validate id_eq c ≡ ok tt
  unfolding load validate validate_offers dedupe_offers dedupe_offers_from validate_peers_from
      validate_bindings_from
  load-valid os d c h = ground arith
