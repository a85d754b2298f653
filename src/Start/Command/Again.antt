-- ===== src/Start/Command/Again.antt =====
-- A whole command started again on the state directory that it left.
use rust_tunnel.Base.{◌≡◌, refl, sym, ap, ℕ, Option, is_some, List, inl, inr, arith, length, Text}
use rust_tunnel.Errors.{ok, Result-cases}
use rust_tunnel.Config.Types.{Config, PortMap}
use rust_tunnel.Config.Persist.{Toml, RoundTrips}
use rust_tunnel.Config.Validate.{validate}
use rust_tunnel.State.{Role, serve, connect, new}
use rust_tunnel.Identity.{Keys, KeysRoundTrip}
use rust_tunnel.Start.{start_serve, start_connect}
use rust_tunnel.Start.Again.{start_serve_again, start_connect_again}
use rust_tunnel.Start.Address.{Sockets}
use rust_tunnel.Start.Command.{
  Home, Around, Running, bind_endpoint, maybe_admin, launch, run_serve, run_connect,
}
use rust_tunnel.Start.Command.Parts.{
  IsFine, bind_endpoint-ok, bind_endpoint_again, maybe_admin-kept, maybe_admin_again,
}

module _ {Key Secret Ip : Type 0} where
  -- The data plane of the later start: the same configuration, key and admin panel.
  abbrev pub resumed :
      Role → Config Key → Running Key Secret Ip → Around Secret → Home → Running Key Secret Ip
  resumed role c r b h = record {
    shared = new c h.disk role b.now;
    endpoint = r.endpoint;
    admin = r.admin;
  }

module _ {Key Secret Ip : Type 0} (keys : Keys Secret) (sockets : Sockets Ip) where
  launch_again :
      (a b : Around Secret) (admin : Option Text) (role : Role) (c : Config Key) (h : Home)
      (r : Running Key Secret Ip)
      → KeysRoundTrip keys
      → length a.random ≡ 16
      → IsFine b
      → (launch keys sockets a admin role c h).0 ≡ ok r
      → (launch keys sockets b admin role c (launch keys sockets a admin role c h).1 ≡ (
        ok (resumed role c r b (launch keys sockets a admin role c h).1),
        (launch keys sockets a admin role c h).1,
      ))
        × ((launch keys sockets a admin role c h).1.disk ≡ h.disk)
        × (r.shared.config ≡ c)
  unfolding launch new
  launch_again a b admin role c h r round long fine got =
      let h1 = (bind_endpoint keys a h).1 in
      let h2 = (maybe_admin sockets a admin h1).1 in
      elim (Result-cases (bind_endpoint keys a h).0) [
        | inr (x, bad) ↦ absurd (ground arith)
        | inl (s, e) ↦ elim (Result-cases (maybe_admin sockets a admin h1).0) [
          | inr (x, bad) ↦ absurd (ground arith)
          | inl (p, f) ↦
              let (made, bound) = bind_endpoint-ok keys a h s e in
              let (disk, key) = maybe_admin-kept sockets a admin h1 p f in
              let end : (launch keys sockets a admin role c h).1 ≡ h2 = ground arith in
              let same : record { shared = new c h1.disk role a.now; endpoint = s; admin = p } ≡ r =
                ground arith in
              let first = bind_endpoint_again keys a b h h2 s round fine e key in
              let second = maybe_admin_again sockets a b admin h1 h2 p long fine f refl in
              (
                ground (arith, first, second),
                ground (arith, disk, bound),
                ap (λ x. x.shared.config) (sym same),
              )
        ]
      ]

module _ {Key Secret Ip : Type 0} (id_eq : Discrete Key) (toml : Toml Key) (keys : Keys Secret)
    (sockets : Sockets Ip) where
  -- If `rtun serve` comes to its data plane, it has a valid configuration, and the same command
  -- started again, when the toml crate and the keys round-trip, the token was minted from sixteen
  -- bytes, the files can be read and the network lets it bind, comes to it with the same
  -- configuration, key, admin address and token, and leaves the state directory as it is.
  pub run_serve_again :
      (a b : Around Secret) (admin : Option Text) (allow : List Key) (tcps udps : List ℕ) (h : Home)
      (r : Running Key Secret Ip)
      → RoundTrips toml
      → KeysRoundTrip keys
      → length a.random ≡ 16
      → IsFine b
      → (run_serve id_eq toml keys sockets a admin allow tcps udps h).0 ≡ ok r
      → (validate id_eq r.shared.config ≡ ok tt)
        × (run_serve id_eq toml keys sockets b admin allow tcps udps
              (run_serve id_eq toml keys sockets a admin allow tcps udps h).1
            ≡ (
              ok (
                  resumed serve r.shared.config r b
                    (run_serve id_eq toml keys sockets a admin allow tcps udps h).1),
              (run_serve id_eq toml keys sockets a admin allow tcps udps h).1,
            ))
  unfolding run_serve
  run_serve_again a b admin allow tcps udps h r trips round long fine got =
      elim (Result-cases
        (start_serve id_eq toml a.loading a.saving (is_some admin) allow tcps udps h.disk).0) [
          | inr (x, bad) ↦ absurd (ground arith)
          | inl (c, seeded) ↦
              let d =
                (start_serve id_eq toml a.loading a.saving (is_some admin) allow tcps udps
                  h.disk).1 in
              let (valid, settled) =
                start_serve_again id_eq toml a.loading a.saving b.loading b.saving (is_some admin)
                  allow tcps udps h.disk c trips fine.config_reads seeded in
              let (whole, disk, same) =
                launch_again keys sockets a b admin serve c (record h { disk = d }) r round long
                  fine (ground arith) in
              (rw same valid, rw same (ground (arith, settled, whole, disk)))
        ]

  -- If `rtun connect` comes to its data plane, it has a valid configuration, and the same command
  -- started again, when the toml crate and the keys round-trip, the token was minted from sixteen
  -- bytes, the files can be read and the network lets it bind, comes to it with the same
  -- configuration, key, admin address and token, and leaves the state directory as it is.
  pub run_connect_again :
      (a b : Around Secret) (admin : Option Text) (tcps udps : List PortMap) (h : Home)
      (r : Running Key Secret Ip)
      → RoundTrips toml
      → KeysRoundTrip keys
      → length a.random ≡ 16
      → IsFine b
      → (run_connect id_eq toml keys sockets a admin tcps udps h).0 ≡ ok r
      → (validate id_eq r.shared.config ≡ ok tt)
        × (run_connect id_eq toml keys sockets b admin tcps udps
              (run_connect id_eq toml keys sockets a admin tcps udps h).1
            ≡ (
              ok (
                  resumed connect r.shared.config r b
                    (run_connect id_eq toml keys sockets a admin tcps udps h).1),
              (run_connect id_eq toml keys sockets a admin tcps udps h).1,
            ))
  unfolding run_connect
  run_connect_again a b admin tcps udps h r trips round long fine got =
      elim (Result-cases
        (start_connect id_eq toml a.loading a.saving (is_some admin) tcps udps h.disk).0) [
          | inr (x, bad) ↦ absurd (ground arith)
          | inl (c, seeded) ↦
              let d =
                (start_connect id_eq toml a.loading a.saving (is_some admin) tcps udps h.disk).1 in
              let (valid, settled) =
                start_connect_again id_eq toml a.loading a.saving b.loading b.saving (is_some admin)
                  tcps udps h.disk c trips fine.config_reads seeded in
              let (whole, disk, same) =
                launch_again keys sockets a b admin connect c (record h { disk = d }) r round long
                  fine (ground arith) in
              (rw same valid, rw same (ground (arith, settled, whole, disk)))
        ]
