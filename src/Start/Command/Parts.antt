-- ===== src/Start/Command/Parts.antt =====
-- The endpoint and the admin panel, taken up again on the files that they left.
use rust_tunnel.Base.{
  ◌≡◌, refl, ap, ◌∙◌, true, false, Option, none, some, inl, inr, Bool-cases, arith, length, Text,
}
use rust_tunnel.Errors.{ok, Result-cases}
use rust_tunnel.Config.Token.{load_or_create_token}
use rust_tunnel.Config.Token.Stable.{load_or_create_token_again}
use rust_tunnel.Identity.{Keys, KeysRoundTrip, load_or_create_key}
use rust_tunnel.Identity.Stable.{load_or_create_key_again}
use rust_tunnel.Start.Address.{Sockets, admin_addr}
use rust_tunnel.Start.Command.{Home, Around, Admin, bind_endpoint, start_admin, maybe_admin}

-- The files can be read, and the network lets the endpoint and the admin listener be bound.
pub record IsFine {Secret : Type 0} (a : Around Secret) : Type 0 where
  pub config_reads : a.loading.read_fails ≡ false
  pub key_reads : a.key_os.read_fails ≡ false
  pub endpoint : a.endpoint_binds ≡ true
  pub listener : a.listener_binds ≡ true

module _ {Secret : Type 0} (keys : Keys Secret) where
  pub bind_endpoint-ok :
      (a : Around Secret) (h : Home) (s : Secret)
      → (bind_endpoint keys a h).0 ≡ ok s
      → ((load_or_create_key keys a.key_os a.fresh h.key).0 ≡ ok s)
        × ((bind_endpoint keys a h).1
            ≡ record h { key = (load_or_create_key keys a.key_os a.fresh h.key).1 })
  unfolding bind_endpoint
  bind_endpoint-ok a h s got =
      elim (Result-cases (load_or_create_key keys a.key_os a.fresh h.key).0) [
        | inr (x, bad) ↦ absurd (ground arith)
        | inl (k, e) ↦ elim (Bool-cases a.endpoint_binds) [
          | inl b ↦ (ground arith, ground arith)
          | inr b ↦ absurd (ground arith)
        ]
      ]

  pub bind_endpoint_again :
      (a b : Around Secret) (h h' : Home) (s : Secret)
      → KeysRoundTrip keys
      → IsFine b
      → (bind_endpoint keys a h).0 ≡ ok s
      → h'.key ≡ (bind_endpoint keys a h).1.key
      → bind_endpoint keys b h' ≡ (ok s, h')
  unfolding bind_endpoint
  bind_endpoint_again a b h h' s r fine got same =
      let (made, after) = bind_endpoint-ok a h s got in
      let key : h'.key ≡ (load_or_create_key keys a.key_os a.fresh h.key).1 =
        same ∙ ap (λ x. x.key) after in
      let whole : load_or_create_key keys b.key_os b.fresh h'.key ≡ (ok s, h'.key) = rw key (
        load_or_create_key_again keys a.key_os b.key_os a.fresh b.fresh h.key s r fine.key_reads
          made) in
      ground (arith, whole, fine.endpoint)

module _ {Secret Ip : Type 0} (sockets : Sockets Ip) where
  start_admin-ok :
      (a : Around Secret) (spec : Text) (h : Home) (p : Admin Ip)
      → (start_admin sockets a spec h).0 ≡ ok p
      → (admin_addr sockets spec ≡ ok p.addr)
        × ((load_or_create_token a.token_os a.random h.token).0 ≡ ok p.token)
        × ((start_admin sockets a spec h).1
            ≡ record h { token = (load_or_create_token a.token_os a.random h.token).1 })
  unfolding start_admin
  start_admin-ok a spec h p got = elim (Result-cases (admin_addr sockets spec)) [
    | inr (x, bad) ↦ absurd (ground arith)
    | inl (at, e) ↦ elim (Result-cases (load_or_create_token a.token_os a.random h.token).0) [
      | inr (x, bad) ↦ absurd (ground arith)
      | inl (t, f) ↦ elim (Bool-cases a.listener_binds) [
        | inl b ↦ (ground arith, ground arith, ground arith)
        | inr b ↦ absurd (ground arith)
      ]
    ]
  ]

  start_admin_again :
      (a b : Around Secret) (spec : Text) (h h' : Home) (p : Admin Ip)
      → length a.random ≡ 16
      → IsFine b
      → (start_admin sockets a spec h).0 ≡ ok p
      → h'.token ≡ (start_admin sockets a spec h).1.token
      → start_admin sockets b spec h' ≡ (ok p, h')
  unfolding start_admin
  start_admin_again a b spec h h' p long fine got same =
      let (at, made, after) = start_admin-ok a spec h p got in
      let token : h'.token ≡ (load_or_create_token a.token_os a.random h.token).1 =
        same ∙ ap (λ x. x.token) after in
      let whole : load_or_create_token b.token_os b.random h'.token ≡ (ok p.token, h'.token) =
        rw token (
          load_or_create_token_again a.token_os b.token_os a.random b.random h.token p.token _ long
            (ground (arith, made))) in
      ground (arith, whole, fine.listener, at)

  pub maybe_admin-kept :
      (a : Around Secret) (admin : Option Text) (h : Home) (p : Option (Admin Ip))
      → (maybe_admin sockets a admin h).0 ≡ ok p
      → ((maybe_admin sockets a admin h).1.disk ≡ h.disk)
        × ((maybe_admin sockets a admin h).1.key ≡ h.key)
  unfolding maybe_admin
  maybe_admin-kept a none h p got = (refl, refl)
  maybe_admin-kept a (some spec) h p got = elim (Result-cases (start_admin sockets a spec h).0) [
    | inr (x, bad) ↦ absurd (ground arith)
    | inl (q, e) ↦
        let (at, made, after) = start_admin-ok a spec h q e in (ground arith, ground arith)
  ]

  pub maybe_admin_again :
      (a b : Around Secret) (admin : Option Text) (h h' : Home) (p : Option (Admin Ip))
      → length a.random ≡ 16
      → IsFine b
      → (maybe_admin sockets a admin h).0 ≡ ok p
      → h'.token ≡ (maybe_admin sockets a admin h).1.token
      → maybe_admin sockets b admin h' ≡ (ok p, h')
  unfolding maybe_admin
  maybe_admin_again a b none h h' p long fine got same = ground arith
  maybe_admin_again a b (some spec) h h' p long fine got same =
      elim (Result-cases (start_admin sockets a spec h).0) [
        | inr (x, bad) ↦ absurd (ground arith)
        | inl (q, e) ↦ ground (arith, start_admin_again a b spec h h' q long fine e (ground arith))
      ]
