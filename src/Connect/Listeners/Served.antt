-- ===== src/Connect/Listeners/Served.antt =====
-- Every listener that `reconcile` leaves, against the bindings that it was given.
use rust_tunnel.Base.{
  ◌≡◌, refl, sym, subst, ap, ◌∙◌, ℕ, List, [], ◌∷◌, Option, some, Option-cases, Bool-cases, inl,
  inr, arith, ◌==◌, All, Any, Distinct, get, insert, KeysDistinct, KeysDistinct-insert,
  KeysDistinct-remove, All-get, All_of_get,
}
use rust_tunnel.Config.Types.{Proto, tcp, udp, PortKey, port_key_eq, Binding, binding_key}
use rust_tunnel.State.{Shared}
use rust_tunnel.Connect.Listeners.{
  Sock, tcp_listener, udp_socket, Answer, Listeners, sock_for, Work, drop_one, drop_stale,
  bind_wanted, bind_all, stale_keys, reconcile,
}
use rust_tunnel.Connect.Listeners.Reconcile.{serve_wanted, Answer-cases, get-reconcile}

abbrev pub sock_proto : Sock → Proto
sock_proto (tcp_listener n) = tcp
sock_proto (udp_socket n) = udp

sock_for_proto : (p : Proto) (n : ℕ) → sock_proto (sock_for p n) ≡ p
sock_for_proto tcp n = refl
sock_for_proto udp n = refl

-- A listener of the right kind.
abbrev pub IsKind : PortKey × (Sock × ℕ) → Type 0
IsKind e = sock_proto e.1.0 ≡ e.0.0

-- A listener that one of the bindings asks for, remote port included.
abbrev pub Asks : PortKey × (Sock × ℕ) → Binding → Type 0
Asks e b = (binding_key b ≡ e.0) × (b.remote ≡ e.1.1)

abbrev pub IsAsked : List Binding → PortKey × (Sock × ℕ) → Type 0
IsAsked want e = Any (Asks e) want

serve_wanted-IsAsked :
    (os : Binding → Answer) (want : List Binding) (k : PortKey) (had : Option (Sock × ℕ))
    (sock : Sock) (remote : ℕ)
    → ((s : Sock) (r : ℕ) → had ≡ some (s, r) → IsKind (k, (s, r)))
    → serve_wanted os want k had ≡ some (sock, remote)
    → IsAsked want (k, (sock, remote)) × IsKind (k, (sock, remote))
unfolding serve_wanted
serve_wanted-IsAsked os [] k had sock remote kind h = absurd (cc)
serve_wanted-IsAsked os (b ∷ bs) k had sock remote kind h = elim (port_key_eq (binding_key b) k) [
  | no d ↦
      let (asked, is_kind) = serve_wanted-IsAsked os bs k had sock remote kind (ground arith) in
      (inr asked, is_kind)
  | yes e ↦ elim (Option-cases had) [
    | inr ((s, r), kept) ↦
        let same : ◌≡◌ {A = Sock × ℕ} (s, b.remote) (sock, remote) = ground arith in
        (
          inl (e, ap (λ q. q.1) same),
          subst (λ x. sock_proto x ≡ k.0) (ap (λ q. q.0) same) (kind s r kept),
        )
    | inl empty ↦ elim (Answer-cases (os b)) [
      | inr (why, a) ↦ absurd (ground arith)
      | inl (n, a) ↦
          let same : ◌≡◌ {A = Sock × ℕ} (sock_for b.proto n, b.remote) (sock, remote) =
            ground arith in
          (
            inl (e, ap (λ q. q.1) same),
            subst (λ x. sock_proto x ≡ k.0) (ap (λ q. q.0) same)
                (sock_for_proto b.proto n ∙ ap (λ q. q.0) e),
          )
    ]
  ]
]

module _ {Key : Type 0} where
  bind_wanted-KeysDistinct :
      (os : Binding → Answer) (b : Binding) (w : Work Key)
      → KeysDistinct port_key_eq w.bound
      → KeysDistinct port_key_eq (bind_wanted os b w).bound
  unfolding bind_wanted
  bind_wanted-KeysDistinct os b w h =
      elim (Option-cases (get port_key_eq w.bound (binding_key b))) [
        | inl e ↦ elim (Answer-cases (os b)) [
          | inl (n, a) ↦
              let made : insert port_key_eq w.bound (binding_key b) (sock_for b.proto n, b.remote)
                  ≡ (bind_wanted os b w).bound =
                ground arith in
              subst (KeysDistinct port_key_eq) made
                (KeysDistinct-insert port_key_eq w.bound (binding_key b) _ h)
          | inr (why, a) ↦
              let made : w.bound ≡ (bind_wanted os b w).bound = ground arith in
              subst (KeysDistinct port_key_eq) made h
        ]
        | inr ((sock, remote), e) ↦ elim (Bool-cases (remote == b.remote)) [
          | inl s ↦
              let made : w.bound ≡ (bind_wanted os b w).bound = ground arith in
              subst (KeysDistinct port_key_eq) made h
          | inr s ↦
              let made : insert port_key_eq w.bound (binding_key b) (sock, b.remote)
                  ≡ (bind_wanted os b w).bound =
                ground arith in
              subst (KeysDistinct port_key_eq) made
                (KeysDistinct-insert port_key_eq w.bound (binding_key b) _ h)
        ]
      ]

  bind_all-KeysDistinct :
      (os : Binding → Answer) (bs : List Binding) (w : Work Key)
      → KeysDistinct port_key_eq w.bound
      → KeysDistinct port_key_eq (bind_all os bs w).bound
  unfolding bind_all
  bind_all-KeysDistinct os [] w h = h
  bind_all-KeysDistinct os (b ∷ bs) w h =
      bind_all-KeysDistinct os bs (bind_wanted os b w) (bind_wanted-KeysDistinct os b w h)

  drop_stale-KeysDistinct :
      (ks : List PortKey) (w : Work Key)
      → KeysDistinct port_key_eq w.bound
      → KeysDistinct port_key_eq (drop_stale ks w).bound
  unfolding drop_stale drop_one
  drop_stale-KeysDistinct [] w h = h
  drop_stale-KeysDistinct (k ∷ ks) w h =
      drop_stale-KeysDistinct ks (drop_one k w) (KeysDistinct-remove port_key_eq w.bound k h)

  pub reconcile-KeysDistinct :
      (os : Binding → Answer) (l : Listeners) (want : List Binding) (sh : Shared Key)
      → KeysDistinct port_key_eq l
      → KeysDistinct port_key_eq (reconcile os l want sh).bound
  unfolding reconcile
  reconcile-KeysDistinct os l want sh h =
      bind_all-KeysDistinct os want _ (drop_stale-KeysDistinct (stale_keys want l) _ h)

  pub reconcile-IsAsked :
      (os : Binding → Answer) (l : Listeners) (want : List Binding) (sh : Shared Key)
      → Distinct binding_key want
      → KeysDistinct port_key_eq l
      → All IsKind l
      → All (λ e. IsAsked want e × IsKind e) (reconcile os l want sh).bound
  reconcile-IsAsked os l want sh d keys kinds =
      All_of_get port_key_eq (λ e. IsAsked want e × IsKind e) (reconcile os l want sh).bound
        (reconcile-KeysDistinct os l want sh keys)
        (λ k v found.
          serve_wanted-IsAsked os want k (get port_key_eq l k) v.0 v.1
            (λ s r had. All-get port_key_eq IsKind l k (s, r) kinds had)
            (sym (get-reconcile os l want sh k d) ∙ found))
