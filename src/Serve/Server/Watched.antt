-- ===== src/Serve/Server/Watched.antt =====
-- The eviction watcher of every open connection, as the server runs it.
use rust_tunnel.Base.{
  ◌≡◌, ◌≢◌, refl, sym, subst, ap, ◌∙◌, ℕ, true, Option, none, some, inl, inr, arith, ℕ_discrete,
}
use rust_tunnel.Config.Types.{Config}
use rust_tunnel.Config.Grants.{admits}
use rust_tunnel.State.{peer_disconnected}
use rust_tunnel.State.Facts.{peer_connected-config}
use rust_tunnel.Paths.{on_report-config}
use rust_tunnel.Serve.Evict.{watching, publish}
use rust_tunnel.Serve.Evict.Races.{IsEnforced, admitted, Move-IsEnforced}
use rust_tunnel.Serve.Server.{
  Conn, Server, put, see, notify, notify_pump, edit, subscribe, leave, Happens, edited, arrived,
  subscribed, pumped, watched, reported, Meanwhile, at_once, still_open,
}
use rust_tunnel.Serve.Server.Listed.{arrive-cases}

module _ {Key : Type 0} (id_eq : Discrete Key) where
  abbrev IsGuarded : Config Key → Conn Key → Type 0
  IsGuarded c k = (k.watcher.config ≡ c) × IsEnforced id_eq k.peer k.watcher

  -- Connection i is open, of the given peer, and its watcher enforces the configuration.
  abbrev pub Guards : Config Key → (ℕ → Option (Conn Key)) → ℕ → Key → Type 0
  Guards c conns i peer = (k : Conn Key) × (conns i ≡ some k) × (k.peer ≡ peer) × IsGuarded c k

  put-Guards :
      (c : Config Key) (conns : ℕ → Option (Conn Key)) (i j : ℕ) (peer : Key) (k new : Conn Key)
      → conns j ≡ some k
      → new.peer ≡ k.peer
      → (IsGuarded c k → IsGuarded c new)
      → Guards c conns i peer
      → Guards c (put j (some new) conns) i peer
  put-Guards c conns i j peer k new at same keep (old, there, of, ok) = elim (ℕ_discrete j i) [
    | yes e ↦
        let back : old ≡ k = ground arith in
        (
          new,
          ground arith,
          same ∙ (ap (λ x. x.peer) (sym back) ∙ of),
          keep (subst (IsGuarded c) back ok),
        )
    | no d ↦ (old, ground arith, of, ok)
  ]

  put_other-Guards :
      (c : Config Key) (conns : ℕ → Option (Conn Key)) (i j : ℕ) (peer : Key)
      (new : Option (Conn Key))
      → j ≢ i
      → Guards c conns i peer
      → Guards c (put j new conns) i peer
  put_other-Guards c conns i j peer new other (old, there, of, ok) = elim (ℕ_discrete j i) [
    | yes e ↦ absurd (other e)
    | no d ↦ (old, ground arith, of, ok)
  ]

  pub see-Guards :
      (c c' : Config Key) (conns : ℕ → Option (Conn Key)) (i : ℕ) (peer : Key)
      → Guards c conns i peer
      → Guards c' (λ j. see c' (conns j)) i peer
  see-Guards c c' conns i peer (k, there, of, (same, safe)) = (
    record k { pump = notify_pump c' k.pump; watcher = notify c' k.watcher },
    ap (see c') there,
    of,
    (refl, Move-IsEnforced id_eq k.peer (publish k.watcher c') safe),
  )

  occupied :
      (c : Config Key) (conns : ℕ → Option (Conn Key)) (i j : ℕ) (peer : Key)
      → conns j ≡ none
      → Guards c conns i peer
      → j ≢ i
  occupied c conns i j peer clear (k, there, of, ok) e = ground arith

  Happens-Guards :
      {s t : Server Key} (i : ℕ) (peer : Key)
      → Happens id_eq s t
      → t.conns i ≢ none
      → Guards s.shared.config s.conns i peer
      → Guards t.shared.config t.conns i peer
  unfolding edit subscribe leave peer_disconnected
  Happens-Guards i peer (edited s sh same) here h =
      see-Guards s.shared.config sh.config s.conns i peer h
  Happens-Guards i peer (arrived s j id now clear) here h = elim (arrive-cases id_eq s j id now) [
    | inl (kept, same) ↦ rw kept rw same h
    | inr (kept, made) ↦ rw kept rw made rw (peer_connected-config id_eq s.shared id now) (
        put_other-Guards s.shared.config s.conns i j peer _
          (occupied s.shared.config s.conns i j peer clear h) h)
  ]
  Happens-Guards i peer (subscribed s j k at quiet) here h =
      put-Guards s.shared.config s.conns i j peer k _ at refl (λ ok. ok) h
  Happens-Guards i peer (pumped s j k p q at was step seen) here h =
      put-Guards s.shared.config s.conns i j peer k _ at refl (λ ok. ok) h
  Happens-Guards i peer (watched s j k l at move seen) here h =
      put-Guards s.shared.config s.conns i j peer k _ at refl
        (λ ok. (seen, Move-IsEnforced id_eq k.peer move ok.1)) h
  Happens-Guards i peer (reported s id r) here h = rw (on_report-config id_eq s.shared id r) h
  Happens-Guards i peer (Happens.closed s j k at) here h =
      put_other-Guards s.shared.config s.conns i j peer none (λ e. here (ground arith)) h

  -- While a connection stays open.
  pub Meanwhile-Guards :
      (i : ℕ) (peer : Key) {s t : Server Key}
      → Meanwhile id_eq i s t
      → Guards s.shared.config s.conns i peer
      → Guards t.shared.config t.conns i peer
  Meanwhile-Guards i peer at_once h = h
  Meanwhile-Guards i peer (still_open run step here) h =
      Happens-Guards i peer step here (Meanwhile-Guards i peer run h)

  -- From a state in which the eviction watcher of a connection is subscribed and its peer admitted, for
  -- as long as the connection stays open, whatever edits are made and whatever else the server does: the
  -- watcher has closed it with the refusal code, or has an edit to be woken for, or the configuration in
  -- force admits the peer.
  pub Meanwhile-IsEnforced :
      (s t : Server Key) (i : ℕ) (k : Conn Key)
      → s.conns i ≡ some k
      → k.watcher.config ≡ s.shared.config
      → k.watcher.watch ≡ watching
      → admits id_eq s.shared.config k.peer ≡ true
      → Meanwhile id_eq i s t
      → Guards t.shared.config t.conns i k.peer
  Meanwhile-IsEnforced s t i k at same here in_list run =
      Meanwhile-Guards i k.peer run
        (k, at, refl, (same, admitted here (ap (λ c. admits id_eq c k.peer) same ∙ in_list)))
