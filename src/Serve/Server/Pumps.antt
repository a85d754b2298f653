-- ===== src/Serve/Server/Pumps.antt =====
-- The UDP pump of every open connection, as the server runs it.
use rust_tunnel.Base.{
  ◌≡◌, refl, sym, subst, ap, ◌∙◌, ℕ, true, false, Option, none, some, Option-cases, inl, inr, ◌⊎◌,
  arith, ℕ_discrete, List,
}
use rust_tunnel.Config.Types.{Config, udp}
use rust_tunnel.Config.Grants.{may_reach}
use rust_tunnel.State.{peer_disconnected}
use rust_tunnel.State.Facts.{peer_connected-config}
use rust_tunnel.Paths.{on_report-config}
use rust_tunnel.Serve.Sessions.{Socket}
use rust_tunnel.Serve.Pump.{PumpState, at_start, publish, Run, start, then, receive, to_known}
use rust_tunnel.Serve.Pump.Granted.{receive_delivers}
use rust_tunnel.Serve.Server.{
  Conn, Server, put, see, notify, notify_pump, newcomer, edit, subscribe, leave, Happens, edited,
  arrived, subscribed, pumped, watched, reported, closed, History, begun, further,
}
use rust_tunnel.Serve.Server.Listed.{arrive-cases}

module _ {Key : Type 0} where
  put-cases :
      (conns : ℕ → Option (Conn Key)) (i j : ℕ) (new : Option (Conn Key)) (k : Conn Key)
      → put i new conns j ≡ some k
      → (new ≡ some k) ⊎ (conns j ≡ some k)
  put-cases conns i j new k at = elim (ℕ_discrete i j) [
    | yes e ↦ inl (ground arith)
    | no d ↦ inr (ground arith)
  ]

module _ {Key : Type 0} (id_eq : Discrete Key) where
  -- A pump that has run from its start, and holds the given configuration.
  abbrev pub IsRunning : Config Key → Key → PumpState Key → Type 0
  IsRunning c peer p = (p.config ≡ c) × ((c0 : Config Key) × Run id_eq peer (at_start c0) p)

  -- Every pump of an open connection is one that has run from its start, with the edits of the watch
  -- channel.
  abbrev pub IsPumped : Config Key → (ℕ → Option (Conn Key)) → Type 0
  IsPumped c conns =
      (i : ℕ) (k : Conn Key) (p : PumpState Key)
      → conns i ≡ some k
      → k.pump ≡ some p
      → IsRunning c k.peer p

  see-IsPumped :
      (c c' : Config Key) (conns : ℕ → Option (Conn Key))
      → IsPumped c conns
      → IsPumped c' (λ j. see c' (conns j))
  see-IsPumped c c' conns h i k p at was = elim (Option-cases (conns i)) [
    | inl e ↦ absurd (ground arith)
    | inr (old, e) ↦
        let back : record old { pump = notify_pump c' old.pump; watcher = notify c' old.watcher }
            ≡ k =
          ground arith in
        elim (Option-cases old.pump) [
          | inl quiet ↦ absurd (
              let before : some p ≡ notify_pump c' old.pump = sym (ap (λ x. x.pump) back ∙ was) in
              ground arith)
          | inr (q, before) ↦
              let (same, (c0, run)) = h i old q e before in
              let shown : some p ≡ notify_pump c' old.pump = sym (ap (λ x. x.pump) back ∙ was) in
              let now : record q { config = c'; pending = true } ≡ p = ground arith in
              subst (IsRunning c' k.peer) now (
                subst (λ x. IsRunning c' x (record q { config = c'; pending = true }))
                  (ap (λ x. x.peer) back) (refl, (c0, then run (publish q c'))))
        ]
  ]

  put-IsPumped :
      (c : Config Key) (conns : ℕ → Option (Conn Key)) (i : ℕ) (new : Option (Conn Key))
      → ((k : Conn Key) (p : PumpState Key) → new ≡ some k → k.pump ≡ some p → IsRunning c k.peer p)
      → IsPumped c conns
      → IsPumped c (put i new conns)
  put-IsPumped c conns i new fresh h j k p at was = elim (put-cases conns i j new k at) [
    | inl e ↦ fresh k p e was
    | inr e ↦ h j k p e was
  ]

  conn-IsRunning :
      (c : Config Key) (old k : Conn Key) (q p : PumpState Key)
      → IsRunning c old.peer q
      → some (record old { pump = some q }) ≡ some k
      → k.pump ≡ some p
      → IsRunning c k.peer p
  conn-IsRunning c old k q p run same was =
      let back : record old { pump = some q } ≡ k = ground arith in
      let who : old.peer ≡ k.peer = ap (λ x. x.peer) back in
      let what : q ≡ p = let mid : some q ≡ k.pump = ap (λ x. x.pump) back in ground arith in
      subst (λ x. IsRunning c x p) who (subst (IsRunning c old.peer) what run)

  Happens-IsPumped :
      {s t : Server Key}
      → Happens id_eq s t
      → IsPumped s.shared.config s.conns
      → IsPumped t.shared.config t.conns
  unfolding edit subscribe leave peer_disconnected
  Happens-IsPumped (edited s sh same) h = see-IsPumped s.shared.config sh.config s.conns h
  Happens-IsPumped (arrived s i id now clear) h = elim (arrive-cases id_eq s i id now) [
    | inl (kept, same) ↦ rw kept rw same h
    | inr (kept, made) ↦ rw kept rw made rw (peer_connected-config id_eq s.shared id now) (
        put-IsPumped s.shared.config s.conns i _
          (λ k p e was.
            let back : newcomer s.shared.config id ≡ k = ground arith in
            let quiet : none ≡ k.pump = ap (λ x. x.pump) back in absurd (ground arith))
          h)
  ]
  Happens-IsPumped (subscribed s i k at quiet) h =
      put-IsPumped s.shared.config s.conns i _
        (λ j p e was.
          conn-IsRunning s.shared.config k j (at_start s.shared.config) p (refl, (_, start)) e was)
        h
  Happens-IsPumped (pumped s i k p q at was step seen) h =
      let (same, (c0, run)) = h i k p at was in
      put-IsPumped s.shared.config s.conns i _
        (λ j r e has. conn-IsRunning s.shared.config k j q r (seen, (c0, then run step)) e has) h
  Happens-IsPumped (watched s i k l at move seen) h =
      put-IsPumped s.shared.config s.conns i _
        (λ j p e was.
          let back : record k { watcher = l } ≡ j = ground arith in
          subst (λ x. IsRunning s.shared.config x p) (ap (λ x. x.peer) back)
            (h i k p at (ap (λ x. x.pump) back ∙ was)))
        h
  Happens-IsPumped (reported s id r) h = rw (on_report-config id_eq s.shared id r) h
  Happens-IsPumped (closed s i k at) h =
      put-IsPumped s.shared.config s.conns i none (λ j p e was. absurd (cc)) h

  History-IsPumped :
      {s t : Server Key}
      → IsPumped s.shared.config s.conns
      → History id_eq s t
      → IsPumped t.shared.config t.conns
  History-IsPumped h begun = h
  History-IsPumped h (further run step) = Happens-IsPumped step (History-IsPumped h run)

  -- In every state that a server without connections comes to, with any number of connections, edits and
  -- datagrams in any order: once the pump of an open connection has been woken for the latest edit, a
  -- payload that it hands to the socket of a known session goes to a local port that the configuration
  -- in force grants to the peer of that connection.
  pub History-delivers :
      (s t : Server Key) (i : ℕ) (k : Conn Key) (p : PumpState Key) (dg : List ℕ) (now : ℕ)
      (sock : Socket) (payload : List ℕ)
      → ((j : ℕ) → s.conns j ≡ none)
      → History id_eq s t
      → t.conns i ≡ some k
      → k.pump ≡ some p
      → p.pending ≡ false
      → (receive id_eq k.peer t.shared.config p.sessions dg now).0 ≡ to_known sock payload
      → may_reach id_eq t.shared.config k.peer udp sock.target ≡ true
  History-delivers s t i k p dg now sock payload empty run at was idle made =
      let (same, (c0, reached)) =
        History-IsPumped (λ j x q there has. let e = empty j in absurd (cc)) run i k p at was in
      subst (λ c. may_reach id_eq c k.peer udp sock.target ≡ true) same
        (receive_delivers id_eq k.peer c0 p dg now sock payload reached idle (
          subst (λ c. (receive id_eq k.peer c p.sessions dg now).0 ≡ to_known sock payload)
            (sym same) made))
