-- ===== src/Serve/Server/Listed.antt =====
-- The list of connected peers against the connections that are open.
use rust_tunnel.Base.{
  ◌≡◌, ◌≢◌, refl, sym, ap, ◌∙◌, ℕ, Option, none, some, Option-cases, Bool-cases, inl, inr, ◌⊎◌,
  arith, get, ℕ_discrete,
}
use rust_tunnel.Config.Types.{Config}
use rust_tunnel.State.{PathInfo, no_path, peer_connected}
use rust_tunnel.State.Facts.{live, live_lem}
use rust_tunnel.Paths.{on_report-since}
use rust_tunnel.Serve.Streams.{accept}
use rust_tunnel.Config.Grants.{admits}
use rust_tunnel.Serve.Server.{
  Conn, Server, put, newcomer, see, edit, subscribe, arrive, leave, Happens, edited, arrived,
  subscribed, pumped, watched, reported, closed, History, begun, further,
}

module _ {Key : Type 0} where
  -- Some open connection is of the peer.
  abbrev pub HasConn : (ℕ → Option (Conn Key)) → Key → Type 0
  HasConn conns id = (i : ℕ) × (k : Conn Key) × (conns i ≡ some k) × (k.peer ≡ id)

  HasConn-put_over :
      (conns : ℕ → Option (Conn Key)) (i : ℕ) (k new : Conn Key) (id : Key)
      → conns i ≡ some k
      → new.peer ≡ k.peer
      → HasConn conns id
      → HasConn (put i (some new) conns) id
  HasConn-put_over conns i k new id at same (j, old, there, of) = elim (ℕ_discrete i j) [
    | yes e ↦ (
      i,
      new,
      ground arith,
      let back : old ≡ k = ground arith in same ∙ (ap (λ x. x.peer) (sym back) ∙ of),
    )
    | no d ↦ (j, old, ground arith, of)
  ]

  HasConn-put_new :
      (conns : ℕ → Option (Conn Key)) (i : ℕ) (new : Conn Key) (id : Key)
      → conns i ≡ none
      → HasConn conns id
      → HasConn (put i (some new) conns) id
  HasConn-put_new conns i new id clear (j, old, there, of) = elim (ℕ_discrete i j) [
    | yes e ↦ absurd (ground arith)
    | no d ↦ (j, old, ground arith, of)
  ]

  HasConn-put_away :
      (conns : ℕ → Option (Conn Key)) (i : ℕ) (k : Conn Key) (id : Key)
      → conns i ≡ some k
      → k.peer ≢ id
      → HasConn conns id
      → HasConn (put i none conns) id
  HasConn-put_away conns i k id at other (j, old, there, of) = elim (ℕ_discrete i j) [
    | yes e ↦ absurd (other (let back : old ≡ k = ground arith in ap (λ x. x.peer) (sym back) ∙ of))
    | no d ↦ (j, old, ground arith, of)
  ]

  HasConn-see :
      (conns : ℕ → Option (Conn Key)) (c : Config Key) (id : Key)
      → HasConn conns id
      → HasConn (λ j. see c (conns j)) id
  HasConn-see conns c id (j, k, there, of) = (j, _, ap (see c) there, of)

module _ {Key : Type 0} (id_eq : Discrete Key) where
  -- A refused connection changes nothing, an admitted one is listed and open.
  pub arrive-cases :
      (s : Server Key) (i : ℕ) (id : Key) (now : ℕ)
      → (((arrive id_eq i id now s).shared ≡ s.shared)
          × ((arrive id_eq i id now s).conns ≡ s.conns))
        ⊎ (((arrive id_eq i id now s).shared ≡ peer_connected id_eq s.shared id now)
            × ((arrive id_eq i id now s).conns
                ≡ put i (some (newcomer s.shared.config id)) s.conns))
  unfolding arrive accept
  arrive-cases s i id now = elim (Bool-cases (admits id_eq s.shared.config id)) [
    | inl e ↦ inr (ground arith, ground arith)
    | inr e ↦ inl (ground arith, ground arith)
  ]

  -- Every peer that the admin surface lists as connected has an open connection.
  abbrev pub IsListed : Server Key → Type 0
  IsListed s = (id : Key) (e : ℕ × PathInfo) → live id_eq s.shared id ≡ some e → HasConn s.conns id

  Happens-IsListed : {s t : Server Key} → Happens id_eq s t → IsListed s → IsListed t
  unfolding edit subscribe arrive leave live
  Happens-IsListed (edited s sh same) h id e there =
      HasConn-see s.conns sh.config id (h id e (ap (λ r. get id_eq r.peers id) (sym same) ∙ there))
  Happens-IsListed (arrived s i id now clear) h j e there = elim (arrive-cases s i id now) [
    | inl (kept, same) ↦ rw same (h j e (ap (λ sh. live id_eq sh j) (sym kept) ∙ there))
    | inr (kept, made) ↦
        let (entered, gone, path) = live_lem id_eq s.shared id j now no_path in
        let found : live id_eq (peer_connected id_eq s.shared id now) j ≡ some e =
          ap (λ sh. live id_eq sh j) (sym kept) ∙ there in
        rw made (elim (id_eq id j) [
          | yes same ↦ (i, newcomer s.shared.config id, ground arith, same)
          | no d ↦ HasConn-put_new s.conns i _ j clear (h j e (ground arith))
        ])
  ]
  Happens-IsListed (subscribed s i k at quiet) h id e there =
      HasConn-put_over s.conns i k _ id at refl (h id e there)
  Happens-IsListed (pumped s i k p q at was step seen) h id e there =
      HasConn-put_over s.conns i k _ id at refl (h id e there)
  Happens-IsListed (watched s i k l at move seen) h id e there =
      HasConn-put_over s.conns i k _ id at refl (h id e there)
  Happens-IsListed (reported s id r) h j e there = elim (Option-cases (live id_eq s.shared j)) [
    | inl away ↦ absurd (ground (arith, on_report-since id_eq s.shared id j r))
    | inr (entry, here) ↦ h j entry here
  ]
  Happens-IsListed (closed s i k at) h id e there =
      let (entered, gone, path) = live_lem id_eq s.shared k.peer id 0 no_path in
      elim (id_eq k.peer id) [
        | yes same ↦ absurd (ground arith)
        | no d ↦ HasConn-put_away s.conns i k id at d (h id e (ground arith))
      ]

  -- From a state that lists only peers with an open connection, whatever connections arrive, subscribe
  -- and end, edits are made, datagrams are served and paths are reported, in any order: every peer that
  -- the admin surface lists as connected has an open connection.
  pub History-IsListed : {s t : Server Key} → IsListed s → History id_eq s t → IsListed t
  History-IsListed h begun = h
  History-IsListed h (further run step) = Happens-IsListed step (History-IsListed h run)
