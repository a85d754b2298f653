-- ===== src/Serve/Server/Removed.antt =====
-- A peer that is removed or parked on the admin surface while it is connected.
use rust_tunnel.Base.{◌≡◌, refl, sym, subst, ap, ◌∙◌, ℕ, false, some, arith}
use rust_tunnel.Errors.{ok}
use rust_tunnel.Config.Types.{Config, Proto}
use rust_tunnel.Config.Persist.{Os}
use rust_tunnel.Config.Grants.{admits, may_reach}
use rust_tunnel.State.{Shared}
use rust_tunnel.Admin.Edits.{parse_id, patch_peer_edit, del_peer_edit}
use rust_tunnel.Admin.Edits.Peers.{admits-patch_peer_edit, peer-del_peer_edit}
use rust_tunnel.Admin.Edits.Table.{may_reach-offered}
use rust_tunnel.Admin.Handlers.{
  Env, IdRef, PeerPatch, accepted, patch_peer, del_peer, edit as edit_peers,
}
use rust_tunnel.Admin.Handlers.Accepted.{edit-accepted}
use rust_tunnel.Serve.Streams.{Close, refused_peer}
use rust_tunnel.Serve.Evict.Races.{closed, due, admitted}
use rust_tunnel.Serve.Server.{Conn, Server, edit, Meanwhile}
use rust_tunnel.Serve.Server.Watched.{Guards, see-Guards, Meanwhile-Guards}

module _ {Key : Type 0} (id_eq : Discrete Key) where
  -- A peer that is not admitted can reach nothing.
  barred-cut :
      (c : Config Key) (id : Key) (proto : Proto) (port : ℕ)
      → admits id_eq c id ≡ false
      → may_reach id_eq c id proto port ≡ false
  barred-cut c id proto port barred = ground (arith, may_reach-offered id_eq c id proto port)

  del_peer-barred :
      (env : Env Key) (os : Os) (b : IdRef) (id : Key) (sh sh' : Shared Key)
      → parse_id env.parse_key b.id ≡ ok id
      → del_peer id_eq env os b sh ≡ (ok accepted, sh')
      → admits id_eq sh'.config id ≡ false
  unfolding del_peer admits
  del_peer-barred env os b id sh sh' parsed done =
      let edited : edit_peers id_eq env os (del_peer_edit id_eq id) sh ≡ (ok accepted, sh') =
        ground arith in
      let made = edit-accepted id_eq env os (del_peer_edit id_eq id) sh sh' edited in
      elim (id_eq id id) [
        | yes e ↦ ground (arith, peer-del_peer_edit id_eq sh.config sh'.config id id made)
        | no d ↦ absurd (d refl)
      ]

  patch_peer-barred :
      (env : Env Key) (os : Os) (b : PeerPatch) (id : Key) (sh sh' : Shared Key)
      → parse_id env.parse_key b.id ≡ ok id
      → b.enabled ≡ some false
      → patch_peer id_eq env os b sh ≡ (ok accepted, sh')
      → admits id_eq sh'.config id ≡ false
  unfolding patch_peer
  patch_peer-barred env os b id sh sh' parsed off done =
      let change = patch_peer_edit id_eq id b.name b.enabled in
      let edited : edit_peers id_eq env os change sh ≡ (ok accepted, sh') = ground arith in
      ground (
        arith,
        admits-patch_peer_edit id_eq sh.config sh'.config id b.name b.enabled
            (edit-accepted id_eq env os change sh sh' edited),
        off,
      )

  -- What takes a peer's access on the admin surface: its removal, and a patch that parks it.
  pub data Revokes (env : Env Key) (os : Os) (id : Key) (sh sh' : Shared Key) : Type 0 where
    removed :
        (b : IdRef)
        → parse_id env.parse_key b.id ≡ ok id
        → del_peer id_eq env os b sh ≡ (ok accepted, sh')
        → Revokes env os id sh sh'
    parked :
        (b : PeerPatch)
        → parse_id env.parse_key b.id ≡ ok id
        → b.enabled ≡ some false
        → patch_peer id_eq env os b sh ≡ (ok accepted, sh')
        → Revokes env os id sh sh'

  Revokes-barred :
      (env : Env Key) (os : Os) (id : Key) (sh sh' : Shared Key)
      → Revokes env os id sh sh'
      → admits id_eq sh'.config id ≡ false
  Revokes-barred env os id sh sh' (removed b parsed done) =
      del_peer-barred env os b id sh sh' parsed done
  Revokes-barred env os id sh sh' (parked b parsed off done) =
      patch_peer-barred env os b id sh sh' parsed off done

  -- Suppose the admin surface accepts the removal of a connected peer whose watcher enforces the
  -- configuration, or a patch that switches that peer off. For as long as the connection stays open
  -- and the configuration stays in force, the peer can reach no port, and once the watcher has been
  -- woken it has closed the connection with the refusal code.
  pub revoked_closes :
      (env : Env Key) (os : Os) (s t : Server Key) (sh : Shared Key) (i : ℕ) (id : Key)
      (k : Conn Key)
      → Guards id_eq s.shared.config s.conns i id
      → Revokes env os id s.shared sh
      → Meanwhile id_eq i (edit sh s) t
      → t.shared.config ≡ sh.config
      → t.conns i ≡ some k
      → k.watcher.pending ≡ false
      → ((proto : Proto) (port : ℕ) → may_reach id_eq t.shared.config k.peer proto port ≡ false)
        × ((c : Close) × (k.watcher.close ≡ some c) × (c.code ≡ refused_peer))
  unfolding edit
  revoked_closes env os s t sh i id k safe revoked run in_force at quiet =
      let out = Revokes-barred env os id s.shared sh revoked in
      let (k', at', of, (seen, kept)) =
        Meanwhile-Guards id_eq i id run
          (see-Guards id_eq s.shared.config sh.config s.conns i id safe) in
      let back : k' ≡ k = ground arith in
      let who : k.peer ≡ id = ap (λ x. x.peer) (sym back) ∙ of in
      (
        λ proto port. rw in_force (rw who (barred-cut sh.config id proto port out)),
        subst (λ (x : Conn Key). (c : Close) × (x.watcher.close ≡ some c) × (c.code ≡ refused_peer))
            back
            (elim kept [
              | closed c e h code ↦ (c, h, code)
              | due w p ↦ absurd (
                  let still : k'.watcher.pending ≡ false =
                    ap (λ x. x.watcher.pending) back ∙ quiet in
                  cc)
              | admitted w a ↦ absurd (
                  let not_in : admits id_eq k'.watcher.config k'.peer ≡ false =
                    rw seen (rw in_force (rw of out)) in
                  cc)
            ]),
      )
