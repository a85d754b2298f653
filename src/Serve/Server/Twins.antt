-- ===== src/Serve/Server/Twins.antt =====
-- One peer with two connections to the server.
use rust_tunnel.Base.{◌≡◌, ◌≢◌, sym, ap, ◌∙◌, ℕ, true, none, some, arith}
use rust_tunnel.Config.Grants.{admits}
use rust_tunnel.State.{no_path, peer_connected, peer_disconnected}
use rust_tunnel.State.Facts.{live, live_lem, peer_connected-config}
use rust_tunnel.Paths.{Report, on_report, on_report-since}
use rust_tunnel.Serve.Streams.{accept}
use rust_tunnel.Serve.Server.{Conn, Server, put, newcomer, arrive, leave}

module _ {Key : Type 0} (id_eq : Discrete Key) where
  arrive-admitted :
      (s : Server Key) (i : ℕ) (id : Key) (now : ℕ)
      → admits id_eq s.shared.config id ≡ true
      → ((arrive id_eq i id now s).shared ≡ peer_connected id_eq s.shared id now)
        × ((arrive id_eq i id now s).conns ≡ put i (some (newcomer s.shared.config id)) s.conns)
  unfolding arrive accept
  arrive-admitted s i id now e = (ground arith, ground arith)

  -- Two connections of one peer, one after the other.
  abbrev pub twins : ℕ → ℕ → Key → ℕ → ℕ → Server Key → Server Key
  twins i j id first second s = arrive id_eq j id second (arrive id_eq i id first s)

  -- The end of one connection leaves the other one open and its peer unlisted, whatever paths are
  -- reported from then on.
  abbrev pub Forgets : Server Key → Conn Key → ℕ → ℕ → Type 0
  Forgets t k gone kept =
      ((leave id_eq gone k t).conns kept ≡ some k)
      × (live id_eq (leave id_eq gone k t).shared k.peer ≡ none)
      × ((r : Report)
          → live id_eq (on_report id_eq (leave id_eq gone k t).shared k.peer r) k.peer ≡ none)

  leave-Forgets :
      (t : Server Key) (k : Conn Key) (gone kept : ℕ)
      → gone ≢ kept
      → t.conns kept ≡ some k
      → Forgets t k gone kept
  unfolding leave
  leave-Forgets t k gone kept apart at =
      let sh = peer_disconnected id_eq t.shared k.peer in
      let away : live id_eq sh k.peer ≡ none =
        ground (arith, live_lem id_eq t.shared k.peer k.peer 0 no_path) in
      (
        ground (arith, at),
        away,
        λ r. ground (arith, away, on_report-since id_eq sh k.peer k.peer r),
      )

  -- If an admitted peer that is not listed connects twice, it is listed as connected since the
  -- first time; when either connection then ends, the other one stays open, but the peer is not
  -- listed any more, and no path report lists it again.
  pub twin_unlisted :
      (s : Server Key) (i j : ℕ) (id : Key) (first second : ℕ)
      → i ≢ j
      → admits id_eq s.shared.config id ≡ true
      → live id_eq s.shared id ≡ none
      → ((twins i j id first second s).conns i ≡ some (newcomer s.shared.config id))
        × ((twins i j id first second s).conns j ≡ some (newcomer s.shared.config id))
        × (live id_eq (twins i j id first second s).shared id ≡ some (first, no_path))
        × Forgets (twins i j id first second s) (newcomer s.shared.config id) i j
        × Forgets (twins i j id first second s) (newcomer s.shared.config id) j i
  twin_unlisted s i j id first second apart admitted fresh =
      let k = newcomer s.shared.config id in
      let one = arrive id_eq i id first s in
      let (shared1, conns1) = arrive-admitted s i id first admitted in
      let same : one.shared.config ≡ s.shared.config =
        ap (λ sh. sh.config) shared1 ∙ peer_connected-config id_eq s.shared id first in
      let (shared2, conns2) = arrive-admitted one j id second (rw same admitted) in
      let at1 : one.conns i ≡ some k = ap (λ f. f i) conns1 ∙ ground arith in
      let k2 : newcomer one.shared.config id ≡ k = ap (λ c. newcomer c id) same in
      let at_i : (twins i j id first second s).conns i ≡ some k =
        ap (λ f. f i) conns2 ∙ ground (arith, at1, λ (e : j ≡ i). apart (sym e)) in
      let at_j : (twins i j id first second s).conns j ≡ some k =
        ap (λ f. f j) conns2 ∙ ground (arith, k2) in
      (
        at_i,
        at_j,
        ap (λ sh. live id_eq sh id) shared2
            ∙ ground (
              arith,
              live_lem id_eq one.shared id id second no_path,
              live_lem id_eq s.shared id id first no_path,
              ap (λ sh. live id_eq sh id) shared1,
            ),
        leave-Forgets _ k i j apart at_j,
        leave-Forgets _ k j i (λ e. apart (sym e)) at_i,
      )
