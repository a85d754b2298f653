-- ===== src/Paths.antt =====
-- How a connection's path gets to the admin surface: `path_kind`, `log_selected` and `report_path` of
-- main.rs. iroh's paths and events are what it reports of them; the log lines are left out.
use rust_tunnel.Base.{
  ◌≡◌, refl, ap, ◌∙◌, ℕ, Bool, List, [], ◌∷◌, Option, none, some, Option-cases, inl, inr, arith,
  find, if◌then◌else◌, Text, codes,
}
use rust_tunnel.State.{Shared, PathInfo, peer_path}
use rust_tunnel.State.Facts.{live, live_lem}

pub record LinkPath : Type 0 where
  pub selected : Bool
  pub relay : Bool
  pub addr : Text
  pub rtt : ℕ

-- What the reporting task is woken by: an event of the connection, or its heartbeat with the paths that
-- there are then.
pub data Report : Type 0 where
  path_selected : Bool → Text → Report
  other_event : Report
  heartbeat : List LinkPath → Report

abbrev pub path_kind : Bool → Text
path_kind relay = if relay then codes "relayed" else codes "direct"

module _ {Key : Type 0} (id_eq : Discrete Key) where
  unfoldable pub log_selected : Shared Key → Key → List LinkPath → Shared Key
  log_selected sh id paths = elim (find (λ (p : LinkPath). p.selected) paths) [
    | none ↦ sh
    | some p ↦ peer_path id_eq sh id (path_kind p.relay) (some p.addr) (some p.rtt)
  ]

  -- One turn of the task's loop.
  unfoldable pub on_report : Shared Key → Key → Report → Shared Key
  on_report sh id (path_selected relay addr) =
      peer_path id_eq sh id (path_kind relay) (some addr) none
  on_report sh id other_event = sh
  on_report sh id (heartbeat paths) = log_selected sh id paths

  unfoldable pub on_reports : Shared Key → Key → List Report → Shared Key
  on_reports sh id [] = sh
  on_reports sh id (r ∷ rs) = on_reports (on_report sh id r) id rs

  -- `report_path`, with what its task is woken by until the connection closes.
  unfoldable pub report_path : Shared Key → Key → List LinkPath → List Report → Shared Key
  report_path sh id paths rs = on_reports (log_selected sh id paths) id rs

  -- Since when a peer is listed, if it is.
  abbrev pub since : Option (ℕ × PathInfo) → Option ℕ
  since none = none
  since (some (at, info)) = some at

  peer_path-since :
      (sh : Shared Key) (id j : Key) (path : Text) (addr : Option Text) (rtt : Option ℕ)
      → since (live id_eq (peer_path id_eq sh id path addr rtt) j) ≡ since (live id_eq sh j)
  peer_path-since sh id j path addr rtt =
      let (a, b, after) =
        live_lem id_eq sh id j 0 (record { path = path; addr = addr; rtt_ms = rtt }) in
      elim (id_eq id j) [
        | yes e ↦ elim (Option-cases (live id_eq sh id)) [
          | inl away ↦ ground (arith, after, ap (live id_eq sh) e)
          | inr (entry, here) ↦ ground (arith, after, ap (live id_eq sh) e)
        ]
        | no d ↦ ground (arith, after)
      ]

  log_selected-since :
      (sh : Shared Key) (id j : Key) (paths : List LinkPath)
      → since (live id_eq (log_selected sh id paths) j) ≡ since (live id_eq sh j)
  unfolding log_selected
  log_selected-since sh id j paths =
      elim (Option-cases (find (λ (p : LinkPath). p.selected) paths)) [
        | inl e ↦ ground arith
        | inr (p, e) ↦
            ground (arith, peer_path-since sh id j (path_kind p.relay) (some p.addr) (some p.rtt))
      ]

  pub on_report-since :
      (sh : Shared Key) (id j : Key) (r : Report)
      → since (live id_eq (on_report sh id r) j) ≡ since (live id_eq sh j)
  unfolding on_report
  on_report-since sh id j (path_selected relay addr) =
      peer_path-since sh id j (path_kind relay) (some addr) none
  on_report-since sh id j other_event = refl
  on_report-since sh id j (heartbeat paths) = log_selected-since sh id j paths

  on_reports-since :
      (sh : Shared Key) (id j : Key) (rs : List Report)
      → since (live id_eq (on_reports sh id rs) j) ≡ since (live id_eq sh j)
  unfolding on_reports
  on_reports-since sh id j [] = refl
  on_reports-since sh id j (r ∷ rs) =
      on_reports-since (on_report sh id r) id j rs ∙ on_report-since sh id j r

  -- Whatever paths and events a connection reports, for as long as it likes: the same peers stay listed
  -- as connected, each since the same time.
  pub report_path-since :
      (sh : Shared Key) (id j : Key) (paths : List LinkPath) (rs : List Report)
      → since (live id_eq (report_path sh id paths rs) j) ≡ since (live id_eq sh j)
  unfolding report_path
  report_path-since sh id j paths rs =
      on_reports-since (log_selected sh id paths) id j rs ∙ log_selected-since sh id j paths

  -- Path reports leave the configuration and the reports on the listeners alone.
  pub on_report-config :
      (sh : Shared Key) (id : Key) (r : Report) → (on_report sh id r).config ≡ sh.config
  unfolding on_report log_selected peer_path
  on_report-config sh id (path_selected relay addr) = ground arith
  on_report-config sh id other_event = refl
  on_report-config sh id (heartbeat paths) = ground arith

  pub on_report-binds :
      (sh : Shared Key) (id : Key) (r : Report)
      → (on_report sh id r).runtime.binds ≡ sh.runtime.binds
  unfolding on_report log_selected peer_path
  on_report-binds sh id (path_selected relay addr) = ground arith
  on_report-binds sh id other_event = refl
  on_report-binds sh id (heartbeat paths) = ground arith
