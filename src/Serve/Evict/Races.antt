-- ===== src/Serve/Evict/Races.antt =====
-- The eviction watcher of serve.rs and the edits, in every order.
use rust_tunnel.Base.{◌≡◌, refl, inl, inr, Bool-cases, true, false, none, some}
use rust_tunnel.Config.Types.{Config}
use rust_tunnel.Config.Grants.{admits}
use rust_tunnel.Serve.Streams.{Close, refused_peer}
use rust_tunnel.Serve.Evict.{
  checking, spawned, watching, ended, Link, check, wake, Move, publish, checked, subscribe, woken,
  Moves, still, then,
}

module _ {Key : Type 0} (id_eq : Discrete Key) (peer : Key) where
  -- The watcher is subscribed, and has work to do if the peer is no longer admitted; or it has closed
  -- the connection.
  pub data IsEnforced (l : Link Key) : Type 0 where
    closed : (c : Close) → l.watch ≡ ended → l.close ≡ some c → c.code ≡ refused_peer → IsEnforced l
    due : l.watch ≡ watching → l.pending ≡ true → IsEnforced l
    admitted : l.watch ≡ watching → admits id_eq l.config peer ≡ true → IsEnforced l

  pub Move-IsEnforced : {l m : Link Key} → Move id_eq peer l m → IsEnforced l → IsEnforced m
  unfolding check wake
  Move-IsEnforced (publish l c) (closed k e h code) = closed k e h code
  Move-IsEnforced (publish l c) (due w p) = due w refl
  Move-IsEnforced (publish l c) (admitted w a) = due w refl
  Move-IsEnforced (checked l w) i = absurd (checking-IsEnforced i w)
    where
      checking-IsEnforced : IsEnforced l → l.watch ≡ checking → ⊥
      checking-IsEnforced (closed k e h code) c = cc
      checking-IsEnforced (due w p) c = cc
      checking-IsEnforced (admitted w a) c = cc
  Move-IsEnforced (subscribe l w) i = absurd (spawned-IsEnforced i w)
    where
      spawned-IsEnforced : IsEnforced l → l.watch ≡ spawned → ⊥
      spawned-IsEnforced (closed k e h code) c = cc
      spawned-IsEnforced (due w p) c = cc
      spawned-IsEnforced (admitted w a) c = cc
  Move-IsEnforced (woken l w p) i = elim (Bool-cases (admits id_eq l.config peer)) [
    | inl a ↦ rw a (admitted w a)
    | inr a ↦ rw a (closed _ refl refl refl)
  ]

  -- From the moment that the eviction watcher is subscribed and the peer is admitted, whatever
  -- edits are published: the connection is closed with the refusal code, or the watcher still has an edit to be woken
  -- for, or the running configuration admits the peer.
  pub Moves-IsEnforced :
      (l m : Link Key)
      → l.watch ≡ watching
      → admits id_eq l.config peer ≡ true
      → Moves id_eq peer l m
      → IsEnforced m
  Moves-IsEnforced l m w a still = admitted w a
  Moves-IsEnforced l m w a (then run move) = Move-IsEnforced move (Moves-IsEnforced l _ w a run)

  -- An edit that revokes the peer after the admission check and before the watcher subscribes is
  -- missed: the watcher then waits with nothing pending, over an open connection of a peer that is
  -- not admitted.
  pub missed_revocation :
      (l : Link Key) (c : Config Key)
      → l.watch ≡ spawned
      → l.close ≡ none
      → admits id_eq c peer ≡ false
      → (m : Link Key) × Moves id_eq peer l m
        × (m.watch ≡ watching)
        × (m.pending ≡ false)
        × (m.close ≡ none)
        × (admits id_eq m.config peer ≡ false)
  missed_revocation l c w open_link revoked = (
    record l { config = c; watch = watching; pending = false },
    then (then still (publish l c)) (subscribe (record l { config = c; pending = true }) w),
    refl,
    refl,
    open_link,
    revoked,
  )
