-- ===== src/Serve/Evict.antt =====
-- `evict_when_revoked` of serve.rs against the edits that race with it. The accept loop's task reads
-- the configuration, and the watcher subscribes in a task of its own, later. `pending` says that the
-- watch channel holds a configuration that the watcher has not been woken for.
pub mod Races
use rust_tunnel.Base.{◌≡◌, Bool, true, false, Option, none, some, if◌then◌else◌, codes}
use rust_tunnel.Config.Types.{Config}
use rust_tunnel.Config.Grants.{admits}
use rust_tunnel.Serve.Streams.{Close, refused_peer, not_allowlisted}

pub data Watch : Type 0 where
  checking spawned watching ended : Watch

pub record Link (Key : Type 0) : Type 0 where
  pub config : Config Key
  pub watch : Watch
  pub pending : Bool
  pub close : Option Close

module _ {Key : Type 0} (id_eq : Discrete Key) (peer : Key) where
  -- The check in the accept loop.
  unfoldable pub check : Link Key → Link Key
  check l =
      if admits id_eq l.config peer
      then record l { watch = spawned }
      else record l { watch = ended; close = some not_allowlisted }

  -- One turn of the watcher's loop.
  unfoldable pub wake : Link Key → Link Key
  wake l = if admits id_eq l.config peer then record l { pending = false } else record l {
    watch = ended;
    pending = false;
    close = some (record { code = refused_peer; reason = codes "access revoked" });
  }

  pub data Move : Link Key → Link Key → Type 0 where
    -- An edit elsewhere publishes a configuration.
    publish : (l : Link Key) (c : Config Key) → Move l (record l { config = c; pending = true })
    checked : (l : Link Key) → l.watch ≡ checking → Move l (check l)
    -- `shared.subscribe()`: what the channel holds by then counts as seen.
    subscribe :
        (l : Link Key) → l.watch ≡ spawned → Move l (record l { watch = watching; pending = false })
    woken : (l : Link Key) → l.watch ≡ watching → l.pending ≡ true → Move l (wake l)

  pub data Moves (l : Link Key) : Link Key → Type 0 where
    still : Moves l l
    then : {m n : Link Key} → Moves l m → Move m n → Moves l n
