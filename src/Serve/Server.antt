-- ===== src/Serve/Server.antt =====
-- `run` of serve.rs with all the connections that it serves: the accept loop's tasks, `serve_conn` and its
-- teardown, and the edits that reach the UDP pump and the eviction watcher of every connection. A
-- connection is a number; its pump is `none` until its task has subscribed, and its watcher runs as in
-- Evict.
pub mod Listed
pub mod Pumps
pub mod Watched
pub mod Removed
pub mod Twins
use rust_tunnel.Base.{◌≡◌, ◌≢◌, ℕ, ite, Option, none, some, true, false, ℕ_discrete}
use rust_tunnel.Config.Types.{Config}
use rust_tunnel.State.{Shared, peer_disconnected}
use rust_tunnel.Paths.{Report, on_report}
use rust_tunnel.Serve.Streams.{refuse, admit, accept}
use rust_tunnel.Serve.Pump.{PumpState, at_start, Step}
use rust_tunnel.Serve.Evict.{Link, spawned, Move}

pub record Conn (Key : Type 0) : Type 0 where
  pub peer : Key
  pub pump : Option (PumpState Key)
  pub watcher : Link Key

pub record Server (Key : Type 0) : Type 0 where
  pub shared : Shared Key
  pub conns : ℕ → Option (Conn Key)

module _ {Key : Type 0} where
  -- A connection opened, changed or dropped.
  abbrev pub put : ℕ → Option (Conn Key) → (ℕ → Option (Conn Key)) → ℕ → Option (Conn Key)
  put i conn conns j = ite (ℕ_discrete i j) conn (conns j)

  -- The watch channel has a new value.
  abbrev pub notify : Config Key → Link Key → Link Key
  notify c l = record l { config = c; pending = true }

  abbrev pub notify_pump : Config Key → Option (PumpState Key) → Option (PumpState Key)
  notify_pump c none = none
  notify_pump c (some p) = some (record p { config = c; pending = true })

  -- An edit, as the tasks of one connection get to see it.
  abbrev pub see : Config Key → Option (Conn Key) → Option (Conn Key)
  see c none = none
  see c (some k) = some (record k { pump = notify_pump c k.pump; watcher = notify c k.watcher })

  -- The watcher of a connection that has been admitted, before its task has subscribed.
  abbrev pub unsubscribed : Config Key → Link Key
  unsubscribed c = record { config = c; watch = spawned; pending = false; close = none }

  abbrev pub newcomer : Config Key → Key → Conn Key
  newcomer c id = record { peer = id; pump = none; watcher = unsubscribed c }

  unfoldable pub edit : Shared Key → Server Key → Server Key
  edit sh s = record { shared = sh; conns = λ j. see sh.config (s.conns j) }

  -- `pump_udp` up to its loop: `shared.subscribe()`.
  unfoldable pub subscribe : ℕ → Conn Key → Server Key → Server Key
  subscribe i k s = record s {
    conns = put i (some (record k { pump = some (at_start s.shared.config) })) s.conns;
  }

  -- The end of `serve_conn`: the pumps are stopped and the sessions dropped.
  abbrev pub hang_up : ℕ → Server Key → Server Key
  hang_up i s = record s { conns = put i none s.conns }

module _ {Key : Type 0} (id_eq : Discrete Key) where
  -- The task of one incoming connection, up to `serve_conn`.
  unfoldable pub arrive : ℕ → Key → ℕ → Server Key → Server Key
  arrive i id now s =
      let (answer, sh) = accept id_eq s.shared id now in
      elim answer [
        | refuse close ↦ record s { shared = sh }
        | admit name ↦ record {
          shared = sh;
          conns = put i (some (newcomer s.shared.config id)) s.conns;
        }
      ]

  -- The task of a connection that has ended: after `serve_conn`, the peer is not listed any more.
  unfoldable pub leave : ℕ → Conn Key → Server Key → Server Key
  leave i k s = let t = hang_up i s in record t { shared = peer_disconnected id_eq t.shared k.peer }

  pub data Happens : Server Key → Server Key → Type 0 where
    -- An edit leaves the runtime facts as they are.
    edited :
        (s : Server Key) (sh : Shared Key) → sh.runtime ≡ s.shared.runtime → Happens s (edit sh s)
    arrived :
        (s : Server Key) (i : ℕ) (id : Key) (now : ℕ)
        → s.conns i ≡ none
        → Happens s (arrive i id now s)
    subscribed :
        (s : Server Key) (i : ℕ) (k : Conn Key)
        → s.conns i ≡ some k
        → k.pump ≡ none
        → Happens s (subscribe i k s)
    -- A step of one pump, which sees the configuration of the watch channel.
    pumped :
        (s : Server Key) (i : ℕ) (k : Conn Key) (p q : PumpState Key)
        → s.conns i ≡ some k
        → k.pump ≡ some p
        → Step id_eq k.peer p q
        → q.config ≡ s.shared.config
        → Happens s (record s { conns = put i (some (record k { pump = some q })) s.conns })
    -- A step of one eviction watcher.
    watched :
        (s : Server Key) (i : ℕ) (k : Conn Key) (l : Link Key)
        → s.conns i ≡ some k
        → Move id_eq k.peer k.watcher l
        → l.config ≡ s.shared.config
        → Happens s (record s { conns = put i (some (record k { watcher = l })) s.conns })
    reported :
        (s : Server Key) (id : Key) (r : Report)
        → Happens s (record s { shared = on_report id_eq s.shared id r })
    closed : (s : Server Key) (i : ℕ) (k : Conn Key) → s.conns i ≡ some k → Happens s (leave i k s)

  pub data History (s : Server Key) : Server Key → Type 0 where
    begun : History s s
    further : {t u : Server Key} → History s t → Happens t u → History s u

  -- The same, as long as connection i stays open.
  pub data Meanwhile (i : ℕ) (s : Server Key) : Server Key → Type 0 where
    at_once : Meanwhile i s s
    still_open :
        {t u : Server Key} → Meanwhile i s t → Happens t u → u.conns i ≢ none → Meanwhile i s u
