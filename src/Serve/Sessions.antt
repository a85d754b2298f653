-- ===== src/Serve/Sessions.antt =====
-- The UDP session table of serve.rs: `Sessions`, keyed by the id that the connecting side minted. A
-- socket is the number by which the operating system knows it and the local port that it is connected
-- to. The reply task of a session runs as long as the session is in the table, since its removal
-- aborts the task; so the table stands for the tasks too.
use rust_tunnel.Base.{ℕ, ◌-◌, List, Option, none, some, ltb, filter, ℕ_discrete, Map, get, insert}
use rust_tunnel.Config.Grants.{contains}

-- main.rs: `UDP_IDLE`, in milliseconds.
abbrev pub udp_idle : ℕ
udp_idle = 60000

pub record Socket : Type 0 where
  pub handle : ℕ
  pub target : ℕ

pub record Session : Type 0 where
  pub sock : Socket
  pub last : ℕ
  pub port : ℕ

abbrev pub Sessions : Type 0
Sessions = Map ℕ Session

-- `Sessions::touch`: the socket of a known session, whose idle time starts again.
unfoldable pub touch : Sessions → ℕ → ℕ → Option (Socket × Sessions)
touch t id now = elim (get ℕ_discrete t id) [
  | none ↦ none
  | some s ↦ some (s.sock, insert ℕ_discrete t id (record s { last = now }))
]

-- `Sessions::reap`
unfoldable pub reap : Sessions → ℕ → Sessions
reap t now = filter (λ (e : ℕ × Session). ltb (now - e.1.last) udp_idle) t

-- `Sessions::drop_ungranted`
unfoldable pub drop_ungranted : Sessions → List ℕ → Sessions
drop_ungranted t granted = filter (λ (e : ℕ × Session). contains granted e.1.port) t

-- `open_session`, once the socket is bound and connected to the port.
unfoldable pub open_session : Sessions → ℕ → ℕ → ℕ → ℕ → Socket × Sessions
open_session t id port handle now =
    let sock : Socket = record { handle = handle; target = port } in
    (sock, insert ℕ_discrete t id (record { sock = sock; last = now; port = port }))
