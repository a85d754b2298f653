-- ===== src/Connect/Retry.antt =====
-- The reconnect loop of connect.rs: `run` after its listeners are bound. What becomes of one attempt to
-- dial, and of the connection that it makes, is an argument; a delay is in seconds. The edits that the
-- loop serves while it waits do not touch the delay.
pub mod Ladder
use rust_tunnel.Base.{ℕ, ◌*◌, List, [], ◌∷◌, min}

-- `BACKOFF_START` and `BACKOFF_MAX`
abbrev pub backoff_start : ℕ
backoff_start = 1

abbrev pub backoff_max : ℕ
backoff_max = 30

pub data Attempt : Type 0 where
  dial_failed lost closed_by_peer : Attempt

-- How the loop stands after the attempts: given up, or about to dial with a delay in hand.
pub data Standing : Type 0 where
  gave_up : Standing
  dialing : ℕ → Standing

-- `(delay * 2).min(BACKOFF_MAX)`
unfoldable pub next_delay : ℕ → ℕ
next_delay delay = min (delay * 2) backoff_max

-- The waits between attempts, and where the loop then stands.
unfoldable pub retry : ℕ → List Attempt → List ℕ × Standing
retry delay [] = ([], dialing delay)
retry delay (dial_failed ∷ more) =
    let (waits, end) = retry (next_delay delay) more in (delay ∷ waits, end)
retry delay (lost ∷ more) =
    let (waits, end) = retry (next_delay backoff_start) more in (backoff_start ∷ waits, end)
retry delay (closed_by_peer ∷ more) = ([], gave_up)
