-- ===== src/Connect/Retry/Ladder.antt =====
-- The waits of the reconnect loop, against the number of failures in a row.
use rust_tunnel.Base.{◌≡◌, refl, ap, ◌↔◌, ℕ, suc, ◌^◌, List, [], ◌∷◌, min, arith, Any, inl, inr}
use rust_tunnel.Connect.Retry.{
  backoff_start, backoff_max, Attempt, dial_failed, lost, closed_by_peer, gave_up, next_delay,
  retry,
}

-- The wait after `n` failures in a row.
abbrev pub rung : ℕ → ℕ
rung n = min (2 ^ n) backoff_max

-- The waits, each from the number of failures in a row before it.
unfoldable pub rungs : ℕ → List Attempt → List ℕ
rungs n [] = []
rungs n (dial_failed ∷ more) = rung n ∷ rungs (suc n) more
rungs n (lost ∷ more) = rung 0 ∷ rungs 1 more
rungs n (closed_by_peer ∷ more) = []

next_delay-rung : (n : ℕ) → next_delay (rung n) ≡ rung (suc n)
unfolding next_delay
next_delay-rung n = ground arith

-- The waits of the reconnect loop, whatever its dials end in, are the powers of two in seconds up
-- to thirty, by the number of failed dials in a row, and start over at one second whenever a
-- connection was made.
pub retry-rung : (n : ℕ) (more : List Attempt) → (retry (rung n) more).0 ≡ rungs n more
unfolding retry rungs
retry-rung n [] = refl
retry-rung n (dial_failed ∷ more) =
    ground (arith, ap (λ d. (retry d more).0) (next_delay-rung n), retry-rung (suc n) more)
retry-rung n (lost ∷ more) =
    ground (arith, ap (λ d. (retry d more).0) (next_delay-rung 0), retry-rung 1 more)
retry-rung n (closed_by_peer ∷ more) = refl

-- The reconnect loop gives up exactly if the peer closes a connection with an application code;
-- failed dials and lost connections never end it.
pub gave_up_iff :
    (delay : ℕ) (more : List Attempt)
    → ((retry delay more).1 ≡ gave_up) ↔ Any (λ a. a ≡ closed_by_peer) more
unfolding retry
gave_up_iff delay [] = (λ e. absurd (cc), λ h. absurd h)
gave_up_iff delay (dial_failed ∷ more) =
    let rest = gave_up_iff (next_delay delay) more in
    (λ e. inr (rest.0 e), λ h. elim h [ inl bad ↦ absurd (cc) | inr r ↦ rest.1 r ])
gave_up_iff delay (lost ∷ more) =
    let rest = gave_up_iff (next_delay backoff_start) more in
    (λ e. inr (rest.0 e), λ h. elim h [ inl bad ↦ absurd (cc) | inr r ↦ rest.1 r ])
gave_up_iff delay (closed_by_peer ∷ more) = (λ e. inl refl, λ h. refl)
