-- ===== src/Exec.antt =====
-- A method that changes shared state and may fail: what was done before a failure stays done, so the
-- state comes back beside an error too.
use rust_tunnel.Errors.{Result, ok, err, Context, with_context}

abbrev pub Exec {ℓ} : Type ℓ → Type ℓ → Type ℓ
Exec State Out = State → Result Out × State

module _ {ℓ} {State Out : Type ℓ} where
  -- The state read through a function.
  abbrev pub gets : (State → Out) → Exec State Out
  gets view now = (ok (view now), now)

  -- A check or a computation that does not touch the state.
  abbrev pub lift : Result Out → Exec State Out
  lift answer now = (answer, now)

  abbrev pub pure : Out → Exec State Out
  pure out = lift (ok out)

  -- `.context(c)` on the result of a method.
  abbrev pub in_context_of : Context → Exec State Out → Exec State Out
  in_context_of c run now = let (answer, then) = run now in (with_context c answer, then)

abbrev pub modify : {State : Type 0} → (State → State) → Exec State (Unit {0})
modify change now = (ok tt, change now)

module _ {ℓ} {State Out Next : Type ℓ} where
  -- What follows an answer: nothing after an error.
  abbrev pub after : Result Out → (Out → Exec State Next) → Exec State Next
  after (err fault) rest now = (err fault, now)
  after (ok out) rest now = rest out now

  infixl 10 ◌>>=◌
  abbrev pub ◌>>=◌ : Exec State Out → (Out → Exec State Next) → Exec State Next
  ◌>>=◌ run rest now = let (answer, then) = run now in after answer rest then

  infixl 10 ◌>>◌
  abbrev pub ◌>>◌ : Exec State Out → Exec State Next → Exec State Next
  first >> second = first >>= λ done. second
