-- ===== src/Tunnel/Streams.antt =====
-- A TCP client from end to end: the forwarder that accepts it, the stream that it opens, and what the
-- serving side makes of it.
use rust_tunnel.Base.{
  ◌≡◌, refl, sym, ap, subst, ◌↔◌, ℕ, Bool, true, false, List, [], ◌∷◌, Option, none, some, inl, inr,
  All-Any, Any, Any-weaken, Distinct,
}
use rust_tunnel.Errors.{ok}
use rust_tunnel.Framing.{IsU16}
use rust_tunnel.Config.Types.{Config, PortMap, Binding, tcp}
use rust_tunnel.Config.Validate.{validate}
use rust_tunnel.Config.Grants.{active_bindings}
use rust_tunnel.Config.Grants.Reach.{peer_id, CanReach}
use rust_tunnel.State.{Shared}
use rust_tunnel.Connect.Listeners.{Answer}
use rust_tunnel.Connect.Forward.{Task, accept_tcp, forward_tcp, accept_loop}
use rust_tunnel.Connect.Forward.Purpose.{IsFor, Carries}
use rust_tunnel.Connect.Link.{Link, linked, begin, Run}
use rust_tunnel.Connect.Link.Forwarding.{tasks_lem}
use rust_tunnel.Serve.Streams.{serve_stream, piped}
use rust_tunnel.Serve.Streams.Refused.{serve_stream_iff}

-- A stream of the loop is the one of some client.
stream_of_client :
    (m : PortMap) (clients : List (Option (List ℕ))) (stream : List ℕ)
    → Any (λ s. s ≡ stream) (accept_loop m clients)
    → (sent : List ℕ) × Any (λ c. c ≡ some sent) clients × (forward_tcp m.remote sent ≡ stream)
unfolding accept_loop
stream_of_client m [] stream h = elim h [ ]
stream_of_client m (none ∷ clients) stream h = elim h [ ]
stream_of_client m (some sent ∷ clients) stream (inl same) = (sent, inl refl, same)
stream_of_client m (some sent ∷ clients) stream (inr h) =
    let (other, there, same) = stream_of_client m clients stream h in (other, inr there, same)

module _ {Key : Type 0} (id_eq : Discrete Key) (peer me : Key) where
  -- What the serving side makes of the stream: the client's bytes go to the port, if I may reach it.
  abbrev pub Reaches : (ℕ → Bool) → Config Key → List (Option (List ℕ)) → List ℕ → ℕ → Type 0
  Reaches answers c clients stream port =
      (sent : List ℕ) × Any (λ k. k ≡ some sent) clients
      × ((serve_stream id_eq answers c me stream ≡ piped port sent)
          ↔ (CanReach id_eq c me tcp port × (answers port ≡ true)))

  stream-Reaches :
      (answers : ℕ → Bool) (c : Config Key) (m : PortMap) (clients : List (Option (List ℕ)))
      (stream : List ℕ)
      → IsU16 m.remote
      → Distinct (peer_id id_eq) c.serve.peers
      → Any (λ s. s ≡ stream) (accept_loop m clients)
      → Reaches answers c clients stream m.remote
  unfolding forward_tcp
  stream-Reaches answers c m clients stream u16 distinct there =
      let (sent, client, same) = stream_of_client m clients stream there in
      let (piped_iff, reset_iff) = serve_stream_iff id_eq answers c me m.remote sent u16 distinct in
      (sent, client, rw (sym same) piped_iff)

  -- Suppose the loop of `run` began with a valid configuration, holds a connection and has been
  -- woken for the last edit, that the far configuration lists no id twice, and that the remote port
  -- of one of its TCP forwarders is a `u16`. Then some enabled TCP binding has the local and the
  -- remote port of that forwarder, and each stream that the forwarder opens is for bytes that some
  -- client sends, which are piped to that remote port on the far side if and only if I can reach
  -- the port there and the local service answers.
  pub accept_loop-Reaches :
      (os : Binding → Answer) (sh : Shared Key) (l n : Link Key) (ts : List Task) (sock : ℕ)
      (m : PortMap) (clients : List (Option (List ℕ))) (stream : List ℕ) (answers : ℕ → Bool)
      (c : Config Key)
      → validate id_eq sh.config ≡ ok tt
      → begin os sh ≡ ok l
      → Run id_eq peer l n
      → n.pending ≡ false
      → n.phase ≡ linked ts
      → Any (λ t. t ≡ accept_tcp sock m) ts
      → Any (λ s. s ≡ stream) (accept_loop m clients)
      → IsU16 m.remote
      → Distinct (peer_id id_eq) c.serve.peers
      → Any
          (λ b. Carries tcp m b × Reaches answers c clients stream b.remote)
          (active_bindings n.shared.config)
  accept_loop-Reaches os sh l n ts sock m clients stream answers c valid begun run quiet at task
        there u16 distinct =
      let want = active_bindings n.shared.config in
      let (each, every) = tasks_lem id_eq peer os sh l n ts valid begun run quiet at in
      let mine : Any (Carries tcp m) want =
        All-Any (IsFor want) (λ t. t ≡ accept_tcp sock m) ts
          (λ t is same. subst (IsFor want) same is) each task in
      Any-weaken _ _ want
        (λ b carries. (
          carries,
          subst (Reaches answers c clients stream) (sym (ap (λ (p : PortMap). p.remote) carries.1))
              (stream-Reaches answers c m clients stream u16 distinct there),
        ))
        mine
