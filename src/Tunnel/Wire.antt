-- ===== src/Tunnel/Wire.antt =====
-- What is on the connection of a tunnel as it goes on.
use rust_tunnel.Base.{ℕ, All}
use rust_tunnel.Tunnel.{
  Sent, Tunnel, Step, sent, near_swept, replied, arrived, opened, open_failed, edited, changed,
  far_swept, answered, Run, start, onward, HasRoom,
}

module _ {Addr Key : Type 0} (key_eq : Discrete (Addr × ℕ)) (id_eq : Discrete Key)
    (peer : Key) where
  unfoldable pub Run-append :
      {s t u : Tunnel Addr Key}
      → Run key_eq id_eq peer s t
      → Run key_eq id_eq peer t u
      → Run key_eq id_eq peer s u
  Run-append run start = run
  Run-append run (onward later step) = onward (Run-append run later) step

  pub HasRoom-append :
      {s t u : Tunnel Addr Key} (run : Run key_eq id_eq peer s t)
      (later : Run key_eq id_eq peer t u)
      → HasRoom key_eq id_eq peer run
      → HasRoom key_eq id_eq peer later
      → HasRoom key_eq id_eq peer (Run-append run later)
  unfolding Run-append
  HasRoom-append run start room more = room
  HasRoom-append run (onward later step) room more = (HasRoom-append run later room more.0, more.1)

  module _ (P : Sent Addr → Type 0) where
    Step-All : {t u : Tunnel Addr Key} → Step key_eq id_eq peer t u → All P u.wire → All P t.wire
    Step-All (sent t a near sock now u16 minted) h = h.1
    Step-All (near_swept t now) h = h
    Step-All (replied t id now route near back) h = h
    Step-All (arrived t a now there reads) h = h
    Step-All (opened t id port payload handle now waits) h = h
    Step-All (open_failed t) h = h
    Step-All (edited t c) h = h
    Step-All (changed t reads) h = h
    Step-All (far_swept t now) h = h
    Step-All (answered t id port now reply) h = h

    -- What holds of all that was sent held of all that was sent before.
    pub Run-All : {t u : Tunnel Addr Key} → Run key_eq id_eq peer t u → All P u.wire → All P t.wire
    Run-All start h = h
    Run-All (onward run step) h = Run-All run (Step-All step h)
