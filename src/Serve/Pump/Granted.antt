-- ===== src/Serve/Pump/Granted.antt =====
-- The sessions of the pump against the grants: an open session is a socket to a local service.
use rust_tunnel.Base.{
  ◌≡◌, refl, sym, ◌∙◌, subst, ℕ, true, false, some, List, [], ◌∷◌, Option-cases, inl, inr, arith,
  All, filter, All-filter, All_pass-filter, All-remove, All-get, get, insert, ℕ_discrete,
}
use rust_tunnel.Framing.{decode_datagram}
use rust_tunnel.Config.Types.{Config, udp}
use rust_tunnel.Config.Grants.{may_reach, contains}
use rust_tunnel.Serve.Sessions.{
  Socket, Session, Sessions, touch, reap, drop_ungranted, open_session,
}
use rust_tunnel.Serve.Pump.{
  Received, to_known, PumpState, granted_ports, receive, on_datagram, on_change, on_opened, Step,
  publish, change, datagram, opened, open_failed, tick, reply, Run, start, then, at_start,
}
use rust_tunnel.Serve.Pump.View.{
  contains-granted_ports, IsAllowed, IsConnected, IsAllowedPhase, IsGranted, View, short, barred,
  known, fresh, receive-View, View-allowed, All-View, on_reply-View, ReplyView-IsGranted,
}

module _ {Key : Type 0} (id_eq : Discrete Key) (peer : Key) where
  -- What passes the test of `drop_ungranted` is allowed.
  drop_ungranted-IsAllowed :
      (c : Config Key) (t : Sessions)
      → All (IsAllowed id_eq peer c) (drop_ungranted t (granted_ports id_eq peer c))
  unfolding drop_ungranted
  drop_ungranted-IsAllowed c t =
      All_weaken (filter _ t)
        (All_pass-filter (λ (e : ℕ × Session). contains (granted_ports id_eq peer c) e.1.port) t)
    where
      All_weaken :
          (l : Sessions)
          → All (λ (e : ℕ × Session). contains (granted_ports id_eq peer c) e.1.port ≡ true) l
          → All (IsAllowed id_eq peer c) l
      All_weaken [] h = tt
      All_weaken (e ∷ l) h =
          (sym (contains-granted_ports id_eq peer c e.1.port) ∙ h.0, All_weaken l h.1)

  Step-IsGranted :
      {s s' : PumpState Key}
      → Step id_eq peer s s'
      → IsGranted id_eq peer s
      → IsGranted id_eq peer s'
  unfolding on_datagram on_change on_opened reap drop_ungranted open_session insert
  Step-IsGranted (publish s c) g = record {
    connected = g.connected;
    allowed = λ e. absurd (cc);
    next = λ e. absurd (cc);
  }
  Step-IsGranted (change s r) g = record {
    connected = All-filter (IsConnected id_eq peer) _ s.sessions g.connected;
    allowed = λ e. drop_ungranted-IsAllowed s.config s.sessions;
    next = λ e. rw r tt;
  }
  Step-IsGranted (datagram s dg now r) g =
      let view = receive-View id_eq peer s.config s.sessions dg now in
      record {
        connected =
            All-View id_eq peer (IsConnected id_eq peer) (λ id u later h. h) g.connected view;
        allowed = λ e.
            All-View id_eq peer (IsAllowed id_eq peer s.config) (λ id u later h. h) (g.allowed e)
              view;
        next = λ e. View-allowed id_eq peer view;
      }
  Step-IsGranted (opened s id port payload handle now p) g = record {
    connected = (refl, All-remove ℕ_discrete (IsConnected id_eq peer) s.sessions id g.connected);
    allowed = λ e. (
      subst (IsAllowedPhase id_eq peer s.config) p (g.next e),
      All-remove ℕ_discrete (IsAllowed id_eq peer s.config) s.sessions id (g.allowed e),
    );
    next = λ e. tt;
  }
  Step-IsGranted (open_failed s) g = record {
    connected = g.connected;
    allowed = g.allowed;
    next = λ e. tt;
  }
  Step-IsGranted (tick s now) g = record {
    connected = All-filter (IsConnected id_eq peer) _ s.sessions g.connected;
    allowed = λ e. All-filter (IsAllowed id_eq peer s.config) _ s.sessions (g.allowed e);
    next = g.next;
  }
  Step-IsGranted (reply s id now) g =
      ReplyView-IsGranted id_eq peer s (on_reply-View id_eq peer s id now) g

  Run-IsGranted :
      {s s' : PumpState Key}
      → Run id_eq peer s s'
      → IsGranted id_eq peer s
      → IsGranted id_eq peer s'
  Run-IsGranted start g = g
  Run-IsGranted (then run step) g = Step-IsGranted step (Run-IsGranted run g)

  pub at_start-IsGranted : (c : Config Key) → IsGranted id_eq peer (at_start c)
  at_start-IsGranted c = record { connected = tt; allowed = λ e. tt; next = λ e. tt }

  pub reached-IsGranted :
      (c : Config Key) (s : PumpState Key) → Run id_eq peer (at_start c) s → IsGranted id_eq peer s
  reached-IsGranted c s run = Run-IsGranted run (at_start-IsGranted c)

  View-delivers :
      (s : PumpState Key) (dg : List ℕ) (now : ℕ) (sock : Socket) (payload : List ℕ)
      → IsGranted id_eq peer s
      → s.pending ≡ false
      → {r : Received × Sessions} → View id_eq peer s.config s.sessions dg now r
      → r.0 ≡ to_known sock payload
      → may_reach id_eq s.config peer udp sock.target ≡ true
  unfolding touch
  View-delivers s dg now sock payload g idle (short e) made = absurd (cc)
  View-delivers s dg now sock payload g idle (barred id port p e b) made = absurd (cc)
  View-delivers s dg now sock payload g idle (known id port p sk t e m f) made =
      elim (Option-cases (get ℕ_discrete s.sessions id)) [
        | inl absent ↦ absurd (ground arith)
        | inr (u, found) ↦
            let ok =
              All-get ℕ_discrete (IsAllowed id_eq peer s.config) s.sessions id u (g.allowed idle)
                found in
            let conn =
              All-get ℕ_discrete (IsConnected id_eq peer) s.sessions id u g.connected found in
            let same : u.sock ≡ sock = ground arith in
            subst (λ (k : Socket). may_reach id_eq s.config peer udp k.target ≡ true) same
              (subst (λ n. may_reach id_eq s.config peer udp n ≡ true) (sym conn) ok)
      ]
  View-delivers s dg now sock payload g idle (fresh id port p e m f) made = absurd (cc)

  -- At any moment of a run of the UDP pump, whatever edits, datagrams, opened or failed sockets,
  -- replies and reaper sweeps came before in any order: once the pump has been woken for the latest
  -- edit, a payload that it hands to the socket of a known session goes to a local port that the
  -- peer is granted now.
  pub receive_delivers :
      (c : Config Key) (s : PumpState Key) (dg : List ℕ) (now : ℕ) (sock : Socket)
      (payload : List ℕ)
      → Run id_eq peer (at_start c) s
      → s.pending ≡ false
      → (receive id_eq peer s.config s.sessions dg now).0 ≡ to_known sock payload
      → may_reach id_eq s.config peer udp sock.target ≡ true
  receive_delivers c s dg now sock payload run idle made =
      View-delivers s dg now sock payload (reached-IsGranted c s run) idle
        (receive-View id_eq peer s.config s.sessions dg now) made

  -- A datagram for a session that is open goes to the socket of that session, also when the port
  -- that it names is another one, as long as the peer is granted the named port.
  pub receive_other_port :
      (c : Config Key) (t : Sessions) (dg : List ℕ) (now : ℕ) (id port : ℕ) (payload : List ℕ)
      (old : Session)
      → decode_datagram dg ≡ some (id, port, payload)
      → get ℕ_discrete t id ≡ some old
      → may_reach id_eq c peer udp port ≡ true
      → (receive id_eq peer c t dg now).0 ≡ to_known old.sock payload
  unfolding receive touch
  receive_other_port c t dg now id port payload old e found may = ground arith
