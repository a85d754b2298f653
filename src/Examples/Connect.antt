-- ===== src/Examples/Connect.antt =====
-- The connecting side at concrete inputs. Source addresses are numbers.
use rust_tunnel.Base.{
  ℕ, ◌≡◌, ◌↔◌, refl, false, none, some, List, [], ◌∷◌, Any, ℕ_discrete, arith, get, insert, remove,
}
use rust_tunnel.Framing.{encode_datagram}
use rust_tunnel.Config.Types.{tcp, udp, port_key_eq, Binding}
use rust_tunnel.State.{failed, set_bind}
use rust_tunnel.Connect.Sessions.{
  Session, Sessions, no_sessions, id_for, reap, pump_udp_out, pump_udp_in, send_to,
}
use rust_tunnel.Connect.Sessions.Consistent.{IsConsistent}
use rust_tunnel.Connect.Sessions.Run.{at_first, sent, swept, Reached-IsConsistent}
use rust_tunnel.Connect.Sessions.Routes.{pump_udp_in-first_listener}
use rust_tunnel.Connect.Listeners.{Answer, refused, Listeners, tcp_listener, wants, reconcile}
use rust_tunnel.Connect.Listeners.Reconcile.{serve_wanted, get-reconcile}
use rust_tunnel.Connect.Listeners.Reports.{report, report-reconcile}
use rust_tunnel.Connect.Retry.{Attempt, dial_failed, lost, closed_by_peer, gave_up, retry}
use rust_tunnel.Connect.Retry.Ladder.{gave_up_iff}
use rust_tunnel.Examples.Samples.{forward}
use rust_tunnel.Examples.State.{running}

unfoldable pub pair_eq : Discrete (ℕ × ℕ)
unfolding ℕ_discrete
pair_eq = hlevel ℕ_discrete

abbrev one_session : Sessions ℕ
one_session = record {
  by_key = ((4000, 53), 1) ∷ [];
  by_id = (1, record { src = 4000; sock = 3; last = 100 }) ∷ [];
  next_id = 1;
}

first_minted : id_for pair_eq no_sessions 4000 53 3 100 ≡ some (1, one_session)
unfolding id_for get insert remove pair_eq ℕ_discrete
first_minted = refl

-- A first datagram, and a sweep.
Reached-IsConsistent_example : IsConsistent pair_eq (reap pair_eq one_session 200)
Reached-IsConsistent_example = Reached-IsConsistent pair_eq (reap pair_eq one_session 200) (
    swept one_session 200
      (sent no_sessions one_session 4000 53 3 100 1 at_first (omega arith) first_minted))

abbrev session_one : Session ℕ
session_one = record { src = 4000; sock = 3; last = 100 }

key_found : get pair_eq one_session.by_key (4000, 53) ≡ some 1
unfolding get pair_eq ℕ_discrete
key_found = refl

id_found : get ℕ_discrete one_session.by_id 1 ≡ some session_one
unfolding get ℕ_discrete
id_found = refl

-- The same source writes to a second listener, socket 8, for the same remote port.
abbrev after_second : Sessions ℕ
after_second = record one_session {
  by_id = insert ℕ_discrete one_session.by_id 1 (record session_one { last = 200 });
}

second_out :
    pump_udp_out pair_eq one_session 4000 53 8 (5 ∷ []) 200
    ≡ some (encode_datagram 1 53 (5 ∷ []), after_second)
unfolding pump_udp_out id_for
second_out = ground (arith, key_found, id_found)

pump_udp_in-first_listener_example :
    (pump_udp_in after_second (encode_datagram 1 53 (9 ∷ [])) 201).0 ≡ send_to 3 4000 (9 ∷ [])
pump_udp_in-first_listener_example =
    pump_udp_in-first_listener pair_eq one_session after_second 4000 1 53 8 200 201 (5 ∷ [])
      (9 ∷ []) (encode_datagram 1 53 (5 ∷ [])) session_one (omega arith) (omega arith) key_found
      id_found second_out

-- Socket 3 listens for the binding 2222:22, and any other bind fails.
abbrev busy : Binding → Answer
busy b = refused (1 ∷ [])

abbrev listening_on : Listeners
listening_on = ((tcp, 2222), (tcp_listener 3, 22)) ∷ []

get-reconcile_example :
    get port_key_eq (reconcile busy listening_on (forward ∷ []) running).bound (tcp, 2222)
    ≡ serve_wanted busy (forward ∷ []) (tcp, 2222) (get port_key_eq listening_on (tcp, 2222))
get-reconcile_example = get-reconcile busy listening_on (forward ∷ []) running (tcp, 2222) (tt, tt)

not_bound : get port_key_eq listening_on (udp, 5353) ≡ none
unfolding get port_key_eq ℕ_discrete
not_bound = refl

not_wanted : wants (forward ∷ []) (udp, 5353) ≡ false
unfolding wants port_key_eq ℕ_discrete
not_wanted = refl

report-reconcile_example :
    report
      (reconcile busy listening_on
        (forward ∷ [])
        (set_bind running udp 5353 (failed (1 ∷ [])))).shared
      (udp, 5353)
    ≡ report (set_bind running udp 5353 (failed (1 ∷ []))) (udp, 5353)
report-reconcile_example =
    report-reconcile busy listening_on (forward ∷ []) (set_bind running udp 5353 (failed (1 ∷ [])))
      (udp, 5353) not_bound not_wanted

abbrev bad_night : List Attempt
bad_night = dial_failed ∷ dial_failed ∷ lost ∷ dial_failed ∷ closed_by_peer ∷ []

gave_up_iff_example : ((retry 1 bad_night).1 ≡ gave_up) ↔ Any (λ a. a ≡ closed_by_peer) bad_night
gave_up_iff_example = gave_up_iff 1 bad_night
