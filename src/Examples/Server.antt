-- ===== src/Examples/Server.antt =====
-- The server with one connection: the laptop arrives, and a datagram of it opens session 5.
use rust_tunnel.Base.{
  ℕ, ◌≡◌, refl, true, false, none, some, List, [], ◌∷◌, ℕ_discrete, get, insert, arith,
}
use rust_tunnel.Framing.{encode_datagram, decode_datagram}
use rust_tunnel.Config.Types.{udp}
use rust_tunnel.Config.Grants.{
  admits, granted, peer, peer_granted, may_reach, insert_sorted, sort, dedup, dedup_after,
}
use rust_tunnel.State.{no_path, peer_connected}
use rust_tunnel.State.Facts.{live}
use rust_tunnel.Serve.Sessions.{Socket, touch, open_session}
use rust_tunnel.Serve.Pump.{
  PumpState, at_start, datagram, opened, receive, on_datagram, on_opened, to_known, opening,
}
use rust_tunnel.Serve.Streams.{accept}
use rust_tunnel.Serve.Server.{
  Conn, Server, put, newcomer, arrive, subscribe, History, begun, further, arrived, subscribed,
  pumped,
}
use rust_tunnel.Serve.Server.Listed.{IsListed, History-IsListed}
use rust_tunnel.Serve.Server.Pumps.{History-delivers}
use rust_tunnel.Serve.Server.Twins.{twins, Forgets, twin_unlisted}
use rust_tunnel.Examples.Samples.{sample}
use rust_tunnel.Examples.State.{running}

abbrev pub query : List ℕ
query = encode_datagram 5 53 (1 ∷ 2 ∷ [])

abbrev waiting : PumpState ℕ
waiting = on_datagram ℕ_discrete 7 (at_start sample) query 10

abbrev connected : PumpState ℕ
connected = on_opened ℕ_discrete 7 waiting 5 53 99 11

abbrev pub dns_socket : Socket
dns_socket = record { handle = 99; target = 53 }

waiting_phase : waiting.phase ≡ opening 5 53 (1 ∷ 2 ∷ [])
unfolding on_datagram receive decode_datagram encode_datagram may_reach granted peer peer_granted
    insert_sorted sort dedup dedup_after touch get ℕ_discrete
waiting_phase = refl

connected_receives :
    (receive ℕ_discrete 7 sample connected.sessions query 12).0 ≡ to_known dns_socket (1 ∷ 2 ∷ [])
unfolding on_opened open_session on_datagram receive decode_datagram encode_datagram may_reach
    granted peer peer_granted insert_sorted sort dedup dedup_after touch get ℕ_discrete insert
connected_receives = refl

connected_idle : connected.pending ≡ false
unfolding on_opened on_datagram
connected_idle = refl

abbrev pub quiet : Server ℕ
quiet = record { shared = running; conns = λ i. none }

abbrev laptop_in : Server ℕ
laptop_in = arrive ℕ_discrete 0 7 5 quiet

abbrev pub new_conn : Conn ℕ
new_conn = newcomer sample 7

abbrev reading_in : Server ℕ
reading_in = subscribe 0 new_conn laptop_in

abbrev with_pump : PumpState ℕ → Conn ℕ
with_pump p = record new_conn { pump = some p }

abbrev asked_in : Server ℕ
asked_in = record reading_in { conns = put 0 (some (with_pump waiting)) reading_in.conns }

abbrev open_in : Server ℕ
open_in = record asked_in { conns = put 0 (some (with_pump connected)) asked_in.conns }

arrived_conn : laptop_in.conns 0 ≡ some new_conn
unfolding arrive accept admits peer ℕ_discrete
arrived_conn = refl

reading_conn : reading_in.conns 0 ≡ some (with_pump (at_start sample))
unfolding subscribe arrive accept admits peer peer_connected get ℕ_discrete
reading_conn = refl

asked_conn : asked_in.conns 0 ≡ some (with_pump waiting)
unfolding ℕ_discrete
asked_conn = refl

open_conn : open_in.conns 0 ≡ some (with_pump connected)
unfolding ℕ_discrete
open_conn = refl

in_force : reading_in.shared.config ≡ sample
unfolding subscribe arrive accept admits peer peer_connected get ℕ_discrete
in_force = refl

waiting_config : waiting.config ≡ reading_in.shared.config
unfolding on_datagram subscribe arrive accept admits peer peer_connected get ℕ_discrete
waiting_config = refl

connected_config : connected.config ≡ asked_in.shared.config
unfolding on_opened on_datagram subscribe arrive accept admits peer peer_connected get ℕ_discrete
connected_config = refl

trace : History ℕ_discrete quiet open_in
trace =
    further
      (further
        (further (further begun (arrived quiet 0 7 5 refl))
          (subscribed laptop_in 0 new_conn arrived_conn refl))
        (pumped reading_in 0 (with_pump (at_start sample)) (at_start sample) waiting reading_conn
          refl (datagram (at_start sample) query 10 refl) waiting_config))
      (pumped asked_in 0 (with_pump waiting) waiting connected asked_conn refl
        (opened waiting 5 53 (1 ∷ 2 ∷ []) 99 11 waiting_phase) connected_config)

delivered :
    (receive ℕ_discrete 7 open_in.shared.config connected.sessions query 12).0
    ≡ to_known dns_socket (1 ∷ 2 ∷ [])
delivered = rw in_force connected_receives

History-delivers_example : may_reach ℕ_discrete open_in.shared.config 7 udp 53 ≡ true
History-delivers_example =
    History-delivers ℕ_discrete quiet open_in 0 (with_pump connected) connected query 12 dns_socket
      (1 ∷ 2 ∷ []) (λ j. refl) trace open_conn refl connected_idle delivered

nobody-IsListed : IsListed ℕ_discrete quiet
unfolding live get
nobody-IsListed id e there = absurd (cc)

History-IsListed_example : IsListed ℕ_discrete open_in
History-IsListed_example = History-IsListed ℕ_discrete nobody-IsListed trace

quiet_admits : admits ℕ_discrete sample 7 ≡ true
unfolding admits peer ℕ_discrete
quiet_admits = refl

laptop_unlisted : live ℕ_discrete running 7 ≡ none
unfolding live get
laptop_unlisted = refl

abbrev twice_in : Server ℕ
twice_in = twins ℕ_discrete 0 1 7 5 6 quiet

twin_unlisted_example :
    (twice_in.conns 0 ≡ some new_conn)
    × (twice_in.conns 1 ≡ some new_conn)
    × (live ℕ_discrete twice_in.shared 7 ≡ some (5, no_path))
    × Forgets ℕ_discrete twice_in new_conn 0 1
    × Forgets ℕ_discrete twice_in new_conn 1 0
twin_unlisted_example =
    twin_unlisted ℕ_discrete quiet 0 1 7 5 6 (λ e. omega (arith, e)) quiet_admits laptop_unlisted
