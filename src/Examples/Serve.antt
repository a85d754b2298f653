-- ===== src/Examples/Serve.antt =====
-- The serving side at concrete inputs.
use rust_tunnel.Base.{ℕ, Bool, ◌≡◌, ◌↔◌, refl, true, false, none, [], ◌∷◌, ℕ_discrete, arith}
use rust_tunnel.Config.Types.{Config, tcp, udp}
use rust_tunnel.Config.Grants.{
  admits, granted, peer, peer_granted, may_reach, insert_sorted, sort, dedup, dedup_after,
}
use rust_tunnel.Config.Grants.Reach.{CanReach}
use rust_tunnel.Serve.Streams.{refused_port, serve_stream, piped, reset}
use rust_tunnel.Serve.Streams.Refused.{opening_bytes, serve_stream_iff}
use rust_tunnel.Serve.Evict.{Link, watching, spawned, Moves}
use rust_tunnel.Serve.Evict.Races.{missed_revocation}
use rust_tunnel.Serve.Sessions.{Session, Socket}
use rust_tunnel.Examples.Samples.{sample, laptop, dns}
use rust_tunnel.Examples.Config.{sample-IsValid}

abbrev listening_port : ℕ → Bool
listening_port port = true

serve_stream_iff_example :
    ((serve_stream ℕ_discrete listening_port sample 7 (opening_bytes ℕ_discrete 22 (1 ∷ []))
        ≡ piped 22 (1 ∷ []))
      ↔ (CanReach ℕ_discrete sample 7 tcp 22 × (listening_port 22 ≡ true)))
    × ((serve_stream ℕ_discrete listening_port sample 7 (opening_bytes ℕ_discrete 22 (1 ∷ []))
          ≡ reset refused_port)
        ↔ ¬ (CanReach ℕ_discrete sample 7 tcp 22))
serve_stream_iff_example =
    serve_stream_iff ℕ_discrete listening_port sample 7 22 (1 ∷ []) (omega arith)
      sample-IsValid.peers_distinct

-- The edit that empties the allowlist.
abbrev nobody : Config ℕ
nobody = record { serve = record { shared = []; peers = [] }; connect = record { bindings = [] } }

laptop_revoked : admits ℕ_discrete nobody 7 ≡ false
unfolding admits peer
laptop_revoked = refl

abbrev unwatched : Link ℕ
unwatched = record { config = sample; watch = spawned; pending = false; close = none }

missed_revocation_example :
    (m : Link ℕ) × Moves ℕ_discrete 7 unwatched m
    × (m.watch ≡ watching)
    × (m.pending ≡ false)
    × (m.close ≡ none)
    × (admits ℕ_discrete m.config 7 ≡ false)
missed_revocation_example = missed_revocation ℕ_discrete 7 unwatched nobody refl refl laptop_revoked

abbrev dns_socket : Socket
dns_socket = record { handle = 99; target = 53 }

-- The laptop may reach 53 and 54, and session 5 is a socket to 53.
abbrev pub two_ports : Config ℕ
two_ports = record {
  serve = record {
    shared = [];
    peers = record laptop { offers = dns ∷ record dns { port = 54 } ∷ [] } ∷ [];
  };
  connect = record { bindings = [] };
}

abbrev pub dns_session : Session
dns_session = record { sock = dns_socket; last = 11; port = 53 }

pub port_54_granted : may_reach ℕ_discrete two_ports 7 udp 54 ≡ true
unfolding may_reach granted peer peer_granted insert_sorted sort dedup dedup_after ℕ_discrete
port_54_granted = refl
