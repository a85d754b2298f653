-- ===== src/Lib.antt =====
-- rtun forwards TCP and UDP ports between two machines over one QUIC connection. `rtun serve` offers
-- local ports to the peers on its allowlist; `rtun connect` binds local ports and carries them to the
-- ports of a serving peer. Both keep their settings in one TOML file that a web page may edit while
-- they run.
--
-- Parts, and the files that model them:
--   src/proto.rs: the bytes on the wire. Framing has the target port that opens a TCP stream
--     (`write_target_port`, `read_target_port`) and the datagram header (`encode_datagram`,
--     `decode_datagram`).
--   src/config.rs: the settings. Config.Types has the structs, Config.ProtoName the names
--     of the protocols (`as_str`, `from_str`), Config.Validate the checks (`validate`), Config.Grants
--     who may reach what (`admits`, `granted`, `active_bindings`),
--     Config.Seed the command-line flags (`seed_from_flags`, `seed_bindings`), Config.Persist the file
--     (`load`, `save`), Config.Token the secret of the admin page (`token_eq`, `mint_token`,
--     `load_or_create_token`), Start.Address the address of the admin page (`admin_addr`).
--   src/state.rs: State has `Shared`, its `mutate`, and the runtime facts that the page shows. The
--     watch channel is the configuration that it holds last; who has yet to be woken for it is a flag
--     of the tasks that wait (`pending` in Serve.Pump and Serve.Evict).
--   src/admin.rs: Admin.Edits has the closures that change the configuration, with Admin.Edits.Table,
--     which views the offers as a table of who is offered what, Admin.Handlers the handlers, which pass
--     the closures to `mutate`, Admin.Http what is read off a request (`presented_token`), Admin.Route
--     the routing, the token check and the statuses (`route`, `with_body`), Admin.Service the accept
--     loop (`serve`). Serve.Server.Removed and Connect.Link.Edited follow an accepted edit into the
--     connections and the forwarders.
--   src/serve.rs: Serve.Streams has the admission of a connection and `serve_stream`, Serve.Evict the
--     watcher that closes a revoked connection, Serve.Sessions the UDP session table, Serve.Pump the
--     loop `pump_udp` with `open_session` and `pump_replies`, Serve.Server `run` and `serve_conn`: all
--     the connections of a server, and the edits that reach each of their pumps and watchers, with
--     Serve.Server.Twins for two connections of one peer.
--   src/connect.rs: Connect.Listeners has `reconcile`, Connect.Sessions the UDP session table and the
--     two pumps, Connect.Forward the tasks of a connection (`spawn_forwarders`, `accept_tcp`,
--     `forward_tcp`), Connect.Link `run` as a state machine, Connect.Retry the waits of its loop.
--   src/main.rs: Identity has the state directory and the key file (`state_dir`,
--     `load_or_create_key`, `write_key`), Identity.Turns several processes that run the latter at once,
--     Paths the path reports (`report_path`, `log_selected`), Start.Flags the reading and printing of a
--     port map, Start how both commands come to their configuration, and Start.Command the commands as
--     a whole (`main`, `bind_endpoint`, `start_admin`).
--   Tunnel has both ends of the UDP path at once: the datagrams of `pump_udp_out` and `pump_replies`
--     between the session table of src/connect.rs and the pump of src/serve.rs; Tunnel.Streams follows a
--     TCP client.
--   Suite has the tests of the repository, each as a function into Bool that runs the model: those of
--     src/config.rs, src/state.rs and src/proto.rs that call no other crate, and Suite.Tunnel the
--     end-to-end tests of src/tunnel.rs, with the ports that the operating system chooses as arguments.
--   Base, Errors and Exec are shared: lists, maps and tests, the errors as values, and methods that
--     change state and may fail. Examples runs the definitions on sample data.
--
-- How the code is written down. A struct is a record and an enum a data type. A map is an association
-- list, of which only lookups, sizes and whole-map filters are used. A method of a shared object takes
-- the state and gives the next one beside its answer, also after an error. A lock guards each method
-- as a whole, so a method is one step; where a task waits in the middle of its work, the work is cut
-- there, and the pieces are steps that edits, sweeps and replies may come between (Serve.Pump,
-- Serve.Evict, Serve.Server, Connect.Link, Identity.Turns, Tunnel). Loops are recursion on the list
-- that they walk; only the printing of a number takes fuel, the number of its digits, and five are
-- enough for a port. Ports and ids are numbers; the places where the code relies on their width say so
-- (`IsU16`, `IsU32`). The counter of session ids wraps at 2 ^ 32, as a release build does; `HasRoom`
-- says of a run of the tunnel that it has not come to that. Times are milliseconds, and an argument of
-- each call that reads the clock.
--
-- What comes from elsewhere is a parameter: endpoint ids and socket addresses are types with decidable
-- equality; the toml crate is a printer and a parser, with the assumption `RoundTrips` that what was
-- printed, behind comment lines, parses to itself; iroh's secret keys are a pair of functions to and
-- from bytes (`KeysRoundTrip`); the parser of socket addresses is a function whose ports have 16 bits
-- and stand behind a colon (`SocketsLaws`); what the operating system answers (reads, writes,
-- renames, binds, connects, random bytes) is an argument of each call.
--
-- Not modelled: QUIC and the sockets themselves, `copy_bidirectional` and the tasks that only feed it,
-- logging, file permissions, the Windows versions of `write_key` and `write_secret`, the parser of the
-- command line, the tests of other crates (the toml round trip, `admin_addr`), and the page.
mod Base
pub mod Framing
pub mod Config
pub mod Errors
pub mod Exec
pub mod State
pub mod Admin
pub mod Paths
pub mod Serve
pub mod Connect
pub mod Identity
pub mod Start
pub mod Tunnel
mod Suite
mod Examples
