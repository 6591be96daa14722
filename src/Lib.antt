-- ===== src/Lib.antt =====
-- The rendezvous server of this repository, hbbs: src/rendezvous_server.rs, src/peer.rs,
-- src/database.rs; the relay server, hbbr: src/relay_server.rs; what both take from src/common.rs, the
-- lists of servers, the arguments and the key pair; the command rustdesk-utils, src/utils.rs; and the
-- tray interface of the Windows service, ui/src.
--
-- Parts. Clients register their id and key (RegisterPeer, RegisterPk); a client A asks for an id
-- (PunchHoleRequest), the server passes the request on to the peer B of that id and B's answer
-- (PunchHoleSent, LocalAddr, RelayResponse) back to A. Peers live in memory (`PeerMap`) in front of a
-- table of a database. Datagrams are handled by the main loop, TCP and WebSocket connections each by
-- a task of its own; tasks queue what is to be sent over UDP in the channel of the main loop, and a
-- TCP client that waits for an answer has its sink parked in `tcp_punch`. Where A and B cannot reach
-- each other directly, both connect to a relay server and name the same uuid there.
--
-- Files, by the code they model:
--   Prelude, Dict          shared helpers; a HashMap is an association list
--   Net, Time, Message     std's addresses and clock, and the messages of rendezvous_proto
--   Env                    what is called and is not in the repository, as parameters with laws
--   Common                 test_if_valid_server, get_servers (src/common.rs); Common/Text and
--                          Common/Number are what the code uses of str, of Display and of FromStr
--   Common/Keys            gen_sk, with the files id_ed25519 and id_ed25519.pub (src/common.rs)
--   Common/Args            init_args, arg_name (src/common.rs)
--   Database               the queries of the table `peer` (src/database.rs)
--   Peers                  Peer, PeerMap: get, get_or, update_pk (src/peer.rs)
--   Blocker                check_ip_blocker and IP_BLOCKER
--   Server/State           RendezvousServer, split in what a clone copies (Local) and what all clones
--                          share (Shared), with the sent messages as lists
--   Server/Relays          get_relay_server, is_lan
--   Server/Send            the socket, the channel, and the sinks (send_to_tcp, send_to_tcp_sync)
--   Server/Register        RegisterPeer and RegisterPk of handle_udp, update_addr
--   Server/Punch           handle_punch_hole_request and its two callers; Punch/Log is PUNCH_REQS
--   Server/Forward         get_pk, handle_hole_sent, handle_local_addr
--   Server/Online          handle_online_request
--   Server/Udp, Server/Tcp handle_udp, handle_tcp
--   Server/Connection      handle_listener_inner, handle_listener2
--   Server/Loop            io_loop, check_relay_servers, parse_relay_servers
--   Server/Start           start, up to its first event (src/rendezvous_server.rs)
--   Server/SelfTest        test_hbbs, and the task of start that runs it
--   Server/Main            main of hbbs (src/main.rs)
--   Server/System          the loop, the tasks and the commands, interleaved
--   Server/Commands        check_cmd of hbbs
--   Server/Keys            get_server_sk of hbbs
--   RelayServer            make_pair_ (src/relay_server.rs)
--   RelayServer/Transfer   relay
--   RelayServer/Access     handle_connection, and what relay reads before its loop
--   RelayServer/Commands   check_cmd of hbbr
--   RelayServer/Start      start, check_params and io_loop's beginning
--   RelayServer/Main       main of hbbr (src/hbbr.rs)
--   RelayServer/Keys       get_server_sk of hbbr
--   RelayServer/System     the relay server as a whole: its tasks, interleaved
--   Startup                both servers, started in one directory, and their ports
--   Utils                  rustdesk-utils: validate_keypair; Utils/Doctor is doctor, and Utils/Main
--                          its commands (src/utils.rs)
--   Ui                     the messages of the Windows tray interface (ui/src/usecase)
--   Ui/Service             the service's commands (ui/src/adapter/service/windows.rs)
--   Ui/Presenter, Ui/Watcher, Ui/Desktop
--                          presenter.rs, watcher.rs, and the view (ui/src/adapter/view/desktop.rs)
--   Ui/System              these three and the channels between them (ui/src/main.rs)
--   Examples               the theorems at concrete inputs
-- The child modules of a component hold its proofs.
--
-- Correspondence. A handler is a function from the state to the state and what it returns, one clause
-- or helper for each branch. Time is in nanoseconds, and one call reads the clock once. A Peer behind
-- its lock is a cell of a heap (`LockPeer` is its place), so two holders share it. A handler runs as
-- one step. Server/System interleaves these steps and, as steps of their own, the parts of
-- PeerMap::get: the look into the map, the query, and the insertion, which looks no second time.
-- An i32 is an integer, and the cast of the elapsed milliseconds to i32 wraps as written in Time. The
-- counter of get_relay_server wraps at 2^64, and so do the usize of relay. Every loop is a recursion
-- over its list; there is no fuel but the 30 entries that the scan of PUNCH_REQS takes in the source,
-- and the 300 further key pairs that gen_sk tries.
--
-- In the relay server a step is what a task does between two points where others can run: a connection
-- up to its pairing, the storing of a stream that waits, its timer, a round of a relay. A limiter only
-- delays, so the model records what each limiter is asked for.
--
-- In the tray interface a step is one message received, one message sent, a callback or a round of the
-- view. A callback runs on the view's thread, which then waits for room in the channel; so does the
-- presenter. Where a step is not possible the model has `none`.
--
-- Not modelled: the sockets and their failures other than a refused send over UDP, SQLite's
-- answers and the keys that it enforces (flags of each call), the codec and the mangling of
-- addresses (parameters), base64 and the signatures (parameters), floating-point numbers
-- (parameters), clap's and ini's reading of arguments and files (parameters), logging, signals,
-- the search for updates, and of the user interface the building of its menus and the calls of
-- Windows.
pub mod Prelude
pub mod Dict
pub mod Net
pub mod Time
pub mod Message
pub mod Env
pub mod Blocker
pub mod Database
pub mod Peers
pub mod Common
pub mod Server
pub mod RelayServer
pub mod Startup
pub mod Utils
pub mod Ui
pub mod Examples
