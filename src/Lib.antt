-- ===== src/Lib.antt =====
-- The RustDesk server: hbbs, which registers the clients and introduces them to each other, and
-- hbbr, which relays the sessions that cannot go directly.
--
-- Parts, and where they are modelled:
--   Keys            src/common.rs: gen_sk and the functions on the key files, over a file system with
--                   links and modes; Keys/Server has get_server_sk of src/rendezvous_server.rs and
--                   of src/relay_server.rs.
--   Relay/Name      src/relay_routes.rs: normalize, relay_entry_problem, parse_relay_list.
--   Routes          src/relay_routes.rs: RouteTable::parse, lookup, costs_for, choose, choose_from.
--   Geo             src/relay_geo.rs: distance_km, Locations, and the lookup of GeoDb.
--   GeoUpdate       src/geo_update.rs: update, fetch_month, Capped; it writes the file that Selector/Files
--                   reads again.
--   Selector        src/relay_select.rs: the state of RelaySelector with the two statics, and pick,
--                   which asks Routes and Geo for the costs of both ends. Selector/Files has
--                   reload_relay_routes and reload_relay_geo, Selector/Commands the command
--                   use-relay and the file that remembers it, Selector/Console the console.
--   Hbbs/Blocker    src/rendezvous_server.rs: check_ip_blocker, and the types of src/peer.rs.
--   Hbbs/PunchLog   src/rendezvous_server.rs: record_punch_req.
--   Hbbs/WsPeers    src/rendezvous_server.rs: register_ws_peer, push_to_ws_peer, WsPeerGuard.
--   Hbbs/Online     src/rendezvous_server.rs: peers_online_state.
--   Hbbs/Peers      src/peer.rs: Peer and PeerMap, over an interface that
--                   Hbbs/Database fills.
--   Hbbs/Database   src/database.rs: the statements on the table of peers.
--   Hbbs/Register   src/rendezvous_server.rs: handle_register_pk, which asks Hbbs/Blocker and changes
--                   Hbbs/Peers, and update_addr.
--   Hbbs/Login      src/jwt.rs, and the login guard of a punch-hole request.
--   Hbbs/PunchHole  src/rendezvous_server.rs: handle_punch_hole_request, which asks Hbbs/Login,
--                   Hbbs/Peers and Selector, and writes Hbbs/PunchLog; is_lan.
--   Hbbs/Udp        src/rendezvous_server.rs: handle_udp, which asks Hbbs/Register.
--   Hbbs/Replies    src/rendezvous_server.rs: send_to_tcp, keeping the route back, and where
--                   handle_tcp_punch_hole_request sends its answer, through Hbbs/WsPeers.
--   Hbbs/Tcp        src/rendezvous_server.rs: handle_tcp, which asks Hbbs/PunchHole, Hbbs/Register and
--                   Hbbs/Online and answers through Hbbs/Replies; get_pk, handle_hole_sent,
--                   handle_local_addr. Hbbs/Tcp/Messages has the messages, Hbbs/Tcp/Handler the
--                   handler.
--   Hbbs/Websocket  src/rendezvous_server.rs: the loop of a websocket in handle_listener_inner.
--   Hbbs/Connection src/rendezvous_server.rs: the loop of a TCP connection in handle_listener_inner
--                   with its handshake, and key_exchange_phase1.
--   Hbbs/Probe      src/rendezvous_server.rs: check_relay_servers, parse_relay_servers and the timer of
--                   io_loop, which set the relays of Selector.
--   Hbbs/Console    src/rendezvous_server.rs: check_cmd, which asks Selector/Console first; its lists
--                   are in Hbbs/Console/Lists.
--   Hbbr/Access     src/relay_server.rs: the blacklist and the blocklist, handle_connection.
--   Hbbr/Pairing    src/relay_server.rs: make_pair_, as steps of all connections.
--   Hbbr/Session    src/relay_server.rs: relay, one turn of its loop at a time.
--   Prelude         numbers, lists, maps, text and results; Net, Numbers, Clock and Disk stand for
--                   std::net, f64, Instant and the file system.
--   Tests           the theorems at concrete inputs.
--
-- An operation on shared state is a function from the state to a result and the new state, and a call is
-- one step in which no other task runs. Where the source awaits in the middle, for a lock, the database or
-- a socket, that leaves out the calls that overlap: so in handle_register_pk, between the test of the uuid
-- and update_pk. make_pair_ of hbbr, whose tasks meet in a map, has a step of its own for each lock.
-- Locks are never poisoned. Maps are
-- association lists, in which only lookups are observed. Time is a number of milliseconds that is
-- given to each call. Text is a list of characters, and a length in bytes is that of ASCII text. A
-- rotation counter and the byte counts of a session wrap at 2 ^ 64.
--
-- What is not under src/ is a parameter: the floats (Numbers.Float), with the laws of the order and
-- the sum of costs; the crate ipnetwork (Routes.Networks); which
-- statements SQLite can write and the JSON of a peer, with the law that it is read back
-- (Hbbs.Database.Outside); and the hbb_common submodule
-- and jsonwebtoken (Hbbs.PunchHole.Externals, Hbbs.Tcp.Messages.Codec, with the law that an address
-- is read back in the form of try_into_v4); the ciphers (Hbbs.Connection.Crypto); the HTTP client, the gzip decoder
-- and the check of a City database (GeoUpdate.Outside); the calls on paths and files with base64 and
-- ed25519 (Keys.Outside). Tests has a concrete function for each.
--
-- The loop of a websocket is given what comes up to some moment, and runs on fuel: Hbbs.Websocket.enough
-- gives one turn for every event and, for the silence before it, one for every millisecond of the
-- timeout, while a wait in vain uses up at least one millisecond of it. What comes after the last event is
-- not known, and the loop waits for it. All other loops run over a list, the lines of a file, the entries
-- of a map, the frames of a connection, and are structural recursion, but for the links to a key file, of
-- which the source follows at most 40, and the 300 tries for a key.
--
-- Not modelled: the sockets of hbbs and their accepting in io_loop; the rest of the console of hbbr;
-- the opening of the SQLite file; the opening of a GeoIP database; arguments
-- and listeners in src/common.rs; the programs and the ui. In a loop of a connection the other tasks
-- stand still: what they change in between is not a step of it.
pub mod Prelude
pub mod Net
pub mod Keys
pub mod Numbers
pub mod Disk
pub mod Relay
pub mod Routes
pub mod Geo
pub mod GeoUpdate
pub mod Selector
pub mod Clock
pub mod Hbbs
pub mod Hbbr
pub mod Tests
