-- ===== src/Hbbs/Tcp/Handler.antt =====
-- `handle_tcp` of src/rendezvous_server.rs: one function for each kind of message.
use rustdesk_server.Prelude.{
  ℕ, Bool, true, false, ◌&&◌, not, Option, none, some, List, [], ◌∷◌, ltb, if◌then◌else◌, length,
}
use rustdesk_server.Prelude.Text.{Text, is_empty}
use rustdesk_server.Net.{SocketAddr}
use rustdesk_server.Clock.{elapsed_ms}
use rustdesk_server.Numbers.{Float}
use rustdesk_server.Routes.{Networks}
use rustdesk_server.Hbbs.WsPeers.{register_ws_peer}
use rustdesk_server.Hbbs.Online.{peers_online_state}
use rustdesk_server.Hbbs.Peers.{
  Database, PeerMap, RegResult, reg_ok, uuid_mismatch, too_frequent, server_error, get_in_memory,
}
use rustdesk_server.Hbbs.Register.{
  RegisterPk, Registry, handle_register_pk, update_addr, max_peer_id_len,
}
use rustdesk_server.Hbbs.PunchHole.{
  Externals, PunchHoleRequest, handle_punch_hole_request, reg_timeout,
}
use rustdesk_server.Hbbs.Replies.{Delivery, over_sink, send_to_peer, keep_route, answer_punch_hole}
use rustdesk_server.Hbbs.Tcp.{
  Config, Hub, Origin, Outcome, with_peers, handle_hole_sent, handle_local_addr,
  pass_relay_response,
}
use rustdesk_server.Hbbs.Tcp.Messages.{
  Codec, RequestRelay, ConfigUpdate, TcpMessage, punch_hole_request, request_relay, relay_response,
  punch_hole_sent, local_addr, test_nat_request, online_request, register_peer, register_pk,
  unsupported, TcpReply, punch_hole_answer, asked_relay, test_nat_response, online_response,
  register_peer_response, configure, register_pk_response,
}

-- A peer that is in memory and was seen within the timeout.
unfoldable pub is_online : {db : Database} → ℕ → PeerMap db → Text → Bool
is_online now pm id = elim (get_in_memory _ id pm) [
  | none ↦ false
  | some p ↦ ltb (elapsed_ms now p.last_reg_time) reg_timeout
]

-- A kept route takes the sink of a TCP connection; a websocket keeps its own.
unfoldable pub left_sink : Option ℕ → Option ℕ → Option ℕ
left_sink (some conn) sink = sink
left_sink none sink = none

unfoldable pub is_ok : RegResult → Bool
is_ok reg_ok = true
is_ok uuid_mismatch = false
is_ok too_frequent = false
is_ok server_error = false

module _ (ext : Externals) (codec : Codec ext) (db : Database) (fl : Float) (nets : Networks) where
  open ext use {encode_addr, try_into_v4, ip_text}

  abbrev State : Type 0
  State = Hub ext codec db fl nets

  abbrev Result : Type 0
  Result = Outcome ext codec db fl nets

  abbrev Here : Type 0
  Here = Origin ext codec db fl nets

  abbrev Fixed : Type 0
  Fixed = Config ext codec db fl nets

  -- `register_ws_peer` if there is a websocket.
  unfoldable pub claim : SocketAddr → Option ℕ → State → State
  claim addr none h = h
  claim addr (some conn) h = record h {
    links = record h.links { ws_peers = register_ws_peer try_into_v4 addr conn h.links.ws_peers };
  }

  on_punch_hole :
      ℕ → ℕ → (ℕ → Bool) → Fixed → Here → PunchHoleRequest ext → Option ℕ → State → Result
  on_punch_hole now epoch is_open c o ph sink h =
      let kept = keep_route try_into_v4 o.addr o.ws_conn sink h.links in
      let ((msg, to), r) =
        handle_punch_hole_request ext db fl nets now epoch c.settings o.addr ph o.ws h.rendezvous in
      let (d, links) = answer_punch_hole try_into_v4 is_open o.addr to kept in
      record {
        sent = (d, punch_hole_answer msg) ∷ [];
        keep_open = true;
        sink = left_sink o.ws_conn sink;
        hub = record h { rendezvous = r; links = links };
      }

  on_request_relay : (ℕ → Bool) → Here → RequestRelay → Option ℕ → State → Result
  on_request_relay is_open o rf sink h =
      let kept = keep_route try_into_v4 o.addr o.ws_conn sink h.links in
      let sink' = left_sink o.ws_conn sink in
      elim (get_in_memory db rf.id h.rendezvous.peers) [
        | none ↦ record {
          sent = [];
          keep_open = true;
          sink = sink';
          hub = record h { links = kept };
        }
        | some peer ↦
            let (d, links) = send_to_peer try_into_v4 is_open peer.socket_addr kept in
            record {
              sent = (d, asked_relay (record rf { socket_addr = encode_addr o.addr })) ∷ [];
              keep_open = true;
              sink = sink';
              hub = record h { links = links };
            }
      ]

  -- `cu`: the configuration, for a client whose serial is older.
  newer_config : Fixed → ℕ → Option ConfigUpdate
  newer_config c serial =
      if ltb serial c.serial
      then some (record { serial = c.serial; rendezvous_servers = c.rendezvous_servers })
      else none

  configure_if_newer : Fixed → ℕ → List (TcpReply ext)
  unfolding newer_config
  configure_if_newer c serial = elim (newer_config c serial) [
    | none ↦ []
    | some cu ↦ configure cu ∷ []
  ]

  over : Option ℕ → List (TcpReply ext) → List (Delivery × TcpReply ext)
  over sink [] = []
  over sink (m ∷ ms) = (over_sink try_into_v4 sink, m) ∷ over sink ms

  on_register_peer : ℕ → Fixed → Here → Text → ℕ → Option ℕ → State → Result
  unfolding configure_if_newer over claim
  on_register_peer now c o id serial sink h =
      if not (is_empty id) && not (ltb max_peer_id_len (length id))
      then (let (request_pk, pm) =
            update_addr db now id o.addr (ip_text o.addr.ip) h.rendezvous.peers in
          record {
            sent = over sink (register_peer_response request_pk ∷ configure_if_newer c serial);
            keep_open = o.ws;
            sink = sink;
            hub = claim o.addr o.ws_conn (with_peers ext codec db fl nets pm h);
          })
      else record { sent = []; keep_open = o.ws; sink = sink; hub = h }

  unfoldable pub with_registry : Registry db → State → State
  with_registry r h = record (with_peers ext codec db fl nets r.peers h) {
    ip_blocker = r.ip_blocker;
    ip_changes = r.ip_changes;
  }

  unfoldable pub registry_of : State → Registry db
  registry_of h = record {
    peers = h.rendezvous.peers;
    ip_blocker = h.ip_blocker;
    ip_changes = h.ip_changes;
  }

  -- The answer to a registration; none closes the connection without one.
  unfoldable pub answer_register_pk : Here → Option ℕ → Option RegResult → State → Result
  unfolding claim over_sink
  answer_register_pk o sink none h = record { sent = []; keep_open = false; sink = sink; hub = h }
  answer_register_pk o sink (some res) h = record {
    sent = (over_sink try_into_v4 sink, register_pk_response res) ∷ [];
    keep_open = is_ok res;
    sink = sink;
    hub = if is_ok res then claim o.addr o.ws_conn h else h;
  }

  on_register_pk : ℕ → Here → RegisterPk → Option ℕ → State → Result
  unfolding answer_register_pk with_registry registry_of
  on_register_pk now o rk sink h =
      let (result, r) =
        handle_register_pk db now rk o.addr (ip_text o.addr.ip) o.ws (registry_of h) in
      answer_register_pk o sink result (with_registry r h)

  -- A message that is sent on and leaves this connection as it was.
  passed_on : Here → Option ℕ → (Delivery × TcpReply ext) × State → Result
  passed_on o sink (d, h) = record { sent = d ∷ []; keep_open = o.ws; sink = sink; hub = h }

  -- An answer over this connection that changes nothing.
  answered : Here → Option ℕ → TcpReply ext → State → Result
  unfolding over_sink
  answered o sink m h = record {
    sent = (over_sink try_into_v4 sink, m) ∷ [];
    keep_open = o.ws;
    sink = sink;
    hub = h;
  }

  unfoldable pub handle_tcp :
      ℕ → ℕ → (ℕ → Bool) → Fixed → Here → TcpMessage ext → Option ℕ → State → Result
  unfolding on_punch_hole on_request_relay on_register_peer on_register_pk passed_on answered
      newer_config
  handle_tcp now epoch is_open c o (punch_hole_request ph) sink h =
      on_punch_hole now epoch is_open c o ph sink h
  handle_tcp now epoch is_open c o (request_relay rf) sink h = on_request_relay is_open o rf sink h
  handle_tcp now epoch is_open c o (relay_response rr) sink h =
      passed_on o sink (pass_relay_response ext codec db fl nets now is_open c o.addr rr h)
  handle_tcp now epoch is_open c o (punch_hole_sent phs) sink h =
      passed_on o sink (handle_hole_sent ext codec db fl nets now is_open c o.addr phs h)
  handle_tcp now epoch is_open c o (local_addr la) sink h =
      passed_on o sink (handle_local_addr ext codec db fl nets now is_open c la h)
  handle_tcp now epoch is_open c o (test_nat_request serial) sink h =
      answered o sink (test_nat_response o.addr.port (newer_config c serial)) h
  handle_tcp now epoch is_open c o (online_request ids) sink h =
      answered o sink (online_response (peers_online_state (is_online now h.rendezvous.peers) ids))
        h
  handle_tcp now epoch is_open c o (register_peer id serial) sink h =
      on_register_peer now c o id serial sink h
  handle_tcp now epoch is_open c o (register_pk rk) sink h = on_register_pk now o rk sink h
  handle_tcp now epoch is_open c o unsupported sink h = record {
    sent = [];
    keep_open = o.ws;
    sink = sink;
    hub = h;
  }
