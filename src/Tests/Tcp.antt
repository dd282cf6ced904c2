-- ===== src/Tests/Tcp.antt =====
-- Runs of the handler of TCP and websocket messages, and of the loops of the connections.
use rustdesk_server.Prelude.{
  ◌*◌, ◌^◌, ◌+◌, ℕ, ◌≡◌, refl, Bool, true, false, none, some, [], ◌∷◌, arith, contains, text_eq,
}
use rustdesk_server.Prelude.Map
use rustdesk_server.Prelude.Text.{Text, text}
use rustdesk_server.Net.{addr_eq}
use rustdesk_server.Selector.{pick}
use rustdesk_server.Hbbs.Blocker.{check_ip_blocker}
use rustdesk_server.Hbbs.Login.{login_failure, verify_token}
use rustdesk_server.Hbbs.Peers.{get, get_or, update_pk}
use rustdesk_server.Hbbs.PunchHole.{handle_punch_hole_request, is_lan}
use rustdesk_server.Hbbs.Register.{RegisterPk, handle_register_pk, compare_peer, count_reg}
use rustdesk_server.Hbbs.Replies.{over_tcp}
use rustdesk_server.Hbbs.Tcp.{Config, Hub, Origin, pass_relay_response, relay_for, sign_whom}
use rustdesk_server.Hbbs.Tcp.Messages.{
  TcpMessage, id_of, PunchHoleSent, RelayResponse, nobody, punch_hole_request, punch_hole_sent,
  register_pk,
}
use rustdesk_server.Hbbs.Tcp.Handler.{handle_tcp}
use rustdesk_server.Hbbs.Tcp.Answers.{handle_tcp_closes}
use rustdesk_server.Hbbs.Tcp.Meeting.{handle_tcp_meets, handle_tcp_relay_outside, relay_named, went}
use rustdesk_server.Tests.Instances.{whole, ipv4_nets, rows, plain, codec, written}
use rustdesk_server.Net.{v6}
use rustdesk_server.Tests.Hbbs.{settings, ask, rendezvous, outside, at}

abbrev config : Config plain codec rows whole ipv4_nets
config = record { settings = settings; sk = some 7; serial = 3; rendezvous_servers = [] }

abbrev hub : Hub plain codec rows whole ipv4_nets
hub = record {
  rendezvous = rendezvous;
  ip_blocker = [];
  ip_changes = [];
  links = record { ws_peers = []; tcp_punch = [] };
}

abbrev from_ws : Origin plain codec rows whole ipv4_nets
from_ws = record { addr = outside; ws = true; ws_conn = some 1 }

abbrev from_tcp : Origin plain codec rows whole ipv4_nets
from_tcp = record { addr = outside; ws = false; ws_conn = none }

abbrev all_open : ℕ → Bool
all_open n = true

-- Without a key.
abbrev keyless : RegisterPk
keyless = record { id = text "id-two"; uuid = text "u"; pk = [] }

abbrev keyless_message : TcpMessage plain
keyless_message = register_pk keyless

handle_tcp_closes_example :
    ((rk : RegisterPk) × (keyless_message ≡ register_pk rk))
    × ((handle_tcp plain codec rows whole ipv4_nets 2000 500 all_open config from_ws
          (register_pk keyless)
          (some 1)
          hub).hub.links
        ≡ hub.links)
unfolding handle_tcp handle_register_pk get_or get update_pk check_ip_blocker compare_peer count_reg
    Map.get
handle_tcp_closes_example =
    handle_tcp_closes plain codec rows whole ipv4_nets 2000 500 all_open config from_ws
      (register_pk keyless) (some 1) hub refl refl

abbrev keyed : RegisterPk
keyed = record { id = text "id-two"; uuid = text "u"; pk = text "k" }

abbrev ready : Text → PunchHoleSent plain
ready id = record {
  id = id;
  socket_addr = written outside;
  relay_server = text "a";
  nat_type = none;
  version = text "1";
}

-- The client outside, as a dual-stack listener gives its address.
abbrev mapped : Origin plain codec rows whole ipv4_nets
mapped = record {
  addr = record { ip = v6 (0xffff * 2 ^ 32 + 16777217); port = 5000 };
  ws = false;
  ws_conn = none;
}

handle_tcp_meets_example :
    let asked =
      (handle_tcp plain codec rows whole ipv4_nets 2000 500 all_open config mapped
        (punch_hole_request (ask (text "key")))
        (some 2)
        hub).hub in
    let told =
      handle_tcp plain codec rows whole ipv4_nets 2100 500 all_open config from_ws
        (punch_hole_sent (ready (text "id-one")))
        (some 1)
        asked in
    (went plain codec rows whole ipv4_nets told.sent ≡ some (over_tcp 2))
    × (Map.get outside told.hub.links.tcp_punch ≡ none)
unfolding handle_punch_hole_request login_failure get Map.get verify_token
handle_tcp_meets_example =
    handle_tcp_meets plain codec rows whole ipv4_nets 2000 500 2100 500 all_open config mapped
      from_ws (ask (text "key")) 2 hub (at 21116) (ready (text "id-one")) (some 1) refl refl refl
      refl

-- The hub with the server's own address among the relays.
abbrev own_hub : Hub plain codec rows whole ipv4_nets
own_hub = record hub {
  rendezvous = record rendezvous {
    relay_servers = record rendezvous.relay_servers { live = text "10.0.0.1" ∷ [] };
  };
}

abbrev own_relay : RelayResponse
own_relay = record {
  socket_addr = written outside;
  whom = nobody;
  relay_server = text "10.0.0.1";
  version = [];
  others = [];
}

handle_tcp_relay_outside_example : contains (text "10.0.0.1") (text "10.0.0.1" ∷ []) ≡ true
unfolding handle_tcp pass_relay_response relay_for pick is_lan relay_named sign_whom id_of
handle_tcp_relay_outside_example =
    handle_tcp_relay_outside plain codec rows whole ipv4_nets 2000 500 all_open config from_tcp
      own_relay (some 2) own_hub (λ e. ground arith) (λ e. ground arith) refl refl
