-- ===== src/Tests/Hbbs.antt =====
-- Runs of the rendezvous server.
use rustdesk_server.Prelude.{
  ℕ, ◌≤◌, ◌≡◌, refl, ◌⊎◌, Bool, true, false, some, List, [], ◌∷◌, arith, text_eq, contains, nat_beq,
}
use rustdesk_server.Prelude.Map
use rustdesk_server.Prelude.Map.{Map}
use rustdesk_server.Prelude.Text.{Text, text}
use rustdesk_server.Net.{v4, SocketAddr, addr_eq}
use rustdesk_server.Clock.{expired_time}
use rustdesk_server.Hbbs.Blocker.{check_ip_blocker}
use rustdesk_server.Hbbs.Blocker.Rate.{
  AllBounded, Calls, allowed, check_ip_blocker-AllBounded, allowed_bound,
}
use rustdesk_server.Hbbs.PunchLog.{PunchReqEntry}
use rustdesk_server.Hbbs.Online.{peers_online_state, bit_at, peers_online_state-bit}
use rustdesk_server.Hbbs.Peers.{Peer, get, get_or}
use rustdesk_server.Hbbs.Register.{
  RegisterPk, Registry, handle_register_pk, compare_peer, count_reg,
}
use rustdesk_server.Hbbs.Register.Finishing.{Holds}
use rustdesk_server.Hbbs.Register.Ownership.{
  Keeps, handle_register_pk-Keeps, handle_register_pk-Holds,
}
use rustdesk_server.Hbbs.Login.{login_failure, verify_token}
use rustdesk_server.Hbbs.PunchHole.{
  PunchHoleRequest, Settings, Rendezvous, is_lan, forces_relay, same_intranet,
  handle_punch_hole_request,
}
use rustdesk_server.Hbbs.PunchHole.Answers.{
  LetThrough, relay_of, handle_punch_hole_request-LetThrough, handle_punch_hole_request-contains,
}
use rustdesk_server.Tests.Instances.{whole, ipv4_nets, rows, plain}
use rustdesk_server.Tests.Selecting.{selector, two_relays}

abbrev calls : Calls
calls = (1000, text "id-one") ∷ (2000, text "id-two") ∷ (3000, text "id-one") ∷ []

no_entries-AllBounded : AllBounded []
unfolding Map.get
no_entries-AllBounded ip e h = ground (arith, h)

check_ip_blocker-AllBounded_example :
    AllBounded (check_ip_blocker 1000 (text "10.0.0.1") (text "id-one") []).1
check_ip_blocker-AllBounded_example =
    check_ip_blocker-AllBounded 1000 (text "10.0.0.1") (text "id-one") [] no_entries-AllBounded

allowed_bound_example : allowed (text "10.0.0.1") calls [] ≤ 32
unfolding Map.get
allowed_bound_example = allowed_bound 500 (text "10.0.0.1") calls [] refl (omega arith)

abbrev punch_log : List PunchReqEntry
punch_log =
    record { tm = 100; from_ip = text "10.0.0.1"; to_ip = text "10.0.0.2"; to_id = text "id-one" }
    ∷ record { tm = 200; from_ip = text "10.0.0.3"; to_ip = text "10.0.0.2"; to_id = text "id-one" }
    ∷ []

abbrev pub at : ℕ → SocketAddr
at p = record { ip = v4 167772161; port = p }

abbrev same_addr : SocketAddr → SocketAddr
same_addr a = a

abbrev task_two_runs : ℕ → Bool
task_two_runs n = nat_beq n 2

abbrev nine_peers : List ℕ
nine_peers = 1 ∷ 2 ∷ 3 ∷ 4 ∷ 5 ∷ 6 ∷ 7 ∷ 8 ∷ 2 ∷ []

peers_online_state-bit_example : bit_at (peers_online_state task_two_runs nine_peers) 8 ≡ 1
peers_online_state-bit_example = peers_online_state-bit task_two_runs nine_peers 8 2 refl

abbrev pub owner : Peer
owner = record {
  socket_addr = at 21116;
  last_reg_time = 1000;
  guid = text "guid";
  uuid = text "uuid-1";
  pk = text "pk-1";
  info_ip = text "10.0.0.1";
  reg_count = 1;
  reg_time = 1000;
}

abbrev pub registry : Registry rows
registry = record {
  peers = record { map = (text "id-one", owner) ∷ []; db = [] };
  ip_blocker = [];
  ip_changes = [];
}

abbrev takeover : RegisterPk
takeover = record { id = text "id-one"; uuid = text "uuid-2"; pk = text "pk-2" }

abbrev pub newcomer : RegisterPk
newcomer = record { id = text "id-two"; uuid = text "uuid-2"; pk = text "pk-2" }

handle_register_pk-Keeps_example :
    Keeps rows takeover
      (text "10.0.0.9")
      (text "id-one")
      owner
      (handle_register_pk rows 9000 takeover (at 5) (text "10.0.0.9") false registry).1
unfolding Map.get
handle_register_pk-Keeps_example =
    handle_register_pk-Keeps rows 9000 takeover (at 5) (text "10.0.0.9") false registry
      (text "id-one") owner refl refl

handle_register_pk-Holds_example :
    (p : Peer) × (Map.get
        (text "id-two")
        (handle_register_pk rows 9000 newcomer (at 5) (text "10.0.0.9") false registry).1.peers.map
      ≡ some p)
    × Holds newcomer (text "10.0.0.9") p
unfolding handle_register_pk Map.get check_ip_blocker get compare_peer count_reg get_or expired_time
handle_register_pk-Holds_example =
    handle_register_pk-Holds rows 9000 newcomer (at 5) (text "10.0.0.9") false registry refl

abbrev pub settings : Settings plain
settings = record {
  mask = some 655360;
  local_ip = text "10.0.0.1";
  key = text "key";
  must_login = true;
  jwt_secret = text "secret";
  always_use_relay = false;
  max_punch_requests = 10;
}

abbrev pub ask : Text → PunchHoleRequest plain
ask key = record { id = text "id-one"; nat_type = 1; licence_key = key; token = text "secret" }

abbrev pub rendezvous : Rendezvous plain rows whole ipv4_nets
rendezvous = record {
  peers = record { map = (text "id-one", owner) ∷ []; db = [] };
  relay_servers = selector;
  punch_reqs = [];
}

-- A client outside the intranet.
abbrev pub outside : SocketAddr
outside = record { ip = v4 16777217; port = 5000 }

handle_punch_hole_request-LetThrough_example :
    LetThrough plain rows whole ipv4_nets 2000 500 settings (ask (text "key")) rendezvous (at 21116)
unfolding handle_punch_hole_request login_failure get Map.get verify_token
handle_punch_hole_request-LetThrough_example =
    handle_punch_hole_request-LetThrough plain rows whole ipv4_nets 2000 500 settings outside
      (ask (text "key")) false rendezvous (at 21116) refl

handle_punch_hole_request-contains_example :
    (contains (text "10.0.0.1") two_relays ≡ true)
    ⊎ ((text "10.0.0.1" ≡ settings.local_ip)
        × (to : SocketAddr) × ((handle_punch_hole_request plain rows whole ipv4_nets 2000 500
              settings outside
              (ask (text "key"))
              false
              rendezvous).0.1
            ≡ some to)
        × (is_lan plain settings to.ip ≡ true))
unfolding handle_punch_hole_request login_failure get Map.get relay_of is_lan forces_relay
    verify_token same_intranet
handle_punch_hole_request-contains_example =
    handle_punch_hole_request-contains plain rows whole ipv4_nets 2000 500 settings outside
      (ask (text "key")) false rendezvous (text "10.0.0.1") (λ e. ground arith) refl
