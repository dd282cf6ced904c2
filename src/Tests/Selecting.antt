-- ===== src/Tests/Selecting.antt =====
-- Runs of the relay selector: picking, holding, reloading.
use rustdesk_server.Prelude.{◌≡◌, ◌≢◌, true, none, some, List, [], ◌∷◌, arith, text_eq, contains}
use rustdesk_server.Prelude.Map
use rustdesk_server.Prelude.Text.{Text, text, contains_char, to_lowercase}
use rustdesk_server.Net.{IpAddr, v4, ip_le, to_canonical}
use rustdesk_server.Disk.{Disk}
use rustdesk_server.Relay.Name.{normalize}
use rustdesk_server.Routes.{RouteTable}
use rustdesk_server.Selector.{Selector, Reason, pick, pinned_relay, pin_key, preferred_live}
use rustdesk_server.Selector.Picking.{pick-contains}
use rustdesk_server.Selector.Holding.{pick_again}
use rustdesk_server.Selector.Bounds.{IsBounded, pick-IsBounded}
use rustdesk_server.Selector.Files.{reload_relay_routes}
use rustdesk_server.Selector.Files.Laws.{Reloads, reload_relay_routes-Reloads}
use rustdesk_server.Tests.Instances.{whole, ipv4_nets, one_file}

abbrev pub two_relays : List Text
two_relays = text "a" ∷ text "b" ∷ []

abbrev pub routes_table : RouteTable whole ipv4_nets
routes_table =
    record { net = (16777216, 8); costs = (text "a:21117", 50) ∷ (text "b:21117", 5) ∷ [] }
    ∷ record { net = (0, 0); costs = (text "a:21117", 10) ∷ (text "b:21117", 30) ∷ [] }
    ∷ []

abbrev pub selector : Selector whole ipv4_nets
selector = record {
  live = two_relays;
  routes = record {
    path = some (text "routes.txt");
    table = some routes_table;
    seen = none;
    error = none;
  };
  pins = (pin_key (v4 3) (v4 4), record { relay = text "a"; until = 90 }) ∷ [];
  preferred = record { relay = none; path = text "relay.txt" };
  geo = record {
    db_path = none;
    db = none;
    db_seen = none;
    db_error = none;
    loc_path = none;
    locations = none;
    loc_seen = none;
    loc_error = none;
  };
  rotation = 0;
  pin_ttl_ms = 30000;
}

-- Clients in the two networks.
abbrev pub home : IpAddr
home = v4 1

abbrev pub away : IpAddr
away = v4 16777217

pick-contains_example :
    contains (pick whole ipv4_nets 100 home away true selector).0.relay two_relays ≡ true
pick-contains_example =
    pick-contains whole ipv4_nets 100 home away true selector (λ e. ground arith)

not_pinned : (pick whole ipv4_nets 100 home away true selector).0.reason ≢ Reason.pinned
unfolding pick pinned_relay pin_key preferred_live normalize contains_char to_lowercase Map.get
    to_canonical ip_le
not_pinned = λ e. ground (arith, e)

pick_again_example :
    let r = pick whole ipv4_nets 100 home away true selector in
    ((pick whole ipv4_nets 200 home away true r.1).0.relay ≡ r.0.relay)
    × ((pick whole ipv4_nets 200 away home true r.1).0.relay ≡ r.0.relay)
pick_again_example =
    pick_again whole ipv4_nets 100 200 home away selector (omega arith) (omega arith) not_pinned

pick-IsBounded_example :
    IsBounded whole ipv4_nets (pick whole ipv4_nets 100 home away true selector).1
pick-IsBounded_example = pick-IsBounded whole ipv4_nets 100 home away true selector (ground arith)

abbrev pub routes_disk : Disk
routes_disk = one_file (text "routes.txt") (text "0/0 a=1")

reload_relay_routes-Reloads_example :
    Reloads whole ipv4_nets routes_disk selector
      (reload_relay_routes whole ipv4_nets routes_disk selector)
reload_relay_routes-Reloads_example =
    reload_relay_routes-Reloads whole ipv4_nets routes_disk selector
