-- ===== src/Tests/Routing.antt =====
-- Runs of the routing table and of the relay list.
use rustdesk_server.Prelude.{
  All, ℕ, ◌≡◌, refl, some, List, [], ◌∷◌, map, arith, ◌+◌, length, text_eq,
}
use rustdesk_server.Prelude.Map
use rustdesk_server.Prelude.Map.{Map}
use rustdesk_server.Prelude.Text.{
  Text, text, split, split_once, contains_char, lines, trim, split_whitespace, parse_unsigned,
  rsplit_once, to_lowercase,
}
use rustdesk_server.Prelude.Result.{ok}
use rustdesk_server.Net.{v4, to_canonical}
use rustdesk_server.Routes.{RouteTable, Choice, parse, lookup, choose, choose_from, total_cost}
use rustdesk_server.Routes.Choosing.{IsFirstLeast, choose_from_cheapest}
use rustdesk_server.Routes.Session.{choose_comm}
use rustdesk_server.Routes.Table.{
  IsValidTable, parse-IsValidTable, IsMostSpecific, lookup-parse-IsMostSpecific,
}
use rustdesk_server.Relay.Name.{parse_relay_list, normalize}
use rustdesk_server.Relay.Name.Laws.{IsUsable, count_entries}
use rustdesk_server.Relay.Name.Sorted.{PiecePlaced, IsReason, parse_relay_list-IsUsable}
use rustdesk_server.Tests.Instances.{whole, ipv4_nets}

abbrev two_relays : List Text
two_relays = text "a" ∷ text "b" ∷ []

abbrev two_sides : List (Map Text ℕ)
two_sides =
    ((text "a:21117", 10) ∷ (text "b:21117", 30) ∷ [])
    ∷ ((text "a:21117", 50) ∷ (text "b:21117", 5) ∷ [])
    ∷ []

choose_from_cheapest_example :
    (c : Choice whole) × (choose_from whole two_relays two_sides ≡ some c)
    × (c.costs ≡ map (total_cost whole two_sides) two_relays)
    × IsFirstLeast whole c
choose_from_cheapest_example =
    choose_from_cheapest whole two_relays two_sides (λ e. ground arith) (λ e. ground arith)
      ((refl, (refl, tt)), ((refl, (refl, tt)), tt))

abbrev routes_text : Text
routes_text = text "# routes\n0/0 a=10 b=30\n16777216/8 a=50,b=5\n"

abbrev routes_table : RouteTable whole ipv4_nets
routes_table =
    record { net = (16777216, 8); costs = (text "a:21117", 50) ∷ (text "b:21117", 5) ∷ [] }
    ∷ record { net = (0, 0); costs = (text "a:21117", 10) ∷ (text "b:21117", 30) ∷ [] }
    ∷ []

routes_text_parses : parse whole ipv4_nets routes_text ≡ ok routes_table
unfolding parse lines trim split_whitespace split_once parse_unsigned rsplit_once Map.get Map.insert
    normalize contains_char to_lowercase
routes_text_parses = refl

choose_comm_example :
    choose whole ipv4_nets routes_table two_relays (v4 1) (v4 16777217)
    ≡ choose whole ipv4_nets routes_table two_relays (v4 16777217) (v4 1)
choose_comm_example =
    choose_comm whole ipv4_nets routes_text routes_table two_relays (v4 1) (v4 16777217)
      routes_text_parses

parse-IsValidTable_example : IsValidTable whole ipv4_nets routes_table
parse-IsValidTable_example =
    parse-IsValidTable whole ipv4_nets routes_text routes_table routes_text_parses

lookup-parse-IsMostSpecific_example :
    IsMostSpecific whole ipv4_nets routes_table
      (to_canonical (v4 16777217))
      (lookup whole ipv4_nets routes_table (v4 16777217))
lookup-parse-IsMostSpecific_example =
    lookup-parse-IsMostSpecific whole ipv4_nets routes_text routes_table (v4 16777217)
      routes_text_parses

abbrev relay_list : Text
relay_list = text "r1.example.com, R1.example.com:21117,bad host,[::1]:21117"

parse_relay_list-IsUsable_example :
    All (PiecePlaced (parse_relay_list relay_list)) (split b',' relay_list)
    × All (IsReason (parse_relay_list relay_list).0) (parse_relay_list relay_list).1
    × IsUsable (parse_relay_list relay_list).0
    × (length (parse_relay_list relay_list).0 + length (parse_relay_list relay_list).1
        ≡ count_entries (split b',' relay_list))
parse_relay_list-IsUsable_example = parse_relay_list-IsUsable relay_list
