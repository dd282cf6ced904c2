-- ===== src/Tests/Console.antt =====
-- Runs of the operator's command `use-relay`.
use rustdesk_server.Prelude.{◌≡◌, refl, some, arith, text_eq}
use rustdesk_server.Prelude.Text.{text, trim, is_whitespace, contains_char, to_lowercase}
use rustdesk_server.Relay.Name.{normalize}
use rustdesk_server.Selector.Commands.{use_relay_command, load_preferred_relay}
use rustdesk_server.Selector.Commands.Laws.{use_relay_restart}
use rustdesk_server.Tests.Instances.{whole, ipv4_nets}
use rustdesk_server.Tests.Selecting.{selector, routes_disk}

use_relay_restart_example :
    (load_preferred_relay whole ipv4_nets
      (text "relay.txt")
      (use_relay_command whole ipv4_nets (some (text "B")) routes_disk selector).1
      selector).preferred.relay
    ≡ some (text "b")
unfolding normalize trim contains_char to_lowercase is_whitespace
use_relay_restart_example =
    use_relay_restart whole ipv4_nets (text "B") (text "b") routes_disk selector selector
      (λ e. ground (arith, e)) refl (λ e. ground (arith, e)) refl refl
