-- ===== src/Hbbs/Console.antt =====
-- `check_cmd` of src/rendezvous_server.rs: the console of hbbs. What it prints are the values that
-- stand in its lines.
pub mod Lists
pub mod Paging
pub mod Relaying
use rustdesk_server.Prelude.{
  ℕ, Bool, true, false, ◌||◌, Option, none, some, List, [], ◌∷◌, ◌++◌, ◌==◌, text_eq, length,
  if◌then◌else◌,
}
use rustdesk_server.Prelude.Text.{Text, text, trim, split}
use rustdesk_server.Net.{IpAddr}
use rustdesk_server.Disk.{Disk}
use rustdesk_server.Numbers.{Float}
use rustdesk_server.Routes.{Networks}
use rustdesk_server.Selector.{Selector, pick}
use rustdesk_server.Selector.Console.{Line, console}
use rustdesk_server.Hbbs.Blocker.{IpBlockMap}
use rustdesk_server.Hbbs.Register.{IpChanges}
use rustdesk_server.Hbbs.PunchLog.{PunchReqEntry}
use rustdesk_server.Hbbs.WsPeers.{WsPeers}
use rustdesk_server.Hbbs.Probe.{Relays, parse_relay_servers}
use rustdesk_server.Hbbs.Console.Lists.{
  BlockRow, ChangeRow, ip_blocker_command, ip_changes_command, punch_requests_command,
}

-- `v.to_uppercase() == "Y"`
unfoldable pub is_yes : Text → Bool
is_yes v = v == text "Y" || v == text "y"

-- A message of the console to the main loop: `Data::RelayServers0`.
pub data Data : Type 0 where
  relay_servers0 : Text → Data

module _ (fl : Float) (nets : Networks) where
  -- What the console reads and changes: the relays, the statics, the websocket peers, and the
  -- messages to the main loop that have not been handled.
  pub record Shared : Type 0 where
    pub relays : Relays fl nets
    pub ip_blocker : IpBlockMap
    pub ip_changes : IpChanges
    pub punch_reqs : List PunchReqEntry
    pub always_use_relay : Bool
    pub must_login : Bool
    pub ws_peers : WsPeers
    pub queue : List Data

  pub data Printed : Type 0 where
    nothing help : Printed
    selector_lines : List (Line fl nets) → Printed
    relay_list : List Text → Printed
    blocked : (count : ℕ) → List BlockRow → Printed
    changes : (count : ℕ) → List ChangeRow → Printed
    -- The ages of the requests, in seconds, stand for their times.
    requests : List (ℕ × PunchReqEntry) → Printed
    flag : Bool → Printed
    ws_peer_count : ℕ → Printed
    chosen : Text → Printed

  with_selector : Selector fl nets → Shared → Shared
  with_selector s c = record c { relays = record c.relays { servers = s } }

  relay_servers_command : List Text → Shared → Printed × Shared
  relay_servers_command [] c = (relay_list c.relays.servers.live, c)
  relay_servers_command (rs ∷ args) c =
      (nothing, record c { queue = c.queue ++ relay_servers0 rs ∷ [] })

  -- The argument is sent to the main loop as well, as a list of relays.
  always_use_relay_command : List Text → Shared → Printed × Shared
  always_use_relay_command [] c = (flag c.always_use_relay, c)
  always_use_relay_command (rs ∷ args) c = (
    nothing,
    record c { always_use_relay = is_yes rs; queue = c.queue ++ relay_servers0 rs ∷ [] },
  )

  must_login_command : List Text → Shared → Printed × Shared
  must_login_command [] c = (flag c.must_login, c)
  must_login_command (v ∷ args) c = (nothing, record c { must_login = is_yes v })

  test_geo : ℕ → Option IpAddr → Option IpAddr → Shared → Printed × Shared
  unfolding with_selector
  test_geo now (some a) (some b) c =
      let (p, s) = pick fl nets now a b false c.relays.servers in
      (chosen p.relay, with_selector s c)
  test_geo now (some a) none c = (nothing, c)
  test_geo now none b c = (nothing, c)

  test_geo_command : ℕ → (Text → Option IpAddr) → List Text → Shared → Printed × Shared
  unfolding test_geo
  test_geo_command now parse_ip [] c = (nothing, c)
  test_geo_command now parse_ip (a ∷ []) c = test_geo now (parse_ip a) (parse_ip a) c
  test_geo_command now parse_ip (a ∷ b ∷ args) c = test_geo now (parse_ip a) (parse_ip b) c

  unfoldable pub run_command : ℕ → (Text → Option IpAddr) → List Text → Shared → Printed × Shared
  unfolding relay_servers_command always_use_relay_command must_login_command test_geo_command
  run_command now parse_ip [] c = (nothing, c)
  run_command now parse_ip (w ∷ args) c =
      if w == text "h"
      then (help, c)
      else if w == text "relay-servers" || w == text "rs"
      then relay_servers_command args c
      else if w == text "ip-blocker" || w == text "ib"
      then (let (n, rows, m) = ip_blocker_command now args c.ip_blocker in
          (blocked n rows, record c { ip_blocker = m }))
      else if w == text "ip-changes" || w == text "ic"
      then (let (n, rows, m) = ip_changes_command now args c.ip_changes in
          (changes n rows, record c { ip_changes = m }))
      else if w == text "punch-requests" || w == text "pr"
      then (let (rows, log) = punch_requests_command now args c.punch_reqs in
          (requests rows, record c { punch_reqs = log }))
      else if w == text "always-use-relay" || w == text "aur"
      then always_use_relay_command args c
      else if w == text "ws-peers" || w == text "wp"
      then (ws_peer_count (length c.ws_peers), c)
      else if w == text "must-login" || w == text "ml"
      then must_login_command args c
      else if w == text "test-geo" || w == text "tg"
      then test_geo_command now parse_ip args c
      else (nothing, c)

  -- The commands of the relay selector come first.
  unfoldable pub check_cmd :
      ℕ → (Text → Option IpAddr) → Text → Disk → Shared → Printed × Disk × Shared
  unfolding run_command with_selector
  check_cmd now parse_ip cmd disk c =
      let (lines, disk', s) = console fl nets now parse_ip cmd disk c.relays.servers in
      elim lines [
        | some ls ↦ (selector_lines ls, disk', with_selector s c)
        | none ↦
            let (printed, c') = run_command now parse_ip (split b' ' (trim cmd)) c in
            (printed, disk, c')
      ]

  -- The main loop takes the messages in their order.
  unfoldable pub take_messages : List Data → Relays fl nets → Relays fl nets
  take_messages [] r = r
  take_messages (relay_servers0 rs ∷ rest) r = take_messages rest (parse_relay_servers fl nets rs r)

  unfoldable pub drain : Shared → Shared
  unfolding take_messages
  drain c = record c { relays = take_messages c.queue c.relays; queue = [] }
