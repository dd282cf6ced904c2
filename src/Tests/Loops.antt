-- ===== src/Tests/Loops.antt =====
-- Runs of the loops of the connections, of the probes and of the console.
use mathlib.Core.List.{Perm}
use mathlib.Core.List.Perm
use rustdesk_server.Prelude.{
  ℕ, ◌+◌, ◌≡◌, refl, not, length, nat_eq, if◌then◌else◌, Bool, true, false, Option, none, some,
  List, [], ◌∷◌, arith, ◌==◌, text_eq, All,
}
use rustdesk_server.Prelude.Text.{
  contains_char, contains_text, strip_prefix, count_char, Text, text, split, trim,
}
use rustdesk_server.Prelude.Map
use rustdesk_server.Prelude.Map.{Unique}
use rustdesk_server.Net.{IpAddr}
use rustdesk_server.Disk.{Disk}
use rustdesk_server.Prelude.Result.{Result, err}
use rustdesk_server.Relay.Name.{parse_relay_list, relay_entry_problem}
use rustdesk_server.Geo.{GeoDb}
use rustdesk_server.Selector.{LoadError, bad_database}
use rustdesk_server.Hbbs.Websocket.{
  Event, pushed, frame, message, ping, State, waiting, run, enough,
}
use rustdesk_server.Hbbs.Websocket.Ending.{HasStopped, run-HasStopped}
use rustdesk_server.Hbbs.Websocket.Idle.{Ascending, NotWithin, run_idle}
use rustdesk_server.Hbbs.Websocket.Pushes.{pushes, IsDense, last_time, run-pushes}
use rustdesk_server.Hbbs.Connection.{Crypto, Link, start_tcp, on_frame}
use rustdesk_server.Hbbs.Connection.Keys.{
  IsPaired, Reach, here, next, step, Reach-start-IsPaired, Reach-same_key,
}
use rustdesk_server.Hbbs.Probe.{
  Relays, probe_host, answering, check_relay_servers, parse_relay_servers, tick, probed,
}
use rustdesk_server.Hbbs.Probe.Sorting.{if_any, check_relay_servers_order}
use rustdesk_server.Hbbs.Probe.Stale.{Later, stale_probe}
use rustdesk_server.Hbbs.Blocker.{IpBlockMap, check_ip_blocker}
use rustdesk_server.Hbbs.Console.{Shared, check_cmd, drain, is_yes}
use rustdesk_server.Hbbs.Console.Lists.{sweep_blocker}
use rustdesk_server.Hbbs.Console.Paging.{sweep_blocker_allowed}
use rustdesk_server.Hbbs.Console.Relaying.{check_cmd_aur}
use rustdesk_server.Tests.Instances.{whole, ipv4_nets, one_file}
use rustdesk_server.Tests.Selecting.{selector}

-- A handler that counts the frames, and closes the connection at an empty one.
abbrev count_frames : ℕ → Text → ℕ → Bool × ℕ
count_frames now bytes n = elim bytes [ [] ↦ (false, n) | c ∷ r ↦ (true, n + 1) ]

abbrev Frames : Type 0
Frames = List (ℕ × Event Text Text ℕ count_frames)

abbrev ws_start : State Text Text ℕ count_frames
ws_start = record { now = 0; last_seen = 0; world = 0; written = [] }

abbrev some_frames : Frames
some_frames =
    (1000, frame (some (text "a"))) ∷ (2000, pushed (text "b")) ∷ (300000, frame none) ∷ []

run-HasStopped_example : HasStopped Text Text ℕ count_frames (
    run Text Text ℕ count_frames
      (enough Text Text ℕ count_frames 90000 some_frames)
      90000
      some_frames
      ws_start)
run-HasStopped_example =
    run-HasStopped Text Text ℕ count_frames 90000 some_frames ws_start (omega arith)

-- No frame comes after the first second for minutes.
abbrev ws_end : State Text Text ℕ count_frames
ws_end = record {
  now = 92000;
  last_seen = 1000;
  world = 1;
  written = ping 62000 ∷ ping 32000 ∷ message 2000 (text "b") ∷ [];
}

run_idle_example : All (NotWithin Text Text ℕ count_frames 90000 92000) some_frames
unfolding run NotWithin Ascending
run_idle_example =
    run_idle Text Text ℕ count_frames 9 90000 some_frames ws_start ws_end (omega arith)
      ((omega arith, (omega arith, tt)), ((omega arith, tt), (tt, tt))) refl

abbrev two_messages : List (ℕ × Text)
two_messages = (20000, text "m") ∷ (45000, text "n") ∷ []

run-pushes_example :
    let events = pushes Text Text ℕ count_frames two_messages in
    (s' : State Text Text ℕ count_frames) × (run Text Text ℕ count_frames
        (enough Text Text ℕ count_frames 90000 events)
        90000
        events
        ws_start
      ≡ waiting s')
    × (s'.now ≡ last_time Text Text ℕ count_frames 0 two_messages)
    × (s'.last_seen ≡ 0)
unfolding IsDense
run-pushes_example =
    run-pushes Text Text ℕ count_frames 90000 two_messages ws_start
      (omega arith, omega arith, (omega arith, omega arith, tt))

-- A cipher that adds the key to every character, and gives up at an empty text.
abbrev toy : Crypto
toy = record {
  SecretKey = ℕ;
  Key = ℕ;
  Encrypt = ℕ;
  new = λ k. k;
  dec = λ k t. elim t [ [] ↦ none | c ∷ r ↦ some (r, k) ];
  decode = λ a b sk. if length a == sk then some 5 else none;
  keys_of = λ t. elim t [ [] ↦ none | c ∷ r ↦ if c == 1 then some (r ∷ r ∷ []) else none ];
}

abbrev keep_bytes : Text → Text → Bool × Text
keep_bytes bytes w = (true, bytes)

abbrev signed : ℕ → Text → Text
signed sk t = sk ∷ t

abbrev fresh : Link toy Text keep_bytes
fresh = record { handshake_sk = some 2; recv_encrypt = none; sink_key = none; world = [] }

abbrev secured : Link toy Text keep_bytes
secured = record { handshake_sk = none; recv_encrypt = some 5; sink_key = some 5; world = [] }

Reach-secured : Reach toy Text keep_bytes fresh secured
unfolding on_frame
Reach-secured = next here (step (1 ∷ 8 ∷ 9 ∷ []) refl)

Reach-start-IsPaired_example : IsPaired toy Text keep_bytes secured
unfolding start_tcp
Reach-start-IsPaired_example =
    Reach-start-IsPaired toy Text keep_bytes signed (text "key") (some 3) (text "p", 2) [] secured
      Reach-secured

-- The connection above after one more frame.
abbrev later : Link toy Text keep_bytes
later = record { handshake_sk = none; recv_encrypt = some 5; sink_key = some 5; world = 6 ∷ [] }

Reach-same_key_example : later.sink_key ≡ secured.sink_key
unfolding on_frame start_tcp
Reach-same_key_example =
    Reach-same_key toy Text keep_bytes signed (text "key") (some 3) (text "p", 2) [] fresh secured
      later here (step (1 ∷ 8 ∷ 9 ∷ []) refl) (next here (step (0 ∷ 6 ∷ []) refl))

abbrev answers_b : Text → Bool
answers_b t = not (t == text "a:21117")

abbrev three : List Text
three = text "a" ∷ text "b" ∷ text "c" ∷ []

-- The probe of c ended first.
abbrev ended_probes : List (ℕ × Text)
ended_probes = (2, text "c") ∷ (1, text "b") ∷ []

ended-perm : Perm ended_probes (answering answers_b 0 three)
unfolding answering probe_host contains_char
ended-perm = Perm.swap (1, text "b") (2, text "c") []

check_relay_servers_order_example :
    check_relay_servers ended_probes ≡ some (text "b" ∷ text "c" ∷ [])
unfolding if_any probe_host contains_char
check_relay_servers_order_example =
    check_relay_servers_order answers_b three ended_probes ended-perm

abbrev no_db : Text → Result LoadError (GeoDb whole)
no_db path = err (bad_database path)

abbrev a_disk : Disk
a_disk = one_file (text "f") (text "x")

abbrev relays : Relays whole ipv4_nets
relays = record { relay_servers0 = three; servers = selector; probing = [] }

-- The probe started, the list set, and the probe ended.
abbrev after_probe : Relays whole ipv4_nets
after_probe =
    probed whole ipv4_nets [] ended_probes
      (parse_relay_servers whole ipv4_nets (text "d") (tick whole ipv4_nets no_db a_disk relays))

stale_probe_example :
    ((parse_relay_servers whole ipv4_nets
        (text "d")
        (tick whole ipv4_nets no_db a_disk relays)).probing
      ≡ three ∷ [])
    × ((tick whole ipv4_nets no_db a_disk after_probe).servers.live ≡ text "b" ∷ text "c" ∷ [])
unfolding parse_relay_list probe_host contains_char split trim relay_entry_problem contains_text
    strip_prefix count_char
stale_probe_example =
    stale_probe whole ipv4_nets no_db a_disk (text "d") (text "d") answers_b ended_probes (text "b")
      (text "c" ∷ []) relays (tick whole ipv4_nets no_db a_disk after_probe) refl refl refl
      ended-perm refl (Later.timer Later.now a_disk)

abbrev old_entries : IpBlockMap
old_entries =
    (
      text "10.0.0.1",
      record { count = 31; counted_at = 1000; ids = text "id-one" ∷ []; ids_at = 1000 },
    )
    ∷ []

sweep_blocker_allowed_example :
    (check_ip_blocker 100000500
      (text "10.0.0.1")
      (text "id-two")
      (sweep_blocker 100000000 old_entries)).0
    ≡ (check_ip_blocker 100000500 (text "10.0.0.1") (text "id-two") old_entries).0
unfolding Unique Map.get
sweep_blocker_allowed_example =
    sweep_blocker_allowed 100000000 100000500 (text "10.0.0.1") (text "id-two") old_entries
      (refl, tt) (omega arith)

abbrev shared : Shared whole ipv4_nets
shared = record {
  relays = relays;
  ip_blocker = old_entries;
  ip_changes = [];
  punch_reqs = [];
  always_use_relay = false;
  must_login = false;
  ws_peers = [];
  queue = [];
}

abbrev no_ip : Text → Option IpAddr
no_ip t = none

-- The only relay is then "Y".
check_cmd_aur_example :
    let c' =
      drain whole ipv4_nets (check_cmd whole ipv4_nets 9 no_ip (text "aur Y") a_disk shared).2 in
    (c'.always_use_relay ≡ true)
    × (c'.relays.relay_servers0 ≡ text "Y" ∷ [])
    × (c'.relays.servers.live ≡ text "Y" ∷ [])
unfolding is_yes parse_relay_list split trim relay_entry_problem contains_text contains_char
    strip_prefix count_char
check_cmd_aur_example =
    check_cmd_aur whole ipv4_nets 9 no_ip (text "aur Y") (text "aur") (text "Y") [] a_disk shared
      refl refl
