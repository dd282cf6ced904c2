-- ===== src/Selector/Console.antt =====
-- `console` of src/relay_select.rs: the commands of the relay selector, and the lines they print, with
-- the values in them.
use rustdesk_server.Prelude.{
  ℕ, ◌/◌, ◌≡◌, refl, inl, inr, Bool, false, ◌||◌, not, Option, none, some, List, [], ◌∷◌, ◌++◌, map,
  ◌==◌, text_eq, if◌then◌else◌, length, filterb, filter_map, is_empty_list, Bool-cases,
}
use rustdesk_server.Prelude.Text.{Text, text, trim, split}
use rustdesk_server.Net.{IpAddr}
use rustdesk_server.Disk.{Disk}
use rustdesk_server.Numbers.{Float}
use rustdesk_server.Routes.{Networks, rule_count}
use rustdesk_server.Geo.{Point, knows}
use rustdesk_server.Selector.{Selector, LoadError, Reason, RouteState, GeoState, pick, locate}
use rustdesk_server.Selector.Picking.{pick_dry}
use rustdesk_server.Selector.Commands.{Reply, use_relay_command}

-- What is shown of the GeoIP database and of the locations, which are counted.
pub data FileStatus : Type 0 where
  not_configured : FileStatus
  loaded : (path : Text) (count : Option ℕ) → FileStatus
  previous_kept : (path : Text) (count : Option ℕ) → LoadError → FileStatus
  not_loaded : (path : Text) → Option LoadError → FileStatus

unfoldable pub file_status : Option Text → Option (Option ℕ) → Option LoadError → FileStatus
file_status none content error = not_configured
file_status (some p) (some count) none = loaded p count
file_status (some p) (some count) (some e) = previous_kept p count e
file_status (some p) none e = not_loaded p e

module _ (fl : Float) (nets : Networks) where
  open fl use {F}

  pub data Line : Type 0 where
    relay : Text → Reason → Line
    located : IpAddr → Point fl → Line
    cost : Text → F → Line
    usage : Line
    choice : Reply → Line
    no_table : Line
    table : (path : Text) (rules : ℕ) → Option LoadError → Line
    no_geo : Line
    geo_database relay_locations : FileStatus → Line
    without_location : List Text → Line
    held : (pin_ttl_secs count : ℕ) → Line

  located_line : Selector fl nets → IpAddr → Option Line
  located_line s ip = elim (locate fl nets s ip) [ none ↦ none | some p ↦ some (located ip p) ]

  test_relay : ℕ → Option IpAddr → Option IpAddr → Selector fl nets → List Line × Selector fl nets
  unfolding located_line
  test_relay now (some a) (some b) s =
      let (p, s') = pick fl nets now a b false s in
      (
        relay p.relay p.reason ∷ filter_map (located_line s') (a ∷ b ∷ [])
            ++ map (λ (c : Text × F). cost c.0 c.1) p.costs,
        s',
      )
  test_relay now (some a) none s = (usage ∷ [], s)
  test_relay now none b s = (usage ∷ [], s)

  -- The addresses of `test-relay`; one stands for both ends.
  test_relay_command :
      ℕ → (Text → Option IpAddr) → List Text → Selector fl nets → List Line × Selector fl nets
  unfolding test_relay
  test_relay_command now parse_ip [] s = ([], s)
  test_relay_command now parse_ip (first ∷ []) s =
      test_relay now (parse_ip first) (parse_ip first) s
  test_relay_command now parse_ip (first ∷ second ∷ rest) s =
      test_relay now (parse_ip first) (parse_ip second) s

  routes_line : RouteState fl nets → Line
  routes_line st = elim st.path [
    | none ↦ no_table
    | some path ↦
        let rules : ℕ = elim st.table [ none ↦ 0 | some t ↦ rule_count fl nets t ] in
        table path rules st.error
  ]

  -- Both files of geo routing, if one is configured at least.
  geo_lines : GeoState fl nets → List Line
  unfolding file_status
  geo_lines g =
      let db : Option (Option ℕ) = elim g.db [ none ↦ none | some d ↦ some none ] in
      let loc : Option (Option ℕ) = elim g.locations [
        | none ↦ none
        | some l ↦ some (some (length l))
      ] in
      let both =
        geo_database (file_status g.db_path db g.db_error)
        ∷ relay_locations (file_status g.loc_path loc g.loc_error)
        ∷ [] in
      elim g.db_path [
        | some p ↦ both
        | none ↦ elim g.loc_path [ some p ↦ both | none ↦ no_geo ∷ [] ]
      ]

  -- The healthy relays that have no location.
  missing_lines : Selector fl nets → List Line
  missing_lines s = elim s.geo.locations [
    | none ↦ []
    | some l ↦
        let missing = filterb (λ r. not (knows fl l r)) s.live in
        if is_empty_list missing then [] else without_location missing ∷ []
  ]

  relay_routes_lines : Selector fl nets → List Line
  unfolding routes_line geo_lines missing_lines
  relay_routes_lines s =
      routes_line s.routes ∷ geo_lines s.geo
      ++ missing_lines s
      ++ held (s.pin_ttl_ms / 1000) (length s.pins) ∷ []

  first_word : List Text → Option Text
  first_word [] = none
  first_word (w ∷ ws) = some w

  unfoldable pub is_use_relay : Text → Bool
  is_use_relay w = w == text "use-relay" || w == text "ur"

  run_command :
      ℕ
      → (Text → Option IpAddr)
      → List Text
      → Disk
      → Selector fl nets
      → Option (List Line) × Disk × Selector fl nets
  unfolding test_relay_command relay_routes_lines first_word is_use_relay
  run_command now parse_ip [] disk s = (none, disk, s)
  run_command now parse_ip (w ∷ args) disk s =
      if w == text "test-relay" || w == text "tr"
      then (let (lines, s') = test_relay_command now parse_ip args s in (some lines, disk, s'))
      else if is_use_relay w
      then (let (reply, disk', s') = use_relay_command fl nets (first_word args) disk s in
          (some (choice reply ∷ []), disk', s'))
      else if w == text "relay-routes" || w == text "rr"
      then (some (relay_routes_lines s), disk, s)
      else (none, disk, s)

  -- `parse_ip` is `str::parse::<IpAddr>`. None is any other command.
  unfoldable pub console :
      ℕ
      → (Text → Option IpAddr)
      → Text
      → Disk
      → Selector fl nets
      → Option (List Line) × Disk × Selector fl nets
  unfolding run_command
  console now parse_ip cmd disk s = run_command now parse_ip (split b' ' (trim cmd)) disk s

  test_relay_dry :
      (now : ℕ) (a b : Option IpAddr) (s : Selector fl nets) → (test_relay now a b s).1 ≡ s
  unfolding test_relay
  test_relay_dry now (some a) (some b) s = pick_dry fl nets now a b s
  test_relay_dry now (some a) none s = refl
  test_relay_dry now none b s = refl

  test_command_dry :
      (now : ℕ) (parse_ip : Text → Option IpAddr) (args : List Text) (s : Selector fl nets)
      → (test_relay_command now parse_ip args s).1 ≡ s
  unfolding test_relay_command
  test_command_dry now parse_ip [] s = refl
  test_command_dry now parse_ip (a ∷ []) s = test_relay_dry now (parse_ip a) (parse_ip a) s
  test_command_dry now parse_ip (a ∷ b ∷ r) s = test_relay_dry now (parse_ip a) (parse_ip b) s

  -- A console command whose first word is not `use-relay` or `ur` changes neither the disk nor the
  -- selector: nothing is held, rotated or loaded.
  pub console_shows :
      (now : ℕ) (parse_ip : Text → Option IpAddr) (cmd w : Text) (args : List Text) (disk : Disk)
      (s : Selector fl nets)
      → split b' ' (trim cmd) ≡ w ∷ args
      → is_use_relay w ≡ false
      → ((console now parse_ip cmd disk s).1 ≡ disk) × ((console now parse_ip cmd disk s).2 ≡ s)
  unfolding console
  console_shows now parse_ip cmd w args disk s h u =
      let tested = test_command_dry now parse_ip args s in
      rw h (elim (Bool-cases (w == text "test-relay" || w == text "tr")) [
        | inl t ↦ rw t (refl, tested)
        | inr t ↦
            rw (t, u)
              (elim (Bool-cases (w == text "relay-routes" || w == text "rr")) [
                | inl r ↦ rw r (refl, refl)
                | inr r ↦ rw r (refl, refl)
              ])
      ])
