-- ===== src/Hbbs/Probe.antt =====
-- The relay list in `io_loop` of src/rendezvous_server.rs: `check_relay_servers`, which probes the
-- relays, `parse_relay_servers`, and the timer.
pub mod Sorting
pub mod Stale
use rustdesk_server.Prelude.{
  ℕ, ◌+◌, Bool, true, false, not, Option, none, some, List, [], ◌∷◌, ◌++◌, map, ltb, leb, length,
  if◌then◌else◌,
}
use rustdesk_server.Prelude.Text.{Text, contains_char}
use rustdesk_server.Prelude.Result.{Result}
use rustdesk_server.Disk.{Disk}
use rustdesk_server.Numbers.{Float}
use rustdesk_server.Relay.Name.{default_port, parse_relay_list}
use rustdesk_server.Routes.{Networks}
use rustdesk_server.Geo.{GeoDb}
use rustdesk_server.Selector.{Selector, LoadError, set_live}
use rustdesk_server.Selector.Files.{reload}

-- The address that is probed.
unfoldable pub probe_host : Text → Text
probe_host relay = if contains_char b':' relay then relay else relay ++ default_port

-- The relays that answer, with their places in the list, which counts from `i`.
unfoldable pub answering : (Text → Bool) → ℕ → List Text → List (ℕ × Text)
answering answers i [] = []
answering answers i (x ∷ xs) =
    let rest = answering answers (i + 1) xs in
    if answers (probe_host x) then (i, x) ∷ rest else rest

unfoldable pub insert_by_key : ℕ × Text → List (ℕ × Text) → List (ℕ × Text)
insert_by_key x [] = x ∷ []
insert_by_key x (y ∷ ys) =
    let rest = insert_by_key x ys in if leb x.0 y.0 then x ∷ y ∷ ys else y ∷ rest

-- `sort_by_key`, which is stable.
unfoldable pub sort_by_key : List (ℕ × Text) → List (ℕ × Text)
unfolding insert_by_key
sort_by_key [] = []
sort_by_key (x ∷ xs) = insert_by_key x (sort_by_key xs)

-- The list that `check_relay_servers` sends, given the probes that succeeded in the order in which
-- they did; none if there is none.
unfoldable pub check_relay_servers : List (ℕ × Text) → Option (List Text)
unfolding sort_by_key
check_relay_servers [] = none
check_relay_servers (x ∷ xs) = some (map (λ (y : ℕ × Text). y.1) (sort_by_key (x ∷ xs)))

module _ (fl : Float) (nets : Networks) where
  -- `relay_servers0`, the relay selector, and the lists whose probes are under way.
  pub record Relays : Type 0 where
    pub relay_servers0 : List Text
    pub servers : Selector fl nets
    pub probing : List (List Text)

  unfoldable pub parse_relay_servers : Text → Relays → Relays
  parse_relay_servers arg r =
      let (rs, dropped) = parse_relay_list arg in
      record r { relay_servers0 = rs; servers = set_live fl nets rs r.servers }

  -- `timer_check_relay`: read the files again; only a list of several relays is probed.
  unfoldable pub tick : (Text → Result LoadError (GeoDb fl)) → Disk → Relays → Relays
  tick open_db disk r = record r {
    servers = reload fl nets open_db disk r.servers;
    probing = if ltb 1 (length r.relay_servers0) then r.relay_servers0 ∷ r.probing else r.probing;
  }

  -- The probe that was started last but `n` ends; `ended` are its successes in their order.
  unfoldable pub probed : List (List Text) → List (ℕ × Text) → Relays → Relays
  probed left ended r =
      let r' = record r { probing = left } in
      elim (check_relay_servers ended) [
        | none ↦ r'
        | some rs ↦ record r' { servers = set_live fl nets rs r.servers }
      ]
