-- ===== src/Selector.antt =====
-- src/relay_select.rs: the selector's state and `pick`. The mutexes are taken one at a time and
-- are never poisoned; each call here is what one call does to the shared state. Time is in
-- milliseconds, and a log line is no effect.
pub mod Picking
pub mod Holding
pub mod Bounds
pub mod Files
pub mod Commands
pub mod Console
use rustdesk_server.Prelude.{
  ℕ, zero, suc, ◌+◌, ◌-◌, ◌*◌, ◌%◌, ◌^◌, ◌≡◌, Bool, true, false, ◌&&◌, ◌||◌, not, Option, none,
  some, List, [], ◌∷◌, map, arith, ltb, leb, is_some, if◌then◌else◌, ◌==◌, text_eq, find, length,
  contains, get_or, filter_map, all,
}
use rustdesk_server.Prelude.Map
use rustdesk_server.Prelude.Map.{Map}
use rustdesk_server.Prelude.Text.{Text}
use rustdesk_server.Net.{IpAddr, ip_le, to_canonical, pair_eq}
use rustdesk_server.Numbers.{Float}
use rustdesk_server.Relay.Name.{normalize}
use rustdesk_server.Routes.{Networks, ParseError, RouteTable, Choice, costs_for, choose_from}
use rustdesk_server.Geo.{LocationError, Point, Locations, GeoDb, costs_from, locate_in}

-- The modification time and the length of a file; `none` if it cannot be looked at.
abbrev pub Stamp : Type 0
Stamp = Option (ℕ × ℕ)

-- Why a file is not in force.
pub data LoadError : Type 0 where
  cannot_read : Text → LoadError
  bad_routes : ParseError → LoadError
  bad_locations : LocationError → LoadError
  bad_database : Text → LoadError

-- The two ends of a session, in a fixed order.
abbrev pub PinKey : Type 0
PinKey = IpAddr × IpAddr

pub record RelayPin : Type 0 where
  pub relay : Text
  pub until : ℕ

abbrev pub Pins : Type 0
Pins = Map PinKey RelayPin

pub record PreferredRelay : Type 0 where
  pub relay : Option Text
  pub path : Text

pub data Reason : Type 0 where
  no_relay_configured only_relay preferred pinned routes geo routes_and_geo round_robin : Reason

-- Which of the two kinds of knowledge a side's costs came from.
pub data Source : Type 0 where
  from_routes from_geo : Source

abbrev is_routes : Source → Bool
is_routes from_routes = true
is_routes from_geo = false

abbrev pub max_relay_pins : ℕ
max_relay_pins = 4096

unfoldable pub pin_key : IpAddr → IpAddr → PinKey
pin_key pa pb =
    let a = to_canonical pa in let b = to_canonical pb in if ip_le a b then (a, b) else (b, a)

-- A held choice that has not expired and names a relay that is still healthy.
unfoldable pub pinned_relay : PinKey → List Text → ℕ → Pins → Option Text × Pins
pinned_relay key live now pins = elim (Map.get key pins) [
  | none ↦ (none, pins)
  | some p ↦
      if ltb now p.until && contains p.relay live
      then (some p.relay, pins)
      else (none, Map.remove key pins)
]

-- Room for one more held choice: expired ones are dropped first.
make_room : ℕ → Pins → Pins
make_room now pins =
    if leb max_relay_pins (length pins)
    then (let kept = Map.retain (λ _ p. ltb now p.until) pins in
        if leb max_relay_pins (length kept) then [] else kept)
    else pins

unfoldable pub pin_relay : ℕ → PinKey → Text → ℕ → Pins → Pins
unfolding make_room
pin_relay zero key relay now pins = pins
pin_relay (suc ttl) key relay now pins =
    Map.insert key (record { relay = relay; until = now + suc ttl }) (make_room now pins)

-- The relay of the list that the operator has chosen, if it is answering.
unfoldable pub preferred_live : List Text → Option Text → Option Text
preferred_live live none = none
preferred_live live (some want) = find (λ r. normalize r == normalize want) live

module _ (fl : Float) (nets : Networks) where
  open fl use {F}

  -- The routing table and what is known about the file it came from.
  pub record RouteState : Type 0 where
    pub path : Option Text
    pub table : Option (RouteTable fl nets)
    -- `none`: never looked.
    pub seen : Option Stamp
    pub error : Option LoadError

  pub record GeoState : Type 0 where
    pub db_path : Option Text
    pub db : Option (GeoDb fl)
    pub db_seen : Option Stamp
    pub db_error : Option LoadError
    pub loc_path : Option Text
    pub locations : Option (Locations fl)
    pub loc_seen : Option Stamp
    pub loc_error : Option LoadError

  -- A decision, with enough to explain it.
  pub record RelayPick : Type 0 where
    pub relay : Text
    pub reason : Reason
    pub costs : List (Text × F)

  -- `RelaySelector`, with the two statics `ROTATION_RELAY_SERVER` and `RELAY_PIN_TTL_MS`.
  pub record Selector : Type 0 where
    pub live : List Text
    pub routes : RouteState
    pub pins : Pins
    pub preferred : PreferredRelay
    pub geo : GeoState
    pub rotation : ℕ
    pub pin_ttl_ms : ℕ

  unfoldable pub set_live : List Text → Selector → Selector
  set_live relays s = record s { live = relays }

  -- Where the GeoIP database puts an address, if geo routing is set up.
  unfoldable pub locate : Selector → IpAddr → Option (Point fl)
  locate s ip = elim s.geo.locations [
    | none ↦ none
    | some _ ↦ elim s.geo.db [ none ↦ none | some db ↦ locate_in fl db ip ]
  ]

  located_costs : Selector → IpAddr → Option (Map Text F × Source)
  unfolding locate
  located_costs s ip = elim (locate s ip) [
    | none ↦ none
    | some at ↦ elim s.geo.locations [ none ↦ none | some l ↦ some (costs_from fl l at, from_geo) ]
  ]

  table_costs : Option (RouteTable fl nets) → IpAddr → Option (Map Text F)
  table_costs none ip = none
  table_costs (some t) ip = costs_for fl nets t ip

  -- The routing table's line for an address, else its distance from each relay, else nothing.
  unfoldable pub side_costs : Selector → IpAddr → Option (Map Text F × Source)
  unfolding located_costs table_costs
  side_costs s ip = elim (table_costs s.routes.table ip) [
    | some costs ↦ some (costs, from_routes)
    | none ↦ located_costs s ip
  ]

  reason_of : List Source → Reason
  reason_of sources =
      if all is_routes sources
      then routes
      else if all (λ x. not (is_routes x)) sources
      then geo
      else routes_and_geo

  -- The choice by cost, else the next relay in turn. A dry run does not turn the rotation.
  unfoldable pub choose : Bool → IpAddr → IpAddr → Selector → RelayPick × Selector
  unfolding reason_of
  choose commit pa pb s =
      let known = filter_map (side_costs s) (pa ∷ pb ∷ []) in
      elim (choose_from fl s.live (map (λ (k : Map Text F × Source). k.0) known)) [
        | some c ↦ (
          record {
            relay = c.relay;
            reason = reason_of (map (λ (k : Map Text F × Source). k.1) known);
            costs = c.costs;
          },
          s,
        )
        | none ↦ (
          record {
            relay = get_or s.live (s.rotation % length s.live) [];
            reason = round_robin;
            costs = [];
          },
          if commit then record s { rotation = (s.rotation + 1) % 2 ^ 64 } else s,
        )
      ]

  -- The end of `pick`: choose and, with `commit`, hold the choice.
  choose_and_pin : ℕ → IpAddr → IpAddr → Bool → Selector → RelayPick × Selector
  unfolding choose
  choose_and_pin now pa pb commit s =
      let (p, s') = choose commit pa pb s in
      if commit
      then (p, record s' { pins = pin_relay s'.pin_ttl_ms (pin_key pa pb) p.relay now s'.pins })
      else (p, s')

  pick_unpinned : ℕ → IpAddr → IpAddr → Bool → Selector → RelayPick × Selector
  unfolding choose_and_pin
  pick_unpinned now pa pb false s = choose_and_pin now pa pb false s
  pick_unpinned now pa pb true s =
      let (held, pins) = pinned_relay (pin_key pa pb) s.live now s.pins in
      let s' = record s { pins = pins } in
      elim held [
        | some relay ↦ (record { relay = relay; reason = pinned; costs = [] }, s')
        | none ↦ choose_and_pin now pa pb true s'
      ]

  pick_among : List Text → ℕ → IpAddr → IpAddr → Bool → Selector → RelayPick × Selector
  unfolding pick_unpinned
  pick_among [] now pa pb commit s =
      (record { relay = []; reason = no_relay_configured; costs = [] }, s)
  pick_among (r ∷ []) now pa pb commit s =
      (record { relay = r; reason = only_relay; costs = [] }, s)
  pick_among (r ∷ r' ∷ rs) now pa pb commit s = elim (preferred_live s.live s.preferred.relay) [
    | some relay ↦ (record { relay = relay; reason = preferred; costs = [] }, s)
    | none ↦ pick_unpinned now pa pb commit s
  ]

  -- Choose a relay for a session between `pa` and `pb`.
  unfoldable pub pick : ℕ → IpAddr → IpAddr → Bool → Selector → RelayPick × Selector
  unfolding pick_among
  pick now pa pb commit s = pick_among s.live now pa pb commit s
