-- ===== src/Geo.antt =====
-- src/relay_geo.rs: the positions of the relays, and the cost that a distance stands for.
use rustdesk_server.Prelude.{
  ℕ, ◌+◌, Bool, ◌&&◌, ◌||◌, not, Option, List, [], ◌∷◌, map, is_some, is_empty_list, if◌then◌else◌,
  ◌==◌, nat_eq, text_eq,
}
use rustdesk_server.Prelude.Map
use rustdesk_server.Prelude.Map.{Map}
use rustdesk_server.Prelude.Text.{
  Text, trim, split, split_by, split_once_by, nonempty, is_empty, lines, is_whitespace,
}
use rustdesk_server.Prelude.Result.{Result, ok, err, ◌>>=◌, ◌>>◌, ensure, ok_or}
use rustdesk_server.Net.{IpAddr, to_canonical}
use rustdesk_server.Numbers.{Float}
use rustdesk_server.Relay.Name.{normalize}

-- The messages of `Locations::parse`.
pub data LocationError : Type 0 where
  no_separator : ℕ → LocationError
  not_two_numbers not_a_latitude not_a_longitude relay_twice : ℕ → Text → LocationError
  latitude_outside longitude_outside : ℕ → LocationError
  no_locations : LocationError

module _ (fl : Float) where
  open fl use {F, lit, add, sub, mul, div}

  pub record Point : Type 0 where
    pub lat : F
    pub lon : F

  square : F → F
  square x = mul x x

  -- Great-circle distance, kilometres.
  pub distance_km : Point → Point → F
  unfolding square
  distance_km a b =
      let la = fl.to_radians a.lat in
      let lb = fl.to_radians b.lat in
      let dlat = sub lb la in
      let dlon = fl.to_radians (sub b.lon a.lon) in
      let h =
        add (square (fl.sin (div dlat (lit 2))))
          (mul (mul (fl.cos la) (fl.cos lb)) (square (fl.sin (div dlon (lit 2))))) in
      mul (mul (lit 2) (lit 6371)) (fl.asin (fl.least (fl.sqrt h) (lit 1)))

  -- `KM_PER_MS`
  abbrev km_per_ms : F
  km_per_ms = lit 50

  -- Normalised relay -> position.
  abbrev pub Locations : Type 0
  Locations = Map Text Point

  abbrev within : ℕ → F → Bool
  within limit x = fl.le (fl.neg (lit limit)) x && fl.le x (lit limit)

  -- The numbers of a line, once it is cut.
  parse_point : ℕ → Text → Text → List Text → Result LocationError Point
  parse_point n relay rest (lat_text ∷ lon_text ∷ []) = do
    lat ← ok_or (fl.parse lat_text) (not_a_latitude n lat_text)
    lon ← ok_or (fl.parse lon_text) (not_a_longitude n lon_text)
    ensure (within 90 lat) (latitude_outside n)
    ensure (within 180 lon) (longitude_outside n)
    ok (record { lat = lat; lon = lon })
  parse_point n relay rest _ = err (not_two_numbers n relay)

  is_separator : ℕ → Bool
  is_separator c = c == b',' || is_whitespace c

  parse_position : ℕ → Locations → Text → Result LocationError Locations
  unfolding parse_point is_separator
  parse_position n relays line = do
    (relay, rest) ← ok_or (split_once_by is_whitespace line) (no_separator n)
    p ← parse_point n relay rest (nonempty (split_by is_separator rest))
    ensure (not (is_some (Map.get (normalize relay) relays))) (relay_twice n relay)
    ok (Map.insert (normalize relay) p relays)

  parse_line : ℕ → Locations → Text → Result LocationError Locations
  unfolding parse_position
  parse_line n relays raw =
      let line = trim (elim (split b'#' raw) [ [] ↦ [] | first ∷ _ ↦ first ]) in
      if is_empty line then ok relays else parse_position n relays line

  parse_lines : ℕ → Locations → List Text → Result LocationError Locations
  unfolding parse_line
  parse_lines n relays [] = ok relays
  parse_lines n relays (raw ∷ rest) =
      parse_line n relays raw >>= λ relays'. parse_lines (n + 1) relays' rest

  unfoldable pub parse : Text → Result LocationError Locations
  unfolding parse_lines
  parse t = do
    relays ← parse_lines 1 [] (lines t)
    ensure (not (is_empty_list relays)) no_locations
    ok relays

  -- Does this list say where `relay` is?
  unfoldable pub knows : Locations → Text → Bool
  knows l relay = is_some (Map.get (normalize relay) l)

  cost_from : Point → Text × Point → Text × F
  cost_from at (relay, p) = (relay, div (distance_km at p) km_per_ms)

  -- Estimated milliseconds from `at` to every relay whose position is known.
  unfoldable pub costs_from : Locations → Point → Map Text F
  unfolding cost_from
  costs_from l at = map (cost_from at) l

  -- An open GeoIP database: the lookup closure over the `maxminddb` reader, and its type.
  pub record GeoDb : Type 0 where
    pub find_point : IpAddr → Option Point
    pub kind : Text

  unfoldable pub locate_in : GeoDb → IpAddr → Option Point
  locate_in db ip = db.find_point (to_canonical ip)
