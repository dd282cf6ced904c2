-- ===== src/Selector/Files.antt =====
-- The files of src/relay_select.rs: the routing table, the GeoIP database and the locations are
-- read again when they change, and a file that cannot be used leaves the previous data in force.
pub mod Laws
use rustdesk_server.Prelude.{
  ℕ, ◌≡◌, Bool, true, false, ◌&&◌, ◌||◌, not, Option, none, some, List, [], ◌∷◌, arith, is_some,
  if◌then◌else◌, ◌==◌, nat_eq, is_empty_list,
}
use rustdesk_server.Prelude.Text.{Text}
use rustdesk_server.Prelude.Result.{Result, ok, err}
use rustdesk_server.Disk.{Disk}
use rustdesk_server.Numbers.{Float}
use rustdesk_server.Routes.{Networks, RouteTable, ParseError}
use rustdesk_server.Routes
use rustdesk_server.Geo
use rustdesk_server.Geo.{GeoDb, Locations, LocationError}
use rustdesk_server.Selector.{
  Stamp, LoadError, cannot_read, bad_routes, bad_locations, bad_database, RouteState, GeoState,
  Selector,
}

-- `==` on what was seen of a file.
abbrev pub stamp_beq : Stamp → Stamp → Bool
stamp_beq none none = true
stamp_beq none (some b) = false
stamp_beq (some a) none = false
stamp_beq (some (t, n)) (some (u, m)) = t == u && n == m

abbrev pub seen_beq : Option Stamp → Option Stamp → Bool
seen_beq none none = true
seen_beq none (some b) = false
seen_beq (some a) none = false
seen_beq (some a) (some b) = stamp_beq a b

load_error : {A : Type 0} → Text → (Text → Result LoadError A) → Option Text → Result LoadError A
load_error path parse none = err (cannot_read path)
load_error path parse (some t) = parse t

routes_error : {A : Type 0} → Result ParseError A → Result LoadError A
routes_error (ok a) = ok a
routes_error (err e) = err (bad_routes e)

location_error : {A : Type 0} → Result LocationError A → Result LoadError A
location_error (ok a) = ok a
location_error (err e) = err (bad_locations e)

module _ (fl : Float) (nets : Networks) where
  -- `RouteTable::load`
  unfoldable pub load_table : Disk → Text → Result LoadError (RouteTable fl nets)
  unfolding load_error routes_error
  load_table disk path =
      load_error path (λ t. routes_error (Routes.parse fl nets t)) (disk.contents path)

  -- `Locations::load`
  unfoldable pub load_locations : Disk → Text → Result LoadError (Locations fl)
  unfolding load_error location_error
  load_locations disk path =
      load_error path (λ t. location_error (Geo.parse fl t)) (disk.contents path)

  install_table : Result LoadError (RouteTable fl nets) → Selector fl nets → Selector fl nets
  install_table (ok table) s = record s {
    routes = record s.routes { table = some table; error = none };
    pins = [];
  }
  install_table (err e) s = record s { routes = record s.routes { error = some e } }

  -- What is loaded when the file at `path` looks as it does.
  load_if_there : {A : Type 0} → Text → Stamp → Result LoadError A → Result LoadError A
  load_if_there path none loaded = err (cannot_read path)
  load_if_there path (some x) loaded = loaded

  reload_from : Disk → Option Text → Selector fl nets → Selector fl nets
  unfolding install_table load_if_there load_table
  reload_from disk none s = s
  reload_from disk (some path) s =
      let stamp = disk.stamp path in
      if seen_beq s.routes.seen (some stamp)
      then s
      else install_table (load_if_there path stamp (load_table disk path))
          (record s { routes = record s.routes { seen = some stamp } })

  unfoldable pub reload_relay_routes : Disk → Selector fl nets → Selector fl nets
  unfolding reload_from
  reload_relay_routes disk s = reload_from disk s.routes.path s

  -- `path.map(stamp)`
  stamp_of : Disk → Option Text → Option Stamp
  stamp_of disk none = none
  stamp_of disk (some path) = some (disk.stamp path)

  abbrev has_changed : Option Stamp → Option Stamp → Bool
  has_changed seen now = is_some now && not (seen_beq seen now)

  -- What is loaded of a file that has changed; `none` if it has no path or looks the same.
  loaded_if_changed :
      {A : Type 0}
      → Option Text
      → Bool
      → Option Stamp
      → (Text → Result LoadError A)
      → Option (Result LoadError A)
  loaded_if_changed (some path) true (some (some x)) load = some (load path)
  loaded_if_changed (some path) true (some none) load = some (err (cannot_read path))
  loaded_if_changed (some path) true none load = some (err (cannot_read path))
  loaded_if_changed (some path) false now load = none
  loaded_if_changed none changed now load = none

  install_db :
      Option Stamp → Option (Result LoadError (GeoDb fl)) → GeoState fl nets → GeoState fl nets
  install_db now none g = g
  install_db now (some (ok db)) g = record g { db_seen = now; db = some db; db_error = none }
  install_db now (some (err e)) g = record g { db_seen = now; db_error = some e }

  install_locations :
      Option Stamp → Option (Result LoadError (Locations fl)) → GeoState fl nets → GeoState fl nets
  install_locations now none g = g
  install_locations now (some (ok l)) g = record g {
    loc_seen = now;
    locations = some l;
    loc_error = none;
  }
  install_locations now (some (err e)) g = record g { loc_seen = now; loc_error = some e }

  abbrev succeeded : {A : Type 0} → Option (Result LoadError A) → Bool
  succeeded none = false
  succeeded (some (ok a)) = true
  succeeded (some (err e)) = false

  -- `GeoDb::open` over the `maxminddb` reader is a parameter.
  unfoldable pub reload_relay_geo :
      (Text → Result LoadError (GeoDb fl)) → Disk → Selector fl nets → Selector fl nets
  unfolding stamp_of loaded_if_changed install_db install_locations load_locations
  reload_relay_geo open_db disk s =
      let g = s.geo in
      let db_now = stamp_of disk g.db_path in
      let loc_now = stamp_of disk g.loc_path in
      let db_changed = has_changed g.db_seen db_now in
      let loc_changed = has_changed g.loc_seen loc_now in
      let db_loaded = loaded_if_changed g.db_path db_changed db_now open_db in
      let loc_loaded = loaded_if_changed g.loc_path loc_changed loc_now (load_locations disk) in
      let g' = install_locations loc_now loc_loaded (install_db db_now db_loaded g) in
      if not db_changed && not loc_changed then s else record s {
        geo = g';
        pins = if succeeded db_loaded || succeeded loc_loaded then [] else s.pins;
      }

  -- Re-read whichever files changed.
  unfoldable pub reload :
      (Text → Result LoadError (GeoDb fl)) → Disk → Selector fl nets → Selector fl nets
  reload open_db disk s = reload_relay_geo open_db disk (reload_relay_routes disk s)
