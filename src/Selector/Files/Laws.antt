-- ===== src/Selector/Files/Laws.antt =====
-- Reloading in src/relay_select.rs: what is in force afterwards, and that a file is read once per
-- change.
use rustdesk_server.Prelude.{
  ◌≡◌, refl, ◌⊎◌, inl, inr, true, Option, none, some, [], arith, Bool-cases, Option-cases, nat_eq,
  beq_refl,
}
use rustdesk_server.Prelude.Text.{Text}
use rustdesk_server.Prelude.Result.{ok, Result-cases}
use rustdesk_server.Disk.{Disk}
use rustdesk_server.Numbers.{Float}
use rustdesk_server.Routes.{Networks, RouteTable}
use rustdesk_server.Routes
use rustdesk_server.Selector.{Stamp, Selector}
use rustdesk_server.Selector.Files.{
  stamp_beq, seen_beq, load_error, routes_error, load_table, load_if_there, install_table,
  reload_from, reload_relay_routes,
}

stamp_beq_refl : (a : Stamp) → stamp_beq a a ≡ true
stamp_beq_refl none = refl
stamp_beq_refl (some (t, n)) = ground (arith, beq_refl t, beq_refl n)

seen_beq_refl : (a : Option Stamp) → seen_beq a a ≡ true
seen_beq_refl none = refl
seen_beq_refl (some a) = stamp_beq_refl a

module _ (fl : Float) (nets : Networks) where
  -- The table that was in force stays, with the held choices, or the file as it is now parses to
  -- the new table and no choice is held.
  abbrev pub Reloads : Disk → Selector fl nets → Selector fl nets → Type 0
  Reloads disk s s' =
      ((s'.routes.table ≡ s.routes.table) × (s'.pins ≡ s.pins))
      ⊎ ((path txt : Text) × (table : RouteTable fl nets) × (s.routes.path ≡ some path)
          × (disk.contents path ≡ some txt)
          × (Routes.parse fl nets txt ≡ ok table)
          × (s'.routes.table ≡ some table)
          × (s'.pins ≡ []))

  load_table_ok :
      (disk : Disk) (path : Text) (x : Stamp) (table : RouteTable fl nets)
      → load_if_there fl nets path x (load_table fl nets disk path) ≡ ok table
      → (txt : Text) × (disk.contents path ≡ some txt) × (Routes.parse fl nets txt ≡ ok table)
  unfolding load_if_there load_table load_error routes_error
  load_table_ok disk path none table e = cc
  load_table_ok disk path (some x) table e = elim (Option-cases (disk.contents path)) [
    | inl p ↦ ground (arith, p)
    | inr (txt, p) ↦ elim (Result-cases (Routes.parse fl nets txt)) [
      | inl (t, q) ↦ (txt, p, ground (arith, p, q))
      | inr (x', q) ↦ ground (arith, p, q)
    ]
  ]

  reload_from-Reloads :
      (disk : Disk) (o : Option Text) (s : Selector fl nets)
      → s.routes.path ≡ o
      → Reloads disk s (reload_from fl nets disk o s)
  unfolding reload_from install_table
  reload_from-Reloads disk none s e = inl (refl, refl)
  reload_from-Reloads disk (some path) s e =
      let stamp = disk.stamp path in
      elim (Bool-cases (seen_beq s.routes.seen (some stamp))) [
        | inl p ↦ inl (ground (arith, p), ground (arith, p))
        | inr p ↦
            elim (Result-cases (load_if_there fl nets path stamp (load_table fl nets disk path))) [
              | inr (x, q) ↦ inl (ground (arith, p, q), ground (arith, p, q))
              | inl (table, q) ↦
                  let (txt, r, t) = load_table_ok disk path stamp table q in
                  inr (path, txt, table, e, r, t, ground (arith, p, q), ground (arith, p, q))
            ]
      ]

  -- Reloading keeps the table in force and the held choices, or installs the table that the file
  -- holds now, which parses, and drops the held choices.
  pub reload_relay_routes-Reloads :
      (disk : Disk) (s : Selector fl nets) → Reloads disk s (reload_relay_routes fl nets disk s)
  unfolding reload_relay_routes
  reload_relay_routes-Reloads disk s = reload_from-Reloads disk s.routes.path s refl

  reload_from_twice :
      (disk : Disk) (o : Option Text) (s : Selector fl nets)
      → reload_from fl nets disk o (reload_from fl nets disk o s) ≡ reload_from fl nets disk o s
  unfolding reload_from install_table
  reload_from_twice disk none s = refl
  reload_from_twice disk (some path) s = ground (arith, stamp_beq_refl (disk.stamp path))

  reload_from-path :
      (disk : Disk) (o : Option Text) (s : Selector fl nets)
      → (reload_from fl nets disk o s).routes.path ≡ s.routes.path
  unfolding reload_from install_table
  reload_from-path disk none s = refl
  reload_from-path disk (some path) s = ground arith

  -- While the file looks the same it is read once, whether it loaded or not: a second reload
  -- changes nothing.
  pub reload_relay_routes_twice :
      (disk : Disk) (s : Selector fl nets)
      → reload_relay_routes fl nets disk (reload_relay_routes fl nets disk s)
        ≡ reload_relay_routes fl nets disk s
  unfolding reload_relay_routes
  reload_relay_routes_twice disk s =
      rw (reload_from-path disk s.routes.path s) (reload_from_twice disk s.routes.path s)
