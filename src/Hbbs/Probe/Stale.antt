-- ===== src/Hbbs/Probe/Stale.antt =====
-- A probe of src/rendezvous_server.rs that ends after the operator has changed the relay list.
use mathlib.Core.List.{Perm}
use rustdesk_server.Prelude.{
  ℕ, ◌≡◌, refl, ◌∙◌, Bool, true, false, some, List, [], ◌∷◌, ◌++◌, ltb, length, arith, filterb,
}
use rustdesk_server.Prelude.Text.{Text}
use rustdesk_server.Prelude.Result.{Result}
use rustdesk_server.Disk.{Disk}
use rustdesk_server.Numbers.{Float}
use rustdesk_server.Relay.Name.{parse_relay_list}
use rustdesk_server.Routes.{Networks}
use rustdesk_server.Geo.{GeoDb}
use rustdesk_server.Selector.{Selector, LoadError, set_live}
use rustdesk_server.Selector.Files.{reload, reload_relay_routes, reload_relay_geo}
use rustdesk_server.Hbbs.Probe.{
  probe_host, answering, check_relay_servers, Relays, parse_relay_servers, tick, probed,
}
use rustdesk_server.Hbbs.Probe.Sorting.{if_any, check_relay_servers_order}

module _ (fl : Float) (nets : Networks) where
  -- What may happen later: the timer runs, and a probe that is under way ends, with the relays that
  -- answer it in any order. A disk is what the timer finds; the files are opened as `open_db` says.
  pub data Later (open_db : Text → Result LoadError (GeoDb fl)) (r : Relays fl nets)
      : Relays fl nets → Type 0 where
    now : Later open_db r r
    timer :
        {r1 : Relays fl nets}
        → Later open_db r r1
        → (disk : Disk) → Later open_db r (tick fl nets open_db disk r1)
    ends :
        {r1 : Relays fl nets}
        → Later open_db r r1
        → (before : List (List Text)) (list : List Text) (after : List (List Text))
        → r1.probing ≡ before ++ list ∷ after
        → (answers : Text → Bool) (ended : List (ℕ × Text)) → Perm ended (answering answers 0 list)
        → Later open_db r (probed fl nets (before ++ after) ended r1)

  reload_routes-live :
      (disk : Disk) (s : Selector fl nets) → (reload_relay_routes fl nets disk s).live ≡ s.live
  unfolding reload_relay_routes
  reload_routes-live disk s = ground arith

  reload-live :
      (open_db : Text → Result LoadError (GeoDb fl)) (disk : Disk) (s : Selector fl nets)
      → (reload fl nets open_db disk s).live ≡ s.live
  unfolding reload reload_relay_geo
  reload-live open_db disk s = ground (arith, reload_routes-live disk s)

  -- No probe is under way, and none will be started.
  IsSettled : List Text → Relays fl nets → Type 0
  IsSettled live r =
      (r.probing ≡ []) × (ltb 1 (length r.relay_servers0) ≡ false) × (r.servers.live ≡ live)

  Later-IsSettled :
      {open_db : Text → Result LoadError (GeoDb fl)} {r r' : Relays fl nets} (live : List Text)
      → IsSettled live r
      → Later open_db r r'
      → IsSettled live r'
  unfolding IsSettled tick
  Later-IsSettled live s now = s
  Later-IsSettled {open_db} live s (timer {r1} l disk) =
      let (none_left, few, same) = Later-IsSettled live s l in
      (rw few none_left, few, reload-live open_db disk r1.servers ∙ same)
  Later-IsSettled live s (ends l [] list after e answers ended p) =
      let (none_left, few, same) = Later-IsSettled live s l in ground (arith, none_left, e)
  Later-IsSettled live s (ends l (b ∷ before) list after e answers ended p) =
      let (none_left, few, same) = Later-IsSettled live s l in ground (arith, none_left, e)

  probed-some :
      (left : List (List Text)) (ended : List (ℕ × Text)) (rs : List Text) (r : Relays fl nets)
      → check_relay_servers ended ≡ some rs
      → probed fl nets left ended r
        ≡ record r { probing = left; servers = set_live fl nets rs r.servers }
  unfolding probed
  probed-some left ended rs r h = rw (probed, h) refl

  -- No probe is under way. The timer starts a probe of a list of several relays; then the operator
  -- sets a list of one relay. When the probe ends, and relays of the old list answer, those are the
  -- healthy relays; and they stay so whatever the timer and the probes do later, since no probe of the
  -- new list is ever started.
  pub stale_probe :
      (open_db : Text → Result LoadError (GeoDb fl)) (disk : Disk) (arg only : Text)
      (answers : Text → Bool) (ended : List (ℕ × Text)) (x : Text) (xs : List Text)
      (r r' : Relays fl nets)
      → r.probing ≡ []
      → ltb 1 (length r.relay_servers0) ≡ true
      → (parse_relay_list arg).0 ≡ only ∷ []
      → Perm ended (answering answers 0 r.relay_servers0)
      → filterb (λ y. answers (probe_host y)) r.relay_servers0 ≡ x ∷ xs
      → let r1 = parse_relay_servers fl nets arg (tick fl nets open_db disk r) in
        Later open_db (probed fl nets [] ended r1) r'
        → (r1.probing ≡ r.relay_servers0 ∷ []) × (r'.servers.live ≡ x ∷ xs)
  unfolding parse_relay_servers if_any tick set_live IsSettled
  stale_probe open_db disk arg only answers ended x xs r r' idle many one p f l =
      let r1 = parse_relay_servers fl nets arg (tick fl nets open_db disk r) in
      let sent : check_relay_servers ended ≡ some (x ∷ xs) =
        check_relay_servers_order answers r.relay_servers0 ended p ∙ rw f refl in
      let e = probed-some [] ended (x ∷ xs) r1 sent in
      let s : IsSettled (x ∷ xs) (probed fl nets [] ended r1) = rw e (refl, rw one refl, refl) in
      (rw (many, idle) refl, (Later-IsSettled (x ∷ xs) s l).2)
