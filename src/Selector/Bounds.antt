-- ===== src/Selector/Bounds.antt =====
-- The number of choices that src/relay_select.rs holds.
use rustdesk_server.Prelude.{
  ℕ, zero, suc, ◌+◌, ◌≤◌, Bool, true, false, List, [], ◌∷◌, arith, length, text_eq,
}
use rustdesk_server.Prelude.Map.{length-insert-le, length-remove-le}
use rustdesk_server.Prelude.Text.{Text}
use rustdesk_server.Net.{IpAddr, pair_eq}
use rustdesk_server.Numbers.{Float}
use rustdesk_server.Routes.{Networks}
use rustdesk_server.Selector.{
  Pins, PinKey, pin_key, pinned_relay, pin_relay, make_room, max_relay_pins, Selector, choose,
  choose_and_pin, pick_unpinned, pick_among, pick,
}
use rustdesk_server.Selector.Holding.{choose-pins}

make_room_bound :
    (now : ℕ) (pins : Pins)
    → length pins ≤ max_relay_pins
    → length (make_room now pins) + 1 ≤ max_relay_pins
unfolding make_room
make_room_bound now pins h = ground arith

pin_relay_bound :
    (ttl : ℕ) (key : PinKey) (relay : Text) (now : ℕ) (pins : Pins)
    → length pins ≤ max_relay_pins
    → length (pin_relay ttl key relay now pins) ≤ max_relay_pins
unfolding pin_relay
pin_relay_bound zero key relay now pins h = h
pin_relay_bound (suc ttl) key relay now pins h = omega (
  arith,
  make_room_bound now pins h,
  length-insert-le key (record { relay = relay; until = now + suc ttl }) (make_room now pins),
)

pinned_relay_bound :
    (key : PinKey) (live : List Text) (now : ℕ) (pins : Pins)
    → length (pinned_relay key live now pins).1 ≤ length pins
unfolding pinned_relay
pinned_relay_bound key live now pins = ground (arith, length-remove-le key pins)

module _ (fl : Float) (nets : Networks) where
  abbrev pub IsBounded : Selector fl nets → Type 0
  IsBounded s = length s.pins ≤ max_relay_pins

  choose_and_pin-IsBounded :
      (now : ℕ) (pa pb : IpAddr) (commit : Bool) (s : Selector fl nets)
      → IsBounded s
      → IsBounded (choose_and_pin fl nets now pa pb commit s).1
  unfolding choose_and_pin
  choose_and_pin-IsBounded now pa pb commit s h =
      let c = choose-pins fl nets commit pa pb s in
      let s' = (choose fl nets commit pa pb s).1 in
      let relay = (choose fl nets commit pa pb s).0.relay in
      ground (arith, c, pin_relay_bound s'.pin_ttl_ms (pin_key pa pb) relay now s'.pins)

  pick_unpinned-IsBounded :
      (now : ℕ) (pa pb : IpAddr) (commit : Bool) (s : Selector fl nets)
      → IsBounded s
      → IsBounded (pick_unpinned fl nets now pa pb commit s).1
  unfolding pick_unpinned
  pick_unpinned-IsBounded now pa pb false s h = choose_and_pin-IsBounded now pa pb false s h
  pick_unpinned-IsBounded now pa pb true s h =
      let held = pinned_relay (pin_key pa pb) s.live now s.pins in
      let fewer : length held.1 ≤ max_relay_pins =
        omega (arith, pinned_relay_bound (pin_key pa pb) s.live now s.pins) in
      ground
        (arith, fewer, choose_and_pin-IsBounded now pa pb true (record s { pins = held.1 }) fewer)

  pick_among-IsBounded :
      (live : List Text) (now : ℕ) (pa pb : IpAddr) (commit : Bool) (s : Selector fl nets)
      → IsBounded s
      → IsBounded (pick_among fl nets live now pa pb commit s).1
  unfolding pick_among
  pick_among-IsBounded [] now pa pb commit s h = h
  pick_among-IsBounded (r ∷ []) now pa pb commit s h = h
  pick_among-IsBounded (r ∷ r' ∷ rs) now pa pb commit s h =
      ground (arith, pick_unpinned-IsBounded now pa pb commit s h)

  -- Where at most 4096 choices are held, placing a session, with or without commit, leaves at most
  -- 4096 held.
  pub pick-IsBounded :
      (now : ℕ) (pa pb : IpAddr) (commit : Bool) (s : Selector fl nets)
      → IsBounded s
      → IsBounded (pick fl nets now pa pb commit s).1
  unfolding pick
  pick-IsBounded now pa pb commit s h = pick_among-IsBounded s.live now pa pb commit s h
