-- ===== src/Selector/Holding.antt =====
-- The held choices of src/relay_select.rs: how many there are, and how long they answer for a
-- session, from either end.
use rustdesk_server.Prelude.{
  ℕ, zero, suc, ◌+◌, ◌≤◌, ◌<◌, ◌≡◌, refl, sym, ◌≢◌, inl, inr, Bool, true, false, Option, none, some,
  List, [], ◌∷◌, arith, beq_refl, contains, Option-cases, subst, ap, text_eq, ◌∙◌,
}
use rustdesk_server.Prelude.Map
use rustdesk_server.Prelude.Map.{Map, get-insert, length-insert-le, length-remove-le}
use rustdesk_server.Prelude.Text.{Text}
use rustdesk_server.Net.{IpAddr, ip_le_antisym, ip_le_total, to_canonical, pair_eq}
use rustdesk_server.Numbers.{Float}
use rustdesk_server.Routes.{Networks}
use rustdesk_server.Selector.{
  Pins, PinKey, RelayPin, Reason, pin_key, pinned_relay, pin_relay, make_room, preferred_live,
  Selector, RelayPick, side_costs, choose, choose_and_pin, pick_unpinned, pick_among, pick,
}
use rustdesk_server.Selector.Picking.{choose-live, choose-contains}

pub pin_key_comm : (a b : IpAddr) → pin_key a b ≡ pin_key b a
unfolding pin_key
pin_key_comm a b = ground (
  arith,
  ip_le_antisym (to_canonical a) (to_canonical b),
  ip_le_total (to_canonical a) (to_canonical b),
  ip_le_total (to_canonical b) (to_canonical a),
)

module _ (fl : Float) (nets : Networks) where
  pub choose-pins :
      (commit : Bool) (pa pb : IpAddr) (s : Selector fl nets)
      → ((choose fl nets commit pa pb s).1.pins ≡ s.pins)
        × ((choose fl nets commit pa pb s).1.pin_ttl_ms ≡ s.pin_ttl_ms)
        × ((choose fl nets commit pa pb s).1.preferred ≡ s.preferred)
  unfolding choose
  choose-pins commit pa pb s = ground arith

  pinned_relay-pin_relay :
      (ttl : ℕ) (key : PinKey) (live : List Text) (relay : Text) (now later : ℕ) (pins : Pins)
      → now ≤ later
      → later < now + ttl
      → contains relay live ≡ true
      → (pinned_relay key live later (pin_relay ttl key relay now pins)).0 ≡ some relay
  unfolding pin_relay pinned_relay
  pinned_relay-pin_relay zero key live relay now later pins h k c = absurd (omega arith)
  pinned_relay-pin_relay (suc ttl) key live relay now later pins h k c =
      let pin : RelayPin = record { relay = relay; until = now + suc ttl } in
      let e : Map.get key (Map.insert key pin (make_room now pins)) ≡ some pin =
        ground (arith, get-insert key key pin (make_room now pins), beq_refl key) in
      ground (arith, e)

  pick_unpinned_held :
      (now : ℕ) (pa pb : IpAddr) (s : Selector fl nets) (relay : Text)
      → (pinned_relay (pin_key pa pb) s.live now s.pins).0 ≡ some relay
      → (pick_unpinned fl nets now pa pb true s).0.relay ≡ relay
  unfolding pick_unpinned
  pick_unpinned_held now pa pb s relay e = ground (arith, e)

  choose_and_pin_again :
      (now later : ℕ) (pa pb qa qb : IpAddr) (s : Selector fl nets)
      → pin_key pa pb ≡ pin_key qa qb
      → s.live ≢ []
      → now ≤ later
      → later < now + s.pin_ttl_ms
      → let r = choose_and_pin fl nets now pa pb true s in
        ((pick_unpinned fl nets later qa qb true r.1).0.relay ≡ r.0.relay)
        × (r.1.live ≡ s.live)
        × (r.1.preferred ≡ s.preferred)
  unfolding choose_and_pin
  choose_and_pin_again now later pa pb qa qb s same_pair h k l =
      let c = choose fl nets true pa pb s in
      let same = choose-pins true pa pb s in
      let live = choose-live fl nets true pa pb s in
      let ttl : c.1.pin_ttl_ms ≡ s.pin_ttl_ms = same.1 in
      let healthy : contains c.0.relay c.1.live ≡ true =
        rw live (choose-contains fl nets true pa pb s h) in
      let s2 : Selector fl nets = record c.1 {
        pins = pin_relay c.1.pin_ttl_ms (pin_key pa pb) c.0.relay now c.1.pins;
      } in
      let held : (pinned_relay (pin_key qa qb) c.1.live later
            (pin_relay c.1.pin_ttl_ms (pin_key pa pb) c.0.relay now c.1.pins)).0
          ≡ some c.0.relay =
        subst
          (λ key.
            (pinned_relay key c.1.live later
              (pin_relay c.1.pin_ttl_ms (pin_key pa pb) c.0.relay now c.1.pins)).0
            ≡ some c.0.relay)
          same_pair
          (pinned_relay-pin_relay c.1.pin_ttl_ms (pin_key pa pb) c.1.live c.0.relay now later
            c.1.pins k (omega arith) healthy) in
      (pick_unpinned_held later qa qb s2 c.0.relay held, live, same.2)

  -- Without a preferred relay that answers, and with no choice held, a relay is chosen anew.
  pick_among-none :
      (r r' : Text) (rs : List Text) (now : ℕ) (pa pb : IpAddr) (s : Selector fl nets)
      → preferred_live s.live s.preferred.relay ≡ none
      → pick_among fl nets (r ∷ r' ∷ rs) now pa pb true s ≡ pick_unpinned fl nets now pa pb true s
  unfolding pick_among
  pick_among-none r r' rs now pa pb s p = rw (p, pick_among)

  pick_unpinned-none :
      (now : ℕ) (pa pb : IpAddr) (s : Selector fl nets)
      → (pinned_relay (pin_key pa pb) s.live now s.pins).0 ≡ none
      → pick_unpinned fl nets now pa pb true s
        ≡ choose_and_pin fl nets now pa pb true
            (record s { pins = (pinned_relay (pin_key pa pb) s.live now s.pins).1 })
  unfolding pick_unpinned
  pick_unpinned-none now pa pb s q = rw (q, pick_unpinned)

  pick_unpinned_reason :
      (now : ℕ) (pa pb : IpAddr) (s : Selector fl nets) (relay : Text)
      → (pinned_relay (pin_key pa pb) s.live now s.pins).0 ≡ some relay
      → (pick_unpinned fl nets now pa pb true s).0.reason ≡ Reason.pinned
  unfolding pick_unpinned
  pick_unpinned_reason now pa pb s relay q = rw (q, pick_unpinned)

  pick_among_again :
      (live : List Text) (now later : ℕ) (pa pb qa qb : IpAddr) (s : Selector fl nets)
      → pin_key pa pb ≡ pin_key qa qb
      → s.live ≡ live
      → now ≤ later
      → later < now + s.pin_ttl_ms
      → (pick_among fl nets live now pa pb true s).0.reason ≢ Reason.pinned
      → let r = pick_among fl nets live now pa pb true s in
        ((pick_among fl nets live later qa qb true r.1).0.relay ≡ r.0.relay) × (r.1.live ≡ s.live)
  unfolding pick_among
  pick_among_again [] now later pa pb qa qb s same_pair e h k n = (refl, refl)
  pick_among_again (r ∷ []) now later pa pb qa qb s same_pair e h k n = (refl, refl)
  pick_among_again (r ∷ r' ∷ rs) now later pa pb qa qb s same_pair e h k n =
      elim (Option-cases (preferred_live s.live s.preferred.relay)) [
        | inr (relay, p) ↦ ground (arith, p)
        | inl p ↦ fresh p
      ]
    where
      held : Option Text × Pins
      held = pinned_relay (pin_key pa pb) s.live now s.pins

      fresh :
          preferred_live s.live s.preferred.relay ≡ none
          → let q = pick_among fl nets (r ∷ r' ∷ rs) now pa pb true s in
            ((pick_among fl nets (r ∷ r' ∷ rs) later qa qb true q.1).0.relay ≡ q.0.relay)
            × (q.1.live ≡ s.live)
      fresh p = elim (Option-cases held.0) [
        | inr (relay, q) ↦ absurd (
            n (
              ap (λ (x : RelayPick fl nets × Selector fl nets). x.0.reason)
                (pick_among-none r r' rs now pa pb s p)
              ∙ pick_unpinned_reason now pa pb s relay q))
        | inl q ↦
            let s' = record s { pins = held.1 } in
            let a = choose_and_pin_again now later pa pb qa qb s' same_pair (rw e (λ x. cc)) h k in
            let t = (choose_and_pin fl nets now pa pb true s').1 in
            let p' : preferred_live t.live t.preferred.relay ≡ none = rw (a.1, a.2) p in
            rw (pick_among-none r r' rs now pa pb s p, pick_unpinned-none now pa pb s q)
              (rw (pick_among-none r r' rs later qa qb t p') (a.0, a.1))
      ]

  -- A choice made now, rather than found held, is given again when the next pick is for the same two
  -- ends, in the same order or the other one, before the hold of choices is over and with nothing else
  -- done to the selector in between.
  pub pick_again :
      (now later : ℕ) (pa pb : IpAddr) (s : Selector fl nets)
      → now ≤ later
      → later < now + s.pin_ttl_ms
      → (pick fl nets now pa pb true s).0.reason ≢ Reason.pinned
      → let r = pick fl nets now pa pb true s in
        ((pick fl nets later pa pb true r.1).0.relay ≡ r.0.relay)
        × ((pick fl nets later pb pa true r.1).0.relay ≡ r.0.relay)
  unfolding pick
  pick_again now later pa pb s h k n =
      let a = pick_among_again s.live now later pa pb pa pb s refl refl h k n in
      let b = pick_among_again s.live now later pa pb pb pa s (pin_key_comm pa pb) refl h k n in
      rw a.1 (a.0, b.0)

  side_costs_pins :
      (s : Selector fl nets) (pins : Pins) (ip : IpAddr)
      → side_costs fl nets (record s { pins = pins }) ip ≡ side_costs fl nets s ip
  unfolding side_costs
  side_costs_pins s pins ip = refl

  choose_dry :
      (pa pb : IpAddr) (s : Selector fl nets) (pins : Pins)
      → (choose fl nets false pa pb s).0 ≡ (choose fl nets true pa pb (record s { pins = pins })).0
  unfolding choose
  choose_dry pa pb s pins = ground (arith, side_costs_pins s pins pa, side_costs_pins s pins pb)

  choose_and_pin_decision :
      (now : ℕ) (pa pb : IpAddr) (commit : Bool) (s : Selector fl nets)
      → (choose_and_pin fl nets now pa pb commit s).0 ≡ (choose fl nets commit pa pb s).0
  unfolding choose_and_pin
  choose_and_pin_decision now pa pb false s = refl
  choose_and_pin_decision now pa pb true s = refl

  pick_unpinned_dry :
      (now : ℕ) (pa pb : IpAddr) (s : Selector fl nets)
      → (pinned_relay (pin_key pa pb) s.live now s.pins).0 ≡ none
      → (pick_unpinned fl nets now pa pb false s).0 ≡ (pick_unpinned fl nets now pa pb true s).0
  unfolding pick_unpinned
  pick_unpinned_dry now pa pb s q =
      let pins = (pinned_relay (pin_key pa pb) s.live now s.pins).1 in
      choose_and_pin_decision now pa pb false s
      ∙ choose_dry pa pb s pins
      ∙ sym (choose_and_pin_decision now pa pb true (record s { pins = pins }))
      ∙ sym (
          ap (λ (x : RelayPick fl nets × Selector fl nets). x.0) (pick_unpinned-none now pa pb s q))

  pick_among_dry :
      (live : List Text) (now : ℕ) (pa pb : IpAddr) (s : Selector fl nets)
      → (pinned_relay (pin_key pa pb) s.live now s.pins).0 ≡ none
      → (pick_among fl nets live now pa pb false s).0 ≡ (pick_among fl nets live now pa pb true s).0
  unfolding pick_among
  pick_among_dry [] now pa pb s e = refl
  pick_among_dry (r ∷ []) now pa pb s e = refl
  pick_among_dry (r ∷ r' ∷ rs) now pa pb s e = ground (arith, pick_unpinned_dry now pa pb s e)

  -- For a session with no held choice that still serves, the dry run reports the very decision that a committed one
  -- makes: relay, reason and costs.
  pub pick_dry-pick :
      (now : ℕ) (pa pb : IpAddr) (s : Selector fl nets)
      → (pinned_relay (pin_key pa pb) s.live now s.pins).0 ≡ none
      → (pick fl nets now pa pb false s).0 ≡ (pick fl nets now pa pb true s).0
  unfolding pick
  pick_dry-pick now pa pb s e = pick_among_dry s.live now pa pb s e
