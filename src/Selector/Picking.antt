-- ===== src/Selector/Picking.antt =====
-- What `pick` of src/relay_select.rs hands out, and what it leaves alone.
use native.Mathlib.Nat.{mod-lt}
use rustdesk_server.Prelude.{
  ℕ, zero, suc, ◌<◌, ◌%◌, ◌≡◌, refl, ◌≢◌, inl, inr, Bool, true, false, Option, none, some, List, [],
  ◌∷◌, map, arith, text_eq, beq_refl, list_beq_iff, find, length, contains, get_or, filter_map,
  Bool-cases, Option-cases, subst, sym,
}
use rustdesk_server.Prelude.Map.{Map}
use rustdesk_server.Prelude.Text.{Text}
use rustdesk_server.Net.{IpAddr}
use rustdesk_server.Numbers.{Float}
use rustdesk_server.Routes.{Networks, choose_from}
use rustdesk_server.Routes.Choosing.{choose_from-contains}
use rustdesk_server.Selector.{
  Pins, PinKey, pin_key, pinned_relay, preferred_live, Source, Selector, RelayPick, Reason,
  side_costs, choose, choose_and_pin, pick_unpinned, pick_among, pick,
}

find-contains :
    (p : Text → Bool) (xs : List Text) (x : Text) → find p xs ≡ some x → contains x xs ≡ true
find-contains p [] x e = cc
find-contains p (y ∷ ys) x e = elim (Bool-cases (p y)) [
  | inl h ↦ let e' : y ≡ x = ground (arith, h) in ground (arith, list_beq_iff x y)
  | inr h ↦ ground (arith, h, find-contains p ys x)
]

get_or-contains :
    (xs : List Text) (i : ℕ) (d : Text) → i < length xs → contains (get_or xs i d) xs ≡ true
get_or-contains [] i d h = elim h [ ]
get_or-contains (x ∷ xs) zero d h = ground (arith, beq_refl x)
get_or-contains (x ∷ xs) (suc i) d h = ground (arith, get_or-contains xs i d)

preferred_live-contains :
    (live : List Text) (want : Option Text) (relay : Text)
    → preferred_live live want ≡ some relay
    → contains relay live ≡ true
unfolding preferred_live
preferred_live-contains live none relay e = cc
preferred_live-contains live (some want) relay e = find-contains _ live relay e

pinned_relay-contains :
    (key : PinKey) (live : List Text) (now : ℕ) (pins : Pins) (relay : Text)
    → (pinned_relay key live now pins).0 ≡ some relay
    → contains relay live ≡ true
unfolding pinned_relay
pinned_relay-contains key live now pins relay e = ground arith

module _ (fl : Float) (nets : Networks) where
  open fl use {F}

  pub choose-contains :
      (commit : Bool) (pa pb : IpAddr) (s : Selector fl nets)
      → s.live ≢ []
      → contains (choose fl nets commit pa pb s).0.relay s.live ≡ true
  unfolding choose
  choose-contains commit pa pb s h =
      let known = filter_map (side_costs fl nets s) (pa ∷ pb ∷ []) in
      let sides = map (λ (k : Map Text F × Source). k.0) known in
      elim (Option-cases (choose_from fl s.live sides)) [
        | inl p ↦
            rw (p, choose)
              (get_or-contains s.live (s.rotation % length s.live) [] (rotation_inside s.live h))
        | inr (c, p) ↦ rw (p, choose) (choose_from-contains fl s.live sides c p)
      ]
    where
      rotation_inside : (live : List Text) → live ≢ [] → s.rotation % length live < length live
      rotation_inside [] k = absurd (k refl)
      rotation_inside (r ∷ rs) k = mod-lt s.rotation (omega arith)

  pub choose-live :
      (commit : Bool) (pa pb : IpAddr) (s : Selector fl nets)
      → (choose fl nets commit pa pb s).1.live ≡ s.live
  unfolding choose
  choose-live commit pa pb s = ground arith

  pick_unpinned-contains :
      (now : ℕ) (pa pb : IpAddr) (commit : Bool) (s : Selector fl nets)
      → s.live ≢ []
      → contains (pick_unpinned fl nets now pa pb commit s).0.relay s.live ≡ true
  unfolding pick_unpinned choose_and_pin
  pick_unpinned-contains now pa pb false s h = choose-contains false pa pb s h
  pick_unpinned-contains now pa pb true s h =
      let held = pinned_relay (pin_key pa pb) s.live now s.pins in
      elim (Option-cases held.0) [
        | inl p ↦ rw (p, pick_unpinned) (choose-contains true pa pb (record s { pins = held.1 }) h)
        | inr (relay, p) ↦
            rw (p, pick_unpinned) (pinned_relay-contains (pin_key pa pb) s.live now s.pins relay p)
      ]

  pick_among-contains :
      (live : List Text) (now : ℕ) (pa pb : IpAddr) (commit : Bool) (s : Selector fl nets)
      → s.live ≡ live
      → live ≢ []
      → contains (pick_among fl nets live now pa pb commit s).0.relay s.live ≡ true
  unfolding pick_among
  pick_among-contains [] now pa pb commit s e h = absurd (h refl)
  pick_among-contains (r ∷ []) now pa pb commit s e h = rw e (ground (arith, beq_refl r))
  pick_among-contains (r ∷ r' ∷ rs) now pa pb commit s e h =
      elim (Option-cases (preferred_live s.live s.preferred.relay)) [
        | inl p ↦ rw (p, pick_among) (pick_unpinned-contains now pa pb commit s (rw e h))
        | inr (relay, p) ↦
            rw (p, pick_among) (preferred_live-contains s.live s.preferred.relay relay p)
      ]

  -- While there is a healthy relay, the relay handed out is a healthy one: chosen, held or
  -- preferred, with or without commit.
  pub pick-contains :
      (now : ℕ) (pa pb : IpAddr) (commit : Bool) (s : Selector fl nets)
      → s.live ≢ []
      → contains (pick fl nets now pa pb commit s).0.relay s.live ≡ true
  unfolding pick
  pick-contains now pa pb commit s h = pick_among-contains s.live now pa pb commit s refl h

  pick_among_dry :
      (live : List Text) (now : ℕ) (pa pb : IpAddr) (s : Selector fl nets)
      → (pick_among fl nets live now pa pb false s).1 ≡ s
  unfolding pick_among pick_unpinned choose_and_pin choose
  pick_among_dry [] now pa pb s = refl
  pick_among_dry (r ∷ []) now pa pb s = refl
  pick_among_dry (r ∷ r' ∷ rs) now pa pb s = ground arith

  -- A dry run changes nothing: no held choice, and no turn of the rotation.
  pub pick_dry :
      (now : ℕ) (pa pb : IpAddr) (s : Selector fl nets) → (pick fl nets now pa pb false s).1 ≡ s
  unfolding pick
  pick_dry now pa pb s = pick_among_dry s.live now pa pb s

  abbrev preferred_pick : Text → RelayPick fl nets
  preferred_pick relay = record { relay = relay; reason = Reason.preferred; costs = [] }

  pick_among_preferred :
      (now : ℕ) (pa pb : IpAddr) (commit : Bool) (s : Selector fl nets)
      → (relay a b : Text) (rest : List Text) → preferred_live s.live s.preferred.relay ≡ some relay
      → (pick_among fl nets (a ∷ b ∷ rest) now pa pb commit s).0 ≡ preferred_pick relay
  unfolding pick_among
  pick_among_preferred now pa pb commit s relay a b rest e = rw (e, pick_among)

  -- With two or more healthy relays, a preferred relay that is healthy is handed to every session.
  pub pick_preferred :
      (now : ℕ) (pa pb : IpAddr) (commit : Bool) (s : Selector fl nets)
      → (relay a b : Text) (rest : List Text) → s.live ≡ a ∷ b ∷ rest
      → preferred_live s.live s.preferred.relay ≡ some relay
      → (pick fl nets now pa pb commit s).0
        ≡ record { relay = relay; reason = Reason.preferred; costs = [] }
  unfolding pick pick_among
  pick_preferred now pa pb commit s relay a b rest l e =
      subst (λ live. (pick_among fl nets live now pa pb commit s).0 ≡ preferred_pick relay) (sym l)
        (pick_among_preferred now pa pb commit s relay a b rest e)
