-- ===== src/Routes/Choosing.antt =====
-- The choice of src/relay_routes.rs: the cheapest healthy relay, the earliest of equals, and the
-- same answer from either end of the session.
use rustdesk_server.Prelude.{
  ℕ, zero, suc, ◌<◌, ◌≡◌, refl, ap, inl, inr, ◌≢◌, true, false, some, List, [], ◌∷◌, map, arith,
  Bool-cases, Option-cases, get_elem?, subst,
}
use rustdesk_server.Prelude.Map.{Map}
use rustdesk_server.Prelude.Map
use rustdesk_server.Prelude.Text.{Text}
use rustdesk_server.Numbers.{Float, IsCost}
use rustdesk_server.Relay.Name.{normalize}
use rustdesk_server.Prelude.{contains, list_beq_iff, All, ◌==◌, text_eq}
use mathlib.Core.Path.{fun_ext}
use rustdesk_server.Routes.{
  Choice, total_cost, sum_costs, cost_or_unlisted, best_from, choice_at, choose_from,
}
use rustdesk_server.Routes.BestSoFar.{AllCosts, first_entry, get_elem?_lt}

module _ (fl : Float) where
  open fl use {F, lt}

  -- `c` names a least entry of its list of totals, and the first of the least ones.
  pub record IsFirstLeast (c : Choice fl) : Type 0 where
    pub index : ℕ
    pub chosen : get_elem? c.costs index ≡ some (c.relay, c.cost_ms)
    pub least :
        (j : ℕ) (y : Text × F)
        → get_elem? c.costs j ≡ some y
        → (lt y.1 c.cost_ms ≡ false) × (j < index → lt c.cost_ms y.1 ≡ true)

  abbrev pub Priced : Map Text F → Type 0
  Priced = All (λ kv. IsCost fl kv.1)

  get-IsCost : (k : Text) (side : Map Text F) → Priced side → IsCost fl (cost_or_unlisted fl k side)
  unfolding cost_or_unlisted Map.get
  get-IsCost k [] p = fl.lit_cost 1000
  get-IsCost k ((j, v) ∷ side) p = elim (Bool-cases (j == k)) [
    | inl e ↦ rw e p.0
    | inr e ↦ rw e (get-IsCost k side p.1)
  ]

  sum_costs-IsCost :
      (key : Text) (acc : F) (sides : List (Map Text F))
      → IsCost fl acc
      → All Priced sides
      → IsCost fl (sum_costs fl key acc sides)
  unfolding sum_costs
  sum_costs-IsCost key acc [] h p = h
  sum_costs-IsCost key acc (s ∷ sides) h p =
      sum_costs-IsCost key (fl.add acc (cost_or_unlisted fl key s)) sides
        (fl.add_cost acc (cost_or_unlisted fl key s) h (get-IsCost key s p.0)) p.1

  totals-AllCosts :
      (sides : List (Map Text F)) (healthy : List Text)
      → All Priced sides
      → AllCosts fl (map (total_cost fl sides) healthy)
  unfolding total_cost
  totals-AllCosts sides [] p j y e = cc
  totals-AllCosts sides (r ∷ rs) p zero y e =
      let e' : total_cost fl sides r ≡ y = ground (arith, e) in
      subst (λ (x : Text × F). IsCost fl x.1) e'
        (sum_costs-IsCost (normalize r) (fl.lit 0) sides (fl.lit_cost 0) p)
  totals-AllCosts sides (r ∷ rs) p (suc j) y e = totals-AllCosts sides rs p j y e

  -- With a healthy relay and a known end whose prices are costs there is a choice. It lists every
  -- healthy relay, in the given order, with the sum of its costs, and names the first of those
  -- whose sum is least.
  pub choose_from_cheapest :
      (healthy : List Text) (sides : List (Map Text F))
      → healthy ≢ []
      → sides ≢ []
      → All Priced sides
      → (c : Choice fl) × (choose_from fl healthy sides ≡ some c)
        × (c.costs ≡ map (total_cost fl sides) healthy)
        × IsFirstLeast c
  unfolding choose_from choice_at
  choose_from_cheapest [] sides h k p = absurd (h refl)
  choose_from_cheapest (r ∷ rs) [] h k p = absurd (k refl)
  choose_from_cheapest (r ∷ rs) (s ∷ ss) h k p =
      let costs = map (total_cost fl (s ∷ ss)) (r ∷ rs) in
      let (m, b) =
        first_entry fl (total_cost fl (s ∷ ss) r) (map (total_cost fl (s ∷ ss)) rs)
          (totals-AllCosts (s ∷ ss) (r ∷ rs) p) in
      (
        record { relay = m.0; cost_ms = m.1; costs = costs },
        rw (b.at_best, choice_at),
        refl,
        record {
          index = best_from fl costs 0 costs 0;
          chosen = b.at_best;
          least = λ j y e. b.least j y (get_elem?_lt fl costs j y e) e;
        },
      )

  total_cost_comm :
      (x y : Map Text F) (relay : Text)
      → Priced x
      → Priced y
      → total_cost fl (x ∷ y ∷ []) relay ≡ total_cost fl (y ∷ x ∷ []) relay
  unfolding total_cost sum_costs
  total_cost_comm x y relay p q =
      ap (λ c. (relay, c)) (fl.sum_comm _ _ (get-IsCost _ x p) (get-IsCost _ y q))

  pub choose_from_swap :
      (healthy : List Text) (x y : Map Text F)
      → Priced x
      → Priced y
      → choose_from fl healthy (x ∷ y ∷ []) ≡ choose_from fl healthy (y ∷ x ∷ [])
  unfolding choose_from
  choose_from_swap healthy x y p q =
      let e : total_cost fl (x ∷ y ∷ []) ≡ total_cost fl (y ∷ x ∷ []) =
        fun_ext (λ r. total_cost_comm x y r p q) in
      rw e refl

  entry-contains :
      (sides : List (Map Text F)) (healthy : List Text) (j : ℕ) (m : Text × F)
      → get_elem? (map (total_cost fl sides) healthy) j ≡ some m
      → contains m.0 healthy ≡ true
  unfolding total_cost
  entry-contains sides [] j m e = cc
  entry-contains sides (r ∷ rs) zero m e =
      let e' : r ≡ m.0 = ground (arith, e) in ground (arith, list_beq_iff m.0 r)
  entry-contains sides (r ∷ rs) (suc j) m e = ground (arith, entry-contains sides rs j m e)

  -- A choice names a healthy relay.
  pub choose_from-contains :
      (healthy : List Text) (sides : List (Map Text F)) (c : Choice fl)
      → choose_from fl healthy sides ≡ some c
      → contains c.relay healthy ≡ true
  unfolding choose_from choice_at
  choose_from-contains healthy sides c e =
      let costs = map (total_cost fl sides) healthy in
      elim (Option-cases (get_elem? costs (best_from fl costs 0 costs 0))) [
        | inl p ↦ ground (arith, p)
        | inr (m, p) ↦
            let e' : m.0 ≡ c.relay = ground (arith, p) in
            subst (λ r. contains r healthy ≡ true) e' (entry-contains sides healthy _ m p)
      ]
