-- ===== src/Routes/Session.antt =====
-- `RouteTable::choose` of src/relay_routes.rs on a table that the parser returned.
use rustdesk_server.Prelude.{
  ◌≡◌, inl, inr, Bool, some, List, [], ◌∷◌, arith, All, Option-cases, text_eq, find, Bool-cases,
  subst,
}
use rustdesk_server.Prelude.Map.{Map}
use rustdesk_server.Prelude.Text.{Text}
use rustdesk_server.Net.{IpAddr, to_canonical}
use rustdesk_server.Prelude.Result.{ok}
use rustdesk_server.Numbers.{Float}
use rustdesk_server.Routes.{Networks, Rule, RouteTable, parse, lookup, costs_for, choose}
use rustdesk_server.Routes.Choosing.{Priced, choose_from_swap}
use rustdesk_server.Routes.Table.{IsMillis, IsValidRule, IsValidTable, parse-IsValidTable}

module _ (fl : Float) (nets : Networks) where
  open fl use {F}

  millis-Priced : (m : Map Text F) → All (IsMillis fl nets) m → Priced fl m
  millis-Priced [] a = tt
  millis-Priced (kv ∷ m) a = (fl.finite_cost kv.1 a.0.0 a.0.1, millis-Priced m a.1)

  find-IsValidRule :
      (p : Rule fl nets → Bool) (t : List (Rule fl nets)) (r : Rule fl nets)
      → All (IsValidRule fl nets) t
      → find p t ≡ some r
      → IsValidRule fl nets r
  find-IsValidRule p [] r a e = cc
  find-IsValidRule p (x ∷ t) r a e = elim (Bool-cases (p x)) [
    | inl h ↦ let e' : x ≡ r = ground (arith, h) in subst (IsValidRule fl nets) e' a.0
    | inr h ↦ find-IsValidRule p t r a.1 (ground (arith, h))
  ]

  pub costs_for-Priced :
      (t : RouteTable fl nets) (ip : IpAddr) (m : Map Text F)
      → IsValidTable fl nets t
      → costs_for fl nets t ip ≡ some m
      → Priced fl m
  unfolding costs_for lookup
  costs_for-Priced t ip m v e =
      elim (Option-cases (find (λ (r : Rule fl nets). nets.contains r.net (to_canonical ip)) t)) [
        | inl p ↦ ground (arith, p)
        | inr (r, p) ↦
            let e' : r.costs ≡ m = ground (arith, p) in
            subst (Priced fl) e' (millis-Priced r.costs (find-IsValidRule _ t r v.rules p).1)
      ]

  -- On a table that parses, the choice does not depend on which end of the session is the
  -- controller.
  pub choose_comm :
      (txt : Text) (t : RouteTable fl nets) (healthy : List Text) (a b : IpAddr)
      → parse fl nets txt ≡ ok t
      → choose fl nets t healthy a b ≡ choose fl nets t healthy b a
  unfolding choose
  choose_comm txt t healthy a b parsed =
      let v = parse-IsValidTable fl nets txt t parsed in
      elim (Option-cases (costs_for fl nets t a)) [
        | inl p ↦ ground (arith, p)
        | inr (x, p) ↦ elim (Option-cases (costs_for fl nets t b)) [
          | inl q ↦ ground (arith, p, q)
          | inr (y, q) ↦ ground (
            arith,
            p,
            q,
            choose_from_swap fl healthy x y (costs_for-Priced t a x v p)
                (costs_for-Priced t b y v q),
          )
        ]
      ]
