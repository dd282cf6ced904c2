-- ===== src/Hbbr/Session/Accounting.antt =====
-- What a session of `relay` of src/relay_server.rs keeps account of from one turn to the next.
use rustdesk_server.Prelude.{
  ℕ, ◌/◌, ◌≤◌, ◌≡◌, refl, inl, inr, Bool, true, ◌||◌, Option, none, some, arith, ltb, if◌then◌else◌,
  Bool-cases, Option-cases, is_empty_list, subst,
}
use rustdesk_server.Clock.{elapsed_ms, elapsed_secs}
use rustdesk_server.Hbbr.Pairing.{Usage}
use rustdesk_server.Hbbr.Session.{
  Meter, Limits, Input, received, gone, tick, count, account, End, ends, goes_on, settle, turn,
}

-- A row of USAGE fits the meter.
unfoldable pub UsageFits : Meter → Option Usage → Type 0
UsageFits m none = Unit
UsageFits m (some u) =
    (u.speed ≤ u.highest)
    × (u.highest ≡ m.highest_s)
    × (u.elapsed ≡ m.elapsed)
    × (u.total ≡ m.total)

-- From one meter to the next: the highest speed does not fall and a downgrade stays.
pub record Follows (m m' : Meter) (usage : Option Usage) : Type 0 where
  pub highest : m.highest_s ≤ m'.highest_s
  pub downgrade : m.downgrade ≡ true → m'.downgrade ≡ true
  pub row : UsageFits m' usage

abbrev highest_with : ℕ → Meter → ℕ
highest_with speed m = if ltb m.highest_s speed then speed else m.highest_s

abbrev row_with : ℕ → Meter → Usage
row_with speed m = record {
  elapsed = m.elapsed;
  total = m.total;
  highest = m.highest_s;
  speed = speed;
}

account-Follows :
    (now : ℕ) (limits : Limits) (blocked blacked : Bool) (m m' : Meter) (usage : Option Usage)
    → account now limits blocked blacked m ≡ some (m', usage)
    → Follows m m' usage
unfolding account UsageFits
account-Follows now limits blocked blacked m m' usage h =
    elim (Bool-cases (ltb (elapsed_ms now m.tm) 1000)) [
      | inl e ↦
          let p : (m ≡ m') × (none ≡ usage) = ground (arith, e, h) in
          subst (λ u. Follows m m' u) p.1
            (record { highest = ground (arith, p.0); downgrade = ground (arith, p.0); row = tt })
      | inr e ↦ elim (Bool-cases blocked) [
        | inl b ↦ ground (arith, e, b, h)
        | inr b ↦
            let n = elapsed_ms now m.tm in
            let p : (highest_with (m.total_s / n) m ≡ m'.highest_s)
                × ((m.downgrade ≡ true) → (m'.downgrade ≡ true))
                × (some (row_with (m.total_s / n) m') ≡ usage)
                × (m.total ≡ m'.total) =
              ground (arith, e, b, h) in
            subst (λ u. Follows m m' u) p.2
              (record {
                highest = ground (arith, p.0);
                downgrade = p.1;
                row = (ground (arith, p.0), refl, refl, refl);
              })
      ]
    ]

-- From one turn of a session to the next the highest speed does not fall and a downgrade stays, and
-- the row of usage that a turn writes has a speed of at most its highest speed, which is the
-- session's, like its total and its time.
pub turn-Follows :
    (now : ℕ) (limits : Limits) (blocked blacked : Bool) (i : Input) (m m' : Meter)
    → (usage : Option Usage) → (turn now limits blocked blacked i m).1 ≡ goes_on m' usage
    → Follows m m' usage
unfolding turn settle count
turn-Follows now limits blocked blacked (received from bytes sent) m m' usage h =
    let m1 = count now bytes m in
    elim (Bool-cases (is_empty_list bytes || sent)) [
      | inr e ↦ ground (arith, e, h)
      | inl e ↦ elim (Option-cases (account now limits blocked blacked m1)) [
        | inl a ↦ ground (arith, e, a, h)
        | inr ((m2, u), a) ↦
            let f = account-Follows now limits blocked blacked m1 m2 u a in
            let p : (m2 ≡ m') × (u ≡ usage) = ground (arith, e, a, h) in
            let g : Follows m m2 u = record {
              highest = f.highest;
              downgrade = f.downgrade;
              row = f.row;
            } in
            subst (λ x. Follows m x usage) p.0 (subst (λ x. Follows m m2 x) p.1 g)
      ]
    ]
turn-Follows now limits blocked blacked (gone from) m m' usage h = ground (arith, h)
turn-Follows now limits blocked blacked tick m m' usage h =
    elim (Bool-cases (ltb 30 (elapsed_secs now m.last_recv_time))) [
      | inl e ↦ ground (arith, e, h)
      | inr e ↦ elim (Option-cases (account now limits blocked blacked m)) [
        | inl a ↦ ground (arith, e, a, h)
        | inr ((m2, u), a) ↦
            account-Follows now limits blocked blacked m m' usage (ground (arith, e, a, h))
      ]
    ]

-- Whatever a turn brings, a session of a blocked address ends with it once a second has passed since
-- the last account.
pub turn_blocked :
    (now : ℕ) (limits : Limits) (blacked : Bool) (i : Input) (m : Meter)
    → 1000 ≤ elapsed_ms now m.tm
    → (e : End) × ((turn now limits true blacked i m).1 ≡ ends e)
unfolding turn settle account count
turn_blocked now limits blacked (received from bytes sent) m h =
    elim (Bool-cases (is_empty_list bytes || sent)) [
      | inl e ↦ (End.blocked, ground (arith, e, h))
      | inr e ↦ (End.send_failed, ground (arith, e, h))
    ]
turn_blocked now limits blacked (gone from) m h = (_, refl)
turn_blocked now limits blacked tick m h =
    elim (Bool-cases (ltb 30 (elapsed_secs now m.last_recv_time))) [
      | inl e ↦ (End.timeout, ground (arith, e, h))
      | inr e ↦ (End.blocked, ground (arith, e, h))
    ]
