-- ===== src/Numbers.antt =====
-- The 64 bit floats of the relay costs and positions: the operations that the source uses, and
-- what IEEE arithmetic promises of costs, the numbers at least zero (NaN is none, infinity is).
use rustdesk_server.Prelude.{ℕ, ◌≡◌, Bool, true, false}
use rustdesk_server.Prelude.{Option}
use rustdesk_server.Prelude.Text.{Text}

pub record Float : Type 1 where
  pub F : Type 0
  -- A literal such as 1000.0.
  pub lit : ℕ → F
  pub neg : F → F
  pub add : F → F → F
  pub sub : F → F → F
  pub mul : F → F → F
  pub div : F → F → F
  pub least : F → F → F
  pub sqrt : F → F
  pub sin : F → F
  pub cos : F → F
  pub asin : F → F
  pub to_radians : F → F
  pub lt : F → F → Bool
  pub le : F → F → Bool
  pub is_finite : F → Bool
  -- `str::parse::<f64>`
  pub parse : Text → Option F
  pub lit_cost : (n : ℕ) → le (lit 0) (lit n) ≡ true
  pub add_cost : (a b : F) → le (lit 0) a ≡ true → le (lit 0) b ≡ true → le (lit 0) (add a b) ≡ true
  pub finite_cost : (a : F) → is_finite a ≡ true → lt a (lit 0) ≡ false → le (lit 0) a ≡ true
  pub lt_asym : (a b : F) → lt a b ≡ true → lt b a ≡ false
  pub lt_trans_false :
      (a b c : F)
      → le (lit 0) a ≡ true
      → le (lit 0) b ≡ true
      → le (lit 0) c ≡ true
      → lt a b ≡ false
      → lt b c ≡ false
      → lt a c ≡ false
  -- The sum of two costs, which starts from zero, does not depend on their order.
  pub sum_comm :
      (a b : F)
      → le (lit 0) a ≡ true
      → le (lit 0) b ≡ true
      → add (add (lit 0) a) b ≡ add (add (lit 0) b) a

-- The numbers at least zero.
abbrev pub IsCost : (fl : Float) → fl.F → Type 0
IsCost fl a = fl.le (fl.lit 0) a ≡ true
