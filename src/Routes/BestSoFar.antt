-- ===== src/Routes/BestSoFar.antt =====
-- The loop of `choose_from` in src/relay_routes.rs over the totals, and what it has found so far.
use rustdesk_server.Prelude.{
  ℕ, zero, suc, ◌+◌, ◌≤◌, ◌<◌, ◌≡◌, refl, inl, inr, true, false, some, List, [], ◌∷◌, arith,
  Bool-cases, get_elem?, length, subst,
}
use rustdesk_server.Prelude.Text.{Text}
use rustdesk_server.Numbers.{Float, IsCost}
use rustdesk_server.Prelude.{text_eq}
use rustdesk_server.Routes.{beats, best_from}

module _ (fl : Float) where
  open fl use {F, lt}

  lt_irrefl : (a : F) → lt a a ≡ false
  lt_irrefl a = ground (arith, fl.lt_asym a a)

  -- Among the first `i` entries, `m` at `best` is a least one and the first such.
  pub record IsBestUpTo (costs : List (Text × F)) (i best : ℕ) (m : Text × F) : Type 0 where
    pub at_best : get_elem? costs best ≡ some m
    pub inside : best ≤ i
    pub least :
        (j : ℕ) (y : Text × F)
        → j < i
        → get_elem? costs j ≡ some y
        → (lt y.1 m.1 ≡ false) × (j < best → lt m.1 y.1 ≡ true)

  -- A later entry that beats the best so far is below every earlier entry.
  below_all :
      (c m y : F)
      → IsCost fl c
      → IsCost fl m
      → IsCost fl y
      → lt c m ≡ true
      → lt y m ≡ false
      → (lt y c ≡ false) × (lt c y ≡ true)
  below_all c m y pc pm py h k = elim (Bool-cases (lt c y)) [
    | inl e ↦ (fl.lt_asym c y e, e)
    | inr e ↦ ground (arith, fl.lt_trans_false c y m)
  ]

  -- Every entry of the list is a cost.
  abbrev pub AllCosts : List (Text × F) → Type 0
  AllCosts costs = (j : ℕ) (y : Text × F) → get_elem? costs j ≡ some y → IsCost fl y.1

  take_step :
      (costs : List (Text × F)) (i best : ℕ) (m x : Text × F)
      → AllCosts costs
      → get_elem? costs i ≡ some x
      → lt x.1 m.1 ≡ true
      → IsBestUpTo costs i best m
      → IsBestUpTo costs (i + 1) i x
  take_step costs i best m x a e h b = record {
    at_best = e;
    inside = omega arith;
    least = λ j y p q. ground (
      arith,
      b.least j y,
      below_all x.1 m.1 y.1 (a i x e) (a best m b.at_best) (a j y q),
      lt_irrefl x.1,
    );
  }

  keep_step :
      (costs : List (Text × F)) (i best : ℕ) (m x : Text × F)
      → get_elem? costs i ≡ some x
      → lt x.1 m.1 ≡ false
      → IsBestUpTo costs i best m
      → IsBestUpTo costs (i + 1) best m
  keep_step costs i best m x e h b = record {
    at_best = b.at_best;
    inside = omega (arith, b.inside);
    least = λ j y p q. ground (arith, b.least j y, b.inside);
  }

  beats_lem :
      (costs : List (Text × F)) (c : F) (best : ℕ) (m : Text × F)
      → get_elem? costs best ≡ some m
      → beats fl costs c best ≡ lt c m.1
  unfolding beats
  beats_lem costs c best m e = ground arith

  best_from-IsBestUpTo :
      (costs : List (Text × F)) (i : ℕ) (rest : List (Text × F)) (best : ℕ) (m : Text × F)
      → AllCosts costs
      → ((k : ℕ) → get_elem? costs (i + k) ≡ get_elem? rest k)
      → IsBestUpTo costs i best m
      → (m' : Text × F) × IsBestUpTo costs (i + length rest) (best_from fl costs i rest best) m'
  unfolding best_from
  best_from-IsBestUpTo costs i [] best m a h b = let e : i + 0 ≡ i = omega arith in (m, rw e b)
  best_from-IsBestUpTo costs i ((r, c) ∷ rest) best m a h b =
      let e : i + suc (length rest) ≡ (i + 1) + length rest = omega arith in
      let at_i : get_elem? costs i ≡ some (r, c) =
        subst (λ k. get_elem? costs k ≡ some (r, c)) (omega arith) (h 0) in
      let later : (k : ℕ) → get_elem? costs (i + 1 + k) ≡ get_elem? rest k =
        λ k. subst (λ n. get_elem? costs n ≡ get_elem? rest k) (omega arith) (h (suc k)) in
      rw e (elim (Bool-cases (lt c m.1)) [
        | inl t ↦
            rw (beats_lem costs c best m b.at_best, t)
              (best_from-IsBestUpTo costs (i + 1) rest i (r, c) a later
                (take_step costs i best m (r, c) a at_i t b))
        | inr f ↦
            rw (beats_lem costs c best m b.at_best, f)
              (best_from-IsBestUpTo costs (i + 1) rest best m a later
                (keep_step costs i best m (r, c) at_i f b))
      ])

  pub first_entry :
      (x : Text × F) (xs : List (Text × F))
      → AllCosts (x ∷ xs)
      → (m : Text × F) × IsBestUpTo
          (x ∷ xs)
          (length (x ∷ xs))
          (best_from fl (x ∷ xs) 0 (x ∷ xs) 0)
          m
  first_entry x xs a =
      let (m, b) =
        best_from-IsBestUpTo (x ∷ xs) 0 (x ∷ xs) 0 x a
          (λ k. subst (λ n. get_elem? (x ∷ xs) n ≡ get_elem? (x ∷ xs) k) (omega arith) refl)
          (record {
            at_best = refl;
            inside = omega arith;
            least = λ j y p q. absurd (omega arith);
          }) in
      let e : 0 + length (x ∷ xs) ≡ length (x ∷ xs) = omega arith in
      (m, subst (λ n. IsBestUpTo (x ∷ xs) n (best_from fl (x ∷ xs) 0 (x ∷ xs) 0) m) e b)

  pub get_elem?_lt :
      {A : Type 0} (xs : List A) (j : ℕ) (y : A) → get_elem? xs j ≡ some y → j < length xs
  get_elem?_lt [] j y h = cc
  get_elem?_lt (x ∷ xs) zero y h = omega arith
  get_elem?_lt (x ∷ xs) (suc j) y h = omega (arith, get_elem?_lt xs j y h)
