-- ===== src/Prelude/Map.antt =====
-- `HashMap` with keys that can be compared, as an association list. The order of the entries is
-- not observable in what the program does with its maps, and no lemma speaks of it.
use Prim.Native.Nat.{◌+◌, ◌≤◌}
use mathlib.Core.Path.{◌≡◌, refl, ap, subst}
use mathlib.Core.Logic.{inl, inr}
use mathlib.Core.Bool.{Bool}
use mathlib.Core.List.{List, [], ◌∷◌}
use mathlib.Core.Option.{Option, none, some}
use native.Mathlib.Omega.{arith}
use rustdesk_server.Prelude.Tests.{if◌then◌else◌, Bool-cases}
use rustdesk_server.Prelude.Equality.{Eq, ◌==◌}
use rustdesk_server.Prelude.Lists.{length}

abbrev pub Map {ℓ κ} : Type ℓ → Type κ → Type (ℓ ⊔ κ)
Map K V = List (K × V)

module _ {ℓ κ} {K : Type ℓ} {V : Type κ} where
  -- `HashMap::retain`
  unfoldable pub retain : (K → V → Bool) → Map K V → Map K V
  retain p [] = []
  retain p ((j, w) ∷ m) = let rest = retain p m in if p j w then (j, w) ∷ rest else rest

  pub length-retain-le : (p : K → V → Bool) (m : Map K V) → length (retain p m) ≤ length m
  unfolding retain
  length-retain-le p [] = omega arith
  length-retain-le p ((j, w) ∷ m) = ground (arith, length-retain-le p m)

module _ {ℓ κ} {K : Type ℓ} {V : Type κ} ⦃e : Eq K⦄ where
  unfoldable pub get : K → Map K V → Option V
  get k [] = none
  get k ((j, w) ∷ m) = if j == k then some w else get k m

  unfoldable pub remove : K → Map K V → Map K V
  remove k [] = []
  remove k ((j, w) ∷ m) = let rest = remove k m in if j == k then rest else (j, w) ∷ rest

  unfoldable pub insert : K → V → Map K V → Map K V
  insert k v [] = (k, v) ∷ []
  insert k v ((j, w) ∷ m) = if j == k then (k, v) ∷ m else (j, w) ∷ insert k v m

  pub get-insert :
      (k j : K) (v : V) (m : Map K V) → get j (insert k v m) ≡ (if k == j then some v else get j m)
  unfolding get insert
  get-insert k j v [] = refl
  get-insert k j v ((i, w) ∷ m) =
      ground (arith, e.beq_iff k j, e.beq_iff i k, e.beq_iff i j, get-insert k j v m)

  pub get-remove : (k j : K) (m : Map K V) → get j (remove k m) ≡ (if k == j then none else get j m)
  unfolding get remove
  get-remove k j [] = ground arith
  get-remove k j ((i, w) ∷ m) =
      ground (arith, e.beq_iff k j, e.beq_iff i k, e.beq_iff i j, get-remove k j m)

  -- Every key stands once.
  unfoldable pub Unique : Map K V → Type (ℓ ⊔ κ)
  Unique [] = Unit
  Unique ((j, w) ∷ m) = (get j m ≡ none) × Unique m

  pub get-retain-none :
      (p : K → V → Bool) (k : K) (m : Map K V) → get k m ≡ none → get k (retain p m) ≡ none
  unfolding get retain
  get-retain-none p k [] g = refl
  get-retain-none p k ((j, w) ∷ m) g = ground (arith, g, get-retain-none p k m)

  pub get-retain :
      (p : K → V → Bool) (k : K) (v : V) (m : Map K V)
      → Unique m
      → get k m ≡ some v
      → get k (retain p m) ≡ (if p k v then some v else none)
  unfolding get retain Unique
  get-retain p k v [] u g = ground (arith, g)
  get-retain p k v ((j, w) ∷ m) u g = elim (Bool-cases (j == k)) [
    | inl q ↦
        let jk : j ≡ k = (e.beq_iff j k).0 q in
        let wv : w ≡ v = ground (arith, q, g) in
        let same : p j w ≡ p k v = rw (jk, wv) refl in
        let gone : get k m ≡ none = subst (λ i. get i m ≡ none) jk u.0 in
        let rest = get-retain-none p k m gone in
        elim (Bool-cases (p k v)) [
          | inl t ↦ rw (same, t) (rw q (ap some wv))
          | inr t ↦ rw (same, t) rest
        ]
    | inr q ↦
        let g' : get k m ≡ some v = ground (arith, q, g) in
        let rest = get-retain p k v m u.1 g' in
        elim (Bool-cases (p j w)) [ inl t ↦ rw t (rw q rest) | inr t ↦ rw t rest ]
  ]

  pub length-insert-le : (k : K) (v : V) (m : Map K V) → length (insert k v m) ≤ length m + 1
  unfolding insert
  length-insert-le k v [] = omega arith
  length-insert-le k v ((j, w) ∷ m) = ground (arith, length-insert-le k v m)

  pub length-remove-le : (k : K) (m : Map K V) → length (remove k m) ≤ length m
  unfolding remove
  length-remove-le k [] = omega arith
  length-remove-le k ((j, w) ∷ m) = ground (arith, length-remove-le k m)

pub ruleset map_laws = (get-insert, get-remove)
