-- ===== src/GeoUpdate/Months.antt =====
-- The months of src/geo_update.rs: the order of their labels is that of time.
use rustdesk_server.Prelude.{
  ℕ, suc, ◌+◌, ◌*◌, ◌/◌, ◌%◌, ◌≤◌, ◌<◌, ◌≡◌, refl, ap, ◌∙◌, inl, inr, true, false, [], ◌∷◌, arith,
  ltb, leb, ◌==◌, nat_eq, Bool-cases,
}
use native.Mathlib.Nat.{mul-le-mul_right}
use rustdesk_server.Prelude.Text.{Text}
use rustdesk_server.GeoUpdate.{label, text_le}

-- Two texts that start with a digit each, when the rest compares as numbers below `b` do.
digit_step :
    (b x y vx vy : ℕ) (xs ys : Text)
    → vx < b
    → vy < b
    → text_le xs ys ≡ leb vx vy
    → text_le ((b'0' + x) ∷ xs) ((b'0' + y) ∷ ys) ≡ leb (x * b + vx) (y * b + vy)
unfolding text_le
digit_step b x y vx vy xs ys lx ly h = elim (Bool-cases (ltb x y)) [
  | inl l ↦
      let p : suc x * b ≤ y * b = mul-le-mul_right b (ground (arith, l)) in
      let first : ltb (b'0' + x) (b'0' + y) ≡ true = ground (arith, l) in
      let less : leb (x * b + vx) (y * b + vy) ≡ true = ground (arith, p, lx) in
      rw (first, less) refl
  | inr n ↦ elim (Bool-cases (ltb y x)) [
    | inl g ↦
        let p : suc y * b ≤ x * b = mul-le-mul_right b (ground (arith, g)) in
        let first : ltb (b'0' + x) (b'0' + y) ≡ false = ground (arith, n) in
        let other : ((b'0' + x) == (b'0' + y)) ≡ false = ground (arith, g) in
        let more : leb (x * b + vx) (y * b + vy) ≡ false = ground (arith, p, ly) in
        rw (first, other, more) refl
    | inr m ↦
        let same : x ≡ y = ground (arith, n, m) in
        let first : ltb (b'0' + x) (b'0' + y) ≡ false = ground (arith, n) in
        let equal : ((b'0' + x) == (b'0' + y)) ≡ true = ground (arith, n, m) in
        let low : leb (x * b + vx) (y * b + vy) ≡ leb vx vy = rw (same) (ground arith) in
        rw (first, equal, low) h
  ]
]

two_digits : (m : ℕ) → m < 100 → m / 10 % 10 * 10 + m % 10 ≡ m
two_digits m h = omega arith

four_digits :
    (y : ℕ)
    → y < 10000
    → y / 1000 % 10 * 1000 + (y / 100 % 10 * 100 + (y / 10 % 10 * 10 + y % 10)) ≡ y
four_digits y h = omega arith

-- The two texts compare as two numbers below `b` do.
record Compares (b : ℕ) (xs ys : Text) (v w : ℕ) : Type 0 where
  left : v < b
  right : w < b
  order : text_le xs ys ≡ leb v w

prepend :
    (b b' x y : ℕ) {xs ys : Text} {v w : ℕ}
    → b' ≡ 10 * b
    → x < 10
    → y < 10
    → Compares b xs ys v w
    → Compares b' ((b'0' + x) ∷ xs) ((b'0' + y) ∷ ys) (x * b + v) (y * b + w)
prepend b b' x y e lx ly c =
    let px : x * b ≤ 9 * b = mul-le-mul_right b (omega (arith, lx)) in
    let py : y * b ≤ 9 * b = mul-le-mul_right b (omega (arith, ly)) in
    record {
      left = omega (arith, px, e, c.left);
      right = omega (arith, py, e, c.right);
      order = digit_step b x y _ _ _ _ c.left c.right c.order;
    }

with_dash :
    {b : ℕ} {xs ys : Text} {v w : ℕ} → Compares b xs ys v w → Compares b (b'-' ∷ xs) (b'-' ∷ ys) v w
unfolding text_le
with_dash c = record { left = c.left; right = c.right; order = c.order }

-- The labels of two months, with years of at most four digits, are in the order of time.
pub label_order :
    (y m y' m' : ℕ)
    → y < 10000
    → m < 100
    → y' < 10000
    → m' < 100
    → text_le (label (y, m)) (label (y', m')) ≡ leb (y * 100 + m) (y' * 100 + m')
unfolding label text_le
label_order y m y' m' ly lm ly' lm' =
    let empty : Compares 1 [] [] 0 0 = record {
      left = omega arith;
      right = omega arith;
      order = refl;
    } in
    let m0 = prepend 1 10 (m % 10) (m' % 10) refl (omega arith) (omega arith) empty in
    let m1 = prepend 10 100 (m / 10 % 10) (m' / 10 % 10) refl (omega arith) (omega arith) m0 in
    let dash = with_dash m1 in
    let y0 = prepend 100 1000 (y % 10) (y' % 10) refl (omega arith) (omega arith) dash in
    let y1 = prepend 1000 10000 (y / 10 % 10) (y' / 10 % 10) refl (omega arith) (omega arith) y0 in
    let y2 =
      prepend 10000 100000 (y / 100 % 10) (y' / 100 % 10) refl (omega arith) (omega arith) y1 in
    let y3 =
      prepend 100000 1000000 (y / 1000 % 10) (y' / 1000 % 10) refl (omega arith) (omega arith) y2 in
    let value = λ (y m : ℕ).
      y / 1000 % 10 * 100000
      + (y / 100 % 10 * 10000
          + (y / 10 % 10 * 1000 + (y % 10 * 100 + (m / 10 % 10 * 10 + (m % 10 * 1 + 0))))) in
    let v : value y m ≡ y * 100 + m = omega (arith, four_digits y ly, two_digits m lm) in
    let w : value y' m' ≡ y' * 100 + m' = omega (arith, four_digits y' ly', two_digits m' lm') in
    y3.order ∙ ap (λ n. leb n (value y' m')) v ∙ ap (λ n. leb (y * 100 + m) n) w
