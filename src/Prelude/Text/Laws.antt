-- ===== src/Prelude/Text/Laws.antt =====
-- Laws of texts without white space: they survive trimming, and a line of its own.
use Prim.Native.Nat.{ℕ}
use mathlib.Core.Path.{◌≡◌, refl}
use mathlib.Core.Bool.{Bool, true, false}
use mathlib.Core.List.{[], ◌∷◌, ◌++◌}
use native.Mathlib.Omega.{arith}
use rustdesk_server.Prelude.Lists.{any}
use rustdesk_server.Prelude.Equality.{◌==◌, nat_eq}
use rustdesk_server.Prelude.Text.{
  Text, is_whitespace, trim_start, trim_end, push_trimmed, trim, split_by, split, push_piece,
  strip_return, end_lines, lines,
}

-- The tests that a character of the text fails, if no character passes.
split_by_none :
    (p : ℕ → Bool) (c : ℕ) (t : Text)
    → any p t ≡ false
    → p c ≡ true
    → split_by p (t ++ c ∷ []) ≡ t ∷ [] ∷ []
unfolding split_by push_piece
split_by_none p c [] h k = ground (arith, k)
split_by_none p c (d ∷ t) h k = ground (arith, split_by_none p c t)

no_feed : (t : Text) → any is_whitespace t ≡ false → any (λ d. d == 10) t ≡ false
unfolding is_whitespace
no_feed [] h = refl
no_feed (c ∷ t) h = ground (arith, no_feed t)

strip_return_none : (t : Text) → any is_whitespace t ≡ false → strip_return t ≡ t
unfolding strip_return
strip_return_none [] h = refl
strip_return_none (c ∷ []) h = unfold is_whitespace in ground arith
strip_return_none (c ∷ d ∷ t) h = ground (arith, strip_return_none (d ∷ t))

-- A text without white space, written with a line feed, is read back as one line.
pub lines-feed : (t : Text) → any is_whitespace t ≡ false → lines (t ++ 10 ∷ []) ≡ t ∷ []
unfolding lines split
lines-feed t h =
    rw (split_by_none (λ d. d == 10) 10 t (no_feed t h) refl)
      (unfold end_lines in rw (strip_return_none t h))

trim_start_none : (t : Text) → any is_whitespace t ≡ false → trim_start t ≡ t
unfolding trim_start
trim_start_none [] h = refl
trim_start_none (c ∷ t) h = ground arith

trim_end_none : (t : Text) → any is_whitespace t ≡ false → trim_end t ≡ t
unfolding trim_end push_trimmed
trim_end_none [] h = refl
trim_end_none (c ∷ []) h = ground arith
trim_end_none (c ∷ d ∷ t) h = ground (arith, trim_end_none (d ∷ t))

pub trim_none : (t : Text) → any is_whitespace t ≡ false → trim t ≡ t
unfolding trim
trim_none t h = rw (trim_start_none t h) (trim_end_none t h)
