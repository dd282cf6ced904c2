-- ===== src/Prelude/Text.antt =====
-- What the program uses of `str`. A text is the list of its code points. The texts that these
-- functions meet (host names, ports, ids, addresses) are ASCII, so that a code point is a byte,
-- `length` is `str::len`, and lower case is that of the letters A to Z.
pub mod Laws
use Prim.Native.Nat.{ℕ, zero, suc, ◌+◌, ◌-◌, ◌*◌}
use Prim.Native.Char.{code}
use Prim.Native.String.{String}
use mathlib.Core.Bool.{Bool, true, false, ◌&&◌, ◌||◌}
use mathlib.Core.List.{List, [], ◌∷◌, ◌++◌, map}
use mathlib.Core.Option.{Option, none, some}
use rustdesk_server.Prelude.Tests.{ltb, leb, if◌then◌else◌}
use rustdesk_server.Prelude.Equality.{◌==◌, nat_eq, text_eq}

abbrev pub Text : Type 0
Text = List ℕ

abbrev pub text : String → Text
text String.[] = []
text (String.◌∷◌ c s) = code c ∷ text s

-- `char::is_whitespace`: the code points with the property White_Space.
unfoldable pub is_whitespace : ℕ → Bool
is_whitespace c =
    (leb 9 c && leb c 13)
    || c == 32
    || c == 0x85
    || c == 0xa0
    || c == 0x1680
    || (leb 0x2000 c && leb c 0x200a)
    || c == 0x2028
    || c == 0x2029
    || c == 0x202f
    || c == 0x205f
    || c == 0x3000

unfoldable pub is_digit : ℕ → Bool
is_digit c = leb b'0' c && leb c b'9'

unfoldable pub lower : ℕ → ℕ
lower c = if leb b'A' c && leb c b'Z' then c + 32 else c

unfoldable pub to_lowercase : Text → Text
unfolding lower
to_lowercase = map lower

unfoldable pub trim_start : Text → Text
unfolding is_whitespace
trim_start [] = []
trim_start (c ∷ r) = elim (is_whitespace c) [ true ↦ trim_start r | false ↦ c ∷ r ]

push_trimmed : ℕ → Text → Text
push_trimmed c [] = elim (is_whitespace c) [ true ↦ [] | false ↦ c ∷ [] ]
push_trimmed c (d ∷ r) = c ∷ d ∷ r

unfoldable pub trim_end : Text → Text
unfolding is_whitespace push_trimmed
trim_end [] = []
trim_end (c ∷ r) = push_trimmed c (trim_end r)

unfoldable pub trim : Text → Text
unfolding trim_start trim_end
trim t = trim_end (trim_start t)

-- `str::contains` of one character.
unfoldable pub contains_char : ℕ → Text → Bool
contains_char c [] = false
contains_char c (d ∷ r) = d == c || contains_char c r

abbrev pub starts_with : Text → Text → Bool
starts_with [] t = true
starts_with (c ∷ p) [] = false
starts_with (c ∷ p) (d ∷ t) = c == d && starts_with p t

-- `str::contains` of a text.
unfoldable pub contains_text : Text → Text → Bool
contains_text p [] = starts_with p []
contains_text p (c ∷ t) = starts_with p (c ∷ t) || contains_text p t

-- `str::matches(c).count()`
unfoldable pub count_char : ℕ → Text → ℕ
count_char c [] = 0
count_char c (d ∷ r) = let n = count_char c r in if d == c then n + 1 else n

unfoldable pub strip_prefix : ℕ → Text → Option Text
strip_prefix c [] = none
strip_prefix c (d ∷ r) = if d == c then some r else none

push_first : ℕ → Option (Text × Text) → Option (Text × Text)
push_first c none = none
push_first c (some (a, b)) = some (c ∷ a, b)

-- Split at the first character that passes the test.
unfoldable pub split_once_by : (ℕ → Bool) → Text → Option (Text × Text)
unfolding push_first
split_once_by p [] = none
split_once_by p (d ∷ r) =
    let rest = push_first d (split_once_by p r) in if p d then some ([], r) else rest

unfoldable pub split_once : ℕ → Text → Option (Text × Text)
unfolding split_once_by
split_once c = split_once_by (λ d. d == c)

last_or : ℕ → ℕ → Text → Option (Text × Text) → Option (Text × Text)
unfolding push_first
last_or c d r none = if d == c then some ([], r) else none
last_or c d r (some ab) = push_first d (some ab)

-- `str::rsplit_once`: split at the last occurrence.
unfoldable pub rsplit_once : ℕ → Text → Option (Text × Text)
unfolding last_or
rsplit_once c [] = none
rsplit_once c (d ∷ r) = last_or c d r (rsplit_once c r)

push_piece : ℕ → List Text → List Text
push_piece c [] = (c ∷ []) ∷ []
push_piece c (p ∷ ps) = (c ∷ p) ∷ ps

-- `str::split` at every character that passes the test: one piece more than separators.
unfoldable pub split_by : (ℕ → Bool) → Text → List Text
unfolding push_piece
split_by p [] = [] ∷ []
split_by p (c ∷ r) = let rest = split_by p r in if p c then [] ∷ rest else push_piece c rest

unfoldable pub split : ℕ → Text → List Text
unfolding split_by
split c = split_by (λ d. d == c)

abbrev pub is_empty : Text → Bool
is_empty [] = true
is_empty (c ∷ r) = false

-- The pieces that are not empty.
unfoldable pub nonempty : List Text → List Text
nonempty [] = []
nonempty ([] ∷ ps) = nonempty ps
nonempty ((c ∷ p) ∷ ps) = (c ∷ p) ∷ nonempty ps

unfoldable pub split_whitespace : Text → List Text
unfolding split_by nonempty is_whitespace
split_whitespace t = nonempty (split_by is_whitespace t)

-- A carriage return before the line feed belongs to the line's end.
strip_return : Text → Text
strip_return [] = []
strip_return (c ∷ []) = if c == 13 then [] else c ∷ []
strip_return (c ∷ d ∷ r) = c ∷ strip_return (d ∷ r)

-- The last piece is no line if it is empty, and its carriage return stays.
end_lines : List Text → List Text
unfolding strip_return
end_lines [] = []
end_lines ([] ∷ []) = []
end_lines ((c ∷ p) ∷ []) = (c ∷ p) ∷ []
end_lines (p ∷ q ∷ ps) = strip_return p ∷ end_lines (q ∷ ps)

unfoldable pub lines : Text → List Text
unfolding split end_lines
lines t = end_lines (split 10 t)

parse_digits : ℕ → Text → Option ℕ
unfolding is_digit
parse_digits n [] = some n
parse_digits n (c ∷ r) =
    let rest = parse_digits (n * 10 + (c - 48)) r in if is_digit c then rest else none

pub parse_number : Text → Option ℕ
unfolding parse_digits
parse_number [] = none
parse_number (c ∷ r) = parse_digits 0 (c ∷ r)

-- `str::parse` into an unsigned type whose largest value is given: a plus sign may stand in front.
unfoldable pub parse_unsigned : ℕ → Text → Option ℕ
unfolding parse_number
parse_unsigned limit [] = none
parse_unsigned limit (c ∷ r) = elim (if c == b'+' then parse_number r else parse_number (c ∷ r)) [
  | none ↦ none
  | some n ↦ if leb n limit then some n else none
]
