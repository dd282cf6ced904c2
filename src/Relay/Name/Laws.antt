-- ===== src/Relay/Name/Laws.antt =====
-- The relay list of src/relay_routes.rs: which entries are kept, and that none is lost.
use rustdesk_server.Prelude.{
  ℕ, ◌+◌, ◌≡◌, inl, inr, false, none, List, [], ◌∷◌, ◌++◌, arith, if◌then◌else◌, ◌==◌, text_eq,
  nat_eq, any, All, All-append, length, length-append, Bool-cases, Option-cases, list_beq_iff,
}
use rustdesk_server.Prelude.Text.{
  Text, text, trim, is_empty, is_whitespace, contains_text, contains_char, split_once, strip_prefix,
}
use rustdesk_server.Relay.Name.{
  Problem, Parsed, normalize, relay_entry_problem, check_bracketed, add_unless_listed, add_entry,
  add_entries,
}

-- No relay of the list has the name of `k`.
abbrev pub Unlisted : Text → List Text → Type 0
Unlisted k = All (λ j. (normalize j == normalize k) ≡ false)

abbrev pub AllDistinct : List Text → Type 0
AllDistinct [] = Unit
AllDistinct (k ∷ ks) = Unlisted k ks × AllDistinct ks

pub record IsUsable (kept : List Text) : Type 0 where
  pub sound : All (λ k. relay_entry_problem k ≡ none) kept
  pub distinct : AllDistinct kept

name_sym :
    (j k : Text) → (normalize j == normalize k) ≡ false → (normalize k == normalize j) ≡ false
name_sym j k h =
    ground
      (arith, list_beq_iff (normalize j) (normalize k), list_beq_iff (normalize k) (normalize j))

AllDistinct-append :
    (ks : List Text) (k : Text)
    → AllDistinct ks
    → any (λ j. normalize j == normalize k) ks ≡ false
    → AllDistinct (ks ++ k ∷ [])
AllDistinct-append [] k d e = (tt, tt)
AllDistinct-append (j ∷ ks) k d e =
    let here : (normalize j == normalize k) ≡ false = ground arith in
    let later : any (λ i. normalize i == normalize k) ks ≡ false = ground arith in
    (
      All-append (λ i. (normalize i == normalize j) ≡ false) ks (k ∷ []) d.0
          (name_sym j k here, tt),
      AllDistinct-append ks k d.1 later,
    )

-- How many pieces of the list are more than white space.
abbrev pub weight : Text → ℕ
weight raw = if is_empty (trim raw) then 0 else 1

abbrev pub count_entries : List Text → ℕ
count_entries [] = 0
count_entries (raw ∷ raws) = weight raw + count_entries raws

abbrev size : Parsed → ℕ
size acc = length acc.0 + length acc.1

add_unless_listed_lem :
    (entry : Text) (acc : Parsed)
    → relay_entry_problem entry ≡ none
    → IsUsable acc.0
    → IsUsable (add_unless_listed entry acc).0 × (size (add_unless_listed entry acc) ≡ size acc + 1)
unfolding add_unless_listed
add_unless_listed_lem entry (kept, dropped) fine v =
    elim (Bool-cases (any (λ k. normalize k == normalize entry) kept)) [
      | inl e ↦ rw e (v, omega (arith, length-append dropped ((entry, Problem.listed_twice) ∷ [])))
      | inr e ↦ rw e (
        record {
          sound = All-append _ kept (entry ∷ []) v.sound (fine, tt);
          distinct = AllDistinct-append kept entry v.distinct e;
        },
        omega (arith, length-append kept (entry ∷ [])),
      )
    ]

add_entry_lem :
    (raw : Text) (acc : Parsed)
    → IsUsable acc.0
    → IsUsable (add_entry raw acc).0 × (size (add_entry raw acc) ≡ size acc + weight raw)
unfolding add_entry
add_entry_lem raw (kept, dropped) v = elim (Bool-cases (is_empty (trim raw))) [
  | inl e ↦ rw e (v, omega arith)
  | inr e ↦ elim (Option-cases (relay_entry_problem (trim raw))) [
    | inl p ↦ rw (e, p) (add_unless_listed_lem (trim raw) (kept, dropped) p v)
    | inr (why, p) ↦ rw (e, p) (v, omega (arith, length-append dropped ((trim raw, why) ∷ [])))
  ]
]

pub add_entries_lem :
    (raws : List Text) (acc : Parsed)
    → IsUsable acc.0
    → IsUsable (add_entries raws acc).0
      × (size (add_entries raws acc) ≡ size acc + count_entries raws)
unfolding add_entries
add_entries_lem [] acc v = (v, omega arith)
add_entries_lem (raw ∷ raws) acc v =
    let one = add_entry_lem raw acc v in
    let rest = add_entries_lem raws (add_entry raw acc) one.0 in
    (rest.0, omega (arith, one.1, rest.1))

-- An entry that opens a bracket and never closes it has no problem, if it holds no white space and
-- no slash.
pub unclosed_bracket_passes :
    (rest : Text)
    → any is_whitespace (b'[' ∷ rest) ≡ false
    → contains_text (text "://") (b'[' ∷ rest) ≡ false
    → contains_char b'/' (b'[' ∷ rest) ≡ false
    → split_once b']' rest ≡ none
    → relay_entry_problem (b'[' ∷ rest) ≡ none
unfolding relay_entry_problem strip_prefix
unclosed_bracket_passes rest p q r e = rw (p, q, r, e, check_bracketed)
