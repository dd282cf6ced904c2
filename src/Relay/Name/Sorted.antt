-- ===== src/Relay/Name/Sorted.antt =====
-- What the relay list of src/relay_routes.rs makes of each of its pieces.
use mathlib.Core.List.{
  Mem, append_assoc, append-nil, mem-append_left, mem-append_right, mem-cons_self,
}
use rustdesk_server.Prelude.{
  ◌+◌, ◌≡◌, refl, sym, ◌∙◌, ◌⊎◌, inl, inr, Bool, true, none, some, List, [], ◌∷◌, ◌++◌, arith, ◌==◌,
  text_eq, any, All, All-append, length, Bool-cases, Option-cases,
}
use rustdesk_server.Prelude.Text.{Text, trim, is_empty, split}
use rustdesk_server.Relay.Name.{
  Problem, listed_twice, Parsed, normalize, relay_entry_problem, add_unless_listed, add_entry,
  add_entries, parse_relay_list,
}
use rustdesk_server.Relay.Name.Laws.{IsUsable, count_entries, add_entries_lem}

-- A relay of the list has the name of the entry.
unfoldable pub is_listed : Text → List Text → Bool
is_listed entry kept = any (λ k. normalize k == normalize entry) kept

-- The reason given for an entry is its own problem; or it has none, but its name is that of a relay
-- that is kept.
unfoldable pub IsReason : List Text → Text × Problem → Type 0
IsReason kept (entry, why) =
    (relay_entry_problem entry ≡ some why)
    ⊎ ((why ≡ listed_twice) × (relay_entry_problem entry ≡ none) × (is_listed entry kept ≡ true))

-- The entry is kept, or set aside with a reason.
unfoldable pub IsPlaced : Parsed → Text → Type 0
IsPlaced (kept, dropped) entry =
    Mem entry kept ⊎ ((why : Problem) × Mem (entry, why) dropped × IsReason kept (entry, why))

-- A piece of the list that is not blank is placed, without the white space around it.
unfoldable pub PiecePlaced : Parsed → Text → Type 0
PiecePlaced r raw = (is_empty (trim raw) ≡ true) ⊎ IsPlaced r (trim raw)

-- Both lists of `r'` begin with those of `r`.
Grows : Parsed → Parsed → Type 0
Grows (kept, dropped) (kept', dropped') =
    ((ks : List Text) × (kept' ≡ kept ++ ks))
    × ((ds : List (Text × Problem)) × (dropped' ≡ dropped ++ ds))

any-append : (p : Text → Bool) (xs ys : List Text) → any p xs ≡ true → any p (xs ++ ys) ≡ true
any-append p [] ys h = ground (arith, h)
any-append p (x ∷ xs) ys h = elim (Bool-cases (p x)) [
  | inl e ↦ rw e refl
  | inr e ↦ rw e (any-append p xs ys (ground (arith, h, e)))
]

IsReason-append :
    (kept ks : List Text) (d : Text × Problem) → IsReason kept d → IsReason (kept ++ ks) d
unfolding IsReason is_listed
IsReason-append kept ks (entry, why) (inl e) = inl e
IsReason-append kept ks (entry, why) (inr (w, n, l)) =
    inr (w, n, any-append (λ k. normalize k == normalize entry) kept ks l)

All-IsReason-append :
    (kept ks : List Text) (ds : List (Text × Problem))
    → All (IsReason kept) ds
    → All (IsReason (kept ++ ks)) ds
All-IsReason-append kept ks [] h = tt
All-IsReason-append kept ks (d ∷ ds) (h, hs) =
    (IsReason-append kept ks d h, All-IsReason-append kept ks ds hs)

IsPlaced-Grows : (r r' : Parsed) (entry : Text) → Grows r r' → IsPlaced r entry → IsPlaced r' entry
unfolding IsPlaced Grows
IsPlaced-Grows (kept, dropped) (kept', dropped') entry ((ks, k), (ds, d)) (inl m) =
    inl (rw k (mem-append_left ks m))
IsPlaced-Grows (kept, dropped) (kept', dropped') entry ((ks, k), (ds, d)) (inr (why, m, h)) =
    inr (why, rw d (mem-append_left ds m), rw k (IsReason-append kept ks (entry, why) h))

PiecePlaced-Grows :
    (r r' : Parsed) (raw : Text) → Grows r r' → PiecePlaced r raw → PiecePlaced r' raw
unfolding PiecePlaced
PiecePlaced-Grows r r' raw g (inl e) = inl e
PiecePlaced-Grows r r' raw g (inr h) = inr (IsPlaced-Grows r r' (trim raw) g h)

-- What one round does.
record Placing (raw : Text) (r r' : Parsed) : Type 0 where
  grows : Grows r r'
  placed : PiecePlaced r' raw
  reasons : All (IsReason r.0) r.1 → All (IsReason r'.0) r'.1

append-nil_list : {A : Type 0} (xs : List A) → xs ≡ xs ++ []
append-nil_list xs = sym (append-nil xs)

Grows-refl : (r : Parsed) → Grows r r
unfolding Grows
Grows-refl (kept, dropped) = (([], append-nil_list kept), ([], append-nil_list dropped))

Grows-trans : (r r1 r2 : Parsed) → Grows r r1 → Grows r1 r2 → Grows r r2
unfolding Grows
Grows-trans (k, d) (k1, d1) (k2, d2) ((ks, e), (ds, f)) ((ks', e'), (ds', f')) = (
  (ks ++ ks', e' ∙ (rw e (append_assoc k ks ks'))),
  (ds ++ ds', f' ∙ (rw f (append_assoc d ds ds'))),
)

-- An entry that is set aside.
dropped-Placing :
    (raw : Text) (kept : List Text) (dropped : List (Text × Problem)) (why : Problem)
    → IsReason kept (trim raw, why)
    → Placing raw (kept, dropped) (kept, dropped ++ (trim raw, why) ∷ [])
unfolding Grows PiecePlaced IsPlaced
dropped-Placing raw kept dropped why h = record {
  grows = (([], append-nil_list kept), ((trim raw, why) ∷ [], refl));
  placed = inr (inr (why, mem-append_right dropped mem-cons_self, h));
  reasons = λ all. All-append (IsReason kept) dropped ((trim raw, why) ∷ []) all (h, tt);
}

kept-Placing :
    (raw : Text) (kept : List Text) (dropped : List (Text × Problem))
    → Placing raw (kept, dropped) (kept ++ trim raw ∷ [], dropped)
unfolding Grows PiecePlaced IsPlaced
kept-Placing raw kept dropped = record {
  grows = ((trim raw ∷ [], refl), ([], append-nil_list dropped));
  placed = inr (inl (mem-append_right kept mem-cons_self));
  reasons = λ all. All-IsReason-append kept (trim raw ∷ []) dropped all;
}

add_unless_listed-Placing :
    (raw : Text) (r : Parsed)
    → relay_entry_problem (trim raw) ≡ none
    → Placing raw r (add_unless_listed (trim raw) r)
unfolding add_unless_listed is_listed IsReason
add_unless_listed-Placing raw (kept, dropped) fine = elim (Bool-cases (is_listed (trim raw) kept)) [
  | inl e ↦ rw e (dropped-Placing raw kept dropped listed_twice (inr (refl, fine, e)))
  | inr e ↦ rw e (kept-Placing raw kept dropped)
]

add_entry-Placing : (raw : Text) (r : Parsed) → Placing raw r (add_entry raw r)
unfolding add_entry PiecePlaced IsReason
add_entry-Placing raw (kept, dropped) = elim (Bool-cases (is_empty (trim raw))) [
  | inl e ↦
      rw e (record { grows = Grows-refl (kept, dropped); placed = inl e; reasons = λ all. all })
  | inr e ↦ elim (Option-cases (relay_entry_problem (trim raw))) [
    | inl p ↦ rw (e, p) (add_unless_listed-Placing raw (kept, dropped) p)
    | inr (why, p) ↦ rw (e, p) (dropped-Placing raw kept dropped why (inl p))
  ]
]

-- What the loop does.
record AllPlaced (raws : List Text) (r r' : Parsed) : Type 0 where
  grows : Grows r r'
  placed : All (PiecePlaced r') raws
  reasons : All (IsReason r.0) r.1 → All (IsReason r'.0) r'.1

add_entries-AllPlaced : (raws : List Text) (r : Parsed) → AllPlaced raws r (add_entries raws r)
unfolding add_entries
add_entries-AllPlaced [] r = record { grows = Grows-refl r; placed = tt; reasons = λ all. all }
add_entries-AllPlaced (raw ∷ raws) r =
    let one = add_entry-Placing raw r in
    let rest = add_entries-AllPlaced raws (add_entry raw r) in
    record {
      grows =
          Grows-trans r (add_entry raw r) (add_entries raws (add_entry raw r)) one.grows rest.grows;
      placed = (
        PiecePlaced-Grows (add_entry raw r) (add_entries raws (add_entry raw r)) raw rest.grows
            one.placed,
        rest.placed,
      );
      reasons = λ all. rest.reasons (one.reasons all);
    }

-- Every comma-separated piece of the list that is not blank is kept, or set aside with a reason; a
-- reason that is given is the entry's own problem, or that the entry has none but its name is that of
-- a relay that is kept. Every relay that is kept is an entry with no problem, and no two have the same
-- name. As many entries are kept or set aside as there are such pieces.
pub parse_relay_list-IsUsable :
    (list : Text)
    → All (PiecePlaced (parse_relay_list list)) (split b',' list)
      × All (IsReason (parse_relay_list list).0) (parse_relay_list list).1
      × IsUsable (parse_relay_list list).0
      × (length (parse_relay_list list).0 + length (parse_relay_list list).1
          ≡ count_entries (split b',' list))
unfolding parse_relay_list
parse_relay_list-IsUsable list =
    let all = add_entries-AllPlaced (split b',' list) ([], []) in
    let r = add_entries_lem (split b',' list) ([], []) (record { sound = tt; distinct = tt }) in
    (all.placed, all.reasons tt, r.0, omega (arith, r.1))
