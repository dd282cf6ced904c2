-- ===== src/Hbbs/Probe/Sorting.antt =====
-- The order of the healthy relays in src/rendezvous_server.rs does not depend on the order in which
-- the probes end.
use mathlib.Core.List.{Perm, Permᴰ}
use mathlib.Core.List.Permᴰ
use mathlib.Core.Logic.{∥∥₁_elim}
use rustdesk_server.Prelude.{
  ℕ, ◌+◌, ◌≤◌, ◌≡◌, ◌≢◌, refl, sym, ap, ◌∙◌, subst, inl, inr, Bool, Option, none, some, List, [],
  ◌∷◌, map, leb, arith, Bool-cases, All, filterb,
}
use rustdesk_server.Prelude.Text.{Text}
use rustdesk_server.Hbbs.Probe.{
  probe_host, answering, insert_by_key, sort_by_key, check_relay_servers,
}

abbrev Probes : Type 0
Probes = List (ℕ × Text)

DistinctKeys : Probes → Type 0
DistinctKeys [] = Unit
DistinctKeys (x ∷ xs) = All (λ (y : ℕ × Text). x.0 ≢ y.0) xs × DistinctKeys xs

insert_comm :
    (x y : ℕ × Text) (zs : Probes)
    → x.0 ≢ y.0
    → insert_by_key x (insert_by_key y zs) ≡ insert_by_key y (insert_by_key x zs)
unfolding insert_by_key
insert_comm x y [] n = ground (arith, n)
insert_comm x y (z ∷ zs) n = ground (arith, n, insert_comm x y zs n)

All-perm : (P : ℕ × Text → Type 0) {xs ys : Probes} → Permᴰ xs ys → All P xs → All P ys
All-perm P Permᴰ.nil a = a
All-perm P (Permᴰ.cons e d) a = (subst P e a.0, All-perm P d a.1)
All-perm P (Permᴰ.swap e f) a = (subst P f a.1.0, (subst P e a.0, a.1.1))
All-perm P (Permᴰ.trans d d') a = All-perm P d' (All-perm P d a)

DistinctKeys-perm : {xs ys : Probes} → Permᴰ xs ys → DistinctKeys xs → DistinctKeys ys
unfolding DistinctKeys
DistinctKeys-perm Permᴰ.nil a = a
DistinctKeys-perm (Permᴰ.cons {l₂ = ys} e d) a = (
  subst (λ x. All (λ (y : ℕ × Text). x.0 ≢ y.0) ys) e (All-perm _ d a.0),
  DistinctKeys-perm d a.1,
)
DistinctKeys-perm (Permᴰ.swap {a = a} {a' = b} {l = l} e f) ((ab, al), (bl, dl)) =
    subst (λ x. DistinctKeys (b ∷ x ∷ l)) e
      (subst (λ x. DistinctKeys (x ∷ a ∷ l)) f (((λ q. ab (sym q)), bl), (al, dl)))
DistinctKeys-perm (Permᴰ.trans d d') a = DistinctKeys-perm d' (DistinctKeys-perm d a)

sort-perm : {xs ys : Probes} → Permᴰ xs ys → DistinctKeys xs → sort_by_key xs ≡ sort_by_key ys
unfolding sort_by_key DistinctKeys
sort-perm Permᴰ.nil a = refl
sort-perm (Permᴰ.cons e d) a = rw (← e, sort-perm d a.1) refl
sort-perm (Permᴰ.swap e f) ((ab, al), (bl, dl)) = rw (← e, ← f) (insert_comm _ _ _ ab)
sort-perm (Permᴰ.trans d d') a = sort-perm d a ∙ sort-perm d' (DistinctKeys-perm d a)

-- The places from `i` on come in order, so that sorting changes nothing.
All-le :
    (i j : ℕ) (ps : Probes)
    → i ≤ j
    → All (λ (y : ℕ × Text). j ≤ y.0) ps
    → All (λ (y : ℕ × Text). i ≤ y.0) ps
All-le i j [] l a = tt
All-le i j (p ∷ ps) l a = (omega (arith, l, a.0), All-le i j ps l a.1)

answering-From :
    (answers : Text → Bool) (i : ℕ) (xs : List Text)
    → All (λ (y : ℕ × Text). i ≤ y.0) (answering answers i xs)
unfolding answering
answering-From answers i [] = tt
answering-From answers i (x ∷ xs) =
    let rest = All-le i (i + 1) _ (omega arith) (answering-From answers (i + 1) xs) in
    elim (Bool-cases (answers (probe_host x))) [
      | inl e ↦ rw e (omega arith, rest)
      | inr e ↦ rw e rest
    ]

insert_least :
    (i : ℕ) (x : Text) (ps : Probes)
    → All (λ (y : ℕ × Text). i ≤ y.0) ps
    → insert_by_key (i, x) ps ≡ (i, x) ∷ ps
unfolding insert_by_key
insert_least i x [] a = refl
insert_least i x (p ∷ ps) a = ground (arith, a.0)

ne-below :
    (i : ℕ) (ps : Probes)
    → All (λ (y : ℕ × Text). i + 1 ≤ y.0) ps
    → All (λ (y : ℕ × Text). i ≢ y.0) ps
ne-below i [] a = tt
ne-below i (p ∷ ps) a = ((λ e. absurd (omega (arith, e, a.0))), ne-below i ps a.1)

answering-DistinctKeys :
    (answers : Text → Bool) (i : ℕ) (xs : List Text) → DistinctKeys (answering answers i xs)
unfolding answering DistinctKeys
answering-DistinctKeys answers i [] = tt
answering-DistinctKeys answers i (x ∷ xs) =
    let rest = answering-DistinctKeys answers (i + 1) xs in
    elim (Bool-cases (answers (probe_host x))) [
      | inl e ↦ rw e (ne-below i _ (answering-From answers (i + 1) xs), rest)
      | inr e ↦ rw e rest
    ]

sort-answering :
    (answers : Text → Bool) (i : ℕ) (xs : List Text)
    → sort_by_key (answering answers i xs) ≡ answering answers i xs
unfolding answering sort_by_key
sort-answering answers i [] = refl
sort-answering answers i (x ∷ xs) =
    let rest = sort-answering answers (i + 1) xs in
    let above = All-le i (i + 1) _ (omega arith) (answering-From answers (i + 1) xs) in
    elim (Bool-cases (answers (probe_host x))) [
      | inl e ↦ rw e (rw rest (insert_least i x _ above))
      | inr e ↦ rw e rest
    ]

map-answering :
    (answers : Text → Bool) (i : ℕ) (xs : List Text)
    → map (λ (y : ℕ × Text). y.1) (answering answers i xs)
      ≡ filterb (λ x. answers (probe_host x)) xs
unfolding answering
map-answering answers i [] = refl
map-answering answers i (x ∷ xs) = elim (Bool-cases (answers (probe_host x))) [
  | inl e ↦ rw e (ap (λ r. x ∷ r) (map-answering answers (i + 1) xs))
  | inr e ↦ rw e (map-answering answers (i + 1) xs)
]

-- What there is to send, if there is anything.
unfoldable pub if_any : List Text → Option (List Text)
if_any [] = none
if_any (x ∷ xs) = some (x ∷ xs)

insert-cons :
    (x : ℕ × Text) (ps : Probes) → (y : ℕ × Text) × (ys : Probes) × (insert_by_key x ps ≡ y ∷ ys)
unfolding insert_by_key
insert-cons x [] = (x, [], refl)
insert-cons x (p ∷ ps) = elim (Bool-cases (leb x.0 p.0)) [
  | inl e ↦ (x, p ∷ ps, rw e refl)
  | inr e ↦ (p, insert_by_key x ps, rw e refl)
]

check-if_any :
    (ended : Probes)
    → check_relay_servers ended ≡ if_any (map (λ (y : ℕ × Text). y.1) (sort_by_key ended))
unfolding check_relay_servers if_any sort_by_key
check-if_any [] = refl
check-if_any (x ∷ xs) = let (y, ys, e) = insert-cons x (sort_by_key xs) in rw e refl

-- In whatever order the probes of a list end, the healthy relays are those of the list that answer, in
-- the order of the list; if none answers, nothing is sent and the previous ones stay.
pub check_relay_servers_order :
    (answers : Text → Bool) (rs : List Text) (ended : Probes)
    → Perm ended (answering answers 0 rs)
    → check_relay_servers ended ≡ if_any (filterb (λ x. answers (probe_host x)) rs)
check_relay_servers_order answers rs ended p = ∥∥₁_elim p (hlevel) (λ d.
    let sorted = sort-perm (Permᴰ.symm d) (answering-DistinctKeys answers 0 rs) in
    check-if_any ended
    ∙ rw (← sorted, sort-answering answers 0 rs, map-answering answers 0 rs) refl)
