-- ===== src/Hbbs/Blocker/Rate.antt =====
-- The limits that the address counters of src/rendezvous_server.rs keep.
use rustdesk_server.Prelude.{
  ℕ, ◌+◌, ◌≤◌, ◌<◌, ◌≡◌, inl, inr, true, none, some, List, [], ◌∷◌, arith, ltb, if◌then◌else◌, ◌==◌,
  text_eq, beq_refl, length, Bool-cases, Option-cases, subst,
}
use rustdesk_server.Prelude.Map
use rustdesk_server.Prelude.Map.{get-insert}
use rustdesk_server.Prelude.Text.{Text}
use rustdesk_server.Hbbs.Blocker.{Entry, IpBlockMap, count_id, count_call, check_ip_blocker}

-- At most 31 registrations are counted, and at most 301 ids are kept.
pub record IsBounded (e : Entry) : Type 0 where
  pub calls : e.count ≤ 31
  pub names : length e.ids ≤ 301

abbrev pub AllBounded : IpBlockMap → Type 0
AllBounded m = (ip : Text) (e : Entry) → Map.get ip m ≡ some e → IsBounded e

count_call-IsBounded :
    (now : ℕ) (e e' : Entry) → IsBounded e → count_call now e ≡ some e' → IsBounded e'
unfolding count_call
count_call-IsBounded now e e' b h = ground arith

count_id-IsBounded :
    (now : ℕ) (id : Text) (e : Entry) → IsBounded e → IsBounded (count_id now id e).1
unfolding count_id
count_id-IsBounded now id e b = ground arith

insert-AllBounded :
    (ip : Text) (e : Entry) (m : IpBlockMap)
    → IsBounded e
    → AllBounded m
    → AllBounded (Map.insert ip e m)
insert-AllBounded ip e m b a j x h = elim (Bool-cases (ip == j)) [
  | inl p ↦ let e' : e ≡ x = ground (arith, get-insert ip j e m, p) in subst IsBounded e' b
  | inr p ↦ a j x (ground (arith, get-insert ip j e m, p))
]

-- Where every address has at most 31 registrations counted and at most 301 ids kept, this is so
-- after a call of `check_ip_blocker`, whatever is asked.
pub check_ip_blocker-AllBounded :
    (now : ℕ) (ip id : Text) (m : IpBlockMap)
    → AllBounded m
    → AllBounded (check_ip_blocker now ip id m).1
unfolding check_ip_blocker
check_ip_blocker-AllBounded now ip id m a = elim (Option-cases (Map.get ip m)) [
  | inl p ↦
      rw (p, check_ip_blocker)
        (insert-AllBounded ip (record { count = 0; counted_at = now; ids = []; ids_at = now }) m
          (omega arith) a)
  | inr (e, p) ↦ elim (Option-cases (count_call now e)) [
    | inl q ↦ rw (p, q, check_ip_blocker) a
    | inr (e1, q) ↦
        rw (p, q, check_ip_blocker)
          (insert-AllBounded ip (count_id now id e1).1 m
            (count_id-IsBounded now id e1 (count_call-IsBounded now e e1 (a ip e p) q)) a)
  ]
]

-- Calls from one address, each with its time and the id that it registers.
abbrev pub Calls : Type 0
Calls = List (ℕ × Text)

-- How many of the calls are allowed, one after the other.
unfoldable pub allowed : Text → Calls → IpBlockMap → ℕ
allowed ip [] m = 0
allowed ip ((now, id) ∷ calls) m =
    let r = check_ip_blocker now ip id m in (if r.0 then 1 else 0) + allowed ip calls r.1

-- Every call falls within 61 seconds of `start`.
abbrev pub Within : ℕ → Calls → Type 0
Within start [] = Unit
Within start ((now, id) ∷ calls) = (start ≤ now) × (now < start + 61000) × Within start calls

count_call_soon :
    (now start : ℕ) (e : Entry)
    → start ≤ e.counted_at
    → now < start + 61000
    → count_call now e
      ≡ (if ltb 30 e.count then none else some (record e { count = e.count + 1; counted_at = now }))
unfolding count_call
count_call_soon now start e h k = ground arith

count-count_id :
    (now : ℕ) (id : Text) (e : Entry)
    → ((count_id now id e).1.count ≡ e.count) × ((count_id now id e).1.counted_at ≡ e.counted_at)
unfolding count_id
count-count_id now id e = ground arith

-- What one call does to a counter that is not old: nothing, or one more is counted.
soon_step :
    (now start : ℕ) (ip id : Text) (m : IpBlockMap) (e : Entry)
    → Map.get ip m ≡ some e
    → e.count ≤ 31
    → start ≤ e.counted_at
    → start ≤ now
    → now < start + 61000
    → (e' : Entry) × (Map.get ip (check_ip_blocker now ip id m).1 ≡ some e')
      × (start ≤ e'.counted_at)
      × (e'.count ≤ 31)
      × ((if (check_ip_blocker now ip id m).0 then 1 else 0) + e.count ≤ e'.count)
unfolding check_ip_blocker
soon_step now start ip id m e p b h h' k = elim (Bool-cases (ltb 30 e.count)) [
  | inl full ↦
      let q : count_call now e ≡ none = ground (arith, count_call_soon now start e h k) in
      rw (p, q, check_ip_blocker) (e, p, h, b, omega arith)
  | inr room ↦
      let e1 = record e { count = e.count + 1; counted_at = now } in
      let q : count_call now e ≡ some e1 = ground (arith, count_call_soon now start e h k) in
      let e2 = (count_id now id e1).1 in
      let c = count-count_id now id e1 in
      rw (p, q, check_ip_blocker)
        (
          e2,
          ground (arith, get-insert ip ip e2 m, beq_refl ip),
          ground (arith, c),
          ground (arith, c),
          ground (arith, c),
        )
]

allowed_soon :
    (start : ℕ) (ip : Text) (calls : Calls) (m : IpBlockMap) (e : Entry)
    → Map.get ip m ≡ some e
    → e.count ≤ 31
    → start ≤ e.counted_at
    → Within start calls
    → allowed ip calls m + e.count ≤ 31
unfolding allowed
allowed_soon start ip [] m e p b h w = omega arith
allowed_soon start ip ((now, id) ∷ calls) m e p b h w =
    let (e', p', h', b', n) = soon_step now start ip id m e p b h w.0 w.1 in
    omega (arith, n, allowed_soon start ip calls (check_ip_blocker now ip id m).1 e' p' b' h' w.2)

-- From an address with no counter, at most 32 registrations are allowed within 61 seconds, however
-- many are tried.
pub allowed_bound :
    (start : ℕ) (ip : Text) (calls : Calls) (m : IpBlockMap)
    → Map.get ip m ≡ none
    → Within start calls
    → allowed ip calls m ≤ 32
unfolding allowed
allowed_bound start ip [] m p w = omega arith
allowed_bound start ip ((now, id) ∷ calls) m p w =
    let e : Entry = record { count = 0; counted_at = now; ids = []; ids_at = now } in
    let p' : Map.get ip (Map.insert ip e m) ≡ some e =
      ground (arith, get-insert ip ip e m, beq_refl ip) in
    let q : check_ip_blocker now ip id m ≡ (true, Map.insert ip e m) =
      unfold check_ip_blocker in rw (p, check_ip_blocker) in
    rw q (omega (arith, allowed_soon start ip calls (Map.insert ip e m) e p' (omega arith) w.0 w.2))
