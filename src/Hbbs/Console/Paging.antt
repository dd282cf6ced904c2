-- ===== src/Hbbs/Console/Paging.antt =====
-- What the lists of the console of src/rendezvous_server.rs show, and what looking at them changes.
use rustdesk_server.Prelude.{
  ℕ, zero, suc, ◌+◌, ◌-◌, ◌^◌, ◌≤◌, ◌<◌, ◌≡◌, refl, ap, subst, ◌∙◌, sym, beq_refl, inl, inr, true,
  false, none, some, List, [], ◌∷◌, arith, ltb, text_eq, take, drop, Bool-cases, Option-cases,
}
use rustdesk_server.Prelude.Map
use rustdesk_server.Prelude.Map.{Map, get-insert, get-remove, get-retain, get-retain-none, Unique}
use rustdesk_server.Prelude.Text.{Text, text}
use rustdesk_server.Hbbs.Blocker.{Entry, IpBlockMap, count_id, count_call, check_ip_blocker}
use rustdesk_server.Hbbs.Console.Lists.{
  page_from, page_stop, page, is_recent, sweep_blocker, show_block_entry, ip_blocker_command,
  parse_start, is_dash,
}

module _ {ℓ} {A : Type ℓ} where
  take-nil : (n : ℕ) → let none_left : List A = [] in none_left ≡ take n none_left
  take-nil zero = refl
  take-nil (suc n) = refl

  page_from_inside :
      (i start stop : ℕ) (xs : List A) → start ≤ i → page_from i start stop xs ≡ take (stop - i) xs
  unfolding page_from
  page_from_inside i start stop [] h = take-nil (stop - i)
  page_from_inside i start stop (x ∷ xs) h =
      let rest = page_from_inside (suc i) start stop xs (omega (arith, h)) in
      let out : ltb i start ≡ false = ground (arith, h) in
      elim (Bool-cases (ltb i stop)) [
        | inl e ↦
            let more : stop - i ≡ suc (stop - suc i) = ground (arith, e) in
            rw (e, out, more) (ap (λ r. x ∷ r) rest)
        | inr e ↦ let over : stop - i ≡ 0 = ground (arith, e) in rw (e, over) refl
      ]

  page_from_before :
      (k i n : ℕ) (xs : List A) → page_from i (i + k) (i + k + n) xs ≡ take n (drop k xs)
  unfolding page_from
  page_from_before zero i n xs =
      let all : i + 0 + n - i ≡ n = omega arith in
      page_from_inside i (i + 0) (i + 0 + n) xs (omega arith) ∙ ap (λ m. take m xs) all
  page_from_before (suc k) i n [] = take-nil n
  page_from_before (suc k) i n (x ∷ xs) =
      let before : ltb i (i + suc k) ≡ true = ground arith in
      let within : ltb i (i + suc k + n) ≡ true = ground arith in
      let same : suc i + k ≡ i + suc k = omega arith in
      rw (within, before)
        (subst (λ m. page_from (suc i) m (m + n) xs ≡ take n (drop k xs)) same
          (page_from_before k (suc i) n xs))

  -- A page of a list is the ten entries from its start on, however short the list, for a start that is
  -- at least ten below the largest `i32`.
  pub page_lem :
      (start : ℕ) (xs : List A) → start < 2147483638 → page start xs ≡ take 10 (drop start xs)
  unfolding page page_stop
  page_lem start xs h =
      let small : ltb (start + 10) (2 ^ 31) ≡ true = ground (arith, h) in
      rw small (
        subst (λ m. page_from 0 m (m + 10) xs ≡ take 10 (drop start xs)) (omega arith)
          (page_from_before start 0 10 xs))

-- An address without an entry may register.
no_entry_allowed :
    (now : ℕ) (ip id : Text) (m : IpBlockMap)
    → Map.get ip m ≡ none
    → (check_ip_blocker now ip id m).0 ≡ true
unfolding check_ip_blocker
no_entry_allowed now ip id m g = rw (check_ip_blocker, g) refl

-- An address whose counters are both old may register.
old_entry_allowed :
    (now : ℕ) (ip id : Text) (m : IpBlockMap) (e : Entry)
    → Map.get ip m ≡ some e
    → is_recent now e ≡ false
    → (check_ip_blocker now ip id m).0 ≡ true
unfolding check_ip_blocker is_recent count_call count_id
old_entry_allowed now ip id m e g r = rw (check_ip_blocker, g) (ground (arith, r))

recent_before :
    (now later : ℕ) (e : Entry) → now ≤ later → is_recent now e ≡ false → is_recent later e ≡ false
unfolding is_recent
recent_before now later e h r = ground (arith, h, r)

kept_entry_allowed :
    (now : ℕ) (ip id : Text) (m m' : IpBlockMap)
    → Map.get ip m ≡ Map.get ip m'
    → (check_ip_blocker now ip id m).0 ≡ (check_ip_blocker now ip id m').0
unfolding check_ip_blocker
kept_entry_allowed now ip id m m' g = elim (Option-cases (Map.get ip m')) [
  | inl n ↦ rw (check_ip_blocker, g, n) refl
  | inr (e, n) ↦ rw (check_ip_blocker, g, n) (ground arith)
]

-- Looking at the list of addresses on the console, which drops entries, changes nothing for the next
-- registration, whenever it comes after the look: it is allowed if and only if it would have been
-- allowed without the look. An address stands in the map once.
pub sweep_blocker_allowed :
    (now later : ℕ) (ip id : Text) (m : IpBlockMap)
    → Unique m
    → now ≤ later
    → (check_ip_blocker later ip id (sweep_blocker now m)).0 ≡ (check_ip_blocker later ip id m).0
unfolding sweep_blocker
sweep_blocker_allowed now later ip id m u h = elim (Option-cases (Map.get ip m)) [
  | inl n ↦
      let gone = get-retain-none (λ j w. is_recent now w) ip m n in
      no_entry_allowed later ip id (sweep_blocker now m) gone
      ∙ sym (no_entry_allowed later ip id m n)
  | inr (e, n) ↦
      let found = get-retain (λ j w. is_recent now w) ip e m u n in
      elim (Bool-cases (is_recent now e)) [
        | inl r ↦ kept_entry_allowed later ip id (sweep_blocker now m) m (found ∙ (rw r (sym n)))
        | inr r ↦
            no_entry_allowed later ip id (sweep_blocker now m) (found ∙ (rw r refl))
            ∙ sym (old_entry_allowed later ip id m e n (recent_before now later e h r))
      ]
]

-- `ip-blocker <ip> -` lets an address that was refused register again; the address is no number.
pub ip_blocker_unblocks :
    (now : ℕ) (ip id : Text) (m : IpBlockMap)
    → parse_start ip ≡ none
    → (check_ip_blocker now ip id (ip_blocker_command now (ip ∷ text "-" ∷ []) m).2).0 ≡ true
unfolding ip_blocker_command show_block_entry is_dash
ip_blocker_unblocks now ip id m h =
    let left = Map.remove ip (sweep_blocker now m) in
    let gone : Map.get ip left ≡ none =
      ground (arith, get-remove ip ip (sweep_blocker now m), beq_refl ip) in
    rw (ip_blocker_command, h) (no_entry_allowed now ip id left gone)
