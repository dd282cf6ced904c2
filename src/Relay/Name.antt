-- ===== src/Relay/Name.antt =====
pub mod Laws
pub mod Sorted
-- src/relay_routes.rs: relay names and the list of relays given by `-r`.
use rustdesk_server.Prelude.{
  ℕ, zero, suc, ◌+◌, ◌<◌, ◌≡◌, Bool, true, false, ◌||◌, Option, none, some, List, [], ◌∷◌, ◌++◌,
  map, arith, ltb, if◌then◌else◌, is_some, ◌==◌, nat_eq, text_eq, any,
}
use rustdesk_server.Prelude.Text.{
  Text, text, trim, to_lowercase, contains_char, contains_text, count_char, strip_prefix,
  split_once, split, is_empty, is_whitespace, parse_unsigned,
}

-- `:21117`, hbbr's default port.
abbrev pub default_port : Text
default_port = text ":21117"

unfoldable pub normalize : Text → Text
normalize relay =
    let r = to_lowercase (trim relay) in if contains_char b':' r then r else r ++ default_port

-- Why an entry of the relay list is set aside.
pub data Problem : Type 0 where
  contains_space is_url several_colons no_host listed_twice : Problem
  bad_port : Text → Problem

-- `p.parse::<u16>()` and the test that the port is not 0.
check_port : Option Text → Option Problem
check_port none = none
check_port (some p) = elim (parse_unsigned 65535 p) [
  | none ↦ some (bad_port p)
  | some n ↦ if ltb 0 n then none else some (bad_port p)
]

check_host : Text → Option Text → Option Problem
unfolding check_port
check_host host port = if is_empty host || host == text ":" then some no_host else check_port port

-- The part after an opening bracket. Without a closing one `?` leaves the function with `None`.
check_bracketed : Text → Text → Option Problem
unfolding check_host
check_bracketed entry rest = elim (split_once b']' rest) [
  | none ↦ none
  | some (v6, after) ↦ check_host entry (strip_prefix b':' after)
]

check_plain : Text → ℕ → Option Problem
unfolding check_host
check_plain entry zero = check_host entry none
check_plain entry (suc zero) = elim (split_once b':' entry) [
  | none ↦ none
  | some (h, p) ↦ check_host h (some p)
]
check_plain entry (suc (suc n)) = some several_colons

unfoldable pub relay_entry_problem : Text → Option Problem
unfolding check_bracketed check_plain
relay_entry_problem entry =
    if any is_whitespace entry
    then some contains_space
    else if contains_text (text "://") entry || contains_char b'/' entry
    then some is_url
    else elim (strip_prefix b'[' entry) [
      | some rest ↦ check_bracketed entry rest
      | none ↦ check_plain entry (count_char b':' entry)
    ]

abbrev pub Parsed : Type 0
Parsed = List Text × List (Text × Problem)

pub add_unless_listed : Text → Parsed → Parsed
add_unless_listed entry (kept, dropped) =
    if any (λ k. normalize k == normalize entry) kept
    then (kept, dropped ++ (entry, listed_twice) ∷ [])
    else (kept ++ entry ∷ [], dropped)

-- One round of the loop over the comma-separated pieces.
pub add_entry : Text → Parsed → Parsed
unfolding add_unless_listed
add_entry raw (kept, dropped) =
    let entry = trim raw in
    if is_empty entry then (kept, dropped) else elim (relay_entry_problem entry) [
      | none ↦ add_unless_listed entry (kept, dropped)
      | some why ↦ (kept, dropped ++ (entry, why) ∷ [])
    ]

pub add_entries : List Text → Parsed → Parsed
unfolding add_entry
add_entries [] acc = acc
add_entries (raw ∷ rest) acc = add_entries rest (add_entry raw acc)

unfoldable pub parse_relay_list : Text → Parsed
unfolding add_entries
parse_relay_list list = add_entries (split b',' list) ([], [])
