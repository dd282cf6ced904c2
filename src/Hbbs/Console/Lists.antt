-- ===== src/Hbbs/Console/Lists.antt =====
-- The console of src/rendezvous_server.rs: the commands `ip-blocker`, `ip-changes` and
-- `punch-requests`, which show lists by pages. A map is shown in the order of its entries here.
use rustdesk_server.Prelude.{
  ℕ, zero, suc, ◌+◌, ◌-◌, ◌*◌, ◌^◌, ◌++◌, Bool, false, ◌&&◌, ◌||◌, Option, none, some, List, [],
  ◌∷◌, map, ltb, leb, ◌==◌, text_eq, nat_eq, if◌then◌else◌, unwrap_or, length, take, drop,
}
use rustdesk_server.Prelude.Map
use rustdesk_server.Prelude.Map.{Map}
use rustdesk_server.Prelude.Text.{Text, text, parse_number, parse_unsigned}
use rustdesk_server.Clock.{elapsed_secs}
use rustdesk_server.Hbbs.Blocker.{Entry, IpBlockMap, ip_block_dur, day_seconds}
use rustdesk_server.Hbbs.Register.{IpChanges, ip_change_dur}
use rustdesk_server.Hbbs.PunchLog.{PunchReqEntry}

-- `x.parse::<i32>()`, as far as it is not negative; a negative number and no number are none.
unfoldable pub parse_start : Text → Option ℕ
parse_start [] = none
parse_start (c ∷ r) =
    if c == b'-'
    then (elim (parse_number r) [ none ↦ none | some zero ↦ some 0 | some (suc n) ↦ none ])
    else parse_unsigned (2 ^ 31 - 1) (c ∷ r)

-- The loop over `0..stop`, from `i` on, which shows what is not before `start`.
unfoldable pub page_from {ℓ} : {A : Type ℓ} → ℕ → ℕ → ℕ → List A → List A
page_from i start stop [] = []
page_from i start stop (x ∷ xs) =
    let rest = page_from (suc i) start stop xs in
    if ltb i stop then (if ltb i start then rest else x ∷ rest) else []

-- `start + 10` as an `i32`: past the largest it is negative, and the loop is empty.
unfoldable pub page_stop : ℕ → ℕ
page_stop start = if ltb (start + 10) (2 ^ 31) then start + 10 else 0

unfoldable pub page {ℓ} : {A : Type ℓ} → ℕ → List A → List A
unfolding page_from page_stop
page start xs = page_from 0 start (page_stop start) xs

-- A second argument "-".
unfoldable pub is_dash : List Text → Bool
is_dash [] = false
is_dash (w ∷ ws) = w == text "-"

-- An entry as it is shown: its name, unless that was asked for, and its counters with their ages.
pub record BlockRow : Type 0 where
  pub ip : Option Text
  pub count : ℕ
  pub count_age : ℕ
  pub ids : ℕ
  pub ids_age : ℕ

abbrev block_row : ℕ → Option Text → Entry → BlockRow
block_row now ip e = record {
  ip = ip;
  count = e.count;
  count_age = elapsed_secs now e.counted_at;
  ids = length e.ids;
  ids_age = elapsed_secs now e.ids_at;
}

unfoldable pub is_recent : ℕ → Entry → Bool
is_recent now e =
    leb (elapsed_secs now e.counted_at) ip_block_dur || leb (elapsed_secs now e.ids_at) day_seconds

-- Entries of which both counters are old go.
unfoldable pub sweep_blocker : ℕ → IpBlockMap → IpBlockMap
unfolding is_recent
sweep_blocker now m = Map.retain (λ ip e. is_recent now e) m

-- The number of entries, the entries shown, and the map after the command.
unfoldable pub show_block_entry : ℕ → Text → Bool → IpBlockMap → ℕ × List BlockRow × IpBlockMap
show_block_entry now ip remove m =
    let rows : List BlockRow = elim (Map.get ip m) [
      | none ↦ []
      | some e ↦ block_row now none e ∷ []
    ] in
    (length m, rows, if remove then Map.remove ip m else m)

unfoldable pub show_block_page : ℕ → ℕ → IpBlockMap → ℕ × List BlockRow × IpBlockMap
unfolding page
show_block_page now start m =
    (length m, map (λ (x : Text × Entry). block_row now (some x.0) x.1) (page start m), m)

unfoldable pub ip_blocker_command : ℕ → List Text → IpBlockMap → ℕ × List BlockRow × IpBlockMap
unfolding show_block_entry show_block_page sweep_blocker parse_start is_dash
ip_blocker_command now [] m = show_block_page now 0 (sweep_blocker now m)
ip_blocker_command now (arg ∷ rest) m = elim (parse_start arg) [
  | some start ↦ show_block_page now start (sweep_blocker now m)
  | none ↦ show_block_entry now arg (is_dash rest) (sweep_blocker now m)
]

-- The age and the addresses of an id.
pub record ChangeRow : Type 0 where
  pub id : Option Text
  pub age : ℕ
  pub ips : Map Text ℕ

abbrev change_row : ℕ → Option Text → ℕ × Map Text ℕ → ChangeRow
change_row now id (tm, ips) = record { id = id; age = elapsed_secs now tm; ips = ips }

-- Ids that were seen with one address only, or not in six minutes, go.
unfoldable pub sweep_changes : ℕ → IpChanges → IpChanges
sweep_changes now m =
    Map.retain
      (λ id (v : ℕ × Map Text ℕ).
        ltb (elapsed_secs now v.0) (ip_change_dur * 2) && ltb 1 (length v.1))
      m

show_change_entry : ℕ → Text → Bool → IpChanges → List ChangeRow × IpChanges
show_change_entry now id remove m =
    let rows : List ChangeRow = elim (Map.get id m) [
      | none ↦ []
      | some v ↦ change_row now none v ∷ []
    ] in
    (rows, if remove then Map.remove id m else m)

show_change_page : ℕ → ℕ → IpChanges → List ChangeRow
unfolding page
show_change_page now start m =
    map (λ (x : Text × (ℕ × Map Text ℕ)). change_row now (some x.0) x.1) (page start m)

-- A number past ten millions is an id as well as a start.
unfoldable pub ip_changes_command : ℕ → List Text → IpChanges → ℕ × List ChangeRow × IpChanges
unfolding show_change_entry show_change_page sweep_changes parse_start is_dash
ip_changes_command now [] m =
    let swept = sweep_changes now m in (length swept, show_change_page now 0 swept, swept)
ip_changes_command now (arg ∷ rest) m =
    let swept = sweep_changes now m in
    let (rows, left) = show_change_entry now arg (is_dash rest) swept in
    elim (parse_start arg) [
      | none ↦ (length swept, rows, left)
      | some start ↦
          if leb start 10000000
          then (length swept, show_change_page now start swept, swept)
          else (length swept, rows ++ show_change_page now start left, left)
    ]

number_or : ℕ → List Text → ℕ
number_or default [] = default
number_or default (w ∷ ws) = unwrap_or (parse_unsigned (2 ^ 64 - 1) w) default

unfoldable pub page_size : List Text → ℕ
unfolding number_or
page_size args = elim (number_or 10 args) [ zero ↦ 10 | suc n ↦ suc n ]

-- The entries shown, with their ages, and the log after the command.
unfoldable pub punch_requests_command :
    ℕ → List Text → List PunchReqEntry → List (ℕ × PunchReqEntry) × List PunchReqEntry
unfolding page_size number_or
punch_requests_command now args log =
    let rest = drop 1 args in
    if is_dash args then ([], []) else (
      map (λ (e : PunchReqEntry). (elapsed_secs now e.tm, e))
          (take (page_size rest) (drop (number_or 0 args) log)),
      log,
    )
