-- ===== src/Hbbs/Blocker.antt =====
-- `check_ip_blocker` of src/rendezvous_server.rs: how often, and for how many ids, one address may
-- register.
pub mod Rate
use rustdesk_server.Prelude.{
  ℕ, ◌+◌, ◌*◌, ◌≤◌, ◌<◌, ◌≡◌, Bool, true, false, not, ◌&&◌, Option, none, some, List, [], ◌∷◌,
  arith, ltb, if◌then◌else◌, ◌==◌, text_eq, length, contains,
}
use rustdesk_server.Prelude.Map
use rustdesk_server.Prelude.Map.{Map}
use rustdesk_server.Prelude.Text.{Text}
use rustdesk_server.Clock.{elapsed_secs}

abbrev pub ip_block_dur : ℕ
ip_block_dur = 60

abbrev pub day_seconds : ℕ
day_seconds = 3600 * 24

-- How many registrations and when the last was; which ids and when the last was.
pub record Entry : Type 0 where
  pub count : ℕ
  pub counted_at : ℕ
  pub ids : List Text
  pub ids_at : ℕ

abbrev pub IpBlockMap : Type 0
IpBlockMap = Map Text Entry

-- The second counter, of the ids. Whether the id is new is asked before a day-old set is cleared.
unfoldable pub count_id : ℕ → Text → Entry → Bool × Entry
count_id now id e =
    let is_new = not (contains id e.ids) in
    let old = ltb day_seconds (elapsed_secs now e.ids_at) in
    let ids = if old then [] else e.ids in
    if not old && ltb 300 (length e.ids)
    then (not is_new, e)
    else (true, record e { ids = if is_new then id ∷ ids else ids; ids_at = now })

-- The first counter, of the registrations; `none` refuses.
unfoldable pub count_call : ℕ → Entry → Option Entry
count_call now e =
    let old = ltb ip_block_dur (elapsed_secs now e.counted_at) in
    if not old && ltb 30 e.count
    then none
    else some (record e { count = (if old then 0 else e.count) + 1; counted_at = now })

unfoldable pub check_ip_blocker : ℕ → Text → Text → IpBlockMap → Bool × IpBlockMap
unfolding count_id count_call
check_ip_blocker now ip id m = elim (Map.get ip m) [
  | none ↦ (true, Map.insert ip (record { count = 0; counted_at = now; ids = []; ids_at = now }) m)
  | some e ↦ elim (count_call now e) [
    | none ↦ (false, m)
    | some e1 ↦ let (allowed, e2) = count_id now id e1 in (allowed, Map.insert ip e2 m)
  ]
]
