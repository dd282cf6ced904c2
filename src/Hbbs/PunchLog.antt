-- ===== src/Hbbs/PunchLog.antt =====
-- `record_punch_req` of src/rendezvous_server.rs: the bounded log of punch-hole requests, oldest
-- first.
use mathlib.Core.List.{reverse, reverse-append}
use rustdesk_server.Prelude.{
  ℕ, zero, suc, ◌+◌, ◌≤◌, ◌<◌, ◌≡◌, refl, inl, inr, Bool, true, false, ◌&&◌, none, some, List, [],
  ◌∷◌, ◌++◌, arith, ltb, leb, if◌then◌else◌, ◌==◌, text_eq, beq_refl, length, length-append, take,
  find, drop, Bool-cases,
}
use rustdesk_server.Prelude.Text.{Text}
use rustdesk_server.Clock.{elapsed_secs}

pub record PunchReqEntry : Type 0 where
  pub tm : ℕ
  pub from_ip : Text
  pub to_ip : Text
  pub to_id : Text

abbrev pub dedupe_sec : ℕ
dedupe_sec = 60

same_request : Text → Text → PunchReqEntry → Bool
same_request from_ip to_id e = e.from_ip == from_ip && e.to_id == to_id

-- Only the recent tail is checked; the latest entry of the same request decides.
unfoldable pub is_duplicate : ℕ → Text → Text → List PunchReqEntry → Bool
unfolding same_request
is_duplicate now from_ip to_id log =
    elim (find (same_request from_ip to_id) (take 30 (reverse log))) [
      | none ↦ false
      | some e ↦ ltb (elapsed_secs now e.tm) dedupe_sec
    ]

-- `pop_front`, if the log is full.
evict : ℕ → List PunchReqEntry → List PunchReqEntry
evict limit log = if leb limit (length log) then drop 1 log else log

unfoldable pub record_punch_req :
    ℕ → ℕ → Text → Text → Text → List PunchReqEntry → List PunchReqEntry
unfolding is_duplicate evict
record_punch_req zero now from_ip to_ip to_id log = log
record_punch_req (suc limit) now from_ip to_ip to_id log =
    if is_duplicate now from_ip to_id log
    then log
    else evict (suc limit) log
      ++ record { tm = now; from_ip = from_ip; to_ip = to_ip; to_id = to_id } ∷ []

length-evict :
    (limit : ℕ) (log : List PunchReqEntry)
    → 0 < limit
    → length log ≤ limit
    → length (evict limit log) + 1 ≤ limit
unfolding evict
length-evict limit [] h k = ground arith
length-evict limit (e ∷ log) h k = ground arith

-- A log of at most MAX_PUNCH_REQUESTS entries has at most as many after a request is recorded.
pub record_punch_req_bound :
    (limit now : ℕ) (from_ip to_ip to_id : Text) (log : List PunchReqEntry)
    → length log ≤ limit
    → length (record_punch_req limit now from_ip to_ip to_id log) ≤ limit
unfolding record_punch_req
record_punch_req_bound zero now from_ip to_ip to_id log h = h
record_punch_req_bound (suc limit) now from_ip to_ip to_id log h =
    elim (Bool-cases (is_duplicate now from_ip to_id log)) [
      | inl p ↦ rw p h
      | inr p ↦
          let e : PunchReqEntry = record {
            tm = now;
            from_ip = from_ip;
            to_ip = to_ip;
            to_id = to_id;
          } in
          rw p (
            omega (
              arith,
              length-evict (suc limit) log (omega arith) h,
              length-append (evict (suc limit) log) (e ∷ []),
            ))
    ]

latest_is_duplicate :
    (now later : ℕ) (from_ip to_ip to_id : Text) (log : List PunchReqEntry)
    → later < now + 60000
    → is_duplicate later from_ip to_id
        (log ++ record { tm = now; from_ip = from_ip; to_ip = to_ip; to_id = to_id } ∷ [])
      ≡ true
unfolding is_duplicate same_request
latest_is_duplicate now later from_ip to_ip to_id log h =
    let e : PunchReqEntry = record { tm = now; from_ip = from_ip; to_ip = to_ip; to_id = to_id } in
    ground (arith, reverse-append log (e ∷ []), beq_refl from_ip, beq_refl to_id)

-- When a request is no duplicate and is recorded, the same request again less than a minute later
-- adds nothing, wherever the target is by then.
pub record_punch_req_again :
    (limit now later : ℕ) (from_ip to_ip to_ip' to_id : Text) (log : List PunchReqEntry)
    → later < now + 60000
    → is_duplicate now from_ip to_id log ≡ false
    → let log' = record_punch_req limit now from_ip to_ip to_id log in
      record_punch_req limit later from_ip to_ip' to_id log' ≡ log'
unfolding record_punch_req
record_punch_req_again zero now later from_ip to_ip to_ip' to_id log h d = refl
record_punch_req_again (suc limit) now later from_ip to_ip to_ip' to_id log h d =
    rw d (rw (latest_is_duplicate now later from_ip to_ip to_id (evict (suc limit) log) h) refl)
