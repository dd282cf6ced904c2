-- ===== src/Hbbr/Session.antt =====
-- `relay` of src/relay_server.rs: the session of two paired connections, one turn of its loop at a
-- time. `usize` is a 64 bit number.
pub mod Delivery
pub mod Accounting
use rustdesk_server.Prelude.{
  ℕ, ◌+◌, ◌-◌, ◌*◌, ◌/◌, ◌%◌, ◌^◌, ◌≤◌, ◌<◌, ◌≡◌, refl, ◌⊎◌, inl, inr, Bool, true, false, ◌&&◌,
  ◌||◌, not, Option, none, some, List, [], ◌∷◌, ◌++◌, arith, ltb, leb, if◌then◌else◌, length,
  Bool-cases, ap, ◌∙◌, is_empty_list,
}
use rustdesk_server.Clock.{elapsed_ms, elapsed_secs}
use rustdesk_server.Hbbr.Pairing.{Usage}

-- The two connections.
pub data Side : Type 0 where
  stream peer : Side

unfoldable pub other : Side → Side
other stream = peer
other peer = stream

abbrev pub usize : ℕ → ℕ
usize n = n % 2 ^ 64

-- The variables of the loop.
pub record Meter : Type 0 where
  pub tm : ℕ
  pub elapsed : ℕ
  pub total : ℕ
  pub total_s : ℕ
  pub highest_s : ℕ
  pub downgrade : Bool
  pub blacked : Bool
  pub last_recv_time : ℕ

-- The two limits the accounting reads: DOWNGRADE_START_CHECK in milliseconds, and the threshold in
-- bits for each millisecond.
pub record Limits : Type 0 where
  pub start_check : ℕ
  pub downgrade_threshold : ℕ

-- What `select!` returns: bytes of a side, with whether sending them on works; the end of a side; a
-- tick of the timer.
pub data Input : Type 0 where
  received : Side → List ℕ → (sent : Bool) → Input
  gone : Side → Input
  tick : Input

-- What the loop does with bytes: wait for one of the session's limiters and for the total one, and
-- send to a side.
pub data Action : Type 0 where
  consume_slow consume_single consume_total : ℕ → Action
  send : Side → List ℕ → Action

unfoldable pub start : ℕ → Meter
start now = record {
  tm = now;
  elapsed = 0;
  total = 0;
  total_s = 0;
  highest_s = 0;
  downgrade = false;
  blacked = false;
  last_recv_time = now;
}

unfoldable pub limit_and_send : Meter → Side → List ℕ → List Action
limit_and_send m from bytes =
    let nb = usize (length bytes * 8) in
    (if m.blacked || m.downgrade then consume_slow nb else consume_single nb)
    ∷ consume_total nb
    ∷ (if is_empty_list bytes then [] else send (other from) bytes ∷ [])

unfoldable pub count : ℕ → List ℕ → Meter → Meter
count now bytes m =
    let nb = usize (length bytes * 8) in
    record m {
      last_recv_time = now;
      total = usize (m.total + nb);
      total_s = usize (m.total_s + nb);
    }

-- Once in a second: the lists, the speed, the usage, the downgrade. `none`: the address is blocked.
unfoldable pub account :
    ℕ → Limits → (blocked blacked : Bool) → Meter → Option (Meter × Option Usage)
account now limits blocked blacked m =
    let n = elapsed_ms now m.tm in
    if ltb n 1000
    then some (m, none)
    else if blocked
    then none
    else (let speed = m.total_s / n in
        let highest = if ltb m.highest_s speed then speed else m.highest_s in
        let elapsed = usize (m.elapsed + n) in
        let exceeds =
          ltb limits.start_check elapsed
          && not m.downgrade
          && ltb (usize (elapsed * limits.downgrade_threshold)) m.total in
        some (
          record m {
            tm = now;
            elapsed = elapsed;
            total_s = 0;
            highest_s = highest;
            downgrade = m.downgrade || exceeds;
            blacked = blacked;
          },
          some (record { elapsed = elapsed; total = m.total; highest = highest; speed = speed }),
        ))

-- How a session ends.
pub data End : Type 0 where
  closed blocked timeout send_failed : End

-- A turn ends the session or goes on, with the row that it writes to USAGE.
pub data Turn : Type 0 where
  ends : End → Turn
  goes_on : Meter → Option Usage → Turn

settle : Option (Meter × Option Usage) → Turn
settle none = ends blocked
settle (some (m, usage)) = goes_on m usage

-- One turn, with what the two lists say of the address at its end.
unfoldable pub turn :
    ℕ → Limits → (is_blocked is_blacked : Bool) → Input → Meter → List Action × Turn
unfolding settle
turn now limits is_blocked is_blacked (received from bytes sent) m = (
  limit_and_send m from bytes,
  if is_empty_list bytes || sent
      then settle (account now limits is_blocked is_blacked (count now bytes m))
      else ends send_failed,
)
turn now limits is_blocked is_blacked (gone from) m = ([], ends closed)
turn now limits is_blocked is_blacked tick m = (
  [],
  if ltb 30 (elapsed_secs now m.last_recv_time)
      then ends timeout
      else settle (account now limits is_blocked is_blacked m),
)

-- A turn with the time and the lists at its end.
pub record Round : Type 0 where
  pub now : ℕ
  pub is_blocked : Bool
  pub is_blacked : Bool
  pub input : Input

continue_with : List Action × Turn → (Meter → List Action) → List Action
continue_with (actions, ends e) k = actions
continue_with (actions, goes_on m usage) k = actions ++ k m

-- The loop over what `select!` returns, with everything that it does.
unfoldable pub relay : Limits → List Round → Meter → List Action
unfolding continue_with
relay limits [] m = []
relay limits (r ∷ rs) m =
    continue_with (turn r.now limits r.is_blocked r.is_blacked r.input m) (λ m'. relay limits rs m')
