-- ===== src/Hbbr/Session/Delivery.antt =====
-- What a session of `relay` of src/relay_server.rs delivers, and what it counts.
use mathlib.Core.List.{append_assoc, append-nil}
use rustdesk_server.Prelude.{
  ℕ, ◌≤◌, ◌≡◌, refl, ◌⊎◌, inl, inr, Bool, true, false, Option, List, [], ◌∷◌, ◌++◌, arith, ltb,
  if◌then◌else◌, Bool-cases, is_empty_list,
}
use rustdesk_server.Clock.{elapsed_ms, elapsed_secs}
use rustdesk_server.Hbbr.Pairing.{Usage}
use rustdesk_server.Hbbr.Session.{
  Side, stream, peer, other, Meter, Limits, Input, received, gone, tick, Action, consume_slow,
  consume_single, consume_total, send, limit_and_send, count, account, Turn, ends, goes_on, settle,
  turn, Round, continue_with, relay,
}

unfoldable pub same_side : Side → Side → Bool
same_side stream stream = true
same_side stream peer = false
same_side peer stream = false
same_side peer peer = true

-- The bytes sent to a side.
unfoldable pub sent_to : Side → List Action → List ℕ
sent_to s [] = []
sent_to s (consume_slow n ∷ acts) = sent_to s acts
sent_to s (consume_single n ∷ acts) = sent_to s acts
sent_to s (consume_total n ∷ acts) = sent_to s acts
sent_to s (send t bytes ∷ acts) =
    let rest = sent_to s acts in if same_side t s then bytes ++ rest else rest

got : Side → Input → List ℕ
got s (received from bytes sent) = if same_side from s then bytes else []
got s (gone from) = []
got s tick = []

-- The bytes received from a side.
unfoldable pub received_from : Side → List Round → List ℕ
unfolding got
received_from s [] = []
received_from s (r ∷ rs) = got s r.input ++ received_from s rs

sent_to-append :
    (s : Side) (acts bs : List Action) → sent_to s (acts ++ bs) ≡ sent_to s acts ++ sent_to s bs
unfolding sent_to
sent_to-append s [] bs = refl
sent_to-append s (consume_slow n ∷ acts) bs = sent_to-append s acts bs
sent_to-append s (consume_single n ∷ acts) bs = sent_to-append s acts bs
sent_to-append s (consume_total n ∷ acts) bs = sent_to-append s acts bs
sent_to-append s (send t bytes ∷ acts) bs =
    ground (arith, sent_to-append s acts bs, append_assoc bytes (sent_to s acts) (sent_to s bs))

sent_to-limit_and_send :
    (s from : Side) (m : Meter) (bytes : List ℕ)
    → sent_to s (limit_and_send m from bytes) ≡ (if same_side from (other s) then bytes else [])
unfolding sent_to limit_and_send other same_side
sent_to-limit_and_send stream stream m [] = ground arith
sent_to-limit_and_send stream peer m [] = ground arith
sent_to-limit_and_send peer stream m [] = ground arith
sent_to-limit_and_send peer peer m [] = ground arith
sent_to-limit_and_send stream stream m (b ∷ bytes) = ground arith
sent_to-limit_and_send stream peer m (b ∷ bytes) = ground (arith, append-nil bytes)
sent_to-limit_and_send peer stream m (b ∷ bytes) = ground (arith, append-nil bytes)
sent_to-limit_and_send peer peer m (b ∷ bytes) = ground arith

sent_to-turn :
    (s : Side) (now : ℕ) (limits : Limits) (blocked blacked : Bool) (i : Input) (m : Meter)
    → sent_to s (turn now limits blocked blacked i m).0 ≡ got (other s) i
unfolding turn got sent_to
sent_to-turn s now limits blocked blacked (received from bytes sent) m =
    sent_to-limit_and_send s from m bytes
sent_to-turn s now limits blocked blacked (gone from) m = refl
sent_to-turn s now limits blocked blacked tick m = refl

sent_to-continue_with :
    (s : Side) (t : List Action × Turn) (k : Meter → List Action) (xs : List ℕ)
    → ((m : Meter) → (rest : List ℕ) × (xs ≡ sent_to s (k m) ++ rest))
    → (rest : List ℕ) × (sent_to s t.0 ++ xs ≡ sent_to s (continue_with t k) ++ rest)
unfolding continue_with
sent_to-continue_with s (actions, ends e) k xs h = (xs, refl)
sent_to-continue_with s (actions, goes_on m usage) k xs h =
    let (rest, e) = h m in
    (
      rest,
      ground (
        arith,
        e,
        sent_to-append s actions (k m),
        append_assoc (sent_to s actions) (sent_to s (k m)) rest,
      ),
    )

-- Whatever happens in a session, what it sends to a side is a beginning of what it received from the
-- other side: the same bytes in the same order.
pub sent_to-relay :
    (s : Side) (limits : Limits) (rs : List Round) (m : Meter)
    → (rest : List ℕ) × (received_from (other s) rs ≡ sent_to s (relay limits rs m) ++ rest)
unfolding relay received_from sent_to
sent_to-relay s limits [] m = ([], refl)
sent_to-relay s limits (r ∷ rs) m =
    let t = turn r.now limits r.is_blocked r.is_blacked r.input m in
    let e = sent_to-turn s r.now limits r.is_blocked r.is_blacked r.input m in
    rw (← e) (
      sent_to-continue_with s t (λ m'. relay limits rs m') (received_from (other s) rs)
        (λ m'. sent_to-relay s limits rs m'))

-- The session is alive, after bytes that came at `last`: the address is not blocked, bytes can be sent
-- on, nobody leaves, and the timer never finds more than 30 seconds without bytes.
unfoldable pub IsAlive : ℕ → List Round → Type 0
IsAlive last [] = Unit
IsAlive last (r ∷ rs) =
    (r.is_blocked ≡ false)
    × (((from : Side) × (bytes : List ℕ) × (r.input ≡ received from bytes true) × IsAlive r.now rs)
        ⊎ ((r.input ≡ tick) × (elapsed_secs r.now last ≤ 30) × IsAlive last rs))

-- A turn that goes on, with the time of the last bytes after it.
GoesOn : ℕ → List Action × Turn → Type 0
GoesOn last t =
    (m : Meter) × (usage : Option Usage) × (t.1 ≡ goes_on m usage) × (m.last_recv_time ≡ last)

settled :
    (now : ℕ) (limits : Limits) (blacked : Bool) (m : Meter)
    → (m' : Meter) × (usage : Option Usage) × (settle (account now limits false blacked m)
        ≡ goes_on m' usage)
      × (m'.last_recv_time ≡ m.last_recv_time)
unfolding settle account
settled now limits blacked m = elim (Bool-cases (ltb (elapsed_ms now m.tm) 1000)) [
  | inl e ↦ rw e (_, _, refl, refl)
  | inr e ↦ rw e (_, _, refl, refl)
]

received-GoesOn :
    (now : ℕ) (limits : Limits) (blacked : Bool) (from : Side) (bytes : List ℕ) (m : Meter)
    → GoesOn now (turn now limits false blacked (received from bytes true) m)
unfolding turn count GoesOn
received-GoesOn now limits blacked from bytes m =
    let on = settled now limits blacked (count now bytes m) in
    elim (Bool-cases (is_empty_list bytes)) [ inl b ↦ rw b on | inr b ↦ rw b on ]

tick-GoesOn :
    (now : ℕ) (limits : Limits) (blacked : Bool) (m : Meter)
    → elapsed_secs now m.last_recv_time ≤ 30
    → GoesOn m.last_recv_time (turn now limits false blacked tick m)
unfolding turn GoesOn
tick-GoesOn now limits blacked m h =
    let soon : ltb 30 (elapsed_secs now m.last_recv_time) ≡ false = ground (arith, h) in
    rw soon (settled now limits blacked m)

-- As long as a session is alive, a side is sent everything that was received from the other one: the
-- address is not blocked, bytes can be sent on, neither side leaves, and whenever the timer ticks,
-- bytes came from one of them in the last 30 seconds.
pub sent_to-relay_flowing :
    (s : Side) (limits : Limits) (rs : List Round) (m : Meter)
    → IsAlive m.last_recv_time rs
    → sent_to s (relay limits rs m) ≡ received_from (other s) rs
unfolding relay received_from sent_to IsAlive continue_with GoesOn
sent_to-relay_flowing s limits [] m h = refl
sent_to-relay_flowing s limits (r ∷ rs) m (b, inl (from, bytes, i, alive)) =
    let (m', usage, e, last) = received-GoesOn r.now limits r.is_blacked from bytes m in
    let t = turn r.now limits r.is_blocked r.is_blacked r.input m in
    let e' : t.1 ≡ goes_on m' usage = rw (b, i) e in
    let f = sent_to-turn s r.now limits r.is_blocked r.is_blacked r.input m in
    let rec = sent_to-relay_flowing s limits rs m' (rw last alive) in
    ground (arith, e', f, rec, sent_to-append s t.0 (relay limits rs m'))
sent_to-relay_flowing s limits (r ∷ rs) m (b, inr (i, soon, alive)) =
    let (m', usage, e, last) = tick-GoesOn r.now limits r.is_blacked m soon in
    let t = turn r.now limits r.is_blocked r.is_blacked r.input m in
    let e' : t.1 ≡ goes_on m' usage = rw (b, i) e in
    let f = sent_to-turn s r.now limits r.is_blocked r.is_blacked r.input m in
    let rec = sent_to-relay_flowing s limits rs m' (rw last alive) in
    ground (arith, e', f, rec, sent_to-append s t.0 (relay limits rs m'))
