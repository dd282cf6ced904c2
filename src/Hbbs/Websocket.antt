-- ===== src/Hbbs/Websocket.antt =====
-- The loop of a websocket in `handle_listener_inner` of src/rendezvous_server.rs. Time is in
-- milliseconds and passes while the loop waits; what the loop does takes none. What comes to the loop
-- up to some moment is a list in which it comes, each thing with its time; what comes after the last of
-- them is not known.
pub mod Ending
pub mod Idle
pub mod Pushes
pub mod Quiet
use rustdesk_server.Prelude.{
  ℕ, zero, suc, ◌+◌, ◌-◌, ◌≤◌, ◌<◌, ◌≡◌, refl, Bool, true, false, Option, none, some, List, [], ◌∷◌,
  arith, leb, min, max, if◌then◌else◌, Bool-cases, inl, inr,
}

abbrev pub ws_ping_interval_ms : ℕ
ws_ping_interval_ms = 30000

abbrev pub poll_ms : ℕ → ℕ
poll_ms idle = min ws_ping_interval_ms idle

-- Why the loop ended.
pub data Why : Type 0 where
  idle handler_refused peer_closed channel_closed : Why

-- The messages that other tasks push, the bytes of a frame, and what the handler of frames reads and
-- changes. It says whether the connection stays open.
module _ (Msg Bytes World : Type 0) (handle : ℕ → Bytes → World → Bool × World) where
  -- A frame that is not binary has no bytes for the handler.
  pub data Event : Type 0 where
    pushed : Msg → Event
    frame : Option Bytes → Event
    peer_gone no_sender : Event

  -- What the loop writes to the socket, and when.
  pub data Written : Type 0 where
    message : (at : ℕ) → Msg → Written
    ping : (at : ℕ) → Written

  pub record State : Type 0 where
    pub now : ℕ
    pub last_seen : ℕ
    pub world : World
    -- The newest first.
    pub written : List Written

  pub data End : Type 0 where
    ended : Why → State → End
    -- All that is known to come is handled, and the loop waits.
    waiting : State → End
    still_running : State → End

  -- One event, at the time in the state.
  unfoldable pub on_event : Event → State → End
  on_event (pushed m) s = still_running (record s { written = message s.now m ∷ s.written })
  on_event (frame none) s = still_running (record s { last_seen = s.now })
  on_event (frame (some bytes)) s =
      let (stays, w) = handle s.now bytes s.world in
      let s' = record s { last_seen = s.now; world = w } in
      if stays then still_running s' else ended handler_refused s'
  on_event peer_gone s = ended peer_closed s
  on_event no_sender s = ended channel_closed s

  -- Nothing came for `poll_ms`: the time in the state is the end of the wait.
  unfoldable pub on_silence : ℕ → State → End
  on_silence timeout s =
      if leb timeout (s.now - s.last_seen)
      then ended idle s
      else still_running (record s { written = ping s.now ∷ s.written })

  -- An event at `t` is handled at once, or as soon as the loop is back.
  unfoldable pub at : ℕ → State → State
  at t s = record s { now = max t s.now }

  -- One turn of `select!`: the next event, if it comes before the wait is over; what is left to come.
  unfoldable pub turn : ℕ → List (ℕ × Event) → State → End × List (ℕ × Event)
  unfolding on_event on_silence at
  turn timeout [] s = (waiting s, [])
  turn timeout ((t, e) ∷ rest) s =
      if leb t (s.now + poll_ms timeout)
      then (on_event e (at t s), rest)
      else (on_silence timeout (at (s.now + poll_ms timeout) s), (t, e) ∷ rest)

  unfoldable pub go_on : End → (State → End) → End
  go_on (ended why s) loop = ended why s
  go_on (waiting s) loop = waiting s
  go_on (still_running s) loop = loop s

  -- The loop, on fuel.
  unfoldable pub run : ℕ → ℕ → List (ℕ × Event) → State → End
  unfolding turn go_on
  run zero timeout events s = still_running s
  run (suc n) timeout events s =
      let (e, rest) = turn timeout events s in go_on e (run n timeout rest)

  -- The fuel that is enough: an event takes one turn, and silence between two events as many turns as
  -- the timeout has milliseconds at most.
  unfoldable pub enough : ℕ → List (ℕ × Event) → ℕ
  enough timeout [] = timeout + 1
  enough timeout (e ∷ events) = timeout + 2 + enough timeout events
