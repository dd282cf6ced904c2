-- ===== src/Hbbs/Websocket/Pushes.antt =====
-- Messages that are pushed to a websocket, and that the loop in src/rendezvous_server.rs does not close
-- it while they come.
use rustdesk_server.Prelude.{
  ℕ, zero, suc, ◌+◌, ◌≤◌, ◌<◌, ◌≡◌, refl, ap, ◌∙◌, Bool, true, List, [], ◌∷◌, arith, leb, max,
  length,
}
use rustdesk_server.Hbbs.Websocket.{
  poll_ms, Event, message, pushed, State, End, waiting, on_event, at, go_on, run, enough,
}
use rustdesk_server.Hbbs.Websocket.Idle.{run_event}

module _ (Msg Bytes World : Type 0) (handle : ℕ → Bytes → World → Bool × World) where
  abbrev Loop : Type 0
  Loop = State Msg Bytes World handle

  abbrev Comes : Type 0
  Comes = ℕ × Event Msg Bytes World handle

  -- Messages that are pushed, each at its time.
  unfoldable pub pushes : List (ℕ × Msg) → List Comes
  pushes [] = []
  pushes ((t, m) ∷ ms) = (t, pushed m) ∷ pushes ms

  -- From a time on, they come no further apart than the interval at which the loop looks at the time of
  -- the last frame.
  unfoldable pub IsDense : ℕ → ℕ → List (ℕ × Msg) → Type 0
  IsDense timeout now [] = Unit
  IsDense timeout now ((t, m) ∷ ms) = (now ≤ t) × (t ≤ now + poll_ms timeout) × IsDense timeout t ms

  -- The time of the last one.
  unfoldable pub last_time : ℕ → List (ℕ × Msg) → ℕ
  last_time now [] = now
  last_time now ((t, m) ∷ ms) = last_time t ms

  enough-length :
      (timeout : ℕ) (ms : List (ℕ × Msg))
      → length ms < enough Msg Bytes World handle timeout (pushes ms)
  unfolding enough pushes
  enough-length timeout [] = omega arith
  enough-length timeout ((t, m) ∷ ms) = omega (arith, enough-length timeout ms)

  -- Open at a time, with the last frame of another time.
  IsOpen : ℕ → ℕ → End Msg Bytes World handle → Type 0
  IsOpen now last e = (s : Loop) × (e ≡ waiting s) × (s.now ≡ now) × (s.last_seen ≡ last)

  run-pushes_from :
      (n timeout : ℕ) (ms : List (ℕ × Msg)) (s : Loop)
      → length ms < n
      → IsDense timeout s.now ms
      → IsOpen (last_time s.now ms) s.last_seen (run Msg Bytes World handle n timeout (pushes ms) s)
  unfolding run pushes on_event at go_on IsDense last_time IsOpen
  run-pushes_from zero timeout ms s l d = absurd (omega (arith, l))
  run-pushes_from (suc n) timeout [] s l d = (s, refl, refl, refl)
  run-pushes_from (suc n) timeout ((t, m) ∷ ms) s l (later, soon, d) =
      let c : leb t (s.now + poll_ms timeout) ≡ true = ground (arith, soon) in
      let top : max t s.now ≡ t = omega (arith, later) in
      let s1 : Loop = record s {
        now = max t s.now;
        written = message (max t s.now) m ∷ s.written;
      } in
      let more : length ms < n = omega (arith, l) in
      let (s', e, now, last) = run-pushes_from n timeout ms s1 more (rw top d) in
      (
        s',
        run_event Msg Bytes World handle n timeout t (pushed m) (pushes ms) s c ∙ e,
        now ∙ ap (λ x. last_time x ms) top,
        last,
      )

  -- Nothing comes from the peer of a websocket, but messages are pushed to it, no further apart than
  -- the interval at which the loop looks at the time of the last frame. Then the connection is open
  -- after the last of them, however long ago the last frame came.
  pub run-pushes :
      (timeout : ℕ) (ms : List (ℕ × Msg)) (s : Loop)
      → IsDense timeout s.now ms
      → let events = pushes ms in
        (s' : Loop) × (run Msg Bytes World handle
            (enough Msg Bytes World handle timeout events)
            timeout
            events
            s
          ≡ waiting s')
        × (s'.now ≡ last_time s.now ms)
        × (s'.last_seen ≡ s.last_seen)
  unfolding IsOpen
  run-pushes timeout ms s d = run-pushes_from _ timeout ms s (enough-length timeout ms) d
