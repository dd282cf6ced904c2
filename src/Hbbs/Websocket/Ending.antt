-- ===== src/Hbbs/Websocket/Ending.antt =====
-- How many turns the loop of a websocket in src/rendezvous_server.rs takes.
use rustdesk_server.Prelude.{
  ℕ, zero, suc, ◌+◌, ◌-◌, ◌≤◌, ◌<◌, ◌≡◌, refl, Bool, none, some, List, [], ◌∷◌, arith, leb,
  Bool-cases, inl, inr, ◌⊎◌,
}
use rustdesk_server.Hbbs.Websocket.{
  Why, poll_ms, Event, pushed, frame, peer_gone, no_sender, State, End, ended, waiting,
  still_running, on_event, on_silence, at, go_on, run, enough,
}

module _ (Msg Bytes World : Type 0) (handle : ℕ → Bytes → World → Bool × World) where
  abbrev Loop : Type 0
  Loop = State Msg Bytes World handle

  abbrev Outcome : Type 0
  Outcome = End Msg Bytes World handle

  abbrev Events : Type 0
  Events = List (ℕ × Event Msg Bytes World handle)

  -- The time of the last frame is not in the future.
  unfoldable pub IsTimed : Loop → Type 0
  IsTimed s = s.last_seen ≤ s.now

  -- The loop has ended, or it has handled all that came and waits.
  unfoldable pub HasStopped : Outcome → Type 0
  HasStopped e = ((why : Why) × (s : Loop) × (e ≡ ended why s)) ⊎ ((s : Loop) × (e ≡ waiting s))

  -- How long the connection may still be silent.
  unfoldable pub left : ℕ → Loop → ℕ
  left timeout s = timeout - (s.now - s.last_seen)

  pub on_event-now :
      (e : Event Msg Bytes World handle) (s s' : Loop)
      → IsTimed s
      → on_event Msg Bytes World handle e s ≡ still_running s'
      → (s'.now ≡ s.now) × IsTimed s'
  unfolding on_event IsTimed
  on_event-now (pushed m) s s' t h = ground (arith, t, h)
  on_event-now (frame none) s s' t h = ground (arith, t, h)
  on_event-now (frame (some b)) s s' t h = ground (arith, t, h)
  on_event-now peer_gone s s' t h = ground (arith, h)
  on_event-now no_sender s s' t h = ground (arith, h)

  pub on_silence-now :
      (timeout : ℕ) (s s' : Loop)
      → on_silence Msg Bytes World handle timeout s ≡ still_running s'
      → (s'.now ≡ s.now) × (s'.last_seen ≡ s.last_seen) × (s.now - s.last_seen < timeout)
  unfolding on_silence
  on_silence-now timeout s s' h = ground (arith, h)

  go_on-HasStopped :
      (e : Outcome) (loop : Loop → Outcome)
      → ((s' : Loop) → e ≡ still_running s' → HasStopped (loop s'))
      → HasStopped (go_on Msg Bytes World handle e loop)
  unfolding go_on HasStopped
  go_on-HasStopped (ended why s) loop h = inl (why, s, refl)
  go_on-HasStopped (waiting s) loop h = inr (s, refl)
  go_on-HasStopped (still_running s) loop h = h s refl

  pub enough-lt :
      (timeout : ℕ) (events : Events) → timeout < enough Msg Bytes World handle timeout events
  unfolding enough
  enough-lt timeout [] = omega arith
  enough-lt timeout (e ∷ events) = omega (arith, enough-lt timeout events)

  pub run_silence :
      (n timeout : ℕ) (events : Events) (s : Loop)
      → IsTimed s
      → left timeout s + enough Msg Bytes World handle timeout events ≤ suc n + timeout
      → (s' : Loop)
      → on_silence Msg Bytes World handle timeout
          (at Msg Bytes World handle (s.now + poll_ms timeout) s)
        ≡ still_running s'
      → IsTimed s' × (left timeout s' + enough Msg Bytes World handle timeout events ≤ n + timeout)
  unfolding left IsTimed at
  run_silence n timeout events s t b s' h =
      let (now, last, small) =
        on_silence-now timeout (at Msg Bytes World handle (s.now + poll_ms timeout) s) s' h in
      (omega (arith, now, last, t), omega (arith, now, last, small, b, t))

  pub at-IsTimed : (w : ℕ) (s : Loop) → IsTimed s → IsTimed (at Msg Bytes World handle w s)
  unfolding at IsTimed
  at-IsTimed w s t = omega (arith, t)

  after_event :
      (n timeout : ℕ) (e : ℕ × Event Msg Bytes World handle) (rest : Events) (s s' : Loop)
      → left timeout s + enough Msg Bytes World handle timeout (e ∷ rest) ≤ suc n + timeout
      → left timeout s' + enough Msg Bytes World handle timeout rest ≤ n + timeout
  unfolding enough left
  after_event n timeout e rest s s' b = omega (arith, b)

  pub left_bound :
      (timeout : ℕ) (events : Events) (s : Loop)
      → left timeout s + enough Msg Bytes World handle timeout events
        ≤ enough Msg Bytes World handle timeout events + timeout
  unfolding left
  left_bound timeout events s = omega arith

  run-HasStopped_from :
      (n timeout : ℕ) (events : Events) (s : Loop)
      → IsTimed s
      → left timeout s + enough Msg Bytes World handle timeout events ≤ n + timeout
      → HasStopped (run Msg Bytes World handle n timeout events s)
  unfolding run HasStopped go_on
  run-HasStopped_from zero timeout events s t b =
      absurd (omega (arith, b, enough-lt timeout events))
  run-HasStopped_from (suc n) timeout [] s t b = inr (s, refl)
  run-HasStopped_from (suc n) timeout ((w, e) ∷ rest) s t b =
      elim (Bool-cases (leb w (s.now + poll_ms timeout))) [
        | inl c ↦ rw c (
            go_on-HasStopped _ _ (λ s' h.
              let (now, t') =
                on_event-now e (at Msg Bytes World handle w s) s' (at-IsTimed w s t) h in
              run-HasStopped_from n timeout rest s' t' (after_event n timeout (w, e) rest s s' b)))
        | inr c ↦ rw c (
            go_on-HasStopped _ _ (λ s' h.
              let (t', b') = run_silence n timeout ((w, e) ∷ rest) s t b s' h in
              run-HasStopped_from n timeout ((w, e) ∷ rest) s' t' b'))
      ]

  -- Whatever list of events comes to a websocket, its loop gets through it: after so many turns it has
  -- ended, or it has handled all of them and waits for what comes next.
  pub run-HasStopped :
      (timeout : ℕ) (events : Events) (s : Loop)
      → s.last_seen ≤ s.now
      → HasStopped (
          run Msg Bytes World handle
            (enough Msg Bytes World handle timeout events)
            timeout
            events
            s)
  unfolding IsTimed
  run-HasStopped timeout events s t =
      run-HasStopped_from (enough Msg Bytes World handle timeout events) timeout events s t
        (left_bound timeout events s)
