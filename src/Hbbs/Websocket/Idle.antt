-- ===== src/Hbbs/Websocket/Idle.antt =====
-- Which websockets the loop in src/rendezvous_server.rs closes as idle.
use rustdesk_server.Prelude.{
  ℕ, zero, suc, ◌+◌, ◌≤◌, ◌<◌, ◌≡◌, ◌≢◌, refl, sym, ◌∙◌, ◌⊎◌, Bool, true, false, none, some, List,
  [], ◌∷◌, arith, leb, Bool-cases, inl, inr, All,
}
use rustdesk_server.Hbbs.Websocket.{
  Why, idle, poll_ms, Event, pushed, frame, peer_gone, no_sender, State, End, ended, waiting,
  still_running, on_event, on_silence, at, go_on, run,
}
use rustdesk_server.Hbbs.Websocket.Ending.{IsTimed, on_event-now, on_silence-now, at-IsTimed}

module _ (Msg Bytes World : Type 0) (handle : ℕ → Bytes → World → Bool × World) where
  abbrev Loop : Type 0
  Loop = State Msg Bytes World handle

  abbrev Outcome : Type 0
  Outcome = End Msg Bytes World handle

  abbrev Comes : Type 0
  Comes = ℕ × Event Msg Bytes World handle

  -- The events come in the order of their times.
  unfoldable pub Ascending : List Comes → Type 0
  Ascending [] = Unit
  Ascending (x ∷ xs) = All (λ (y : Comes). x.0 ≤ y.0) xs × Ascending xs

  unfoldable pub is_frame : Event Msg Bytes World handle → Bool
  is_frame (frame b) = true
  is_frame (pushed m) = false
  is_frame peer_gone = false
  is_frame no_sender = false

  -- No frame, or a frame from at least `timeout` before `now`, or later than `now`.
  unfoldable pub NotWithin : ℕ → ℕ → Comes → Type 0
  NotWithin timeout now (t, e) = (is_frame e ≡ false) ⊎ (t + timeout ≤ now) ⊎ (now < t)

  pub go_on-cases :
      (e : Outcome) (loop : Loop → Outcome) (why : Why) (s' : Loop)
      → go_on Msg Bytes World handle e loop ≡ ended why s'
      → (e ≡ ended why s') ⊎ ((s1 : Loop) × (e ≡ still_running s1) × (loop s1 ≡ ended why s'))
  unfolding go_on
  go_on-cases (ended w s) loop why s' h = inl h
  go_on-cases (waiting s) loop why s' h = inl h
  go_on-cases (still_running s) loop why s' h = inr (s, refl, h)

  on_event-idle :
      (e : Event Msg Bytes World handle) (s s' : Loop)
      → on_event Msg Bytes World handle e s ≢ ended idle s'
  unfolding on_event
  on_event-idle (pushed m) s s' h = ground (arith, h)
  on_event-idle (frame none) s s' h = ground (arith, h)
  on_event-idle (frame (some b)) s s' h = ground (arith, h)
  on_event-idle peer_gone s s' h = ground (arith, h)
  on_event-idle no_sender s s' h = ground (arith, h)

  -- A frame is seen at once; nothing makes the last frame earlier.
  on_event-seen :
      (e : Event Msg Bytes World handle) (s s' : Loop)
      → IsTimed Msg Bytes World handle s
      → on_event Msg Bytes World handle e s ≡ still_running s'
      → (s.last_seen ≤ s'.last_seen) × ((is_frame e ≡ false) ⊎ (s'.last_seen ≡ s.now))
  unfolding on_event IsTimed is_frame
  on_event-seen (pushed m) s s' t h = ground (arith, t, h)
  on_event-seen (frame none) s s' t h = ground (arith, t, h)
  on_event-seen (frame (some b)) s s' t h = ground (arith, t, h)
  on_event-seen peer_gone s s' t h = ground (arith, h)
  on_event-seen no_sender s s' t h = ground (arith, h)

  on_silence-idle :
      (timeout : ℕ) (s s' : Loop)
      → IsTimed Msg Bytes World handle s
      → on_silence Msg Bytes World handle timeout s ≡ ended idle s'
      → (s.last_seen + timeout ≤ s'.now) × (s'.now ≡ s.now)
  unfolding on_silence IsTimed
  on_silence-idle timeout s s' t h = ground (arith, t, h)

  later-NotWithin :
      (timeout now t : ℕ) (xs : List Comes)
      → now < t
      → All (λ (y : Comes). t ≤ y.0) xs
      → All (NotWithin timeout now) xs
  unfolding NotWithin
  later-NotWithin timeout now t [] l h = tt
  later-NotWithin timeout now t ((w, e) ∷ xs) l h =
      (inr (inr (omega (arith, l, h.0))), later-NotWithin timeout now t xs l h.1)

  -- What the loop has when it ends as idle.
  Late : ℕ → List Comes → Loop → Loop → Type 0
  Late timeout events s s' =
      (s.last_seen + timeout ≤ s'.now) × All (NotWithin timeout s'.now) events

  -- The end of the next wait.
  unfoldable pub wait : ℕ → Loop → Loop
  wait timeout s = at Msg Bytes World handle (s.now + poll_ms timeout) s

  pub run_event :
      (n timeout w : ℕ) (e : Event Msg Bytes World handle) (rest : List Comes) (s : Loop)
      → leb w (s.now + poll_ms timeout) ≡ true
      → run Msg Bytes World handle (suc n) timeout ((w, e) ∷ rest) s
        ≡ go_on Msg Bytes World handle
            (on_event Msg Bytes World handle e (at Msg Bytes World handle w s))
            (run Msg Bytes World handle n timeout rest)
  unfolding run
  run_event n timeout w e rest s c = rw c refl

  pub run-wait :
      (n timeout w : ℕ) (e : Event Msg Bytes World handle) (rest : List Comes) (s : Loop)
      → leb w (s.now + poll_ms timeout) ≡ false
      → run Msg Bytes World handle (suc n) timeout ((w, e) ∷ rest) s
        ≡ go_on Msg Bytes World handle
            (on_silence Msg Bytes World handle timeout (wait timeout s))
            (run Msg Bytes World handle n timeout ((w, e) ∷ rest))
  unfolding run wait
  run-wait n timeout w e rest s c = rw c refl

  wait-IsTimed :
      (timeout : ℕ) (s : Loop)
      → IsTimed Msg Bytes World handle s
      → IsTimed Msg Bytes World handle (wait timeout s)
  unfolding wait
  wait-IsTimed timeout s t = at-IsTimed Msg Bytes World handle (s.now + poll_ms timeout) s t

  -- A loop that waits in vain, and goes on.
  waited :
      (timeout : ℕ) (s s1 : Loop)
      → IsTimed Msg Bytes World handle s
      → on_silence Msg Bytes World handle timeout (wait timeout s) ≡ still_running s1
      → IsTimed Msg Bytes World handle s1 × (s1.last_seen ≡ s.last_seen)
  unfolding wait at IsTimed
  waited timeout s s1 t h =
      let (now, last, small) =
        on_silence-now Msg Bytes World handle timeout (wait timeout s) s1 h in
      (omega (arith, now, last, t), last)

  run-Late :
      (n timeout : ℕ) (events : List Comes) (s s' : Loop)
      → IsTimed Msg Bytes World handle s
      → Ascending events
      → run Msg Bytes World handle n timeout events s ≡ ended idle s'
      → Late timeout events s s'
  unfolding run go_on Late Ascending NotWithin at wait
  run-Late zero timeout events s s' t a h = ground (arith, h)
  run-Late (suc n) timeout [] s s' t a h = ground (arith, h)
  run-Late (suc n) timeout ((w, e) ∷ rest) s s' t a h =
      elim (Bool-cases (leb w (s.now + poll_ms timeout))) [
        | inl c ↦ elim (go_on-cases _ _ idle s' (sym (run_event n timeout w e rest s c) ∙ h)) [
          | inl e' ↦ absurd (on_event-idle e (at Msg Bytes World handle w s) s' e')
          | inr (s1, e', h') ↦
              let timed = at-IsTimed Msg Bytes World handle w s t in
              let (now, t') = on_event-now Msg Bytes World handle e _ s1 timed e' in
              let (grows, seen) = on_event-seen e _ s1 timed e' in
              let (late, all) = run-Late n timeout rest s1 s' t' a.1 h' in
              (
                omega (arith, grows, late),
                (elim seen [ inl f ↦ inl f | inr l ↦ inr (inl (omega (arith, l, late))) ], all),
              )
        ]
        | inr c ↦ elim (go_on-cases _ _ idle s' (sym (run-wait n timeout w e rest s c) ∙ h)) [
          | inl e' ↦
              let (late, now) = on_silence-idle timeout _ s' (wait-IsTimed timeout s t) e' in
              let out : s'.now < w = ground (arith, c, now) in
              (late, (inr (inr out), later-NotWithin timeout s'.now w rest out a.0))
          | inr (s1, e', h') ↦
              let (t', last) = waited timeout s s1 t e' in
              let (late, all) = run-Late n timeout ((w, e) ∷ rest) s1 s' t' a h' in
              (omega (arith, last, late), all)
        ]
      ]

  -- What comes to a websocket comes in the order of its times. If the loop ends because the
  -- connection is idle, then no frame came within the timeout before: every frame came at least the
  -- timeout before the end, or after the end.
  pub run_idle :
      (n timeout : ℕ) (events : List Comes) (s s' : Loop)
      → s.last_seen ≤ s.now
      → Ascending events
      → run Msg Bytes World handle n timeout events s ≡ ended idle s'
      → All (NotWithin timeout s'.now) events
  unfolding IsTimed Late
  run_idle n timeout events s s' t a h = (run-Late n timeout events s s' t a h).1
