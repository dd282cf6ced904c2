-- ===== src/Hbbs/Websocket/Quiet.antt =====
-- When the loop in src/rendezvous_server.rs closes a websocket from which nothing comes.
use rustdesk_server.Prelude.{
  ℕ, zero, suc, ◌+◌, ◌-◌, ◌≤◌, ◌<◌, ◌≡◌, refl, ◌∙◌, Bool, false, List, ◌∷◌, arith, leb, max,
  Bool-cases, inl, inr,
}
use rustdesk_server.Hbbs.Websocket.{
  idle, ping, poll_ms, Event, State, End, ended, still_running, on_silence, at, go_on, run, enough,
}
use rustdesk_server.Hbbs.Websocket.Ending.{IsTimed, left, left_bound, enough-lt, run_silence}
use rustdesk_server.Hbbs.Websocket.Idle.{wait, run-wait}

module _ (Msg Bytes World : Type 0) (handle : ℕ → Bytes → World → Bool × World) where
  abbrev Loop : Type 0
  Loop = State Msg Bytes World handle

  abbrev Comes : Type 0
  Comes = ℕ × Event Msg Bytes World handle

  ClosesBy : ℕ → End Msg Bytes World handle → Type 0
  ClosesBy stop e = (s : Loop) × (e ≡ ended idle s) × (s.now ≤ stop)

  run_quiet_from :
      (n timeout top w : ℕ) (e : Event Msg Bytes World handle) (rest : List Comes) (s : Loop)
      → IsTimed Msg Bytes World handle s
      → s.last_seen + timeout ≤ top
      → s.now ≤ top
      → top + poll_ms timeout < w
      → left Msg Bytes World handle timeout s
          + enough Msg Bytes World handle timeout ((w, e) ∷ rest)
        ≤ n + timeout
      → ClosesBy (top + poll_ms timeout) (run Msg Bytes World handle n timeout ((w, e) ∷ rest) s)
  unfolding ClosesBy wait at on_silence go_on
  run_quiet_from zero timeout top w e rest s t l h q b =
      absurd (omega (arith, b, enough-lt Msg Bytes World handle timeout ((w, e) ∷ rest)))
  run_quiet_from (suc n) timeout top w e rest s t l h q b =
      let out : leb w (s.now + poll_ms timeout) ≡ false = ground (arith, h, q) in
      let turn = run-wait Msg Bytes World handle n timeout w e rest s out in
      let s1 = wait Msg Bytes World handle timeout s in
      elim (Bool-cases (leb timeout (s1.now - s1.last_seen))) [
        | inl c ↦ (s1, turn ∙ (rw c refl), omega (arith, h))
        | inr c ↦
            let s2 : Loop = record s1 { written = ping s1.now ∷ s1.written } in
            let stays : on_silence Msg Bytes World handle timeout s1 ≡ still_running s2 =
              rw c refl in
            let (t', b') =
              run_silence Msg Bytes World handle n timeout ((w, e) ∷ rest) s t b s2 stays in
            let (s', ends, soon) =
              run_quiet_from n timeout top w e rest s2 t' l (ground (arith, c, l)) q b' in
            (s', turn ∙ (rw c ends), soon)
      ]

  -- A websocket from which nothing comes, and to which nothing is pushed, is closed as idle: if the
  -- next event comes later than the timeout after the last frame, or than now if that is later, and
  -- one more interval of the loop after that, then the loop has ended by then.
  pub run_quiet :
      (timeout w : ℕ) (e : Event Msg Bytes World handle) (rest : List Comes) (s : Loop)
      → s.last_seen ≤ s.now
      → max s.now (s.last_seen + timeout) + poll_ms timeout < w
      → let events = (w, e) ∷ rest in
        (s' : Loop) × (run Msg Bytes World handle
            (enough Msg Bytes World handle timeout events)
            timeout
            events
            s
          ≡ ended idle s')
        × (s'.now ≤ max s.now (s.last_seen + timeout) + poll_ms timeout)
  unfolding ClosesBy IsTimed
  run_quiet timeout w e rest s t q =
      run_quiet_from _ timeout (max s.now (s.last_seen + timeout)) w e rest s t (omega arith)
        (omega arith) q (left_bound Msg Bytes World handle timeout ((w, e) ∷ rest) s)
