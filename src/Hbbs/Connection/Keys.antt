-- ===== src/Hbbs/Connection/Keys.antt =====
-- The keys of a TCP connection in src/rendezvous_server.rs: when they are agreed on, and what is
-- encrypted from then on.
use rustdesk_server.Prelude.{
  ◌≡◌, ◌≢◌, refl, ◌∙◌, ◌⊎◌, inl, inr, Bool, Option, none, some, List, [], ◌∷◌, arith, Option-cases,
}
use rustdesk_server.Prelude.Text.{Text}
use rustdesk_server.Hbbs.Connection.{
  Crypto, Link, stays, on_frame, start_tcp, in_clear, handled, exchanged,
}

module _ (crypto : Crypto) (World : Type 0) (handle : Text → World → Bool × World) where
  open crypto use {SecretKey, Key, Encrypt, dec, new, decode, keys_of}

  abbrev Conn : Type 0
  Conn = Link crypto World handle

  -- One frame that leaves the connection open.
  pub data Step : Conn → Conn → Type 0 where
    step :
        {l l' : Conn} → (bytes : Text) → on_frame crypto World handle bytes l ≡ stays l' → Step l l'

  pub data Reach (l : Conn) : Conn → Type 0 where
    here : Reach l l
    next : {m n : Conn} → Reach l m → Step m n → Reach l n

  Paired : Conn → Type 0
  Paired l =
      ((l.recv_encrypt ≡ none) × (l.sink_key ≡ none))
      ⊎ ((e : Encrypt) × (k : Key) × (l.recv_encrypt ≡ some e) × (l.sink_key ≡ some k))

  -- Both directions are encrypted or neither, and none while the handshake is not over.
  unfoldable pub IsPaired : Conn → Type 0
  unfolding Paired
  IsPaired l = ((l.handshake_sk ≡ none) ⊎ (l.sink_key ≡ none)) × Paired l

  record SameKeys (l l' : Conn) : Type 0 where
    handshake : l'.handshake_sk ≡ l.handshake_sk
    recv : l'.recv_encrypt ≡ l.recv_encrypt
    sink : l'.sink_key ≡ l.sink_key

  handled-SameKeys :
      (bytes : Text) (l l' : Conn) → handled crypto World handle bytes l ≡ stays l' → SameKeys l l'
  unfolding handled
  handled-SameKeys bytes l l' h = record {
    handshake = ground (arith, h);
    recv = ground (arith, h);
    sink = ground (arith, h);
  }

  -- An exchange that succeeds gives a key to both directions.
  exchanged-keys :
      (keys : List Text) (sk : SecretKey) (l l' : Conn)
      → exchanged crypto World handle keys sk l ≡ stays l'
      → (l'.handshake_sk ≡ l.handshake_sk)
        × ((k : Key) × (l'.recv_encrypt ≡ some (new k)) × (l'.sink_key ≡ some k))
  unfolding exchanged
  exchanged-keys [] sk l l' h = ground (arith, h)
  exchanged-keys (a ∷ []) sk l l' h = ground (arith, h)
  exchanged-keys (a ∷ b ∷ []) sk l l' h = elim (Option-cases (decode b a sk)) [
    | inl e ↦ ground (arith, e, h)
    | inr (k, e) ↦ (ground (arith, e, h), (k, ground (arith, e, h), ground (arith, e, h)))
  ]
  exchanged-keys (a ∷ b ∷ c ∷ r) sk l l' h = ground (arith, h)

  -- The keys stay, or a handshake that was open is finished and gives them.
  Keyed : Conn → Conn → Type 0
  Keyed l l' =
      ((l'.recv_encrypt ≡ l.recv_encrypt) × (l'.sink_key ≡ l.sink_key))
      ⊎ ((l.handshake_sk ≢ none)
          × ((k : Key) × (l'.recv_encrypt ≡ some (new k)) × (l'.sink_key ≡ some k)))

  in_clear-Keyed :
      (bytes : Text) (l l' : Conn)
      → in_clear crypto World handle bytes l ≡ stays l'
      → (l'.handshake_sk ≡ none) × Keyed l l'
  unfolding in_clear Keyed
  in_clear-Keyed bytes l l' h = elim (Option-cases l.handshake_sk) [
    | inl e ↦
        let same = handled-SameKeys bytes l l' (ground (arith, e, h)) in
        (same.handshake ∙ e, inl (same.recv, same.sink))
    | inr (sk, e) ↦
        let spent : Conn = record l { handshake_sk = none } in
        elim (Option-cases (keys_of bytes)) [
          | inl n ↦
              let same = handled-SameKeys bytes spent l' (ground (arith, e, n, h)) in
              (same.handshake, inl (same.recv, same.sink))
          | inr (keys, n) ↦
              let (hs, got) = exchanged-keys keys sk spent l' (ground (arith, e, n, h)) in
              (hs, inr ((λ q. ground (arith, e, q)), got))
        ]
  ]

  on_frame-IsPaired :
      (bytes : Text) (l l' : Conn)
      → IsPaired l
      → on_frame crypto World handle bytes l ≡ stays l'
      → IsPaired l'
        × (l'.handshake_sk ≡ none)
        × ((l.handshake_sk ≢ none) ⊎ (l'.sink_key ≡ l.sink_key))
  unfolding on_frame IsPaired Paired Keyed
  on_frame-IsPaired bytes l l' p h = elim (Option-cases l.recv_encrypt) [
    | inl e ↦
        let (hs, keyed) = in_clear-Keyed bytes l l' (ground (arith, e, h)) in
        elim keyed [
          | inl (r, s) ↦
              let both : Paired l' = elim p.1 [
                | inl (a, b) ↦ inl (r ∙ a, s ∙ b)
                | inr (e', k, a, b) ↦ inr (e', k, r ∙ a, s ∙ b)
              ] in
              ((inl hs, both), hs, inr s)
          | inr (unspent, (k, r, s)) ↦ ((inl hs, inr (new k, k, r, s)), hs, inl unspent)
        ]
    | inr (c, e) ↦ elim (Option-cases (dec c bytes)) [
      | inl d ↦ ground (arith, e, d, h)
      | inr ((plain, c'), d) ↦
          let l1 : Conn = record l { recv_encrypt = some c' } in
          let (hs, keyed) = in_clear-Keyed plain l1 l' (ground (arith, e, d, h)) in
          elim keyed [
            | inl (r, s) ↦
                let both : Paired l' = elim p.1 [
                  | inl (a, b) ↦ ground (arith, a, e)
                  | inr (e', k, a, b) ↦ inr (c', k, r, s ∙ b)
                ] in
                ((inl hs, both), hs, inr s)
            | inr (unspent, (k, r, s)) ↦ ((inl hs, inr (new k, k, r, s)), hs, inl unspent)
          ]
    ]
  ]

  Reach-IsPaired : {l l' : Conn} → IsPaired l → Reach l l' → IsPaired l'
  Reach-IsPaired p here = p
  Reach-IsPaired p (next r (step bytes h)) = (on_frame-IsPaired bytes _ _ (Reach-IsPaired p r) h).0

  -- A connection that waits for no handshake.
  settled_key :
      {l l' : Conn}
      → IsPaired l
      → l.handshake_sk ≡ none
      → Reach l l'
      → (l'.sink_key ≡ l.sink_key) × (l'.handshake_sk ≡ none)
  settled_key p n here = (refl, n)
  settled_key p n (next r (step bytes h)) =
      let (same, done) = settled_key p n r in
      let (paired, hs, key) = on_frame-IsPaired bytes _ _ (Reach-IsPaired p r) h in
      (elim key [ inl unspent ↦ absurd (unspent done) | inr k ↦ k ∙ same ], hs)

  start_tcp-IsPaired :
      {Secret : Type 0} (sign : Secret → Text → Text) (key : Text) (sk : Option Secret)
      (pair : Text × SecretKey) (w : World)
      → IsPaired (start_tcp crypto World handle sign key sk pair w).1
  unfolding start_tcp IsPaired Paired
  start_tcp-IsPaired sign key none pair w = (inl refl, inl (refl, refl))
  start_tcp-IsPaired sign key (some sk) (pk_b, sk_b) w = ground arith

  -- Whatever frames come over a TCP connection from its start, while it stays open: what is received is
  -- deciphered if and only if what is sent is encrypted, and neither before the handshake is over.
  pub Reach-start-IsPaired :
      {Secret : Type 0} (sign : Secret → Text → Text) (key : Text) (sk : Option Secret)
      (pair : Text × SecretKey) (w : World) (l' : Conn)
      → Reach (start_tcp crypto World handle sign key sk pair w).1 l'
      → IsPaired l'
  Reach-start-IsPaired sign key sk pair w l' r =
      Reach-IsPaired (start_tcp-IsPaired sign key sk pair w) r

  -- After the first frame over a TCP connection, whatever frames came before and come later while it
  -- stays open, the key that it encrypts with never changes: it keeps the key that the first frame
  -- gave, or stays without one.
  pub Reach-same_key :
      {Secret : Type 0} (sign : Secret → Text → Text) (key : Text) (sk : Option Secret)
      (pair : Text × SecretKey) (w : World) (l m l' : Conn)
      → Reach (start_tcp crypto World handle sign key sk pair w).1 l
      → Step l m
      → Reach m l'
      → l'.sink_key ≡ m.sink_key
  Reach-same_key sign key sk pair w l m l' before (step bytes h) after =
      let (paired, hs, same) =
        on_frame-IsPaired bytes l m (Reach-start-IsPaired sign key sk pair w l before) h in
      (settled_key paired hs after).0
