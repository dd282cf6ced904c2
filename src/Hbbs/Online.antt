-- ===== src/Hbbs/Online.antt =====
-- `peers_online_state` of src/rendezvous_server.rs: one bit for each peer that is asked about, the
-- most significant bit of a byte first. Whether a peer is online is asked of the peer map.
use Prim.Native.Nat.{bit_or}
use rustdesk_server.Prelude.Bytes.{set_one_bit, set_bit_byte}
use rustdesk_server.Prelude.{
  ℕ, zero, suc, ◌+◌, ◌-◌, ◌*◌, ◌/◌, ◌%◌, ◌^◌, ◌≤◌, ◌<◌, ◌≡◌, refl, inl, inr, Bool, false, ◌&&◌,
  List, [], ◌∷◌, arith, if◌then◌else◌, nat_beq, length, get_or, get_elem?, some, set, replicate,
  length-set, length-replicate, get_or-set_self, get_or-set_ne, Bool-cases, ap, ◌∙◌,
}

-- `states[i / 8] |= 0x01 << (7 - i % 8)`
set_bit : ℕ → List ℕ → List ℕ
set_bit i states = set states (i / 8) (bit_or (get_or states (i / 8) 0) (2 ^ (7 - i % 8)))

-- The loop over the peers, from index `i`.
mark_online {ℓ} : {A : Type ℓ} → (A → Bool) → ℕ → List A → List ℕ → List ℕ
unfolding set_bit
mark_online online i [] states = states
mark_online online i (p ∷ peers) states =
    mark_online online (i + 1) peers (if online p then set_bit i states else states)

unfoldable pub peers_online_state {ℓ} : {A : Type ℓ} → (A → Bool) → List A → List ℕ
unfolding mark_online
peers_online_state online peers = mark_online online 0 peers (replicate ((length peers + 7) / 8) 0)

-- Bit `i` of the answer, as a client reads it.
unfoldable pub bit_at : List ℕ → ℕ → ℕ
bit_at states i = (get_or states (i / 8) 0 / 2 ^ (7 - i % 8)) % 2

-- The bytes are bytes, and there is a bit for each of the first `n` peers.
record Fits (n : ℕ) (states : List ℕ) : Type 0 where
  room : n ≤ 8 * length states
  bytes : (k : ℕ) → get_or states k 0 < 256

set_bit-bytes :
    (i k : ℕ) (states : List ℕ)
    → ((k : ℕ) → get_or states k 0 < 256)
    → i / 8 < length states
    → get_or (set_bit i states) k 0 < 256
unfolding set_bit
set_bit-bytes i k states h l =
    let v = bit_or (get_or states (i / 8) 0) (2 ^ (7 - i % 8)) in
    elim (Bool-cases (nat_beq (i / 8) k)) [
      | inl e ↦
          let p : i / 8 ≡ k = ground arith in
          let small : v < 256 =
            set_bit_byte (get_or states (i / 8) 0) (7 - i % 8) (h (i / 8)) (omega arith) in
          rw (← p) (rw (get_or-set_self states (i / 8) v 0 l) small)
      | inr e ↦ rw (get_or-set_ne states (i / 8) k v 0 (λ p. ground arith)) (h k)
    ]

bit_at-set_bit :
    (i j : ℕ) (states : List ℕ)
    → ((k : ℕ) → get_or states k 0 < 256)
    → i / 8 < length states
    → bit_at (set_bit i states) j ≡ (if nat_beq i j then 1 else bit_at states j)
unfolding set_bit bit_at
bit_at-set_bit i j states h l =
    let v = bit_or (get_or states (i / 8) 0) (2 ^ (7 - i % 8)) in
    elim (Bool-cases (nat_beq (i / 8) (j / 8))) [
      | inl e ↦
          let p : i / 8 ≡ j / 8 = ground arith in
          let bit =
            set_one_bit (get_or states (i / 8) 0) (7 - i % 8) (7 - j % 8) (h (i / 8)) (omega arith)
              (omega arith) in
          let same : nat_beq (7 - i % 8) (7 - j % 8) ≡ nat_beq i j = ground arith in
          rw (← p) (rw (get_or-set_self states (i / 8) v 0 l) (rw (bit, same) refl))
      | inr e ↦
          let other : nat_beq i j ≡ false = ground arith in
          rw (get_or-set_ne states (i / 8) (j / 8) v 0 (λ p. ground arith), other) refl
    ]

zeros : (n k : ℕ) → get_or {A = ℕ} (replicate n 0) k 0 ≡ 0
zeros zero k = refl
zeros (suc n) zero = refl
zeros (suc n) (suc k) = zeros n k

module _ {ℓ} {A : Type ℓ} (online : A → Bool) where
  abbrev step : ℕ → A → List ℕ → List ℕ
  step i p states = if online p then set_bit i states else states

  step-Fits : (n i : ℕ) (p : A) (states : List ℕ) → i < n → Fits n states → Fits n (step i p states)
  step-Fits n i p states h f = elim (Bool-cases (online p)) [
    | inr e ↦ rw e f
    | inl e ↦
        let inside : i / 8 < length states = omega (arith, f.room) in
        let long : length (set_bit i states) ≡ length states =
          unfold set_bit in length-set states _ _ in
        rw e (record {
          room = omega (arith, f.room, long);
          bytes = λ k. set_bit-bytes i k states f.bytes inside;
        })
  ]

  bit_at-step :
      (n i j : ℕ) (p : A) (states : List ℕ)
      → i < n
      → Fits n states
      → bit_at (step i p states) j ≡ (if online p && nat_beq i j then 1 else bit_at states j)
  bit_at-step n i j p states h f = elim (Bool-cases (online p)) [
    | inr e ↦ rw e refl
    | inl e ↦ rw e (bit_at-set_bit i j states f.bytes (omega (arith, f.room)))
  ]

  bit_before :
      (i j : ℕ) (peers : List A) (states : List ℕ)
      → j < i
      → Fits (i + length peers) states
      → bit_at (mark_online online i peers states) j ≡ bit_at states j
  unfolding mark_online
  bit_before i j [] states h f = refl
  bit_before i j (p ∷ peers) states h f =
      let e : i + suc (length peers) ≡ i + 1 + length peers = omega arith in
      let f' : Fits (i + 1 + length peers) states = rw e at f in
      let later =
        bit_before (i + 1) j peers (step i p states) (omega arith)
          (step-Fits (i + 1 + length peers) i p states (omega arith) f') in
      let other : (online p && nat_beq i j) ≡ false = ground arith in
      later
      ∙ (bit_at-step (i + 1 + length peers) i j p states (omega arith) f'
          ∙ ap (λ b. if b then 1 else bit_at states j) other)

  bit_of_peer :
      (i k : ℕ) (peers : List A) (states : List ℕ) (q : A)
      → Fits (i + length peers) states
      → get_elem? peers k ≡ some q
      → bit_at (mark_online online i peers states) (i + k)
        ≡ (if online q then 1 else bit_at states (i + k))
  unfolding mark_online
  bit_of_peer i k [] states q f h = cc
  bit_of_peer i zero (p ∷ peers) states q f h =
      let e : i + suc (length peers) ≡ i + 1 + length peers = omega arith in
      let f' : Fits (i + 1 + length peers) states = rw e at f in
      let same : p ≡ q = ground (arith, h) in
      let z : i + 0 ≡ i = omega arith in
      let rest =
        bit_before (i + 1) i peers (step i p states) (omega arith)
          (step-Fits (i + 1 + length peers) i p states (omega arith) f') in
      let here : (online p && nat_beq i i) ≡ online p = ground arith in
      rw (← same, z)
        (rest
          ∙ (bit_at-step (i + 1 + length peers) i i p states (omega arith) f'
              ∙ ap (λ b. if b then 1 else bit_at states i) here))
  bit_of_peer i (suc k) (p ∷ peers) states q f h =
      let e : i + suc (length peers) ≡ i + 1 + length peers = omega arith in
      let f' : Fits (i + 1 + length peers) states = rw e at f in
      let z : i + suc k ≡ i + 1 + k = omega arith in
      let later =
        bit_of_peer (i + 1) k peers (step i p states) q
          (step-Fits (i + 1 + length peers) i p states (omega arith) f') h in
      let other : (online p && nat_beq i (i + 1 + k)) ≡ false = ground arith in
      let skip : bit_at (step i p states) (i + 1 + k) ≡ bit_at states (i + 1 + k) =
        bit_at-step (i + 1 + length peers) i (i + 1 + k) p states (omega arith) f'
        ∙ ap (λ b. if b then 1 else bit_at states (i + 1 + k)) other in
      rw z (later ∙ ap (λ b. if online q then 1 else b) skip)

  -- Bit `k` of the answer is set exactly when peer `k` of the request is online.
  pub peers_online_state-bit :
      (peers : List A) (k : ℕ) (q : A)
      → get_elem? peers k ≡ some q
      → bit_at (peers_online_state online peers) k ≡ (if online q then 1 else 0)
  unfolding peers_online_state
  peers_online_state-bit peers k q h =
      let n = (length peers + 7) / 8 in
      let f : Fits (0 + length peers) (replicate n 0) = record {
        room = omega (arith, length-replicate {A = ℕ} n 0);
        bytes = λ j. omega (arith, zeros n j);
      } in
      let z : 0 + k ≡ k = omega arith in
      let r = bit_of_peer 0 k peers (replicate n 0) q f h in
      let blank : bit_at (replicate n 0) k ≡ 0 =
        unfold bit_at in rw (zeros n (k / 8)) (omega arith) in
      (rw z at r) ∙ ap (λ b. if online q then 1 else b) blank

  length-mark_online :
      (i : ℕ) (peers : List A) (states : List ℕ)
      → length (mark_online online i peers states) ≡ length states
  unfolding mark_online set_bit
  length-mark_online i [] states = refl
  length-mark_online i (p ∷ peers) states =
      length-mark_online (i + 1) peers (step i p states)
      ∙ ground
          (arith, length-set states (i / 8) (bit_or (get_or states (i / 8) 0) (2 ^ (7 - i % 8))))

  -- The answer has a bit for every peer, and fewer than eight to spare.
  pub length-peers_online_state :
      (peers : List A)
      → (length peers ≤ 8 * length (peers_online_state online peers))
        × (8 * length (peers_online_state online peers) < length peers + 8)
  unfolding peers_online_state
  length-peers_online_state peers =
      let n = (length peers + 7) / 8 in
      let e : length (mark_online online 0 peers (replicate n 0)) ≡ n =
        length-mark_online 0 peers (replicate n 0) ∙ length-replicate n 0 in
      (omega (arith, e), omega (arith, e))
