-- ===== src/Prelude/Bytes.antt =====
-- Setting a bit of a byte, `b |= 1 << k`, by a table of all bytes.
use Prim.Native.Nat.{ℕ, zero, suc, ◌/◌, ◌%◌, ◌^◌, ◌<◌, bit_or}
use mathlib.Core.Path.{◌≡◌, refl}
use mathlib.Core.Bool.{Bool, true, ◌&&◌}
use native.Mathlib.Omega.{arith}
use rustdesk_server.Prelude.Tests.{if◌then◌else◌, ltb}
use rustdesk_server.Prelude.Equality.{nat_beq, nat_beq_iff}

-- The test holds of every number under the limit.
holds_under : (ℕ → Bool) → ℕ → Bool
holds_under test zero = true
holds_under test (suc limit) = holds_under test limit && test limit

holds_under_at :
    (test : ℕ → Bool) (limit k : ℕ) → k < limit → holds_under test limit ≡ true → test k ≡ true
unfolding holds_under
holds_under_at test zero k small whole = absurd (omega arith)
holds_under_at test (suc limit) k small whole = ground (arith, holds_under_at test limit k)

-- Setting one bit of a byte sets that bit and no other.
abbrev bit_law : ℕ → ℕ → ℕ → Bool
bit_law b k m = nat_beq (bit_or b (2 ^ k) / 2 ^ m % 2) (if nat_beq k m then 1 else b / 2 ^ m % 2)

abbrev byte_law : ℕ → ℕ → Bool
byte_law b k = ltb (bit_or b (2 ^ k)) 256

bit_table : holds_under (λ b. holds_under (λ k. holds_under (bit_law b k) 8) 8) 256 ≡ true
unfolding holds_under
bit_table = refl

byte_table : holds_under (λ b. holds_under (byte_law b) 8) 256 ≡ true
unfolding holds_under
byte_table = refl

pub set_one_bit :
    (b k m : ℕ)
    → b < 256
    → k < 8
    → m < 8
    → (bit_or b (2 ^ k) / 2 ^ m) % 2 ≡ (if nat_beq k m then 1 else (b / 2 ^ m) % 2)
set_one_bit b k m hb hk hm =
    let of_byte =
      holds_under_at (λ c. holds_under (λ k. holds_under (bit_law c k) 8) 8) 256 b hb bit_table in
    let of_bit = holds_under_at (λ j. holds_under (bit_law b j) 8) 8 k hk of_byte in
    (nat_beq_iff _ _).0 (holds_under_at (bit_law b k) 8 m hm of_bit)

pub set_bit_byte : (b k : ℕ) → b < 256 → k < 8 → bit_or b (2 ^ k) < 256
set_bit_byte b k hb hk =
    let of_byte = holds_under_at (λ c. holds_under (byte_law c) 8) 256 b hb byte_table in
    let small : byte_law b k ≡ true = holds_under_at (byte_law b) 8 k hk of_byte in ground arith
