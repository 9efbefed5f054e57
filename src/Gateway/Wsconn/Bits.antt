-- ===== src/Gateway/Wsconn/Bits.antt =====
-- The bits of a byte that internal/gateway/wsconn/conn.go takes apart.
use agen_sense.Prelude.{
  ℕ, zero, suc, ◌+◌, ◌<◌, Bool, true, ◌&&◌, nat_beq, nat_beq_iff, ◌≡◌, refl, arith,
}
use Prim.Native.Nat.{bit_and, bit_or, bit_xor}

abbrev all_below : ℕ → (ℕ → Bool) → Bool
all_below zero p = true
all_below (suc n) p = p n && all_below n p

holds_below : (n : ℕ) (p : ℕ → Bool) (x : ℕ) → all_below n p ≡ true → x < n → p x ≡ true
holds_below zero p x h lt = absurd (omega arith)
holds_below (suc n) p x h lt = ground (arith, holds_below n p x)

abbrev splits_header : ℕ → Bool
splits_header x =
    nat_beq (bit_and (bit_or 0x80 x) 0x80) 0x80 && nat_beq (bit_and (bit_or 0x80 x) 0x0f) x

opcode_table : all_below 16 splits_header ≡ true
opcode_table = refl

pub opcode_bits :
    (x : ℕ) → x < 16 → (bit_and (bit_or 0x80 x) 0x80 ≡ 0x80) × (bit_and (bit_or 0x80 x) 0x0f ≡ x)
opcode_bits x lt = let table = holds_below 16 splits_header x opcode_table lt in ground arith

abbrev splits_length : ℕ → Bool
splits_length x =
    nat_beq (bit_and x 0x80) 0
    && nat_beq (bit_and x 0x7f) x
    && nat_beq (bit_and (128 + x) 0x80) 128
    && nat_beq (bit_and (128 + x) 0x7f) x

length_table : all_below 128 splits_length ≡ true
length_table = refl

pub length_bits :
    (x : ℕ)
    → x < 128
    → (bit_and x 0x80 ≡ 0)
      × (bit_and x 0x7f ≡ x)
      × (bit_and (128 + x) 0x80 ≡ 128)
      × (bit_and (128 + x) 0x7f ≡ x)
length_bits x lt = let table = holds_below 128 splits_length x length_table lt in ground arith

abbrev unmasks : ℕ → ℕ → Bool
unmasks m x = nat_beq (bit_xor (bit_xor x m) m) x

mask_table : all_below 256 (λ m. all_below 256 (unmasks m)) ≡ true
mask_table = refl

pub mask_twice : (x m : ℕ) → x < 256 → m < 256 → bit_xor (bit_xor x m) m ≡ x
mask_twice x m p q = (nat_beq_iff (bit_xor (bit_xor x m) m) x).0 (
    holds_below 256 (unmasks m) x (holds_below 256 (λ m. all_below 256 (unmasks m)) m mask_table q)
      p)
