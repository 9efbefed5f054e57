-- ===== src/Gateway/Wsconn/RoundTrip.antt =====
-- That internal/gateway/wsconn/conn.go reads what it writes.
use agen_sense.Prelude.{
  ℕ, ◌+◌, ◌≤◌, ◌<◌, Bool, true, false, not, none, some, List, [], ◌∷◌, ◌++◌, length, take, drop,
  ltb, leb, nat_beq, if◌then◌else◌, ◌≡◌, refl, ap, ◌∙◌, arith, length-append, Bool-cases, inl, inr,
}
use mathlib.Core.List.{append_assoc}
use Prim.Native.Nat.{bit_and, bit_or}
use agen_sense.Gateway.Wsconn
use agen_sense.Gateway.Wsconn.Bits.{opcode_bits, length_bits}

take-exact : (xs ys : List ℕ) → take (length xs) (xs ++ ys) ≡ xs
take-exact [] ys = refl
take-exact (x ∷ xs) ys = ap (x ∷◌) (take-exact xs ys)

drop-exact : (xs ys : List ℕ) → drop (length xs) (xs ++ ys) ≡ ys
drop-exact [] ys = refl
drop-exact (x ∷ xs) ys = drop-exact xs ys

pub read_full-append : (xs ys : List ℕ) → Wsconn.read_full (length xs) (xs ++ ys) ≡ some (xs, ys)
unfolding Wsconn.read_full
read_full-append xs ys =
    let total = length-append xs ys in
    let fits : leb (length xs) (length (xs ++ ys)) ≡ true = ground arith in
    rw (fits, take-exact xs ys, drop-exact xs ys) refl

-- The length of a frame after its second byte, and what that byte says.
abbrev long_bytes : ℕ → List ℕ
long_bytes n = if ltb n 126 then [] else if leb n 65535 then Wsconn.be_16 n else Wsconn.be_64 n

abbrev pub short : ℕ → ℕ
short n = if ltb n 126 then n else if leb n 65535 then 126 else 127

length_bytes_lem : (bit n : ℕ) → Wsconn.length_bytes bit n ≡ ((bit + short n) ∷ long_bytes n)
length_bytes_lem bit n = elim (Bool-cases (ltb n 126)) [
  | inl e ↦ rw e refl
  | inr e ↦ rw e (elim (Bool-cases (leb n 65535)) [ inl f ↦ rw f refl | inr f ↦ rw f refl ])
]

be_16_lem : (n : ℕ) → n ≤ 65535 → Wsconn.be 0 (Wsconn.be_16 n) ≡ n
be_16_lem n small = omega arith

be_64_lem : (n : ℕ) → n ≤ 16777216 → Wsconn.be 0 (Wsconn.be_64 n) ≡ n
be_64_lem n small = omega arith

read_length_lem :
    (n : ℕ) (rest : List ℕ)
    → n ≤ 16777216
    → Wsconn.read_length (short n) (long_bytes n ++ rest) ≡ Wsconn.length_of n rest
unfolding Wsconn.read_length
read_length_lem n rest small = elim (Bool-cases (ltb n 126)) [
  | inl e ↦
      let not_126 : nat_beq n 126 ≡ false = ground arith in
      let not_127 : nat_beq n 127 ≡ false = ground arith in rw (e, not_126, not_127) refl
  | inr e ↦ rw e (elim (Bool-cases (leb n 65535)) [
    | inl f ↦ rw f (
        ap Wsconn.length_16 (read_full-append (Wsconn.be_16 n) rest)
        ∙ ap (λ k. Wsconn.length_of k rest) (be_16_lem n (ground arith)))
    | inr f ↦
        let fits : ltb Wsconn.max_payload n ≡ false = ground arith in
        rw f (
          ap Wsconn.length_64 (read_full-append (Wsconn.be_64 n) rest)
          ∙ ap (λ k. Wsconn.within k rest) (be_64_lem n small)
          ∙ rw fits refl)
  ])
]

-- What follows the length.
abbrev pub rest_of : ℕ → ℕ → Bool → List ℕ → Wsconn.Read
rest_of opcode n masked bytes =
    if masked
    then Wsconn.keyed opcode n (Wsconn.read_full 4 bytes)
    else Wsconn.payload_frame opcode none (Wsconn.read_full n bytes)

pub short_small : (n : ℕ) → short n < 128
short_small n = ground arith

headed_lem :
    (opcode n bit : ℕ) (masked : Bool) (bytes : List ℕ)
    → not (nat_beq (bit_and (bit + short n) 0x80) 0) ≡ masked
    → bit_and (bit + short n) 0x7f ≡ short n
    → n ≤ 16777216
    → Wsconn.headed opcode ((bit + short n) ∷ (long_bytes n ++ bytes))
      ≡ rest_of opcode n masked bytes
headed_lem opcode n bit masked bytes flag low small =
    let fits : ltb Wsconn.max_payload n ≡ false = ground arith in
    ap
      (λ m.
        Wsconn.sized opcode m
          (Wsconn.read_length (bit_and (bit + short n) 0x7f) (long_bytes n ++ bytes)))
      flag
    ∙ ap (λ k. Wsconn.sized opcode masked (Wsconn.read_length k (long_bytes n ++ bytes))) low
    ∙ ap (Wsconn.sized opcode masked) (read_length_lem n bytes small)
    ∙ rw fits refl

-- The header.
pub read_frame_lem :
    (opcode n bit : ℕ) (masked : Bool) (body rest : List ℕ)
    → opcode < 16
    → not (nat_beq (bit_and (bit + short n) 0x80) 0) ≡ masked
    → bit_and (bit + short n) 0x7f ≡ short n
    → n ≤ 16777216
    → Wsconn.read_frame (bit_or 0x80 opcode ∷ ((Wsconn.length_bytes bit n ++ body) ++ rest))
      ≡ rest_of opcode n masked (body ++ rest)
unfolding Wsconn.read_frame
read_frame_lem opcode n bit masked body rest coded flag low small =
    let bits = opcode_bits opcode coded in
    let shape : (Wsconn.length_bytes bit n ++ body) ++ rest
        ≡ (bit + short n) ∷ (long_bytes n ++ (body ++ rest)) =
      ap (λ h. (h ++ body) ++ rest) (length_bytes_lem bit n)
      ∙ ap ((bit + short n) ∷◌) (append_assoc (long_bytes n) body rest) in
    rw (bits.0, bits.1)
      (ap (Wsconn.headed opcode) shape
        ∙ headed_lem opcode n bit masked (body ++ rest) flag low small)

-- The second byte without and with the bit for the mask.
plain_bits :
    (k : ℕ)
    → k < 128
    → (not (nat_beq (bit_and (0 + k) 0x80) 0) ≡ false) × (bit_and (0 + k) 0x7f ≡ k)
plain_bits k small =
    let bits = length_bits k small in
    let same : 0 + k ≡ k = omega arith in
    (
      ap (λ j. not (nat_beq (bit_and j 0x80) 0)) same ∙ ap (λ j. not (nat_beq j 0)) bits.0,
      ap (λ j. bit_and j 0x7f) same ∙ bits.1,
    )

pub masked_bits :
    (k : ℕ)
    → k < 128
    → (not (nat_beq (bit_and (128 + k) 0x80) 0) ≡ true) × (bit_and (128 + k) 0x7f ≡ k)
masked_bits k small = let bits = length_bits k small in (ap (λ j. not (nat_beq j 0)) bits.2, bits.3)

-- readFrame reads what writeFrame writes and leaves the bytes after it, for every opcode of four
-- bits and every payload up to 16 MiB.
pub write_frame-read_frame :
    (opcode : ℕ) (payload rest : List ℕ)
    → opcode < 16
    → length payload ≤ 16777216
    → Wsconn.read_frame (Wsconn.write_frame opcode payload ++ rest)
      ≡ Wsconn.frame opcode payload rest
unfolding Wsconn.write_frame
write_frame-read_frame opcode payload rest coded small =
    let (flag, low) = plain_bits (short (length payload)) (short_small (length payload)) in
    read_frame_lem opcode (length payload) 0 false payload rest coded flag low small
    ∙ ap (Wsconn.payload_frame opcode none) (read_full-append payload rest)
