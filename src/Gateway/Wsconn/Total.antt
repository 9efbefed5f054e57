-- ===== src/Gateway/Wsconn/Total.antt =====
-- That Conn.ReadFrame of internal/gateway/wsconn/conn.go ends: each frame takes some of the input.
use agen_sense.Prelude.{
  ℕ, zero, suc, ◌<◌, ◌≤◌, Bool, true, false, Option, none, some, List, [], ◌∷◌, length, take, drop,
  length-drop, ltb, leb, nat_beq, if◌then◌else◌, ◌≡◌, ◌≢◌, refl, arith, Bool-cases, inl, inr,
}
use Prim.Native.Nat.{bit_and}
use agen_sense.Gateway.Wsconn
use agen_sense.Gateway.Wsconn.Messages.{
  Conn, Message, message, unanswered, out_of_fuel, write, received, read_on, read_message,
}

-- What is left after a read is at most some number of bytes.
abbrev IsWithin : ℕ → Wsconn.Read → Type 0
IsWithin n (Wsconn.frame opcode payload rest) = length rest ≤ n
IsWithin n (Wsconn.failed e) = Unit

payload_frame-IsWithin :
    (opcode m : ℕ) (key : Option (List ℕ)) (bytes : List ℕ)
    → IsWithin (length bytes) (Wsconn.payload_frame opcode key (Wsconn.read_full m bytes))
unfolding Wsconn.read_full
payload_frame-IsWithin opcode m key bytes = elim (Bool-cases (leb m (length bytes))) [
  | inl e ↦ rw e (let left = length-drop m bytes in omega arith)
  | inr e ↦ rw e tt
]

IsWithin-le : (n m : ℕ) (r : Wsconn.Read) → n ≤ m → IsWithin n r → IsWithin m r
IsWithin-le n m (Wsconn.frame opcode payload rest) le b = omega arith
IsWithin-le n m (Wsconn.failed e) le b = tt

keyed-IsWithin :
    (opcode n m : ℕ) (bytes : List ℕ)
    → IsWithin (length bytes) (Wsconn.keyed opcode n (Wsconn.read_full m bytes))
unfolding Wsconn.read_full
keyed-IsWithin opcode n m bytes = elim (Bool-cases (leb m (length bytes))) [
  | inl e ↦
      let left = length-drop m bytes in
      rw e (
        IsWithin-le (length (drop m bytes)) (length bytes)
          (Wsconn.payload_frame opcode (some (take m bytes)) (Wsconn.read_full n (drop m bytes)))
          (omega arith) (payload_frame-IsWithin opcode n (some (take m bytes)) (drop m bytes)))
  | inr e ↦ rw e tt
]

-- What is left after a length is at most some number of bytes.
abbrev LeavesWithin : ℕ → Wsconn.PayloadLength → Type 0
LeavesWithin n (Wsconn.length_of k rest) = length rest ≤ n
LeavesWithin n (Wsconn.no_length e) = Unit

sized-IsWithin :
    (opcode n : ℕ) (masked : Bool) (l : Wsconn.PayloadLength)
    → LeavesWithin n l
    → IsWithin n (Wsconn.sized opcode masked l)
sized-IsWithin opcode n masked (Wsconn.no_length e) left = tt
sized-IsWithin opcode n true (Wsconn.length_of k rest) left =
    elim (Bool-cases (ltb Wsconn.max_payload k)) [
      | inl e ↦ rw e tt
      | inr e ↦ rw e (IsWithin-le (length rest) n _ left (keyed-IsWithin opcode k 4 rest))
    ]
sized-IsWithin opcode n false (Wsconn.length_of k rest) left =
    elim (Bool-cases (ltb Wsconn.max_payload k)) [
      | inl e ↦ rw e tt
      | inr e ↦
          rw e (IsWithin-le (length rest) n _ left (payload_frame-IsWithin opcode k none rest))
    ]

within-LeavesWithin :
    (n k : ℕ) (rest : List ℕ) → length rest ≤ n → LeavesWithin n (Wsconn.within k rest)
within-LeavesWithin n k rest left = elim (Bool-cases (ltb Wsconn.max_payload k)) [
  | inl e ↦ rw e tt
  | inr e ↦ rw e left
]

length_16-LeavesWithin :
    (m : ℕ) (bytes : List ℕ)
    → LeavesWithin (length bytes) (Wsconn.length_16 (Wsconn.read_full m bytes))
unfolding Wsconn.read_full
length_16-LeavesWithin m bytes = elim (Bool-cases (leb m (length bytes))) [
  | inl e ↦ rw e (let left = length-drop m bytes in omega arith)
  | inr e ↦ rw e tt
]

length_64-LeavesWithin :
    (m : ℕ) (bytes : List ℕ)
    → LeavesWithin (length bytes) (Wsconn.length_64 (Wsconn.read_full m bytes))
unfolding Wsconn.read_full
length_64-LeavesWithin m bytes = elim (Bool-cases (leb m (length bytes))) [
  | inl e ↦
      let left = length-drop m bytes in
      rw e (
        within-LeavesWithin (length bytes) (Wsconn.be 0 (take m bytes)) (drop m bytes)
          (omega arith))
  | inr e ↦ rw e tt
]

read_length-LeavesWithin :
    (n : ℕ) (bytes : List ℕ) → LeavesWithin (length bytes) (Wsconn.read_length n bytes)
unfolding Wsconn.read_length
read_length-LeavesWithin n bytes = elim (Bool-cases (nat_beq n 126)) [
  | inl e ↦ rw e (length_16-LeavesWithin 2 bytes)
  | inr e ↦ rw e (elim (Bool-cases (nat_beq n 127)) [
    | inl f ↦ rw f (length_64-LeavesWithin 8 bytes)
    | inr f ↦ rw f (omega arith)
  ])
]

headed-IsWithin :
    (opcode : ℕ) (bytes : List ℕ) → IsWithin (length bytes) (Wsconn.headed opcode bytes)
headed-IsWithin opcode [] = tt
headed-IsWithin opcode (b ∷ bytes) =
    IsWithin-le (length bytes) (suc (length bytes)) _ (omega arith)
      (sized-IsWithin opcode (length bytes) _ _ (read_length-LeavesWithin (bit_and b 0x7f) bytes))

read_frame-IsWithin :
    (header : ℕ) (bytes : List ℕ) → IsWithin (length bytes) (Wsconn.read_frame (header ∷ bytes))
unfolding Wsconn.read_frame
read_frame-IsWithin header bytes = elim (Bool-cases (nat_beq (bit_and header 0x80) 0)) [
  | inl e ↦ rw e tt
  | inr e ↦ rw e (headed-IsWithin (bit_and header 0x0f) bytes)
]

-- The first read of no input fails.
read_none : Wsconn.read_frame [] ≡ Wsconn.failed Wsconn.end_of_input
unfolding Wsconn.read_frame
read_none = refl

if-Ends :
    (ok : Bool) (m u : Message × Conn)
    → m.0 ≢ out_of_fuel
    → u.0 ≢ out_of_fuel
    → (if ok then m else u).0 ≢ out_of_fuel
if-Ends true m u p q = p
if-Ends false m u p q = q

received_ends :
    (n : ℕ) (r : Wsconn.Read) (later : Conn → Message × Conn) (c : Conn)
    → IsWithin n r
    → ((d : Conn) → length d.input ≤ n → (later d).0 ≢ out_of_fuel)
    → (received r later c).0 ≢ out_of_fuel
received_ends n (Wsconn.failed e) later c left ends = λ h. absurd (cc)
received_ends n (Wsconn.frame opcode payload rest) later c left ends =
    let c' : Conn = record c { input = rest } in
    let (ok, c'') = write Wsconn.op_pong payload c' in
    let refused : Message × Conn = (unanswered, c'') in
    let given : Message × Conn = (message opcode payload, c') in
    if-Ends (nat_beq opcode Wsconn.op_ping) (if ok then later c'' else refused) given
      (if-Ends ok (later c'') refused (ends c'' left) (λ h. absurd (cc))) (λ h. absurd (cc))

round_ends :
    (fuel : ℕ) (bytes : List ℕ) (later : Conn → Message × Conn) (c : Conn)
    → length bytes < suc fuel
    → ((d : Conn) → length d.input < fuel → (later d).0 ≢ out_of_fuel)
    → (received (Wsconn.read_frame bytes) later c).0 ≢ out_of_fuel
round_ends fuel [] later c enough ends = rw read_none (λ h. absurd (cc))
round_ends fuel (header ∷ bytes) later c enough ends =
    received_ends (length bytes) (Wsconn.read_frame (header ∷ bytes)) later c
      (read_frame-IsWithin header bytes) (λ d le. ends d (omega arith))

read_on_ends : (fuel : ℕ) (c : Conn) → length c.input < fuel → (read_on fuel c).0 ≢ out_of_fuel
unfolding read_on
read_on_ends zero c enough = absurd (omega arith)
read_on_ends (suc fuel) c enough =
    round_ends fuel c.input (read_on fuel) c enough (λ d le. read_on_ends fuel d le)

-- On any input and any faults of the writes, the calls of ReadFrame of itself end within as many
-- rounds as there are bytes to read, and one more.
pub read_message-ends : (c : Conn) → (read_message c).0 ≢ out_of_fuel
unfolding read_message
read_message-ends c = read_on_ends (suc (length c.input)) c (omega arith)
