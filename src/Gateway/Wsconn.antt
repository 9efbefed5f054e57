-- ===== src/Gateway/Wsconn.antt =====
-- internal/gateway/wsconn/conn.go: the frames of a connection. A reader is the bytes that are still
-- to come; the two errors of a read that ends early are one. What a writer writes is its bytes, since
-- an error of the connection is not looked into.
pub mod Bits
pub mod RoundTrip
pub mod Client
pub mod Messages
pub mod Total
use agen_sense.Prelude.{
  ℕ, zero, suc, ◌+◌, ◌-◌, ◌*◌, ◌/◌, ◌%◌, Bool, true, false, not, Option, none, some, List, [], ◌∷◌,
  ◌++◌, length, take, drop, ltb, leb, nat_beq, if◌then◌else◌,
}
use Prim.Native.Nat.{bit_and, bit_or, bit_xor}

abbrev pub Bytes : Type 0
Bytes = List ℕ

abbrev pub op_ping : ℕ
op_ping = 9

abbrev pub op_pong : ℕ
op_pong = 10

-- `16<<20`
abbrev pub max_payload : ℕ
max_payload = 16777216

pub data ReadError : Type 0 where
  end_of_input fragmented too_large : ReadError

-- A frame with the bytes after it.
pub data Read : Type 0 where
  frame : ℕ → Bytes → Bytes → Read
  failed : ReadError → Read

-- io.ReadFull
unfoldable pub read_full : ℕ → Bytes → Option (Bytes × Bytes)
read_full n bytes = if leb n (length bytes) then some (take n bytes, drop n bytes) else none

-- A number in big-endian order.
abbrev pub be : ℕ → Bytes → ℕ
be n [] = n
be n (b ∷ bs) = be (n * 256 + b) bs

pub data PayloadLength : Type 0 where
  length_of : ℕ → Bytes → PayloadLength
  no_length : ReadError → PayloadLength

abbrev pub within : ℕ → Bytes → PayloadLength
within n rest = if ltb max_payload n then no_length too_large else length_of n rest

abbrev pub length_16 : Option (Bytes × Bytes) → PayloadLength
length_16 none = no_length end_of_input
length_16 (some (v, rest)) = length_of (be 0 v) rest

abbrev pub length_64 : Option (Bytes × Bytes) → PayloadLength
length_64 none = no_length end_of_input
length_64 (some (v, rest)) = within (be 0 v) rest

unfoldable pub read_length : ℕ → Bytes → PayloadLength
read_length n bytes =
    if nat_beq n 126
    then length_16 (read_full 2 bytes)
    else if nat_beq n 127
    then length_64 (read_full 8 bytes)
    else length_of n bytes

abbrev pub byte_at : ℕ → Bytes → ℕ
byte_at n [] = 0
byte_at zero (b ∷ bs) = b
byte_at (suc n) (b ∷ bs) = byte_at n bs

-- `payload[i] ^= maskKey[i%4]`, from an index on.
unfoldable pub masked_from : ℕ → Bytes → Bytes → Bytes
masked_from i key [] = []
masked_from i key (b ∷ bs) = bit_xor b (byte_at (i % 4) key) ∷ masked_from (suc i) key bs

abbrev pub unmasked : Option Bytes → Bytes → Bytes
unmasked none payload = payload
unmasked (some key) payload = masked_from 0 key payload

abbrev pub payload_frame : ℕ → Option Bytes → Option (Bytes × Bytes) → Read
payload_frame opcode key none = failed end_of_input
payload_frame opcode key (some (payload, rest)) = frame opcode (unmasked key payload) rest

abbrev pub keyed : ℕ → ℕ → Option (Bytes × Bytes) → Read
keyed opcode n none = failed end_of_input
keyed opcode n (some (key, rest)) = payload_frame opcode (some key) (read_full n rest)

abbrev pub sized : ℕ → Bool → PayloadLength → Read
sized opcode masked (no_length e) = failed e
sized opcode masked (length_of n bytes) =
    if ltb max_payload n
    then failed too_large
    else if masked
    then keyed opcode n (read_full 4 bytes)
    else payload_frame opcode none (read_full n bytes)

abbrev pub headed : ℕ → Bytes → Read
headed opcode [] = failed end_of_input
headed opcode (b ∷ bytes) =
    sized opcode (not (nat_beq (bit_and b 0x80) 0)) (read_length (bit_and b 0x7f) bytes)

unfoldable pub read_frame : Bytes → Read
read_frame [] = failed end_of_input
read_frame (header ∷ bytes) =
    if nat_beq (bit_and header 0x80) 0
    then failed fragmented
    else headed (bit_and header 0x0f) bytes

abbrev pub be_16 : ℕ → Bytes
be_16 n = n / 256 % 256 ∷ n % 256 ∷ []

abbrev pub be_64 : ℕ → Bytes
be_64 n =
    n / 72057594037927936 % 256
    ∷ n / 281474976710656 % 256
    ∷ n / 1099511627776 % 256
    ∷ n / 4294967296 % 256
    ∷ n / 16777216 % 256
    ∷ n / 65536 % 256
    ∷ n / 256 % 256
    ∷ n % 256
    ∷ []

-- The bytes of a length, the first with a bit for the mask.
abbrev pub length_bytes : ℕ → ℕ → Bytes
length_bytes bit n =
    if ltb n 126
    then (bit + n) ∷ []
    else if leb n 65535
    then (bit + 126) ∷ be_16 n
    else (bit + 127) ∷ be_64 n

unfoldable pub write_frame : ℕ → Bytes → Bytes
write_frame opcode payload = bit_or 0x80 opcode ∷ (length_bytes 0 (length payload) ++ payload)
