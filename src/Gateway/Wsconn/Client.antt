-- ===== src/Gateway/Wsconn/Client.antt =====
-- That internal/gateway/wsconn/conn.go reads what a client writes with a mask.
use agen_sense.Prelude.{
  ℕ, suc, ◌+◌, ◌%◌, ◌≤◌, ◌<◌, true, some, List, [], ◌∷◌, ◌++◌, All, length, ◌≡◌, refl, sym, ap, ◌∙◌,
  arith,
}
use Prim.Native.Nat.{bit_or, bit_xor}
use agen_sense.Gateway.Wsconn
use agen_sense.Gateway.Wsconn.Bits.{mask_twice}
use agen_sense.Gateway.Wsconn.RoundTrip.{
  read_full-append, short, short_small, masked_bits, read_frame_lem,
}

-- The mask of RFC 6455: the four bytes of the key in turn.
abbrev pub xor_cycle : ℕ → ℕ → ℕ → ℕ → List ℕ → List ℕ
xor_cycle a b c d [] = []
xor_cycle a b c d (x ∷ xs) = bit_xor x a ∷ xor_cycle b c d a xs

pub record Key : Type 0 where
  pub k0 : ℕ
  pub k1 : ℕ
  pub k2 : ℕ
  pub k3 : ℕ

abbrev key_bytes : Key → List ℕ
key_bytes k = k.k0 ∷ k.k1 ∷ k.k2 ∷ k.k3 ∷ []

-- A frame of a client.
unfoldable pub client_frame : ℕ → Key → List ℕ → List ℕ
client_frame opcode k payload =
    bit_or 0x80 opcode
    ∷ (Wsconn.length_bytes 128 (length payload)
        ++ (key_bytes k ++ xor_cycle k.k0 k.k1 k.k2 k.k3 payload))

-- The key from an index on.
turned :
    (key : List ℕ) (i a b c d : ℕ) (p : List ℕ)
    → Wsconn.byte_at (i % 4) key ≡ a
    → Wsconn.byte_at ((i + 1) % 4) key ≡ b
    → Wsconn.byte_at ((i + 2) % 4) key ≡ c
    → Wsconn.byte_at ((i + 3) % 4) key ≡ d
    → Wsconn.masked_from i key p ≡ xor_cycle a b c d p
unfolding Wsconn.masked_from
turned key i a b c d [] e0 e1 e2 e3 = refl
turned key i a b c d (x ∷ xs) e0 e1 e2 e3 =
    let at = λ (n : ℕ). Wsconn.byte_at n key in
    let same0 : suc i % 4 ≡ (i + 1) % 4 = omega arith in
    let same1 : (suc i + 1) % 4 ≡ (i + 2) % 4 = omega arith in
    let same2 : (suc i + 2) % 4 ≡ (i + 3) % 4 = omega arith in
    let same3 : (suc i + 3) % 4 ≡ i % 4 = omega arith in
    ap (λ k. bit_xor x k ∷ Wsconn.masked_from (suc i) key xs) e0
    ∙ ap (bit_xor x a ∷◌) (
        turned key (suc i) b c d a xs (ap at same0 ∙ e1) (ap at same1 ∙ e2) (ap at same2 ∙ e3)
          (ap at same3 ∙ e0))

-- The bytes of a key are bytes.
abbrev pub IsKey : Key → Type 0
IsKey k = (k.k0 < 256) × (k.k1 < 256) × (k.k2 < 256) × (k.k3 < 256)

xor_cycle_twice :
    (a b c d : ℕ) (p : List ℕ)
    → a < 256
    → b < 256
    → c < 256
    → d < 256
    → All (λ x. x < 256) p
    → xor_cycle a b c d (xor_cycle a b c d p) ≡ p
xor_cycle_twice a b c d [] pa pb pc pd bytes = refl
xor_cycle_twice a b c d (x ∷ xs) pa pb pc pd bytes =
    rw (mask_twice x a bytes.0 pa) (ap (x ∷◌) (xor_cycle_twice b c d a xs pb pc pd pa bytes.1))

length-xor_cycle : (a b c d : ℕ) (p : List ℕ) → length (xor_cycle a b c d p) ≡ length p
length-xor_cycle a b c d [] = refl
length-xor_cycle a b c d (x ∷ xs) = ap suc (length-xor_cycle b c d a xs)

-- readFrame reads from a frame that a client has masked as RFC 6455 says, with any key of four
-- bytes, the opcode and the payload, and leaves the bytes after the frame, for every opcode of four
-- bits and every payload of bytes up to 16 MiB.
pub client_frame-read_frame :
    (opcode : ℕ) (k : Key) (payload rest : List ℕ)
    → opcode < 16
    → length payload ≤ 16777216
    → IsKey k
    → All (λ b. b < 256) payload
    → Wsconn.read_frame (client_frame opcode k payload ++ rest) ≡ Wsconn.frame opcode payload rest
unfolding client_frame
client_frame-read_frame opcode k payload rest coded small (p0, p1, p2, p3) bytes =
    let hidden = xor_cycle k.k0 k.k1 k.k2 k.k3 payload in
    let (flag, low) = masked_bits (short (length payload)) (short_small (length payload)) in
    read_frame_lem opcode (length payload) 128 true (key_bytes k ++ hidden) rest coded flag low
      small
    ∙ ap (Wsconn.keyed opcode (length payload)) (read_full-append (key_bytes k) (hidden ++ rest))
    ∙ ap
        (λ n.
          Wsconn.payload_frame opcode (some (key_bytes k)) (Wsconn.read_full n (hidden ++ rest)))
        (sym (length-xor_cycle k.k0 k.k1 k.k2 k.k3 payload))
    ∙ ap (Wsconn.payload_frame opcode (some (key_bytes k))) (read_full-append hidden rest)
    ∙ ap (λ p. Wsconn.frame opcode p rest)
        (turned (key_bytes k) 0 k.k0 k.k1 k.k2 k.k3 hidden refl refl refl refl
          ∙ xor_cycle_twice k.k0 k.k1 k.k2 k.k3 payload p0 p1 p2 p3 bytes)
