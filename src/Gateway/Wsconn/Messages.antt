-- ===== src/Gateway/Wsconn/Messages.antt =====
-- internal/gateway/wsconn/conn.go: Conn.ReadFrame, which answers pings. A write succeeds as a list
-- tells. Each round takes a frame from the input, so its length is fuel enough.
use agen_sense.Prelude.{
  ℕ, zero, suc, ◌<◌, ◌≤◌, Bool, true, false, List, [], ◌∷◌, ◌++◌, All, length, nat_beq,
  if◌then◌else◌, ◌≡◌, ◌≢◌, sym, ap, ◌∙◌, arith, length-append,
}
use mathlib.Core.List.{append_assoc, append-nil}
use agen_sense.Gateway.Wsconn.{
  Bytes, ReadError, Read, frame, failed, read_frame, write_frame, op_ping, op_pong,
}
use agen_sense.Gateway.Wsconn.Client.{Key, IsKey, client_frame, client_frame-read_frame}

pub record Conn : Type 0 where
  pub input : Bytes
  pub output : Bytes
  pub faults : List Bool

pub data Message : Type 0 where
  message : ℕ → Bytes → Message
  broken : ReadError → Message
  unanswered out_of_fuel : Message

abbrev accepted : List Bool → Bool
accepted [] = true
accepted (b ∷ bs) = b

abbrev later_faults : List Bool → List Bool
later_faults [] = []
later_faults (b ∷ bs) = bs

-- WriteFrame
abbrev pub write : ℕ → Bytes → Conn → Bool × Conn
write opcode payload c =
    let ok = accepted c.faults in
    (
      ok,
      record c {
        output = if ok then c.output ++ write_frame opcode payload else c.output;
        faults = later_faults c.faults;
      },
    )

-- What a round does with what it has read.
abbrev pub received : Read → (Conn → Message × Conn) → Conn → Message × Conn
received (failed e) later c = (broken e, c)
received (frame opcode payload rest) later c =
    let c' : Conn = record c { input = rest } in
    let (ok, c'') = write op_pong payload c' in
    let answer = later c'' in
    if nat_beq opcode op_ping
    then (if ok then answer else (unanswered, c''))
    else (message opcode payload, c')

unfoldable pub read_on : ℕ → Conn → Message × Conn
read_on zero c = (out_of_fuel, c)
read_on (suc fuel) c = received (read_frame c.input) (read_on fuel) c

unfoldable pub read_message : Conn → Message × Conn
read_message c = read_on (suc (length c.input)) c

-- Pings of a client, with their keys, and the answers.
abbrev pub pings : List (Key × Bytes) → Bytes
pings [] = []
pings ((key, payload) ∷ ps) = client_frame op_ping key payload ++ pings ps

abbrev pub pongs : List (Key × Bytes) → Bytes
pongs [] = []
pongs ((key, payload) ∷ ps) = write_frame op_pong payload ++ pongs ps

-- A payload that fits, with a key.
abbrev pub IsMasked : Key × Bytes → Type 0
IsMasked (key, payload) = (length payload ≤ 16777216) × IsKey key × All (λ b. b < 256) payload

length-pings : (ps : List (Key × Bytes)) → length ps ≤ length (pings ps)
unfolding client_frame
length-pings [] = omega arith
length-pings ((key, payload) ∷ ps) =
    let rest = length-pings ps in
    let total = length-append (client_frame op_ping key payload) (pings ps) in omega arith

read_on-pings :
    (ps : List (Key × Bytes)) (fuel opcode : ℕ) (key : Key) (payload rest output : Bytes)
    → length ps < fuel
    → All IsMasked ps
    → opcode < 16
    → opcode ≢ op_ping
    → IsMasked (key, payload)
    → read_on fuel (record {
      input = pings ps ++ (client_frame opcode key payload ++ rest);
      output = output;
      faults = [];
    })
      ≡ (message opcode payload, record { input = rest; output = output ++ pongs ps; faults = [] })
unfolding read_on
read_on-pings ps zero opcode key payload rest output enough valid coded other last =
    absurd (omega arith)
read_on-pings [] (suc fuel) opcode key payload rest output enough valid coded other last =
    let seen = client_frame-read_frame opcode key payload rest coded last.0 last.1 last.2 in
    let not_ping : nat_beq opcode op_ping ≡ false = ground (arith, other) in
    ap
      (λ r.
        received r (read_on fuel) (record {
          input = client_frame opcode key payload ++ rest;
          output = output;
          faults = [];
        }))
      seen
    ∙ rw not_ping (
        ap (λ o. (message opcode payload, record { input = rest; output = o; faults = [] }))
          (sym (append-nil output)))
read_on-pings ((k, p) ∷ ps) (suc fuel) opcode key payload rest output enough (first, valid) coded
      other last =
    let after_ps = client_frame opcode key payload ++ rest in
    let seen =
      client_frame-read_frame op_ping k p (pings ps ++ after_ps) (omega arith) first.0 first.1
        first.2 in
    ap (λ i. read_on (suc fuel) (record { input = i; output = output; faults = [] }))
      (append_assoc (client_frame op_ping k p) (pings ps) after_ps)
    ∙ ap
        (λ r. received r (read_on fuel) (record {
          input = client_frame op_ping k p ++ (pings ps ++ after_ps);
          output = output;
          faults = [];
        }))
        seen
    ∙ read_on-pings ps fuel opcode key payload rest (output ++ write_frame op_pong p) (omega arith)
        valid coded other last
    ∙ ap (λ o. (message opcode payload, record { input = rest; output = o; faults = [] }))
        (append_assoc output (write_frame op_pong p) (pongs ps))

-- When any number of masked pings of a client and then a masked frame that is not a ping are to be
-- read, and the connection takes every write, ReadFrame returns that frame after it has written a
-- pong with the payload of each ping, in their order.
pub read_message-pings :
    (ps : List (Key × Bytes)) (opcode : ℕ) (key : Key) (payload rest output : Bytes)
    → All IsMasked ps
    → opcode < 16
    → opcode ≢ op_ping
    → IsMasked (key, payload)
    → read_message (record {
      input = pings ps ++ (client_frame opcode key payload ++ rest);
      output = output;
      faults = [];
    })
      ≡ (message opcode payload, record { input = rest; output = output ++ pongs ps; faults = [] })
unfolding read_message
read_message-pings ps opcode key payload rest output valid coded other last =
    let few = length-pings ps in
    let total = length-append (pings ps) (client_frame opcode key payload ++ rest) in
    read_on-pings ps (suc (length (pings ps ++ (client_frame opcode key payload ++ rest)))) opcode
      key payload rest output (omega arith) valid coded other last
