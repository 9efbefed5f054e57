-- ===== src/Tests/Wsconn.antt =====
-- Frames of internal/gateway/wsconn/conn.go at small inputs.
use agen_sense.Prelude.{true, false, [], ◌∷◌, ◌++◌, ◌≡◌, ◌≢◌, refl, arith}
use agen_sense.Gateway.Wsconn.{frame, read_frame, write_frame}
use agen_sense.Gateway.Wsconn.Client.{Key, client_frame, client_frame-read_frame}
use agen_sense.Gateway.Wsconn.RoundTrip.{write_frame-read_frame}
use agen_sense.Gateway.Wsconn.Messages.{
  Conn, message, out_of_fuel, read_message, pings, pongs, read_message-pings,
}
use agen_sense.Gateway.Wsconn.Total.{read_message-ends}

abbrev small_key : Key
small_key = record { k0 = 17; k1 = 34; k2 = 51; k3 = 255 }

hi_written : write_frame 1 (104 ∷ 105 ∷ []) ≡ (129 ∷ 2 ∷ 104 ∷ 105 ∷ [])
unfolding write_frame
hi_written = refl

write_frame-read_frame_example :
    read_frame (write_frame 1 (104 ∷ 105 ∷ []) ++ (7 ∷ [])) ≡ frame 1 (104 ∷ 105 ∷ []) (7 ∷ [])
write_frame-read_frame_example =
    write_frame-read_frame 1 (104 ∷ 105 ∷ []) (7 ∷ []) (omega arith) (omega arith)

client_frame-read_frame_example :
    read_frame (client_frame 2 small_key (1 ∷ 2 ∷ 3 ∷ 4 ∷ 5 ∷ []) ++ (7 ∷ []))
    ≡ frame 2 (1 ∷ 2 ∷ 3 ∷ 4 ∷ 5 ∷ []) (7 ∷ [])
client_frame-read_frame_example =
    client_frame-read_frame 2 small_key (1 ∷ 2 ∷ 3 ∷ 4 ∷ 5 ∷ []) (7 ∷ []) (omega arith)
      (omega arith) (omega arith, omega arith, omega arith, omega arith)
      (omega arith, (omega arith, (omega arith, (omega arith, (omega arith, tt)))))

read_message-pings_example :
    read_message (record {
      input = pings ((small_key, 9 ∷ []) ∷ []) ++ (client_frame 1 small_key (104 ∷ []) ++ []);
      output = [];
      faults = [];
    })
    ≡ (
      message 1 (104 ∷ []),
      record { input = []; output = pongs ((small_key, 9 ∷ []) ∷ []); faults = [] },
    )
read_message-pings_example =
    read_message-pings ((small_key, 9 ∷ []) ∷ []) 1 small_key (104 ∷ []) [] []
      ((omega arith, (omega arith, omega arith, omega arith, omega arith), (omega arith, tt)), tt)
      (omega arith) (λ e. absurd (omega arith))
      (omega arith, (omega arith, omega arith, omega arith, omega arith), (omega arith, tt))

-- Two pings whose second answer is not taken.
abbrev two_pings : Conn
two_pings = record {
  input = pings ((small_key, []) ∷ (small_key, 1 ∷ []) ∷ []);
  output = [];
  faults = true ∷ false ∷ [];
}

read_message-ends_example : (read_message two_pings).0 ≢ out_of_fuel
read_message-ends_example = read_message-ends two_pings
