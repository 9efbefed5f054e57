-- ===== src/Saytts/Wav.antt =====
-- internal/saytts/saytts.go: PCMFromWAV and WAVFormat. A slice out of range is a result of its own,
-- and so is a loop that runs out of fuel; the text of an error is left out.
pub mod Total
pub mod RoundTrip
use agen_sense.Prelude.{
  ℕ, zero, suc, ◌+◌, ◌-◌, ◌*◌, ◌%◌, ℤ, pos, String, Option, none, some, Bool, true, false, not,
  ◌&&◌, ◌||◌, List, [], ◌∷◌, length, take, drop, ltb, leb, nat_beq, ◌==◌, string_eq, if◌then◌else◌,
}
use agen_sense.Provider.Types.{AudioFormat}
use agen_sense.Trace.Audio.{Bytes, bytes_equal, riff, wave, fmt_id, data_id}

-- `wav[from:to]`, or `none` where Go panics.
unfoldable pub slice : ℕ → ℕ → Bytes → Option Bytes
slice from to wav =
    if leb from to && leb to (length wav) then some (take (to - from) (drop from wav)) else none

-- LittleEndian.Uint16 and Uint32 of a slice of their size.
abbrev pub le : Bytes → ℕ
le [] = 0
le (b ∷ bs) = b + 256 * le bs

pub data Outcome : Type 0 where
  parsed : Bytes → AudioFormat → Outcome
  rejected panicked out_of_fuel : Outcome

abbrev pub no_format : AudioFormat
no_format = record { codec = ""; sample_rate_hz = pos 0; channels = pos 0 }

-- One round: the next offset with the format and the samples so far, or the result.
pub data Step : Type 0 where
  next : ℕ → AudioFormat → Bytes → Step
  stop : Outcome → Step

unfoldable pub finish : AudioFormat → Bytes → Outcome
finish format pcm =
    if format.codec == ""
    then rejected
    else if nat_beq (length pcm) 0
    then rejected
    else parsed pcm format

-- `offset%2 != 0` after a chunk
abbrev pub padded : ℕ → ℕ
padded chunk_end = if nat_beq (chunk_end % 2) 0 then chunk_end else chunk_end + 1

abbrev pub format_of : ℕ → ℕ → ℕ → ℕ → ℕ → Bytes → Step
format_of audio_format channels sample_rate bits chunk_end pcm =
    if not (nat_beq audio_format 1) || not (nat_beq bits 16)
    then stop rejected
    else next (padded chunk_end)
        (record { codec = "pcm_s16le"; sample_rate_hz = pos sample_rate; channels = pos channels })
        pcm

unfoldable pub fmt_chunk : ℕ → ℕ → Bytes → Bytes → Step
unfolding slice
fmt_chunk chunk_start chunk_size pcm wav =
    if ltb chunk_size 16 then stop rejected else elim (slice chunk_start (chunk_start + 2) wav) [
      | none ↦ stop panicked
      | some audio_format ↦ elim (slice (chunk_start + 2) (chunk_start + 4) wav) [
        | none ↦ stop panicked
        | some channels ↦ elim (slice (chunk_start + 4) (chunk_start + 8) wav) [
          | none ↦ stop panicked
          | some sample_rate ↦ elim (slice (chunk_start + 14) (chunk_start + 16) wav) [
            | none ↦ stop panicked
            | some bits ↦
                format_of (le audio_format) (le channels) (le sample_rate) (le bits)
                  (chunk_start + chunk_size) pcm
          ]
        ]
      ]
    ]

unfoldable pub chunk : Bytes → ℕ → ℕ → AudioFormat → Bytes → Bytes → Step
unfolding slice fmt_chunk
chunk chunk_id chunk_size chunk_start format pcm wav =
    let chunk_end = chunk_start + chunk_size in
    let fmt_step = fmt_chunk chunk_start chunk_size pcm wav in
    if ltb (length wav) chunk_end
    then stop rejected
    else if bytes_equal chunk_id fmt_id
    then fmt_step
    else if bytes_equal chunk_id data_id
    then (elim (slice chunk_start chunk_end wav) [
      | none ↦ stop panicked
      | some samples ↦ next (padded chunk_end) format samples
    ])
    else next (padded chunk_end) format pcm

unfoldable pub step : ℕ → AudioFormat → Bytes → Bytes → Step
unfolding slice chunk finish
step offset format pcm wav =
    if leb (offset + 8) (length wav)
    then (elim (slice offset (offset + 4) wav) [
      | none ↦ stop panicked
      | some chunk_id ↦ elim (slice (offset + 4) (offset + 8) wav) [
        | none ↦ stop panicked
        | some chunk_size ↦ chunk chunk_id (le chunk_size) (offset + 8) format pcm wav
      ]
    ])
    else stop (finish format pcm)

unfoldable pub loop : ℕ → ℕ → AudioFormat → Bytes → Bytes → Outcome
loop zero offset format pcm wav = out_of_fuel
loop (suc fuel) offset format pcm wav = elim (step offset format pcm wav) [
  | next offset' format' pcm' ↦ loop fuel offset' format' pcm' wav
  | stop result ↦ result
]

-- A round moves the offset by 8 bytes at least.
unfoldable pub pcm_from_wav : Bytes → Outcome
unfolding loop
pcm_from_wav wav =
    if ltb (length wav) 12
    then rejected
    else if not (bytes_equal (take 4 wav) riff)
    then rejected
    else if not (bytes_equal (take 4 (drop 8 wav)) wave)
    then rejected
    else loop (length wav) 12 no_format [] wav
