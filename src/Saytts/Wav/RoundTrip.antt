-- ===== src/Saytts/Wav/RoundTrip.antt =====
-- PCMFromWAV of internal/saytts/saytts.go on what pcmToWAV of internal/debugtrace/store.go writes.
use agen_sense.Prelude.{
  ℕ, suc, ◌+◌, ◌-◌, ◌≤◌, ◌<◌, pos, some, true, false, [], ◌∷◌, ◌++◌, length, take, drop, ltb, leb,
  string_eq, ◌≡◌, ◌≢◌, refl, ap, sym, subst, ◌∙◌, arith,
}
use agen_sense.Provider.Types.{AudioFormat}
use agen_sense.Trace.Audio.{
  Bytes, fmt_id, data_id, riff, wave, le16, le32, positive_or, wav_header, pcm_to_wav,
  append_limited, take_all,
}
use agen_sense.Saytts.Wav.{
  slice, le, Outcome, parsed, Step, next, stop, finish, fmt_chunk, chunk, step, loop, pcm_from_wav,
  no_format, padded,
}
use agen_sense.Saytts.Wav.Total.{slice_lem}

le-le16 : (n : ℕ) → n < 65536 → le (le16 n) ≡ n
le-le16 n h = omega arith

le-le32 : (n : ℕ) → n < 4294967296 → le (le32 n) ≡ n
le-le32 n h = omega arith

abbrev pcm_format : ℕ → ℕ → AudioFormat
pcm_format rate channels = record {
  codec = "pcm_s16le";
  sample_rate_hz = pos rate;
  channels = pos channels;
}

-- The fields of a header that PCMFromWAV reads.
record IsHeaded (rate channels size : ℕ) (wav : Bytes) : Type 0 where
  total : length wav ≡ 44 + size
  fmt_name : take 4 (drop 12 wav) ≡ fmt_id
  fmt_size : take 4 (drop 16 wav) ≡ le32 16
  tag : take 2 (drop 20 wav) ≡ le16 1
  channel_count : take 2 (drop 22 wav) ≡ le16 channels
  sample_rate : take 4 (drop 24 wav) ≡ le32 rate
  bits : take 2 (drop 34 wav) ≡ le16 16
  data_name : take 4 (drop 36 wav) ≡ data_id
  data_size : take 4 (drop 40 wav) ≡ le32 size

header-IsHeaded :
    (rate channels : ℕ) (pcm : Bytes)
    → IsHeaded rate channels (length pcm) (wav_header rate channels (length pcm) ++ pcm)
header-IsHeaded rate channels pcm = record {
  total = omega arith;
  fmt_name = refl;
  fmt_size = refl;
  tag = refl;
  channel_count = refl;
  sample_rate = refl;
  bits = refl;
  data_name = refl;
  data_size = refl;
}

-- The bytes of a slice that are known.
known :
    (from to : ℕ) (wav bytes : Bytes)
    → from ≤ to
    → to ≤ length wav
    → take (to - from) (drop from wav) ≡ bytes
    → slice from to wav ≡ some bytes
known from to wav bytes p q e = slice_lem from to wav p q ∙ ap some e

-- What the loop does with a round.
after_round : ℕ → Bytes → Step → Outcome
after_round fuel wav s = elim s [ next o f p ↦ loop fuel o f p wav | stop r ↦ r ]

loop-suc :
    (fuel offset : ℕ) (format : AudioFormat) (pcm wav : Bytes) {s : Step}
    → step offset format pcm wav ≡ s
    → loop (suc fuel) offset format pcm wav ≡ after_round fuel wav s
unfolding loop after_round
loop-suc fuel offset format pcm wav e = ap (after_round fuel wav) e

module _ {rate channels size : ℕ} {wav : Bytes} (h : IsHeaded rate channels size wav) where
  fmt_round :
      rate < 4294967296
      → channels < 65536
      → step 12 no_format [] wav ≡ next 36 (pcm_format rate channels) []
  unfolding step chunk fmt_chunk
  fmt_round small few =
      let total = h.total in
      let long : leb 20 (length wav) ≡ true = ground arith in
      let long' : ltb (length wav) 36 ≡ false = ground arith in
      rw
        (
          long,
          known 12 16 wav fmt_id (omega arith) (omega arith) h.fmt_name,
          known 16 20 wav (le32 16) (omega arith) (omega arith) h.fmt_size,
          long',
          known 20 22 wav (le16 1) (omega arith) (omega arith) h.tag,
          known 22 24 wav (le16 channels) (omega arith) (omega arith) h.channel_count,
          known 24 28 wav (le32 rate) (omega arith) (omega arith) h.sample_rate,
          known 34 36 wav (le16 16) (omega arith) (omega arith) h.bits,
          le-le16 channels few,
          le-le32 rate small,
        )
        refl

  data_chunk :
      (format : AudioFormat)
      → chunk data_id size 44 format [] wav
        ≡ next (padded (44 + size)) format (take (44 + size - 44) (drop 44 wav))
  unfolding chunk
  data_chunk format =
      let total = h.total in
      let long : ltb (length wav) (44 + size) ≡ false = ground arith in
      rw (long, slice_lem 44 (44 + size) wav (omega arith) (omega arith)) refl

  data_round :
      (format : AudioFormat)
      → size < 4294967296
      → step 36 format [] wav
        ≡ next (padded (44 + size)) format (take (44 + size - 44) (drop 44 wav))
  unfolding step
  data_round format small =
      let total = h.total in
      let long : leb 44 (length wav) ≡ true = ground arith in
      rw
        (
          long,
          known 36 40 wav data_id (omega arith) (omega arith) h.data_name,
          known 40 44 wav (le32 size) (omega arith) (omega arith) h.data_size,
        )
        (ap (λ n. chunk data_id n 44 format [] wav) (le-le32 size small) ∙ data_chunk format)

  last_round :
      (format : AudioFormat) (pcm : Bytes)
      → step (padded (44 + size)) format pcm wav ≡ stop (finish format pcm)
  unfolding step
  last_round format pcm =
      let total = h.total in
      let ended : leb (padded (44 + size) + 8) (length wav) ≡ false = ground arith in rw ended refl

  rounds :
      (fuel : ℕ)
      → rate < 4294967296
      → channels < 65536
      → size < 4294967296
      → loop (suc (suc (suc fuel))) 12 no_format [] wav
        ≡ finish (pcm_format rate channels) (take (44 + size - 44) (drop 44 wav))
  unfolding after_round
  rounds fuel small few fits =
      loop-suc (suc (suc fuel)) 12 no_format [] wav (fmt_round small few)
      ∙ loop-suc (suc fuel) 36 (pcm_format rate channels) [] wav
          (data_round (pcm_format rate channels) fits)
      ∙ loop-suc fuel (padded (44 + size)) (pcm_format rate channels)
          (take (44 + size - 44) (drop 44 wav)) wav
          (last_round (pcm_format rate channels) (take (44 + size - 44) (drop 44 wav)))

-- What is written when nothing is cut.
whole_wav :
    (format : AudioFormat) (pcm : Bytes) (max : ℕ)
    → 0 < max
    → (pcm_to_wav format pcm (pos max)).1 ≡ false
    → (pcm_to_wav format pcm (pos max)).0
      ≡ wav_header
          (positive_or format.sample_rate_hz 16000)
          (positive_or format.channels 1)
          (length pcm)
        ++ pcm
unfolding pcm_to_wav append_limited
whole_wav format pcm max positive whole = ground arith

starts_loop :
    (wav : Bytes)
    → 12 ≤ length wav
    → take 4 wav ≡ riff
    → take 4 (drop 8 wav) ≡ wave
    → pcm_from_wav wav ≡ loop (length wav) 12 no_format [] wav
unfolding pcm_from_wav
starts_loop wav long p q = let e : ltb (length wav) 12 ≡ false = ground arith in rw (e, p, q) refl

read_header :
    (rate channels : ℕ) (pcm wav : Bytes)
    → wav ≡ wav_header rate channels (length pcm) ++ pcm
    → rate < 4294967296
    → channels < 65536
    → length pcm < 4294967296
    → pcm_from_wav wav ≡ finish (pcm_format rate channels) pcm
read_header rate channels pcm wav e small few fits =
    let h : IsHeaded rate channels (length pcm) wav =
      subst (IsHeaded rate channels (length pcm)) (sym e) (header-IsHeaded rate channels pcm) in
    let total = h.total in
    starts_loop wav (omega arith) (ap (take 4) e) (ap (λ w. take 4 (drop 8 w)) e)
    ∙ ap (λ n. loop n 12 no_format [] wav) (omega arith)
    ∙ rounds h (41 + length pcm) small few fits
    ∙ ap (finish (pcm_format rate channels)) (
        ap (λ w. take (44 + length pcm - 44) (drop 44 w)) e
        ∙ take_all (44 + length pcm - 44) pcm (omega arith))

finished :
    (rate channels : ℕ) (p : Bytes)
    → p ≢ []
    → finish (pcm_format rate channels) p ≡ parsed p (pcm_format rate channels)
unfolding finish
finished rate channels [] ne = absurd (ne refl)
finished rate channels (b ∷ bs) ne = ground arith

-- PCMFromWAV reads from the file that pcmToWAV writes the samples that went in, and their sample
-- rate and channels with the defaults for those that are not positive, when there are samples, the
-- size limit cuts nothing, and the numbers fit their fields of the header.
pub pcm_to_wav-pcm_from_wav :
    (format : AudioFormat) (pcm : Bytes) (max : ℕ)
    → pcm ≢ []
    → (pcm_to_wav format pcm (pos max)).1 ≡ false
    → positive_or format.sample_rate_hz 16000 < 4294967296
    → positive_or format.channels 1 < 65536
    → length pcm < 4294967296
    → 0 < max
    → pcm_from_wav (pcm_to_wav format pcm (pos max)).0
      ≡ parsed pcm (record {
        codec = "pcm_s16le";
        sample_rate_hz = pos (positive_or format.sample_rate_hz 16000);
        channels = pos (positive_or format.channels 1);
      })
pcm_to_wav-pcm_from_wav format pcm max some_pcm whole small few fits positive =
    read_header (positive_or format.sample_rate_hz 16000) (positive_or format.channels 1) pcm
      (pcm_to_wav format pcm (pos max)).0 (whole_wav format pcm max positive whole) small few fits
    ∙ finished (positive_or format.sample_rate_hz 16000) (positive_or format.channels 1) pcm
        some_pcm
