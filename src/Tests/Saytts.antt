-- ===== src/Tests/Saytts.antt =====
-- PCMFromWAV of internal/saytts/saytts.go at small inputs.
use agen_sense.Prelude.{pos, false, [], ◌∷◌, ◌≡◌, ◌⊎◌, refl, arith}
use agen_sense.Provider.Types.{AudioFormat}
use agen_sense.Trace.Audio.{Bytes, pcm_to_wav, append_limited}
use agen_sense.Saytts.Wav.{pcm_from_wav, step, parsed, rejected}
use agen_sense.Saytts.Wav.Total.{pcm_from_wav-IsResult}
use agen_sense.Saytts.Wav.RoundTrip.{pcm_to_wav-pcm_from_wav}

abbrev mono : AudioFormat
mono = record { codec = "pcm_s16le"; sample_rate_hz = pos 16000; channels = pos 1 }

-- A fmt chunk that announces more than the file has.
abbrev short_file : Bytes
short_file =
    82 ∷ 73 ∷ 70 ∷ 70 ∷ 0 ∷ 0 ∷ 0 ∷ 0 ∷ 87 ∷ 65 ∷ 86 ∷ 69 ∷ 102 ∷ 109 ∷ 116 ∷ 32 ∷ 16 ∷ 0 ∷ 0 ∷ 0
    ∷ 1 ∷ []

short_file_rejected : pcm_from_wav short_file ≡ rejected
unfolding pcm_from_wav step
short_file_rejected = refl

pcm_from_wav-IsResult_example :
    (pcm_from_wav short_file ≡ rejected)
    ⊎ ((p : Bytes) × (f : AudioFormat) × (pcm_from_wav short_file ≡ parsed p f))
pcm_from_wav-IsResult_example = pcm_from_wav-IsResult short_file

samples_fit : (pcm_to_wav mono (1 ∷ 2 ∷ 3 ∷ 4 ∷ []) (pos 100)).1 ≡ false
unfolding pcm_to_wav append_limited
samples_fit = refl

pcm_to_wav-pcm_from_wav_example :
    pcm_from_wav (pcm_to_wav mono (1 ∷ 2 ∷ 3 ∷ 4 ∷ []) (pos 100)).0
    ≡ parsed (1 ∷ 2 ∷ 3 ∷ 4 ∷ []) mono
pcm_to_wav-pcm_from_wav_example =
    pcm_to_wav-pcm_from_wav mono (1 ∷ 2 ∷ 3 ∷ 4 ∷ []) 100 (λ e. absurd (cc)) samples_fit
      (omega arith) (omega arith) (omega arith) (omega arith)
