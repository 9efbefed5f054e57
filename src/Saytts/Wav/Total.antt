-- ===== src/Saytts/Wav/Total.antt =====
-- The loop of PCMFromWAV in internal/saytts/saytts.go ends, and reads inside its input.
use agen_sense.Prelude.{
  ℕ, zero, suc, ◌+◌, ◌-◌, ◌≤◌, ◌<◌, some, [], length, take, drop, ltb, nat_beq, not, ◌||◌, ◌==◌,
  string_eq, leb, ◌≡◌, refl, ◌⊎◌, inl, inr, arith, Bool-cases,
}
use agen_sense.Provider.Types.{AudioFormat}
use agen_sense.Trace.Audio.{Bytes, bytes_equal, fmt_id, data_id, riff, wave}
use agen_sense.Saytts.Wav.{
  no_format, format_of, padded, slice, le, Outcome, parsed, rejected, Step, next, stop, finish,
  fmt_chunk, chunk, step, loop, pcm_from_wav,
}

-- A slice in range.
pub slice_lem :
    (from to : ℕ) (wav : Bytes)
    → from ≤ to
    → to ≤ length wav
    → slice from to wav ≡ some (take (to - from) (drop from wav))
unfolding slice
slice_lem from to wav p q = ground arith

-- A round is rejected, has its result, or moves on.
data IsGood (least : ℕ) : Step → Type 0 where
  refused : IsGood least (stop rejected)
  read : {p : Bytes} {f : AudioFormat} → IsGood least (stop (parsed p f))
  moved : {o : ℕ} {f : AudioFormat} {p : Bytes} → least ≤ o → IsGood least (next o f p)

le-padded : (n : ℕ) → n ≤ padded n
le-padded n = ground arith

format_of-IsGood :
    (least tag channels rate bits chunk_end : ℕ) (pcm : Bytes)
    → least ≤ chunk_end
    → IsGood least (format_of tag channels rate bits chunk_end pcm)
format_of-IsGood least tag channels rate bits chunk_end pcm h =
    let padding = le-padded chunk_end in
    elim (Bool-cases (not (nat_beq tag 1) || not (nat_beq bits 16))) [
      | inl e ↦ rw e refused
      | inr e ↦ rw e (moved (omega arith))
    ]

-- The number in a slice.
abbrev word : ℕ → ℕ → Bytes → ℕ
word from to wav = le (take (to - from) (drop from wav))

fmt_chunk-IsGood :
    (start size : ℕ) (pcm wav : Bytes)
    → start + size ≤ length wav
    → IsGood start (fmt_chunk start size pcm wav)
unfolding fmt_chunk
fmt_chunk-IsGood start size pcm wav fits = elim (Bool-cases (ltb size 16)) [
  | inl e ↦ rw e refused
  | inr e ↦
      let big : 16 ≤ size = ground arith in
      rw
        (
          e,
          slice_lem start (start + 2) wav (omega arith) (omega arith),
          slice_lem (start + 2) (start + 4) wav (omega arith) (omega arith),
          slice_lem (start + 4) (start + 8) wav (omega arith) (omega arith),
          slice_lem (start + 14) (start + 16) wav (omega arith) (omega arith),
        )
        (format_of-IsGood start (word start (start + 2) wav) (word (start + 2) (start + 4) wav)
          (word (start + 4) (start + 8) wav) (word (start + 14) (start + 16) wav) (start + size) pcm
          (omega arith))
]

chunk-IsGood :
    (chunk_id : Bytes) (size start : ℕ) (format : AudioFormat) (pcm wav : Bytes)
    → IsGood start (chunk chunk_id size start format pcm wav)
unfolding chunk
chunk-IsGood chunk_id size start format pcm wav =
    let padding = le-padded (start + size) in
    elim (Bool-cases (ltb (length wav) (start + size))) [
      | inl e ↦ rw e refused
      | inr e ↦
          let fits : start + size ≤ length wav = ground arith in
          rw e (elim (Bool-cases (bytes_equal chunk_id fmt_id)) [
            | inl f ↦ rw f (fmt_chunk-IsGood start size pcm wav fits)
            | inr f ↦ rw f (elim (Bool-cases (bytes_equal chunk_id data_id)) [
              | inl g ↦
                  rw (g, slice_lem start (start + size) wav (omega arith) fits)
                    (moved (omega arith))
              | inr g ↦ rw g (moved (omega arith))
            ])
          ])
    ]

finish-IsGood :
    (least : ℕ) (format : AudioFormat) (pcm : Bytes) → IsGood least (stop (finish format pcm))
unfolding finish
finish-IsGood least format pcm = elim (Bool-cases (format.codec == "")) [
  | inl e ↦ rw e refused
  | inr e ↦
      rw e (elim (Bool-cases (nat_beq (length pcm) 0)) [ inl f ↦ rw f refused | inr f ↦ rw f read ])
]

step-IsGood :
    (offset : ℕ) (format : AudioFormat) (pcm wav : Bytes)
    → IsGood (offset + 8) (step offset format pcm wav)
unfolding step
step-IsGood offset format pcm wav = elim (Bool-cases (leb (offset + 8) (length wav))) [
  | inr e ↦ rw e (finish-IsGood (offset + 8) format pcm)
  | inl e ↦
      let fits : offset + 8 ≤ length wav = ground arith in
      rw
        (
          e,
          slice_lem offset (offset + 4) wav (omega arith) (omega arith),
          slice_lem (offset + 4) (offset + 8) wav (omega arith) fits,
        )
        (chunk-IsGood (take (offset + 4 - offset) (drop offset wav))
          (word (offset + 4) (offset + 8) wav) (offset + 8) format pcm wav)
]

-- A round that moves on has read a chunk's head inside the input.
step-next :
    (offset : ℕ) (format : AudioFormat) (pcm wav : Bytes) (o : ℕ) (f : AudioFormat) (p : Bytes)
    → step offset format pcm wav ≡ next o f p
    → offset + 8 ≤ length wav
unfolding step
step-next offset format pcm wav o f p e = elim (Bool-cases (leb (offset + 8) (length wav))) [
  | inl h ↦ ground arith
  | inr h ↦ absurd (ground arith)
]

abbrev IsResult : Outcome → Type 0
IsResult r = (r ≡ rejected) ⊎ ((p : Bytes) × (f : AudioFormat) × (r ≡ parsed p f))

loop-IsResult :
    (fuel offset : ℕ) (format : AudioFormat) (pcm wav : Bytes)
    → 0 < fuel
    → length wav < offset + fuel
    → IsResult (loop fuel offset format pcm wav)
unfolding loop
loop-IsResult zero offset format pcm wav positive enough = absurd (omega arith)
loop-IsResult (suc fuel) offset format pcm wav positive enough =
    by_step (λ o f p. loop-IsResult fuel o f p wav) (step offset format pcm wav) refl
      (step-IsGood offset format pcm wav)
  where
    by_step :
        ((o : ℕ) (f : AudioFormat) (p : Bytes)
          → 0 < fuel
          → length wav < o + fuel
          → IsResult (loop fuel o f p wav))
        → (s : Step) → step offset format pcm wav ≡ s
        → IsGood (offset + 8) s
        → IsResult (elim s [ next o f p ↦ loop fuel o f p wav | stop r ↦ r ])
    by_step later s e refused = inl refl
    by_step later s e (read {p} {f}) = inr (p, f, refl)
    by_step later s e (moved {o} {f} {p} h) =
        let inside = step-next offset format pcm wav o f p e in
        later o f p (omega arith) (omega arith)

-- On any bytes, PCMFromWAV returns an error or samples with a format: its loop ends within as many
-- rounds as there are bytes, and no slice is out of range.
pub pcm_from_wav-IsResult :
    (wav : Bytes)
    → (pcm_from_wav wav ≡ rejected)
      ⊎ ((p : Bytes) × (f : AudioFormat) × (pcm_from_wav wav ≡ parsed p f))
unfolding pcm_from_wav
pcm_from_wav-IsResult wav = elim (Bool-cases (ltb (length wav) 12)) [
  | inl e ↦ inl (rw e refl)
  | inr e ↦
      let long : 12 ≤ length wav = ground arith in
      let run = loop-IsResult (length wav) 12 no_format [] wav (omega arith) (omega arith) in
      rw e (elim (Bool-cases (not (bytes_equal (take 4 wav) riff))) [
        | inl f ↦ rw f (inl refl)
        | inr f ↦ rw f (elim (Bool-cases (not (bytes_equal (take 4 (drop 8 wav)) wave))) [
          | inl g ↦ rw g (inl refl)
          | inr g ↦ rw g run
        ])
      ])
]
