-- ===== src/Trace/Audio.antt =====
-- internal/debugtrace/store.go: limited buffers and the encoding of audio. Bytes are numbers. The
-- products of the header are cut to 32 bits when they are written, as a 64-bit int would be.
use agen_sense.Prelude.{
  ℕ, zero, suc, ◌+◌, ◌-◌, ◌*◌, ◌/◌, ◌%◌, ◌≤◌, ◌<◌, min, ℤ, pos, pos_part, is_positive, String, Bool,
  true, false, not, ◌&&◌, ◌||◌, List, [], ◌∷◌, ◌++◌, length, take, drop, ltb, leb, nat_beq, ◌==◌,
  string_eq, if◌then◌else◌, ◌≡◌, refl, ap, ◌∙◌, sym, arith, length-append, length-take, ◌↔◌, ◌⊎◌,
}
use mathlib.Core.List.{append-nil, append_assoc}
use agen_sense.Provider.Types.{AudioFormat}

abbrev pub Bytes : Type 0
Bytes = List ℕ

-- bytes.Equal
abbrev pub bytes_equal : Bytes → Bytes → Bool
bytes_equal [] [] = true
bytes_equal [] (y ∷ ys) = false
bytes_equal (x ∷ xs) [] = false
bytes_equal (x ∷ xs) (y ∷ ys) = nat_beq x y && bytes_equal xs ys

unfoldable pub append_limited : Bytes → Bytes → ℤ → Bytes × Bool
append_limited dst src max =
    let remaining = pos_part max - length dst in
    if not (is_positive max)
    then (dst ++ src, false)
    else if leb (pos_part max) (length dst)
    then (dst, true)
    else if ltb remaining (length src)
    then (dst ++ take remaining src, true)
    else (dst ++ src, false)

abbrev pub riff : Bytes
riff = b'R' ∷ b'I' ∷ b'F' ∷ b'F' ∷ []

abbrev pub wave : Bytes
wave = b'W' ∷ b'A' ∷ b'V' ∷ b'E' ∷ []

abbrev pub fmt_id : Bytes
fmt_id = b'f' ∷ b'm' ∷ b't' ∷ b' ' ∷ []

abbrev pub data_id : Bytes
data_id = b'd' ∷ b'a' ∷ b't' ∷ b'a' ∷ []

unfoldable pub looks_like_wav : Bytes → Bool
looks_like_wav audio =
    leb 12 (length audio)
    && bytes_equal (take 4 audio) riff
    && bytes_equal (take 4 (drop 8 audio)) wave

-- binary.Write of a uint16 and of a uint32 in little-endian order.
abbrev pub le16 : ℕ → Bytes
le16 n = n % 256 ∷ n / 256 % 256 ∷ []

abbrev pub le32 : ℕ → Bytes
le32 n = n % 256 ∷ n / 256 % 256 ∷ n / 65536 % 256 ∷ n / 16777216 % 256 ∷ []

abbrev pub positive_or : ℤ → ℕ → ℕ
positive_or n default = if is_positive n then pos_part n else default

-- The 44 bytes of the header.
abbrev pub wav_header : ℕ → ℕ → ℕ → Bytes
wav_header sample_rate channels data_size =
    riff
    ++ le32 (36 + data_size)
    ++ wave
    ++ fmt_id
    ++ le32 16
    ++ le16 1
    ++ le16 channels
    ++ le32 sample_rate
    ++ le32 (sample_rate * channels * 2)
    ++ le16 (channels * 2)
    ++ le16 16
    ++ data_id
    ++ le32 data_size

unfoldable pub pcm_to_wav : AudioFormat → Bytes → ℤ → Bytes × Bool
unfolding append_limited
pcm_to_wav format pcm max =
    let header =
      wav_header (positive_or format.sample_rate_hz 16000) (positive_or format.channels 1)
        (length pcm) in
    let (started, header_truncated) = append_limited [] header max in
    let (data_, data_truncated) = append_limited started pcm max in
    (data_, header_truncated || data_truncated)

abbrev audio_wav : String
audio_wav = "audio/wav"

-- The bytes, their MIME type, and whether they were cut.
unfoldable pub encode_audio_asset : AudioFormat → Bytes → ℤ → Bytes × String × Bool
unfolding append_limited looks_like_wav pcm_to_wav
encode_audio_asset format audio max =
    let (plain, plain_truncated) = append_limited [] audio max in
    let (encoded, encoded_truncated) = pcm_to_wav format audio max in
    if nat_beq (length audio) 0
    then ([], audio_wav, false)
    else if looks_like_wav audio
    then (plain, audio_wav, plain_truncated)
    else if format.codec == "" || format.codec == "pcm_s16le"
    then (encoded, audio_wav, encoded_truncated)
    else (plain, "application/octet-stream", plain_truncated)

take-append :
    (n : ℕ) (xs ys : Bytes) → length xs ≤ n → take n (xs ++ ys) ≡ xs ++ take (n - length xs) ys
take-append n [] ys h = ap (λ k. take k ys) (omega arith)
take-append zero (x ∷ xs) ys h = absurd (omega arith)
take-append (suc n) (x ∷ xs) ys h =
    ap (x ∷◌) (take-append n xs ys (omega arith) ∙ ap (λ k. xs ++ take k ys) (omega arith))

pub take_all : (n : ℕ) (xs : Bytes) → length xs ≤ n → take n xs ≡ xs
take_all zero [] h = refl
take_all zero (x ∷ xs) h = absurd (omega arith)
take_all (suc n) [] h = refl
take_all (suc n) (x ∷ xs) h = ap (x ∷◌) (take_all n xs (omega arith))

full_room : (max : ℕ) (dst : Bytes) → max ≤ length dst → max - length dst ≡ 0
full_room max dst h = omega arith

-- A buffer.
pub append_limited_lem :
    (dst src : Bytes) (max : ℕ)
    → 0 < max
    → length dst ≤ max
    → ((append_limited dst src (pos max)).0 ≡ take max (dst ++ src))
      × (((append_limited dst src (pos max)).1 ≡ true)
          ↔ ((length dst ≡ max) ⊎ (max < length (dst ++ src))))
unfolding append_limited
append_limited_lem dst src max positive fits =
    let split = take-append max dst src fits in
    let whole = take_all max (dst ++ src) in
    let total = length-append dst src in
    let full = λ (e : max ≤ length dst).
      ap (λ k. dst ++ take k src) (full_room max dst e) ∙ append-nil dst in
    ground arith

-- All chunks of a stream appended to a buffer, with the flag of the last one.
unfoldable pub append_all : Bytes × Bool → List Bytes → ℤ → Bytes × Bool
append_all buffer [] max = buffer
append_all buffer (chunk ∷ chunks) max = append_all (append_limited buffer.0 chunk max) chunks max

unfoldable pub concat : List Bytes → Bytes
concat [] = []
concat (x ∷ xs) = x ++ concat xs

length-take-le : (n : ℕ) (xs : Bytes) → length (take n xs) ≤ n
length-take-le n xs = let e = length-take n xs in omega arith

take-take-append : (n : ℕ) (xs ys : Bytes) → take n (take n xs ++ ys) ≡ take n (xs ++ ys)
take-take-append zero xs ys = refl
take-take-append (suc n) [] ys = refl
take-take-append (suc n) (x ∷ xs) ys = ap (x ∷◌) (take-take-append n xs ys)

-- Chunks appended one by one under a positive limit, to a buffer that is within it, leave the first
-- bytes up to the limit of the buffer and the chunks together.
append_all_lem :
    (chunks : List Bytes) (dst : Bytes) (cut : Bool) (max : ℕ)
    → 0 < max
    → length dst ≤ max
    → (append_all (dst, cut) chunks (pos max)).0 ≡ take max (dst ++ concat chunks)
unfolding append_all concat
append_all_lem [] dst cut max positive fits =
    sym (ap (take max) (append-nil dst) ∙ take_all max dst fits)
append_all_lem (c ∷ chunks) dst cut max positive fits =
    let step = (append_limited_lem dst c max positive fits).0 in
    let fits' : length (append_limited dst c (pos max)).0 ≤ max =
      rw step (length-take-le max (dst ++ c)) in
    append_all_lem chunks (append_limited dst c (pos max)).0 (append_limited dst c (pos max)).1 max
      positive fits'
    ∙ ap (λ x. take max (x ++ concat chunks)) step
    ∙ take-take-append max (dst ++ c) (concat chunks)
    ∙ ap (take max) (append_assoc dst c (concat chunks))

-- Not cut.
append_all_room :
    (c : Bytes) (chunks : List Bytes) (dst : Bytes) (cut : Bool) (max : ℕ)
    → 0 < max
    → length dst ≤ max
    → (append_all (dst, cut) (c ∷ chunks) (pos max)).1 ≡ false
    → (length dst < max) × (length (dst ++ concat (c ∷ chunks)) ≤ max)
unfolding append_all concat
append_all_room c [] dst cut max positive fits kept =
    let step = (append_limited_lem dst c max positive fits).1 in
    let same = ap length (append-nil c) in
    let total = length-append dst c in let total' = length-append dst (c ++ []) in ground arith
append_all_room c (d ∷ chunks) dst cut max positive fits kept =
    let (step, flag) = append_limited_lem dst c max positive fits in
    let size : length (append_limited dst c (pos max)).0 ≡ min max (length (dst ++ c)) =
      ap length step ∙ length-take max (dst ++ c) in
    let (room, total) =
      append_all_room d chunks (append_limited dst c (pos max)).0 (append_limited dst c (pos max)).1
        max positive (omega (arith, size)) kept in
    let sum = length-append (append_limited dst c (pos max)).0 (concat (d ∷ chunks)) in
    let parts = length-append dst c in
    let whole = length-append dst (c ++ concat (d ∷ chunks)) in
    let tail = length-append c (concat (d ∷ chunks)) in (omega arith, omega arith)

-- Nothing is lost.
append_all_whole :
    (c : Bytes) (chunks : List Bytes) (max : ℕ)
    → 0 < max
    → (append_all ([], false) (c ∷ chunks) (pos max)).1 ≡ false
    → (append_all ([], false) (c ∷ chunks) (pos max)).0 ≡ concat (c ∷ chunks)
append_all_whole c chunks max positive kept =
    append_all_lem (c ∷ chunks) [] false max positive (omega arith)
    ∙ take_all max (concat (c ∷ chunks))
        (append_all_room c chunks [] false max positive (omega arith) kept).1
