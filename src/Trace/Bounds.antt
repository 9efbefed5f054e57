-- ===== src/Trace/Bounds.antt =====
-- What the records of internal/debugtrace/store.go hold at most.
use agen_sense.Prelude.{
  ℕ, suc, ◌≤◌, ◌<◌, min, pos, String, Bool, true, false, Option, none, some, List, [], ◌∷◌, ◌++◌,
  length, ltb, nat_beq, ◌||◌, Map, lookup, insert, lookup-insert, ◌≡◌, refl, ap, arith,
  length-append, length-take, ◌==◌, string_eq, int_eq, Bool-cases, Option-cases, inl, inr,
  if◌then◌else◌,
}
use agen_sense.Device.Model.{Time}
use agen_sense.Provider.Types.{AudioFormat}
use agen_sense.Trace.Audio.{
  Bytes, append_limited, append_limited_lem, encode_audio_asset, looks_like_wav, pcm_to_wav,
  wav_header, positive_or,
}
use agen_sense.Trace.Types.{Floats, Segment, LlmStage, StoredAsset, TraceRecord}
use agen_sense.Trace.Store.{AssetDisk}
use agen_sense.Trace.Handle
use agen_sense.Trace.Changes.{Method, change}

append_limited-le :
    (dst src : Bytes) (max : ℕ)
    → 0 < max
    → length dst ≤ max
    → length (append_limited dst src (pos max)).0 ≤ max
append_limited-le dst src max positive fits =
    let e = (append_limited_lem dst src max positive fits).0 in
    let n = length-take max (dst ++ src) in let same = ap length e in omega arith

pub encode_audio_asset-le :
    (format : AudioFormat) (audio : Bytes) (max : ℕ)
    → 0 < max
    → length (encode_audio_asset format audio (pos max)).0 ≤ max
unfolding encode_audio_asset pcm_to_wav
encode_audio_asset-le format audio max positive =
    let header =
      wav_header (positive_or format.sample_rate_hz 16000) (positive_or format.channels 1)
        (length audio) in
    let plain = append_limited-le [] audio max positive (omega arith) in
    let started = append_limited-le [] header max positive (omega arith) in
    let encoded =
      append_limited-le (append_limited [] header (pos max)).0 audio max positive started in
    elim (Bool-cases (nat_beq (length audio) 0)) [
      | inl e ↦ rw e (omega arith)
      | inr e ↦ rw e (elim (Bool-cases (looks_like_wav audio)) [
        | inl f ↦ rw f plain
        | inr f ↦ rw f (elim (Bool-cases (format.codec == "" || format.codec == "pcm_s16le")) [
          | inl g ↦ rw g encoded
          | inr g ↦ rw g plain
        ])
      ])
    ]

-- What of a record takes room: its audio, and the stage that keeps texts.
pub record Kept : Type 0 where
  pub input : Bytes
  pub tts : Bytes
  pub raw : Bytes
  pub assets : Map String StoredAsset
  pub llm : Option LlmStage

-- A stage keeps as many texts as it counted, 2048 at most, and tells whether there were more.
abbrev pub KeepsCount : LlmStage → Type 0
KeepsCount stage =
    (length stage.deltas ≡ min stage.delta_count 2048)
    × (stage.deltas_truncated ≡ ltb 2048 stage.delta_count)

-- One more text.
one_more :
    (deltas : List String) (cut : Bool) (count : ℕ) (text : String)
    → length deltas ≡ min count 2048
    → cut ≡ ltb 2048 count
    → (length (if ltb (length deltas) 2048 then deltas ++ (text ∷ []) else deltas)
        ≡ min (suc count) 2048)
      × ((if ltb (length deltas) 2048 then cut else true) ≡ ltb 2048 (suc count))
one_more deltas cut count text kept flagged =
    let total = length-append deltas (text ∷ []) in ground arith

-- No audio is longer than max bytes, and at most 2048 texts are kept.
pub record IsBounded (max : ℕ) (k : Kept) : Type 0 where
  pub input : length k.input ≤ max
  pub tts : length k.tts ≤ max
  pub raw : length k.raw ≤ max
  pub assets :
      (name : String) (a : StoredAsset) → lookup name k.assets ≡ some a → length a.data_ ≤ max
  pub llm : (stage : LlmStage) → k.llm ≡ some stage → KeepsCount stage

module _ {max : ℕ} (positive : 0 < max) where
  with_input :
      {k : Kept} (bytes : Bytes)
      → length bytes ≤ max
      → IsBounded max k
      → IsBounded max (record k { input = bytes })
  with_input bytes fits b = record {
    input = fits;
    tts = b.tts;
    raw = b.raw;
    assets = b.assets;
    llm = b.llm;
  }

  with_tts :
      {k : Kept} (bytes raw : Bytes)
      → length bytes ≤ max
      → length raw ≤ max
      → IsBounded max k
      → IsBounded max (record k { tts = bytes; raw = raw })
  with_tts bytes raw fits fits' b = record {
    input = b.input;
    tts = fits;
    raw = fits';
    assets = b.assets;
    llm = b.llm;
  }

  with_asset :
      {k : Kept} (name : String) (a : StoredAsset)
      → length a.data_ ≤ max
      → IsBounded max k
      → IsBounded max (record k { assets = insert name a k.assets })
  with_asset {k} name a fits b = record {
    input = b.input;
    tts = b.tts;
    raw = b.raw;
    assets = λ other c h. ground (arith, lookup-insert name other a k.assets, b.assets other c);
    llm = b.llm;
  }

  with_llm :
      {k : Kept} (stage : LlmStage)
      → KeepsCount stage
      → IsBounded max k
      → IsBounded max (record k { llm = some stage })
  with_llm stage first b = record {
    input = b.input;
    tts = b.tts;
    raw = b.raw;
    assets = b.assets;
    llm = λ other h. ground (arith, first, h);
  }

module _ (F : Floats) (base : String → String) where
  abbrev pub kept : TraceRecord F → Kept
  kept r = record {
    input = r.input_audio_data;
    tts = r.tts_audio_data;
    raw = r.tts_raw;
    assets = r.segment_audio;
    llm = r.trace.llm;
  }

  module _ {max : ℕ} (positive : 0 < max) (dir : String) (now : Time) (d : AssetDisk) where
    abbrev Bounded : TraceRecord F → Type 0
    Bounded r = IsBounded max (kept r)

    failed-Bounded :
        (e : Option String) (r : TraceRecord F)
        → Bounded r
        → Bounded (Handle.failed_event F base e now r)
    failed-Bounded none r b = b
    failed-Bounded (some e) r b = b

    texted-Bounded :
        (o : Option (Segment F)) (segment_id text : String) (r : TraceRecord F)
        → Bounded r
        → Bounded (Handle.texted F base o segment_id text now r)
    texted-Bounded none segment_id text r b = b
    texted-Bounded (some g) segment_id text r b = b

    stage-KeepsCount : (r : TraceRecord F) → Bounded r → KeepsCount (Handle.ensure_llm F base r)
    stage-KeepsCount r b = elim (Option-cases r.trace.llm) [
      | inl e ↦ rw e (refl, refl)
      | inr (stage, e) ↦ rw e (b.llm stage e)
    ]

    pub change-Bounded :
        (m : Method F base) (r : TraceRecord F)
        → Bounded r
        → Bounded (change F base (pos max) dir m now (r, d)).0
    unfolding change Handle.set_http_path Handle.set_provider_profile_id Handle.add_event
        Handle.set_input_audio Handle.start_segment Handle.complete_segment Handle.set_segment_text
        Handle.start_asr Handle.complete_asr Handle.start_llm Handle.add_llm_delta
        Handle.complete_llm Handle.start_tts Handle.add_tts_chunk Handle.complete_tts Handle.finish
    change-Bounded (Method.set_http_path path) r b = b
    change-Bounded (Method.set_provider_profile_id profile_id) r b = b
    change-Bounded (Method.add_event name detail) r b = b
    change-Bounded (Method.set_input_audio format audio) r b = failed-Bounded _ _ (
        with_input positive (encode_audio_asset format audio (pos max)).0
          (encode_audio_asset-le format audio max positive) b)
    change-Bounded (Method.start_segment segment_id stream_id format start level) r b =
        elim (Bool-cases (segment_id == "")) [ inl e ↦ rw e b | inr e ↦ rw e b ]
    change-Bounded (Method.complete_segment segment_id format audio start end level peak) r b =
        elim (Bool-cases (segment_id == "")) [
          | inl e ↦ rw e b
          | inr e ↦ rw e (
              failed-Bounded _ _
                (with_asset positive _ _ (encode_audio_asset-le format audio max positive) b))
        ]
    change-Bounded (Method.set_segment_text segment_id text) r b =
        texted-Bounded (Handle.find_segment F base segment_id r.trace.segments) segment_id text r b
    change-Bounded (Method.start_asr format audio_bytes) r b = b
    change-Bounded (Method.complete_asr text) r b = b
    change-Bounded (Method.start_llm messages) r b =
        with_llm positive
          (record (Handle.ensure_llm F base r) {
            started_at = now;
            messages = messages;
            message_count = length messages;
            deltas = [];
            deltas_truncated = false;
            delta_count = 0;
            delta_chars = 0;
            first_delta_ms = pos 0;
            response_text = "";
          })
          (refl, refl) b
    change-Bounded (Method.add_llm_delta text) r b =
        let stage = Handle.ensure_llm F base r in
        let (n, cut) = stage-KeepsCount r b in
        let more = one_more stage.deltas stage.deltas_truncated stage.delta_count text n cut in
        elim (Bool-cases (Handle.is_first F base stage.delta_count stage.started_at)) [
          | inl e ↦ rw e (with_llm positive _ more b)
          | inr e ↦ rw e (with_llm positive _ more b)
        ]
    change-Bounded (Method.complete_llm text) r b = with_llm positive _ (stage-KeepsCount r b) b
    change-Bounded (Method.start_tts text format) r b =
        with_tts positive [] [] (omega arith) (omega arith) b
    change-Bounded (Method.add_tts_chunk data_) r b =
        let stage = Handle.ensure_tts F base r in
        let fits = append_limited-le r.tts_raw data_ max positive b.raw in
        elim (Bool-cases (Handle.is_first F base stage.chunk_count stage.started_at)) [
          | inl e ↦ rw e (with_tts positive r.tts_audio_data _ b.tts fits b)
          | inr e ↦ rw e (with_tts positive r.tts_audio_data _ b.tts fits b)
        ]
    change-Bounded (Method.complete_tts format) r b = failed-Bounded _ _ (
        with_tts positive (encode_audio_asset format r.tts_raw (pos max)).0 r.tts_raw
          (encode_audio_asset-le format r.tts_raw max positive) b.raw b)
    change-Bounded (Method.finish message status) r b = b
