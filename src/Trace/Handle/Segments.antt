-- ===== src/Trace/Handle/Segments.antt =====
-- internal/debugtrace/store.go: the segments of speech in a trace.
use agen_sense.Prelude.{
  ℤ, pos, ◌-ℤ◌, pos_part, String, Option, none, some, List, [], ◌∷◌, length, insert, ◌==◌,
  string_eq, int_eq, if◌then◌else◌, print_nat, print_int, utf8,
}
use Prim.Native.String.{◌++◌ as joined}
use agen_sense.Device.Model.{Time}
use agen_sense.Provider.Types.{AudioFormat}
use agen_sense.Trace.Audio.{Bytes, encode_audio_asset}
use agen_sense.Trace.Types.{Floats, Segment, new_segment, TraceRecord}
use agen_sense.Trace.Store.{Change}
use agen_sense.Trace.Handle.Events.{preview_text, with_event, on_record, persisted, asset_of}

module _ (F : Floats) (base : String → String) where
  -- The segment of an id, made when there is none, changed in place.
  abbrev upsert : String → Segment F → (Segment F → Segment F) → List (Segment F) → List (Segment F)
  upsert segment_id fresh f [] = f fresh ∷ []
  upsert segment_id fresh f (g ∷ gs) =
      let rest = upsert segment_id fresh f gs in if g.id == segment_id then f g ∷ gs else g ∷ rest

  abbrev pub find_segment : String → List (Segment F) → Option (Segment F)
  find_segment segment_id [] = none
  find_segment segment_id (g ∷ gs) =
      let rest = find_segment segment_id gs in if g.id == segment_id then some g else rest

  abbrev max_float : F.Float → F.Float → F.Float
  max_float a b = if F.greater a b then a else b

  unfoldable pub start_segment : String → String → AudioFormat → ℤ → F.Float → Change F base
  start_segment segment_id stream_id format start_offset_ms level = on_record F base λ now r.
      if segment_id == ""
      then r
      else with_event F base "vad.segment.started" (utf8 segment_id) now (record r {
        trace = record r.trace {
          segments =
              upsert segment_id (new_segment F segment_id (pos 0))
                (λ g. record g {
                  stream_id = stream_id;
                  started_at = now;
                  start_offset_ms = start_offset_ms;
                  format = format;
                  start_level = level;
                  peak_level = max_float g.peak_level level;
                })
                r.trace.segments;
        };
      })

  -- `end - start`, or 0 when it is negative
  abbrev duration_of : ℤ → ℤ → ℤ
  duration_of end_offset_ms start_offset_ms = pos (pos_part (end_offset_ms -ℤ start_offset_ms))

  abbrev duration_in : Option (Segment F) → ℤ
  duration_in none = pos 0
  duration_in (some g) = g.duration_ms

  abbrev segment_asset_name : String → String
  segment_asset_name segment_id = joined (base segment_id) ".wav"

  unfoldable pub complete_segment :
      ℤ → String → String → AudioFormat → Bytes → ℤ → ℤ → F.Float → F.Float → Change F base
  complete_segment max asset_dir segment_id format audio start_offset_ms end_offset_ms end_level
        peak_level now (r, d) =
      let asset = encode_audio_asset format audio max in
      let segments =
        upsert segment_id (new_segment F segment_id start_offset_ms)
          (λ g. record g {
            completed_at = now;
            end_offset_ms = end_offset_ms;
            duration_ms = duration_of end_offset_ms g.start_offset_ms;
            audio_bytes = length audio;
            format = format;
            end_level = end_level;
            peak_level = max_float g.peak_level peak_level;
            audio = some (asset_of F base asset);
          })
          r.trace.segments in
      let r' : TraceRecord F = record r {
        trace = record r.trace { segments = segments };
        segment_audio =
            insert (segment_asset_name segment_id) (record { data_ = asset.0; mime = asset.1 })
              r.segment_audio;
      } in
      let told = joined segment_id (
        joined " · " (
          joined (print_nat (length audio)) (
            joined " bytes · "
              (joined (print_int (duration_in (find_segment segment_id segments))) " ms")))) in
      if segment_id == ""
      then (r, d)
      else persisted F base asset_dir (segment_asset_name segment_id) asset.0
          "vad.segment.completed" (utf8 told) now (r', d)

  abbrev change_segment : String → (Segment F → Segment F) → List (Segment F) → List (Segment F)
  change_segment segment_id f [] = []
  change_segment segment_id f (g ∷ gs) =
      let rest = change_segment segment_id f gs in if g.id == segment_id then f g ∷ gs else g ∷ rest

  abbrev pub texted : Option (Segment F) → String → String → Time → TraceRecord F → TraceRecord F
  texted none segment_id text now r = r
  texted (some g) segment_id text now r =
      with_event F base "vad.segment.transcribed" (preview_text text 96) now (record r {
        trace = record r.trace {
          segments = change_segment segment_id (λ g. record g { text = text }) r.trace.segments;
        };
      })

  unfoldable pub set_segment_text : String → String → Change F base
  set_segment_text segment_id text =
      on_record F base
        λ now r. texted (find_segment segment_id r.trace.segments) segment_id text now r
