-- ===== src/Trace/Handle/Events.antt =====
-- internal/debugtrace/store.go: the timeline, the description and the input of a trace.
use agen_sense.Prelude.{
  ℕ, ℤ, String, Bool, ◌||◌, Option, none, some, [], ◌∷◌, ◌++◌, length, take, leb, nat_beq, ◌==◌,
  string_eq, int_eq, if◌then◌else◌, print_nat, utf8,
}
use Prim.Native.String.{◌++◌ as joined}
use agen_sense.Device.Model.{Time, zero_time}
use agen_sense.Provider.Types.{AudioFormat}
use agen_sense.Trace.Audio.{Bytes, encode_audio_asset}
use agen_sense.Trace.Types.{Floats, AudioAsset, TraceRecord}
use agen_sense.Trace.Store.{ms_between, Change, persist_asset}

-- A text longer than a positive limit is cut there and marked.
unfoldable pub preview_text : String → ℕ → Bytes
preview_text text limit =
    let bytes = utf8 text in
    if nat_beq limit 0 || leb (length bytes) limit
    then bytes
    else take limit bytes ++ (b'.' ∷ b'.' ∷ b'.' ∷ [])

abbrev pub elapsed : Time → Time → ℤ → ℤ
elapsed start now old = if start == zero_time then old else ms_between start now

module _ (F : Floats) (base : String → String) where
  abbrev pub with_event : String → Bytes → Time → TraceRecord F → TraceRecord F
  with_event name detail now r = record r {
    trace = record r.trace {
      timeline = r.trace.timeline ++ (record { at = now; name = name; detail = detail } ∷ []);
    };
  }

  -- A change of the record alone.
  abbrev pub on_record : (Time → TraceRecord F → TraceRecord F) → Change F base
  on_record f now (r, d) = (f now r, d)

  abbrev pub failed_event : Option String → Time → TraceRecord F → TraceRecord F
  failed_event none now r = r
  failed_event (some e) now r = with_event "asset.persist_failed" (utf8 e) now r

  -- The file of an asset, an event if it could not be written, and one more event.
  abbrev pub persisted : String → String → Bytes → String → Bytes → Change F base
  persisted asset_dir file data_ name detail now (r, d) =
      let (e, d') = persist_asset F base asset_dir r file data_ d in
      (with_event name detail now (failed_event e now r), d')

  unfoldable pub set_http_path : String → Change F base
  set_http_path path = on_record λ now r. record r {
    trace = record r.trace { meta = record r.trace.meta { http_path = path } };
  }

  unfoldable pub set_provider_profile_id : String → Change F base
  set_provider_profile_id profile_id = on_record λ now r. record r {
    trace = record r.trace { meta = record r.trace.meta { provider_profile_id = profile_id } };
  }

  unfoldable pub add_event : String → String → Change F base
  add_event name detail = on_record (with_event name (preview_text detail 160))

  abbrev pub asset_of : Bytes × String × Bool → AudioAsset
  asset_of (data_, mime, truncated) = record {
    mime = mime;
    bytes = length data_;
    truncated = truncated;
  }

  unfoldable pub set_input_audio : ℤ → String → AudioFormat → Bytes → Change F base
  set_input_audio max asset_dir format audio now (r, d) =
      let asset = encode_audio_asset format audio max in
      let r' : TraceRecord F = record r {
        trace = record r.trace { input_audio_format = format; input_audio = some (asset_of asset) };
        input_audio_data = asset.0;
        input_audio_mime = asset.1;
      } in
      persisted asset_dir "input.wav" asset.0 "input.audio.received"
        (utf8 (joined (print_nat (length audio)) " bytes")) now (r', d)
