-- ===== src/Tests/Trace.antt =====
-- The store of internal/debugtrace/store.go at small inputs: base names are the names themselves and
-- levels are whole numbers.
use agen_sense.Prelude.{ℕ, pos, ◌+◌, ◌*◌, ltb, String, List, [], ◌∷◌, arith, lookup, refl}
use agen_sense.Device.Model.{Time}
use agen_sense.Provider.Types.{AudioFormat}
use agen_sense.Trace.Types.{Floats, TraceMeta, TraceRecord}
use agen_sense.Trace.Store.{AssetDisk, Store, new_store_with_asset_dir, new_record}
use agen_sense.Trace.Changes.{Method, Call, after_all}
use agen_sense.Trace.Deltas.{Hears, chat_lem}
use agen_sense.Trace.Invariant.{IsSound, new_store_with_asset_dir-IsSound, after_all-IsSound}

abbrev whole_levels : Floats
whole_levels = record { Float = ℕ; zero_float = 0; greater = λ a b. ltb b a }

abbrev same_name : String → String
same_name s = s

abbrev empty_disk : AssetDisk
empty_disk = record { dirs = []; faults = [] }

abbrev ticks : ℕ → Time
ticks n = pos (62135596800000000000 + 1000000 * n)

abbrev device_meta : TraceMeta
device_meta = record {
  device_id = "dev-1";
  device_label = "";
  hardware_sku = "";
  firmware_version = "";
  firmware_channel = "";
  client_id = "";
  session_id = "s-1";
  provider_profile_id = "";
  http_path = "";
}

abbrev mono : AudioFormat
mono = record { codec = "pcm_s16le"; sample_rate_hz = pos 16000; channels = pos 1 }

abbrev two_traces : Store whole_levels same_name
two_traces = new_store_with_asset_dir whole_levels same_name (pos 2) "" empty_disk ticks

abbrev one_turn : List (Call whole_levels same_name)
one_turn =
    Call.starts "voice_turn" "ws" device_meta
    ∷ Call.calls "trace_0_000001" (Method.set_input_audio mono (1 ∷ 2 ∷ []))
    ∷ Call.calls "trace_0_000001" (Method.add_llm_delta "hello")
    ∷ Call.starts "voice_turn" "ws" device_meta
    ∷ Call.starts "voice_turn" "ws" device_meta
    ∷ []

after_all-IsSound_example :
    IsSound whole_levels same_name 8388608 (after_all whole_levels same_name two_traces one_turn)
after_all-IsSound_example =
    after_all-IsSound whole_levels same_name (omega arith) one_turn two_traces
      (new_store_with_asset_dir-IsSound whole_levels same_name (pos 2) "" empty_disk ticks)

abbrev only_trace : TraceRecord whole_levels
only_trace = new_record whole_levels same_name "t" "voice_turn" "ws" device_meta (pos 1)

abbrev one_trace : Store whole_levels same_name
one_trace = record two_traces { order = "t" ∷ []; traces = ("t", only_trace) ∷ [] }

chat_lem_example : Hears whole_levels same_name "t" [] ("a" ∷ "b" ∷ []) (
    after_all whole_levels same_name one_trace (
      Call.calls "t" (Method.start_llm [])
      ∷ Call.calls "t" (Method.add_llm_delta "a")
      ∷ Call.calls "t" (Method.add_llm_delta "b")
      ∷ []))
unfolding lookup
chat_lem_example = chat_lem whole_levels same_name "t" [] ("a" ∷ "b" ∷ []) one_trace only_trace refl
