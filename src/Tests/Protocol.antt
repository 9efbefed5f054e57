-- ===== src/Tests/Protocol.antt =====
-- The events and the stream tracker of internal/protocol at concrete inputs.
use agen_sense.Prelude.{
  ℕ, pos, false, Option, none, some, List, [], ◌∷◌, ◌≡◌, ◌↔◌, refl, ◌==◌, string_eq, if◌then◌else◌,
}
use agen_sense.Device.Model.{RawMessage}
use agen_sense.Protocol.Types.{Values, Payload, AudioStartPayload, llm_delta, k_llm_delta}
use agen_sense.Protocol.Validate.{
  PayloadJson, Envelope, validate_envelope, validate_payload, validate_typed_payload, expected_kind,
}
use agen_sense.Protocol.Envelope.{
  EnvelopeJson, done, new_event, marshal_payload, marshal_event, decode_event, decode_payload,
}
use agen_sense.Protocol.Stream.{new_tracker}
use agen_sense.Protocol.Stream.Grammar.{Call, starts, frame, stops, run, Turns, run_iff}

abbrev voice : AudioStartPayload
voice = record {
  stream_id = "s";
  codec = "pcm_s16le";
  sample_rate_hz = pos 16000;
  channels = pos 1;
}

abbrev two_frames : List Call
two_frames =
    starts voice ∷ frame ∷ frame ∷ stops (record { stream_id = "s"; last_seq = pos 2 }) ∷ []

run_iff_example : (run two_frames new_tracker ≡ some new_tracker) ↔ Turns two_frames
run_iff_example = run_iff two_frames

abbrev values : Values
values = record { Json = ℕ; Float = ℕ; below_zero = λ x. false; above_one = λ x. false }

-- A codec that writes one reply of an llm.delta, and no other payload.
abbrev written : Payload values → Option RawMessage
written (llm_delta text) = if text == "hi" then some (some (34 ∷ [])) else none
written _ = none

abbrev texts : PayloadJson values
texts = record { unmarshal = λ k raw. some (llm_delta "hi"); marshal = written }

abbrev as_is : EnvelopeJson
as_is = record { Bytes = Envelope; marshal = some; unmarshal = some }

abbrev reply : Envelope
reply = record {
  type = "llm.delta";
  request_id = "";
  session_id = "sess-1";
  ts_ms = pos 9;
  payload = some (34 ∷ []);
}

reply_built :
    new_event values texts (pos 9) "llm.delta" "" "sess-1" (some (llm_delta "hi")) ≡ done reply
unfolding new_event marshal_payload validate_envelope validate_payload validate_typed_payload
    expected_kind
reply_built = refl

reply_written : marshal_event values texts as_is reply ≡ done reply
unfolding marshal_event validate_envelope validate_payload validate_typed_payload expected_kind
reply_written = refl

reply_decoded : decode_payload values texts k_llm_delta reply ≡ done (llm_delta "hi")
unfolding decode_payload
reply_decoded = refl

reply_read : decode_event values texts as_is reply ≡ done reply
unfolding decode_event validate_envelope validate_payload validate_typed_payload expected_kind
reply_read = refl
