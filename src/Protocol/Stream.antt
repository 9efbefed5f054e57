-- ===== src/Protocol/Stream.antt =====
-- internal/protocol/stream_tracker.go: one stream at a time. The count of frames is a number that
-- does not wrap.
pub mod Grammar
use agen_sense.Prelude.{
  ℕ, ℤ, pos, suc, Option, none, some, Bool, not, ◌==◌, string_eq, int_eq, if◌then◌else◌,
}
use agen_sense.Protocol.Types.{AudioStartPayload, AudioStopPayload, ProtocolError, stream_state}
use agen_sense.Protocol.Validate.{Check, validate_audio_start}

pub record StreamTracker : Type 0 where
  pub active : Option AudioStartPayload
  pub frame_count : ℕ

abbrev pub new_tracker : StreamTracker
new_tracker = record { active = none; frame_count = 0 }

-- A method of the tracker: its error, if any, and the tracker after it.
abbrev pub Method : Type 0
Method = StreamTracker → Check × StreamTracker

abbrev pub opened : Check → AudioStartPayload → Method
opened (some e) p t = (some e, t)
opened none p t = (none, record { active = some p; frame_count = 0 })

abbrev pub start_from : Option AudioStartPayload → AudioStartPayload → Method
start_from (some q) p t = (some stream_state, t)
start_from none p t = opened (validate_audio_start p) p t

unfoldable pub start : AudioStartPayload → Method
start p t = start_from t.active p t

abbrev add_frame_to : Option AudioStartPayload → Method
add_frame_to none t = (some stream_state, t)
add_frame_to (some p) t = (none, record t { frame_count = suc t.frame_count })

unfoldable pub add_frame : Method
add_frame t = add_frame_to t.active t

abbrev pub stop_from : Option AudioStartPayload → AudioStopPayload → Method
stop_from none q t = (some stream_state, t)
stop_from (some p) q t =
    if not (q.stream_id == p.stream_id)
    then (some stream_state, t)
    else if not (q.last_seq == pos t.frame_count)
    then (some stream_state, t)
    else (none, new_tracker)

unfoldable pub stop : AudioStopPayload → Method
stop q t = stop_from t.active q t

-- Active
unfoldable pub active_stream : StreamTracker → Option (AudioStartPayload × ℕ)
active_stream t = elim t.active [ none ↦ none | some p ↦ some (p, t.frame_count) ]
