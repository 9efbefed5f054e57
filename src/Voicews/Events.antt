-- ===== src/Voicews/Events.antt =====
-- handleEvent and run of internal/voicews/session.go: what each frame of the connection does. A frame
-- comes decoded: DecodeEvent and DecodePayload are of internal/protocol, `rejected` stands for their
-- errors. With each frame come a reading of the clock and the error, if any, of the write by which
-- its handler ends. What goroutines do in between is not part of a frame.
pub mod Laws
use agen_sense.Prelude.{
  ℕ, ℤ, String, Bool, true, false, Option, none, some, List, [], ◌∷◌, ◌++◌, map,
}
use agen_sense.Protocol.Types.{AudioStartPayload, AudioStopPayload}
use agen_sense.Voicews.Values.{SessionConfig}
use agen_sense.Voicews.State.{Levels, Session, Output, wrote_error, Failure, because, Handled}
use agen_sense.Voicews.Input.{handle_audio_start}
use agen_sense.Voicews.Input.Chunks.{handle_audio_chunk}
use agen_sense.Voicews.Input.Stops.{handle_audio_stop, cancel_input}
use agen_sense.Voicews.Response.{
  ResponseCreatePayload, handle_response_create, handle_response_cancel,
}
use agen_sense.Voicews.Update.{SessionUpdatePayload, Profile, Updated, handle_session_update}
use agen_sense.Voicews.Lifecycle.{lost, closed}

pub data Event : Type 0 where
  session_update : SessionUpdatePayload → Event
  audio_start : AudioStartPayload → Event
  audio_stop : AudioStopPayload → Event
  input_cancel : Event
  response_create : ResponseCreatePayload → Event
  response_cancel : Event
  rejected unsupported : Event

pub data Frame : Type 0 where
  event_frame : Event → Frame
  invalid_text : Frame
  binary : List ℕ → Frame
  close : Frame
  other_frame : Frame

-- What a session sends, or tries to: its outputs, and session.ready with its configuration.
pub data Sent (L : Levels) : Type 0 where
  did : Output L → Sent L
  ready : SessionConfig → Sent L

module _ (L : Levels) (to_lower : String → String) (resolve : String → Option Profile) where
  abbrev pub Step : Type 0
  Step = Option (Failure L) × Session L × List (Sent L)

  abbrev pub sent : List (Output L) → List (Sent L)
  sent [] = []
  sent (o ∷ outs) = did o ∷ sent outs

  abbrev pub of_handled : Handled L → Step
  of_handled (e, s, outs) = (e, s, sent outs)

  abbrev pub of_updated : Updated L to_lower resolve → Step
  of_updated (e, s, none) = (e, s, [])
  of_updated (e, s, some cfg) = (e, s, ready cfg ∷ [])

  abbrev pub of_done : Session L × List (Output L) → Step
  of_done (s, outs) = (none, s, sent outs)

  -- What ends by a write whose error, if any, is `wrote`.
  abbrev pub of_written : Option (Failure L) → Session L × List (Output L) → Step
  of_written wrote (s, outs) = (wrote, s, sent outs)

  unfoldable pub handle_event : ℤ → Option (Failure L) → Event → Session L → Step
  handle_event now wrote (session_update p) s =
      of_updated (handle_session_update L to_lower resolve now wrote p s)
  handle_event now wrote (audio_start p) s = of_handled (handle_audio_start L now p s)
  handle_event now wrote (audio_stop p) s = of_handled (handle_audio_stop L p s)
  handle_event now wrote input_cancel s = of_done (cancel_input L s)
  handle_event now wrote (response_create p) s = of_handled (handle_response_create L to_lower p s)
  handle_event now wrote response_cancel s = of_written wrote (handle_response_cancel L to_lower s)
  handle_event now wrote rejected s = (some (because "payload"), s, [])
  handle_event now wrote unsupported s = (some (because "unsupported event type"), s, [])

  -- An error of a handler is written with the code `code`.
  abbrev pub reported : String → Step → Session L × List (Sent L)
  reported code (none, s, outs) = (s, outs)
  reported code (some e, s, outs) = (s, outs ++ did (wrote_error code) ∷ [])

  -- The body of the loop for a frame that is not a close: the session goes on.
  unfoldable pub on_frame : ℤ → Option (Failure L) → Frame → Session L → Session L × List (Sent L)
  on_frame now wrote (event_frame e) s = reported "event_rejected" (handle_event now wrote e s)
  on_frame now wrote invalid_text s = (s, did (wrote_error "invalid_event") ∷ [])
  on_frame now wrote (binary payload) s =
      reported "audio_rejected" (of_handled (handle_audio_chunk L now payload s))
  on_frame now wrote close s = (s, [])
  on_frame now wrote other_frame s = (s, did (wrote_error "unsupported_frame") ∷ [])

  -- run, over the frames that are read before a read fails.
  unfoldable pub run : List (ℤ × Option (Failure L) × Frame) → Session L → Session L × List (Sent L)
  run [] s = let (next, outs) = lost L s in (next, sent outs)
  run ((now, wrote, close) ∷ frames) s = let (next, outs) = closed L s in (next, sent outs)
  run ((now, wrote, frame) ∷ frames) s =
      let (next, outs) = on_frame now wrote frame s in
      let (last, rest) = run frames next in (last, outs ++ rest)
