-- ===== src/Voicews/Lifecycle.antt =====
-- newSession of internal/voicews/session.go, and how a session ends in its run: after a failed read
-- and after a close frame.
use Prim.Native.String.{◌++◌ as join}
use agen_sense.Prelude.{ℤ, pos, Bool, false, none, List, [], ◌++◌, print_int}
use agen_sense.Protocol.Stream.{new_tracker}
use agen_sense.Voicews.Values.{no_entries}
use agen_sense.Voicews.State.{Levels, Session, Output}
use agen_sense.Voicews.Input.{
  new_vad, cancel_response, cancel_all, cancel_partial_asr_locked, complete_open_trace,
}

module _ (L : Levels) where
  unfoldable pub new_session : ℤ → Bool → Session L
  new_session unix_nano has_debug = record {
    cfg = record {
      client_id = "agendash-voice";
      device_label = "";
      session_id = join "voice-" (print_int unix_nano);
      provider_profile_id = "";
      llm_model = "";
      response_language = "";
      auto_respond = false;
      format = record { codec = "pcm_s16le"; sample_rate_hz = pos 16000; channels = pos 1 };
      voice_assistant = record {
        contract = "";
        ui_context = no_entries;
        assistant_intent = none;
        metadata = no_entries;
      };
    };
    has_asr = false;
    has_llm = false;
    has_tts = false;
    has_debug = has_debug;
    inbound = record {
      tracker = new_tracker;
      format = record { codec = ""; sample_rate_hz = pos 0; channels = pos 0 };
      audio = [];
      seq = 0;
      started_at = pos 0;
      echo_guard = false;
    };
    turn_trace = none;
    vad = new_vad L;
    partial = record {
      in_flight = false;
      cancel = none;
      run_id = 0;
      last_at = pos 0;
      last_text = "";
      last_size = 0;
    };
    response_cancel = none;
    response_active = false;
    recent_speech = [];
    playback_echo_until = pos 0;
    fresh = 0;
  }

  -- `err != nil` of ReadFrame.
  unfoldable pub lost : Session L → Session L × List (Output L)
  lost s =
      let (active, s1, first) = cancel_response L s in
      let (s2, last) = complete_open_trace L s1 in (s2, first ++ last)

  -- The close frame.
  unfoldable pub closed : Session L → Session L × List (Output L)
  closed s =
      let (active, s1, first) = cancel_response L s in
      let s2 = record s1 { partial = cancel_partial_asr_locked L s1.partial } in
      let (s3, last) = complete_open_trace L s2 in
      (s3, first ++ cancel_all L s1.partial.cancel ++ last)
