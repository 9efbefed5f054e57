-- ===== src/Voicews/Events/Laws.antt =====
-- What the loop of a voice session keeps and how it leaves the session.
use agen_sense.Prelude.{
  ℤ, String, Bool, true, false, not, ◌||◌, Option, none, some, List, [], ◌∷◌, ◌++◌, is_some,
  if◌then◌else◌, trim_space, ◌==◌, string_eq, ◌≡◌, refl,
}
use agen_sense.Voicews.Values.{SessionConfig}
use agen_sense.Voicews.State.{Levels, Session, Output, Failure, Handled}
use agen_sense.Voicews.Input.{cancel_response, complete_open_trace, cancel_partial_asr_locked}
use agen_sense.Voicews.Input.Chunks.{handle_audio_chunk}
use agen_sense.Voicews.Input.Segments.{IsConsistent}
use agen_sense.Voicews.Input.Invariant.{
  starts, chunk, stops, handle, handle-IsConsistent, cancel_input-IsConsistent,
}
use agen_sense.Voicews.Response.{
  ResponseCreatePayload, handle_response_create, handle_response_cancel,
  complete_open_trace_with_response_done,
}
use agen_sense.Voicews.Update.{Profile, Updated, configured, updated_config, handle_session_update}
use agen_sense.Voicews.Lifecycle.{lost, closed}
use agen_sense.Voicews.Events.{
  Event, session_update, audio_start, audio_stop, input_cancel, response_create, response_cancel,
  rejected, unsupported, Frame, event_frame, invalid_text, binary, close, other_frame, Step,
  of_handled, of_updated, handle_event, reported, on_frame, run,
}

-- A frame as `run` takes it.
abbrev pub Arrived : Levels → Type 0
Arrived L = ℤ × Option (Failure L) × Frame

module _ (L : Levels) (to_lower : String → String) (resolve : String → Option Profile) where
  Keeps : Step L to_lower resolve → Type 0
  Keeps r = IsConsistent L r.1

  handled-Keeps : (r : Handled L) → IsConsistent L r.1 → Keeps (of_handled L to_lower resolve r)
  unfolding Keeps
  handled-Keeps r h = h

  -- What does not touch the input keeps it.
  configured-Keeps :
      (wrote : Option (Failure L)) (cfg : SessionConfig) (o : Option Profile) (s : Session L)
      → IsConsistent L s
      → IsConsistent L (configured L to_lower resolve wrote cfg o s).1
  configured-Keeps wrote cfg none s h = h
  configured-Keeps wrote cfg (some p) s h =
      go p.builds_asr p.builds_llm p.builds_tts (_, s, _) (_, s, _) (_, s, _) _ h h h h
    where
      go :
          (a b c : Bool) (w x y z : Updated L to_lower resolve)
          → IsConsistent L w.1
          → IsConsistent L x.1
          → IsConsistent L y.1
          → IsConsistent L z.1
          → IsConsistent L (if not a then w else if not b then x else if not c then y else z).1
      go false b c w x y z p q r s = p
      go true false c w x y z p q r s = q
      go true true false w x y z p q r s = r
      go true true true w x y z p q r s = s

  updated-Keeps :
      (r : Updated L to_lower resolve)
      → IsConsistent L r.1
      → Keeps (of_updated L to_lower resolve r)
  unfolding Keeps
  updated-Keeps (e, s, none) h = h
  updated-Keeps (e, s, some cfg) h = h

  create-Keeps :
      (p : ResponseCreatePayload) (s : Session L)
      → IsConsistent L s
      → IsConsistent L (handle_response_create L to_lower p s).1
  unfolding handle_response_create cancel_response
  create-Keeps p s h =
      go (trim_space p.text == "") (not s.has_llm || not s.has_tts) (_, s, _) _ _ h h h
    where
      go :
          (a b : Bool) (x y z : Handled L)
          → IsConsistent L x.1
          → IsConsistent L y.1
          → IsConsistent L z.1
          → IsConsistent L (if a then x else if b then y else z).1
      go true b x y z p q r = p
      go false true x y z p q r = q
      go false false x y z p q r = r

  cancel-Keeps :
      (s : Session L) → IsConsistent L s → IsConsistent L (handle_response_cancel L to_lower s).0
  unfolding handle_response_cancel cancel_response complete_open_trace_with_response_done
  cancel-Keeps s h = go (is_some s.response_cancel) _ _ h h
    where
      go :
          (b : Bool) (x y : Session L × List (Output L))
          → IsConsistent L x.0
          → IsConsistent L y.0
          → IsConsistent L (if b then x else y).0
      go true x y p q = p
      go false x y p q = q

  event-Keeps :
      (now : ℤ) (wrote : Option (Failure L)) (e : Event) (s : Session L)
      → IsConsistent L s
      → Keeps (handle_event L to_lower resolve now wrote e s)
  unfolding handle_event handle_session_update handle Keeps
  event-Keeps now wrote (session_update p) s h =
      updated-Keeps (handle_session_update L to_lower resolve now wrote p s) (
        configured-Keeps wrote (updated_config L to_lower resolve now p s.cfg)
          (resolve (trim_space p.provider_profile_id)) s h)
  event-Keeps now wrote (audio_start p) s h = handle-IsConsistent L (starts now p) s h
  event-Keeps now wrote (audio_stop p) s h = handle-IsConsistent L (stops p) s h
  event-Keeps now wrote input_cancel s h = cancel_input-IsConsistent L s
  event-Keeps now wrote (response_create p) s h = create-Keeps p s h
  event-Keeps now wrote response_cancel s h = cancel-Keeps s h
  event-Keeps now wrote rejected s h = h
  event-Keeps now wrote unsupported s h = h

  reported-Keeps :
      (code : String) (r : Step L to_lower resolve)
      → Keeps r
      → IsConsistent L (reported L to_lower resolve code r).0
  unfolding Keeps
  reported-Keeps code (none, s, outs) h = h
  reported-Keeps code (some e, s, outs) h = h

  frame-Keeps :
      (now : ℤ) (wrote : Option (Failure L)) (f : Frame) (s : Session L)
      → IsConsistent L s
      → IsConsistent L (on_frame L to_lower resolve now wrote f s).0
  unfolding on_frame handle Keeps
  frame-Keeps now wrote (event_frame e) s h =
      reported-Keeps "event_rejected" _ (event-Keeps now wrote e s h)
  frame-Keeps now wrote invalid_text s h = h
  frame-Keeps now wrote (binary payload) s h = reported-Keeps "audio_rejected" _ (
      handled-Keeps (handle_audio_chunk L now payload s)
        (handle-IsConsistent L (chunk now payload) s h))
  frame-Keeps now wrote close s h = h
  frame-Keeps now wrote other_frame s h = h

  -- A consistent session without a response to cancel and without an open trace.
  abbrev pub IsOver : Session L → Type 0
  IsOver s = IsConsistent L s × (s.response_cancel ≡ none) × (s.turn_trace ≡ none)

  lost-IsOver : (s : Session L) → IsConsistent L s → IsOver (lost L s).0
  unfolding lost cancel_response complete_open_trace
  lost-IsOver s h = (h, refl, refl)

  closed-IsOver : (s : Session L) → IsConsistent L s → IsOver (closed L s).0
  unfolding closed cancel_response complete_open_trace cancel_partial_asr_locked
  closed-IsOver s h = ((refl, h.1), refl, refl)

  run_all-IsOver :
      (frames : List (Arrived L)) (s : Session L)
      → IsConsistent L s
      → IsOver (run L to_lower resolve frames s).0
  unfolding run
  run_all-IsOver [] s h = lost-IsOver s h
  run_all-IsOver ((now, wrote, close) ∷ frames) s h = closed-IsOver s h
  run_all-IsOver ((now, wrote, event_frame e) ∷ frames) s h =
      run_all-IsOver frames _ (frame-Keeps now wrote (event_frame e) s h)
  run_all-IsOver ((now, wrote, invalid_text) ∷ frames) s h =
      run_all-IsOver frames _ (frame-Keeps now wrote invalid_text s h)
  run_all-IsOver ((now, wrote, binary payload) ∷ frames) s h =
      run_all-IsOver frames _ (frame-Keeps now wrote (binary payload) s h)
  run_all-IsOver ((now, wrote, other_frame) ∷ frames) s h =
      run_all-IsOver frames _ (frame-Keeps now wrote other_frame s h)

  -- What is read after a close frame makes no difference.
  run-close :
      (frames after : List (Arrived L)) (now : ℤ) (wrote : Option (Failure L)) (s : Session L)
      → run L to_lower resolve (frames ++ ((now, wrote, close) ∷ after)) s
        ≡ run L to_lower resolve (frames ++ ((now, wrote, close) ∷ [])) s
  unfolding run
  run-close [] after now wrote s = refl
  run-close ((n, w, close) ∷ frames) after now wrote s = refl
  run-close ((n, w, event_frame e) ∷ frames) after now wrote s =
      rw (run-close frames after now wrote (on_frame L to_lower resolve n w (event_frame e) s).0)
        refl
  run-close ((n, w, invalid_text) ∷ frames) after now wrote s =
      rw (run-close frames after now wrote (on_frame L to_lower resolve n w invalid_text s).0) refl
  run-close ((n, w, binary payload) ∷ frames) after now wrote s =
      rw (run-close frames after now wrote (on_frame L to_lower resolve n w (binary payload) s).0)
        refl
  run-close ((n, w, other_frame) ∷ frames) after now wrote s =
      rw (run-close frames after now wrote (on_frame L to_lower resolve n w other_frame s).0) refl

  -- From a consistent session, whatever frames come, run leaves a consistent session with no
  -- response to cancel and no open trace; and the frames that follow a close frame change neither
  -- the session that run leaves nor what it sends.
  pub run-IsOver :
      (frames after : List (Arrived L)) (now : ℤ) (wrote : Option (Failure L)) (s : Session L)
      → IsConsistent L s
      → IsOver (run L to_lower resolve frames s).0
        × (run L to_lower resolve (frames ++ ((now, wrote, close) ∷ after)) s
            ≡ run L to_lower resolve (frames ++ ((now, wrote, close) ∷ [])) s)
  run-IsOver frames after now wrote s h =
      (run_all-IsOver frames s h, run-close frames after now wrote s)
