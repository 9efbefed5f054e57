-- ===== src/Tests/Frames.antt =====
-- The loop of the voice session of internal/voicews/session.go over a few frames, and a session.update.
use agen_sense.Prelude.{pos, String, true, Option, none, some, List, [], ◌∷◌, ◌++◌, ◌⊎◌, ◌≡◌, refl}
use agen_sense.Voicews.Values.{no_entries}
use agen_sense.Voicews.Lifecycle.{new_session}
use agen_sense.Voicews.Update.{SessionUpdatePayload, Profile, handle_session_update}
use agen_sense.Voicews.Update.Laws.{IsRefused, IsConfigured, handle_session_update_lem, long-named}
use agen_sense.Voicews.Events.{
  session_update, audio_start, response_cancel, unsupported, event_frame, invalid_text, binary,
  close, run,
}
use agen_sense.Voicews.Events.Laws.{Arrived, IsOver, run-IsOver}
use agen_sense.Voicews.State.{Failure, because}
use agen_sense.Tests.Voicews.{levels, idle_session, opening, new_session-IsConsistent}

abbrev same_text : String → String
same_text s = s

-- A registry with one profile, whose factory builds all clients.
abbrev one_profile : String → Option Profile
one_profile id =
    some (record {
      id = "p";
      llm_model = "m";
      builds_asr = true;
      builds_llm = true;
      builds_tts = true;
    })

abbrev update : SessionUpdatePayload
update = record {
  client_id = " c ";
  device_label = "";
  session_id = "";
  provider_profile_id = "p";
  response_language = "";
  auto_respond = true;
  format = some no_entries;
  voice_assistant = none;
  ui_context = no_entries;
  assistant_intent = none;
  metadata = no_entries;
}

abbrev broken : Option (Failure levels)
broken = some (because "broken pipe")

handle_session_update_lem_example :
    let r = handle_session_update levels same_text one_profile (pos 6) broken update idle_session in
    IsRefused levels same_text one_profile idle_session r
    ⊎ IsConfigured levels same_text one_profile broken r
unfolding new_session
handle_session_update_lem_example =
    handle_session_update_lem levels same_text one_profile (pos 6) broken update idle_session
      (long-named "pcm_s16le" 8 refl, refl, refl)

abbrev frames : List (Arrived levels)
frames =
    (pos 6, none, event_frame (session_update update))
    ∷ (pos 7, none, event_frame (audio_start opening))
    ∷ (pos 8, none, binary (1 ∷ 2 ∷ []))
    ∷ (pos 9, none, invalid_text)
    ∷ (pos 10, broken, event_frame response_cancel)
    ∷ (pos 11, none, event_frame unsupported)
    ∷ []

run-IsOver_example :
    IsOver levels same_text one_profile (run levels same_text one_profile frames idle_session).0
    × (run levels same_text one_profile
          (frames ++ ((pos 12, none, close) ∷ (pos 13, none, binary []) ∷ []))
          idle_session
        ≡ run levels same_text one_profile (frames ++ ((pos 12, none, close) ∷ [])) idle_session)
run-IsOver_example =
    run-IsOver levels same_text one_profile frames ((pos 13, none, binary []) ∷ []) (pos 12) none
      idle_session new_session-IsConsistent
