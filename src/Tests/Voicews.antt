-- ===== src/Tests/Voicews.antt =====
-- The input of the voice session of internal/voicews/session.go at small inputs, and the echo of what
-- it says. The level of a chunk is its length, and any byte is speech.
use Prim.Native.String.{count}
use agen_sense.Prelude.{
  ℕ, ℤ, pos, ◌≤◌, ◌*◌, ◌/◌, String, Bool, true, false, none, some, List, [], ◌∷◌, ltb, ltb_ℤ,
  length, is_space, spread, ◌≡◌, refl, arith, inl, ◌-ℤ◌,
}
use agen_sense.Protocol.Types.{AudioStartPayload, AudioStopPayload}
use agen_sense.Voicews.Values.{SessionConfig}
use agen_sense.Voicews.Echo.{Unicode, runes, starts_with, contains, echo_rune, normalize_echo_text}
use agen_sense.Voicews.State.{Levels, Session}
use agen_sense.Voicews.Input.Stops.{handle_audio_stop}
use agen_sense.Voicews.Input.Segments.{IsConsistent}
use agen_sense.Voicews.Input.Invariant.{
  Request, starts, chunk, stops, cancels, partial_ends, handle_all, handle_all-IsConsistent,
}
use agen_sense.Voicews.Input.Utterance.{chunks_of, HandsOver, utterance_lem}
use agen_sense.Voicews.Lifecycle.{new_session}
use agen_sense.Voicews.Response.Final.{run_final_asr, speak_segment}
use agen_sense.Voicews.Response.Echoes.{IsSuppressed, speak_all, speak_segment-run_final_asr}

abbrev pub levels : Levels
levels = record {
  Float = ℕ;
  zero_level = 0;
  greater = λ a b. ltb b a;
  pcm_level = length;
  is_speech = λ level. ltb 0 level;
  span = λ bytes per_second. pos (bytes * 1000000000 / per_second);
}

abbrev pub idle_session : Session levels
idle_session = new_session levels (pos 5) true

abbrev listening : Session levels
listening = record idle_session { has_asr = true }

abbrev pub opening : AudioStartPayload
opening = record {
  stream_id = "in";
  codec = "pcm_s16le";
  sample_rate_hz = pos 16000;
  channels = pos 1;
}

abbrev closing : AudioStopPayload
closing = record { stream_id = "in"; last_seq = pos 2 }

abbrev two_chunks : List (ℤ × List ℕ)
two_chunks = (pos 8, 1 ∷ 2 ∷ []) ∷ (pos 9, 3 ∷ 4 ∷ []) ∷ []

abbrev busy : List Request
busy =
    chunk (pos 6) []
    ∷ starts (pos 7) opening
    ∷ chunk (pos 8) (1 ∷ 2 ∷ [])
    ∷ partial_ends 2
    ∷ starts (pos 9) opening
    ∷ cancels
    ∷ stops closing
    ∷ []

pub new_session-IsConsistent : IsConsistent levels idle_session
unfolding new_session
new_session-IsConsistent = (refl, inl refl)

handle_all-IsConsistent_example : IsConsistent levels (handle_all levels busy idle_session)
handle_all-IsConsistent_example =
    handle_all-IsConsistent levels busy idle_session new_session-IsConsistent

utterance_lem_example : HandsOver levels listening.cfg opening (1 ∷ 2 ∷ 3 ∷ 4 ∷ []) (
    handle_audio_stop levels closing
      (handle_all levels (starts (pos 7) opening ∷ chunks_of two_chunks) listening))
unfolding new_session
utterance_lem_example =
    utterance_lem levels (pos 7) opening two_chunks closing listening refl refl refl refl refl refl
      refl refl refl

abbrev plain_runes : Unicode
plain_runes = record { to_lower = λ c. c; is_punct = λ c. false; is_symbol = λ c. false }

abbrev same_text : String → String
same_text s = s

abbrev no_script : ℕ → Bool
no_script c = false

abbrev no_time : ℤ → String
no_time t = ""

long_segment : 8 ≤ count (normalize_echo_text plain_runes "open the window")
unfolding normalize_echo_text spread echo_rune is_space
long_segment = omega arith

long_echo : 8 ≤ count (normalize_echo_text plain_runes "the window")
unfolding normalize_echo_text spread echo_rune is_space
long_echo = omega arith

stands_in :
    contains
      (runes (normalize_echo_text plain_runes "open the window"))
      (runes (normalize_echo_text plain_runes "the window"))
    ≡ true
unfolding normalize_echo_text spread echo_rune is_space contains starts_with runes
stands_in = refl

soon : ltb_ℤ (pos 10) (pos 2000000010 -ℤ pos 20000000000) ≡ false
unfolding ◌-ℤ◌
soon = refl

abbrev answering : SessionConfig
answering = record listening.cfg { auto_respond = true }

-- Three more segments, shortly after another.
abbrev more_segments : List (ℤ × String)
more_segments =
    (pos 1000000010, "the lamp is lit")
    ∷ (pos 1000000011, "anything else")
    ∷ (pos 1000000012, "good evening")
    ∷ []

abbrev echoing : Session levels
echoing =
    speak_all levels same_text no_script no_time plain_runes (λ c h. refl) more_segments
      (speak_segment levels same_text no_script no_time plain_runes (pos 10) "open the window"
        listening)

speak_segment-run_final_asr_example :
    IsSuppressed levels same_text no_script no_time plain_runes
      (λ c h. refl)
      (run_final_asr levels same_text no_script no_time plain_runes
        (some "the window")
        (pos 2000000010)
        answering
        "in"
        (1 ∷ 2 ∷ [])
        none
        echoing).1
speak_segment-run_final_asr_example =
    speak_segment-run_final_asr levels same_text no_script no_time plain_runes (λ c h. refl)
      (pos 10) (pos 2000000010) "open the window" "the window" more_segments answering "in"
      (1 ∷ 2 ∷ []) none listening refl refl long_segment long_echo stands_in (omega arith)
      ((omega arith, omega arith), ((omega arith, omega arith), ((omega arith, omega arith), tt)))
      soon
