-- ===== src/Voicews/Response/Echoes.antt =====
-- The session does not answer itself.
use Prim.Native.Char.{Char, code}
use Prim.Native.String.{count}
use agen_sense.Prelude.{
  ℕ, ℤ, ◌≤◌, String, Bool, true, false, Option, none, some, List, [], ◌∷◌, ◌++◌, length, nat_beq,
  ◌==◌, string_eq, if◌then◌else◌, trim_space, is_space, ◌≡◌, refl, ap, ◌∙◌,
}
use agen_sense.Voicews.Values.{SessionConfig}
use agen_sense.Voicews.Echo.{
  Unicode, runes, contains, normalize_echo_text, mostly_recent_speech_echo,
}
use agen_sense.Voicews.Echo.Laws.{
  remember-mostly_recent_speech_echo, normalize-trim_space, remember_all, Between,
}
use agen_sense.Voicews.Echo.Remembered.{IsWithin}
use agen_sense.Voicews.State.{
  Levels, Session, Output, TraceCall, event, asr_completed, segment_text, completed, cancelled,
  traced, vad_state, response_done, asr_final, wrote_error, partial_asr, final_asr, respond,
  on_trace,
}
use agen_sense.Voicews.Response.Final.{
  segment_outputs, is_match, transcribed, run_final_asr, speak_segment,
}

-- Whether a transcript or an answer goes out.
unfoldable pub speaks_up : (L : Levels) → List (Output L) → Bool
speaks_up L [] = false
speaks_up L (asr_final stream_id text ∷ outs) = true
speaks_up L (respond cfg format text voice_assistant trace ∷ outs) = true
speaks_up L (_ ∷ outs) = speaks_up L outs

module _ (L : Levels) where
  quiet-append :
      (a b : List (Output L))
      → speaks_up L a ≡ false
      → speaks_up L b ≡ false
      → speaks_up L (a ++ b) ≡ false
  unfolding speaks_up
  quiet-append [] b p q = q
  quiet-append (cancelled c ∷ a) b p q = quiet-append a b p q
  quiet-append (traced t c ∷ a) b p q = quiet-append a b p q
  quiet-append (vad_state v l ∷ a) b p q = quiet-append a b p q
  quiet-append (response_done v ∷ a) b p q = quiet-append a b p q
  quiet-append (wrote_error v ∷ a) b p q = quiet-append a b p q
  quiet-append (partial_asr n c i f x ∷ a) b p q = quiet-append a b p q
  quiet-append (final_asr c i f x t ∷ a) b p q = quiet-append a b p q
  quiet-append (asr_final i t ∷ a) b p q = absurd (cc)
  quiet-append (respond c f t v x ∷ a) b p q = absurd (cc)

  quiet-trace :
      (trace : Option ℕ) (call : TraceCall L) → speaks_up L (on_trace L trace call) ≡ false
  unfolding speaks_up
  quiet-trace none call = refl
  quiet-trace (some t) call = refl

  module _ (to_lower : String → String) (is_cjk_script : ℕ → Bool) (rfc3339 : ℤ → String)
      (u : Unicode) (lower_space : (c : Char) → is_space (code c) ≡ true → u.to_lower c ≡ c) where
    quiet-segment :
        (trace : Option ℕ) (id text : String)
        → speaks_up L (segment_outputs L to_lower is_cjk_script rfc3339 u trace id text) ≡ false
    unfolding speaks_up
    quiet-segment trace id text = go (id == "")
      where
        go :
            (b : Bool)
            → speaks_up L (if b then [] else on_trace L trace (segment_text id text)) ≡ false
        go true = refl
        go false = quiet-trace trace (segment_text id text)

    -- Nothing is said, and the response is done as an echo.
    abbrev pub IsSuppressed : List (Output L) → Type 0
    IsSuppressed outs =
        (speaks_up L outs ≡ false)
        × ((first : List (Output L)) × (outs ≡ first ++ response_done "echo_suppressed" ∷ []))

    transcribed-IsSuppressed :
        (later : ℤ) (cfg : SessionConfig) (stream_id text : String) (trace : Option ℕ)
        (s : Session L)
        → cfg.auto_respond ≡ true
        → is_match (mostly_recent_speech_echo u later text s.recent_speech) ≡ true
        → IsSuppressed
            (transcribed L to_lower is_cjk_script rfc3339 u later cfg stream_id text trace s).1
    unfolding transcribed speaks_up
    transcribed-IsSuppressed later cfg stream_id text trace s auto matched =
        let id = s.vad.last_segment_id in
        let a = on_trace L trace (asr_completed text) in
        let b = segment_outputs L to_lower is_cjk_script rfc3339 u trace id text in
        let c = on_trace L trace (event "echo.suppressed") in
        let d = on_trace L trace (event "response.done") in
        let e = on_trace L trace completed in
        rw (auto, matched)
          (
            quiet-append (a ++ b ++ c ++ d ++ e) _
                (quiet-append (a ++ b ++ c ++ d) e
                  (quiet-append (a ++ b ++ c) d
                    (quiet-append (a ++ b) c
                      (quiet-append a b (quiet-trace trace (asr_completed text))
                        (quiet-segment trace id text))
                      (quiet-trace trace (event "echo.suppressed")))
                    (quiet-trace trace (event "response.done")))
                  (quiet-trace trace completed))
                refl,
            (a ++ b ++ c ++ d ++ e, refl),
          )

    -- The segments that the session gives to the synthesis, each at a reading of the clock.
    abbrev pub speak_all : List (ℤ × String) → Session L → Session L
    speak_all [] s = s
    speak_all ((t, segment) ∷ more) s =
        speak_all more (speak_segment L to_lower is_cjk_script rfc3339 u t segment s)

    remembered_all :
        (more : List (ℤ × String)) (s : Session L)
        → (speak_all more s).recent_speech ≡ remember_all u lower_space more s.recent_speech
    unfolding speak_segment
    remembered_all [] s = refl
    remembered_all ((t, segment) ∷ more) s =
        remembered_all more (speak_segment L to_lower is_cjk_script rfc3339 u t segment s)

    -- When package unicode leaves the case of a space alone: of a segment of speech that the
    -- session gave to the synthesis, what comes back through the microphone within 20 seconds is
    -- not answered, if at most three segments were given to it in between. If the session answers
    -- by itself, and the words of the transcript, at least 8 runes, stand in those of the segment,
    -- also of at least 8 runes, then no transcript is sent, no response starts, and the response is
    -- done as an echo.
    pub speak_segment-run_final_asr :
        (now later : ℤ) (segment raw : String) (more : List (ℤ × String)) (cfg : SessionConfig)
        (stream_id : String) (audio : List ℕ) (trace : Option ℕ) (s : Session L)
        → cfg.auto_respond ≡ true
        → nat_beq (length audio) 0 ≡ false
        → 8 ≤ count (normalize_echo_text u segment)
        → 8 ≤ count (normalize_echo_text u raw)
        → contains (runes (normalize_echo_text u segment)) (runes (normalize_echo_text u raw))
          ≡ true
        → length more ≤ 3
        → Between u lower_space now later more
        → IsWithin now later
        → IsSuppressed
            (run_final_asr L to_lower is_cjk_script rfc3339 u
              (some raw)
              later
              cfg
              stream_id
              audio
              trace
              (speak_all more (speak_segment L to_lower is_cjk_script rfc3339 u now segment s))).1
    unfolding run_final_asr speak_segment
    speak_segment-run_final_asr now later segment raw more cfg stream_id audio trace s auto heard p
          q c few between w =
        let same = normalize-trim_space u lower_space raw in
        let found =
          remember-mostly_recent_speech_echo u lower_space now later segment (trim_space raw) more
            s.recent_speech p (rw same q) (rw same c) few between w in
        let spoken =
          speak_all more (speak_segment L to_lower is_cjk_script rfc3339 u now segment s) in
        let items =
          remembered_all more (speak_segment L to_lower is_cjk_script rfc3339 u now segment s) in
        let matched : is_match
              (mostly_recent_speech_echo u later (trim_space raw) spoken.recent_speech)
            ≡ true =
          ap (λ z. is_match (mostly_recent_speech_echo u later (trim_space raw) z)) items
          ∙ ap is_match found.1 in
        rw heard
          (transcribed-IsSuppressed later cfg stream_id (trim_space raw) trace spoken auto matched)
