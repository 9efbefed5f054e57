-- ===== src/Voicews/Update/Laws.antt =====
-- What session.update leaves of a session.
use Prim.Native.String.{count}
use Prim.Native.String.{◌++◌ as join}
use agen_sense.Prelude.{
  ℕ, ℤ, pos, suc, ap, String, Bool, true, false, not, Option, none, some, is_positive, ◌==◌,
  ==_false, string_eq, if◌then◌else◌, trim_space, print_int, is_some, ◌≡◌, ◌≢◌, refl, ◌⊎◌, inl, inr,
  arith,
}
use text.Mathlib.TextLemmas.{append-eq-nil_iff, length-nil}
use agen_sense.Provider.Types.{AudioFormat}
use agen_sense.Voicews.Values.{Entries, SessionConfig}
use agen_sense.Voicews.State.{Levels, Session, Failure}
use agen_sense.Voicews.Update.{
  positive_or_default, codec_or_default, parse_format, SessionUpdatePayload, Profile, trimmed_or,
  format_or, updated_config, Updated, configured, handle_session_update,
}

-- A format that a stream can have.
abbrev pub IsUsable : AudioFormat → Type 0
IsUsable f =
    (f.codec ≢ "") × (is_positive f.sample_rate_hz ≡ true) × (is_positive f.channels ≡ true)

choice-named : (s t : String) → t ≢ "" → (if s == "" then t else s) ≢ ""
choice-named s t h = go (s == "") (==_false s "")
  where
    go : (b : Bool) → (b ≡ false → s ≢ "") → (if b then t else s) ≢ ""
    go true f = h
    go false f = f refl

positive_or_default-positive :
    (v d : ℤ) → is_positive d ≡ true → is_positive (positive_or_default v d) ≡ true
unfolding positive_or_default
positive_or_default-positive v d h = go (is_positive v) refl
  where
    go : (b : Bool) → is_positive v ≡ b → is_positive (if b then v else d) ≡ true
    go true e = e
    go false e = h

-- A text with a rune.
pub long-named : (s : String) (n : ℕ) → count s ≡ suc n → s ≢ ""
long-named s n h e =
    let f : count s ≡ count "" = ap count e in absurd (omega (arith, f, h, length-nil))

prefix-named : (p s : String) → p ≢ "" → join p s ≢ ""
prefix-named p s h e = h (append-eq-nil_iff.0 e).0

codec_or_default-named : (codec : String) → codec_or_default codec ≢ ""
unfolding codec_or_default
codec_or_default-named codec = choice-named codec "pcm_s16le" (long-named "pcm_s16le" 8 refl)

parse_format-IsUsable : (input : Entries) (old : AudioFormat) → IsUsable (parse_format input old)
unfolding parse_format
parse_format-IsUsable input old = (
  codec_or_default-named _,
  positive_or_default-positive _ (pos 16000) refl,
  positive_or_default-positive _ (pos 1) refl,
)

format_or-IsUsable :
    (old : AudioFormat) (o : Option Entries) → IsUsable old → IsUsable (format_or old o)
format_or-IsUsable old none h = h
format_or-IsUsable old (some input) h = parse_format-IsUsable input old

-- A configuration that a turn can start from.
abbrev pub IsReady : SessionConfig → Type 0
IsReady cfg = (cfg.client_id ≢ "") × (cfg.session_id ≢ "") × IsUsable cfg.format

module _ (L : Levels) (to_lower : String → String) (resolve : String → Option Profile) where
  updated-IsReady :
      (unix_nano : ℤ) (input : SessionUpdatePayload) (old : SessionConfig)
      → IsUsable old.format
      → IsReady (updated_config L to_lower resolve unix_nano input old)
  unfolding updated_config
  updated-IsReady unix_nano input old h = (
    choice-named (trimmed_or old.client_id input.client_id) "agendash-voice"
        (long-named "agendash-voice" 13 refl),
    choice-named (trimmed_or old.session_id input.session_id) (join "voice-" (print_int unix_nano))
        (prefix-named "voice-" (print_int unix_nano) (long-named "voice-" 5 refl)),
    format_or-IsUsable old.format input.format h,
  )

  -- The session is ready with a configuration and clients, session.ready is written with that
  -- configuration, and the error of this write, if any, is the answer.
  abbrev pub IsConfigured : Option (Failure L) → Updated L to_lower resolve → Type 0
  IsConfigured wrote r =
      (r.0 ≡ wrote)
      × (r.2 ≡ some r.1.cfg)
      × IsReady r.1.cfg
      × (r.1.has_asr ≡ true)
      × (r.1.has_llm ≡ true)
      × (r.1.has_tts ≡ true)

  -- An error that leaves the session as it was.
  abbrev pub IsRefused : Session L → Updated L to_lower resolve → Type 0
  IsRefused s r = (is_some r.0 ≡ true) × (r.1 ≡ s) × (r.2 ≡ none)

  configured_cases :
      (wrote : Option (Failure L)) (cfg : SessionConfig) (o : Option Profile) (s : Session L)
      → IsReady cfg
      → IsRefused s (configured L to_lower resolve wrote cfg o s)
        ⊎ IsConfigured wrote (configured L to_lower resolve wrote cfg o s)
  configured_cases wrote cfg none s h = inl (refl, refl, refl)
  configured_cases wrote cfg (some profile) s h =
      go profile.builds_asr profile.builds_llm profile.builds_tts _ _ _
    where
      go :
          (a b c : Bool) (x y z : Failure L)
          → let next : SessionConfig = record cfg {
            provider_profile_id = profile.id;
            llm_model = trim_space profile.llm_model;
          } in
            let r : Updated L to_lower resolve =
              if not a
              then (some x, s, none)
              else if not b
              then (some y, s, none)
              else if not c
              then (some z, s, none)
              else (
                wrote,
                record s { cfg = next; has_asr = true; has_llm = true; has_tts = true },
                some next,
              ) in
            IsRefused s r ⊎ IsConfigured wrote r
      go false b c x y z = inl (refl, refl, refl)
      go true false c x y z = inl (refl, refl, refl)
      go true true false x y z = inl (refl, refl, refl)
      go true true true x y z = inr (refl, refl, h, refl, refl, refl)

  -- From a session with a usable format, session.update is refused with an error before anything is
  -- written and leaves the session as it was, or it leaves a session with all three clients, ids of
  -- its client and itself that are not empty and a usable format, writes session.ready with that
  -- configuration, and answers with the error of this write, if there is one.
  pub handle_session_update_lem :
      (unix_nano : ℤ) (wrote : Option (Failure L)) (input : SessionUpdatePayload) (s : Session L)
      → IsUsable s.cfg.format
      → let r = handle_session_update L to_lower resolve unix_nano wrote input s in
        IsRefused s r ⊎ IsConfigured wrote r
  unfolding handle_session_update
  handle_session_update_lem unix_nano wrote input s h =
      configured_cases wrote (updated_config L to_lower resolve unix_nano input s.cfg)
        (resolve (trim_space input.provider_profile_id)) s (updated-IsReady unix_nano input s.cfg h)
