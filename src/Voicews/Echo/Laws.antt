-- ===== src/Voicews/Echo/Laws.antt =====
-- Speech of the assistant that comes back through the microphone, and how much is remembered.
use Prim.Native.Char.{Char, code}
use Prim.Native.String.{count}
use text.Mathlib.TextLemmas.{length-nil}
use agen_sense.Prelude.{
  ℕ, ℤ, suc, ◌+◌, ◌≤◌, ◌≤ℤ◌, ◌-ℤ◌, String, Bool, true, false, not, Option, none, some, List, [],
  ◌∷◌, ◌++◌, ltb, ltb_ℤ, length, string_eq, if◌then◌else◌, trim_space, is_space, spread,
  spread-trim_space, SkipsSpaces, ◌≡◌, ◌≢◌, refl, ap, ◌∙◌, arith,
}
use agen_sense.Voicews.Echo.{
  Unicode, RecentSpeechText, Score, RecentSpeechEchoMatch, window, runes, contains, kept,
  recent_speech_snapshot, no_match, echo_rune, normalize_echo_text, remember_recent_speech,
  next_candidate, search_echo, mostly_recent_speech_echo,
}
use agen_sense.Voicews.Echo.Words.{Among, here, there, candidates-Among, score_some, score-contains}
use agen_sense.Voicews.Echo.Remembered.{
  Texts, select-mid, IsWithin, IsWithin-later, Holds, remember-Holds, remember_new,
}

module _ (u : Unicode) where
  Found : Option (RecentSpeechEchoMatch × Bool) → Type 0
  Found o = (m : RecentSpeechEchoMatch) × (o ≡ some (m, true))

  search-Found :
      (asr : String) (candidates : List String) (best : RecentSpeechEchoMatch) (x : String)
      → Among x candidates
      → 1 ≤ count asr
      → 8 ≤ count (normalize_echo_text u x)
      → contains (runes (normalize_echo_text u x)) (runes asr) ≡ true
      → Found (search_echo u asr candidates best)
  unfolding search_echo Found
  search-Found asr [] best x m p q h = elim m [ ]
  search-Found asr (y ∷ ys) best x here p q h =
      let long : ltb (count (normalize_echo_text u x)) 8 ≡ false = ground arith in
      let matched = score-contains asr (normalize_echo_text u x) p (omega arith) h in
      rw (long, matched) (_, refl)
  search-Found asr (y ∷ ys) best x (there m) p q h =
      let r = score_some asr (normalize_echo_text u y) in
      go (ltb (count (normalize_echo_text u y)) 8) r.0 _ r.1 (λ b. search-Found asr ys b x m p q h)
    where
      go :
          (b : Bool) (r : Score × Bool) (o : Option (Score × Bool))
          → o ≡ some r
          → ((b : RecentSpeechEchoMatch) → Found (search_echo u asr ys b))
          → Found (
              if b
              then search_echo u asr ys best
              else next_candidate u y best o (search_echo u asr ys))
      go true r o e f = f best
      go false r (some (score, true)) e f = (_, refl)
      go false r (some (score, false)) e f = f _
      go false r none e f = absurd (cc)

  mostly-Found :
      (later : ℤ) (asr : String) (items xs : Texts) (e : RecentSpeechText) (ys : Texts)
      → items ≡ xs ++ e ∷ ys
      → ltb_ℤ e.at (later -ℤ window) ≡ false
      → trim_space e.text ≢ ""
      → 8 ≤ count (normalize_echo_text u asr)
      → 8 ≤ count (normalize_echo_text u (trim_space e.text))
      → contains
          (runes (normalize_echo_text u (trim_space e.text)))
          (runes (normalize_echo_text u asr))
        ≡ true
      → Found (mostly_recent_speech_echo u later asr items)
  unfolding mostly_recent_speech_echo recent_speech_snapshot kept
  mostly-Found later asr items xs e ys h within nonblank p q c =
      let fresh : not (ltb_ℤ e.at (later -ℤ window)) ≡ true = ap not within in
      let long : ltb (count (normalize_echo_text u asr)) 8 ≡ false = ground arith in
      rw (long, h, select-mid (λ item. not (ltb_ℤ item.at (later -ℤ window))) xs e ys fresh)
        (search-Found (normalize_echo_text u asr) _ no_match (trim_space e.text)
          (candidates-Among _ e _ nonblank) (omega arith) q c)

  module _ (lower_space : (c : Char) → is_space (code c) ≡ true → u.to_lower c ≡ c) where
    echo_rune-SkipsSpaces : SkipsSpaces (echo_rune u)
    unfolding echo_rune
    echo_rune-SkipsSpaces c h = rw (lower_space c h, h) refl

    pub normalize-trim_space :
        (s : String) → normalize_echo_text u (trim_space s) ≡ normalize_echo_text u s
    unfolding normalize_echo_text
    normalize-trim_space = spread-trim_space (echo_rune u) echo_rune-SkipsSpaces

    long-nonblank : (s : String) → 8 ≤ count (normalize_echo_text u s) → s ≢ ""
    unfolding normalize_echo_text spread
    long-nonblank s p e =
        let none_left : count (normalize_echo_text u s) ≡ 0 =
          ap (λ t. count (normalize_echo_text u t)) e ∙ length-nil in
        omega (arith, p, none_left)

    -- What was said and then more, each at a reading of the clock.
    abbrev pub remember_all : List (ℤ × String) → Texts → Texts
    remember_all [] items = items
    remember_all ((t, text) ∷ more) items =
        remember_all more (remember_recent_speech u t text items)

    abbrev pub Between : ℤ → ℤ → List (ℤ × String) → Type 0
    Between now later [] = Unit
    Between now later ((t, text) ∷ more) = ((now ≤ℤ t) × (t ≤ℤ later)) × Between now later more

    remember_all-Holds :
        (words : String) (now later : ℤ) (more : List (ℤ × String)) (k : ℕ) (items : Texts)
        → k + length more ≤ 3
        → Between now later more
        → IsWithin now later
        → Holds u words later k items
        → Holds u words later 3 (remember_all more items)
    remember_all-Holds words now later [] k items few between within (xs, e, ys, h, n, r) =
        (xs, e, ys, h, omega (arith, few, n), r)
    remember_all-Holds words now later ((t, text) ∷ more) k items few (own, between) within h =
        remember_all-Holds words now later more (suc k) _ (omega (arith, few)) between within (
          remember-Holds u words t later text k items (omega (arith, few)) own.1
            (IsWithin-later now t later own.0 within) h)

    -- What rememberRecentSpeech was given is recognised when it comes back, if at most three texts
    -- were remembered after it.
    pub remember-mostly_recent_speech_echo :
        (now later : ℤ) (text asr : String) (more : List (ℤ × String)) (items : Texts)
        → 8 ≤ count (normalize_echo_text u text)
        → 8 ≤ count (normalize_echo_text u asr)
        → contains (runes (normalize_echo_text u text)) (runes (normalize_echo_text u asr)) ≡ true
        → length more ≤ 3
        → Between now later more
        → IsWithin now later
        → (m : RecentSpeechEchoMatch) × (mostly_recent_speech_echo u later asr
              (remember_all more (remember_recent_speech u now text items))
            ≡ some (m, true))
    unfolding Found
    remember-mostly_recent_speech_echo now later text asr more items p q c few between within =
        let e1 = normalize-trim_space text in
        let p1 : 8 ≤ count (normalize_echo_text u (trim_space text)) = rw e1 p in
        let (xs, e, ys, h, n, (words, fresh)) =
          remember_all-Holds (normalize_echo_text u (trim_space text)) now later more 0 _
            (omega (arith, few)) between within
            (remember_new u now later text items (long-nonblank (trim_space text) p1) p1 within) in
        let same : normalize_echo_text u (trim_space e.text) ≡ normalize_echo_text u text =
          normalize-trim_space e.text ∙ words ∙ e1 in
        let long : 8 ≤ count (normalize_echo_text u (trim_space e.text)) = rw same p in
        mostly-Found later asr _ xs e ys h fresh (long-nonblank (trim_space e.text) long) q long
          (rw same c)
