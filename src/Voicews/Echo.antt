-- ===== src/Voicews/Echo.antt =====
-- What the voice session of internal/voicews/session.go knows of its own recent speech, and how it
-- finds that speech in what it hears. The letter cases and classes of package unicode are
-- parameters. A score is a quotient of two counts of runes; the code compares such quotients as
-- float64, which below 2^25 runes orders them as they are compared here.
pub mod Words
pub mod Remembered
pub mod Laws
use Prim.Native.Char.{Char, code}
use Prim.Native.String.{count}
use Prim.Native.String.{◌++◌ as join}
use agen_sense.Prelude.{
  ℕ, ℤ, pos, zero, suc, ◌+◌, ◌-◌, ◌*◌, ◌/◌, ◌-ℤ◌, ltb_ℤ, String, Bool, true, false, not, ◌&&◌, ◌||◌,
  Option, none, some, List, [], ◌∷◌, ◌++◌, length, drop, select, ltb, leb, nat_beq, ◌==◌, string_eq,
  if◌then◌else◌, trim_space, is_space, spread,
}
use agen_sense.Voicews.Subsequence.{max, longest_common_subsequence_runes}

pub record Unicode : Type 0 where
  pub to_lower : Char → Char
  pub is_punct : ℕ → Bool
  pub is_symbol : ℕ → Bool

pub record RecentSpeechText : Type 0 where
  pub text : String
  pub at : ℤ

pub record Score : Type 0 where
  pub part : ℕ
  pub whole : ℕ

pub record RecentSpeechEchoMatch : Type 0 where
  pub text : String
  pub score : Score

abbrev pub window : ℤ
window = pos 20000000000

abbrev pub limit : ℕ
limit = 4

abbrev pub echo_min_runes : ℕ
echo_min_runes = 8

-- `[]rune(s)`
unfoldable pub runes : String → List ℕ
runes String.[] = []
runes (String.◌∷◌ c s) = code c ∷ runes s

unfoldable pub starts_with : List ℕ → List ℕ → Bool
starts_with s [] = true
starts_with [] (y ∷ t) = false
starts_with (x ∷ s) (y ∷ t) = nat_beq x y && starts_with s t

-- strings.Contains
unfoldable pub contains : List ℕ → List ℕ → Bool
contains [] t = starts_with [] t
contains (x ∷ s) t = starts_with (x ∷ s) t || contains s t

-- The items that are not before the cutoff.
unfoldable pub kept : ℤ → List RecentSpeechText → List RecentSpeechText
kept cutoff items = select (λ item. not (ltb_ℤ item.at cutoff)) items

-- recentSpeechSnapshot: what it returns, which is what is remembered after it.
unfoldable pub recent_speech_snapshot : ℤ → List RecentSpeechText → List RecentSpeechText
recent_speech_snapshot now items = kept (now -ℤ window) items

-- The inner loop of recentSpeechCandidates. `first` says that `end` is `start`.
unfoldable pub combinations : Bool → String → List RecentSpeechText → List String
combinations first combined [] = []
combinations first combined (item ∷ items) =
    let text = trim_space item.text in
    let more = if combined == "" then text else join combined (join " " text) in
    let skipped = combinations false combined items in
    let rest = combinations false more items in
    if text == "" then skipped else if first then text ∷ rest else text ∷ more ∷ rest

unfoldable pub recent_speech_candidates : List RecentSpeechText → List String
recent_speech_candidates [] = []
recent_speech_candidates (item ∷ items) =
    combinations true "" (item ∷ items) ++ recent_speech_candidates items

-- `a > b` on scores.
abbrev pub greater : Score → Score → Bool
greater a b = ltb (b.part * a.whole) (a.part * b.whole)

abbrev pub no_match : RecentSpeechEchoMatch
no_match = record { text = ""; score = record { part = 0; whole = 1 } }

-- The score of a common subsequence of `common` runes.
abbrev pub coverage : ℕ → ℕ → Option ℕ → Option (Score × Bool)
coverage a c none = none
coverage a c (some common) = some (
  record { part = common; whole = a },
  leb (86 * a) (100 * common) && leb (55 * c) (100 * common),
)

-- recentSpeechEchoScore; `none` where the rows run out of range.
unfoldable pub recent_speech_echo_score : String → String → Option (Score × Bool)
recent_speech_echo_score asr candidate =
    let a = count asr in
    let c = count candidate in
    if nat_beq a 0 || nat_beq c 0
    then some (record { part = 0; whole = 1 }, false)
    else if contains (runes candidate) (runes asr)
    then some (record { part = 1; whole = 1 }, true)
    else if contains (runes asr) (runes candidate)
    then some (record { part = c; whole = a }, leb (a - c) (max 2 (a / 10)))
    else coverage a c (longest_common_subsequence_runes (runes asr) (runes candidate))

module _ (u : Unicode) where
  -- The body of the loop of normalizeEchoText.
  unfoldable pub echo_rune : Char → String
  echo_rune c =
      let r = u.to_lower c in
      if is_space (code r) || u.is_punct (code r) || u.is_symbol (code r)
      then ""
      else String.◌∷◌ r ""

  unfoldable pub normalize_echo_text : String → String
  normalize_echo_text text = spread echo_rune text

  -- `next[len(next)-1] = entry` for a last item of the same words, else `append(next, entry)`.
  unfoldable pub put_last :
      String → RecentSpeechText → List RecentSpeechText → List RecentSpeechText
  put_last normalized entry [] = entry ∷ []
  put_last normalized entry (last ∷ []) =
      if normalize_echo_text last.text == normalized then entry ∷ [] else last ∷ entry ∷ []
  put_last normalized entry (item ∷ next ∷ items) = item ∷ put_last normalized entry (next ∷ items)

  abbrev pub cut : List RecentSpeechText → List RecentSpeechText
  cut next = if ltb limit (length next) then drop (length next - limit) next else next

  -- rememberRecentSpeech, at a reading of the clock.
  unfoldable pub remember_recent_speech : ℤ → String → List RecentSpeechText → List RecentSpeechText
  remember_recent_speech now text items =
      let spoken = trim_space text in
      let normalized = normalize_echo_text spoken in
      if spoken == ""
      then items
      else if ltb (count normalized) echo_min_runes
      then items
      else cut
          (put_last normalized (record { text = spoken; at = now }) (kept (now -ℤ window) items))

  -- The loop of mostlyRecentSpeechEcho.
  abbrev pub next_candidate :
      String
      → RecentSpeechEchoMatch
      → Option (Score × Bool)
      → (RecentSpeechEchoMatch → Option (RecentSpeechEchoMatch × Bool))
      → Option (RecentSpeechEchoMatch × Bool)
  next_candidate candidate best none rest = none
  next_candidate candidate best (some (score, true)) rest =
      some (record { text = candidate; score = score }, true)
  next_candidate candidate best (some (score, false)) rest =
      rest (if greater score best.score then record { text = candidate; score = score } else best)

  unfoldable pub search_echo :
      String → List String → RecentSpeechEchoMatch → Option (RecentSpeechEchoMatch × Bool)
  search_echo asr [] best = some (best, false)
  search_echo asr (candidate ∷ candidates) best =
      if ltb (count (normalize_echo_text candidate)) echo_min_runes
      then search_echo asr candidates best
      else next_candidate candidate best
          (recent_speech_echo_score asr (normalize_echo_text candidate))
          (search_echo asr candidates)

  unfoldable pub mostly_recent_speech_echo :
      ℤ → String → List RecentSpeechText → Option (RecentSpeechEchoMatch × Bool)
  mostly_recent_speech_echo now text items =
      let asr = normalize_echo_text text in
      if ltb (count asr) echo_min_runes
      then some (no_match, false)
      else search_echo asr (recent_speech_candidates (recent_speech_snapshot now items)) no_match
