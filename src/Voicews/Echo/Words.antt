-- ===== src/Voicews/Echo/Words.antt =====
-- Candidates and scores: every recent text is a candidate, a score is always computed, and the words
-- of a candidate are found.
use Prim.Native.String.{count}
use agen_sense.Prelude.{
  ℕ, ◌-◌, ◌/◌, ◌≤◌, String, Bool, true, false, ◌||◌, Option, none, some, List, [], ◌∷◌, ◌++◌, leb,
  nat_beq, ◌==◌, ==_iff, string_eq, if◌then◌else◌, trim_space, ◌≡◌, ◌≢◌, refl, arith,
}
use agen_sense.Voicews.Subsequence.{max, longest_common_subsequence_runes}
use agen_sense.Voicews.Subsequence.Common.{longest-Common}
use agen_sense.Voicews.Subsequence.Rows.{longest_common_subsequence_runes_lem}
use agen_sense.Voicews.Echo.{
  RecentSpeechText, Score, runes, contains, combinations, recent_speech_candidates, coverage,
  recent_speech_echo_score,
}

pub data Among : String → List String → Type 0 where
  here : {x : String} {xs : List String} → Among x (x ∷ xs)
  there : {x y : String} {xs : List String} → Among x xs → Among x (y ∷ xs)

Among-append_right :
    {x : String} {ys : List String} (xs : List String) → Among x ys → Among x (xs ++ ys)
Among-append_right [] m = m
Among-append_right (y ∷ xs) m = there (Among-append_right xs m)

combinations-Among :
    (x : RecentSpeechText) (items : List RecentSpeechText)
    → trim_space x.text ≢ ""
    → Among (trim_space x.text) (combinations true "" (x ∷ items))
unfolding combinations
combinations-Among x items nonblank = go (trim_space x.text == "") refl
  where
    go :
        (b : Bool)
        → (trim_space x.text == "") ≡ b
        → Among (trim_space x.text) (
            if b
            then combinations false "" items
            else trim_space x.text ∷ combinations false (trim_space x.text) items)
    go true h = absurd (nonblank ((==_iff (trim_space x.text) "").0 h))
    go false h = here

Among-append_left :
    {x : String} (ys : List String) {xs : List String} → Among x xs → Among x (xs ++ ys)
Among-append_left ys here = here
Among-append_left ys (there m) = there (Among-append_left ys m)

-- Each of the recent texts is a candidate.
pub candidates-Among :
    (items : List RecentSpeechText) (x : RecentSpeechText) (later : List RecentSpeechText)
    → trim_space x.text ≢ ""
    → Among (trim_space x.text) (recent_speech_candidates (items ++ x ∷ later))
unfolding recent_speech_candidates
candidates-Among [] x later nonblank =
    Among-append_left (recent_speech_candidates later) (combinations-Among x later nonblank)
candidates-Among (y ∷ items) x later nonblank =
    Among-append_right (combinations true "" (y ∷ items ++ x ∷ later))
      (candidates-Among items x later nonblank)

lcs_some : (left right : List ℕ) → (n : ℕ) × (longest_common_subsequence_runes left right ≡ some n)
lcs_some left right =
    let r = longest_common_subsequence_runes_lem left right (longest-Common left right) in
    (r.0, r.1)

-- A score never runs out of range.
pub score_some :
    (asr candidate : String)
    → (r : Score × Bool) × (recent_speech_echo_score asr candidate ≡ some r)
unfolding recent_speech_echo_score
score_some asr candidate =
    let l = lcs_some (runes asr) (runes candidate) in
    go (nat_beq (count asr) 0 || nat_beq (count candidate) 0)
      (contains (runes candidate) (runes asr)) (contains (runes asr) (runes candidate))
      (longest_common_subsequence_runes (runes asr) (runes candidate)) l.0 l.1
  where
    go :
        (a b c : Bool) (o : Option ℕ) (n : ℕ)
        → o ≡ some n
        → (r : Score × Bool) × ((if a
              then some (record { part = 0; whole = 1 }, false)
              else if b
              then some (record { part = 1; whole = 1 }, true)
              else if c
              then some (
                record { part = count candidate; whole = count asr },
                leb (count asr - count candidate) (max 2 (count asr / 10)),
              )
              else coverage (count asr) (count candidate) o)
            ≡ some r)
    go true b c o n e = (_, refl)
    go false true c o n e = (_, refl)
    go false false true o n e = (_, refl)
    go false false false (some m) n e = (_, refl)
    go false false false none n e = absurd (cc)

-- Words that stand in a candidate match it with the score 1.
pub score-contains :
    (asr candidate : String)
    → 1 ≤ count asr
    → 1 ≤ count candidate
    → contains (runes candidate) (runes asr) ≡ true
    → recent_speech_echo_score asr candidate ≡ some (record { part = 1; whole = 1 }, true)
unfolding recent_speech_echo_score
score-contains asr candidate p q h = rw (neither (count asr) (count candidate) p q, h) refl
  where
    neither : (a c : ℕ) → 1 ≤ a → 1 ≤ c → (nat_beq a 0 || nat_beq c 0) ≡ false
    neither a c p q = ground arith
