-- ===== src/Voicelang.antt =====
-- internal/voicelang/language.go. strings.ToLower is a parameter; of a value of the metadata only its
-- text is read.
pub mod Laws
use agen_sense.Prelude.{
  ℕ, String, Bool, true, false, not, ◌&&◌, ◌||◌, Option, none, some, List, [], ◌∷◌, leb, nat_beq,
  Map, lookup, ◌==◌, string_eq, if◌then◌else◌, trim_space,
}
use Prim.Native.Char.{Char, code}

abbrev pub auto : String
auto = ""

abbrev pub simplified_chinese : String
simplified_chinese = "zh-Hans"

abbrev pub traditional_chinese : String
traditional_chinese = "zh-Hant"

abbrev pub english : String
english = "en"

-- A case of a switch.
unfoldable pub one_of : String → List String → Bool
one_of s [] = false
one_of s (x ∷ xs) = s == x || one_of s xs

-- Both strings.ReplaceAll: "_" and " " become "-".
unfoldable pub dashed : String → String
dashed String.[] = ""
dashed (String.◌∷◌ c s) =
    let rest = dashed s in
    if nat_beq (code c) b'_' || nat_beq (code c) b' '
    then String.◌∷◌ "-" rest
    else String.◌∷◌ c rest

abbrev pub auto_labels : List String
auto_labels =
    "auto" ∷ "automatic" ∷ "follow" ∷ "follow-input" ∷ "same-as-input" ∷ "same-language" ∷ []

abbrev pub simplified_labels : List String
simplified_labels =
    "zh" ∷ "zh-cn" ∷ "zh-sg" ∷ "zh-hans" ∷ "zh-hans-cn" ∷ "chinese" ∷ "simplified"
    ∷ "simplified-chinese" ∷ "mandarin" ∷ "简体" ∷ "简体中文" ∷ "簡體" ∷ "簡體中文" ∷ []

abbrev pub traditional_labels : List String
traditional_labels =
    "zh-tw" ∷ "zh-hk" ∷ "zh-mo" ∷ "zh-hant" ∷ "zh-hant-tw" ∷ "traditional" ∷ "traditional-chinese"
    ∷ "繁体" ∷ "繁體" ∷ "繁体中文" ∷ "繁體中文" ∷ []

abbrev pub english_labels : List String
english_labels = "en" ∷ "en-us" ∷ "en-gb" ∷ "english" ∷ []

-- A value of type any.
pub data Value : Type 0 where
  text bytes : String → Value
  other : Value

abbrev pub any_string : Value → String
any_string (text s) = s
any_string (bytes s) = s
any_string other = ""

-- The CJK blocks that the code names.
unfoldable pub is_cjk : ℕ → Bool
is_cjk c =
    (leb 0x3400 c && leb c 0x4dbf)
    || (leb 0x4e00 c && leb c 0x9fff)
    || (leb 0xf900 c && leb c 0xfaff)

unfoldable pub contains_cjk : String → Bool
contains_cjk String.[] = false
contains_cjk (String.◌∷◌ c s) = is_cjk (code c) || contains_cjk s

module _ (to_lower : String → String) where
  unfoldable pub language_of : String → String
  language_of key =
      if one_of key auto_labels
      then auto
      else if one_of key simplified_labels
      then simplified_chinese
      else if one_of key traditional_labels
      then traditional_chinese
      else if one_of key english_labels
      then english
      else auto

  unfoldable pub normalize : String → String
  normalize raw =
      if trim_space raw == "" then auto else language_of (to_lower (dashed (trim_space raw)))

  unfoldable pub is_explicit_auto : Value → Bool
  is_explicit_auto value =
      let raw = trim_space (any_string value) in
      if raw == "" then false else one_of (to_lower (dashed raw)) auto_labels

  abbrev pub metadata_keys : List String
  metadata_keys =
      "response_language" ∷ "voice_response_language" ∷ "reply_language" ∷ "language" ∷ "locale"
      ∷ []

  -- The loop over the keys.
  unfoldable pub from_keys : List String → Map String Value → String
  from_keys [] metadata = auto
  from_keys (key ∷ keys) metadata =
      let rest = from_keys keys metadata in
      elim (lookup key metadata) [
        | none ↦ rest
        | some value ↦
            let normalized = normalize (any_string value) in
            if not (normalized == auto)
            then normalized
            else if is_explicit_auto value
            then auto
            else rest
      ]

  unfoldable pub from_metadata : Map String Value → String
  from_metadata metadata = from_keys metadata_keys metadata

  unfoldable pub instruction : String → String → String
  instruction preference latest_user_text =
      let language = normalize preference in
      if language == simplified_chinese
      then "Response language policy: Reply in Simplified Chinese. Keep product names, code identifiers, commands, paths, and quoted user text unchanged."
      else if language == traditional_chinese
      then "Response language policy: Reply in Traditional Chinese. Keep product names, code identifiers, commands, paths, and quoted user text unchanged."
      else if language == english
      then "Response language policy: Reply in English. Keep product names, code identifiers, commands, paths, and quoted user text unchanged."
      else if contains_cjk latest_user_text
      then "Response language policy: Reply in the same broad language as the user's latest utterance. For Chinese replies, use Simplified Chinese by default; use Traditional Chinese only if the user explicitly asks for Traditional Chinese or the client config sets zh-Hant. If the utterance mixes Chinese and English, answer primarily in Simplified Chinese while preserving product names, code identifiers, commands, paths, and quoted user text."
      else "Response language policy: Reply in the same language as the user's latest utterance. If the user mixes Chinese and English, match the dominant language. For Chinese replies, use Simplified Chinese by default. Keep product names, code identifiers, commands, paths, and quoted user text unchanged."

  unfoldable pub label : String → String → String
  label preference latest_user_text =
      let language = normalize preference in
      if language == simplified_chinese
      then simplified_chinese
      else if language == traditional_chinese
      then traditional_chinese
      else if language == english
      then english
      else if contains_cjk latest_user_text
      then "auto:zh-Hans"
      else "auto"
