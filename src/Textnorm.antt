-- ===== src/Textnorm.antt =====
-- internal/textnorm/chinese.go. strings.ToLower and the converter of github.com/liuzl/gocc, with the
-- error of its construction, are parameters.
pub mod Laws
use agen_sense.Prelude.{
  String, Bool, true, false, ◌||◌, Option, none, some, List, [], ◌∷◌, ◌==◌, string_eq,
  if◌then◌else◌, trim_space,
}
use agen_sense.Voicelang.{one_of}

abbrev pub script_simplified : String
script_simplified = "zh-Hans"

abbrev pub script_traditional : String
script_traditional = "zh-Hant"

abbrev pub script_original : String
script_original = "original"

-- The converter: `none` where gocc returns an error.
pub record Converter : Type 0 where
  pub is_built : Bool
  pub convert : String → Option String

module _ (to_lower : String → String) where
  unfoldable pub normalize_script : String → String
  normalize_script script =
      let key = to_lower (trim_space script) in
      if one_of key (
        "" ∷ "auto" ∷ "zh" ∷ "zh-cn" ∷ "zh-sg" ∷ "zh-hans" ∷ "zh-hans-cn" ∷ "simplified"
        ∷ "simplified-chinese" ∷ "简体" ∷ "简体中文" ∷ "簡體" ∷ "簡體中文" ∷ [])
      then script_simplified
      else if one_of key (
          "zh-hant" ∷ "zh-hant-tw" ∷ "zh-tw" ∷ "zh-hk" ∷ "zh-mo" ∷ "traditional"
          ∷ "traditional-chinese" ∷ "繁体" ∷ "繁體" ∷ "繁体中文" ∷ "繁體中文" ∷ [])
      then script_traditional
      else if one_of key
          ("none" ∷ "off" ∷ "disable" ∷ "disabled" ∷ "raw" ∷ "source" ∷ "original" ∷ "keep" ∷ [])
      then script_original
      else script_simplified

  module _ (gocc : Converter) where
    -- `none` for an error.
    unfoldable pub traditional_to_simplified : String → Option String
    traditional_to_simplified text =
        if trim_space text == ""
        then some text
        else if gocc.is_built
        then gocc.convert text
        else none

    abbrev or_given : String → Option String → String
    or_given given none = given
    or_given given (some out) = out

    unfoldable pub normalize_chinese_script : String → String → String
    normalize_chinese_script text script =
        let target = normalize_script script in
        if target == script_original || target == script_traditional
        then text
        else or_given text (traditional_to_simplified text)
