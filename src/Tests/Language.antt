-- ===== src/Tests/Language.antt =====
-- internal/voicelang/language.go and internal/textnorm/chinese.go at small inputs: texts that have
-- no upper case but in the wire values.
use agen_sense.Prelude.{String, none, true, ◌≡◌, refl, ◌==◌, string_eq, trim_space, if◌then◌else◌}
use agen_sense.Voicelang.{normalize, label, contains_cjk, is_cjk, dashed, language_of, one_of}
use agen_sense.Textnorm.{Converter}

abbrev lower : String → String
lower s = if s == "zh-Hans" then "zh-hans" else if s == "zh-Hant" then "zh-hant" else s

traditional_found : normalize lower " zh_tw " ≡ "zh-Hant"
unfolding normalize trim_space language_of one_of dashed
traditional_found = refl

same_label : label lower "en" "hi" ≡ label lower "english" "嗨"
unfolding label normalize contains_cjk trim_space is_cjk dashed language_of one_of
same_label = refl

abbrev failing : Converter
failing = record { is_built = true; convert = λ s. none }
