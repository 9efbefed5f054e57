-- ===== src/Textnorm/Laws.antt =====
-- What the functions of internal/textnorm/chinese.go return when the converter fails.
use agen_sense.Prelude.{
  String, Bool, true, false, ◌||◌, some, ◌⊎◌, inl, inr, ◌≡◌, refl, arith, ◌==◌, string_eq,
  if◌then◌else◌,
}
use agen_sense.Textnorm.{
  Converter, script_simplified, normalize_script, traditional_to_simplified,
  normalize_chinese_script,
}

module _ (to_lower : String → String) (gocc : Converter) where
  -- The script that a case of the switch chooses.
  abbrev target : Bool → Bool → Bool → String
  target a b c =
      if a then "zh-Hans" else if b then "zh-Hant" else if c then "original" else "zh-Hans"

  target_cases :
      (a b c : Bool)
      → ((target a b c == "original" || target a b c == "zh-Hant") ≡ true)
        ⊎ (target a b c ≡ "zh-Hans")
  target_cases true b c = inr refl
  target_cases false true c = inl refl
  target_cases false false true = inl refl
  target_cases false false false = inr refl

  script_cases :
      (script : String)
      → ((normalize_script to_lower script == "original"
            || normalize_script to_lower script == "zh-Hant")
          ≡ true)
        ⊎ (normalize_script to_lower script ≡ script_simplified)
  unfolding normalize_script
  script_cases script = target_cases _ _ _

  -- NormalizeChineseScript returns the given text or what the converter makes of it, the latter
  -- only for the simplified script and when the converter could be built, so a failure of the
  -- converter never loses the text.
  normalize_chinese_script-Kept :
      (text script : String)
      → (normalize_chinese_script to_lower gocc text script ≡ text)
        ⊎ ((normalize_script to_lower script ≡ script_simplified)
            × (gocc.is_built ≡ true)
            × (gocc.convert text ≡ some (normalize_chinese_script to_lower gocc text script)))
  unfolding normalize_chinese_script traditional_to_simplified
  normalize_chinese_script-Kept text script = let cases = script_cases script in ground arith
