-- ===== src/Voicelang/Laws.antt =====
-- What the functions of internal/voicelang/language.go agree on.
use agen_sense.Prelude.{
  String, Bool, true, false, ◌==◌, string_eq, if◌then◌else◌, Bool-cases, inl, inr, ◌⊎◌, ◌≡◌, refl,
  sym, ap, ◌∙◌, trim_space, trim_left, trim_right, is_space,
}
use agen_sense.Voicelang.{
  auto, simplified_chinese, traditional_chinese, english, one_of, auto_labels, simplified_labels,
  traditional_labels, english_labels, dashed, language_of, normalize, instruction, label,
  contains_cjk,
}

-- The four wire values.
abbrev pub IsWire : String → Type 0
IsWire s = (s ≡ auto) ⊎ ((s ≡ simplified_chinese) ⊎ ((s ≡ traditional_chinese) ⊎ (s ≡ english)))

-- strings.ToLower at the wire values.
abbrev pub Lowers : (String → String) → Type 0
Lowers to_lower =
    (to_lower "zh-Hans" ≡ "zh-hans") × (to_lower "zh-Hant" ≡ "zh-hant") × (to_lower "en" ≡ "en")

chosen-IsWire :
    (a b c d : Bool)
    → IsWire (
        if a
        then auto
        else if b
        then simplified_chinese
        else if c
        then traditional_chinese
        else if d
        then english
        else auto)
chosen-IsWire true b c d = inl refl
chosen-IsWire false true c d = inr (inl refl)
chosen-IsWire false false true d = inr (inr (inl refl))
chosen-IsWire false false false true = inr (inr (inr refl))
chosen-IsWire false false false false = inl refl

-- A choice of five by the language and the text.
abbrev chosen {ℓ} : {A : Type ℓ} → A → A → A → A → A → Bool → Bool → Bool → Bool → A
chosen v w x y z a b c k = if a then v else if b then w else if c then x else if k then y else z

abbrev labels : Bool → Bool → Bool → Bool → String
labels = chosen simplified_chinese traditional_chinese english "auto:zh-Hans" "auto"

by_label :
    (v w x y z : String) (a b c k : Bool)
    → chosen v w x y z
        (labels a b c k == "zh-Hans")
        (labels a b c k == "zh-Hant")
        (labels a b c k == "en")
        (labels a b c k == "auto:zh-Hans")
      ≡ chosen v w x y z a b c k
by_label v w x y z true b c k = refl
by_label v w x y z false true c k = refl
by_label v w x y z false false true k = refl
by_label v w x y z false false false true = refl
by_label v w x y z false false false false = refl

same_choice :
    (v w x y z : String) (a b c k a' b' c' k' : Bool)
    → labels a b c k ≡ labels a' b' c' k'
    → chosen v w x y z a b c k ≡ chosen v w x y z a' b' c' k'
same_choice v w x y z a b c k a' b' c' k' same =
    sym (by_label v w x y z a b c k)
    ∙ ap (λ l. chosen v w x y z (l == "zh-Hans") (l == "zh-Hant") (l == "en") (l == "auto:zh-Hans"))
        same
    ∙ by_label v w x y z a' b' c' k'

module _ (to_lower : String → String) where
  language_of-IsWire : (key : String) → IsWire (language_of to_lower key)
  unfolding language_of
  language_of-IsWire key =
      chosen-IsWire (one_of key auto_labels) (one_of key simplified_labels)
        (one_of key traditional_labels) (one_of key english_labels)

  pub normalize-IsWire : (raw : String) → IsWire (normalize to_lower raw)
  unfolding normalize
  normalize-IsWire raw = elim (Bool-cases (trim_space raw == "")) [
    | inl e ↦ rw e (inl refl)
    | inr e ↦ rw e (language_of-IsWire (to_lower (dashed (trim_space raw))))
  ]

  wire_fixed : Lowers to_lower → (s : String) → IsWire s → normalize to_lower s ≡ s
  unfolding normalize trim_space trim_left trim_right is_space dashed language_of one_of
  wire_fixed l s (inl e) = rw e refl
  wire_fixed (hans, hant, en) s (inr (inl e)) = rw e (rw hans refl)
  wire_fixed (hans, hant, en) s (inr (inr (inl e))) = rw e (rw hant refl)
  wire_fixed (hans, hant, en) s (inr (inr (inr e))) = rw e (rw en refl)

  -- Again.
  normalize_idempotent :
      Lowers to_lower
      → (raw : String) → normalize to_lower (normalize to_lower raw) ≡ normalize to_lower raw
  normalize_idempotent lowers raw =
      wire_fixed lowers (normalize to_lower raw) (normalize-IsWire raw)

  -- Two pairs of a preference and a text with the same label have the same instruction.
  label-instruction :
      (preference preference' text text' : String)
      → label to_lower preference text ≡ label to_lower preference' text'
      → instruction to_lower preference text ≡ instruction to_lower preference' text'
  unfolding label instruction
  label-instruction preference preference' text text' same =
      let l = normalize to_lower preference in
      let l' = normalize to_lower preference' in
      same_choice _ _ _ _ _ (l == simplified_chinese) (l == traditional_chinese) (l == english)
        (contains_cjk text) (l' == simplified_chinese) (l' == traditional_chinese) (l' == english)
        (contains_cjk text') same
