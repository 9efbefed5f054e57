-- ===== src/Voicews/Echo/Remembered.antt =====
-- What rememberRecentSpeech of internal/voicews/session.go keeps: a text stays, or one of the same
-- words in its place, while it is in the window and few texts come after it.
use Prim.Native.String.{count}
use agen_sense.Prelude.{
  ℕ, ℤ, suc, zero, ◌-◌, ◌≤◌, ◌≤ℤ◌, ◌-ℤ◌, String, Bool, true, false, not, List, [], ◌∷◌, ◌++◌, ltb,
  ltb_ℤ, select, drop, length, length-append, ◌==◌, ==_iff, string_eq, if◌then◌else◌, trim_space,
  ◌≡◌, ◌≢◌, refl, sym, ap, ◌∙◌, subst, arith,
}
use agen_sense.Voicews.Echo.{
  Unicode, RecentSpeechText, window, limit, echo_min_runes, kept, normalize_echo_text, put_last,
  cut, remember_recent_speech,
}

abbrev pub Texts : Type 0
Texts = List RecentSpeechText

pub select-mid :
    (p : RecentSpeechText → Bool) (xs : Texts) (e : RecentSpeechText) (ys : Texts)
    → p e ≡ true
    → select p (xs ++ e ∷ ys) ≡ select p xs ++ e ∷ select p ys
select-mid p [] e ys h = rw h refl
select-mid p (x ∷ xs) e ys h =
    rw (select-mid p xs e ys h) (go (p x) (select p xs) (e ∷ select p ys))
  where
    go :
        (b : Bool) (s t : Texts)
        → (if b then x ∷ (s ++ t) else s ++ t) ≡ (if b then x ∷ s else s) ++ t
    go true s t = refl
    go false s t = refl

length-select : (p : RecentSpeechText → Bool) (xs : Texts) → length (select p xs) ≤ length xs
length-select p [] = omega arith
length-select p (x ∷ xs) = go (p x) (length-select p xs)
  where
    go :
        (b : Bool)
        → length (select p xs) ≤ length xs
        → length (if b then x ∷ select p xs else select p xs) ≤ suc (length xs)
    go true h = omega (arith, h)
    go false h = omega (arith, h)

drop-append : (n : ℕ) (xs ys : Texts) → n ≤ length xs → drop n (xs ++ ys) ≡ drop n xs ++ ys
drop-append zero xs ys h = refl
drop-append (suc n) [] ys h = absurd (omega arith)
drop-append (suc n) (x ∷ xs) ys h = drop-append n xs ys (omega arith)

-- What is heard again within the window is recognised: `later` is not after the end of the window
-- that begins at `now`.
abbrev pub IsWithin : ℤ → ℤ → Type 0
IsWithin now later = ltb_ℤ now (later -ℤ window) ≡ false

-- The window of an earlier reading of the clock begins earlier.
earlier_window :
    (at t later : ℤ)
    → t ≤ℤ later
    → ltb_ℤ at (later -ℤ window) ≡ false
    → ltb_ℤ at (t -ℤ window) ≡ false
unfolding ◌-ℤ◌
earlier_window at t later h k = ground arith

pub IsWithin-later : (now t later : ℤ) → now ≤ℤ t → IsWithin now later → IsWithin t later
IsWithin-later now t later h k = ground arith

module _ (u : Unicode) where
  abbrev said : ℤ → String → RecentSpeechText
  said now text = record { text = trim_space text; at = now }

  -- Of the words `words`, and still in the window at `later`.
  abbrev Echoes : String → ℤ → RecentSpeechText → Type 0
  Echoes words later e = (normalize_echo_text u e.text ≡ words) × IsWithin e.at later

  -- Such a text is remembered, with at most k texts after it.
  abbrev pub Holds : String → ℤ → ℕ → Texts → Type 0
  Holds words later k items =
      (xs : Texts) × (e : RecentSpeechText) × (ys : Texts) × (items ≡ xs ++ e ∷ ys)
      × (length ys ≤ k)
      × Echoes words later e

  Holds-weaken :
      (words : String) (later : ℤ) (k : ℕ) (items : Texts)
      → Holds words later k items
      → Holds words later (suc k) items
  Holds-weaken words later k items (xs, e, ys, h, few, echoes) =
      (xs, e, ys, h, omega (arith, few), echoes)

  kept-Holds :
      (words : String) (t later : ℤ) (k : ℕ) (items : Texts)
      → t ≤ℤ later
      → Holds words later k items
      → Holds words later k (kept (t -ℤ window) items)
  unfolding kept
  kept-Holds words t later k items before (xs, e, ys, h, few, echoes) =
      let p = λ (item : RecentSpeechText). not (ltb_ℤ item.at (t -ℤ window)) in
      let fresh : p e ≡ true = ap not (earlier_window e.at t later before echoes.1) in
      (
        select p xs,
        e,
        select p ys,
        ap (select p) h ∙ select-mid p xs e ys fresh,
        omega (arith, few, length-select p ys),
        echoes,
      )

  length-put_last :
      (n : String) (e : RecentSpeechText) (items : Texts)
      → length (put_last u n e items) ≤ suc (length items)
  unfolding put_last
  length-put_last n e [] = omega arith
  length-put_last n e (last ∷ []) = go (normalize_echo_text u last.text == n)
    where
      go : (b : Bool) → length (if b then e ∷ [] else last ∷ e ∷ []) ≤ 2
      go true = omega arith
      go false = omega arith
  length-put_last n e (item ∷ next ∷ items) = omega (arith, length-put_last n e (next ∷ items))

  put_last-mid :
      (words : String) (later : ℤ) (k : ℕ) (new : RecentSpeechText) (xs : Texts)
      (e : RecentSpeechText) (ys : Texts)
      → length ys ≤ k
      → Echoes words later e
      → IsWithin new.at later
      → Holds words later (suc k) (put_last u (normalize_echo_text u new.text) new (xs ++ e ∷ ys))
  unfolding put_last
  put_last-mid words later k new [] e [] few echoes within =
      go (normalize_echo_text u e.text == normalize_echo_text u new.text) refl
    where
      go :
          (b : Bool)
          → (normalize_echo_text u e.text == normalize_echo_text u new.text) ≡ b
          → Holds words later (suc k) (if b then new ∷ [] else e ∷ new ∷ [])
      go true h = (
        [],
        new,
        [],
        refl,
        omega arith,
        (
          sym ((==_iff (normalize_echo_text u e.text) (normalize_echo_text u new.text)).0 h)
              ∙ echoes.0,
          within,
        ),
      )
      go false h = ([], e, new ∷ [], refl, omega arith, echoes)
  put_last-mid words later k new [] e (y ∷ ys) few echoes within = (
    [],
    e,
    put_last u (normalize_echo_text u new.text) new (y ∷ ys),
    refl,
    omega (arith, few, length-put_last (normalize_echo_text u new.text) new (y ∷ ys)),
    echoes,
  )
  put_last-mid words later k new (x ∷ []) e ys few echoes within =
      let (before, f, behind, h, n, r) = put_last-mid words later k new [] e ys few echoes within in
      (x ∷ before, f, behind, ap (λ t. x ∷ t) h, n, r)
  put_last-mid words later k new (x ∷ x' ∷ xs) e ys few echoes within =
      let (before, f, behind, h, n, r) =
        put_last-mid words later k new (x' ∷ xs) e ys few echoes within in
      (x ∷ before, f, behind, ap (λ t. x ∷ t) h, n, r)

  cut-Holds :
      (words : String) (later : ℤ) (k : ℕ) (items : Texts)
      → k ≤ 3
      → Holds words later k items
      → Holds words later k (cut u items)
  cut-Holds words later k items small (xs, e, ys, h, few, echoes) =
      subst (λ t. Holds words later k (cut u t)) (sym h) (go (ltb limit (length (xs ++ e ∷ ys))))
    where
      go :
          (b : Bool)
          → Holds words later k
              (if b then drop (length (xs ++ e ∷ ys) - limit) (xs ++ e ∷ ys) else xs ++ e ∷ ys)
      go true = (
        drop (length (xs ++ e ∷ ys) - limit) xs,
        e,
        ys,
        drop-append (length (xs ++ e ∷ ys) - limit) xs (e ∷ ys)
            (omega (arith, small, few, length-append xs (e ∷ ys))),
        few,
        echoes,
      )
      go false = (xs, e, ys, refl, few, echoes)

  -- A later text does not push it out, if there are few.
  pub remember-Holds :
      (words : String) (t later : ℤ) (text : String) (k : ℕ) (items : Texts)
      → k ≤ 2
      → t ≤ℤ later
      → IsWithin t later
      → Holds words later k items
      → Holds words later (suc k) (remember_recent_speech u t text items)
  unfolding remember_recent_speech
  remember-Holds words t later text k items small before within h =
      let (xs, e, ys, same, few, echoes) = kept-Holds words t later k items before h in
      go (trim_space text == "")
        (ltb (count (normalize_echo_text u (trim_space text))) echo_min_runes)
        (Holds-weaken words later k items h)
        (cut-Holds words later (suc k) _ (omega (arith, small)) (
          subst
            (λ z.
              Holds words later (suc k)
                (put_last u (normalize_echo_text u (trim_space text)) (said t text) z))
            (sym same) (put_last-mid words later k (said t text) xs e ys few echoes within)))
    where
      go :
          (a b : Bool) {z : Texts}
          → Holds words later (suc k) items
          → Holds words later (suc k) z
          → Holds words later (suc k) (if a then items else if b then items else z)
      go true b p q = p
      go false true p q = p
      go false false p q = q

  put_last-ends :
      (n : String) (e : RecentSpeechText) (items : Texts)
      → (xs : Texts) × (put_last u n e items ≡ xs ++ e ∷ [])
  unfolding put_last
  put_last-ends n e [] = ([], refl)
  put_last-ends n e (last ∷ []) = go (normalize_echo_text u last.text == n)
    where
      go : (b : Bool) → (xs : Texts) × ((if b then e ∷ [] else last ∷ e ∷ []) ≡ xs ++ e ∷ [])
      go true = ([], refl)
      go false = (last ∷ [], refl)
  put_last-ends n e (item ∷ next ∷ items) =
      let r = put_last-ends n e (next ∷ items) in (item ∷ r.0, ap (λ t. item ∷ t) r.1)

  pub remember_new :
      (now later : ℤ) (text : String) (items : Texts)
      → trim_space text ≢ ""
      → 8 ≤ count (normalize_echo_text u (trim_space text))
      → IsWithin now later
      → Holds
          (normalize_echo_text u (trim_space text))
          later
          0
          (remember_recent_speech u now text items)
  unfolding remember_recent_speech
  remember_new now later text items nonblank enough within =
      let words = normalize_echo_text u (trim_space text) in
      let r = put_last-ends words (said now text) (kept (now -ℤ window) items) in
      go (trim_space text == "") refl (ltb (count words) echo_min_runes) refl (
        cut-Holds words later 0 _ (omega arith)
          (r.0, said now text, [], r.1, omega arith, (refl, within)))
    where
      go :
          (a : Bool)
          → (trim_space text == "") ≡ a
          → (b : Bool) → ltb (count (normalize_echo_text u (trim_space text))) echo_min_runes ≡ b
          → {t : Texts} → Holds (normalize_echo_text u (trim_space text)) later 0 t
          → Holds
              (normalize_echo_text u (trim_space text))
              later
              0
              (if a then items else if b then items else t)
      go true ha b hb r = absurd (nonblank ((==_iff (trim_space text) "").0 ha))
      go false ha true hb r = absurd (ground arith)
      go false ha false hb r = r
