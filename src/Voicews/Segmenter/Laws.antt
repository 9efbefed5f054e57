-- ===== src/Voicews/Segmenter/Laws.antt =====
-- What realtimeTTSSegmenter makes of a reply.
use Prim.Native.Char.{Char, code}
use Prim.Native.String.{◌++◌ as join}
use mathlib.Core.List.{append_assoc as list_assoc, append-nil as list_nil}
use text.Mathlib.TextLemmas.{append-nil, nil-append, append_assoc, cons-append}
use agen_sense.Prelude.{
  suc, String, Bool, true, false, List, [], ◌∷◌, ◌++◌, ◌≡◌, refl, sym, ap, ◌∙◌, ◌==◌, ==_iff,
  string_eq, if◌then◌else◌, trim_space, spread, spread-append, spread-trim_space, shown,
  shown-SkipsSpaces,
}
use agen_sense.Voicews.Segmenter.{
  Env, Segmenter, new_segmenter, append_flushed, written, is_end, add_rune, add_from, add, flush,
}

-- What a list of texts shows, in order.
unfoldable pub shows : List String → String
shows [] = ""
shows (x ∷ xs) = join (spread shown x) (shows xs)

shows-append :
    (xs : List String) (x : String) → shows (xs ++ x ∷ []) ≡ join (shows xs) (spread shown x)
unfolding shows
shows-append [] x = rw (append-nil (spread shown x), nil-append (spread shown x)) refl
shows-append (y ∷ xs) x =
    rw (shows-append xs x) (sym (append_assoc (spread shown y) (shows xs) (spread shown x)))

-- What was cut off already shows, and then what waits.
abbrev total : List String × Segmenter → String
total r = join (shows r.0) (spread shown r.1.buf)

total-flushed : (xs : List String) (s : Segmenter) → total (append_flushed xs s) ≡ total (xs, s)
unfolding append_flushed spread
total-flushed xs s = go (trim_space s.buf) (spread-trim_space shown shown-SkipsSpaces s.buf) _ refl
  where
    go :
        (t : String)
        → spread shown t ≡ spread shown s.buf
        → (b : Bool) → (t == "") ≡ b
        → total (if b then xs else xs ++ t ∷ [], new_segmenter) ≡ total (xs, s)
    go t e true h = ap (join (shows xs)) (sym (ap (spread shown) ((==_iff t "").0 h)) ∙ e)
    go t e false h = append-nil _ ∙ shows-append xs t ∙ ap (join (shows xs)) e

total-written :
    (c : Char) (xs : List String) (s : Segmenter)
    → total (xs, written c s) ≡ join (total (xs, s)) (shown c)
unfolding spread
total-written c xs s =
    rw (spread-append shown s.buf (String.◌∷◌ c ""), append-nil (shown c))
      (sym (append_assoc (shows xs) (spread shown s.buf) (shown c)))

module _ (env : Env) where
  total-add_rune :
      (c : Char) (xs : List String) (s : Segmenter)
      → total (add_rune env c xs s) ≡ join (total (xs, s)) (shown c)
  unfolding add_rune
  total-add_rune c xs s = go (is_end env (code c) (suc s.rune_count))
    where
      go :
          (b : Bool)
          → total (if b then append_flushed xs (written c s) else (xs, written c s))
            ≡ join (total (xs, s)) (shown c)
      go true = total-flushed xs (written c s) ∙ total-written c xs s
      go false = total-written c xs s

  total-add_from :
      (text : String) (xs : List String) (s : Segmenter)
      → total (add_from env text xs s) ≡ join (total (xs, s)) (spread shown text)
  unfolding add_from spread
  total-add_from String.[] xs s = sym (append-nil _)
  total-add_from (String.◌∷◌ c text) xs s =
      let next = add_rune env c xs s in
      total-add_from text next.0 next.1
      ∙ ap (λ t. join t (spread shown text)) (total-add_rune c xs s)
      ∙ append_assoc (total (xs, s)) (shown c) (spread shown text)

  pub add-add_from : (text : String) (s : Segmenter) → add env text s ≡ add_from env text [] s
  unfolding add add_from
  add-add_from text s = go text (text == "") refl
    where
      go :
          (t : String) (b : Bool)
          → (t == "") ≡ b
          → (if b then ([], s) else add_from env t [] s) ≡ add_from env t [] s
      go t true h = sym (ap (λ u. add_from env u [] s) ((==_iff t "").0 h))
      go t false h = refl

  -- The segments and the segmenter after a piece, with those of before in front.
  abbrev after : List String → List String × Segmenter → List String × Segmenter
  after xs r = (xs ++ r.0, r.1)

  flushed-after :
      (xs ys : List String) (s : Segmenter)
      → append_flushed (xs ++ ys) s ≡ after xs (append_flushed ys s)
  unfolding append_flushed
  flushed-after xs ys s = go (trim_space s.buf) (trim_space s.buf == "")
    where
      go :
          (t : String) (b : Bool)
          → ((if b then xs ++ ys else (xs ++ ys) ++ t ∷ []), new_segmenter)
            ≡ after xs ((if b then ys else ys ++ t ∷ []), new_segmenter)
      go t true = refl
      go t false = ap (λ zs. (zs, new_segmenter)) (list_assoc xs ys (t ∷ []))

  rune-after :
      (c : Char) (xs ys : List String) (s : Segmenter)
      → add_rune env c (xs ++ ys) s ≡ after xs (add_rune env c ys s)
  unfolding add_rune
  rune-after c xs ys s = go (is_end env (code c) (suc s.rune_count))
    where
      go :
          (b : Bool)
          → (if b then append_flushed (xs ++ ys) (written c s) else (xs ++ ys, written c s))
            ≡ after xs (if b then append_flushed ys (written c s) else (ys, written c s))
      go true = flushed-after xs ys (written c s)
      go false = refl

  from-after :
      (text : String) (xs ys : List String) (s : Segmenter)
      → add_from env text (xs ++ ys) s ≡ after xs (add_from env text ys s)
  unfolding add_from
  from-after String.[] xs ys s = refl
  from-after (String.◌∷◌ c text) xs ys s =
      rw (rune-after c xs ys s) (from-after text xs (add_rune env c ys s).0 (add_rune env c ys s).1)

  from-join :
      (t u : String) (xs : List String) (s : Segmenter)
      → add_from env (join t u) xs s
        ≡ add_from env u (add_from env t xs s).0 (add_from env t xs s).1
  unfolding add_from
  from-join String.[] u xs s = rw (nil-append u) refl
  from-join (String.◌∷◌ c t) u xs s =
      rw (cons-append c t u) (from-join t u (add_rune env c xs s).0 (add_rune env c xs s).1)

  -- The texts that runResponse gives to the synthesis for the pieces of a reply.
  unfoldable pub spoken_from : List String → Segmenter → List String
  spoken_from [] s = (flush s).0
  spoken_from (piece ∷ pieces) s = let r = add env piece s in r.0 ++ spoken_from pieces r.1

  unfoldable pub whole : List String → String
  whole [] = ""
  whole (piece ∷ pieces) = join piece (whole pieces)

  spoken_from_lem :
      (pieces : List String) (s : Segmenter)
      → spoken_from pieces s
        ≡ (append_flushed
            (add_from env (whole pieces) [] s).0
            (add_from env (whole pieces) [] s).1).0
  unfolding spoken_from whole add_from flush
  spoken_from_lem [] s = refl
  spoken_from_lem (piece ∷ pieces) s =
      let r = add_from env piece [] s in
      let q = add_from env (whole pieces) [] r.1 in
      rw (add-add_from piece s, spoken_from_lem pieces r.1, from-join piece (whole pieces) [] s)
        (ap (λ t. t.0) (sym (flushed-after r.0 q.0 q.1))
          ∙ ap (λ t. (append_flushed t.0 t.1).0) (sym (from-after (whole pieces) r.0 [] r.1))
          ∙ ap
              (λ xs.
                (append_flushed (add_from env (whole pieces) xs r.1).0
                  (add_from env (whole pieces) xs r.1).1).0)
              (list_nil r.0))

  -- However a reply comes in pieces, the same segments are spoken as for the whole reply at once.
  pub spoken_from-whole :
      (pieces : List String)
      → spoken_from pieces new_segmenter ≡ spoken_from (whole pieces ∷ []) new_segmenter
  unfolding whole
  spoken_from-whole pieces =
      spoken_from_lem pieces new_segmenter
      ∙ sym (
          spoken_from_lem (whole pieces ∷ []) new_segmenter
          ∙ ap
              (λ t.
                (append_flushed (add_from env t [] new_segmenter).0
                  (add_from env t [] new_segmenter).1).0)
              (append-nil (whole pieces)))

  -- The spoken segments show, in order, every character of the reply that is not a space, once.
  pub shows-spoken_from :
      (pieces : List String)
      → shows (spoken_from pieces new_segmenter) ≡ spread shown (whole pieces)
  unfolding shows append_flushed spread
  shows-spoken_from pieces =
      let r = add_from env (whole pieces) [] new_segmenter in
      ap shows (spoken_from_lem pieces new_segmenter)
      ∙ sym (append-nil _)
      ∙ total-flushed r.0 r.1
      ∙ total-add_from (whole pieces) [] new_segmenter
      ∙ nil-append _
