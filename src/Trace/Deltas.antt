-- ===== src/Trace/Deltas.antt =====
-- What a trace of internal/debugtrace/store.go keeps of the texts of a chat: StartLLM and
-- AddLLMDelta of its handle, one after another.
use Prim.Native.String.{◌++◌ as joined}
use agen_sense.Prelude.{
  ℕ, zero, suc, ◌+◌, min, String, Bool, true, some, List, [], ◌∷◌, ◌++◌, map, length, take, ltb,
  lookup, lookup-insert, ==_refl, string_eq, if◌then◌else◌, ◌≡◌, refl, sym, ap, subst, ◌∙◌, arith,
  length-append, length-take,
}
use mathlib.Core.List.{append_assoc, append-nil}
use agen_sense.Provider.Types.{ChatMessage}
use agen_sense.Trace.Types.{Floats, LlmStage, TraceRecord}
use agen_sense.Trace.Store.{Store, mutate, stamped}
use agen_sense.Trace.Handle
use agen_sense.Trace.Changes.{Method, Call, change, after, after_all}

take_snoc :
    (n : ℕ) (xs : List String) (x : String)
    → take n (xs ++ x ∷ []) ≡ (if ltb (length xs) n then take n xs ++ x ∷ [] else take n xs)
take_snoc zero xs x = ground arith
take_snoc (suc zero) [] x = refl
take_snoc (suc (suc n)) [] x = ground arith
take_snoc (suc n) (y ∷ xs) x = rw (take_snoc n xs x) (ground arith)

-- The texts in one, after a text.
abbrev pub said : String → List String → String
said text [] = text
said text (x ∷ xs) = said (joined text x) xs

said_snoc :
    (text : String) (xs : List String) (x : String)
    → said text (xs ++ x ∷ []) ≡ joined (said text xs) x
said_snoc text [] x = refl
said_snoc text (y ∷ xs) x = said_snoc (joined text y) xs x

-- The stage has counted the texts, keeps the first 2048, tells whether there were more, and has all
-- of them as its response.
abbrev pub HasHeard : List String → LlmStage → Type 0
HasHeard xs stage =
    (stage.deltas ≡ take 2048 xs)
    × (stage.deltas_truncated ≡ ltb 2048 (length xs))
    × (stage.delta_count ≡ length xs)
    × (stage.response_text ≡ said "" xs)

room : (n m k : ℕ) → n ≡ min k m → ltb n k ≡ ltb m k
room n m k e = ground arith

cut_next :
    (m l k : ℕ) (cut : Bool) → cut ≡ ltb k m → l ≡ m + 1 → (if ltb m k then cut else true) ≡ ltb k l
cut_next m l k cut c e = ground arith

room_left :
    (xs deltas : List String)
    → deltas ≡ take 2048 xs
    → ltb (length deltas) 2048 ≡ ltb (length xs) 2048
room_left xs deltas d = room _ _ 2048 (ap length d ∙ length-take 2048 xs)

more_kept :
    (xs deltas : List String) (x : String)
    → deltas ≡ take 2048 xs
    → (if ltb (length deltas) 2048 then deltas ++ x ∷ [] else deltas) ≡ take 2048 (xs ++ x ∷ [])
more_kept xs deltas x d =
    ap (λ b. if b then deltas ++ x ∷ [] else deltas) (room_left xs deltas d)
    ∙ ap (λ ds. if ltb (length xs) 2048 then ds ++ x ∷ [] else ds) d
    ∙ sym (take_snoc 2048 xs x)

more_cut :
    (xs deltas : List String) (cut : Bool) (x : String)
    → deltas ≡ take 2048 xs
    → cut ≡ ltb 2048 (length xs)
    → (if ltb (length deltas) 2048 then cut else true) ≡ ltb 2048 (length (xs ++ x ∷ []))
more_cut xs deltas cut x d c =
    ap (λ b. if b then cut else true) (room_left xs deltas d)
    ∙ cut_next (length xs) _ 2048 cut c (length-append xs (x ∷ []))

module _ (F : Floats) (base : String → String) where
  -- A stored trace, whose chat is `messages` with the texts as its response.
  abbrev pub Hears : String → List ChatMessage → List String → Store F base → Type 0
  Hears id messages xs s =
      (r : TraceRecord F) × (stage : LlmStage) × (lookup id s.traces ≡ some r)
      × (r.trace.llm ≡ some stage)
      × (stage.messages ≡ messages)
      × HasHeard xs stage

  mutate-lookup :
      (m : Method F base) (id : String) (s : Store F base) (r : TraceRecord F)
      → lookup id s.traces ≡ some r
      → lookup id (after F base s (Call.calls id m)).traces
        ≡ some (
            stamped F base
              (s.clock s.readings)
              (change F base s.max_asset_size s.asset_dir m (s.clock s.readings) (r, s.disk)).0)
  unfolding after mutate
  mutate-lookup m id s r e =
      let f = change F base s.max_asset_size s.asset_dir m in
      let next = stamped F base (s.clock s.readings) (f (s.clock s.readings) (r, s.disk)).0 in
      let own = lookup-insert id id next s.traces in let self = ==_refl id in rw e (rw self at own)

  start-Hears :
      (id : String) (messages : List ChatMessage) (s : Store F base) (r : TraceRecord F)
      → lookup id s.traces ≡ some r
      → Hears id messages [] (after F base s (Call.calls id (Method.start_llm messages)))
  unfolding change Handle.start_llm
  start-Hears id messages s r e = (
    _,
    _,
    mutate-lookup (Method.start_llm messages) id s r e,
    refl,
    refl,
    (refl, refl, refl, refl),
  )

  delta-Hears :
      (id : String) (messages : List ChatMessage) (xs : List String) (x : String) (s : Store F base)
      → Hears id messages xs s
      → Hears id messages (xs ++ x ∷ []) (after F base s (Call.calls id (Method.add_llm_delta x)))
  unfolding change Handle.add_llm_delta
  delta-Hears id messages xs x s (r, stage, e, l, m, h) =
      let same : Handle.ensure_llm F base r ≡ stage = rw l refl in
      let (d, c, n, t) = subst (HasHeard xs) (sym same) h in
      (
        _,
        _,
        mutate-lookup (Method.add_llm_delta x) id s r e,
        refl,
        ap (λ (k : LlmStage). k.messages) same ∙ m,
        (
          more_kept xs _ x d,
          more_cut xs _ _ x d c,
          ap suc n ∙ sym (omega (arith, length-append xs (x ∷ []))),
          ap (λ k. joined k x) t ∙ sym (said_snoc "" xs x),
        ),
      )

  deltas_lem :
      (id : String) (messages : List ChatMessage) (xs ys : List String) (s : Store F base)
      → Hears id messages xs s
      → Hears id messages
          (xs ++ ys)
          (after_all F base s (map (λ y. Call.calls id (Method.add_llm_delta y)) ys))
  unfolding after_all
  deltas_lem id messages xs [] s h = subst (λ zs. Hears id messages zs s) (sym (append-nil xs)) h
  deltas_lem id messages xs (y ∷ ys) s h =
      subst
        (λ zs. Hears id messages zs (
          after_all F base (after F base s (Call.calls id (Method.add_llm_delta y)))
            (map (λ z. Call.calls id (Method.add_llm_delta z)) ys)))
        (append_assoc xs (y ∷ []) ys)
        (deltas_lem id messages (xs ++ y ∷ []) ys _ (delta-Hears id messages xs y s h))

  -- A chat that is started on the handle of a stored trace and then given texts one after another
  -- is stored with its messages, the number of the texts, the first 2048 of them in their order, a
  -- mark exactly when there were more, and all of them joined as the response.
  pub chat_lem :
      (id : String) (messages : List ChatMessage) (texts : List String) (s : Store F base)
      (r : TraceRecord F)
      → lookup id s.traces ≡ some r
      → Hears id messages texts (
          after_all F base s (
            Call.calls id (Method.start_llm messages)
            ∷ map (λ text. Call.calls id (Method.add_llm_delta text)) texts))
  unfolding after_all
  chat_lem id messages texts s r e =
      deltas_lem id messages [] texts _ (start-Hears id messages s r e)
