-- ===== src/Protocol/Stream/Grammar.antt =====
-- What internal/protocol/stream_tracker.go accepts.
use agen_sense.Prelude.{
  ℕ, zero, pos, suc, ◌+◌, Option, none, some, List, [], ◌∷◌, ◌++◌, ◌≡◌, refl, sym, subst, ap, ◌∙◌,
  arith, ◌↔◌, ==_iff, string_eq, int_eq, inl, inr, Option-cases,
}
use agen_sense.Protocol.Types.{AudioStartPayload, AudioStopPayload}
use agen_sense.Protocol.Validate.{Check, validate_audio_start}
use agen_sense.Protocol.Stream.{StreamTracker, new_tracker, start, add_frame, stop}

pub data Call : Type 0 where
  starts : AudioStartPayload → Call
  frame : Call
  stops : AudioStopPayload → Call

unfoldable pub call : Call → StreamTracker → Check × StreamTracker
call (starts p) = start p
call frame = add_frame
call (stops q) = stop q

-- The tracker after calls that all succeed; `none` when one of them fails.
unfoldable pub run : List Call → StreamTracker → Option StreamTracker
run [] t = some t
run (c ∷ cs) t = let rest = run cs (call c t).1 in elim (call c t).0 [ none ↦ rest | some e ↦ none ]

abbrev pub frames : ℕ → List Call
frames zero = []
frames (suc n) = frame ∷ frames n

-- Streams one after the other, each with a valid start, some frames, and a stop that names the
-- stream and the number of its frames.
pub data Turns : List Call → Type 0 where
  finished : Turns []
  turn :
      {p : AudioStartPayload} {n : ℕ} {q : AudioStopPayload} {cs : List Call}
      → validate_audio_start p ≡ none
      → q.stream_id ≡ p.stream_id
      → q.last_seq ≡ pos n
      → Turns cs
      → Turns (starts p ∷ (frames n ++ stops q ∷ cs))

abbrev at : Option AudioStartPayload → ℕ → StreamTracker
at o k = record { active = o; frame_count = k }

-- What is left to call when the tracker is in a state.
abbrev Remains : Option AudioStartPayload → ℕ → List Call → Type 0
Remains none k cs = Turns cs
Remains (some p) k cs =
    (n : ℕ) × (q : AudioStopPayload) × (rest : List Call) × (cs ≡ frames n ++ stops q ∷ rest)
    × (q.stream_id ≡ p.stream_id)
    × (q.last_seq ≡ pos (k + n))
    × Turns rest

-- The call that opens a stream, when it is accepted.
run-starts :
    (p : AudioStartPayload) (cs : List Call) (k : ℕ)
    → run (starts p ∷ cs) (at none k) ≡ some new_tracker
    → (validate_audio_start p ≡ none) × (run cs (at (some p) 0) ≡ some new_tracker)
unfolding run call start
run-starts p cs k h = elim (Option-cases (validate_audio_start p)) [
  | inl ok ↦ (ok, cc)
  | inr (e, bad) ↦ absurd (cc)
]

starts-run :
    (p : AudioStartPayload) (cs : List Call) (k : ℕ)
    → validate_audio_start p ≡ none
    → run (starts p ∷ cs) (at none k) ≡ run cs (at (some p) 0)
unfolding run call start
starts-run p cs k ok = cc

-- The call that ends a stream, when it is accepted.
run-stops :
    (q : AudioStopPayload) (p : AudioStartPayload) (cs : List Call) (k : ℕ)
    → run (stops q ∷ cs) (at (some p) k) ≡ some new_tracker
    → (q.stream_id ≡ p.stream_id) × (q.last_seq ≡ pos k) × (run cs new_tracker ≡ some new_tracker)
unfolding run call stop
run-stops q p cs k h = ground (arith, ==_iff q.stream_id p.stream_id, ==_iff q.last_seq (pos k))

stops-run :
    (q : AudioStopPayload) (p : AudioStartPayload) (cs : List Call) (k : ℕ)
    → q.stream_id ≡ p.stream_id
    → q.last_seq ≡ pos k
    → run (stops q ∷ cs) (at (some p) k) ≡ run cs new_tracker
unfolding run call stop
stops-run q p cs k same count =
    ground (arith, ==_iff q.stream_id p.stream_id, ==_iff q.last_seq (pos k))

run-Remains :
    (cs : List Call) (o : Option AudioStartPayload) (k : ℕ)
    → run cs (at o k) ≡ some new_tracker
    → Remains o k cs
unfolding run call start add_frame stop
run-Remains [] none k h = finished
run-Remains [] (some p) k h = absurd (cc)
run-Remains (starts p ∷ cs) none k h =
    let (valid, opened) = run-starts p cs k h in
    let (n, q, rest, e, same, count, turns) = run-Remains cs (some p) 0 opened in
    subst (λ x. Turns (starts p ∷ x)) (sym e) (turn valid same (count ∙ ap pos (omega arith)) turns)
run-Remains (starts p ∷ cs) (some p') k h = absurd (cc)
run-Remains (frame ∷ cs) none k h = absurd (cc)
run-Remains (frame ∷ cs) (some p) k h =
    let (n, q, rest, e, same, count, turns) = run-Remains cs (some p) (suc k) h in
    (suc n, q, rest, ap (frame ∷◌) e, same, count ∙ ap pos (omega arith), turns)
run-Remains (stops q ∷ cs) none k h = absurd (cc)
run-Remains (stops q ∷ cs) (some p) k h =
    let (same, count, closed) = run-stops q p cs k h in
    (0, q, cs, refl, same, count ∙ ap pos (omega arith), run-Remains cs none 0 closed)

run-frames :
    (n : ℕ) (rest : List Call) (p : AudioStartPayload) (k : ℕ)
    → run (frames n ++ rest) (at (some p) k) ≡ run rest (at (some p) (k + n))
unfolding run call add_frame
run-frames zero rest p k = ap (λ m. run rest (at (some p) m)) (omega arith)
run-frames (suc n) rest p k =
    run-frames n rest p (suc k) ∙ ap (λ m. run rest (at (some p) m)) (omega arith)

Turns-run : {cs : List Call} → Turns cs → run cs new_tracker ≡ some new_tracker
unfolding run
Turns-run finished = refl
Turns-run (turn {p} {n} {q} {cs} valid same count rest) =
    starts-run p (frames n ++ stops q ∷ cs) 0 valid
    ∙ run-frames n (stops q ∷ cs) p 0
    ∙ stops-run q p cs (0 + n) same (count ∙ ap pos (omega arith))
    ∙ Turns-run rest

-- From a new tracker, calls of Start, AddFrame and Stop that all succeed and leave no stream open
-- are exactly those of a sequence of streams, each with a valid start, some n frames, and a stop
-- that carries the stream's id and n.
pub run_iff : (cs : List Call) → (run cs new_tracker ≡ some new_tracker) ↔ Turns cs
run_iff cs = (run-Remains cs none 0, Turns-run)
