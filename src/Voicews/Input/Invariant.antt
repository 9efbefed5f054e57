-- ===== src/Voicews/Input/Invariant.antt =====
-- Every handler of the input keeps a session consistent.
use agen_sense.Prelude.{
  ℕ, ℤ, pos, Bool, true, false, not, ◌||◌, Option, none, some, List, [], ◌∷◌, ◌==◌, string_eq,
  int_eq, is_positive, nat_beq, if◌then◌else◌, ◌≡◌, refl, sym, subst, ◌⊎◌, inl, inr, arith,
}
use agen_sense.Protocol.Types.{AudioStartPayload, AudioStopPayload, ProtocolError, stream_state}
use agen_sense.Protocol.Stream.{
  StreamTracker, new_tracker, start, stop, active_stream, opened, start_from, stop_from,
}
use agen_sense.Protocol.Validate.{Check, validate_audio_start}
use agen_sense.Voicews.State.{Levels, Session, Handled, Output}
use agen_sense.Voicews.Input.{
  begin_input, started, handle_audio_start, cancel_response, complete_open_trace,
  cancel_partial_asr_locked, set_aside,
}
use agen_sense.Voicews.Input.Chunks.{handle_audio_chunk, end_partial}
use agen_sense.Voicews.Input.Stops.{
  end_input, finish_input, stopped, stop_of, handle_audio_stop, cancel_input,
}
use agen_sense.Voicews.Input.Segments.{streaming, IsConsistent, chunk-IsConsistent}

-- The requests that change the input of a session, with readings of the clock, and the end of a
-- partial transcription.
pub data Request : Type 0 where
  starts : ℤ → AudioStartPayload → Request
  chunk : ℤ → List ℕ → Request
  stops : AudioStopPayload → Request
  cancels : Request
  partial_ends : ℕ → Request

module _ (L : Levels) where
  Consistent : Handled L → Type 0
  Consistent r = IsConsistent L r.1

  either :
      (b : Bool) (x y : Handled L) → Consistent x → Consistent y → Consistent (if b then x else y)
  either true x y p q = p
  either false x y p q = q

  -- A tracker that refuses a stream is as before, one that takes it has it.
  start_cases :
      (p : AudioStartPayload) (t : StreamTracker)
      → ((e : ProtocolError) × (start p t ≡ (some e, t))) ⊎ (start p t ≡ (none, streaming p 0))
  unfolding start
  start_cases p t = go t.active (validate_audio_start p)
    where
      check :
          (c : Check)
          → ((e : ProtocolError) × (opened c p t ≡ (some e, t)))
            ⊎ (opened c p t ≡ (none, streaming p 0))
      check none = inr refl
      check (some e) = inl (e, refl)

      go :
          (o : Option AudioStartPayload)
          → Check
          → ((e : ProtocolError) × (start_from o p t ≡ (some e, t)))
            ⊎ (start_from o p t ≡ (none, streaming p 0))
      go (some q) c = inl (_, refl)
      go none c = check (validate_audio_start p)

  end_partial-IsConsistent :
      (run_id : ℕ) (s : Session L) → IsConsistent L s → IsConsistent L (end_partial L run_id s)
  unfolding end_partial
  end_partial-IsConsistent run_id s (c, h) = go (nat_beq s.partial.run_id run_id)
    where
      go :
          (b : Bool)
          → IsConsistent L (
              if b
              then record s { partial = record s.partial { in_flight = false; cancel = none } }
              else s)
      go true = (refl, h)
      go false = (c, h)

  pub cancel_input-IsConsistent : (s : Session L) → IsConsistent L (cancel_input L s).0
  unfolding cancel_input cancel_partial_asr_locked
  cancel_input-IsConsistent s = (refl, inl refl)

  stop_cases :
      (q : AudioStopPayload) (t : StreamTracker)
      → ((e : ProtocolError) × (stop q t ≡ (some e, t))) ⊎ (stop q t ≡ (none, new_tracker))
  unfolding stop
  stop_cases q t = go t.active
    where
      tested :
          (a b : Bool)
          → let r : Check × StreamTracker =
              if a
              then (some stream_state, t)
              else if b
              then (some stream_state, t)
              else (none, new_tracker) in
            ((e : ProtocolError) × (r ≡ (some e, t))) ⊎ (r ≡ (none, new_tracker))
      tested true b = inl (_, refl)
      tested false true = inl (_, refl)
      tested false false = inr refl

      go :
          (o : Option AudioStartPayload)
          → ((e : ProtocolError) × (stop_from o q t ≡ (some e, t)))
            ⊎ (stop_from o q t ≡ (none, new_tracker))
      go none = inl (_, refl)
      go (some p) =
          tested (not (q.stream_id == p.stream_id)) (not (q.last_seq == pos t.frame_count))

  finish-IsConsistent :
      (q : AudioStopPayload) (s ended : Session L) (outs : List (Output L))
      → IsConsistent L ended
      → Consistent (finish_input L q s ended outs)
  unfolding finish_input Consistent
  finish-IsConsistent q s ended outs h =
      either s.inbound.echo_guard _ _ h (either (not s.has_asr) _ _ h h)

  end_input-IsConsistent :
      (q : AudioStopPayload) (t : StreamTracker) (s : Session L)
      → t.active ≡ none
      → IsConsistent L (end_input L q t s).1
  unfolding end_input cancel_partial_asr_locked
  end_input-IsConsistent q t s idle = (refl, inl idle)

  stopped-IsConsistent :
      (q : AudioStopPayload) (s : Session L)
      → IsConsistent L s
      → Consistent (stopped L q (stop q s.inbound.tracker) s)
  unfolding Consistent
  stopped-IsConsistent q s h = go (stop_cases q s.inbound.tracker)
    where
      go :
          ((e : ProtocolError) × (stop q s.inbound.tracker ≡ (some e, s.inbound.tracker)))
            ⊎ (stop q s.inbound.tracker ≡ (none, new_tracker))
          → Consistent (stopped L q (stop q s.inbound.tracker) s)
      go (inl (e, r)) = subst (λ x. Consistent (stopped L q x s)) (sym r) h
      go (inr r) = subst (λ x. Consistent (stopped L q x s)) (sym r) (ended new_tracker refl)
        where
          ended : (t : StreamTracker) → t.active ≡ none → Consistent (stopped L q (none, t) s)
          ended t idle =
              finish-IsConsistent q s (end_input L q t s).1 _ (end_input-IsConsistent q t s idle)

  stop-IsConsistent :
      (q : AudioStopPayload) (s : Session L)
      → IsConsistent L s
      → Consistent (handle_audio_stop L q s)
  unfolding handle_audio_stop active_stream Consistent
  stop-IsConsistent q s h = go s.inbound.tracker.active
    where
      go :
          (o : Option AudioStartPayload)
          → Consistent (
              stop_of L q
                (elim o [ none ↦ none | some p ↦ some (p, s.inbound.tracker.frame_count) ])
                s)
      go none = h
      go (some p) = either (not (q.stream_id == p.stream_id)) _ _ h (
          either (not (q.last_seq == pos s.inbound.tracker.frame_count)) _ _ h
            (stopped-IsConsistent q s h))

  started-IsConsistent :
      (now : ℤ) (p : AudioStartPayload) (s : Session L) (outs : List (Output L))
      → IsConsistent L s
      → Consistent (started L now p (start p s.inbound.tracker) s outs)
  unfolding begin_input Consistent
  started-IsConsistent now p s outs h = go (start_cases p s.inbound.tracker)
    where
      go :
          ((e : ProtocolError) × (start p s.inbound.tracker ≡ (some e, s.inbound.tracker)))
            ⊎ (start p s.inbound.tracker ≡ (none, streaming p 0))
          → Consistent (started L now p (start p s.inbound.tracker) s outs)
      go (inl (e, r)) = subst (λ x. Consistent (started L now p x s outs)) (sym r) h
      go (inr r) =
          subst (λ x. Consistent (started L now p x s outs)) (sym r)
            (refl, inr (p, refl, (refl, omega arith), omega arith))

  unchanged : (r : Handled L) → IsConsistent L r.1 → Consistent r
  unfolding Consistent
  unchanged r h = h

  set_aside-IsConsistent : (s : Session L) → IsConsistent L s → IsConsistent L (set_aside L s).0
  unfolding set_aside cancel_response complete_open_trace cancel_partial_asr_locked
  set_aside-IsConsistent s h = (refl, h.1)

  start-IsConsistent :
      (now : ℤ) (p : AudioStartPayload) (s : Session L)
      → IsConsistent L s
      → Consistent (handle_audio_start L now p s)
  unfolding handle_audio_start
  start-IsConsistent now p s h = either (p.stream_id == "") _ _ (unchanged _ h) (
      either (not (p.codec == "pcm_s16le")) _ _ (unchanged _ h) (
        either (not (is_positive p.sample_rate_hz) || not (is_positive p.channels)) _ _
          (unchanged _ h)
          (started-IsConsistent now p (set_aside L s).0 (set_aside L s).1
            (set_aside-IsConsistent s h))))

  unfoldable pub handle : Request → Session L → Session L
  handle (starts now p) s = (handle_audio_start L now p s).1
  handle (chunk now payload) s = (handle_audio_chunk L now payload s).1
  handle (stops q) s = (handle_audio_stop L q s).1
  handle cancels s = (cancel_input L s).0
  handle (partial_ends run_id) s = end_partial L run_id s

  unfoldable pub handle_all : List Request → Session L → Session L
  handle_all [] s = s
  handle_all (r ∷ rs) s = handle_all rs (handle r s)

  pub handle-IsConsistent :
      (r : Request) (s : Session L) → IsConsistent L s → IsConsistent L (handle r s)
  unfolding handle Consistent
  handle-IsConsistent (starts now p) s h = start-IsConsistent now p s h
  handle-IsConsistent (chunk now payload) s h = chunk-IsConsistent L now payload s h
  handle-IsConsistent (stops q) s h = stop-IsConsistent q s h
  handle-IsConsistent cancels s h = cancel_input-IsConsistent s
  handle-IsConsistent (partial_ends run_id) s h = end_partial-IsConsistent run_id s h

  -- Any requests, accepted or refused, keep a consistent session consistent: a partial
  -- transcription is in flight exactly while it can be cancelled, and while a stream runs, the
  -- tracker has counted the chunks, a segment is open exactly while there is speech, it begins
  -- within the received audio, and the last partial transcription had no more than the received
  -- audio.
  pub handle_all-IsConsistent :
      (rs : List Request) (s : Session L) → IsConsistent L s → IsConsistent L (handle_all rs s)
  unfolding handle_all
  handle_all-IsConsistent [] s h = h
  handle_all-IsConsistent (r ∷ rs) s h =
      handle_all-IsConsistent rs (handle r s) (handle-IsConsistent r s h)
