-- ===== src/Trace/Invariant.antt =====
-- The invariant of the store of internal/debugtrace/store.go.
use agen_sense.Prelude.{
  ℕ, zero, suc, ◌-◌, ◌≤◌, ◌<◌, ℤ, pos, String, Bool, true, false, ◌||◌, Option, none, some, List,
  [], ◌∷◌, ◌++◌, length, drop, ltb, Map, lookup, insert, remove, lookup-insert, lookup-remove, ◌≡◌,
  refl, ap, sym, subst, ◌∙◌, arith, length-drop, ==_iff, ◌==◌, string_eq, Bool-cases, inl, inr,
}
use agen_sense.Device.Model.{Time}
use agen_sense.Trace.Types.{Floats, TraceMeta, TraceRecord}
use agen_sense.Trace.Store.{
  AssetDisk, Store, new_store_with_asset_dir, start_trace, evict, remove_trace_assets, mutate,
  changed, stamped, new_record, trace_id_of,
}
use agen_sense.Trace.Changes.{Method, Call, change, after, after_all}
use agen_sense.Trace.Bounds.{IsBounded, kept, change-Bounded}

abbrev pub has : String → List String → Bool
has x [] = false
has x (y ∷ ys) = y == x || has x ys

has-append :
    (x : String) (ys : List String) (z : String) → has x (ys ++ (z ∷ [])) ≡ (has x ys || z == x)
has-append x [] z = ground arith
has-append x (y ∷ ys) z = ground (arith, has-append x ys z)

drop_nil : (n : ℕ) → ◌≡◌ {A = List String} (drop n []) []
drop_nil zero = refl
drop_nil (suc n) = refl

module _ (F : Floats) (base : String → String) where
  -- What is left of the order.
  evict-drop :
      (limit : ℕ) (dir : String) (order : List String) (traces : Map String (TraceRecord F))
      (d : AssetDisk)
      → (evict F base limit dir order traces d).0 ≡ drop (length order - limit) order
  unfolding evict
  evict-drop limit dir [] traces d = sym (drop_nil (0 - limit))
  evict-drop limit dir (x ∷ order) traces d = elim (Bool-cases (ltb limit (length (x ∷ order)))) [
    | inl e ↦
        let later =
          evict-drop limit dir order (remove x traces) (remove_trace_assets F base dir x d) in
        let more : length (x ∷ order) - limit ≡ suc (length order - limit) = ground arith in
        rw e (later ∙ sym (ap (λ n. drop n (x ∷ order)) more))
    | inr e ↦
        let fits : length (x ∷ order) - limit ≡ 0 = ground arith in
        rw e (sym (ap (λ n. drop n (x ∷ order)) fits))
  ]

  evict-lookup :
      (limit : ℕ) (dir : String) (order : List String) (traces : Map String (TraceRecord F))
      (d : AssetDisk) (id : String) (r : TraceRecord F)
      → lookup id (evict F base limit dir order traces d).1 ≡ some r
      → lookup id traces ≡ some r
  unfolding evict
  evict-lookup limit dir [] traces d id r h = h
  evict-lookup limit dir (x ∷ order) traces d id r h =
      let later =
        evict-lookup limit dir order (remove x traces) (remove_trace_assets F base dir x d) id r in
      let removed = lookup-remove x id traces in ground arith

  -- Every stored trace has its place in the order.
  abbrev Ordered : List String → Map String (TraceRecord F) → Type 0
  Ordered order traces =
      (id : String) (r : TraceRecord F) → lookup id traces ≡ some r → has id order ≡ true

  evict-Ordered :
      (limit : ℕ) (dir : String) (order : List String) (traces : Map String (TraceRecord F))
      (d : AssetDisk)
      → Ordered order traces
      → Ordered (evict F base limit dir order traces d).0 (evict F base limit dir order traces d).1
  unfolding evict
  evict-Ordered limit dir [] traces d ordered = ordered
  evict-Ordered limit dir (x ∷ order) traces d ordered =
      elim (Bool-cases (ltb limit (length (x ∷ order)))) [
        | inl e ↦ rw e (
            evict-Ordered limit dir order (remove x traces) (remove_trace_assets F base dir x d)
              (λ id r h. ground (arith, ordered id r, lookup-remove x id traces, ==_iff x id)))
        | inr e ↦ rw e ordered
      ]

  -- The limits hold, and every stored trace is bounded and has its place in the order.
  pub record IsSound (max : ℕ) (s : Store F base) : Type 0 where
    pub size : s.max_asset_size ≡ pos max
    pub count : length s.order ≤ s.limit
    pub ordered :
        (id : String) (r : TraceRecord F) → lookup id s.traces ≡ some r → has id s.order ≡ true
    pub bounded :
        (id : String) (r : TraceRecord F)
        → lookup id s.traces ≡ some r
        → IsBounded max (kept F base r)

  pub new_store_with_asset_dir-IsSound :
      (limit : ℤ) (dir : String) (d : AssetDisk) (clock : ℕ → Time)
      → IsSound 8388608 (new_store_with_asset_dir F base limit dir d clock)
  unfolding new_store_with_asset_dir lookup
  new_store_with_asset_dir-IsSound limit dir d clock = record {
    size = refl;
    count = omega arith;
    ordered = λ id r h. cc;
    bounded = λ id r h. cc;
  }

  module _ {max : ℕ} (positive : 0 < max) {s : Store F base} (sound : IsSound max s) where
    new_record-IsBounded :
        (id kind source : String) (meta : TraceMeta) (now : Time)
        → IsBounded max (kept F base (new_record F base id kind source meta now))
    unfolding lookup
    new_record-IsBounded id kind source meta now = record {
      input = omega arith;
      tts = omega arith;
      raw = omega arith;
      assets = λ name a h. cc;
      llm = λ stage h. cc;
    }

    -- A record that is put in the map.
    stored-IsBounded :
        (new_id : String) (fresh : TraceRecord F)
        → IsBounded max (kept F base fresh)
        → (id : String) (r : TraceRecord F) → lookup id (insert new_id fresh s.traces) ≡ some r
        → IsBounded max (kept F base r)
    stored-IsBounded new_id fresh b id r h =
        let after_insert = lookup-insert new_id id fresh s.traces in
        elim (Bool-cases (new_id == id)) [
          | inl e ↦
              let same : fresh ≡ r = ground (arith, after_insert, e, h) in
              subst (λ c. IsBounded max (kept F base c)) same b
          | inr e ↦ sound.bounded id r (ground (arith, after_insert, e, h))
        ]

    start_trace-IsSound :
        (kind source : String) (meta : TraceMeta)
        → IsSound max (start_trace F base kind source meta s).1
    unfolding start_trace
    start_trace-IsSound kind source meta =
        let now = s.clock s.readings in
        let new_id = trace_id_of F base now (suc s.seq) in
        let fresh = new_record F base new_id kind source meta now in
        let order = s.order ++ (new_id ∷ []) in
        let traces = insert new_id fresh s.traces in
        record {
          size = sound.size;
          count =
              let kept_order = evict-drop s.limit s.asset_dir order traces s.disk in
              let n = length-drop (length order - s.limit) order in
              let e = ap length kept_order in omega arith;
          ordered = evict-Ordered s.limit s.asset_dir order traces s.disk (λ id r h. ground (
            arith,
            lookup-insert new_id id fresh s.traces,
            sound.ordered id r,
            has-append id s.order new_id,
          ));
          bounded = λ id r h.
              stored-IsBounded new_id fresh (new_record-IsBounded new_id kind source meta now) id r
                (evict-lookup s.limit s.asset_dir order traces s.disk id r h);
        }

    changed-IsSound :
        (m : Method F base) (id : String) (o : Option (TraceRecord F))
        → lookup id s.traces ≡ o
        → IsSound max (changed F base (change F base s.max_asset_size s.asset_dir m) id s o)
    changed-IsSound m id none e = sound
    changed-IsSound m id (some r) e =
        let now = s.clock s.readings in
        let result =
          subst
            (λ size.
              IsBounded max (kept F base (change F base size s.asset_dir m now (r, s.disk)).0))
            (sym sound.size)
            (change-Bounded F base positive s.asset_dir now s.disk m r (sound.bounded id r e)) in
        record {
          size = sound.size;
          count = sound.count;
          ordered = λ other c h. ground (
            arith,
            lookup-insert id other
                (stamped F base now
                  (change F base s.max_asset_size s.asset_dir m now (r, s.disk)).0)
                s.traces,
            sound.ordered other c,
            sound.ordered id r,
            e,
            h,
            ==_iff id other,
          );
          bounded = stored-IsBounded id _ result;
        }

    mutate-IsSound :
        (m : Method F base) (id : String)
        → IsSound max (mutate F base (change F base s.max_asset_size s.asset_dir m) id s)
    unfolding mutate
    mutate-IsSound m id = changed-IsSound m id (lookup id s.traces) refl

  after-IsSound :
      {max : ℕ}
      → 0 < max
      → {s : Store F base} → IsSound max s
      → (c : Call F base) → IsSound max (after F base s c)
  unfolding after
  after-IsSound positive sound (Call.starts kind source meta) =
      start_trace-IsSound positive sound kind source meta
  after-IsSound positive sound (Call.calls id m) = mutate-IsSound positive sound m id

  -- With a positive size limit, any sequence of started traces and of methods of their handles
  -- keeps a sound store sound: there are at most as many ids in the order as the limit of traces,
  -- every stored trace has its place there, no audio that a trace keeps is longer than the size
  -- limit, and of the texts that a chat has counted as many are kept, 2048 at most, with the mark
  -- of a cut exactly when there were more.
  pub after_all-IsSound :
      {max : ℕ}
      → 0 < max
      → (cs : List (Call F base)) (s : Store F base) → IsSound max s
      → IsSound max (after_all F base s cs)
  unfolding after_all
  after_all-IsSound positive [] s sound = sound
  after_all-IsSound positive (c ∷ cs) s sound =
      after_all-IsSound positive cs (after F base s c) (after-IsSound positive sound c)
