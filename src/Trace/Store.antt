-- ===== src/Trace/Store.antt =====
-- internal/debugtrace/store.go: the store, its limit, and how a handle changes a record. A method
-- that holds the lock is one step. The clock is the sequence of its readings.
--
-- The asset directory is a map from a trace's directory to its files; a call of the file system
-- fails as the list of faults says. filepath.Base is a parameter. The number of a trace does not
-- wrap.
use agen_sense.Prelude.{
  ℕ, suc, ℤ, pos, ◌-ℤ◌, quot, div_floor, String, false, ◌||◌, Option, none, some, List, [], ◌∷◌,
  ◌++◌, length, ltb, nat_beq, Map, lookup, insert, remove, ◌==◌, string_eq, if◌then◌else◌,
  print_int, print_padded,
}
use Prim.Native.String.{◌++◌ as joined}
use agen_sense.Device.Model.{Time, zero_time}
use agen_sense.Trace.Audio.{Bytes}
use agen_sense.Trace.Types.{
  Floats, TraceMeta, TraceEvent, StoredAsset, no_format, Trace, TraceRecord,
}

abbrev pub default_trace_limit : ℕ
default_trace_limit = 64

abbrev pub default_max_asset_size : ℤ
default_max_asset_size = pos 8388608

-- Failures of the file system, one entry for each call; no entry is a success.
pub record AssetDisk : Type 0 where
  pub dirs : Map String (Map String Bytes)
  pub faults : List (Option String)

abbrev first : List (Option String) → Option String
first [] = none
first (f ∷ fs) = f

abbrev others : List (Option String) → List (Option String)
others [] = []
others (f ∷ fs) = fs

abbrev files_of : Option (Map String Bytes) → Map String Bytes
files_of none = []
files_of (some m) = m

-- os.MkdirAll and os.WriteFile of a trace's file: the error, if any, and the disk.
unfoldable pub write_asset : String → String → Bytes → AssetDisk → Option String × AssetDisk
write_asset dir name data_ d = elim (first d.faults) [
  | some e ↦ (some e, record d { faults = others d.faults })
  | none ↦ elim (first (others d.faults)) [
    | some e ↦ (some e, record d { faults = others (others d.faults) })
    | none ↦ (
      none,
      record {
        dirs = insert dir (insert name data_ (files_of (lookup dir d.dirs))) d.dirs;
        faults = others (others d.faults);
      },
    )
  ]
]

-- `now.Sub(start).Milliseconds()`
abbrev pub ms_between : Time → Time → ℤ
ms_between start now = quot (now -ℤ start) 1000000

-- time.Time.UnixMilli, from nanoseconds since the zero time.
abbrev unix_milli : Time → ℤ
unix_milli t = div_floor (t -ℤ pos 62135596800000000000) 1000000

module _ (F : Floats) (base : String → String) where
  pub record Store : Type 0 where
    pub limit : ℕ
    pub max_asset_size : ℤ
    pub asset_dir : String
    pub seq : ℕ
    pub order : List String
    pub traces : Map String (TraceRecord F)
    pub disk : AssetDisk
    pub clock : ℕ → Time
    pub readings : ℕ

  -- A limit that is not positive is replaced.
  unfoldable pub new_store_with_asset_dir : ℤ → String → AssetDisk → (ℕ → Time) → Store
  new_store_with_asset_dir limit asset_dir disk clock = record {
    limit = elim limit [ pos (suc n) ↦ suc n | _ ↦ default_trace_limit ];
    max_asset_size = default_max_asset_size;
    asset_dir = asset_dir;
    seq = 0;
    order = [];
    traces = [];
    disk = disk;
    clock = clock;
    readings = 0;
  }

  abbrev event : Time → String → Bytes → TraceEvent
  event at name detail = record { at = at; name = name; detail = detail }

  abbrev pub new_record : String → String → String → TraceMeta → Time → TraceRecord F
  new_record trace_id kind source meta now = record {
    trace = record {
      id = trace_id;
      kind = kind;
      source = source;
      status = "running";
      meta = meta;
      error = "";
      started_at = now;
      updated_at = now;
      completed_at = zero_time;
      total_duration_ms = pos 0;
      input_audio_format = no_format;
      input_audio = none;
      asr = none;
      llm = none;
      tts = none;
      segments = [];
      timeline = event now "trace.started" [] ∷ [];
    };
    input_audio_data = [];
    input_audio_mime = "";
    tts_audio_data = [];
    tts_audio_mime = "";
    tts_raw = [];
    tts_raw_truncated = false;
    segment_audio = [];
  }

  -- The error of os.RemoveAll is dropped; a failed call leaves the directory.
  unfoldable pub remove_trace_assets : String → String → AssetDisk → AssetDisk
  remove_trace_assets asset_dir trace_id d =
      if asset_dir == "" || trace_id == "" then d else (elim (first d.faults) [
        | some e ↦ record d { faults = others d.faults }
        | none ↦ record { dirs = remove (base trace_id) d.dirs; faults = others d.faults }
      ])

  -- The loop that drops the oldest traces while there are more than the limit.
  unfoldable pub evict :
      ℕ
      → String
      → List String
      → Map String (TraceRecord F)
      → AssetDisk
      → List String × Map String (TraceRecord F) × AssetDisk
  unfolding remove_trace_assets
  evict limit asset_dir [] traces d = ([], traces, d)
  evict limit asset_dir (evict_id ∷ order) traces d =
      let rest =
        evict limit asset_dir order (remove evict_id traces)
          (remove_trace_assets asset_dir evict_id d) in
      if ltb limit (length (evict_id ∷ order)) then rest else (evict_id ∷ order, traces, d)

  abbrev pub trace_id_of : Time → ℕ → String
  trace_id_of now n =
      joined "trace_" (joined (print_int (unix_milli now)) (joined "_" (print_padded n)))

  -- The handle is the id of its trace.
  unfoldable pub start_trace : String → String → TraceMeta → Store → String × Store
  unfolding evict
  start_trace kind source meta s =
      let now = s.clock s.readings in
      let trace_id = trace_id_of now (suc s.seq) in
      let (order, traces, disk) =
        evict s.limit s.asset_dir (s.order ++ (trace_id ∷ []))
          (insert trace_id (new_record trace_id kind source meta now) s.traces) s.disk in
      (
        trace_id,
        record s {
          seq = suc s.seq;
          order = order;
          traces = traces;
          disk = disk;
          readings = suc s.readings;
        },
      )

  abbrev found_in : Map String (TraceRecord F) → List String → List (Trace F)
  found_in traces [] = []
  found_in traces (trace_id ∷ order) =
      let rest = found_in traces order in
      elim (lookup trace_id traces) [ none ↦ rest | some r ↦ r.trace ∷ rest ]

  abbrev pub reversed : List String → List String
  reversed [] = []
  reversed (x ∷ xs) = reversed xs ++ (x ∷ [])

  -- Newest first. The copies that are handed out are equal to what they copy.
  unfoldable pub list_ : Store → List (Trace F)
  list_ s = found_in s.traces (reversed s.order)

  unfoldable pub get : String → Store → Option (Trace F)
  get trace_id s = elim (lookup trace_id s.traces) [ none ↦ none | some r ↦ some r.trace ]

  abbrev not_empty : Bytes → String → Option (Bytes × String)
  not_empty [] mime = none
  not_empty (b ∷ bs) mime = some (b ∷ bs, mime)

  abbrev segment_asset : Option StoredAsset → Option (Bytes × String)
  segment_asset none = none
  segment_asset (some a) = not_empty a.data_ a.mime

  unfoldable pub read_asset : String → String → Store → Option (Bytes × String)
  read_asset trace_id name s = elim (lookup trace_id s.traces) [
    | none ↦ none
    | some r ↦
        if name == "input.wav"
        then not_empty r.input_audio_data r.input_audio_mime
        else if name == "tts.wav"
        then not_empty r.tts_audio_data r.tts_audio_mime
        else segment_asset (lookup name r.segment_audio)
  ]

  -- What a handle's method does to its record and to the disk at a time.
  abbrev pub Change : Type 0
  Change = Time → TraceRecord F × AssetDisk → TraceRecord F × AssetDisk

  abbrev pub stamped : Time → TraceRecord F → TraceRecord F
  stamped now r = record r { trace = record r.trace { updated_at = now } }

  -- A handle whose trace is gone does nothing.
  abbrev pub changed : Change → String → Store → Option (TraceRecord F) → Store
  changed f trace_id s none = s
  changed f trace_id s (some r) =
      let now = s.clock s.readings in
      let (r', disk) = f now (r, s.disk) in
      record s {
        traces = insert trace_id (stamped now r') s.traces;
        disk = disk;
        readings = suc s.readings;
      }

  unfoldable pub mutate : Change → String → Store → Store
  mutate f trace_id s = changed f trace_id s (lookup trace_id s.traces)

  -- The error of persistAsset, if any, and the disk.
  unfoldable pub persist_asset :
      String → TraceRecord F → String → Bytes → AssetDisk → Option String × AssetDisk
  unfolding write_asset
  persist_asset asset_dir r name data_ d =
      if asset_dir == "" || nat_beq (length data_) 0
      then (none, d)
      else write_asset r.trace.id (base name) data_ d
