-- ===== src/Store/Repository/Reload.antt =====
-- Restarting on the file of internal/store/file_repository.go: what survives.
use agen_sense.Prelude.{
  ℕ, String, none, some, [], ◌∷◌, Map, ◌≡◌, ◌≢◌, refl, ap, ◌∙◌, arith, ok, lookup, lookup-insert,
  lookup-insert_self, subst, false, map_values, lookup-map_values, IsUnique, image, string_eq,
  ==_iff, inl, inr,
}
use agen_sense.Device.Model.{
  Time, IssuedDeviceToken, clone_issued_device_token, clone_issued_device_token_lem, clone_device,
}
use agen_sense.Device.Tables.{Tables}
use agen_sense.Device.Memory.Invariant.{IsWellFormed, after-IsWellFormed}
use agen_sense.Device.Memory.TokenLaws.{
  found_by_hash, found_by_hash_lem, saved, save_issued_device_token_lem,
}
use agen_sense.Device.Memory.Tokens
use agen_sense.Device.Memory.Tokens.{clashes}
use agen_sense.Device.Memory.Changes.{Call, after}
use agen_sense.Store.State.{FileState, persisted_copy, normalize_state, index_of}
use agen_sense.Store.Disk.{JsonCodec, Disk, RoundTrips, reread, reread_device, mkdir_all, read_file}
use agen_sense.Store.Repository.Flush.{FileRepository, new_file_repository, flush_locked, stamped}
use agen_sense.Store.Repository.FlushLaws.{flush_locked_keeps, flush_locked_atomic}
use agen_sense.Store.Repository.Methods
use agen_sense.Store.Repository.Methods.{assign, tables_of}

copied : (m : Map String IssuedDeviceToken) → map_values clone_issued_device_token m ≡ m
unfolding map_values
copied [] = refl
copied ((k, t) ∷ m) = cc (clone_issued_device_token_lem t, copied m)

-- Tokens with the same hash are the same token.
abbrev HashesDiffer : Map String IssuedDeviceToken → Type 0
HashesDiffer m =
    (i j : String) (t u : IssuedDeviceToken)
    → lookup i m ≡ some t
    → lookup j m ≡ some u
    → t.token_hash ≡ u.token_hash
    → i ≡ j

HashesDiffer-tail :
    (k : String) (v : IssuedDeviceToken) (m : Map String IssuedDeviceToken)
    → lookup k m ≡ none
    → HashesDiffer ((k, v) ∷ m)
    → HashesDiffer m
unfolding lookup
HashesDiffer-tail k v m fresh h i j t u p q e =
    h i j t u (ground (arith, ==_iff k i)) (ground (arith, ==_iff k j)) e

-- The rebuilt index leads from the hash of each token to that token.
index_of-leads :
    (m : Map String IssuedDeviceToken) (id : String) (t : IssuedDeviceToken)
    → IsUnique m
    → HashesDiffer m
    → lookup id m ≡ some t
    → t.token_hash ≢ ""
    → lookup t.token_hash (index_of m) ≡ some id
unfolding lookup index_of
index_of-leads [] id t unique differ p n = absurd (cc)
index_of-leads ((k, v) ∷ m) id t unique differ p n = ground (
  arith,
  index_of-leads m id t unique.1 (HashesDiffer-tail k v m unique.0 differ),
  differ k id v t,
  lookup-insert v.token_hash t.token_hash k (index_of m),
  ==_iff k id,
  ==_iff k k,
  ==_iff v.token_hash "",
  ==_iff v.token_hash t.token_hash,
)

module _ (C : JsonCodec) where
  -- The state that a restart builds from a state that was written.
  abbrev pub reread_state : FileState → FileState
  reread_state s = normalize_state (reread C (persisted_copy s))

  -- The disk as a later process finds it, when its own calls do not fail.
  abbrev pub later : Disk C → Disk C
  later d = record { files = d.files; faults = [] }

  -- When a flush succeeds, the file has a name and encoding/json decodes what it encodes,
  -- NewFileRepository on that file succeeds and holds the state that was flushed, as decoding and
  -- normalizing give it back.
  flush-new_file_repository :
      (r : FileRepository C) (clock : ℕ → Time)
      → RoundTrips C
      → r.path ≢ ""
      → (flush_locked C r).0 ≡ ok tt
      → (r' : FileRepository C) × (new_file_repository C r.path
            (later (flush_locked C r).1.disk)
            clock
          ≡ ok r')
        × (r'.data_ ≡ reread_state (stamped C r).data_)
  unfolding new_file_repository mkdir_all read_file
  flush-new_file_repository r clock round named flushed = elim (flush_locked_atomic C r) [
    | inl (b, encoded, _, stored) ↦
        let (decoded, full) = round (persisted_copy (stamped C r).data_) b encoded in
        (
          record {
            path = r.path;
            data_ = reread_state (stamped C r).data_;
            disk = later (flush_locked C r).1.disk;
            clock = clock;
            readings = 0;
          },
          ground (arith, ==_iff r.path ""),
          refl,
        )
    | inr (e, failed, _) ↦ absurd (cc)
  ]

  tokens-HashesDiffer : (s : Tables) → IsWellFormed s → HashesDiffer s.issued_tokens
  tokens-HashesDiffer s w i j t u p q e = ground (arith, w.indexed i t p, w.indexed j u q)

  -- In well-formed maps, a stored token with a hash is found by that hash after the state has been
  -- written, read and normalized, through the index that normalizeState builds.
  reread-found_by_hash :
      (s : FileState) (id : String) (t : IssuedDeviceToken)
      → IsWellFormed s.tables
      → lookup id s.issued_tokens ≡ some t
      → t.token_hash ≢ ""
      → found_by_hash t.token_hash (reread_state s).tables ≡ some t
  unfolding normalize_state persisted_copy reread
  reread-found_by_hash s id t w stored hashed =
      let same = copied s.issued_tokens in
      found_by_hash_lem t.token_hash id t _
        (rw same (
          index_of-leads s.issued_tokens id t w.unique (tokens-HashesDiffer s.tables w) stored
            hashed))
        (rw same (rw same stored))

  -- After the state has been written, read and normalized, each device is stored as before but for
  -- its capabilities, which are as the copies and the file give them back.
  reread-devices :
      (s : FileState) (id : String)
      → lookup id (reread_state s).devices
        ≡ image (λ d. clone_device (reread_device C (clone_device d))) (lookup id s.devices)
  unfolding normalize_state persisted_copy reread
  reread-devices s id = ground (
    arith,
    lookup-map_values clone_device id
        (map_values (reread_device C) (map_values clone_device s.devices)),
    lookup-map_values (reread_device C) id (map_values clone_device s.devices),
    lookup-map_values clone_device id s.devices,
  )

  -- The repository when SaveIssuedDeviceToken flushes.
  abbrev with_token : IssuedDeviceToken → FileRepository C → FileRepository C
  with_token t r = (assign C (saved t) r).1

  save_issued_device_token_flushed :
      (t u : IssuedDeviceToken) (r : FileRepository C)
      → (Methods.save_issued_device_token C t r).0 ≡ ok u
      → ((Methods.save_issued_device_token C t r).1 ≡ (flush_locked C (with_token t r)).1)
        × ((flush_locked C (with_token t r)).0 ≡ ok tt)
        × (clashes (lookup t.token_hash (tables_of C r).token_index) t.id ≡ false)
  unfolding Methods.save_issued_device_token
  save_issued_device_token_flushed t u r h =
      let copy = clone_issued_device_token_lem t in
      let kept = flush_locked_keeps C (with_token t r) in (ground arith, ground arith, ground arith)

  saved-IsWellFormed :
      (t : IssuedDeviceToken) (s : Tables)
      → IsWellFormed s
      → clashes (lookup t.token_hash s.token_index) t.id ≡ false
      → IsWellFormed (saved t s)
  unfolding after
  saved-IsWellFormed t s w free =
      let step : (Tokens.save_issued_device_token t s).1 ≡ saved t s =
        ground (arith, save_issued_device_token_lem t s) in
      subst IsWellFormed step (after-IsWellFormed (Call.save_issued_device_token t) w)

  -- When SaveIssuedDeviceToken of the repository over a file succeeds on well-formed maps for a
  -- token with a hash, the file has a name and encoding/json decodes what it encodes, then
  -- NewFileRepository on that file succeeds, and in the maps that it reads the token is found by
  -- its hash.
  pub save-restart-find :
      (t u : IssuedDeviceToken) (r : FileRepository C) (clock : ℕ → Time)
      → RoundTrips C
      → r.path ≢ ""
      → t.token_hash ≢ ""
      → IsWellFormed (tables_of C r)
      → (Methods.save_issued_device_token C t r).0 ≡ ok u
      → (r' : FileRepository C) × (new_file_repository C r.path
            (later (Methods.save_issued_device_token C t r).1.disk)
            clock
          ≡ ok r')
        × (found_by_hash t.token_hash (tables_of C r') ≡ some t)
  save-restart-find t u r clock round named hashed w saved_ok =
      let (same, flushed, free) = save_issued_device_token_flushed t u r saved_ok in
      let (r', opens, state) =
        flush-new_file_repository (with_token t r) clock round named flushed in
      (
        r',
        rw same opens,
        ap (λ (d : FileState). found_by_hash t.token_hash d.tables) state
            ∙ (reread-found_by_hash (stamped C (with_token t r)).data_ t.id t
                (saved-IsWellFormed t (tables_of C r) w free)
                (lookup-insert_self t.id t (tables_of C r).issued_tokens) hashed),
      )
