-- ===== src/Store/Repository/FlushLaws.antt =====
-- What a flush of internal/store/file_repository.go does to the state and to the file.
use agen_sense.Prelude.{
  String, Option, none, some, Result, ok, err, other, ◌≡◌, ◌≢◌, refl, ap, ◌⊎◌, inl, inr, arith,
  lookup, lookup-insert, lookup-insert_self, insert, remove, ==_iff, string_eq, Option-cases,
}
use Prim.Native.String.{len}
use text.Mathlib.TextPositions.{len-append}
use agen_sense.Store.State.{persisted_copy}
use agen_sense.Store.Disk.{JsonCodec, Fault, succeeds, fails, write_file, rename, first, others}
use agen_sense.Store.Repository.Flush.{
  FileRepository, flush_locked, write_payload, stamped, tmp_path,
}

module _ (C : JsonCodec) where
  write_payload_keeps :
      (p : Option C.Bytes) (r : FileRepository C)
      → ((write_payload C p r).1.data_ ≡ r.data_)
        × (((write_payload C p r).0 ≡ ok tt)
            ⊎ ((e : String) × ((write_payload C p r).0 ≡ err (other e))))
  unfolding write_payload write_file rename
  write_payload_keeps none r = (refl, inr ("json: cannot marshal", refl))
  write_payload_keeps (some b) r = ground arith

  -- A flush leaves the maps alone, and its error, if any, is not one of the package's own.
  pub flush_locked_keeps :
      (r : FileRepository C)
      → ((flush_locked C r).1.data_.tables ≡ r.data_.tables)
        × (((flush_locked C r).0 ≡ ok tt) ⊎ ((e : String) × ((flush_locked C r).0 ≡ err (other e))))
  unfolding flush_locked
  flush_locked_keeps r =
      let kept =
        write_payload_keeps (C.encode (persisted_copy (stamped C r).data_)) (stamped C r) in
      ground arith

  tmp_path-ne-path : (path : String) → tmp_path C path ≢ path
  tmp_path-ne-path path e = absurd (omega (arith, len-append path ".tmp", ap len e))

  -- Either a step succeeded and the file holds the payload, or it failed and the file is as it was.
  abbrev Replaced : C.Bytes → FileRepository C → Result (Unit {0}) × FileRepository C → Type 0
  Replaced b r (result, r') =
      ((result ≡ ok tt) × (lookup r.path r'.disk.files ≡ some b))
      ⊎ ((e : String) × (result ≡ err (other e))
          × (lookup r.path r'.disk.files ≡ lookup r.path r.disk.files))

  aside :
      (x : C.Bytes) (r : FileRepository C)
      → lookup r.path (insert (tmp_path C r.path) x r.disk.files) ≡ lookup r.path r.disk.files
  aside x r =
      let ne = tmp_path-ne-path r.path in
      ground (
        arith,
        lookup-insert (tmp_path C r.path) r.path x r.disk.files,
        ==_iff (tmp_path C r.path) r.path,
      )

  write_payload_atomic :
      (b : C.Bytes) (r : FileRepository C) → Replaced b r (write_payload C (some b) r)
  unfolding write_payload write_file rename
  write_payload_atomic b r =
      split (first C r.disk.faults) (first C (others C r.disk.faults)) refl refl
    where
      split :
          (f g : Fault C)
          → first C r.disk.faults ≡ f
          → first C (others C r.disk.faults) ≡ g
          → Replaced b r (write_payload C (some b) r)
      split (fails e none) g p q = inr (e, ground arith, ground arith)
      split (fails e (some left)) g p q = inr (e, ground arith, ground (arith, aside left r))
      split succeeds (fails e left) p q =
          let there = lookup-insert_self (tmp_path C r.path) b r.disk.files in
          inr (e, ground arith, ground (arith, aside b r))
      split succeeds succeeds p q =
          let there = lookup-insert_self (tmp_path C r.path) b r.disk.files in
          let moved =
            lookup-insert_self r.path b
              (remove (tmp_path C r.path) (insert (tmp_path C r.path) b r.disk.files)) in
          inl (ground arith, ground arith)

  -- With any faults of the file system, a flush either succeeds and the file then holds the encoded
  -- state, or returns an error of encoding/json or of the file system and the file holds what it
  -- held before.
  pub flush_locked_atomic :
      (r : FileRepository C)
      → ((b : C.Bytes) × (C.encode (persisted_copy (stamped C r).data_) ≡ some b)
          × ((flush_locked C r).0 ≡ ok tt)
          × (lookup r.path (flush_locked C r).1.disk.files ≡ some b))
        ⊎ ((e : String) × ((flush_locked C r).0 ≡ err (other e))
            × (lookup r.path (flush_locked C r).1.disk.files ≡ lookup r.path r.disk.files))
  unfolding flush_locked
  flush_locked_atomic r = elim (Option-cases (C.encode (persisted_copy (stamped C r).data_))) [
    | inl e ↦ inr ("json: cannot marshal", ground arith, ground arith)
    | inr (b, e) ↦ let result = write_payload_atomic b (stamped C r) in ground arith
  ]
